-- ===== src/Cluster/View/Newest.antt =====
-- What a view knows after gossip: the newest configuration and the newest leader.
use regatta.Prelude.{
  ℕ, ◌≡◌, ◌≢◌, ◌≤◌, ◌⊎◌, inl, inr, refl, ◌∙◌, true, false, Option, none, some, List, [], ◌∷◌, ltb,
  ◌==◌, if◌then◌else◌, Bool-cases, Option-cases, arith,
}
use regatta.Cluster.View.{
  ShardView, View, no_leader, merge_shard_info, blank, or_blank, update_one, update,
}

abbrev pub HasAny : {A : Type 0} → (A → Type 0) → List A → Type 0
HasAny P [] = ⊥
HasAny P (x ∷ xs) = P x ⊎ HasAny P xs

abbrev pub HasAll : {A : Type 0} → (A → Type 0) → List A → Type 0
HasAll P [] = Unit
HasAll P (x ∷ xs) = P x × HasAll P xs

-- Whether what `s` says of the leader is no newer than `r`.
abbrev pub LeaderUpTo : {N : Type 0} → ShardView N → ShardView N → Type 0
LeaderUpTo r s = (s.leader_id ≡ no_leader) ⊎ ((r.leader_id ≢ no_leader) × (s.term ≤ r.term))

-- The nodes of `r` are those of a source with the largest index of its configuration, and its leader
-- is that of a source with the largest term among the sources that know a leader.
pub record IsNewest {N : Type 0} (sources : List (ShardView N)) (r : ShardView N) : Type 0 where
  pub config_from :
      HasAny (λ s. (s.nodes ≡ r.nodes) × (s.config_change_index ≡ r.config_change_index)) sources
  pub config_max : HasAll (λ s. s.config_change_index ≤ r.config_change_index) sources
  pub leader_from : HasAny (λ s. (s.leader_id ≡ r.leader_id) × (s.term ≡ r.term)) sources
  pub leader_max : HasAll (LeaderUpTo r) sources

-- The updates about a shard.
unfoldable pub about : {N : Type 0} → ℕ → List (ShardView N) → List (ShardView N)
about id [] = []
about id (u ∷ us) = let rest = about id us in if id == u.shard_id then u ∷ rest else rest

-- The merge has the configuration of the one or the other, which is no older.
merge-config :
    {N : Type 0} (c u : ShardView N)
    → ((c.nodes ≡ (merge_shard_info c u).nodes)
        × (c.config_change_index ≡ (merge_shard_info c u).config_change_index)
        × (u.config_change_index ≤ c.config_change_index))
      ⊎ ((u.nodes ≡ (merge_shard_info c u).nodes)
          × (u.config_change_index ≡ (merge_shard_info c u).config_change_index)
          × (c.config_change_index ≤ u.config_change_index))
unfolding merge_shard_info
merge-config c u = elim (Bool-cases (ltb c.config_change_index u.config_change_index)) [
  | inl newer ↦ inr (ground (arith, newer), ground (arith, newer), ground (arith, newer))
  | inr older ↦ inl (ground (arith, older), ground (arith, older), ground (arith, older))
]

merge-leader :
    {N : Type 0} (c u : ShardView N)
    → ((c.leader_id ≡ (merge_shard_info c u).leader_id)
        × (c.term ≡ (merge_shard_info c u).term)
        × LeaderUpTo c u)
      ⊎ ((u.leader_id ≡ (merge_shard_info c u).leader_id)
          × (u.term ≡ (merge_shard_info c u).term)
          × LeaderUpTo u c)
unfolding merge_shard_info
merge-leader c u = elim (Bool-cases (u.leader_id == no_leader)) [
  | inl absent ↦ inl (ground (arith, absent), ground (arith, absent), inl (ground (arith, absent)))
  | inr leads ↦ elim (Bool-cases (c.leader_id == no_leader)) [
    | inl absent ↦
        inr (
          ground (arith, leads, absent),
          ground (arith, leads, absent),
          inl (ground (arith, absent)),
        )
    | inr led ↦ elim (Bool-cases (ltb c.term u.term)) [
      | inl newer ↦ inr (
        ground (arith, leads, led, newer),
        ground (arith, leads, led, newer),
        inr (ground (arith, leads), ground (arith, newer)),
      )
      | inr older ↦ inl (
        ground (arith, leads, led, older),
        ground (arith, leads, led, older),
        inr (ground (arith, led), ground (arith, older)),
      )
    ]
  ]
]

LeaderUpTo-trans :
    {N : Type 0} (r m s : ShardView N) → LeaderUpTo r m → LeaderUpTo m s → LeaderUpTo r s
LeaderUpTo-trans r m s h (inl e) = inl e
LeaderUpTo-trans r m s (inl e) (inr k) = absurd (k.0 e)
LeaderUpTo-trans r m s (inr h) (inr k) = inr (h.0, omega (arith, h.1, k.1))

-- What holds of the merge holds of one of the two.
HasAny-choose :
    {A : Type 0} (P : A → Type 0) (c u m : A) (us : List A)
    → ((P m → P c) ⊎ (P m → P u))
    → HasAny P (m ∷ us)
    → HasAny P (c ∷ u ∷ us)
HasAny-choose P c u m us (inl f) (inl h) = inl (f h)
HasAny-choose P c u m us (inr f) (inl h) = inr (inl (f h))
HasAny-choose P c u m us f (inr h) = inr (inr h)

LeaderUpTo-same :
    {N : Type 0} (s m : ShardView N) → s.leader_id ≡ m.leader_id → s.term ≡ m.term → LeaderUpTo m s
LeaderUpTo-same s m e t = elim (Bool-cases (s.leader_id == no_leader)) [
  | inl absent ↦ inl (ground (arith, absent))
  | inr leads ↦ inr (ground (arith, leads, e), omega (arith, t))
]

LeaderUpTo-merge :
    {N : Type 0} (c u : ShardView N)
    → LeaderUpTo (merge_shard_info c u) c × LeaderUpTo (merge_shard_info c u) u
LeaderUpTo-merge c u = elim (merge-leader c u) [
  | inl k ↦
      let same = LeaderUpTo-same c (merge_shard_info c u) k.0 k.1 in
      (same, LeaderUpTo-trans (merge_shard_info c u) c u same k.2)
  | inr k ↦
      let same = LeaderUpTo-same u (merge_shard_info c u) k.0 k.1 in
      (LeaderUpTo-trans (merge_shard_info c u) u c same k.2, same)
]

merge-IsNewest :
    {N : Type 0} (c u r : ShardView N) (us : List (ShardView N))
    → IsNewest (merge_shard_info c u ∷ us) r
    → IsNewest (c ∷ u ∷ us) r
merge-IsNewest c u r us h = record {
  config_from =
      HasAny-choose _ c u (merge_shard_info c u) us
        (elim (merge-config c u) [
          | inl k ↦ inl (λ q. (k.0 ∙ q.0, k.1 ∙ q.1))
          | inr k ↦ inr (λ q. (k.0 ∙ q.0, k.1 ∙ q.1))
        ])
        h.config_from;
  config_max = elim (merge-config c u) [
    | inl k ↦ (
      omega (arith, k.1, k.2, h.config_max.0),
      (omega (arith, k.1, k.2, h.config_max.0), h.config_max.1),
    )
    | inr k ↦ (
      omega (arith, k.1, k.2, h.config_max.0),
      (omega (arith, k.1, k.2, h.config_max.0), h.config_max.1),
    )
  ];
  leader_from =
      HasAny-choose _ c u (merge_shard_info c u) us
        (elim (merge-leader c u) [
          | inl k ↦ inl (λ q. (k.0 ∙ q.0, k.1 ∙ q.1))
          | inr k ↦ inr (λ q. (k.0 ∙ q.0, k.1 ∙ q.1))
        ])
        h.leader_from;
  leader_max =
      let (of_c, of_u) = LeaderUpTo-merge c u in
      (
        LeaderUpTo-trans r (merge_shard_info c u) c h.leader_max.0 of_c,
        (LeaderUpTo-trans r (merge_shard_info c u) u h.leader_max.0 of_u, h.leader_max.1),
      );
}

start-IsNewest : {N : Type 0} (c : ShardView N) → IsNewest (c ∷ []) c
start-IsNewest c = record {
  config_from = inl (refl, refl);
  config_max = (omega arith, tt);
  leader_from = inl (refl, refl);
  leader_max = (LeaderUpTo-same c c refl refl, tt);
}

module _ {N : Type 0} (no_nodes : N) where
  -- What is known of a shard after the updates: nothing without an update, and the newest of what was
  -- known and of the updates about it otherwise.
  abbrev pub Knows : ℕ → Option (ShardView N) → List (ShardView N) → Option (ShardView N) → Type 0
  Knows id none [] known = known ≡ none
  Knows id current us none = ⊥
  Knows id current us (some r) = IsNewest (or_blank no_nodes id current ∷ us) r

  -- One round, for the shard of the update and for another one.
  update_one-same :
      (v : View N) (id : ℕ) (u : ShardView N)
      → (id == u.shard_id) ≡ true
      → update_one no_nodes v u id ≡ some (merge_shard_info (or_blank no_nodes id (v id)) u)
  update_one-same v id u e = let same : u.shard_id ≡ id = ground (arith, e) in rw (e, same) refl

  update_one-other :
      (v : View N) (id : ℕ) (u : ShardView N)
      → (id == u.shard_id) ≡ false
      → update_one no_nodes v u id ≡ v id
  update_one-other v id u e = rw e refl

  -- A shard that is known stays known.
  update-known :
      (v : View N) (id : ℕ) (us : List (ShardView N)) (c : ShardView N)
      → v id ≡ some c
      → (r : ShardView N) × (update no_nodes v us id ≡ some r) × IsNewest (c ∷ about id us) r
  unfolding update about
  update-known v id [] c e = (c, e, start-IsNewest c)
  update-known v id (u ∷ us) c e = elim (Bool-cases (id == u.shard_id)) [
    | inl same ↦
        let (r, known, newest) =
          update-known (update_one no_nodes v u) id us (merge_shard_info c u)
            (rw (update_one-same v id u same, e) refl) in
        rw same (r, known, merge-IsNewest c u r (about id us) newest)
    | inr other ↦
        let (r, known, newest) =
          update-known (update_one no_nodes v u) id us c (rw (update_one-other v id u other) e) in
        rw other (r, known, newest)
  ]

  known_or_not :
      (v : View N) (id : ℕ) (us : List (ShardView N))
      → v id ≡ none
      → Knows id none (about id us) (update no_nodes v us id)
  unfolding update about
  known_or_not v id [] e = e
  known_or_not v id (u ∷ us) e = elim (Bool-cases (id == u.shard_id)) [
    | inl same ↦
        let (r, known, newest) =
          update-known (update_one no_nodes v u) id us (merge_shard_info (blank no_nodes id) u)
            (rw (update_one-same v id u same, e) refl) in
        rw (same, known) (merge-IsNewest (blank no_nodes id) u r (about id us) newest)
    | inr other ↦
        rw other
          (known_or_not (update_one no_nodes v u) id us (rw (update_one-other v id u other) e))
  ]

  -- After any updates, in any order, the view of a shard has the newest configuration and the newest
  -- leader of what was known before and of all the updates about the shard; a shard that was not
  -- known and that no update is about stays unknown.
  pub update-IsNewest :
      (v : View N) (id : ℕ) (us : List (ShardView N))
      → Knows id (v id) (about id us) (update no_nodes v us id)
  update-IsNewest v id us = elim (Option-cases (v id)) [
    | inl e ↦ rw e (known_or_not v id us e)
    | inr (c, e) ↦ let (r, known, newest) = update-known v id us c e in rw (e, known) newest
  ]
