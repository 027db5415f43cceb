-- ===== src/Manager/Shared/Swap.antt =====
-- A set with the version that was read succeeds only if the key still holds what was read.
use regatta.Prelude.{
  ℕ, ◌+◌, ◌≡◌, ◌≤◌, ◌<◌, ◌⊎◌, refl, sym, ap, ◌∙◌, Option, none, some, List, [], ◌∷◌, ◌==◌,
  Bool-cases, inl, inr, arith,
}
use regatta.Bytes.{Bytes, equal}
use regatta.Bytes.Order.{equal_refl}
use regatta.Result.{Result, ok, err, panic}
use regatta.Kv
use regatta.Kv.{
  Pair, MapStore, set, delete, UpdateOp, op_set, op_delete, op_other, Update, Json, write,
  check_version, update_entry,
}
use regatta.Kv.Raft.{set_outcome}
use regatta.Manager.{version_of}
use regatta.Manager.Shared.{
  Shared, entry_at, apply_update, run_others, catch_up, shared_store, set_update, set_result,
}

-- Every version is the index of an entry that the store has applied.
abbrev pub IsStamped : Shared → Type 0
IsStamped s = (k : Bytes) (p : Pair) → s.pairs k ≡ some p → (1 ≤ p.ver) × (p.ver ≤ s.index)

-- A key is as it was, or what it holds was written by an entry after `n`, up to `m`.
abbrev pub Since : ℕ → ℕ → Option Pair → Option Pair → Type 0
Since n m before after =
    (after ≡ before) ⊎ ((q : Pair) → after ≡ some q → (n < q.ver) × (q.ver ≤ m))

write-Since :
    (op : UpdateOp) (p : Pair) (s : MapStore) (k : Bytes) (n : ℕ)
    → n < p.ver
    → Since n p.ver (s k) (write op p s k)
unfolding set delete
write-Since op_set p s k n l = elim (Bool-cases (equal k p.key)) [
  | inl same ↦ inr λ q e. (ground (arith, e, same, l), ground (arith, e, same, l))
  | inr other ↦ inl (rw other refl)
]
write-Since op_delete p s k n l = elim (Bool-cases (equal k p.key)) [
  | inl same ↦ inr λ q e. ground (arith, e, same)
  | inr other ↦ inl (rw other refl)
]
write-Since op_other p s k n l = inl refl

Since-trans :
    (n m l : ℕ) (a b c : Option Pair)
    → n ≤ m
    → m ≤ l
    → Since n m a b
    → Since m l b c
    → Since n l a c
Since-trans n m l a b c i j (inl x) (inl y) = inl (y ∙ x)
Since-trans n m l a b c i j (inr x) (inl y) =
    inr λ q e. (omega (arith, x q (sym y ∙ e)), omega (arith, j, x q (sym y ∙ e)))
Since-trans n m l a b c i j x (inr y) = inr λ q e. (omega (arith, i, y q e), omega (arith, y q e))

module _ (json : Json) where
  apply_update-Since :
      (u : Update) (s : Shared) (k : Bytes)
      → Since s.index (s.index + 1) (s.pairs k) ((apply_update json u s).pairs k)
  apply_update-Since u s k = by_version (Kv.get s.pairs u.kv_pair.key)
    where
      by_version :
          (r : Result Pair)
          → Since s.index
              (s.index + 1)
              (s.pairs k)
              ((check_version json (entry_at (s.index + 1)) u s.pairs r).0 k)
      by_version (ok v) = elim (Bool-cases (v.ver == u.kv_pair.ver)) [
        | inl same ↦ rw same (write-Since u.op _ s.pairs k s.index (omega arith))
        | inr other ↦ rw other (inl refl)
      ]
      by_version (err x) = write-Since u.op _ s.pairs k s.index (omega arith)
      by_version panic = write-Since u.op _ s.pairs k s.index (omega arith)

  run_others-Since :
      (us : List Update) (s : Shared) (k : Bytes)
      → (s.index ≤ (run_others json us s).index)
        × Since s.index (run_others json us s).index (s.pairs k) ((run_others json us s).pairs k)
  unfolding run_others
  run_others-Since [] s k = (omega arith, inl refl)
  run_others-Since (u ∷ us) s k =
      let (l, later) = run_others-Since us (apply_update json u s) k in
      (
        omega (arith, l),
        Since-trans s.index (s.index + 1) _ _ _ _ (omega arith) l (apply_update-Since u s k) later,
      )

  catch_up-Since :
      (s : Shared) (k : Bytes)
      → (s.index ≤ (catch_up json s).index)
        × Since s.index (catch_up json s).index (s.pairs k) ((catch_up json s).pairs k)
  catch_up-Since s k = by_others s.others refl
    where
      by_others :
          (o : List (List Update))
          → s.others ≡ o
          → (s.index ≤ (catch_up json s).index)
            × Since s.index (catch_up json s).index (s.pairs k) ((catch_up json s).pairs k)
      by_others [] e = rw (catch_up, e) (omega arith, inl refl)
      by_others (us ∷ rest) e =
          rw (catch_up, e) (run_others-Since us (record s { others = rest }) k)

  -- What other nodes do keeps the versions below the index.
  pub catch_up-IsStamped : (s : Shared) → IsStamped s → IsStamped (catch_up json s)
  catch_up-IsStamped s h k q e = by_since (catch_up-Since s k).0 (catch_up-Since s k).1
    where
      by_since :
          s.index ≤ (catch_up json s).index
          → Since s.index (catch_up json s).index (s.pairs k) ((catch_up json s).pairs k)
          → (1 ≤ q.ver) × (q.ver ≤ (catch_up json s).index)
      by_since l (inl same) =
          (omega (arith, h k q (sym same ∙ e)), omega (arith, l, h k q (sym same ∙ e)))
      by_since l (inr young) = (omega (arith, young q e), omega (arith, young q e))

  apply_update-IsStamped :
      (u : Update) (s : Shared) → IsStamped s → IsStamped (apply_update json u s)
  apply_update-IsStamped u s h k q e = by_since (apply_update-Since u s k)
    where
      by_since :
          Since s.index (s.index + 1) (s.pairs k) ((apply_update json u s).pairs k)
          → (1 ≤ q.ver) × (q.ver ≤ s.index + 1)
      by_since (inl same) =
          (omega (arith, h k q (sym same ∙ e)), omega (arith, h k q (sym same ∙ e)))
      by_since (inr young) = (omega (arith, young q e), omega (arith, young q e))

  -- What a key holds just before a request that follows a read, and what it holds after a set.
  pub record Swapped (s t : Shared) (key value : Bytes) (read : Option Pair) : Type 0 where
    pub unchanged :
        ((catch_up json (catch_up json s)).pairs key ≡ none)
        ⊎ ((catch_up json (catch_up json s)).pairs key ≡ read)
    pub written : t.pairs key ≡ some (record { key = key; value = value; ver = t.index })
    pub stamped : IsStamped t

  -- A set that succeeds, by what the key held.
  pub set_ok :
      (u : Shared) (key value : Bytes) (ver : ℕ) (p : Pair)
      → set_result (set_outcome (u.pairs key) (set_update json key value ver).kv_pair (u.index + 1))
        ≡ ok p
      → ((u.pairs key ≡ none) ⊎ ((q : Pair) × (u.pairs key ≡ some q) × (q.ver ≡ ver)))
        × ((apply_update json (set_update json key value ver) u).pairs key
            ≡ some (record { key = key; value = value; ver = u.index + 1 }))
  unfolding Kv.get set
  set_ok u key value ver p = by_held (u.pairs key) refl
    where
      new : Pair
      new = record { key = key; value = value; ver = u.index + 1 }

      by_held :
          (o : Option Pair)
          → u.pairs key ≡ o
          → set_result (set_outcome o (set_update json key value ver).kv_pair (u.index + 1)) ≡ ok p
          → ((u.pairs key ≡ none) ⊎ ((q : Pair) × (u.pairs key ≡ some q) × (q.ver ≡ ver)))
            × ((apply_update json (set_update json key value ver) u).pairs key ≡ some new)
      by_held none held e = (inl held, rw (Kv.get, held, set, equal_refl key) refl)
      by_held (some v) held e = elim (Bool-cases (v.ver == ver)) [
        | inl same ↦
            (inr (v, held, ground (arith, same)), rw (Kv.get, held, same, set, equal_refl key) refl)
        | inr other ↦ ground (arith, rw other at e)
      ]

  pub set-Swapped :
      (s t : Shared) (key value : Bytes) (p : Pair)
      → IsStamped s
      → (shared_store json).set key value
          (version_of ((catch_up json s).pairs key))
          (catch_up json s)
        ≡ (t, ok p)
      → Swapped s t key value ((catch_up json s).pairs key)
  set-Swapped s t key value p h e =
      let (held, wrote) =
        set_ok u key value (version_of ((catch_up json s).pairs key)) p (ap (λ x. x.1) e) in
      record {
        unchanged = by_held held;
        written = rw (sym (ap (λ x. x.0) e)) wrote;
        stamped = rw (sym (ap (λ x. x.0) e)) (
            apply_update-IsStamped
              (set_update json key value (version_of ((catch_up json s).pairs key))) u
              (catch_up-IsStamped (catch_up json s) stamped));
      }
    where
      u : Shared
      u = catch_up json (catch_up json s)

      stamped : IsStamped (catch_up json s)
      stamped = catch_up-IsStamped s h

      by_read :
          (o : Option Pair) (q : Pair)
          → (catch_up json s).pairs key ≡ o
          → u.pairs key ≡ some q
          → q.ver ≡ version_of o
          → Since (catch_up json s).index u.index o (u.pairs key)
          → u.pairs key ≡ o
      by_read o q r held v (inl same) = same
      by_read none q r held v (inr young) = absurd (omega (arith, v, young q held))
      by_read (some x) q r held v (inr young) =
          absurd (omega (arith, v, young q held, stamped key x r))

      by_held :
          (u.pairs key ≡ none)
            ⊎ ((q : Pair) × (u.pairs key ≡ some q)
                × (q.ver ≡ version_of ((catch_up json s).pairs key)))
          → (u.pairs key ≡ none) ⊎ (u.pairs key ≡ (catch_up json s).pairs key)
      by_held (inl free) = inl free
      by_held (inr (q, held, v)) =
          inr (by_read _ q refl held v (catch_up-Since (catch_up json s) key).1)
