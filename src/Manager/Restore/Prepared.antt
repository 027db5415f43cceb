-- ===== src/Manager/Restore/Prepared.antt =====
-- The steps of Restore before the table is filled.
use regatta.Prelude.{ℕ, ◌+◌, ◌≡◌, sym, ap, ◌∙◌, true, some, [], if◌then◌else◌, arith}
use regatta.Bytes.{Bytes}
use regatta.Result.{Result, ok, ok_inj}
use regatta.Action.{Action, ◌>>=◌, lift, try}
use regatta.Action.Success.{next_ok, next-lift, lift-next}
use regatta.Kv.{Json}
use regatta.Table.{Table}
use regatta.Manager.{
  Text, inc_and_get_id_seq, stored_table_name, get_table_version, set_table_version,
}
use regatta.Manager.Shared.{Shared, catch_up, shared_store}
use regatta.Manager.Shared.Swap.{set_ok}
use regatta.Manager.Reconcile.{NodeHost, Config, Manager, on_store, start_table}
use regatta.Manager.Reconcile.Converges.{HostLaws}
use regatta.Manager.Diff.{has_id}
use regatta.Manager.Restore.{Restorer, or_zero_table, prepare_restore}

-- A table in recovery by a shard.
abbrev pub in_recovery : Bytes → Table → ℕ → Table
in_recovery name tab id = record tab { name = name; recover_id = id }

module _ (json : Json) (text : Text) where
  -- The store holds the text of a table under its name.
  abbrev pub IsStored : Shared → Table → Type 0
  IsStored s t =
      (b : Bytes) × (ver : ℕ) × (text.marshal_table t ≡ ok b)
      × (s.pairs (stored_table_name t.name)
          ≡ some (record { key = stored_table_name t.name; value = b; ver = ver }))

  pub set_table_version-IsStored :
      (w t : Shared) (tbl : Table) (ver : ℕ)
      → set_table_version (shared_store json) text tbl ver w ≡ (t, ok tt)
      → IsStored t tbl
  unfolding set_table_version
  set_table_version-IsStored w t tbl ver e =
      let (b, m, f) =
        lift-next (text.marshal_table tbl)
          (λ bts.
            ◌>>=◌ ((shared_store json).set (stored_table_name tbl.name) bts ver) λ p. lift (ok tt))
          w t tt e in
      let (p, done, _) =
        next-lift tt tt ((shared_store json).set (stored_table_name tbl.name) b ver w) t f in
      let (held, wrote) =
        set_ok json (catch_up json w) (stored_table_name tbl.name) b ver p (ap (λ x. x.1) done) in
      (b, (catch_up json w).index + 1, m, rw (sym (ap (λ x. x.0) done)) wrote)

  -- The lookup of the table by name, with what is taken for a missing table.
  abbrev pub found : Bytes → Shared → Result (Table × ℕ)
  found name s = or_zero_table (get_table_version (shared_store json) text name s).1

module _ (json : Json) (host : NodeHost) (text : Text) (config : Config (shared_store json))
    (r : Restorer host.State) (max_in_mem_log_size : ℕ) (laws : HostLaws host) where
  abbrev M : Type 0
  M = Manager (shared_store json) host

  -- What was done before the filling.
  pub record Prepared (name : Bytes) (m m' : M) (id : ℕ) : Type 0 where
    pub old : Table
    pub old_ver : ℕ
    pub was : found json text name m.pairs ≡ ok (old, old_ver)
    pub numbered :
        (inc_and_get_id_seq
          (shared_store json)
          text
          (get_table_version (shared_store json) text name m.pairs).0).1
        ≡ ok id
    pub marked : IsStored json text m'.pairs (in_recovery name old id)
    pub runs : has_id id (laws.running m'.shards) ≡ true

  steps-Prepared :
      (name : Bytes) (id : ℕ) (m m1 m2 m3 m' : M) (got : Result (Table × ℕ)) (current : Table × ℕ)
      → try (get_table_version (shared_store json) text name) m.pairs ≡ (m1.pairs, ok got)
      → or_zero_table got ≡ ok current
      → inc_and_get_id_seq (shared_store json) text m1.pairs ≡ (m2.pairs, ok id)
      → host.start_on_disk_replica
          (if host.has_node_info m2.shards id config.node_id then [] else config.members)
          name
          id
          m2.shards
        ≡ (m3.shards, ok tt)
      → on_store
          (shared_store json)
          host
          text
          config
          (set_table_version (shared_store json) text (in_recovery name (current.0) id) current.1)
          m3
        ≡ (m', ok tt)
      → Prepared name m m' id
  steps-Prepared name id m m1 m2 m3 m' got current looked was counted started written =
      let looked_store : (get_table_version (shared_store json) text name m.pairs).0 ≡ m1.pairs =
        ap (λ x. x.0) looked in
      let same : m3.shards ≡ m'.shards = ap (λ x. x.0.shards) written in
      let adds = laws.started _ name id m2.shards m3.shards id started in
      record {
        old = current.0;
        old_ver = current.1;
        was = ap or_zero_table (ok_inj (ap (λ x. x.1) looked)) ∙ was;
        numbered =
            ap (λ s. (inc_and_get_id_seq (shared_store json) text s).1) looked_store
            ∙ ap (λ x. x.1) counted;
        marked =
            set_table_version-IsStored json text m3.pairs m'.pairs (in_recovery name (current.0) id)
              current.1 (ap (λ x. (x.0.pairs, x.1)) written);
        runs = rw (sym same) (ground (arith, adds));
      }

  pub prepare_restore-Prepared :
      (name : Bytes) (id : ℕ) (m m' : M)
      → prepare_restore (shared_store json) host text config r max_in_mem_log_size name m
        ≡ (m', ok id)
      → Prepared name m m' id
  prepare_restore-Prepared name id m m' e =
      let (m1, got, looked, f) =
        next_ok with_table
          (on_store (shared_store json) host text config
            (try (get_table_version (shared_store json) text name)) m)
          m' id e in
      let (current, was, g) = lift-next (or_zero_table got) with_current m1 m' id f in
      let (m2, new_id, counted, k) =
        next_ok (with_id current)
          (on_store (shared_store json) host text config
            (inc_and_get_id_seq (shared_store json) text) m1)
          m' id g in
      let (m3, u, started, l) =
        next_ok (λ u. with_started current new_id)
          (start_table (shared_store json) host text config name new_id m2) m' id k in
      let (v, written, same) =
        next-lift new_id id
          (on_store (shared_store json) host text config
            (set_table_version (shared_store json) text (in_recovery name (current.0) new_id)
              current.1)
            m3)
          m' l in
      rw (sym same) (
        steps-Prepared name new_id m m1 m2 m3 m' got current (ap (λ x. (x.0.pairs, x.1)) looked) was
          (ap (λ x. (x.0.pairs, x.1)) counted) (ap (λ x. (x.0.shards, x.1)) started) written)
    where
      with_started : Table × ℕ → ℕ → Action M ℕ
      with_started current new_id =
          ◌>>=◌
            (on_store (shared_store json) host text config (
              set_table_version (shared_store json) text (in_recovery name (current.0) new_id)
                current.1))
            λ u. lift (ok new_id)

      with_id : Table × ℕ → ℕ → Action M ℕ
      with_id current new_id =
          ◌>>=◌ (start_table (shared_store json) host text config name new_id)
            λ u. with_started current new_id

      with_current : Table × ℕ → Action M ℕ
      with_current current =
          ◌>>=◌
            (on_store (shared_store json) host text config
              (inc_and_get_id_seq (shared_store json) text))
            (with_id current)

      with_table : Result (Table × ℕ) → Action M ℕ
      with_table got = ◌>>=◌ (lift (or_zero_table got)) with_current
