-- ===== src/Manager/Creation.antt =====
-- The creation of tables under updates of other nodes.
use regatta.Prelude.{ℕ, ◌+◌, ◌≡◌, ◌⊎◌, refl, sym, ap, ◌∙◌, none, some, Bool-cases, inl, inr, arith}
use regatta.Bytes.{Bytes}
use regatta.Result.{Result, ok, err, panic}
use regatta.Action.{Action, ◌>>=◌, lift}
use regatta.Action.Success.{next_ok, next-lift, lift-next}
use regatta.Kv.{Pair, Json, exists}
use regatta.Table.{Table}
use regatta.Manager.{
  Text, stored_table_name, set_table_version, mismatch_exists, is_version_mismatch, register_table,
  inc_and_get_id_seq, create_table,
}
use regatta.Manager.Shared.{Shared, catch_up, shared_store}
use regatta.Manager.Shared.Swap.{IsStamped, catch_up-IsStamped, set_ok}
use regatta.Manager.Sequence.{inc_and_get_id_seq-IsStamped}

abbrev pub new_table : Bytes → ℕ → Table
new_table name id = record { name = name; cluster_id = id; recover_id = 0 }

module _ (json : Json) (text : Text) where
  -- What a table's key held just before a write of version 0, and what it holds after it.
  abbrev pub Created : Shared → Shared → Table → Type 0
  Created w t tbl =
      ((catch_up json w).pairs (stored_table_name tbl.name) ≡ none)
      × ((b : Bytes) × (text.marshal_table tbl ≡ ok b)
          × (t.pairs (stored_table_name tbl.name)
              ≡ some (record {
                key = stored_table_name tbl.name;
                value = b;
                ver = (catch_up json w).index + 1;
              })))

  set_table_version-Created :
      (w t : Shared) (tbl : Table)
      → IsStamped w
      → set_table_version (shared_store json) text tbl 0 w ≡ (t, ok tt)
      → Created w t tbl
  unfolding set_table_version
  set_table_version-Created w t tbl h e =
      let (b, m, f) =
        lift-next (text.marshal_table tbl)
          (λ bts.
            ◌>>=◌ ((shared_store json).set (stored_table_name tbl.name) bts 0) λ p. lift (ok tt))
          w t tt e in
      let (p, done, _) =
        next-lift tt tt ((shared_store json).set (stored_table_name tbl.name) b 0 w) t f in
      let (held, wrote) =
        set_ok json (catch_up json w) (stored_table_name tbl.name) b 0 p (ap (λ x. x.1) done) in
      (free held, (b, m, rw (sym (ap (λ x. x.0) done)) wrote))
    where
      key : Bytes
      key = stored_table_name tbl.name

      free :
          ((catch_up json w).pairs key ≡ none)
            ⊎ ((q : Pair) × ((catch_up json w).pairs key ≡ some q) × (q.ver ≡ 0))
          → (catch_up json w).pairs key ≡ none
      free (inl x) = x
      free (inr (q, held, z)) = absurd (omega (arith, z, catch_up-IsStamped json w h key q held))

  register_table-Created :
      (w t : Shared) (name : Bytes) (id : ℕ) (tbl : Table)
      → IsStamped w
      → register_table (shared_store json) text name id w ≡ (t, ok tbl)
      → (tbl ≡ new_table name id) × Created w t (new_table name id)
  register_table-Created w t name id tbl h e =
      by_done (set_table_version (shared_store json) text (new_table name id) 0 w) refl e
    where
      finish : Result (Unit {0}) → Action Shared Table
      finish done =
          ◌>>=◌ (lift (mismatch_exists (shared_store json) text done))
            λ u. lift (ok (new_table name id))

      by_done :
          (x : Shared × Result (Unit {0}))
          → set_table_version (shared_store json) text (new_table name id) 0 w ≡ x
          → finish x.1 x.0 ≡ (t, ok tbl)
          → (tbl ≡ new_table name id) × Created w t (new_table name id)
      by_done (w', ok u) q f = (
        ground (arith, ap (λ y. y.1) f),
        set_table_version-Created w t (new_table name id) h (q ∙ ap (λ y. (y.0, ok tt)) f),
      )
      by_done (w', err x) q f = elim (Bool-cases (is_version_mismatch x)) [
        | inl m ↦ ground (arith, ap (λ y. y.1) (rw m at f))
        | inr m ↦ ground (arith, ap (λ y. y.1) (rw m at f))
      ]
      by_done (w', panic) q f = ground (arith, ap (λ y. y.1) f)

  -- If createTable succeeds on a store with the versions of its log, then whatever other nodes wrote
  -- before it and between its requests, no table of the name stood in the store just before its last
  -- write, and after it the store holds the table that it returns, with the name and an identifier that
  -- incAndGetIDSeq returned.
  pub create_table-Created :
      (s t : Shared) (name : Bytes) (tbl : Table)
      → IsStamped s
      → create_table (shared_store json) text name s ≡ (t, ok tbl)
      → (w : Shared) × (id : ℕ) × (inc_and_get_id_seq (shared_store json) text (catch_up json s)
          ≡ (w, ok id))
        × (tbl ≡ new_table name id)
        × Created w t (new_table name id)
  unfolding create_table
  create_table-Created s t name tbl h e =
      elim (Bool-cases (exists (catch_up json s).pairs (stored_table_name name))) [
        | inl there ↦ ground (arith, ap (λ y. y.1) (rw there at e))
        | inr fresh ↦
            let (w, id, i, f) =
              next_ok (register_table (shared_store json) text name)
                (inc_and_get_id_seq (shared_store json) text (catch_up json s)) t tbl
                (rw fresh at e) in
            let (same, made) =
              register_table-Created w t name id tbl
                (inc_and_get_id_seq-IsStamped json text (catch_up json s) w id
                  (catch_up-IsStamped json s h) i)
                f in
            (w, id, i, same, made)
      ]
