-- ===== src/Manager/Tests/Cleanup.antt =====
-- A clean-up of a store that holds a table and the record of a shard that no table has.
use regatta.Prelude.{
  ℕ, ◌+◌, ◌≡◌, refl, sym, ◌∙◌, true, false, none, some, List, [], ◌∷◌, ◌++◌, ◌==◌, if◌then◌else◌,
  Bool-cases, inl, inr, arith,
}
use regatta.Bytes.{Bytes, equal, compare_bytes}
use regatta.Result.{Result, ok, err, panic}
use regatta.Kv
use regatta.Kv.{Pair, check_version}
use regatta.Table.{Table}
use regatta.Manager.{stored_table_name, key_prefix}
use regatta.Manager.Diff.{has_id}
use regatta.Manager.Shared.{Shared, run_others, apply_update, delete_update, entry_at, shared_store}
use regatta.Manager.Reconcile.{Config, Manager, get_tables, cleanup_prefix}
use regatta.Manager.Cleanup.{Cleaner, find_by_id, get_table_by_id, clean_records, cleanup}
use regatta.Manager.Cleanup.Safety.{has_cluster, CleanerLaws, IsRecord, AreRecords, cleanup-Kept}
use regatta.Manager.Tests.{json, text, table_t, host}

-- The state of the host is taken for the shards whose data was removed.
abbrev cleaner : Cleaner (List ℕ)
cleaner = record {
  unmarshal_cleanup = λ b. ok (record { created = 0; cluster_id = 10002; sm_data_path = [] });
  sync_remove_data = λ id s. (id ∷ s, ok tt);
  remove_all = λ path s. (s, ok tt);
}

abbrev cleaner-laws : CleanerLaws cleaner
cleaner-laws = record { removed = λ s. s; removes = λ i id s e. e; keeps = λ path s. refl }

abbrev table_key : Bytes
table_key = stored_table_name (116 ∷ [])

abbrev record_key : Bytes
record_key = cleanup_prefix ++ (1 ∷ 47 ∷ 7 ∷ [])

-- The pair of a key, if the store has it.
abbrev pairs_at : Shared → Bytes → Result (List Pair)
pairs_at s key = elim (s.pairs key) [ none ↦ ok [] | some p ↦ ok (p ∷ []) ]

-- The tables are one key, and so are the clean-up records.
abbrev config : Config (shared_store json)
config = record {
  node_id = 1;
  members = [];
  marshal_cleanup = λ c. ok [];
  get_all = λ s pattern.
      if equal pattern (key_prefix ++ (42 ∷ []))
      then pairs_at s table_key
      else pairs_at s record_key;
}

abbrev held : Bytes → Pair
held key = record { key = key; value = 1 ∷ []; ver = 1 }

abbrev stored : Shared
stored = record {
  pairs = λ k.
      if equal k table_key
      then some (held table_key)
      else if equal k record_key
      then some (held record_key)
      else none;
  index = 2;
  others = [];
}

-- The store has the pair of the table, and no other node writes.
abbrev Listed : Shared → Type 0
Listed s = (p : Pair) × (s.pairs table_key ≡ some p) × (s.others ≡ [])

listed :
    (s : Shared)
    → Listed s
    → (ts : List Table) × (get_tables (shared_store json) host text config s ≡ ok ts)
      × (has_cluster 10001 ts ≡ true)
unfolding get_tables compare_bytes
listed s (p, e, o) = (table_t ∷ [], rw (e, get_tables) refl, refl)

other_key : (l : Pair) → IsRecord l → equal table_key l.key ≡ false
unfolding compare_bytes
other_key l (rest, e) = rw e refl

delete-other :
    (key : Bytes) (ver : ℕ) (s : Shared)
    → equal table_key key ≡ false
    → (apply_update json (delete_update json key ver) s).pairs table_key ≡ s.pairs table_key
unfolding Kv.get Kv.delete
delete-other key ver s other = by_held (Kv.get s.pairs key)
  where
    by_held :
        (x : Result Pair)
        → (check_version json (entry_at (s.index + 1)) (delete_update json key ver) s.pairs x).0
            table_key
          ≡ s.pairs table_key
    by_held (ok v) = elim (Bool-cases (v.ver == ver)) [
      | inl same ↦ rw same (rw other refl)
      | inr differs ↦ rw differs refl
    ]
    by_held (err e) = rw other refl
    by_held panic = rw other refl

stays :
    (l : Pair) (s : Shared)
    → IsRecord l
    → Listed s
    → Listed ((shared_store json).delete l.key l.ver s).0
stays l s is (p, e, o) = rw o (p, delete-other l.key l.ver s (other_key l is) ∙ e, refl)

abbrev before : Manager (shared_store json) host
before = record { pairs = stored; shards = 10001 ∷ []; tables = λ name. none }

before-Listed : Listed stored
unfolding compare_bytes
before-Listed = (held table_key, refl, refl)

before-records :
    (ls : List Pair)
    → config.get_all stored (cleanup_prefix ++ (1 ∷ 47 ∷ 42 ∷ [])) ≡ ok ls
    → AreRecords ls
unfolding compare_bytes
before-records ls e =
    let same : held record_key ∷ [] ≡ ls = ground (arith, e) in
    rw (sym same) ((1 ∷ 47 ∷ 7 ∷ [], refl), tt)

cleanup-before :
    has_id 10001 (cleanup (shared_store json) host text config cleaner 100 10 before).0.shards
    ≡ true
unfolding cleanup get_table_by_id get_tables find_by_id clean_records Kv.get Kv.delete compare_bytes
    run_others
cleanup-before = refl

cleanup-Kept_example : has_id 10001 before.shards ≡ true
cleanup-Kept_example =
    cleanup-Kept (shared_store json) host text config cleaner cleaner-laws 100 10 10001 Listed
      listed stays before before-Listed before-records cleanup-before

cleanup-removes :
    has_id 10002 (cleanup (shared_store json) host text config cleaner 100 10 before).0.shards
    ≡ true
unfolding cleanup get_table_by_id get_tables find_by_id clean_records Kv.get Kv.delete compare_bytes
    run_others
cleanup-removes = refl

-- The record goes with the data, and the table stays.
cleanup-forgets :
    (cleanup (shared_store json) host text config cleaner 100 10 before).0.pairs.pairs record_key
    ≡ none
unfolding cleanup get_table_by_id get_tables find_by_id clean_records Kv.get Kv.delete compare_bytes
    run_others
cleanup-forgets = refl
