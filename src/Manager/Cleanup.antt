-- ===== src/Manager/Cleanup.antt =====
-- cleanup of storage/table/manager.go, with GetTableByID, GetTables and CreateTable. The JSON of clean-up
-- records and the removal of data are parameters.
pub mod Safety
use regatta.Prelude.{ℕ, ◌+◌, Bool, List, [], ◌∷◌, ◌++◌, ltb, ◌==◌, if◌then◌else◌}
use regatta.Bytes.{Bytes}
use regatta.Result.{Result, Error, ok, err, panic, table_not_found}
use regatta.Action.{Action, ◌>>=◌, ◌>>◌, lift}
use regatta.Kv.{Pair}
use regatta.Table.{Table, ActiveTable, as_active}
use regatta.Manager.{Store, Text, create_table}
use regatta.Manager.Reconcile.{
  NodeHost, Config, Manager, Cleanup, on_store, on_host, get_tables, start_table, cleanup_prefix,
}

-- json.Unmarshal of a record, SyncRemoveData of the node, and RemoveAll of the file system
pub record Cleaner (S : Type 0) : Type 0 where
  pub unmarshal_cleanup : Bytes → Result Cleanup
  pub sync_remove_data : ℕ → Action S (Unit {0})
  pub remove_all : Bytes → Action S (Unit {0})

-- The table with a cluster.
unfoldable pub find_by_id : ℕ → List Table → Result ActiveTable
find_by_id id [] = err table_not_found
find_by_id id (t ∷ ts) =
    let rest = find_by_id id ts in if t.cluster_id == id then ok (as_active t) else rest

-- The same in what getTables returns.
abbrev pub find_in : ℕ → Result (List Table) → Result ActiveTable
find_in id (ok ts) = find_by_id id ts
find_in id (err e) = err e
find_in id panic = panic

-- errors.Is(err, ErrTableNotFound)
abbrev pub is_missing : Result ActiveTable → Result Bool
is_missing (err table_not_found) = ok Bool.true
is_missing panic = panic
is_missing _ = ok Bool.false

module _ (store : Store) (host : NodeHost) (text : Text) (config : Config store) where
  -- Manager.GetTableByID
  unfoldable pub get_table_by_id : store.State → ℕ → Result ActiveTable
  unfolding get_tables find_by_id
  get_table_by_id s id = find_in id (get_tables store host text config s)

  -- Manager.CreateTable
  unfoldable pub create_and_start : Bytes → Action (Manager store host) (Unit {0})
  create_and_start name = do
    created ← on_store store host text config (create_table store text name)
    start_table store host text config created.name created.cluster_id

  module _ (c : Cleaner host.State) (now grace_period : ℕ) where
    -- "/cleanup/%d/*"
    abbrev pub cleanup_pattern : Bytes
    cleanup_pattern = cleanup_prefix ++ (text.format_uint config.node_id ++ (47 ∷ 42 ∷ []))

    abbrev pub delete_record : Pair → Action (Manager store host) (Unit {0})
    delete_record l = on_store store host text config (store.delete l.key l.ver)

    -- The removal of the data of a shard, and of its record.
    abbrev pub remove_shard : Pair → Cleanup → Action (Manager store host) (Unit {0})
    remove_shard l r =
        on_host store host text config (c.sync_remove_data r.cluster_id)
        >> (on_host store host text config (c.remove_all r.sm_data_path) >> delete_record l)

    -- What becomes of a record that is due, by whether its table is missing; `rest` is the other records.
    abbrev pub clean_due :
        Pair
        → Cleanup
        → Result Bool
        → Action (Manager store host) (Unit {0})
        → Action (Manager store host) (Unit {0})
    clean_due l r (ok Bool.true) rest = remove_shard l r >> rest
    clean_due l r (ok Bool.false) rest = delete_record l
    clean_due l r (err e) rest = lift (err e)
    clean_due l r panic rest = lift panic

    -- A record; `is_due` is whether it is older than the grace period.
    abbrev pub clean_record :
        Pair
        → Cleanup
        → Bool
        → Action (Manager store host) (Unit {0})
        → Action (Manager store host) (Unit {0})
    clean_record l r Bool.true rest m =
        clean_due l r (is_missing (get_table_by_id m.pairs r.cluster_id)) rest m
    clean_record l r Bool.false rest m = rest m

    unfoldable pub clean_records : List Pair → Action (Manager store host) (Unit {0})
    unfolding get_table_by_id
    clean_records [] = lift (ok tt)
    clean_records (l ∷ ls) = lift (c.unmarshal_cleanup l.value) >>= λ r.
        clean_record l r (ltb (r.created + grace_period) now) (clean_records ls)

    -- Manager.cleanup at a time
    unfoldable pub cleanup : Action (Manager store host) (Unit {0})
    unfolding clean_records
    cleanup m = (lift (config.get_all m.pairs cleanup_pattern) >>= clean_records) m
