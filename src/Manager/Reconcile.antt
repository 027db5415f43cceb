-- ===== src/Manager/Reconcile.antt =====
-- reconcile of storage/table/manager.go, with startTable, stopTable, the cache and GetTable. The node
-- host of dragonboat, the listing of the store and the JSON of clean-up records are parameters. Locks
-- and metrics are left out.
pub mod Converges
use regatta.Prelude.{ℕ, ◌≡◌, Bool, Option, none, some, List, [], ◌∷◌, ◌++◌, ◌==◌, if◌then◌else◌}
use regatta.Bytes.{Bytes, equal}
use regatta.Result.{Result, Error, ok, err, panic, node_host_info_unavailable, table_not_found}
use regatta.Action.{Action, ◌>>=◌, ◌>>◌, lift}
use regatta.Kv.{Pair}
use regatta.Table.{Table, ActiveTable, as_active}
use regatta.Manager.{Store, Text, get_or_missing, version_of, get_table_version, key_prefix}
use regatta.Manager.Diff.{TableIds, diff_tables}

-- The node host, with the members that a replica is started with
pub record NodeHost : Type 1 where
  pub State : Type 0
  pub has_node_info : State → ℕ → ℕ → Bool
  pub start_on_disk_replica : List (ℕ × Bytes) → Bytes → ℕ → Action State (Unit {0})
  pub stop_shard : ℕ → Action State (Unit {0})
  pub stale_read_path : State → ℕ → Result Bytes
  pub shard_info_list : State → Option (List ℕ)

-- Cleanup
pub record Cleanup : Type 0 where
  pub created : ℕ
  pub cluster_id : ℕ
  pub sm_data_path : Bytes

-- The fields of Manager that do not change, and what its code calls.
pub record Config (store : Store) : Type 0 where
  pub node_id : ℕ
  pub members : List (ℕ × Bytes)
  pub marshal_cleanup : Cleanup → Result Bytes
  pub get_all : store.State → Bytes → Result (List Pair)

-- Manager: its store, its node host and its cache
pub record Manager (store : Store) (host : NodeHost) : Type 0 where
  pub pairs : store.State
  pub shards : host.State
  pub tables : Bytes → Option ActiveTable

-- tables[tab.Name] = tab
abbrev pub put_table : Table → List Table → List Table
put_table t [] = t ∷ []
put_table t (u ∷ us) = if equal t.name u.name then t ∷ us else u ∷ put_table t us

-- "/cleanup/"
abbrev pub cleanup_prefix : Bytes
cleanup_prefix = 47 ∷ 99 ∷ 108 ∷ 101 ∷ 97 ∷ 110 ∷ 117 ∷ 112 ∷ 47 ∷ []

module _ (store : Store) (host : NodeHost) (text : Text) (config : Config store) where
  abbrev pub on_store : {A : Type 0} → Action store.State A → Action (Manager store host) A
  on_store act m = let (s, r) = act m.pairs in (record m { pairs = s }, r)

  abbrev pub on_host : {A : Type 0} → Action host.State A → Action (Manager store host) A
  on_host act m = let (s, r) = act m.shards in (record m { shards = s }, r)

  -- The tables of the pairs, each under its name.
  abbrev pub tables_of : List Pair → List Table → Result (List Table)
  tables_of [] ts = ok ts
  tables_of (v ∷ vs) ts = elim (text.unmarshal_table v.value) [
    | ok tab ↦ tables_of vs (put_table tab ts)
    | err e ↦ err e
    | panic ↦ panic
  ]

  -- Manager.getTables
  unfoldable pub get_tables : store.State → Result (List Table)
  get_tables s = elim (config.get_all s (key_prefix ++ (42 ∷ []))) [
    | ok all ↦ tables_of all []
    | err e ↦ err e
    | panic ↦ panic
  ]

  -- Manager.cacheTable
  abbrev pub cache_table : Table → Action (Manager store host) (Unit {0})
  cache_table t m = (
    record m { tables = λ name. if equal name t.name then some (as_active t) else m.tables name },
    ok tt,
  )

  abbrev pub drop_cluster : ℕ → Option ActiveTable → Option ActiveTable
  drop_cluster id none = none
  drop_cluster id (some t) = if t.table.cluster_id == id then none else some t

  -- Manager.clearTable
  abbrev pub clear_table : ℕ → Action (Manager store host) (Unit {0})
  clear_table id m = (record m { tables = λ name. drop_cluster id (m.tables name) }, ok tt)

  -- Manager.GetTable
  unfoldable pub get_table : Bytes → Action (Manager store host) ActiveTable
  get_table name m = elim (m.tables name) [
    | some t ↦ (m, ok t)
    | none ↦
        (on_store (get_table_version store text name) >>= λ (tab, ver). lift (ok (as_active tab))) m
  ]

  -- Manager.startTable
  abbrev pub start_table : Bytes → ℕ → Action (Manager store host) (Unit {0})
  start_table name id m =
      on_host
        (host.start_on_disk_replica
          (if host.has_node_info m.shards id config.node_id then [] else config.members) name id)
        m

  -- The key of a clean-up record: "/cleanup/%d/%d"
  abbrev pub cleanup_key : ℕ → Bytes
  cleanup_key id = cleanup_prefix ++ (text.format_uint config.node_id ++ (47 ∷ text.format_uint id))

  -- The write of the clean-up record of a shard at a time, with the path of its data.
  abbrev pub write_cleanup : ℕ → ℕ → Bytes → Action store.State (Unit {0})
  write_cleanup now id path = do
    b ←
        lift
          (config.marshal_cleanup (record { created = now; cluster_id = id; sm_data_path = path }))
    c ← get_or_missing store text (cleanup_key id)
    p ← store.set (cleanup_key id) b (version_of c)
    lift (ok tt)

  -- Manager.stopTable
  abbrev pub stop_table : ℕ → ℕ → Action (Manager store host) (Unit {0})
  stop_table now id m =
      (lift (host.stale_read_path m.shards id) >>= λ path.
      on_store (write_cleanup now id path) >> on_host (host.stop_shard id))
        m

  abbrev pub cache_tables : List Table → Action (Manager store host) (Unit {0})
  cache_tables [] = lift (ok tt)
  cache_tables (t ∷ ts) = cache_table t >> cache_tables ts

  unfoldable pub start_tables : TableIds → Action (Manager store host) (Unit {0})
  start_tables [] = lift (ok tt)
  start_tables ((id, t) ∷ rest) = start_table t.name id >> (cache_table t >> start_tables rest)

  unfoldable pub stop_tables : ℕ → List ℕ → Action (Manager store host) (Unit {0})
  stop_tables now [] = lift (ok tt)
  stop_tables now (id ∷ rest) = stop_table now id >> (clear_table id >> stop_tables now rest)

  -- The tables and the shards that reconcile compares.
  unfoldable pub observe : Manager store host → Result (List Table × List ℕ)
  unfolding get_tables
  observe m = elim (get_tables m.pairs) [
    | ok tabs ↦ elim (host.shard_info_list m.shards) [
      | none ↦ err node_host_info_unavailable
      | some raft ↦ ok (tabs, raft)
    ]
    | err e ↦ err e
    | panic ↦ panic
  ]

  abbrev pub apply_diff : ℕ → TableIds × List ℕ → Action (Manager store host) (Unit {0})
  apply_diff now (start, stop) = start_tables start >> stop_tables now stop

  -- Manager.reconcile at a time
  unfoldable pub reconcile : ℕ → Action (Manager store host) (Unit {0})
  unfolding start_tables stop_tables observe
  reconcile now m =
      (lift (observe m) >>= λ (tabs, raft).
      cache_tables tabs >> apply_diff now (diff_tables tabs raft))
        m
