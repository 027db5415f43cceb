-- ===== src/Manager/Restore/Swaps.antt =====
-- What Restore leaves behind: the table with the shard that was filled.
use regatta.Prelude.{ℕ, ◌≡◌, true, some}
use regatta.Bytes.{Bytes}
use regatta.Result.{ok}
use regatta.Action.{Action}
use regatta.Kv.{Json}
use regatta.Table.{Table, as_active}
use regatta.Manager.{Text, inc_and_get_id_seq, get_table_version}
use regatta.Manager.Shared.{Shared, shared_store}
use regatta.Manager.Reconcile.{NodeHost, Config, Manager}
use regatta.Manager.Reconcile.Converges.{HostLaws}
use regatta.Manager.Diff.{has_id}
use regatta.Manager.Restore.Prepared.{in_recovery, IsStored, found, Prepared}
use regatta.Manager.Restore.Runs.{RestorerLaws}
use regatta.Manager.Restore.{Stream, Restorer, read_into_table}

-- A table with the shard of its recovery.
abbrev pub recovered : Table → ℕ → Table
recovered tab id = record tab { cluster_id = id; recover_id = 0 }

module _ (json : Json) (host : NodeHost) (text : Text) (config : Config (shared_store json))
    (r : Restorer host.State) (max_in_mem_log_size : ℕ) (laws : HostLaws host)
    (fills : RestorerLaws r laws.running) where
  abbrev M : Type 0
  M = Manager (shared_store json) host

  -- The store holds a table under its name, and the cache has it.
  abbrev pub Holds : M → Table → Type 0
  Holds m t = IsStored json text m.pairs t × (m.tables t.name ≡ some (as_active t))

  -- What a successful Restore went through: the shard `id`, the store `marked_store` and the host
  -- `started` when its leader was waited for, and the host `elected` when the stream was read.
  pub record Restored (name : Bytes) (reader : Stream) (m m' : M) : Type 0 where
    pub id : ℕ
    pub old : Table
    pub old_ver : ℕ
    pub was : found json text name m.pairs ≡ ok (old, old_ver)
    pub numbered :
        (inc_and_get_id_seq
          (shared_store json)
          text
          (get_table_version (shared_store json) text name m.pairs).0).1
        ≡ ok id
    pub marked_store : Shared
    pub marked : IsStored json text marked_store (in_recovery name old id)
    pub started : host.State
    pub runs : has_id id (laws.running started) ≡ true
    pub elected : host.State
    pub elects : r.wait_for_leader id started ≡ (elected, ok tt)
    pub filled : read_into_table r id max_in_mem_log_size reader elected ≡ (m'.shards, ok tt)
    pub tab : Table
    pub ver : ℕ
    pub current : (get_table_version (shared_store json) text name marked_store).1 ≡ ok (tab, ver)
    pub swapped : Holds m' (recovered tab id)
    pub still_runs : has_id id (laws.running m'.shards) ≡ true
