-- ===== src/Replication/Tests/Registry.antt =====
-- The workers of two tables, one of which is not listed any more.
use regatta.Prelude.{◌≡◌, [], ◌∷◌, List}
use regatta.Bytes.{Bytes, compare_bytes}
use regatta.Result.{ok, err, blocked}
use regatta.Table.{Table}
use regatta.Replication.Registry.{reconcile_workers}
use regatta.Replication.Registry.Reconcile.{free, reading, reconcile_workers_lem}

abbrev listed : List Table
listed = record { name = 97 ∷ []; cluster_id = 10001; recover_id = 0 } ∷ []

abbrev two_workers : List Bytes
two_workers = (97 ∷ []) ∷ (98 ∷ []) ∷ []

reconcile_workers_lem_example :
    reconcile_workers (ok listed) (free two_workers) ≡ (reading two_workers, err blocked)
unfolding compare_bytes
reconcile_workers_lem_example = reconcile_workers_lem listed two_workers
