-- ===== src/Manager/Tests/Restore.antt =====
-- A restore of a table that the store does not have, from a stream of one record.
use regatta.Prelude.{ℕ, refl, none, some, List, [], ◌∷◌}
use regatta.Result.{ok}
use regatta.Kv
use regatta.Manager.Shared.{shared_store}
use regatta.Manager.Reconcile.{Manager}
use regatta.Manager.Restore.{Stream, Restorer, restore}
use regatta.Manager.Restore.Runs.{RestorerLaws}
use regatta.Manager.Tests.{json, text, fresh, host, host_laws, config}

-- The host takes every proposal.
abbrev restorer : Restorer (List ℕ)
restorer = record {
  unmarshal = λ b. ok (record { kv = some (record { key = b; value = b }); leader_index = none });
  propose = λ id c s. (s, ok tt);
  wait_for_leader = λ id s. (s, ok tt);
}

abbrev restorer_laws : RestorerLaws restorer host_laws.running
restorer_laws = record { waits = λ id s. refl; proposes = λ id c s. refl }

abbrev before : Manager (shared_store json) host
before = record { pairs = fresh; shards = []; tables = λ name. none }

abbrev one_record : Stream
one_record = record { messages = (5 ∷ []) ∷ []; failure = none }

abbrev after : Manager (shared_store json) host
after = (restore (shared_store json) host text config restorer 100 (116 ∷ []) one_record before).0
