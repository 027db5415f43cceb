-- ===== src/Fsm/Update/Tests.antt =====
-- Update at a log of two entries that put the same key, with a codec that reads every command so.
use regatta.Prelude.{ℕ, ◌≡◌, refl, none, some, List, [], ◌∷◌, false, arith}
use regatta.Bytes.{compare_bytes}
use regatta.Pebble.OrderedMap.{insert}
use regatta.Fsm.Keys.Order.{user_key}
use regatta.Result.{ok}
use regatta.Pebble.Model.{Store, store_reader, empty_store, memory, memory_laws}
use regatta.Fsm.Keys.{sys_local_index}
use regatta.Fsm.Messages.{CommandType, CommandFields, Commands, command}
use regatta.Fsm.Update.{Codec, LogEntry, with_result, read_local_index, update_db}
use regatta.Fsm.Update.Correct.{
  Indexes, run_log, update_db-Refines, read_local_index-update, DbRefines,
}
use regatta.Fsm.Spec.{run, outcome, put_change}

abbrev put_fields : CommandFields
put_fields = record {
  type = CommandType.put;
  kv = some (record { key = 97 ∷ []; value = 3 ∷ [] });
  leader_index = some 4;
  batch = [];
  txn = none;
  range_end = none;
  prev_kvs = false;
  count = false;
}

abbrev codec : Codec
codec = record { unmarshal = λ b. ok (command put_fields Commands.end); marshal = λ r. 0 ∷ [] }

abbrev log_entry : ℕ → LogEntry
log_entry i = record { index = i; cmd = []; value = 0; result_data = [] }

abbrev log_entries : List LogEntry
log_entries = log_entry 10 ∷ log_entry 11 ∷ []

abbrev start : Indexes
start = record { index = 0; leader_index = none }

update_db-Refines_example :
    DbRefines memory memory_laws codec
      (update_db memory codec empty_store log_entries)
      (run_log codec log_entries start [])
update_db-Refines_example = update_db-Refines memory memory_laws codec empty_store log_entries

abbrev done_entry : ℕ → LogEntry
done_entry i = record { index = i; cmd = []; value = 1; result_data = 0 ∷ [] }

abbrev done_entries : List LogEntry
done_entries = done_entry 10 ∷ done_entry 11 ∷ []

run_log-log_entries :
    run_log codec log_entries start []
    ≡ ok (
      (user_key (97 ∷ []), 3 ∷ []) ∷ [],
      (record { index = 11; leader_index = some 4 }, done_entries),
    )
unfolding run_log run outcome put_change with_result insert compare_bytes
run_log-log_entries = refl

read_local_index-update_example :
    (db' : Store) × (update_db memory codec empty_store log_entries ≡ ok (db', done_entries))
    × (read_local_index (store_reader db') sys_local_index ≡ ok 11)
read_local_index-update_example =
    read_local_index-update memory memory_laws codec empty_store log_entries
      ((user_key (97 ∷ []), 3 ∷ []) ∷ []) (record { index = 11; leader_index = some 4 })
      done_entries run_log-log_entries (omega arith)
