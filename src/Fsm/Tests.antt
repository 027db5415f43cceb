-- ===== src/Fsm/Tests.antt =====
-- The state machine on a small table in memory.
use regatta.Prelude.{
  ◌+◌, ◌≡◌, ◌↔◌, Bool, inr, refl, true, false, none, some, [], ◌∷◌, length, arith,
}
use regatta.Bytes.{Bytes, compare_bytes}
use regatta.Result.{ok, panic}
use regatta.Result.Ensures.{Ensures}
use regatta.Pebble.OrderedMap
use regatta.Pebble.OrderedMap.{Entries, IsSorted, range}
use regatta.Pebble.Model.{Store, empty_store, store_reader, memory, memory_laws}
use regatta.Fsm.Keys.{increment_rightmost_byte}
use regatta.Fsm.Keys.Increment.{number_of, number_of-increment_rightmost_byte}
use regatta.Fsm.Keys.Order.{user_key, compare_bytes-encode_user_key, encode_user_key_lem}
use regatta.Fsm.Messages.{
  RequestRange, RequestPut, RequestDeleteRange, Compare, CompareResult, CompareTarget, CommandType,
  CommandFields, Command, Commands, command,
}
use regatta.Fsm.Query.{range_lookup}
use regatta.Fsm.Query.Page.{IsPage}
use regatta.Fsm.Query.Reads.{bound}
use regatta.Fsm.Query.Total.{range_lookup-IsPage}
use regatta.Fsm.Query.Count.{range_lookup-count_only}
use regatta.Fsm.Compare.{txn_compare}
use regatta.Fsm.Compare.Decides.{AllHold, txn_compare-AllHold}
use regatta.Fsm.Context.{UpdateContext}
use regatta.Fsm.Put.{handle_put}
use regatta.Fsm.Delete.{handle_delete}
use regatta.Fsm.Command.{handle}
use regatta.Fsm.Spec.{run, value_of}
use regatta.Fsm.Refinement.{Refines, SameContext}
use regatta.Fsm.Refinement.Commands.{handle-Refines}
use regatta.Fsm.Effects.{
  PutDone, DeleteDone, handle_put-PutDone, handle_put-panic, handle_delete-DeleteDone,
}

abbrev key_a : Bytes
key_a = 97 ∷ []

abbrev key_b : Bytes
key_b = 98 ∷ []

-- The keys "a" and "b".
abbrev two_entries : Entries
two_entries = (user_key key_a, 1 ∷ []) ∷ (user_key key_b, 2 ∷ []) ∷ []

two_entries-IsSorted : IsSorted two_entries
unfolding compare_bytes
two_entries-IsSorted = ((refl, tt), (tt, tt))

abbrev two : Store
two = record { entries = two_entries; sorted = two_entries-IsSorted }

abbrev context : UpdateContext memory
context = record {
  batch = record { store = two; base = two; is_indexed = false };
  db = two;
  index = 7;
  leader_index = none;
}

abbrev empty_context : UpdateContext memory
empty_context = record {
  batch = record { store = empty_store; base = empty_store; is_indexed = false };
  db = empty_store;
  index = 7;
  leader_index = none;
}

abbrev put_a : RequestPut
put_a = record { key = key_a; value = 3 ∷ []; prev_kv = true }

abbrev delete_all : RequestDeleteRange
delete_all = record { key = key_a; range_end = some (0 ∷ []); prev_kv = true; count = true }

abbrev count_all : RequestRange
count_all = record {
  key = key_a;
  range_end = some (0 ∷ []);
  limit = 0;
  keys_only = false;
  count_only = true;
}

abbrev a_is_one : Compare
a_is_one = record {
  result = CompareResult.equal;
  target = CompareTarget.value;
  key = key_a;
  target_union = some (1 ∷ []);
  range_end = none;
}

abbrev b_after_one : Compare
b_after_one = record a_is_one { result = CompareResult.greater; key = key_b }

abbrev no_fields : CommandFields
no_fields = record {
  type = CommandType.dummy;
  kv = none;
  leader_index = none;
  batch = [];
  txn = none;
  range_end = none;
  prev_kvs = false;
  count = false;
}

-- A put of "a" and a deletion of "b", as one command.
abbrev put_then_delete : Command
put_then_delete =
    command (record no_fields { type = CommandType.sequence })
      (Commands.next
        (command
          (record no_fields {
            type = CommandType.put;
            kv = some (record { key = key_a; value = 3 ∷ [] });
          })
          Commands.end)
        (Commands.next
          (command
            (record no_fields {
              type = CommandType.delete;
              kv = some (record { key = key_b; value = [] });
            })
            Commands.end)
          Commands.end))

handle-Refines_example :
    Refines memory memory_laws context
      (handle memory put_then_delete context)
      (run 7 put_then_delete two_entries)
handle-Refines_example = handle-Refines memory memory_laws put_then_delete context refl

range_lookup-IsPage_example :
    Ensures
      (IsPage count_all (range (user_key key_a) (bound (0 ∷ [])) two_entries))
      (range_lookup (store_reader two) count_all (0 ∷ []))
range_lookup-IsPage_example =
    range_lookup-IsPage (store_reader two) two_entries count_all (0 ∷ []) (memory_laws.db_shows two)

range_lookup-count_only_example :
    Ensures
      (λ resp.
        (resp.count ≡ length (range (user_key key_a) (bound (0 ∷ [])) two_entries))
        × (resp.kvs ≡ [])
        × (resp.more ≡ false))
      (range_lookup (store_reader two) count_all (0 ∷ []))
range_lookup-count_only_example =
    range_lookup-count_only (store_reader two) two_entries count_all (0 ∷ [])
      (memory_laws.db_shows two) refl refl refl

a_found : value_of key_a two_entries ≡ some (1 ∷ [])
unfolding OrderedMap.lookup compare_bytes
a_found = refl

handle_put-PutDone_example :
    Ensures
      (λ x.
        SameContext memory memory_laws context x.0
        × PutDone memory memory_laws put_a two_entries (memory_laws.view x.0.batch) x.1)
      (handle_put memory context put_a)
handle_put-PutDone_example =
    handle_put-PutDone memory memory_laws context put_a refl (inr (λ e. ground (arith, e, a_found)))

handle_put-panic_example : handle_put memory empty_context put_a ≡ panic
unfolding OrderedMap.lookup
handle_put-panic_example = handle_put-panic memory memory_laws empty_context put_a refl refl refl

handle_delete-DeleteDone_example :
    Ensures
      (λ x.
        SameContext memory memory_laws context x.0
        × DeleteDone memory memory_laws delete_all two_entries (memory_laws.view x.0.batch) x.1)
      (handle_delete memory context delete_all)
handle_delete-DeleteDone_example =
    handle_delete-DeleteDone memory memory_laws context delete_all refl

-- The carry of 97 255.
number_of-increment_rightmost_byte_example :
    number_of (increment_rightmost_byte (97 ∷ 255 ∷ [])) ≡ number_of (97 ∷ 255 ∷ []) + 1
number_of-increment_rightmost_byte_example =
    number_of-increment_rightmost_byte (97 ∷ 255 ∷ []) (omega arith, (omega arith, tt))
      (omega arith)

compare_bytes-encode_user_key_example :
    compare_bytes (user_key key_a) (user_key key_b) ≡ compare_bytes key_a key_b
compare_bytes-encode_user_key_example =
    compare_bytes-encode_user_key key_a key_b (user_key key_a) (user_key key_b)
      (encode_user_key_lem key_a) (encode_user_key_lem key_b)

txn_compare-AllHold_example :
    (b : Bool) × (txn_compare (store_reader two) (a_is_one ∷ b_after_one ∷ []) ≡ ok b)
    × ((b ≡ true) ↔ AllHold (a_is_one ∷ b_after_one ∷ []) two_entries)
txn_compare-AllHold_example =
    txn_compare-AllHold (store_reader two) two_entries (a_is_one ∷ b_after_one ∷ [])
      (memory_laws.db_shows two)
