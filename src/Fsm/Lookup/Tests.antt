-- ===== src/Fsm/Lookup/Tests.antt =====
-- Lookup of the table with the keys "a" and "b".
use regatta.Prelude.{◌≡◌, refl, false, some, [], ◌∷◌}
use regatta.Bytes.{compare_bytes}
use regatta.Pebble.OrderedMap.{Entries, IsSorted}
use regatta.Pebble.Model.{Store, store_reader, memory_laws}
use regatta.Fsm.Keys.Order.{user_key}
use regatta.Fsm.Messages.{RequestRange, request_range, Txn}
use regatta.Fsm.Spec.{txn_change}
use regatta.Fsm.Lookup.{lookup_txn}
use regatta.Fsm.Lookup.Readonly.{unchanged, lookup_txn-txn_change}

abbrev two_entries : Entries
two_entries = (user_key (97 ∷ []), 1 ∷ []) ∷ (user_key (98 ∷ []), 2 ∷ []) ∷ []

two_entries-IsSorted : IsSorted two_entries
unfolding compare_bytes
two_entries-IsSorted = ((refl, tt), (tt, tt))

abbrev two : Store
two = record { entries = two_entries; sorted = two_entries-IsSorted }

abbrev all_keys : RequestRange
all_keys = record {
  key = 97 ∷ [];
  range_end = some (0 ∷ []);
  limit = 0;
  keys_only = false;
  count_only = false;
}

abbrev txn : Txn
txn = record { compare = []; success = request_range all_keys ∷ []; failure = [] }

lookup_txn-txn_change_example :
    txn_change txn two_entries ≡ unchanged two_entries (lookup_txn (store_reader two) txn)
lookup_txn-txn_change_example =
    lookup_txn-txn_change (store_reader two) two_entries (memory_laws.db_shows two) txn tt tt
