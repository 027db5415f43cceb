-- ===== src/Fsm/Lookup/Snapshot.antt =====
-- The pairs that commandSnapshot writes: one for each user key, in key order.
use regatta.Prelude.{List, [], ◌∷◌, ◌==◌, if◌then◌else◌}
use regatta.Bytes.{Bytes}
use regatta.Result.{Result, ok}
use regatta.Key.{Key, type_user, decode_bytes}
use regatta.Pebble.OrderedMap.{Entries}
use regatta.Fsm.Messages.{KeyValue}

-- The pair of a stored key that decodes to a user key.
abbrev pub user_pair : Result Key → Bytes → List KeyValue → List KeyValue
user_pair (ok key) v rest =
    if key.key_type == type_user then record { key = key.key; value = v } ∷ rest else rest
user_pair _ v rest = rest

-- The user pairs of the entries, in order.
unfoldable pub user_pairs : Entries → List KeyValue
user_pairs [] = []
user_pairs ((k, v) ∷ m) = user_pair (decode_bytes k) v (user_pairs m)
