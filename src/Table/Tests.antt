-- ===== src/Table/Tests.antt =====
-- A put and a read of a table on one node, with codecs that know the one command.
use regatta.Prelude.{◌≡◌, ◌⊎◌, refl, true, false, none, some, [], ◌∷◌, arith}
use regatta.Result.{Result, Error, ok, err, external}
use regatta.Fsm.Lookup.{LookupRequest, LookupResponse}
use regatta.Pebble.Model.{Store, empty_store, memory, memory_laws}
use regatta.Fsm.Update.{Codec}
use regatta.Api.{PutRequest, zero_header}
use regatta.Table.{ClientCodec, ActiveTable, range, put, propose}
use regatta.Table.Limits.{IsWithinBounds, put_command, put-IsWithinBounds}
use regatta.Table.Active.{one_node, key_request, put_result, range-put}

abbrev put_request : PutRequest
put_request = record { table = 116 ∷ []; key = 97 ∷ []; value = 3 ∷ []; prev_kv = false }

abbrev codec : Codec
codec = record { unmarshal = λ b. ok (put_command put_request); marshal = λ r. 0 ∷ [] }

abbrev client : ClientCodec
client = record { marshal = λ c. ok (1 ∷ []); unmarshal = λ b. ok (put_result 10) }

-- Stale reads that fail.
abbrev stale : Store → LookupRequest → Result LookupResponse
stale db req = err external

abbrev active : ActiveTable
active = record {
  table = record { name = 116 ∷ []; cluster_id = 10001; recover_id = 0 };
  session = 10001;
}

put_request-IsWithinBounds : IsWithinBounds put_request
put_request-IsWithinBounds = record {
  has_key = omega arith;
  key_le = omega arith;
  value_le = omega arith;
}

put-IsWithinBounds_example :
    (IsWithinBounds put_request
      × ((put (one_node memory codec 10 stale) client active empty_store put_request).0
          ≡ (propose
              (one_node memory codec 10 stale)
              client
              active
              empty_store
              (put_command put_request)).0))
    ⊎ ((IsWithinBounds put_request → ⊥)
        × ((e : Error) × (put (one_node memory codec 10 stale) client active empty_store put_request
              ≡ (empty_store, err e))))
put-IsWithinBounds_example =
    put-IsWithinBounds (one_node memory codec 10 stale) client active empty_store put_request

range-put_example :
    (db' : Store) × (put (one_node memory codec 10 stale) client active empty_store put_request
      ≡ (db', ok (record { header = some (record zero_header { revision = 10 }); prev_kv = none })))
    × (range
          (one_node memory codec 10 stale)
          client
          active
          db'
          (key_request (116 ∷ []) (97 ∷ []) true)
        ≡ ok (record {
          header = none;
          kvs = record { key = 97 ∷ []; value = 3 ∷ [] } ∷ [];
          more = false;
          count = 1;
        }))
range-put_example =
    range-put memory memory_laws codec client stale 10 active empty_store put_request (1 ∷ []) refl
      refl refl put_request-IsWithinBounds refl
