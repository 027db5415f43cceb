-- ===== src/Server/Tests.antt =====
-- The server of a follower over an engine with one table on one node.
use regatta.Prelude.{◌≡◌, false, none, [], ◌∷◌}
use regatta.Result.{ok, err, external}
use regatta.Pebble.Model.{empty_store, memory}
use regatta.Fsm.Update.{Codec}
use regatta.Fsm.Messages.{request_put}
use regatta.Api.{PutRequest, DeleteRangeRequest, TxnRequest}
use regatta.Table.{ClientCodec, ActiveTable}
use regatta.Table.Limits.{put_command}
use regatta.Table.Active.{one_node, put_result}
use regatta.Engine.{Engine}
use regatta.Server.{readonly_put, readonly_delete_range, readonly_txn}
use regatta.Server.Readonly.{engine_service, readonly_server-State}

abbrev put_request : PutRequest
put_request = record { table = 116 ∷ []; key = 97 ∷ []; value = 3 ∷ []; prev_kv = false }

abbrev delete_request : DeleteRangeRequest
delete_request = record {
  table = 116 ∷ [];
  key = 97 ∷ [];
  range_end = none;
  prev_kv = false;
  count = false;
}

abbrev txn_request : TxnRequest
txn_request = record {
  table = 116 ∷ [];
  compare = [];
  success = request_put (record { key = 97 ∷ []; value = 3 ∷ []; prev_kv = false }) ∷ [];
  failure = [];
}

abbrev codec : Codec
codec = record { unmarshal = λ b. ok (put_command put_request); marshal = λ r. 0 ∷ [] }

abbrev client : ClientCodec
client = record { marshal = λ c. ok (1 ∷ []); unmarshal = λ b. ok (put_result 10) }

abbrev active : ActiveTable
active = record {
  table = record { name = 116 ∷ []; cluster_id = 10001; recover_id = 0 };
  session = 10001;
}

abbrev engine : Engine (Unit {0})
engine = record {
  node_id = 1;
  get_table = λ name. ok active;
  shard_info =
      λ id. record { shard_id = id; nodes = tt; config_change_index = 0; leader_id = 1; term = 1 };
}

readonly_server-State_example :
    ((readonly_put
        (engine_service (one_node memory codec 10 (λ db req. err external)) client engine)
        empty_store
        put_request).0
      ≡ empty_store)
    × ((readonly_delete_range
          (engine_service (one_node memory codec 10 (λ db req. err external)) client engine)
          empty_store
          delete_request).0
        ≡ empty_store)
    × ((readonly_txn
          (engine_service (one_node memory codec 10 (λ db req. err external)) client engine)
          empty_store
          txn_request).0
        ≡ empty_store)
readonly_server-State_example =
    readonly_server-State (one_node memory codec 10 (λ db req. err external)) client engine
      empty_store put_request delete_request txn_request
