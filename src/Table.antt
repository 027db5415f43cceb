-- ===== src/Table.antt =====
-- storage/table/table.go: a table and the requests to its shard. The node host of dragonboat, which
-- holds the shards, and the protobuf codecs are parameters. The name of the table in a command, which
-- the state machine does not read, is left out.
pub mod Active
pub mod Limits
mod Tests
use regatta.Prelude.{
  ℕ, ◌*◌, Bool, true, false, ◌&&◌, Option, none, some, List, [], ◌∷◌, length, ltb, ◌==◌,
  if◌then◌else◌,
}
use regatta.Bytes.{Bytes}
use regatta.Result.{
  Result, ok, err, panic, ◌>>=◌, empty_key, key_length_exceeded, value_length_exceeded,
  no_result_found, unknown_result_type,
}
use regatta.Key.{latest_version_len}
use regatta.Fsm.Messages.{
  KeyValue, RequestRange, RequestOp, request_range, ResponseRange, ResponsePut, ResponseDeleteRange,
  ResponseOp, response_put, response_delete_range, CommandType, CommandFields, Command, Commands,
  command, CommandResult, Txn,
}
use regatta.Fsm.Lookup.{
  LookupRequest, lookup_range, lookup_txn_request, local_index_request, leader_index_request,
  LookupResponse, range_response, txn_response, index_response,
}
use regatta.Api.{
  RangeRequest, RangeResponse, PutRequest, PutResponse, DeleteRangeRequest, DeleteRangeResponse,
  TxnRequest, TxnResponse, zero_header, to_limit,
}

-- MaxValueLen: 2 MiB
abbrev pub max_value_len : ℕ
max_value_len = 2 * 1024 * 1024

-- Table
pub record Table : Type 0 where
  pub name : Bytes
  pub cluster_id : ℕ
  pub recover_id : ℕ

-- statemachine.Result
pub record SmResult : Type 0 where
  pub value : ℕ
  pub result_data : Bytes

-- raftHandler: reads and proposals of a shard
pub record RaftHandler : Type 1 where
  pub State : Type 0
  pub sync_read : State → ℕ → LookupRequest → Result LookupResponse
  pub stale_read : State → ℕ → LookupRequest → Result LookupResponse
  pub sync_propose : State → ℕ → Bytes → State × Result SmResult

-- Command.MarshalVT and CommandResult.UnmarshalVT
pub record ClientCodec : Type 0 where
  pub marshal : Command → Result Bytes
  pub unmarshal : Bytes → Result CommandResult

-- A Command with its zero values.
abbrev pub zero_fields : CommandType → CommandFields
zero_fields type = record {
  type = type;
  kv = none;
  leader_index = none;
  batch = [];
  txn = none;
  range_end = none;
  prev_kvs = false;
  count = false;
}

-- ActiveTable: the table, with the session of its shard
pub record ActiveTable : Type 0 where
  pub table : Table
  pub session : ℕ

-- Table.AsActive
abbrev pub as_active : Table → ActiveTable
as_active t = record { table = t; session = t.cluster_id }

-- The type assertion of a value, which panics.
abbrev pub assert_type {ℓ} : {A : Type ℓ} → Option A → Result A
assert_type none = panic
assert_type (some a) = ok a

abbrev pub as_range : LookupResponse → Option ResponseRange
as_range (range_response r) = some r
as_range _ = none

abbrev pub as_txn : LookupResponse → Option TxnResponse
as_txn (txn_response succeeded responses) =
    some (record { header = none; succeeded = succeeded; responses = responses })
as_txn _ = none

abbrev pub as_index : LookupResponse → Option ℕ
as_index (index_response i) = some i
as_index _ = none

abbrev pub as_response_put : ResponseOp → Option ResponsePut
as_response_put (response_put r) = some r
as_response_put _ = none

abbrev pub as_response_delete_range : ResponseOp → Option ResponseDeleteRange
as_response_delete_range (response_delete_range r) = some r
as_response_delete_range _ = none

-- The first response, if it has the type asked for, and the revision.
abbrev pub first_response : {A : Type 0} → (ResponseOp → Option A) → CommandResult → Result (A × ℕ)
first_response as_type pr = elim pr.responses [
  | [] ↦ err no_result_found
  | r ∷ rs ↦ elim (as_type r) [ none ↦ err unknown_result_type | some a ↦ ok (a, pr.revision) ]
]

abbrev all_ranges : List RequestOp → Bool
all_ranges [] = true
all_ranges (request_range o ∷ ops) = all_ranges ops
all_ranges (_ ∷ ops) = false

-- isReadonlyTransaction, here and in regattaserver/kv.go
unfoldable pub is_readonly_transaction : TxnRequest → Bool
is_readonly_transaction req = all_ranges req.success && all_ranges req.failure

-- len(req.RangeEnd)
abbrev pub range_end_length : Option Bytes → ℕ
range_end_length none = 0
range_end_length (some e) = length e

module _ (h : RaftHandler) (codec : ClientCodec) where
  open h use {State}

  -- readTable
  unfoldable pub read_table :
      {A : Type 0}
      → ActiveTable
      → State
      → Bool
      → LookupRequest
      → (LookupResponse → Option A)
      → Result A
  read_table t s linearizable req as_type =
      (if linearizable
        then h.sync_read s t.table.cluster_id req
        else h.stale_read s t.table.cluster_id req)
      >>= λ val. assert_type (as_type val)

  -- The encoding of a command and its proposal.
  abbrev pub propose : ActiveTable → State → Command → State × Result SmResult
  propose t s cmd = elim (codec.marshal cmd) [
    | ok bytes ↦ h.sync_propose s t.session bytes
    | err e ↦ (s, err e)
    | panic ↦ (s, panic)
  ]

  -- proposeTable
  unfoldable pub propose_table :
      {A : Type 0}
      → ActiveTable
      → State
      → Command
      → (ResponseOp → Option A)
      → State × Result (A × ℕ)
  propose_table t s cmd as_type =
      let (s', res) = propose t s cmd in
      (s', res >>= λ r. codec.unmarshal r.result_data >>= λ pr. first_response as_type pr)

  -- ActiveTable.Range
  unfoldable pub range : ActiveTable → State → RangeRequest → Result RangeResponse
  unfolding read_table
  range t s req =
      if ltb latest_version_len (length req.key)
      then err key_length_exceeded
      else if ltb latest_version_len (range_end_length req.range_end)
      then err key_length_exceeded
      else read_table t s req.linearizable
          (lookup_range (record {
            key = req.key;
            range_end = req.range_end;
            limit = to_limit req.limit;
            keys_only = req.keys_only;
            count_only = req.count_only;
          }))
          as_range
        >>= λ response. ok (record {
          header = none;
          kvs = response.kvs;
          more = response.more;
          count = response.count;
        })

  -- ActiveTable.Put
  unfoldable pub put : ActiveTable → State → PutRequest → State × Result PutResponse
  unfolding propose_table
  put t s req =
      if length req.key == 0
      then (s, err empty_key)
      else if ltb latest_version_len (length req.key)
      then (s, err key_length_exceeded)
      else if ltb max_value_len (length req.value)
      then (s, err value_length_exceeded)
      else (let (s', res) =
            propose_table t s
              (command
                (record (zero_fields CommandType.put) {
                  kv = some (record { key = req.key; value = req.value });
                  prev_kvs = req.prev_kv;
                })
                Commands.end)
              as_response_put in
          (
            s',
            res >>= λ (r, rev). ok (record {
              header = some (record zero_header { revision = rev });
              prev_kv = r.prev_kv;
            }),
          ))

  -- ActiveTable.Delete
  unfoldable pub delete :
      ActiveTable → State → DeleteRangeRequest → State × Result DeleteRangeResponse
  unfolding propose_table
  delete t s req =
      if length req.key == 0
      then (s, err empty_key)
      else if ltb latest_version_len (length req.key)
      then (s, err key_length_exceeded)
      else (let (s', res) =
            propose_table t s
              (command
                (record (zero_fields CommandType.delete) {
                  kv = some (record { key = req.key; value = [] });
                  prev_kvs = req.prev_kv;
                  range_end = req.range_end;
                  count = req.count;
                })
                Commands.end)
              as_response_delete_range in
          (
            s',
            res >>= λ (r, rev). ok (record {
              header = some (record zero_header { revision = rev });
              deleted = r.deleted;
              prev_kvs = r.prev_kvs;
            }),
          ))

  abbrev pub txn_of : TxnRequest → Txn
  txn_of req = record { compare = req.compare; success = req.success; failure = req.failure }

  -- ActiveTable.Txn: a read-only transaction is not proposed.
  unfoldable pub txn : ActiveTable → State → TxnRequest → State × Result TxnResponse
  unfolding read_table is_readonly_transaction
  txn t s req =
      if is_readonly_transaction req
      then (s, read_table t s true (lookup_txn_request (txn_of req)) as_txn)
      else (let (s', res) = propose t s (
            command (record (zero_fields CommandType.txn) { txn = some (txn_of req) })
              Commands.end) in
          (
            s',
            res >>= λ r. codec.unmarshal r.result_data >>= λ txr. ok (record {
              header = some (record zero_header { revision = txr.revision });
              succeeded = r.value == 1;
              responses = txr.responses;
            }),
          ))

  -- ActiveTable.LocalIndex and LeaderIndex
  unfoldable pub local_index : ActiveTable → State → Bool → Result ℕ
  unfolding read_table
  local_index t s linearizable = read_table t s linearizable local_index_request as_index

  unfoldable pub leader_index : ActiveTable → State → Bool → Result ℕ
  unfolding read_table
  leader_index t s linearizable = read_table t s linearizable leader_index_request as_index

  -- ActiveTable.Reset
  unfoldable pub reset : ActiveTable → State → State × Result (Unit {0})
  reset t s =
      let (s', res) =
        propose t s (
          command (record (zero_fields CommandType.dummy) { leader_index = some 0 })
            Commands.end) in
      (s', res >>= λ r. ok tt)
