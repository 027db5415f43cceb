-- ===== src/Fsm/Lookup.antt =====
-- FSM.Lookup of storage/table/fsm/fsm.go, and commandSnapshot of query.go: the queries of a table.
pub mod Readonly
pub mod Snapshot
mod Tests
use regatta.Prelude.{
  ℕ, suc, ◌+◌, Bool, Option, none, some, List, [], ◌∷◌, ◌++◌, map, ◌==◌, if◌then◌else◌,
}
use regatta.Bytes.{Bytes}
use regatta.Result.{Result, ok, err, panic, ◌>>=◌, snapshot_stopped, unknown_query_type}
use regatta.Key.{Writer, type_user, decode_bytes}
use regatta.Pebble.{Reader}
use regatta.Pebble.OrderedMap.{Entries}
use regatta.Fsm.Keys.{sys_local_index, sys_leader_index}
use regatta.Fsm.Messages.{
  KeyValue, RequestRange, RequestOp, request_range, ResponseRange, ResponseOp, response_range, Txn,
}
use regatta.Fsm.Query
use regatta.Fsm.Compare.{txn_compare}
use regatta.Fsm.Update.{read_local_index}

-- op.GetRequestRange(), nil for another operation
abbrev pub get_request_range : RequestOp → Option RequestRange
get_request_range (request_range o) = some o
get_request_range _ = none

-- lookup of a range that may be nil, whose fields are read
abbrev pub lookup_deref : Reader → Option RequestRange → Result ResponseRange
lookup_deref snapshot none = panic
lookup_deref snapshot (some o) = Query.lookup snapshot o

-- The loop over the ranges of a transaction.
unfoldable pub lookup_ops : Reader → List (Option RequestRange) → Result (List ResponseOp)
lookup_ops snapshot [] = ok []
lookup_ops snapshot (op ∷ ops) = do
  rr ← lookup_deref snapshot op
  responses ← lookup_ops snapshot ops
  ok (response_range rr ∷ responses)

-- The case of a TxnRequest: whether the comparisons hold, and the responses.
unfoldable pub lookup_txn : Reader → Txn → Result (Bool × List ResponseOp)
unfolding lookup_ops
lookup_txn snapshot req = do
  holds ← txn_compare snapshot req.compare
  responses ←
      lookup_ops snapshot (map get_request_range (if holds then req.success else req.failure))
  ok (holds, responses)

-- What commandSnapshot needs of its surroundings: the encoding of a put command (writeCommand), the
-- writer, and whether the stop channel is closed when a round starts.
pub record SnapshotRequest (W : Type 0) : Type 0 where
  pub marshal_put : KeyValue → Result Bytes
  pub writer : Writer W
  pub stopped : ℕ → Bool

module _ {W : Type 0} (req : SnapshotRequest W) where
  abbrev after_write : W × Result ℕ → (W → W × Result (Unit {0})) → W × Result (Unit {0})
  after_write (w, ok n) k = k w
  after_write (w, err e) k = (w, err e)
  after_write (w, panic) k = (w, panic)

  -- The write of one user pair.
  abbrev pub write_pair : Bytes → Bytes → W → (W → W × Result (Unit {0})) → W × Result (Unit {0})
  write_pair k v w rest = elim (req.marshal_put (record { key = k; value = v })) [
    | ok buffer ↦ after_write (req.writer.write w buffer) rest
    | err e ↦ (w, err e)
    | panic ↦ (w, panic)
  ]

  -- The loop over the iterator, in its i-th round.
  unfoldable pub snapshot_loop : Entries → ℕ → W → W × Result (Unit {0})
  snapshot_loop [] i w = (w, ok tt)
  snapshot_loop ((k, v) ∷ m) i w =
      let rest = λ (w' : W). snapshot_loop m (i + 1) w' in
      if req.stopped i then (w, err snapshot_stopped) else elim (decode_bytes k) [
        | ok key ↦ if key.key_type == type_user then write_pair key.key v w rest else rest w
        | err e ↦ (w, err e)
        | panic ↦ (w, panic)
      ]

  abbrev with_index : ℕ → W × Result (Unit {0}) → W × Result ℕ
  with_index idx (w, ok u) = (w, ok idx)
  with_index idx (w, err e) = (w, err e)
  with_index idx (w, panic) = (w, panic)

  -- commandSnapshot: the local index
  unfoldable pub command_snapshot : Reader → W → W × Result ℕ
  unfolding snapshot_loop
  command_snapshot reader w = elim (read_local_index reader sys_local_index) [
    | ok idx ↦ with_index idx (snapshot_loop (reader.iter none none) 0 w)
    | err e ↦ (w, err e)
    | panic ↦ (w, panic)
  ]

-- The queries other than snapshots, which write.
pub data LookupRequest : Type 0 where
  lookup_txn_request : Txn → LookupRequest
  lookup_range : RequestRange → LookupRequest
  local_index_request leader_index_request path_request other_request : LookupRequest

pub data LookupResponse : Type 0 where
  txn_response : Bool → List ResponseOp → LookupResponse
  range_response : ResponseRange → LookupResponse
  index_response : ℕ → LookupResponse
  path_response : Bytes → LookupResponse

-- FSM.Lookup: a snapshot of the database reads as the database does.
unfoldable pub lookup : Reader → Bytes → LookupRequest → Result LookupResponse
unfolding lookup_txn
lookup db dirname (lookup_txn_request req) =
    lookup_txn db req >>= λ (holds, rs). ok (txn_response holds rs)
lookup db dirname (lookup_range req) = Query.lookup db req >>= λ r. ok (range_response r)
lookup db dirname local_index_request =
    read_local_index db sys_local_index >>= λ idx. ok (index_response idx)
lookup db dirname leader_index_request =
    read_local_index db sys_leader_index >>= λ idx. ok (index_response idx)
lookup db dirname path_request = ok (path_response dirname)
lookup db dirname other_request = err unknown_query_type
