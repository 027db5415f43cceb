-- ===== src/Engine.antt =====
-- Engine of storage/engine.go: the requests of clients, by the name of their table. The tables of the
-- manager and the view of the cluster are arguments; the default timeout is left out, since the
-- deadline of a request is the node host's matter.
use regatta.Prelude.{ℕ, Option, none, some}
use regatta.Bytes.{Bytes}
use regatta.Result.{Result, ok, err, panic, ◌>>=◌}
use regatta.Api.{
  ResponseHeader, zero_header, RangeRequest, RangeResponse, PutRequest, PutResponse,
  DeleteRangeRequest, DeleteRangeResponse, TxnRequest, TxnResponse,
}
use regatta.Cluster.View.{ShardView}
use regatta.Table
use regatta.Table.{RaftHandler, ClientCodec, ActiveTable}

-- The configuration, the tables and the cluster that an engine is made of.
pub record Engine (N : Type 0) : Type 0 where
  pub node_id : ℕ
  pub get_table : Bytes → Result ActiveTable
  pub shard_info : ℕ → ShardView N

abbrev or_zero : Option ResponseHeader → ResponseHeader
or_zero none = zero_header
or_zero (some h) = h

module _ {N : Type 0} (h : RaftHandler) (codec : ClientCodec) (e : Engine N) where
  open h use {State}

  -- Engine.getHeader
  unfoldable pub get_header : Option ResponseHeader → ℕ → ResponseHeader
  get_header header shard_id = record (or_zero header) {
    replica_id = e.node_id;
    shard_id = shard_id;
    raft_term = (e.shard_info shard_id).term;
    raft_leader_id = (e.shard_info shard_id).leader_id;
  }

  -- A request to a table that may be missing.
  abbrev pub with_table :
      {A : Type 0} → Bytes → State → (ActiveTable → State × Result A) → State × Result A
  with_table name s f = elim (e.get_table name) [
    | ok t ↦ f t
    | err x ↦ (s, err x)
    | panic ↦ (s, panic)
  ]

  -- Engine.Range
  unfoldable pub range : State → RangeRequest → Result RangeResponse
  range s req = do
    t ← e.get_table req.table
    rng ← Table.range h codec t s req
    ok (record rng { header = some (get_header none t.table.cluster_id) })

  -- Engine.Put
  unfoldable pub put : State → PutRequest → State × Result PutResponse
  put s req = with_table req.table s λ t.
      let (s', res) = Table.put h codec t s req in
      (s', res >>= λ r. ok (record r { header = some (get_header r.header t.table.cluster_id) }))

  -- Engine.Delete
  unfoldable pub delete : State → DeleteRangeRequest → State × Result DeleteRangeResponse
  delete s req = with_table req.table s λ t.
      let (s', res) = Table.delete h codec t s req in
      (s', res >>= λ r. ok (record r { header = some (get_header r.header t.table.cluster_id) }))

  -- Engine.Txn
  unfoldable pub txn : State → TxnRequest → State × Result TxnResponse
  txn s req = with_table req.table s λ t.
      let (s', res) = Table.txn h codec t s req in
      (s', res >>= λ r. ok (record r { header = some (get_header r.header t.table.cluster_id) }))
