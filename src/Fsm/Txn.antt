-- ===== src/Fsm/Txn.antt =====
-- storage/table/fsm/command_txn.go: handleTxn and handleTxnOps.
use regatta.Prelude.{Bool, List, [], ◌∷◌, ◌++◌, if◌then◌else◌}
use regatta.Result.{Result, Error, ok, err, ◌>>=◌}
use regatta.Pebble.{Pebble}
use regatta.Fsm.Messages.{
  RequestOp, request_range, request_put, request_delete_range, ResponseRange, ResponseOp,
  response_range, response_put, response_delete_range, Txn,
}
use regatta.Fsm.Query
use regatta.Fsm.Query.{empty_response, range_lookup, single_lookup}
use regatta.Fsm.Compare.{txn_compare}
use regatta.Fsm.Context.{UpdateContext, ensure_indexed}
use regatta.Fsm.Put.{handle_put}
use regatta.Fsm.Delete.{handle_delete}

-- A range of a transaction: a key that is not found has an empty response.
abbrev pub range_or_empty : Result ResponseRange → Result ResponseRange
range_or_empty (err Error.not_found) = ok empty_response
range_or_empty r = r

module _ (p : Pebble) where
  -- One operation of handleTxnOps; an unset one has no response.
  unfoldable pub handle_txn_op :
      UpdateContext p → RequestOp → Result (UpdateContext p × List ResponseOp)
  handle_txn_op c (request_range o) = do
    response ← range_or_empty (Query.lookup (p.batch_reader c.batch) o)
    ok (c, response_range response ∷ [])
  handle_txn_op c (request_put o) = do
    (c', response) ← handle_put p c o
    ok (c', response_put response ∷ [])
  handle_txn_op c (request_delete_range o) = do
    (c', response) ← handle_delete p c o
    ok (c', response_delete_range response ∷ [])
  handle_txn_op c RequestOp.unset = ok (c, [])

  -- handleTxnOps
  unfoldable pub handle_txn_ops :
      UpdateContext p → List RequestOp → Result (UpdateContext p × List ResponseOp)
  unfolding handle_txn_op
  handle_txn_ops c [] = ok (c, [])
  handle_txn_ops c (op ∷ ops) = do
    (c', res) ← handle_txn_op c op
    (c'', results) ← handle_txn_ops c' ops
    ok (c'', res ++ results)

  -- handleTxn
  unfoldable pub handle_txn :
      UpdateContext p → Txn → Result (UpdateContext p × (Bool × List ResponseOp))
  unfolding ensure_indexed handle_txn_ops
  handle_txn c txn = do
    c' ← ensure_indexed p c
    succeeded ← txn_compare (p.batch_reader c'.batch) txn.compare
    (c'', res) ← handle_txn_ops c' (if succeeded then txn.success else txn.failure)
    ok (c'', (succeeded, res))
