-- ===== src/Fsm/Command.antt =====
-- storage/table/fsm/command*.go: the commands of the state machine and their handlers.
use regatta.Prelude.{false, Option, none, some, List, [], ◌∷◌, ◌++◌, map, if◌then◌else◌}
use regatta.Result.{Result, ok, panic, ◌>>=◌}
use regatta.Pebble.{Pebble}
use regatta.Fsm.Messages.{
  KeyValue, RequestPut, RequestDeleteRange, ResponseOp, response_put, response_delete_range,
  CommandType, CommandFields, Command, Commands, command, CommandResult,
}
use regatta.Fsm.Context.{UpdateContext}
use regatta.Fsm.Put.{handle_put, handle_put_batch}
use regatta.Fsm.Delete.{handle_delete, handle_delete_batch}
use regatta.Fsm.Txn.{handle_txn}

-- UpdateResult: ResultFailure and ResultSuccess
pub data UpdateResult : Type 0 where
  result_failure result_success : UpdateResult

-- wrapResponseOp is the constructors of ResponseOp.

-- c.Kv, whose fields are read: a nil pointer panics
abbrev pub deref {ℓ} : {A : Type ℓ} → Option A → Result A
deref none = panic
deref (some a) = ok a

-- The requests of a batch.
abbrev pub put_request : KeyValue → RequestPut
put_request kv = record { key = kv.key; value = kv.value; prev_kv = false }

abbrev pub delete_request : KeyValue → RequestDeleteRange
delete_request kv = record { key = kv.key; range_end = none; prev_kv = false; count = false }

module _ (p : Pebble) where
  abbrev pub Handled : Type 0
  Handled = Result (UpdateContext p × (UpdateResult × CommandResult))

  abbrev pub success :
      UpdateContext p → List ResponseOp → UpdateContext p × (UpdateResult × CommandResult)
  success c responses = (c, (result_success, record { responses = responses; revision = c.index }))

  -- commandPut, commandDelete, commandPutBatch, commandDeleteBatch and commandTxn
  unfoldable pub command_put : UpdateContext p → CommandFields → Handled
  command_put c f = do
    kv ← deref f.kv
    (c', resp) ← handle_put p c (record { key = kv.key; value = kv.value; prev_kv = f.prev_kvs })
    ok (success c' (response_put resp ∷ []))

  unfoldable pub command_delete : UpdateContext p → CommandFields → Handled
  command_delete c f = do
    kv ← deref f.kv
    (c', resp) ←
        handle_delete p c
          (record { key = kv.key; range_end = f.range_end; prev_kv = f.prev_kvs; count = f.count })
    ok (success c' (response_delete_range resp ∷ []))

  unfoldable pub command_put_batch : UpdateContext p → CommandFields → Handled
  unfolding handle_put_batch
  command_put_batch c f = do
    (c', rop) ← handle_put_batch p c (map put_request f.batch)
    ok (success c' (map response_put rop))

  unfoldable pub command_delete_batch : UpdateContext p → CommandFields → Handled
  unfolding handle_delete_batch
  command_delete_batch c f = do
    (c', rop) ← handle_delete_batch p c (map delete_request f.batch)
    ok (success c' (map response_delete_range rop))

  unfoldable pub command_txn : UpdateContext p → CommandFields → Handled
  unfolding handle_txn
  command_txn c f = do
    txn ← deref f.txn
    (c', (succeeded, rop)) ← handle_txn p c txn
    ok (
      c',
      (
        if succeeded then result_success else result_failure,
        record { responses = rop; revision = c'.index },
      ),
    )

  unfoldable pub command_dummy : UpdateContext p → Handled
  command_dummy c = ok (success c [])

  -- wrapCommand and the handler of the command that it makes; `sequence` is commandSequence's loop.
  unfoldable pub dispatch :
      CommandType
      → UpdateContext p
      → CommandFields
      → Result (UpdateContext p × List ResponseOp)
      → Handled
  unfolding command_put command_delete command_put_batch command_delete_batch command_txn
      command_dummy
  dispatch CommandType.put c f sequence = command_put c f
  dispatch CommandType.delete c f sequence = command_delete c f
  dispatch CommandType.put_batch c f sequence = command_put_batch c f
  dispatch CommandType.delete_batch c f sequence = command_delete_batch c f
  dispatch CommandType.txn c f sequence = command_txn c f
  dispatch CommandType.sequence c f sequence =
      sequence >>= λ (c', responses). ok (success c' responses)
  dispatch CommandType.dummy c f sequence = command_dummy c
  dispatch CommandType.unknown_type c f sequence = panic

  unfoldable mutual
    unfolding dispatch

    pub handle : Command → UpdateContext p → Handled
    handle (command f seq) c = dispatch f.type c f (handle_sequence seq c)

    -- commandSequence.handle: the responses of the commands, in order
    pub handle_sequence : Commands → UpdateContext p → Result (UpdateContext p × List ResponseOp)
    handle_sequence Commands.end c = ok (c, [])
    handle_sequence (Commands.next cmd cmds) c = do
      (c', (_, res)) ← handle cmd c
      (c'', results) ← handle_sequence cmds c'
      ok (c'', res.responses ++ results)
