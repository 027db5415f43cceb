-- ===== src/Fsm/Put.antt =====
-- storage/table/fsm/command_put.go: handlePut and handlePutBatch.
use regatta.Prelude.{false, Option, none, some, List, [], ◌∷◌, if◌then◌else◌}
use regatta.Result.{Result, ok, panic, ◌>>=◌}
use regatta.Pebble.{Pebble}
use regatta.Fsm.Keys.{encode_user_key}
use regatta.Fsm.Messages.{KeyValue, RequestPut, ResponsePut}
use regatta.Fsm.Query.{single_lookup}
use regatta.Fsm.Context.{UpdateContext, ensure_indexed, tolerate}

-- rng.Kvs[0]
abbrev pub first_kv : List KeyValue → Result KeyValue
first_kv [] = panic
first_kv (kv ∷ kvs) = ok kv

module _ (p : Pebble) where
  -- The previous pair of a put.
  unfoldable pub put_prev_kv : UpdateContext p → RequestPut → Result (Option KeyValue)
  put_prev_kv c put = do
    rng ← tolerate (
        single_lookup (p.batch_reader c.batch) (record {
          key = put.key;
          range_end = none;
          limit = 0;
          keys_only = false;
          count_only = false;
        }))
    elim rng [ none ↦ ok none | some r ↦ first_kv r.kvs >>= λ kv. ok (some kv) ]

  -- handlePut
  unfoldable pub handle_put : UpdateContext p → RequestPut → Result (UpdateContext p × ResponsePut)
  unfolding ensure_indexed put_prev_kv
  handle_put c put = do
    key ← encode_user_key [] put.key
    (c', prev) ←
        if put.prev_kv
        then (do c' ← ensure_indexed p c; prev ← put_prev_kv c' put; ok (c', prev))
        else ok (c, none)
    batch ← p.set c'.batch key put.value
    ok (record c' { batch = batch }, record { prev_kv = prev })

  -- handlePutBatch; `results` grows at its end
  unfoldable pub handle_put_batch :
      UpdateContext p → List RequestPut → Result (UpdateContext p × List ResponsePut)
  handle_put_batch c [] = ok (c, [])
  handle_put_batch c (op ∷ ops) = do
    (c', res) ← handle_put c op
    (c'', results) ← handle_put_batch c' ops
    ok (c'', res ∷ results)
