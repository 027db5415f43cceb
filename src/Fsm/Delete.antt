-- ===== src/Fsm/Delete.antt =====
-- storage/table/fsm/command_delete.go: handleDelete and handleDeleteBatch.
use regatta.Prelude.{false, not, ◌&&◌, ◌||◌, Option, none, some, List, [], ◌∷◌, if◌then◌else◌}
use regatta.Bytes.{Bytes, equal}
use regatta.Result.{Result, ok, ◌>>=◌}
use regatta.Pebble.{Pebble}
use regatta.Fsm.Keys.{encode_user_key, wildcard, max_bound}
use regatta.Fsm.Messages.{RequestDeleteRange, ResponseRange, ResponseDeleteRange}
use regatta.Fsm.Query.{range_lookup, single_lookup}
use regatta.Fsm.Context.{UpdateContext, ensure_indexed, tolerate}

-- The upper bound of a range that is deleted.
abbrev pub delete_bound : Bytes → Result Bytes
delete_bound range_end =
    if equal range_end wildcard then ok max_bound else encode_user_key [] range_end

-- The response for one key.
abbrev pub deleted_one : Option ResponseRange → ResponseDeleteRange
deleted_one none = record { deleted = 0; prev_kvs = [] }
deleted_one (some rng) = record { deleted = 1; prev_kvs = rng.kvs }

module _ (p : Pebble) where
  -- The branch of handleDelete for a range.
  unfoldable pub delete_range_op :
      UpdateContext p
      → RequestDeleteRange
      → Bytes
      → Bytes
      → Result (UpdateContext p × ResponseDeleteRange)
  unfolding ensure_indexed
  delete_range_op c del range_end key = do
    (c', resp) ←
        if del.prev_kv || del.count
        then (do
          c' ← ensure_indexed p c
          rng ←
              range_lookup (p.batch_reader c'.batch)
                (record {
                  key = del.key;
                  range_end = some range_end;
                  limit = 0;
                  keys_only = false;
                  count_only = del.count && not del.prev_kv;
                })
                range_end
          ok (c', record { deleted = rng.count; prev_kvs = rng.kvs }))
        else ok (c, record { deleted = 0; prev_kvs = [] })
    end ← delete_bound range_end
    batch ← p.delete_range c'.batch key end
    ok (record c' { batch = batch }, resp)

  -- The branch of handleDelete for one key.
  unfoldable pub delete_key_op :
      UpdateContext p → RequestDeleteRange → Bytes → Result (UpdateContext p × ResponseDeleteRange)
  unfolding ensure_indexed
  delete_key_op c del key = do
    (c', resp) ←
        if del.prev_kv || del.count
        then (do
          c' ← ensure_indexed p c
          rng ← tolerate (
              single_lookup (p.batch_reader c'.batch) (record {
                key = del.key;
                range_end = none;
                limit = 0;
                keys_only = false;
                count_only = del.count && not del.prev_kv;
              }))
          ok (c', deleted_one rng))
        else ok (c, record { deleted = 0; prev_kvs = [] })
    batch ← p.delete c'.batch key
    ok (record c' { batch = batch }, resp)

  -- handleDelete
  unfoldable pub handle_delete :
      UpdateContext p → RequestDeleteRange → Result (UpdateContext p × ResponseDeleteRange)
  unfolding delete_range_op delete_key_op
  handle_delete c del = do
    key ← encode_user_key [] del.key
    elim del.range_end [
      | some range_end ↦ delete_range_op c del range_end key
      | none ↦ delete_key_op c del key
    ]

  -- handleDeleteBatch
  unfoldable pub handle_delete_batch :
      UpdateContext p
      → List RequestDeleteRange
      → Result (UpdateContext p × List ResponseDeleteRange)
  handle_delete_batch c [] = ok (c, [])
  handle_delete_batch c (op ∷ ops) = do
    (c', res) ← handle_delete c op
    (c'', results) ← handle_delete_batch c' ops
    ok (c'', res ∷ results)
