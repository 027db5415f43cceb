-- ===== src/Manager/Restore/Final.antt =====
-- readIntoTable of a stream that ends with a dummy command, as SnapshotServer sends it.
use regatta.Prelude.{
  ℕ, ◌+◌, ◌/◌, ◌<◌, ◌≡◌, refl, ◌∙◌, true, none, some, List, [], ◌∷◌, ◌++◌, map, length, ltb, arith,
}
use regatta.Bytes.{Bytes}
use regatta.Result.{Result, ok}
use regatta.Fsm.Messages.{KeyValue}
use regatta.Manager.Restore.{PutMessage, Batch, batch_command, read_loop}
use regatta.Manager.Restore.Pairs.{recording, total_length, ReadsBack, longer}
use mathlib.Core.List.{append_assoc}

-- A short stream with the last command goes into one batch.
pub read_loop-final :
    (unmarshal : Bytes → Result PutMessage) (id max_in_mem_log_size : ℕ) (encode : KeyValue → Bytes)
    (final : Bytes) (index : ℕ) (kvs : List KeyValue) (b : Batch)
    → ReadsBack unmarshal encode kvs
    → unmarshal final ≡ ok (record { kv = none; leader_index = some index })
    → b.size + total_length (map encode kvs) + length final < max_in_mem_log_size / 2
    → read_loop
        (recording unmarshal)
        id
        max_in_mem_log_size
        none
        (map encode kvs ++ (final ∷ []))
        b
        []
      ≡ (
        batch_command (record b {
          pairs = b.pairs ++ (kvs ++ (record { key = []; value = [] } ∷ []));
          leader_index = some index;
        })
            ∷ [],
        ok tt,
      )
unfolding read_loop
read_loop-final unmarshal id max_in_mem_log_size encode final index [] b h f l =
    let fits : ltb (b.size + length final) (max_in_mem_log_size / 2) ≡ true = ground (arith, l) in
    rw (f, fits) refl
read_loop-final unmarshal id max_in_mem_log_size encode final index (kv ∷ kvs) b h f l =
    let fits : ltb (b.size + length (encode kv)) (max_in_mem_log_size / 2) ≡ true =
      ground (arith, l) in
    rw (h.0, fits)
      (read_loop-final unmarshal id max_in_mem_log_size encode final index kvs
          (longer unmarshal id max_in_mem_log_size b (encode kv)
            (record { kv = some kv; leader_index = none }))
          h.1 f (ground (arith, l))
        ∙ rw (append_assoc b.pairs (kv ∷ []) (kvs ++ (record { key = []; value = [] } ∷ []))) refl)
