-- ===== src/Fsm/Refinement/Puts.antt =====
-- handlePut and handlePutBatch refine their specification.
use regatta.Prelude.{◌≡◌, refl, true, List, [], ◌∷◌, arith, Bool-cases, Option-cases, inl, inr, ◌∙◌}
use regatta.Bytes.{Bytes}
use regatta.Result.{ok, ◌>>=◌}
use regatta.Pebble.{Pebble, PebbleLaws}
use regatta.Pebble.OrderedMap.{insert}
use regatta.Fsm.Keys.Order.{encode_user_key_lem}
use regatta.Fsm.Messages.{RequestPut}
use regatta.Fsm.Query.Reads.{single_lookup_lem}
use regatta.Fsm.Context.{UpdateContext}
use regatta.Fsm.Spec.{previous, put_change, value_of, each}
use regatta.Fsm.Refinement.{
  IsReady, SameContext, SameContext-refl, Refines, Refines-bind, ensure_indexed_lem,
}
use regatta.Fsm.Put.{put_prev_kv, handle_put, handle_put_batch}

module _ (p : Pebble) (laws : PebbleLaws p) where
  open laws use {view, base}

  put_prev_kv_lem :
      (c : UpdateContext p) (put : RequestPut)
      → p.indexed c.batch ≡ true
      → put_prev_kv p c put ≡ previous put (value_of put.key (view c.batch))
  unfolding put_prev_kv
  put_prev_kv_lem c put h =
      rw (single_lookup_lem (p.batch_reader c.batch) (view c.batch) (laws.batch_shows c.batch h))
        (ground arith)

  -- The write at the end of handlePut.
  write_lem :
      {R : Type 0} (c c' : UpdateContext p) (k v : Bytes) (r : R)
      → SameContext p laws c c'
      → Refines p laws c
          (p.set c'.batch k v >>= λ b. ok (record c' { batch = b }, r))
          (ok (insert k v (view c'.batch), r))
  write_lem c c' k v r same =
      let (b, done, shown, based, kept) = laws.set_lem c'.batch k v in
      rw done (
        record {
          ready = based ∙ same.ready;
          same_db = same.same_db;
          same_index = same.same_index;
          same_leader_index = same.same_leader_index;
          stays_indexed = λ i. kept ∙ same.stays_indexed i;
        },
        shown,
        refl,
      )

  pub handle_put-Refines :
      (c : UpdateContext p) (put : RequestPut)
      → IsReady p laws c
      → Refines p laws c (handle_put p c put) (put_change put (view c.batch))
  unfolding handle_put put_change
  handle_put-Refines c put h = elim (Bool-cases put.prev_kv) [
    | inl e ↦
        let (c', done, indexed, shown, same) = ensure_indexed_lem p laws c h in
        rw (e, encode_user_key_lem put.key, done, put_prev_kv_lem c' put indexed, ← shown)
          (elim (Option-cases (value_of put.key (view c'.batch))) [
            | inl absent ↦ rw absent tt
            | inr (v, present) ↦ rw present (write_lem c c' _ _ _ same)
          ])
    | inr e ↦
        rw (e, encode_user_key_lem put.key) (write_lem c c _ _ _ (SameContext-refl p laws c h))
  ]

  pub handle_put_batch-Refines :
      (c : UpdateContext p) (puts : List RequestPut)
      → IsReady p laws c
      → Refines p laws c (handle_put_batch p c puts) (each put_change puts (view c.batch))
  unfolding handle_put_batch each
  handle_put_batch-Refines c [] h = (SameContext-refl p laws c h, refl, refl)
  handle_put_batch-Refines c (put ∷ puts) h =
      Refines-bind p laws c _ _ _ _ (handle_put-Refines c put h) λ c' r _ h'.
        Refines-bind p laws c' _ _ _ _ (handle_put_batch-Refines c' puts h')
          λ c'' rs _ h''. (SameContext-refl p laws c'' h'', refl, refl)
