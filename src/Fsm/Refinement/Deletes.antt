-- ===== src/Fsm/Refinement/Deletes.antt =====
-- handleDelete and handleDeleteBatch refine their specification.
use regatta.Prelude.{◌≡◌, refl, ◌||◌, Option, none, some, List, [], ◌∷◌, Bool-cases, inl, inr, ◌∙◌}
use regatta.Bytes.{Bytes, equal}
use regatta.Result.{ok, split, is_ok, is_err, is_panic, ◌>>=◌}
use regatta.Pebble.{Pebble, PebbleLaws}
use regatta.Pebble.OrderedMap.{remove, remove_range}
use regatta.Fsm.Keys.{wildcard}
use regatta.Fsm.Keys.Order.{user_key, encode_user_key_lem}
use regatta.Fsm.Messages.{RequestDeleteRange}
use regatta.Fsm.Query.Reads.{single_lookup_lem, range_lookup_lem, bound}
use regatta.Fsm.Context.{UpdateContext}
use regatta.Fsm.Spec.{delete_change, delete_to, delete_request_range, read, each}
use regatta.Fsm.Refinement.{
  IsReady, SameContext, SameContext-refl, Refines, Refines-bind, ensure_indexed_lem,
}
use regatta.Fsm.Delete.{
  delete_bound, delete_range_op, delete_key_op, handle_delete, handle_delete_batch,
}

module _ (p : Pebble) (laws : PebbleLaws p) where
  open laws use {view, base}

  -- The deletion at the end of handleDelete.
  delete_lem :
      {R : Type 0} (c c' : UpdateContext p) (k : Bytes) (r : R)
      → SameContext p laws c c'
      → Refines p laws c
          (p.delete c'.batch k >>= λ b. ok (record c' { batch = b }, r))
          (ok (remove k (view c'.batch), r))
  delete_lem c c' k r same =
      let (b, done, shown, based, kept) = laws.delete_lem c'.batch k in
      rw done (
        record {
          ready = based ∙ same.ready;
          same_db = same.same_db;
          same_index = same.same_index;
          same_leader_index = same.same_leader_index;
          stays_indexed = λ i. kept ∙ same.stays_indexed i;
        },
        shown,
        refl,
      )

  delete_range_lem :
      {R : Type 0} (c c' : UpdateContext p) (lo hi : Bytes) (r : R)
      → SameContext p laws c c'
      → Refines p laws c
          (p.delete_range c'.batch lo hi >>= λ b. ok (record c' { batch = b }, r))
          (ok (remove_range lo hi (view c'.batch), r))
  delete_range_lem c c' lo hi r same =
      let (b, done, shown, based, kept) = laws.delete_range_lem c'.batch lo hi in
      rw done (
        record {
          ready = based ∙ same.ready;
          same_db = same.same_db;
          same_index = same.same_index;
          same_leader_index = same.same_leader_index;
          stays_indexed = λ i. kept ∙ same.stays_indexed i;
        },
        shown,
        refl,
      )

  delete_bound_lem : (range_end : Bytes) → delete_bound range_end ≡ ok (bound range_end)
  delete_bound_lem range_end = elim (Bool-cases (equal range_end wildcard)) [
    | inl e ↦ rw e
    | inr e ↦ rw (e, encode_user_key_lem range_end)
  ]

  delete_key_op-Refines :
      (c : UpdateContext p) (del : RequestDeleteRange)
      → IsReady p laws c
      → Refines p laws c
          (delete_key_op p c del (user_key del.key))
          (delete_to del none (view c.batch))
  unfolding delete_key_op
  delete_key_op-Refines c del h = elim (Bool-cases (del.prev_kv || del.count)) [
    | inl e ↦
        let (c', done, indexed, shown, same) = ensure_indexed_lem p laws c h in
        let found =
          single_lookup_lem (p.batch_reader c'.batch) (view c'.batch)
            (laws.batch_shows c'.batch indexed) in
        rw (e, done, found, ← shown) (delete_lem c c' _ _ same)
    | inr e ↦ rw e (delete_lem c c _ _ (SameContext-refl p laws c h))
  ]

  delete_range_op-Refines :
      (c : UpdateContext p) (del : RequestDeleteRange) (end : Bytes)
      → IsReady p laws c
      → Refines p laws c
          (delete_range_op p c del end (user_key del.key))
          (delete_to del (some end) (view c.batch))
  unfolding delete_range_op
  delete_range_op-Refines c del end h = elim (Bool-cases (del.prev_kv || del.count)) [
    | inl e ↦
        let (c', done, indexed, shown, same) = ensure_indexed_lem p laws c h in
        let found =
          range_lookup_lem (p.batch_reader c'.batch) (view c'.batch)
            (laws.batch_shows c'.batch indexed) in
        rw (e, done, found, ← shown)
          (elim (split (read (delete_request_range del (some end)) (view c'.batch))) [
            | is_ok rng q ↦ rw (q, delete_bound_lem end) (delete_range_lem c c' _ _ _ same)
            | is_err x q ↦ rw q refl
            | is_panic q ↦ rw q tt
          ])
    | inr e ↦
        rw (e, delete_bound_lem end) (delete_range_lem c c _ _ _ (SameContext-refl p laws c h))
  ]

  pub handle_delete-Refines :
      (c : UpdateContext p) (del : RequestDeleteRange)
      → IsReady p laws c
      → Refines p laws c (handle_delete p c del) (delete_change del (view c.batch))
  unfolding handle_delete delete_change
  handle_delete-Refines c del h = rw (encode_user_key_lem del.key) (by_end del.range_end)
    where
      by_end :
          (end : Option Bytes)
          → Refines p laws c
              (elim end [
                | some range_end ↦ delete_range_op p c del range_end (user_key del.key)
                | none ↦ delete_key_op p c del (user_key del.key)
              ])
              (delete_to del end (view c.batch))
      by_end none = delete_key_op-Refines c del h
      by_end (some end) = delete_range_op-Refines c del end h

  pub handle_delete_batch-Refines :
      (c : UpdateContext p) (dels : List RequestDeleteRange)
      → IsReady p laws c
      → Refines p laws c (handle_delete_batch p c dels) (each delete_change dels (view c.batch))
  unfolding handle_delete_batch each
  handle_delete_batch-Refines c [] h = (SameContext-refl p laws c h, refl, refl)
  handle_delete_batch-Refines c (del ∷ dels) h =
      Refines-bind p laws c _ _ _ _ (handle_delete-Refines c del h) λ c' r _ h'.
        Refines-bind p laws c' _ _ _ _ (handle_delete_batch-Refines c' dels h')
          λ c'' rs _ h''. (SameContext-refl p laws c'' h'', refl, refl)
