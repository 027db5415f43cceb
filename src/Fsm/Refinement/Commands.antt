-- ===== src/Fsm/Refinement/Commands.antt =====
-- The commands refine their specification.
use regatta.Prelude.{
  ℕ, ◌+◌, ◌≡◌, ◌≢◌, refl, ap, true, Option, none, some, List, [], ◌∷◌, ◌++◌, map, arith,
  if◌then◌else◌, Option-cases, inl, inr, ◌∙◌, sym,
}
use regatta.Bytes.{Bytes}
use regatta.Result.{Result, Error, ok, err, panic, split, is_ok, is_err, is_panic, ◌>>=◌}
use regatta.Pebble.{Pebble, PebbleLaws, Reader, Shows}
use regatta.Pebble.OrderedMap.{Entries}
use regatta.Fsm.Messages.{
  RequestRange, ResponseRange, RequestOp, request_range, request_put, request_delete_range,
  ResponseOp, response_put, response_delete_range, Txn, CommandType, CommandFields, Command,
  Commands, command,
}
use regatta.Key.{decode_bytes}
use regatta.Fsm.Query
use regatta.Fsm.Query.{single_lookup, range_lookup, iterate, iterate_loop}
use regatta.Fsm.Query.Reads.{single_lookup_lem, range_lookup_lem}
use regatta.Fsm.Compare.Meaning.{txn_compare_lem}
use regatta.Fsm.Context.{UpdateContext}
use regatta.Fsm.Spec.{
  Change, read, read_to, op_change, ops_change, txn_change, succeed, outcome, run, run_all,
  all_hold,
}
use regatta.Fsm.Refinement.{
  IsReady, SameContext-refl, Refines, Refines-bind, Refines-map, Refines-after, ensure_indexed_lem,
}
use regatta.Fsm.Txn.{range_or_empty, handle_txn_op, handle_txn_ops, handle_txn}
use regatta.Fsm.Command.{success, dispatch, handle, handle_sequence, result_success, result_failure}
use regatta.Fsm.Refinement.Puts.{handle_put-Refines, handle_put_batch-Refines}
use regatta.Fsm.Refinement.Deletes.{handle_delete-Refines, handle_delete_batch-Refines}

decode_found : (k : Bytes) → decode_bytes k ≢ err Error.not_found
unfolding decode_bytes
decode_found (a ∷ b ∷ c ∷ d ∷ k) e = ground arith
decode_found k e = ground arith

iterate_loop_found :
    (m : Entries) (limit : ℕ) (fill : Query.Fill) (size : Query.Size) (i : ℕ) (r : ResponseRange)
    → iterate_loop m limit fill size i r ≢ err Error.not_found
unfolding iterate_loop
iterate_loop_found [] limit fill size i r e = cc
iterate_loop_found ((k, v) ∷ m) limit fill size i r e = elim (split (decode_bytes k)) [
  | is_ok key q ↦ ground (arith, q, iterate_loop_found m limit fill size (i + 1) (fill key.key v r))
  | is_err x q ↦ decode_found k (q ∙ ap err (let z : x ≡ Error.not_found = cc (rw q at e) in z))
  | is_panic q ↦ cc (rw q at e)
]

read_found :
    (o : RequestRange) (end : Option Bytes) (m : Entries) → read_to o end m ≢ err Error.not_found
unfolding iterate
read_found o none m e = cc
read_found o (some end) m e = iterate_loop_found _ _ _ _ _ _ e

range_or_empty_lem : (r : Result ResponseRange) → r ≢ err Error.not_found → range_or_empty r ≡ r
range_or_empty_lem (ok r) h = refl
range_or_empty_lem (err Error.not_found) h = absurd (h refl)
range_or_empty_lem (err _) h = refl
range_or_empty_lem panic h = refl

-- A lookup through a reader is a read of the entries that it shows.
pub lookup_lem :
    (r : Reader) (m : Entries) (s : Shows r m) (o : RequestRange) → Query.lookup r o ≡ read o m
unfolding Query.lookup
lookup_lem r m s o = by_end o.range_end
  where
    by_end :
        (end : Option Bytes)
        → elim end [ none ↦ single_lookup r o | some e ↦ range_lookup r o e ] ≡ read_to o end m
    by_end none = single_lookup_lem r m s o
    by_end (some e) = range_lookup_lem r m s o e

succeed_lem :
    {R : Type 0} (index : ℕ) (s : Result (Entries × R)) (w : R → List ResponseOp)
    → succeed index (s >>= λ (m, r). ok (m, w r))
      ≡ (s >>= λ (m, r). ok (m, (result_success, record { responses = w r; revision = index })))
succeed_lem index (ok s) w = refl
succeed_lem index (err e) w = refl
succeed_lem index panic w = refl

module _ (p : Pebble) (laws : PebbleLaws p) where
  open laws use {view, base}

  handle_txn_op-Refines :
      (c : UpdateContext p) (op : RequestOp)
      → p.indexed c.batch ≡ true
      → IsReady p laws c
      → Refines p laws c (handle_txn_op p c op) (op_change op (view c.batch))
  unfolding handle_txn_op
  handle_txn_op-Refines c (request_range o) i h =
      rw
        (
          lookup_lem (p.batch_reader c.batch) (view c.batch) (laws.batch_shows c.batch i) o,
          range_or_empty_lem (read o (view c.batch)) (read_found o o.range_end (view c.batch)),
        )
        (elim (split (read o (view c.batch))) [
          | is_ok r q ↦ rw q (SameContext-refl p laws c h, refl, refl)
          | is_err x q ↦ rw q refl
          | is_panic q ↦ rw q tt
        ])
  handle_txn_op-Refines c (request_put o) i h =
      Refines-bind p laws c _ _ _ _ (handle_put-Refines p laws c o h)
        λ c' r _ h'. (SameContext-refl p laws c' h', refl, refl)
  handle_txn_op-Refines c (request_delete_range o) i h =
      Refines-bind p laws c _ _ _ _ (handle_delete-Refines p laws c o h)
        λ c' r _ h'. (SameContext-refl p laws c' h', refl, refl)
  handle_txn_op-Refines c RequestOp.unset i h = (SameContext-refl p laws c h, refl, refl)

  handle_txn_ops-Refines :
      (c : UpdateContext p) (ops : List RequestOp)
      → p.indexed c.batch ≡ true
      → IsReady p laws c
      → Refines p laws c (handle_txn_ops p c ops) (ops_change ops (view c.batch))
  unfolding handle_txn_ops ops_change
  handle_txn_ops-Refines c [] i h = (SameContext-refl p laws c h, refl, refl)
  handle_txn_ops-Refines c (op ∷ ops) i h =
      Refines-bind p laws c _ _ _ _ (handle_txn_op-Refines c op i h) λ c' r same h'.
        Refines-bind p laws c' _ _ _ _ (handle_txn_ops-Refines c' ops (same.stays_indexed i) h')
          λ c'' rs _ h''. (SameContext-refl p laws c'' h'', refl, refl)

  pub handle_txn-Refines :
      (c : UpdateContext p) (txn : Txn)
      → IsReady p laws c
      → Refines p laws c (handle_txn p c txn) (txn_change txn (view c.batch))
  unfolding handle_txn txn_change
  handle_txn-Refines c txn h =
      let (c', done, indexed, shown, same) = ensure_indexed_lem p laws c h in
      let compared =
        txn_compare_lem (p.batch_reader c'.batch) (view c'.batch)
          (laws.batch_shows c'.batch indexed) txn.compare in
      rw (done, compared, ← shown)
        (Refines-after p laws c c' _ _ same (
          Refines-map p laws c' _ _ (λ _ rs. (all_hold txn.compare (view c'.batch), rs))
            (λ rs. (all_hold txn.compare (view c'.batch), rs)) (λ _ rs _. refl)
            (handle_txn_ops-Refines c'
              (if all_hold txn.compare (view c'.batch) then txn.success else txn.failure) indexed
              (same.ready ∙ sym same.same_db))))

  -- The end of a handler that succeeds, with the responses made of those of its last part.
  success-Refines :
      {R : Type 0} (c : UpdateContext p) (h : Result (UpdateContext p × R))
      (s : Result (Entries × R)) (w : R → List ResponseOp)
      → Refines p laws c h s
      → Refines p laws c
          (h >>= λ (c', r). ok (success p c' (w r)))
          (succeed c.index (s >>= λ (m, r). ok (m, w r)))
  success-Refines c h s w k = rw (succeed_lem c.index s w) (
      Refines-map p laws c h s
        (λ c' r. (result_success, record { responses = w r; revision = c'.index }))
        (λ r. (result_success, record { responses = w r; revision = c.index }))
        (λ c' r same. ground (arith, same.same_index)) k)

  -- The call of a command's handler, whose loop over `sequence` refines its own specification.
  dispatch-Refines :
      (t : CommandType) (c : UpdateContext p) (f : CommandFields)
      (loop : Result (UpdateContext p × List ResponseOp)) (specified : Change (List ResponseOp))
      → IsReady p laws c
      → Refines p laws c loop specified
      → Refines p laws c (dispatch p t c f loop) (outcome t c.index f (view c.batch) specified)
  unfolding dispatch outcome
  dispatch-Refines CommandType.put c f loop specified h k = elim (Option-cases f.kv) [
    | inl e ↦ rw e tt
    | inr (kv, e) ↦ rw e (success-Refines c _ _ _ (handle_put-Refines p laws c _ h))
  ]
  dispatch-Refines CommandType.delete c f loop specified h k = elim (Option-cases f.kv) [
    | inl e ↦ rw e tt
    | inr (kv, e) ↦ rw e (success-Refines c _ _ _ (handle_delete-Refines p laws c _ h))
  ]
  dispatch-Refines CommandType.put_batch c f loop specified h k =
      success-Refines c _ _ (map response_put) (handle_put_batch-Refines p laws c _ h)
  dispatch-Refines CommandType.delete_batch c f loop specified h k =
      success-Refines c _ _ (map response_delete_range) (handle_delete_batch-Refines p laws c _ h)
  dispatch-Refines CommandType.txn c f loop specified h k = elim (Option-cases f.txn) [
    | inl e ↦ rw e tt
    | inr (txn, e) ↦ rw e (
        Refines-map p laws c _ _
          (λ c' x. (
            if x.0 then result_success else result_failure,
            record { responses = x.1; revision = c'.index },
          ))
          (λ x. (
            if x.0 then result_success else result_failure,
            record { responses = x.1; revision = c.index },
          ))
          (λ c' x same. ground (arith, same.same_index)) (handle_txn-Refines c txn h))
  ]
  dispatch-Refines CommandType.sequence c f loop specified h k =
      Refines-map p laws c loop specified
        (λ c' rs. (result_success, record { responses = rs; revision = c'.index }))
        (λ rs. (result_success, record { responses = rs; revision = c.index }))
        (λ c' rs same. ground (arith, same.same_index)) k
  dispatch-Refines CommandType.dummy c f loop specified h k =
      (SameContext-refl p laws c h, refl, refl)
  dispatch-Refines CommandType.unknown_type c f loop specified h k = tt

  mutual
    unfolding handle run

    handle_lem :
        (cmd : Command) (c : UpdateContext p)
        → IsReady p laws c
        → Refines p laws c (handle p cmd c) (run c.index cmd (view c.batch))
    handle_lem (command f seq) c h = dispatch-Refines f.type c f _ _ h (handle_sequence_lem seq c h)

    handle_sequence_lem :
        (cmds : Commands) (c : UpdateContext p)
        → IsReady p laws c
        → Refines p laws c (handle_sequence p cmds c) (run_all c.index cmds (view c.batch))
    handle_sequence_lem Commands.end c h = (SameContext-refl p laws c h, refl, refl)
    handle_sequence_lem (Commands.next cmd cmds) c h =
        Refines-bind p laws c _ _ _ _ (handle_lem cmd c h) λ c' res same h'.
          rw (← same.same_index) (
            Refines-map p laws c' _ _ (λ _ rs. (res.1).responses ++ rs)
              (λ rs. (res.1).responses ++ rs) (λ _ rs _. refl) (handle_sequence_lem cmds c' h'))

  -- On a database with PebbleLaws, and from a batch that was made for the database of its context,
  -- every command does to the batch of an update context what its specification does to the entries
  -- that the batch shows, indexed or not: the new entries, the result and the responses agree, and
  -- where the specification panics or fails the handler does the same. The context keeps its
  -- database, its index and its leader index.
  pub handle-Refines :
      (cmd : Command) (c : UpdateContext p)
      → IsReady p laws c
      → Refines p laws c (handle p cmd c) (run c.index cmd (view c.batch))
  handle-Refines cmd c h = handle_lem cmd c h
