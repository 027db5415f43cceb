-- ===== src/Fsm/Lookup/Readonly.antt =====
-- A transaction of reads that Lookup runs, against the transaction as a command.
use regatta.Prelude.{◌≡◌, refl, Bool, List, [], ◌∷◌, map, if◌then◌else◌, Bool-cases, inl, inr}
use regatta.Result.{Result, ok, err, panic, ◌>>=◌}
use regatta.Pebble.{Reader, Shows}
use regatta.Pebble.OrderedMap.{Entries}
use regatta.Fsm.Messages.{
  RequestOp, RequestRange, request_range, request_put, request_delete_range, ResponseRange,
  response_range, ResponseOp, Txn,
}
use regatta.Fsm.Compare.Meaning.{txn_compare_lem}
use regatta.Fsm.Spec.{Change, read, all_hold, ops_change, txn_change}
use regatta.Fsm.Refinement.Commands.{lookup_lem}
use regatta.Fsm.Lookup.{get_request_range, lookup_ops, lookup_txn}

-- Every operation is a range.
abbrev pub IsReadonly : List RequestOp → Type 0
IsReadonly [] = Unit
IsReadonly (request_range o ∷ ops) = IsReadonly ops
IsReadonly (_ ∷ ops) = ⊥

-- A read and the changes that follow it.
abbrev then_read : Result ResponseRange → Change (List ResponseOp) → Change (List ResponseOp)
then_read x rest = x >>= λ rr. rest >>= λ (m', rs). ok (m', response_range rr ∷ rs)

abbrev pub unchanged {ℓ} : {A : Type ℓ} → Entries → Result A → Result (Entries × A)
unchanged m r = r >>= λ a. ok (m, a)

-- A read and the reads that follow it leave the entries as they are.
after_read :
    (m : Entries) (x : Result ResponseRange) (rest : Result (List ResponseOp))
    → then_read x (unchanged m rest)
      ≡ unchanged m (x >>= λ rr. rest >>= λ rs. ok (response_range rr ∷ rs))
after_read m (ok rr) (ok rs) = refl
after_read m (ok rr) (err e) = refl
after_read m (ok rr) panic = refl
after_read m (err e) rest = refl
after_read m panic rest = refl

ops_change-range :
    (o : RequestRange) (ops : List RequestOp) (m : Entries) (x : Result ResponseRange)
    → read o m ≡ x
    → ops_change (request_range o ∷ ops) m ≡ then_read x (ops_change ops m)
unfolding ops_change
ops_change-range o ops m (ok rr) e = rw (e, ops_change) refl
ops_change-range o ops m (err x) e = rw (e, ops_change) refl
ops_change-range o ops m panic e = rw (e, ops_change) refl

abbrev with_outcome : Bool → Change (List ResponseOp) → Change (Bool × List ResponseOp)
with_outcome holds c = c >>= λ (m, rs). ok (m, (holds, rs))

reported :
    (m : Entries) (holds : Bool) (rest : Result (List ResponseOp))
    → with_outcome holds (unchanged m rest)
      ≡ unchanged {A = Bool × List ResponseOp} m (rest >>= λ rs. ok (holds, rs))
reported m holds (ok rs) = refl
reported m holds (err e) = refl
reported m holds panic = refl

module _ (r : Reader) (m : Entries) (s : Shows r m) where
  lookup_ops_lem :
      (ops : List RequestOp)
      → IsReadonly ops
      → ops_change ops m ≡ unchanged m (lookup_ops r (map get_request_range ops))
  unfolding lookup_ops
  lookup_ops_lem [] h = unfold ops_change in refl
  lookup_ops_lem (request_range o ∷ ops) h =
      rw (lookup_lem r m s o, ops_change-range o ops m (read o m) refl, lookup_ops_lem ops h)
        (after_read m (read o m) (lookup_ops r (map get_request_range ops)))
  lookup_ops_lem (request_put o ∷ ops) h = absurd h
  lookup_ops_lem (request_delete_range o ∷ ops) h = absurd h
  lookup_ops_lem (RequestOp.unset ∷ ops) h = absurd h

  -- Lookup of a transaction whose operations are all reads gives what the transaction would give as a
  -- command on the entries that the reader shows, which it would leave as they are.
  pub lookup_txn-txn_change :
      (txn : Txn)
      → IsReadonly txn.success
      → IsReadonly txn.failure
      → txn_change txn m ≡ unchanged m (lookup_txn r txn)
  unfolding lookup_txn txn_change
  lookup_txn-txn_change txn hs hf =
      rw
        (
          txn_compare_lem r m s txn.compare,
          txn_change,
          lookup_ops_lem (if all_hold txn.compare m then txn.success else txn.failure) chosen,
        )
        (reported m (all_hold txn.compare m) (lookup_ops r _))
    where
      chosen : IsReadonly (if all_hold txn.compare m then txn.success else txn.failure)
      chosen = elim (Bool-cases (all_hold txn.compare m)) [ inl e ↦ rw e hs | inr e ↦ rw e hf ]
