-- ===== src/Fsm/Compare/Decides.antt =====
-- What the comparisons of a transaction mean, by the order of byte slices and the entries of a table.
use regatta.Prelude.{
  ◌≡◌, ◌≢◌, ◌↔◌, refl, Bool, true, false, Option, none, some, List, [], ◌∷◌, Ordering, Bool-cases,
  inl, inr, arith,
}
use regatta.Bytes.{Bytes, compare_bytes, equal}
use regatta.Bytes.Order.{equal_iff, equal_refl, lt_of_gt, gt_of_lt}
use regatta.Result.{ok}
use regatta.Pebble.{Reader, Shows}
use regatta.Pebble.OrderedMap.{Entries}
use regatta.Fsm.Messages.{Compare, CompareResult, CompareTarget}
use regatta.Fsm.Compare.{
  compare_value, txn_compare_single, all_compare, compare_entries, txn_compare,
}
use regatta.Fsm.Compare.Meaning.{txn_compare_lem}
use regatta.Fsm.Spec.{holds_to, holds, all_hold, value_of, between}

-- A value against a target; an unknown relation holds.
abbrev pub Related : CompareResult → Bytes → Bytes → Type 0
Related CompareResult.equal value target = value ≡ target
Related CompareResult.not_equal value target = value ≢ target
Related CompareResult.greater value target = compare_bytes target value ≡ Ordering.lt
Related CompareResult.less value target = compare_bytes value target ≡ Ordering.lt
Related CompareResult.unknown_result value target = Unit

-- A comparison without a target, or with an unknown one, lets every value pass.
abbrev pub PassesTo : CompareTarget → CompareResult → Option Bytes → Bytes → Type 0
PassesTo CompareTarget.value result (some target) value = Related result value target
PassesTo CompareTarget.value result none value = Unit
PassesTo CompareTarget.unknown_target result target value = Unit

abbrev pub Passes : Compare → Bytes → Type 0
Passes cmp value = PassesTo cmp.target cmp.result cmp.target_union value

abbrev pub AllPass : Compare → Entries → Type 0
AllPass cmp [] = Unit
AllPass cmp ((k, v) ∷ m) = Passes cmp v × AllPass cmp m

-- The key exists and its value passes; or the range has an entry, and the values of all of them pass.
abbrev pub HoldsTo : Compare → Option Bytes → Entries → Type 0
HoldsTo cmp none m = (v : Bytes) × (value_of cmp.key m ≡ some v) × Passes cmp v
HoldsTo cmp (some range_end) m =
    (between cmp.key range_end m ≢ []) × AllPass cmp (between cmp.key range_end m)

abbrev pub AllHold : List Compare → Entries → Type 0
AllHold [] m = Unit
AllHold (cmp ∷ cmps) m = HoldsTo cmp cmp.range_end m × AllHold cmps m

compare_value-Related :
    (result : CompareResult) (value target : Bytes)
    → (compare_value result value target ≡ true) ↔ Related result value target
compare_value-Related CompareResult.equal value target =
    (equal_iff value target, λ e. rw e (equal_refl target))
compare_value-Related CompareResult.not_equal value target = (
  λ h e. let same : equal value target ≡ true = rw e (equal_refl target) in ground (arith, h, same),
  λ h. elim (Bool-cases (equal value target)) [
    | inl same ↦ absurd (h (equal_iff value target same))
    | inr other ↦ rw other refl
  ],
)
compare_value-Related CompareResult.greater value target =
    (λ h. ground (arith, h, lt_of_gt value target), λ h. ground (arith, h, gt_of_lt target value h))
compare_value-Related CompareResult.less value target =
    (λ h. ground (arith, h), λ h. ground (arith, h))
compare_value-Related CompareResult.unknown_result value target = (λ h. tt, λ h. refl)

txn_compare_single-Passes :
    (cmp : Compare) (value : Bytes) → (txn_compare_single cmp value ≡ true) ↔ Passes cmp value
unfolding txn_compare_single
txn_compare_single-Passes cmp value = by_target cmp.target cmp.target_union
  where
    by_target :
        (t : CompareTarget) (target : Option Bytes)
        → (regatta.Fsm.Compare.compare_target t cmp.result target value ≡ true)
          ↔ PassesTo t cmp.result target value
    by_target CompareTarget.value (some target) = compare_value-Related cmp.result value target
    by_target CompareTarget.value none = (λ h. tt, λ h. refl)
    by_target CompareTarget.unknown_target target = (λ h. tt, λ h. refl)

all_compare-AllPass : (cmp : Compare) (m : Entries) → (all_compare cmp m ≡ true) ↔ AllPass cmp m
unfolding all_compare
all_compare-AllPass cmp [] = (λ h. tt, λ h. refl)
all_compare-AllPass cmp ((k, v) ∷ m) =
    let (passes, back) = txn_compare_single-Passes cmp v in
    let (rest, rest_back) = all_compare-AllPass cmp m in
    elim (Bool-cases (txn_compare_single cmp v)) [
      | inl yes_one ↦
          (λ h. (passes yes_one, rest (rw yes_one at h)), λ h. rw yes_one (rest_back h.1))
      | inr no_one ↦ (λ h. ground (arith, rw no_one at h), λ h. ground (arith, no_one, back h.0))
    ]

compare_entries-AllPass :
    (cmp : Compare) (m : Entries) → (compare_entries cmp m ≡ true) ↔ ((m ≢ []) × AllPass cmp m)
compare_entries-AllPass cmp [] = (λ h. ground (arith, h), λ h. absurd (h.0 refl))
compare_entries-AllPass cmp (e ∷ m) =
    let (there, back) = all_compare-AllPass cmp (e ∷ m) in
    (λ h. (λ q. ground (arith, q), there h), λ h. back h.1)

holds_to-HoldsTo :
    (cmp : Compare) (end : Option Bytes) (m : Entries)
    → (holds_to cmp end m ≡ true) ↔ HoldsTo cmp end m
holds_to-HoldsTo cmp none m = by_value (value_of cmp.key m)
  where
    by_value :
        (o : Option Bytes)
        → ((elim o [ none ↦ false | some v ↦ txn_compare_single cmp v ]) ≡ true)
          ↔ ((v : Bytes) × (o ≡ some v) × Passes cmp v)
    by_value none = (λ h. ground (arith, h), λ (v, e, p). ground (arith, e))
    by_value (some v) = (
      λ h. (v, refl, (txn_compare_single-Passes cmp v).0 h),
      λ (w, e, p). (txn_compare_single-Passes cmp v).1 (rw (some_inj v w e) p),
    )
      where
        some_inj : (v w : Bytes) → some v ≡ some w → v ≡ w
        some_inj v w e = ground (arith, e)
holds_to-HoldsTo cmp (some end) m = compare_entries-AllPass cmp (between cmp.key end m)

all_hold-AllHold : (cmps : List Compare) (m : Entries) → (all_hold cmps m ≡ true) ↔ AllHold cmps m
unfolding all_hold
all_hold-AllHold [] m = (λ h. tt, λ h. refl)
all_hold-AllHold (cmp ∷ cmps) m =
    let (there, back) = holds_to-HoldsTo cmp cmp.range_end m in
    let (rest, rest_back) = all_hold-AllHold cmps m in
    elim (Bool-cases (holds cmp m)) [
      | inl yes_one ↦
          (λ h. (there yes_one, rest (rw yes_one at h)), λ h. rw yes_one (rest_back h.1))
      | inr no_one ↦ (λ h. ground (arith, rw no_one at h), λ h. ground (arith, no_one, back h.0))
    ]

-- txnCompare over a reader returns no error, and returns true exactly when all of its comparisons hold
-- for the entries that the reader shows: a comparison of a key, if the key exists and its value passes;
-- one of a range, if the range has an entry and the values of all its entries pass. A value passes if it
-- is equal to the target, differs from it, comes after it or comes before it in the order of bytes, as
-- the comparison says; always, if the comparison has no target or one that is unknown.
pub txn_compare-AllHold :
    (r : Reader) (m : Entries) (cmps : List Compare)
    → Shows r m
    → (b : Bool) × (txn_compare r cmps ≡ ok b) × ((b ≡ true) ↔ AllHold cmps m)
txn_compare-AllHold r m cmps s =
    (all_hold cmps m, txn_compare_lem r m s cmps, all_hold-AllHold cmps m)
