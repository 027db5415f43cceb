-- ===== src/Fsm/Compare/Meaning.antt =====
-- txnCompare decides the conjunction of its comparisons.
use regatta.Prelude.{
  ◌≡◌, refl, true, Option, none, some, List, [], ◌∷◌, arith, if◌then◌else◌, inl, inr, Option-cases,
  Bool-cases,
}
use regatta.Bytes.{Bytes}
use regatta.Result.{ok}
use regatta.Pebble.{Reader, Shows}
use regatta.Pebble.OrderedMap.{Entries}
use regatta.Fsm.Messages.{Compare}
use regatta.Fsm.Keys.Order.{user_key, encode_user_key_lem}
use regatta.Fsm.Query.Reads.{iter_options_for_bounds_lem}
use regatta.Fsm.Compare.{compare_range, compare_key, compare_one, compare_loop, txn_compare}
use regatta.Fsm.Spec.{holds_to, holds, all_hold, value_of}

-- What a comparison leaves in the buffer: nothing if it holds.
abbrev left_over : Compare → Option Bytes → Entries → Bytes
left_over cmp none m = if holds_to cmp none m then [] else user_key cmp.key
left_over cmp (some range_end) m = []

left_over_empty :
    (cmp : Compare) (end : Option Bytes) (m : Entries)
    → holds_to cmp end m ≡ true
    → left_over cmp end m ≡ []
left_over_empty cmp none m h = rw h
left_over_empty cmp (some end) m h = refl

module _ (r : Reader) (m : Entries) (s : Shows r m) where
  compare_one_lem :
      (cmp : Compare) (end : Option Bytes)
      → compare_one r cmp end [] ≡ ok (left_over cmp end m, holds_to cmp end m)
  unfolding compare_one compare_key compare_range
  compare_one_lem cmp none =
      rw (encode_user_key_lem cmp.key, s.get_lem)
        (elim (Option-cases (value_of cmp.key m)) [
          | inl e ↦ ground arith
          | inr (v, e) ↦ ground arith
        ])
  compare_one_lem cmp (some end) = rw (iter_options_for_bounds_lem cmp.key end, s.iter_range)

  compare_loop_lem : (cmps : List Compare) → compare_loop r cmps [] ≡ ok (all_hold cmps m)
  unfolding compare_loop all_hold
  compare_loop_lem [] = refl
  compare_loop_lem (cmp ∷ cmps) =
      rw (compare_one_lem cmp cmp.range_end) (elim (Bool-cases (holds cmp m)) [
        | inl e ↦ rw (e, left_over_empty cmp cmp.range_end m e) (compare_loop_lem cmps)
        | inr e ↦ rw e
      ])

  -- txnCompare is the conjunction of its comparisons over the entries that the reader shows: a
  -- comparison of a key holds if the key exists and its value passes, one of a range if the range
  -- has an entry and all its values pass. It returns no error.
  pub txn_compare_lem : (cmps : List Compare) → txn_compare r cmps ≡ ok (all_hold cmps m)
  unfolding txn_compare
  txn_compare_lem cmps = compare_loop_lem cmps
