-- ===== src/Fsm/Query/Count.antt =====
-- A read that asks for the count alone counts every entry of the range.
use regatta.Prelude.{
  ℕ, zero, suc, ◌/◌, ◌≤◌, ◌≡◌, refl, ◌∙◌, true, false, [], ◌∷◌, length, take, drop, arith,
}
use Prim.Native.Nat.{bit_or}
use regatta.Bytes.{Bytes}
use regatta.Result.Ensures.{Ensures, Ensures-map}
use regatta.Pebble.{Reader, Shows}
use regatta.Pebble.OrderedMap.{Entries, range}
use regatta.Fsm.Keys.Order.{user_key}
use regatta.Fsm.Messages.{RequestRange, ResponseRange, len64_loop, sov, response_range_size}
use regatta.Fsm.Query.{iter_funcs_from_req, size_count_only, range_lookup}
use regatta.Fsm.Query.Reads.{bound}
use regatta.Fsm.Query.Page.{IsPage, IsOverfull, page_kvs}
use regatta.Fsm.Query.Total.{range_lookup-IsPage}

len64_loop-le : (f x : ℕ) → len64_loop f x ≤ f
unfolding len64_loop
len64_loop-le zero x = omega arith
len64_loop-le (suc f) x = ground (arith, len64_loop-le f (x / 2))

sov-le : (x : ℕ) → sov x ≤ 10
unfolding sov
sov-le x = omega (arith, len64_loop-le 64 (bit_or x 1))

module _ (req : RequestRange) (k : req.keys_only ≡ false) (c : req.count_only ≡ true) where
  page_kvs-count_only : (m : Entries) → page_kvs req m ≡ []
  unfolding page_kvs
  page_kvs-count_only [] = refl
  page_kvs-count_only ((j, v) ∷ m) = ground (arith, page_kvs-count_only m)

  small : (r : ResponseRange) → r.kvs ≡ [] → response_range_size (record r { more = false }) ≤ 11
  unfolding response_range_size
  small r e = ground (arith, sov-le r.count)

  not-IsOverfull : (r : ResponseRange) (m : Entries) → r.kvs ≡ [] → ¬ IsOverfull req r m
  unfolding iter_funcs_from_req size_count_only
  not-IsOverfull r [] e h = h
  not-IsOverfull r ((j, v) ∷ m) e h = ground (arith, small r e)

  count_all :
      (m : Entries) (r : ResponseRange)
      → req.limit ≡ 0
      → IsPage req m r
      → (r.count ≡ length m) × (r.kvs ≡ []) × (r.more ≡ false)
  count_all m r l h =
      let none_left : r.kvs ≡ [] = h.kvs_lem ∙ page_kvs-count_only (take h.taken m) in
      let all : h.taken ≡ length m =
        ground (arith, h.stopped, not-IsOverfull r (drop h.taken m) none_left) in
      (h.count_lem ∙ all, none_left, ground (arith, h.more_lem, all))

-- rangeLookup with count_only and no limit counts all entries of the range: the size of the response
-- never ends the page.
pub range_lookup-count_only :
    (r : Reader) (m : Entries) (req : RequestRange) (end : Bytes)
    → Shows r m
    → req.keys_only ≡ false
    → req.count_only ≡ true
    → req.limit ≡ 0
    → Ensures
        (λ resp.
          (resp.count ≡ length (range (user_key req.key) (bound end) m))
          × (resp.kvs ≡ [])
          × (resp.more ≡ false))
        (range_lookup r req end)
range_lookup-count_only r m req end s k c l =
    Ensures-map (IsPage req (range (user_key req.key) (bound end) m)) _ _
      (λ resp h. count_all req k c _ resp l h) (range_lookup-IsPage r m req end s)
