-- ===== src/Fsm/Query/Total.antt =====
-- A range read never fails: every stored key between the bounds of a range of user keys decodes.
use regatta.Prelude.{ℕ, ◌≡◌, refl, true, [], ◌∷◌, arith, Bool-cases, inl, inr, replicate}
use regatta.Bytes.{Bytes, compare_bytes, equal}
use regatta.Result.{ok}
use regatta.Result.Ensures.{Ensures}
use regatta.Key.{Key, v1, v1_decode_raw, decode_bytes}
use regatta.Pebble.{Reader, Shows}
use regatta.Pebble.OrderedMap.{Entries, in_range, range, keep}
use regatta.Fsm.Keys.{wildcard}
use regatta.Fsm.Keys.Order.{user_key, max_bound_lem}
use regatta.Fsm.Messages.{RequestRange}
use regatta.Fsm.Query.{range_lookup}
use regatta.Fsm.Query.Reads.{bound, range_lookup_lem}
use regatta.Fsm.Query.Page.{IsDecodable, IsPage, iterate-IsPage}

-- The end of a range is a key of the fifth byte 1 or 2.
bound_lem : (end : Bytes) → (t : ℕ) × (rest : Bytes) × (bound end ≡ 1 ∷ 0 ∷ 0 ∷ 0 ∷ t ∷ rest)
bound_lem end = elim (Bool-cases (equal end wildcard)) [
  | inl e ↦ (2, replicate 1019 0, rw e max_bound_lem)
  | inr e ↦ (1, end, rw e refl)
]

decodes :
    (k lo : Bytes) (t : ℕ) (rest : Bytes)
    → in_range (user_key lo) (1 ∷ 0 ∷ 0 ∷ 0 ∷ t ∷ rest) k ≡ true
    → (key : Key) × (decode_bytes k ≡ ok key)
unfolding decode_bytes compare_bytes
decodes [] lo t rest h = absurd (ground arith)
decodes (a ∷ []) lo t rest h = absurd (ground arith)
decodes (a ∷ b ∷ []) lo t rest h = absurd (ground arith)
decodes (a ∷ b ∷ c ∷ []) lo t rest h = absurd (ground arith)
decodes (a ∷ b ∷ c ∷ d ∷ k) lo t rest h =
    let e : a ≡ 1 = ground arith in
    (
      record { version = v1; key_type = (v1_decode_raw k).key_type; key = (v1_decode_raw k).key },
      ground (arith, e),
    )

pub range-IsDecodable :
    (lo end : Bytes) (m : Entries) → IsDecodable (range (user_key lo) (bound end) m)
unfolding range keep
range-IsDecodable lo end [] = tt
range-IsDecodable lo end ((k, v) ∷ m) = elim (Bool-cases (in_range (user_key lo) (bound end) k)) [
  | inl e ↦
      let (t, rest, b) = bound_lem end in
      rw e (decodes k lo t rest (rw b at e), range-IsDecodable lo end m)
  | inr e ↦ rw e (range-IsDecodable lo end m)
]

-- rangeLookup over a reader returns a page of the entries that the reader shows with keys in
-- [key, range_end), or from `key` on for the wildcard; it never fails.
pub range_lookup-IsPage :
    (r : Reader) (m : Entries) (req : RequestRange) (end : Bytes)
    → Shows r m
    → Ensures (IsPage req (range (user_key req.key) (bound end) m)) (range_lookup r req end)
range_lookup-IsPage r m req end s =
    rw (range_lookup_lem r m s req end) (iterate-IsPage req _ (range-IsDecodable req.key end m))
