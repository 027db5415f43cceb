-- ===== src/Fsm/Query/Reads.antt =====
-- Reads through a reader are reads of the entries that it shows.
use regatta.Prelude.{◌≡◌, if◌then◌else◌, Bool-cases, inl, inr}
use regatta.Bytes.{Bytes, equal}
use regatta.Result.{ok}
use regatta.Pebble.{Reader, Shows}
use regatta.Pebble.Seek.{seek_prefix_ge-eq-lookup}
use regatta.Pebble.OrderedMap
use regatta.Pebble.OrderedMap.{Entries, range}
use regatta.Fsm.Keys.{wildcard, max_bound}
use regatta.Fsm.Keys.Order.{user_key, encode_user_key_lem}
use regatta.Fsm.Messages.{RequestRange}
use regatta.Fsm.Query.{
  iter_options_for_bounds, iterate, iter_funcs_from_req, range_lookup, single_lookup,
  single_response,
}

-- The end of a range: past every user key for the wildcard.
abbrev pub bound : Bytes → Bytes
bound range_end = if equal range_end wildcard then max_bound else user_key range_end

pub iter_options_for_bounds_lem :
    (low high : Bytes) → iter_options_for_bounds low high ≡ ok (user_key low, bound high)
unfolding iter_options_for_bounds
iter_options_for_bounds_lem low high = elim (Bool-cases (equal high wildcard)) [
  | inl e ↦ rw (e, encode_user_key_lem low)
  | inr e ↦ rw (e, encode_user_key_lem low, encode_user_key_lem high)
]

module _ (r : Reader) (m : Entries) (s : Shows r m) (req : RequestRange) where
  -- singleLookup over a reader reports the value that the key has in the entries that the reader
  -- shows, and a missing key by an empty response; it never fails.
  pub single_lookup_lem :
      single_lookup r req ≡ ok (single_response req (OrderedMap.lookup (user_key req.key) m))
  unfolding single_lookup
  single_lookup_lem = rw (
    encode_user_key_lem req.key,
    s.iter_all,
    seek_prefix_ge-eq-lookup (user_key req.key) m s.sorted,
  )

  pub range_lookup_lem :
      (range_end : Bytes)
      → range_lookup r req range_end
        ≡ iterate (range (user_key req.key) (bound range_end) m) req.limit (iter_funcs_from_req req)
  unfolding range_lookup
  range_lookup_lem range_end = rw (iter_options_for_bounds_lem req.key range_end, s.iter_range)
