-- ===== src/Fsm/Query.antt =====
-- storage/table/fsm/query.go and iter.go: reads of a database, a snapshot or an indexed batch.
pub mod Reads
pub mod Page
pub mod Total
pub mod Count
use regatta.Prelude.{
  ℕ, ◌+◌, ◌-◌, ◌*◌, Bool, true, false, not, ◌&&◌, ◌||◌, Option, none, some, List, [], ◌∷◌, ◌++◌,
  length, leb, ◌==◌, if◌then◌else◌,
}
use regatta.Bytes.{Bytes, equal}
use regatta.Result.{Result, Error, ok, err, panic, ◌>>=◌, is_not_found}
use regatta.Key.{decode_bytes}
use regatta.Pebble.{Reader, seek_prefix_ge}
use regatta.Pebble.OrderedMap.{Entries}
use regatta.Fsm.Keys.{encode_user_key, wildcard, max_bound}
use regatta.Fsm.Messages.{KeyValue, RequestRange, ResponseRange, response_range_size}

-- maxRangeSize: 4 MiB less 1 KiB
abbrev pub max_range_size : ℕ
max_range_size = 4 * 1024 * 1024 - 1024

-- iterOptionsForBounds: the lower and the upper bound
unfoldable pub iter_options_for_bounds : Bytes → Bytes → Result (Bytes × Bytes)
iter_options_for_bounds low high = do
  lower ← encode_user_key [] low
  upper ← if equal high wildcard then ok max_bound else encode_user_key [] high
  ok (lower, upper)

-- The zero value of ResponseOp_Range.
abbrev pub empty_response : ResponseRange
empty_response = record { kvs = []; more = false; count = 0 }

-- fillEntriesFunc and sizeEntriesFunc: addKVPair, addKeyOnly, addCountOnly and sizeKVPair,
-- sizeKeyOnly, sizeCountOnly
unfoldable pub add_kv_pair : Bytes → Bytes → ResponseRange → ResponseRange
add_kv_pair key value r = record r {
  kvs = r.kvs ++ record { key = key; value = value } ∷ [];
  count = r.count + 1;
}

unfoldable pub add_key_only : Bytes → Bytes → ResponseRange → ResponseRange
add_key_only key _ r = record r {
  kvs = r.kvs ++ record { key = key; value = [] } ∷ [];
  count = r.count + 1;
}

unfoldable pub add_count_only : Bytes → Bytes → ResponseRange → ResponseRange
add_count_only _ _ r = record r { count = r.count + 1 }

unfoldable pub size_kv_pair : Bytes → Bytes → ℕ
size_kv_pair key value = length key + length value

unfoldable pub size_key_only : Bytes → Bytes → ℕ
size_key_only key _ = length key

unfoldable pub size_count_only : Bytes → Bytes → ℕ
size_count_only _ _ = 0

abbrev pub Fill : Type 0
Fill = Bytes → Bytes → ResponseRange → ResponseRange

abbrev pub Size : Type 0
Size = Bytes → Bytes → ℕ

-- iterFuncsFromReq
unfoldable pub iter_funcs_from_req : RequestRange → Fill × Size
iter_funcs_from_req req =
    if req.keys_only
    then (add_key_only, size_key_only)
    else if req.count_only
    then (add_count_only, size_count_only)
    else (add_kv_pair, size_kv_pair)

-- Iterator.Next: whether an entry follows.
abbrev pub has_next : Entries → Bool
has_next [] = false
has_next (e ∷ m) = true

-- The test that ends a page: the limit or the size is reached.
unfoldable pub page_is_full : ℕ → Size → ℕ → ResponseRange → Bytes → Bytes → Bool
page_is_full limit size i response key value =
    (i == limit && not (limit == 0))
    || leb max_range_size (response_range_size response + size key value)

-- The loop of iterate, from the entry at the iterator on; `i` counts the entries of the page.
unfoldable pub iterate_loop : Entries → ℕ → Fill → Size → ℕ → ResponseRange → Result ResponseRange
iterate_loop [] limit fill size i response = ok response
iterate_loop ((k, v) ∷ m) limit fill size i response = decode_bytes k >>= λ key.
    let rest = iterate_loop m limit fill size (i + 1) (fill key.key v response) in
    if page_is_full limit size i response key.key v
    then ok (record response { more = has_next m })
    else rest

-- iterate
unfoldable pub iterate : Entries → ℕ → Fill × Size → Result ResponseRange
unfolding iterate_loop
iterate entries limit (fill, size) = iterate_loop entries limit fill size 0 empty_response

-- rangeLookup
unfoldable pub range_lookup : Reader → RequestRange → Bytes → Result ResponseRange
range_lookup reader req range_end = do
  (lower, upper) ← iter_options_for_bounds req.key range_end
  iterate (reader.iter (some lower) (some upper)) req.limit (iter_funcs_from_req req)

-- The response of singleLookup, from the value at the iterator.
abbrev pub single_response : RequestRange → Option Bytes → ResponseRange
single_response req none = empty_response
single_response req (some value) =
    let kv : KeyValue = record {
      key = req.key;
      value = if not (req.keys_only || req.count_only) then value else [];
    } in
    record { kvs = if not req.count_only then kv ∷ [] else []; more = false; count = 1 }

-- singleLookup
unfoldable pub single_lookup : Reader → RequestRange → Result ResponseRange
single_lookup reader req = do
  key ← encode_user_key [] req.key
  ok (single_response req (seek_prefix_ge key (reader.iter none none)))

-- lookup
unfoldable pub lookup : Reader → RequestRange → Result ResponseRange
lookup reader req = elim req.range_end [
  | none ↦ single_lookup reader req
  | some range_end ↦ range_lookup reader req range_end
]
