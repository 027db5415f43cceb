-- ===== src/Fsm/Query/Page.antt =====
-- What a page of a range read holds.
use regatta.Prelude.{
  ℕ, suc, ◌+◌, ◌≤◌, ◌<◌, ◌≡◌, refl, ap, sym, ◌∙◌, ◌⊎◌, inl, inr, true, false, List, [], ◌∷◌, ◌++◌,
  length, take, drop, ltb, arith, if◌then◌else◌, Bool-cases,
}
use mathlib.Core.List.{append-nil, append_assoc}
use regatta.Bytes.{Bytes}
use regatta.Result.{Result, ok}
use regatta.Result.Ensures.{Ensures, Ensures-map}
use regatta.Key.{Key, decode_bytes}
use regatta.Pebble.OrderedMap.{Entries}
use regatta.Fsm.Messages.{KeyValue, RequestRange, ResponseRange, response_range_size}
use regatta.Fsm.Query.{
  Size, max_range_size, empty_response, add_kv_pair, add_key_only, add_count_only,
  iter_funcs_from_req, has_next, page_is_full, iterate_loop, iterate,
}

-- The key that a stored key decodes to.
abbrev pub key_in : Result Key → Bytes
key_in (ok k) = k.key
key_in _ = []

abbrev pub key_of : Bytes → Bytes
key_of k = key_in (decode_bytes k)

-- What an entry adds to the response: nothing but the count if that alone is asked for.
abbrev pub kvs_of : RequestRange → Bytes → Bytes → List KeyValue
kvs_of req key value =
    if req.keys_only
    then record { key = key; value = [] } ∷ []
    else if req.count_only
    then []
    else record { key = key; value = value } ∷ []

unfoldable pub page_kvs : RequestRange → Entries → List KeyValue
page_kvs req [] = []
page_kvs req ((k, v) ∷ m) = kvs_of req (key_of k) v ++ page_kvs req m

abbrev pub size_of : RequestRange → Bytes → Bytes → ℕ
size_of req key value = (iter_funcs_from_req req).1 key value

-- The next entry does not fit into the response.
abbrev pub IsOverfull : RequestRange → ResponseRange → Entries → Type 0
IsOverfull req r [] = ⊥
IsOverfull req r ((k, v) ∷ m) =
    max_range_size ≤ response_range_size (record r { more = false }) + size_of req (key_of k) v

-- The first entries of `m`, in order: as many as the limit and the size allow. `more` says whether
-- an entry follows behind the first one that is left out.
pub record IsPage (req : RequestRange) (m : Entries) (r : ResponseRange) : Type 0 where
  pub taken : ℕ
  pub taken_le : taken ≤ length m
  pub kvs_lem : r.kvs ≡ page_kvs req (take taken m)
  pub count_lem : r.count ≡ taken
  pub within_limit : (req.limit ≡ 0) ⊎ (taken ≤ req.limit)
  pub more_lem : r.more ≡ ltb (taken + 1) (length m)
  pub stopped :
      (taken ≡ length m) ⊎ ((0 < req.limit) × (taken ≡ req.limit)) ⊎ IsOverfull req r (drop taken m)

abbrev pub IsDecodable : Entries → Type 0
IsDecodable [] = Unit
IsDecodable ((k, v) ∷ m) = ((key : Key) × (decode_bytes k ≡ ok key)) × IsDecodable m

fill_lem :
    (req : RequestRange) (key v : Bytes) (r : ResponseRange)
    → (iter_funcs_from_req req).0 key v r
      ≡ record r { kvs = r.kvs ++ kvs_of req key v; count = r.count + 1 }
unfolding iter_funcs_from_req add_kv_pair add_key_only add_count_only
fill_lem req key v r = ground (arith, append-nil r.kvs)

-- The part of IsPage that the loop establishes from its `i`-th entry on.
record Paged (req : RequestRange) (i : ℕ) (before : List KeyValue) (m : Entries) (r : ResponseRange)
    : Type 0 where
  taken : ℕ
  taken_le : taken ≤ length m
  kvs_lem : r.kvs ≡ before ++ page_kvs req (take taken m)
  count_lem : r.count ≡ i + taken
  within_limit : (req.limit ≡ 0) ⊎ (i + taken ≤ req.limit)
  more_lem : r.more ≡ ltb (taken + 1) (length m)
  stopped :
      (taken ≡ length m)
      ⊎ ((0 < req.limit) × (i + taken ≡ req.limit))
      ⊎ IsOverfull req r (drop taken m)

Paged-step :
    (req : RequestRange) (i : ℕ) (before : List KeyValue) (k v : Bytes) (m : Entries)
    (r : ResponseRange)
    → Paged req (i + 1) (before ++ kvs_of req (key_of k) v) m r
    → Paged req i before ((k, v) ∷ m) r
unfolding page_kvs
Paged-step req i before k v m r h = record {
  taken = suc h.taken;
  taken_le = omega (arith, h.taken_le);
  kvs_lem =
      h.kvs_lem ∙ append_assoc before (kvs_of req (key_of k) v) (page_kvs req (take h.taken m));
  count_lem = omega (arith, h.count_lem);
  within_limit = ground (arith, h.within_limit);
  more_lem = h.more_lem ∙ ground arith;
  stopped = ground (arith, h.stopped);
}

full_lem :
    (limit : ℕ) (size : Size) (i : ℕ) (r : ResponseRange) (key v : Bytes)
    → page_is_full limit size i r key v ≡ true
    → ((0 < limit) × (i ≡ limit)) ⊎ (max_range_size ≤ response_range_size r + size key v)
unfolding page_is_full
full_lem limit size i r key v h = ground arith

not_full_lem :
    (limit : ℕ) (size : Size) (i : ℕ) (r : ResponseRange) (key v : Bytes)
    → page_is_full limit size i r key v ≡ false
    → (limit ≡ 0) ⊎ (i ≤ limit)
    → (limit ≡ 0) ⊎ (i + 1 ≤ limit)
unfolding page_is_full
not_full_lem limit size i r key v h l = ground arith

has_next_lem : (m : Entries) → has_next m ≡ ltb 1 (suc (length m))
has_next_lem [] = refl
has_next_lem (e ∷ m) = ground arith

-- A page that ends before the entry at the iterator.
Paged-stop :
    (req : RequestRange) (i : ℕ) (r : ResponseRange) (k v : Bytes) (m : Entries)
    → r.count ≡ i
    → r.more ≡ false
    → (req.limit ≡ 0) ⊎ (i ≤ req.limit)
    → page_is_full req.limit (iter_funcs_from_req req).1 i r (key_of k) v ≡ true
    → Paged req i r.kvs ((k, v) ∷ m) (record r { more = has_next m })
Paged-stop req i r k v m c f l h =
    let e : response_range_size r ≡ response_range_size (record r { more = false }) =
      λ j. response_range_size (record { kvs = r.kvs; more = f j; count = r.count }) in
    let why = full_lem req.limit (iter_funcs_from_req req).1 i r (key_of k) v h in
    record {
      taken = 0;
      taken_le = omega arith;
      kvs_lem = unfold page_kvs in sym (append-nil r.kvs);
      count_lem = omega arith;
      within_limit = ground arith;
      more_lem = has_next_lem m;
      stopped = ground (arith, why, e);
    }

iterate_loop_lem :
    (req : RequestRange) (m : Entries) (i : ℕ) (r : ResponseRange)
    → IsDecodable m
    → r.count ≡ i
    → r.more ≡ false
    → (req.limit ≡ 0) ⊎ (i ≤ req.limit)
    → Ensures
        (Paged req i r.kvs m)
        (iterate_loop m req.limit (iter_funcs_from_req req).0 (iter_funcs_from_req req).1 i r)
unfolding iterate_loop
iterate_loop_lem req [] i r d c f l = record {
  taken = 0;
  taken_le = omega arith;
  kvs_lem = unfold page_kvs in sym (append-nil r.kvs);
  count_lem = omega arith;
  within_limit = ground arith;
  more_lem = f;
  stopped = inl refl;
}
iterate_loop_lem req ((k, v) ∷ m) i r d c f l =
    let (key, e) = d.0 in
    let same : key_of k ≡ key.key = ap key_in e in
    elim (Bool-cases (page_is_full req.limit (iter_funcs_from_req req).1 i r key.key v)) [
      | inl full ↦ rw (e, full) (Paged-stop req i r k v m c f l (rw same full))
      | inr more ↦
          rw (e, more, fill_lem req key.key v r)
            (Ensures-map (Paged req (i + 1) (r.kvs ++ kvs_of req (key_of k) v) m)
              (Paged req i r.kvs ((k, v) ∷ m)) _ (λ r'. Paged-step req i r.kvs k v m r')
              (rw same (
                iterate_loop_lem req m (i + 1)
                  (record r { kvs = r.kvs ++ kvs_of req key.key v; count = r.count + 1 }) d.1
                  (omega arith) f
                  (not_full_lem req.limit (iter_funcs_from_req req).1 i r key.key v more l))))
    ]

-- A range read returns a page of the entries that it runs through.
pub iterate-IsPage :
    (req : RequestRange) (m : Entries)
    → IsDecodable m
    → Ensures (IsPage req m) (iterate m req.limit (iter_funcs_from_req req))
unfolding iterate
iterate-IsPage req m d =
    Ensures-map (Paged req 0 [] m) (IsPage req m) _
      (λ r h. record {
        taken = h.taken;
        taken_le = h.taken_le;
        kvs_lem = h.kvs_lem;
        count_lem = omega (arith, h.count_lem);
        within_limit = ground (arith, h.within_limit);
        more_lem = h.more_lem;
        stopped = ground (arith, h.stopped);
      })
      (iterate_loop_lem req m 0 empty_response d refl refl (ground arith))
