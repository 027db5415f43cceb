-- ===== src/LogReader/Cache/Get.antt =====
-- What get returns from a cache whose entries ascend.
use regatta.Prelude.{
  ℕ, suc, ◌-◌, ◌≤◌, ◌<◌, ◌≡◌, ◌≢◌, refl, ap, false, ◌&&◌, List, [], ◌∷◌, length, take, drop, Option,
  none, some, ltb, leb, ◌==◌, arith, if◌then◌else◌, Bool-cases, inl, inr,
}
use regatta.LogReader.Cache.{
  Entry, LogRange, Cache, Got, index_at, find_index, smallest_index, largest_index, no_range, get,
  get_overlap,
}
use regatta.LogReader.Cache.Find.{
  IsAbove, IsAscending, IsUpward, first_index, find_index_lem, at-IsAscending,
}

-- The entries with an index in [lo, hi).
unfoldable pub window : ℕ → ℕ → List Entry → List Entry
window lo hi [] = []
window lo hi (e ∷ es) =
    let rest = window lo hi es in if leb lo e.index && ltb e.index hi then e ∷ rest else rest

window-above : (lo hi : ℕ) (es : List Entry) (x : ℕ) → IsAbove x es → hi ≤ x → window lo hi es ≡ []
unfolding window
window-above lo hi [] x h l = refl
window-above lo hi (e ∷ es) x h l = ground (arith, window-above lo hi es x)

-- Where every entry is at `lo` or later, only the end of the window cuts.
window-take :
    (lo hi : ℕ) (es : List Entry) (x : ℕ)
    → IsAbove x es
    → IsAscending es
    → lo ≤ x
    → take (first_index (λ i. leb hi i) es) es ≡ window lo hi es
unfolding window first_index
window-take lo hi [] x a h l = refl
window-take lo hi (e ∷ es) x a h l =
    ground (arith, window-take lo hi es x, window-above lo hi es e.index)

window_lem :
    (lo hi : ℕ) (es : List Entry)
    → IsAscending es
    → drop (first_index (λ i. leb lo i) es) (take (first_index (λ i. leb hi i) es) es)
      ≡ window lo hi es
unfolding window first_index
window_lem lo hi [] h = refl
window_lem lo hi (e ∷ es) h =
    ground (arith, window_lem lo hi es, window-take lo hi es e.index, window-above lo hi es e.index)

window-below :
    (lo hi : ℕ) (es : List Entry)
    → IsAscending es
    → index_at es (length es - 1) < lo
    → window lo hi es ≡ []
unfolding window
window-below lo hi [] h l = refl
window-below lo hi (e ∷ []) h l = ground arith
window-below lo hi (e ∷ d ∷ es) h l =
    let below : index_at (d ∷ es) (length (d ∷ es) - 1) < lo =
      rw (sub_one (length es)) (rw (sub_one (suc (length es))) at l) in
    ground (
      arith,
      window-below lo hi (d ∷ es) h.1 below,
      at-IsAscending (e ∷ d ∷ es) 0 (suc (length es)) h,
    )
  where
    sub_one : (n : ℕ) → suc n - 1 ≡ n
    sub_one n = omega arith

IsUpward-leb : (n : ℕ) → IsUpward (λ i. leb n i)
IsUpward-leb n a b p q = ground arith

-- The entries of what get returns, where it does not panic.
abbrev pub entries_of : Option Got → Option (List Entry)
entries_of none = none
entries_of (some got) = some got.entries

first_index-ordered :
    (lo hi : ℕ) (es : List Entry)
    → lo ≤ hi
    → first_index (λ i. leb lo i) es ≤ first_index (λ i. leb hi i) es
unfolding first_index
first_index-ordered lo hi [] l = omega arith
first_index-ordered lo hi (e ∷ es) l = ground (arith, first_index-ordered lo hi es l)

overlap-window :
    (c : Cache) (r : LogRange)
    → c.buffer ≢ []
    → IsAscending c.buffer
    → r.first_index ≤ r.last_index
    → entries_of (get_overlap c r) ≡ some (window r.first_index r.last_index c.buffer)
overlap-window c r ne h l =
    rw
      (
        find_index_lem c.buffer (λ i. leb r.first_index i) ne h (IsUpward-leb r.first_index),
        find_index_lem c.buffer (λ i. leb r.last_index i) ne h (IsUpward-leb r.last_index),
        ordered,
      )
      (ap some (window_lem r.first_index r.last_index c.buffer h))
  where
    ordered :
        ltb
          (first_index (λ i. leb r.last_index i) c.buffer)
          (first_index (λ i. leb r.first_index i) c.buffer)
        ≡ false
    ordered = ground (arith, first_index-ordered r.first_index r.last_index c.buffer l)

cons-length :
    (c : Cache) (x : Entry) (xs : List Entry) → c.buffer ≡ x ∷ xs → (length c.buffer == 0) ≡ false
cons-length c x xs e = rw e (ground arith)

cons-nonempty : (c : Cache) (x : Entry) (xs : List Entry) → c.buffer ≡ x ∷ xs → c.buffer ≢ []
cons-nonempty c x xs e = λ q. ground (arith, e, q)

outside-window :
    (c : Cache) (r : LogRange) (x : Entry) (xs : List Entry)
    → c.buffer ≡ x ∷ xs
    → IsAscending (x ∷ xs)
    → r.last_index ≤ x.index
    → window r.first_index r.last_index (x ∷ xs) ≡ []
unfolding window
outside-window c r x xs e h l = ground (arith, window-above r.first_index r.last_index xs x.index)

cons-smallest :
    (c : Cache) (x : Entry) (xs : List Entry) → c.buffer ≡ x ∷ xs → smallest_index c ≡ x.index
unfolding smallest_index
cons-smallest c x xs e = rw (cons-length c x xs e, e) refl

cons-largest :
    (c : Cache) (x : Entry) (xs : List Entry)
    → c.buffer ≡ x ∷ xs
    → largest_index c ≡ index_at (x ∷ xs) (length (x ∷ xs) - 1)
unfolding largest_index
cons-largest c x xs e = rw (cons-length c x xs e, e) refl

-- get returns exactly the entries of the cache with an index in the range, for entries in ascending
-- order and a range in order.
pub get-window :
    (c : Cache) (r : LogRange)
    → IsAscending c.buffer
    → r.first_index ≤ r.last_index
    → entries_of (get c r) ≡ some (window r.first_index r.last_index c.buffer)
unfolding get
get-window c r h l = by_buffer c.buffer refl
  where
    by_buffer :
        (b : List Entry)
        → c.buffer ≡ b
        → entries_of (get c r) ≡ some (window r.first_index r.last_index c.buffer)
    by_buffer [] e = unfold window in rw e refl
    by_buffer (x ∷ xs) e = elim (Bool-cases (ltb r.last_index (smallest_index c))) [
      | inl under ↦
          rw
            (
              cons-length c x xs e,
              under,
              e,
              outside-window c r x xs e (rw e at h) (ground (arith, under, cons-smallest c x xs e)),
            )
            refl
      | inr reaches ↦ elim (Bool-cases (ltb (largest_index c) r.first_index)) [
        | inl over ↦
            rw
              (
                cons-length c x xs e,
                reaches,
                over,
                e,
                window-below r.first_index r.last_index (x ∷ xs) (rw e at h)
                    (ground (arith, over, cons-largest c x xs e)),
              )
              refl
        | inr meets ↦
            rw (cons-length c x xs e, reaches, meets)
              (overlap-window c r (cons-nonempty c x xs e) h l)
      ]
    ]

-- In a cache that is not empty and whose entries ascend, a range whose end is the index of the first entry of the cache and that starts before it loses every
-- index: get returns no entries, nothing to read in front and nothing to read behind.
pub get-first_entry :
    (c : Cache) (r : LogRange)
    → c.buffer ≢ []
    → IsAscending c.buffer
    → r.first_index < r.last_index
    → r.last_index ≡ smallest_index c
    → get c r ≡ some (record { entries = []; prepend = no_range; append = no_range })
unfolding get
get-first_entry c r ne h l s = by_buffer c.buffer refl
  where
    by_buffer :
        (b : List Entry)
        → c.buffer ≡ b
        → get c r ≡ some (record { entries = []; prepend = no_range; append = no_range })
    by_buffer [] e = absurd (ne e)
    by_buffer (x ∷ xs) e =
        rw
          (
            cons-length c x xs e,
            reaches,
            meets,
            found r.first_index (omega arith),
            found r.last_index (omega (arith, s)),
          )
          refl
      where
        reaches : ltb r.last_index (smallest_index c) ≡ false
        reaches = ground (arith, s)

        meets : ltb (largest_index c) r.first_index ≡ false
        meets = ground (
          arith,
          s,
          l,
          cons-smallest c x xs e,
          cons-largest c x xs e,
          at-IsAscending (x ∷ xs) 0 (length xs) (rw e at h),
        )

        at_first : (lo : ℕ) → lo ≤ smallest_index c → first_index (λ i. leb lo i) (x ∷ xs) ≡ 0
        at_first lo p = unfold first_index in ground (arith, p, cons-smallest c x xs e)

        found : (lo : ℕ) → lo ≤ smallest_index c → find_index c.buffer (λ i. leb lo i) ≡ 0
        found lo p =
            rw (find_index_lem c.buffer (λ i. leb lo i) ne h (IsUpward-leb lo), e) (at_first lo p)
