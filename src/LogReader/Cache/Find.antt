-- ===== src/LogReader/Cache/Find.antt =====
-- findIndex finds the first entry that passes, by binary search.
use regatta.Prelude.{
  ℕ, zero, suc, ◌+◌, ◌-◌, ◌/◌, ◌≤◌, ◌<◌, ◌≡◌, ◌≢◌, refl, ap, sym, Bool, true, false, List, [], ◌∷◌,
  length, ltb, arith, if◌then◌else◌, Bool-cases, inl, inr,
}
use regatta.LogReader.Cache.{Entry, index_at, search_loop, search, find_index}

-- Every entry has an index above `x`.
abbrev pub IsAbove : ℕ → List Entry → Type 0
IsAbove x [] = Unit
IsAbove x (e ∷ es) = (x < e.index) × IsAbove x es

-- The indexes ascend strictly.
abbrev pub IsAscending : List Entry → Type 0
IsAscending [] = Unit
IsAscending (e ∷ es) = IsAbove e.index es × IsAscending es

-- What holds of an index holds of every larger one.
abbrev pub IsUpward : (ℕ → Bool) → Type 0
IsUpward f = (a b : ℕ) → a ≤ b → f a ≡ true → f b ≡ true

-- The position of the first entry whose index passes, or the length.
unfoldable pub first_index : (ℕ → Bool) → List Entry → ℕ
first_index f [] = 0
first_index f (e ∷ es) = let rest = suc (first_index f es) in if f e.index then 0 else rest

record IsFirst (g : ℕ → Bool) (i j r : ℕ) : Type 0 where
  low : i ≤ r
  high : r ≤ j
  before : (k : ℕ) → i ≤ k → k < r → g k ≡ false
  at : r < j → g r ≡ true

search_loop-IsFirst :
    (fuel : ℕ) (g : ℕ → Bool) (i j : ℕ)
    → ((a b : ℕ) → a ≤ b → b < j → g a ≡ true → g b ≡ true)
    → i ≤ j
    → j < fuel + i
    → IsFirst g i j (search_loop fuel g i j)
unfolding search_loop
search_loop-IsFirst zero g i j up h l = absurd (omega arith)
search_loop-IsFirst (suc fuel) g i j up h l = elim (Bool-cases (ltb i j)) [
  | inl more ↦ elim (Bool-cases (g ((i + j) / 2))) [
    | inl passes ↦
        let r =
          search_loop-IsFirst fuel g i ((i + j) / 2) (λ a b p q. up a b p (ground arith))
            (ground arith) (ground arith) in
        rw (more, passes)
          (record {
            low = r.low;
            high = ground (arith, r.high);
            before = r.before;
            at = λ q. ground (arith, r.at, r.high);
          })
    | inr fails ↦
        let r = search_loop-IsFirst fuel g ((i + j) / 2 + 1) j up (ground arith) (ground arith) in
        rw (more, fails)
          (record {
            low = ground (arith, r.low);
            high = r.high;
            before = λ k p q. ground (arith, r.before k, up k ((i + j) / 2));
            at = r.at;
          })
  ]
  | inr done ↦ rw done (record {
    low = omega arith;
    high = h;
    before = λ k p q. absurd (omega arith);
    at = λ q. ground arith;
  })
]

at-IsAbove : (x : ℕ) (es : List Entry) (j : ℕ) → IsAbove x es → j < length es → x < index_at es j
at-IsAbove x [] j h l = absurd (omega arith)
at-IsAbove x (e ∷ es) zero h l = h.0
at-IsAbove x (e ∷ es) (suc j) h l = at-IsAbove x es j h.1 (omega arith)

pub at-IsAscending :
    (es : List Entry) (i j : ℕ)
    → IsAscending es
    → i ≤ j
    → j < length es
    → index_at es i ≤ index_at es j
at-IsAscending [] i j h p l = absurd (omega arith)
at-IsAscending (e ∷ es) zero zero h p l = omega arith
at-IsAscending (e ∷ es) zero (suc j) h p l =
    omega (arith, at-IsAbove e.index es j h.0 (omega arith))
at-IsAscending (e ∷ es) (suc i) zero h p l = absurd (omega arith)
at-IsAscending (e ∷ es) (suc i) (suc j) h p l =
    at-IsAscending es i j h.1 (omega arith) (omega arith)

IsFirst-unique :
    (f : ℕ → Bool) (es : List Entry) (r : ℕ)
    → IsFirst (λ k. f (index_at es k)) 0 (length es) r
    → r ≡ first_index f es
unfolding first_index
IsFirst-unique f [] r h = omega (arith, h.high)
IsFirst-unique f (e ∷ es) zero h = rw (h.at (omega arith))
IsFirst-unique f (e ∷ es) (suc r) h = rw (h.before 0 (omega arith) (omega arith)) (
    ap suc (
      IsFirst-unique f es r (record {
        low = omega arith;
        high = omega (arith, h.high);
        before = λ k p q. h.before (suc k) (omega arith) (omega arith);
        at = λ q. h.at (omega arith);
      })))

first_index-all :
    (f : ℕ → Bool) (es : List Entry)
    → ((k : ℕ) → k < length es → f (index_at es k) ≡ false)
    → first_index f es ≡ length es
unfolding first_index
first_index-all f [] h = refl
first_index-all f (e ∷ es) h =
    rw (h 0 (omega arith)) (ap suc (first_index-all f es (λ k l. h (suc k) (omega arith))))

-- findIndex on entries in ascending order, at least one, with a test that holds on upwards, returns the position of
-- the first entry that passes, or their number if none does.
pub find_index_lem :
    (es : List Entry) (f : ℕ → Bool)
    → es ≢ []
    → IsAscending es
    → IsUpward f
    → find_index es f ≡ first_index f es
unfolding find_index search
find_index_lem [] f ne h up = absurd (ne refl)
find_index_lem (e ∷ es) f ne h up = elim (Bool-cases (f e.index)) [
  | inl first ↦ rw first (unfold first_index in rw first)
  | inr later ↦ elim (Bool-cases (f (index_at (e ∷ es) (length es)))) [
    | inl found ↦
        rw (later, last, found)
          (IsFirst-unique f (e ∷ es) _ (
            search_loop-IsFirst (suc (length es) + 1) (λ i. f (index_at (e ∷ es) i)) 0
              (suc (length es)) (λ a b p q. up _ _ (at-IsAscending (e ∷ es) a b h p q))
              (omega arith) (omega arith)))
    | inr none ↦
        rw (later, last, none) (sym (first_index-all f (e ∷ es) (λ k l. below_last k l none)))
  ]
]
  where
    last : suc (length es) - 1 ≡ length es
    last = omega arith

    below_last :
        (k : ℕ)
        → k < suc (length es)
        → f (index_at (e ∷ es) (length es)) ≡ false
        → f (index_at (e ∷ es) k) ≡ false
    below_last k l n = ground (
      arith,
      n,
      up (index_at (e ∷ es) k) (index_at (e ∷ es) (length es))
          (at-IsAscending (e ∷ es) k (length es) h (omega arith) (omega arith)),
    )
