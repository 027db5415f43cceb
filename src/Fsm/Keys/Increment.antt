-- ===== src/Fsm/Keys/Increment.antt =====
-- incrementRightmostByte adds one to the big-endian number that the bytes stand for.
use regatta.Prelude.{
  ℕ, zero, suc, ◌+◌, ◌-◌, ◌*◌, ◌%◌, ◌<◌, ◌≡◌, not, ◌⊎◌, inl, inr, refl, ap, ◌∙◌, [], ◌∷◌, ◌++◌,
  length, take, set, get_or, length-set, arith, ◌==◌, if◌then◌else◌,
}
use regatta.Bytes.{Bytes, IsBytes}
use regatta.Fsm.Keys.{prepend_byte, increment_loop, increment_rightmost_byte}

-- 256 ^ n
abbrev pub weight : ℕ → ℕ
weight zero = 1
weight (suc n) = 256 * weight n

-- The number that the bytes stand for, the first byte the most significant.
unfoldable pub number_of : Bytes → ℕ
number_of [] = 0
number_of (x ∷ xs) = x * weight (length xs) + number_of xs

-- The weight of the byte at a position.
weight_at : Bytes → ℕ → ℕ
weight_at [] i = 1
weight_at (b ∷ x) zero = weight (length x)
weight_at (b ∷ x) (suc i) = weight_at x i

weight_at-suc : (x : Bytes) (i : ℕ) → suc i < length x → weight_at x i ≡ 256 * weight_at x (suc i)
unfolding weight_at
weight_at-suc [] i h = absurd (omega arith)
weight_at-suc (b ∷ []) i h = absurd (omega arith)
weight_at-suc (b ∷ c ∷ x) zero h = refl
weight_at-suc (b ∷ c ∷ x) (suc i) h = weight_at-suc (c ∷ x) i (omega arith)

weight_at-set : (x : Bytes) (i j v : ℕ) → weight_at (set x i v) j ≡ weight_at x j
unfolding weight_at
weight_at-set [] i j v = refl
weight_at-set (b ∷ x) zero j v = ground arith
weight_at-set (b ∷ x) (suc i) zero v = ap weight (length-set x i v)
weight_at-set (b ∷ x) (suc i) (suc j) v = weight_at-set x i j v

weight_at_first : (x : Bytes) → 0 < length x → weight (length x) ≡ 256 * weight_at x 0
unfolding weight_at
weight_at_first [] h = absurd (omega arith)
weight_at_first (b ∷ x) h = refl

weight_at_last : (x : Bytes) (i : ℕ) → length x ≡ suc i → weight_at x i ≡ 1
unfolding weight_at
weight_at_last [] i h = refl
weight_at_last (b ∷ []) zero h = refl
weight_at_last (b ∷ c ∷ x) zero h = absurd (omega arith)
weight_at_last (b ∷ x) (suc i) h = weight_at_last x i (omega arith)

-- A write trades the old byte for the new one.
number_of-set :
    (x : Bytes) (i v : ℕ)
    → i < length x
    → number_of (set x i v) + get_or x i 0 * weight_at x i ≡ number_of x + v * weight_at x i
unfolding number_of weight_at
number_of-set [] i v h = absurd (omega arith)
number_of-set (b ∷ x) zero v h = omega arith
number_of-set (b ∷ x) (suc i) v h =
    omega
      (arith, number_of-set x i v (omega arith), ap (λ (t : ℕ). b * weight t) (length-set x i v))

take-length-append : (x y : Bytes) → take (length x) (x ++ y) ≡ x
take-length-append [] y = refl
take-length-append (b ∷ x) y = ap (◌∷◌ b) (take-length-append x y)

pub prepend_byte_lem : (x : Bytes) (y : ℕ) → prepend_byte x y ≡ y ∷ x
unfolding prepend_byte
prepend_byte_lem x y = rw take-length-append

get_or-set_self : (x : Bytes) (i v : ℕ) → i < length x → get_or (set x i v) i 0 ≡ v
get_or-set_self [] i v h = absurd (omega arith)
get_or-set_self (b ∷ x) zero v h = refl
get_or-set_self (b ∷ x) (suc i) v h = get_or-set_self x i v (omega arith)

get_or-IsBytes : (x : Bytes) (i : ℕ) → IsBytes x → get_or x i 0 < 256
get_or-IsBytes [] i h = omega arith
get_or-IsBytes (b ∷ x) zero h = h.0
get_or-IsBytes (b ∷ x) (suc i) h = get_or-IsBytes x i h.1

set-IsBytes : (x : Bytes) (i v : ℕ) → v < 256 → IsBytes x → IsBytes (set x i v)
set-IsBytes [] i v l h = tt
set-IsBytes (b ∷ x) zero v l h = (l, h.1)
set-IsBytes (b ∷ x) (suc i) v l h = (h.0, set-IsBytes x i v l h.1)

-- A byte that does not overflow absorbs the increment.
no_carry :
    (x : Bytes) (i : ℕ)
    → i < length x
    → get_or x i 0 < 255
    → number_of (set x i ((get_or x i 0 + 1) % 256)) ≡ number_of x + weight_at x i
no_carry x i h l =
    let e : (get_or x i 0 + 1) % 256 ≡ get_or x i 0 + 1 = omega arith in
    rw e (omega (arith, number_of-set x i (get_or x i 0 + 1) h))

-- A byte 255 becomes 0.
carry :
    (x : Bytes) (i : ℕ)
    → i < length x
    → get_or x i 0 ≡ 255
    → number_of (set x i ((get_or x i 0 + 1) % 256)) + 255 * weight_at x i ≡ number_of x
carry x i h e = rw e (omega (arith, number_of-set x i 0 h, ap (λ (t : ℕ). t * weight_at x i) e))

-- One round of the loop, over what the rounds before `i` make of the slice.
increment_step : ℕ → Bytes → (Bytes → Bytes) → Bytes
increment_step i x next =
    let y = set x i ((get_or x i 0 + 1) % 256) in
    if not (get_or y i 0 == 0) then y else if i == 0 then prepend_byte y 1 else next y

increment_loop_step :
    (i : ℕ) (x : Bytes) → increment_loop (suc i) x ≡ increment_step i x (increment_loop i)
unfolding increment_loop increment_step
increment_loop_step i x = refl

loop_stops :
    (i : ℕ) (x : Bytes)
    → i < length x
    → get_or x i 0 < 255
    → increment_loop (suc i) x ≡ set x i ((get_or x i 0 + 1) % 256)
unfolding increment_loop
loop_stops i x h l = ground (arith, get_or-set_self x i ((get_or x i 0 + 1) % 256) h)

loop_prepends :
    (x : Bytes)
    → 0 < length x
    → get_or x 0 0 ≡ 255
    → increment_loop 1 x ≡ 1 ∷ set x 0 ((get_or x 0 0 + 1) % 256)
unfolding increment_loop
loop_prepends x h e =
    let y = set x 0 ((get_or x 0 0 + 1) % 256) in
    ground (arith, get_or-set_self x 0 ((get_or x 0 0 + 1) % 256) h, prepend_byte_lem y 1)

loop_carries :
    (i : ℕ) (x : Bytes)
    → suc i < length x
    → get_or x (suc i) 0 ≡ 255
    → increment_loop (suc (suc i)) x
      ≡ increment_loop (suc i) (set x (suc i) ((get_or x (suc i) 0 + 1) % 256))
unfolding increment_step
loop_carries i x h e =
    rw (increment_loop_step (suc i) x)
      (ground (arith, get_or-set_self x (suc i) ((get_or x (suc i) 0 + 1) % 256) h))

full_or_not : (b : ℕ) → b < 256 → (b < 255) ⊎ (b ≡ 255)
full_or_not b h = grind arith

increment_loop_lem :
    (i : ℕ) (x : Bytes)
    → i < length x
    → IsBytes x
    → number_of (increment_loop (suc i) x) ≡ number_of x + weight_at x i
unfolding number_of
increment_loop_lem zero x h b = elim (full_or_not (get_or x 0 0) (get_or-IsBytes x 0 b)) [
  | inl l ↦ rw (loop_stops 0 x h l) (no_carry x 0 h l)
  | inr e ↦ rw (loop_prepends x h e, length-set) (omega (arith, carry x 0 h e, weight_at_first x h))
]
increment_loop_lem (suc i) x h b =
    elim (full_or_not (get_or x (suc i) 0) (get_or-IsBytes x (suc i) b)) [
      | inl l ↦ rw (loop_stops (suc i) x h l) (no_carry x (suc i) h l)
      | inr e ↦
          let v = (get_or x (suc i) 0 + 1) % 256 in
          rw (loop_carries i x h e) (
            omega (
              arith,
              carry x (suc i) h e,
              increment_loop_lem i (set x (suc i) v) (rw (length-set x (suc i) v) (omega arith))
                  (set-IsBytes x (suc i) v (omega arith) b),
              weight_at-set x (suc i) i v,
              weight_at-suc x i h,
            ))
    ]

-- incrementRightmostByte of bytes (numbers below 256), at least one of them, adds one to its number, with a carry through
-- every byte 255 and one more byte in front if all are.
pub number_of-increment_rightmost_byte :
    (x : Bytes)
    → IsBytes x
    → 0 < length x
    → number_of (increment_rightmost_byte x) ≡ number_of x + 1
unfolding increment_rightmost_byte
number_of-increment_rightmost_byte x b h =
    let e : length x ≡ suc (length x - 1) = omega arith in
    rw e (
      increment_loop_lem (length x - 1) x (omega arith) b
      ∙ ap (λ (t : ℕ). number_of x + t) (weight_at_last x (length x - 1) e))
