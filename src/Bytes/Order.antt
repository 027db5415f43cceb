-- ===== src/Bytes/Order.antt =====
-- The lexicographic order of byte slices is a strict total order.
use regatta.Prelude.{◌≡◌, refl, true, [], ◌∷◌, ◌++◌, Ordering, arith}
use regatta.Bytes.{Bytes, compare_bytes, equal}

pub compare_bytes_refl : (a : Bytes) → compare_bytes a a ≡ Ordering.eq
unfolding compare_bytes
compare_bytes_refl [] = refl
compare_bytes_refl (x ∷ a) = ground (arith, compare_bytes_refl a)

pub eq_of_compare : (a b : Bytes) → compare_bytes a b ≡ Ordering.eq → a ≡ b
unfolding compare_bytes
eq_of_compare [] [] h = refl
eq_of_compare [] (y ∷ b) h = ground arith
eq_of_compare (x ∷ a) [] h = ground arith
eq_of_compare (x ∷ a) (y ∷ b) h = ground (arith, eq_of_compare a b)

pub lt_of_gt : (a b : Bytes) → compare_bytes a b ≡ Ordering.gt → compare_bytes b a ≡ Ordering.lt
unfolding compare_bytes
lt_of_gt [] [] h = ground arith
lt_of_gt [] (y ∷ b) h = ground arith
lt_of_gt (x ∷ a) [] h = refl
lt_of_gt (x ∷ a) (y ∷ b) h = ground (arith, lt_of_gt a b)

pub gt_of_lt : (a b : Bytes) → compare_bytes a b ≡ Ordering.lt → compare_bytes b a ≡ Ordering.gt
unfolding compare_bytes
gt_of_lt [] [] h = ground arith
gt_of_lt [] (y ∷ b) h = refl
gt_of_lt (x ∷ a) [] h = ground arith
gt_of_lt (x ∷ a) (y ∷ b) h = ground (arith, gt_of_lt a b)

pub lt_trans :
    (a b c : Bytes)
    → compare_bytes a b ≡ Ordering.lt
    → compare_bytes b c ≡ Ordering.lt
    → compare_bytes a c ≡ Ordering.lt
unfolding compare_bytes
lt_trans [] [] c h k = ground arith
lt_trans [] (y ∷ b) [] h k = ground arith
lt_trans [] (y ∷ b) (z ∷ c) h k = refl
lt_trans (x ∷ a) [] c h k = ground arith
lt_trans (x ∷ a) (y ∷ b) [] h k = ground arith
lt_trans (x ∷ a) (y ∷ b) (z ∷ c) h k = ground (arith, lt_trans a b c)

-- A common prefix does not matter.
pub compare_bytes-append : (p a b : Bytes) → compare_bytes (p ++ a) (p ++ b) ≡ compare_bytes a b
unfolding compare_bytes
compare_bytes-append [] a b = refl
compare_bytes-append (x ∷ p) a b = ground (arith, compare_bytes-append p a b)

pub equal_iff : (a b : Bytes) → equal a b ≡ true → a ≡ b
equal_iff a b h = ground (arith, eq_of_compare a b)

pub equal_refl : (a : Bytes) → equal a a ≡ true
equal_refl a = ground (arith, compare_bytes_refl a)
