-- ===== src/Pebble/OrderedMap/Laws.antt =====
-- Lookups after each change of the entries, and that the changes keep the order of the keys.
use regatta.Prelude.{◌≡◌, refl, Bool, not, none, some, [], ◌∷◌, Ordering, arith, if◌then◌else◌}
use regatta.Bytes.{Bytes, compare_bytes, equal}
use regatta.Bytes.Order.{compare_bytes_refl, eq_of_compare, lt_of_gt, gt_of_lt, lt_trans}
use regatta.Pebble.OrderedMap.{
  Entries, lookup, insert, keep, in_range, remove, remove_range, range, IsAbove, IsSorted,
}

pub lookup-insert :
    (k j : Bytes) (v : Bytes) (m : Entries)
    → lookup j (insert k v m) ≡ (if equal k j then some v else lookup j m)
unfolding lookup insert
lookup-insert k j v [] = refl
lookup-insert k j v ((i, w) ∷ m) = ground (
  arith,
  lookup-insert k j v m,
  eq_of_compare i k,
  eq_of_compare k j,
  eq_of_compare i j,
  compare_bytes_refl k,
)

pub lookup-keep :
    (p : Bytes → Bool) (j : Bytes) (m : Entries)
    → lookup j (keep p m) ≡ (if p j then lookup j m else none)
unfolding lookup keep
lookup-keep p j [] = ground arith
lookup-keep p j ((i, w) ∷ m) = ground (arith, lookup-keep p j m, eq_of_compare i j)

pub lookup-remove :
    (k j : Bytes) (m : Entries) → lookup j (remove k m) ≡ (if equal j k then none else lookup j m)
unfolding remove
lookup-remove k j m = ground (arith, lookup-keep (λ i. not (equal i k)) j m)

pub lookup-remove_range :
    (lo hi j : Bytes) (m : Entries)
    → lookup j (remove_range lo hi m) ≡ (if in_range lo hi j then none else lookup j m)
unfolding remove_range
lookup-remove_range lo hi j m = ground (arith, lookup-keep (λ i. not (in_range lo hi i)) j m)

pub lookup-range :
    (lo hi j : Bytes) (m : Entries)
    → lookup j (range lo hi m) ≡ (if in_range lo hi j then lookup j m else none)
unfolding range
lookup-range lo hi j m = lookup-keep (in_range lo hi) j m

pub IsAbove-keep : (p : Bytes → Bool) (k : Bytes) (m : Entries) → IsAbove k m → IsAbove k (keep p m)
unfolding keep
IsAbove-keep p k [] h = tt
IsAbove-keep p k ((j, w) ∷ m) h = ground (arith, IsAbove-keep p k m)

pub IsSorted-keep : (p : Bytes → Bool) (m : Entries) → IsSorted m → IsSorted (keep p m)
unfolding keep
IsSorted-keep p [] h = tt
IsSorted-keep p ((j, w) ∷ m) h = ground (arith, IsAbove-keep p j m, IsSorted-keep p m)

pub IsAbove-trans :
    (k j : Bytes) (m : Entries) → compare_bytes k j ≡ Ordering.lt → IsAbove j m → IsAbove k m
IsAbove-trans k j [] h a = tt
IsAbove-trans k j ((i, w) ∷ m) h a = (lt_trans k j i h a.0, IsAbove-trans k j m h a.1)

IsAbove-insert :
    (j k v : Bytes) (m : Entries)
    → compare_bytes j k ≡ Ordering.lt
    → IsAbove j m
    → IsAbove j (insert k v m)
unfolding insert
IsAbove-insert j k v [] h a = (h, tt)
IsAbove-insert j k v ((i, w) ∷ m) h a = ground (arith, IsAbove-insert j k v m)

pub IsSorted-insert : (k v : Bytes) (m : Entries) → IsSorted m → IsSorted (insert k v m)
unfolding insert
IsSorted-insert k v [] h = (tt, tt)
IsSorted-insert k v ((i, w) ∷ m) h = ground (
  arith,
  IsSorted-insert k v m,
  IsAbove-insert i k v m,
  eq_of_compare i k,
  lt_of_gt i k,
  IsAbove-trans k i m,
)

-- The first entry at or above a key of a sorted list is the key's own, if it has one.
pub lookup-above :
    (k j : Bytes) (m : Entries) → compare_bytes k j ≡ Ordering.lt → IsAbove j m → lookup k m ≡ none
unfolding lookup
lookup-above k j [] h a = refl
lookup-above k j ((i, w) ∷ m) h a =
    ground (arith, lt_trans k j i h, lookup-above k j m h, gt_of_lt k i)
