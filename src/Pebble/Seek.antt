-- ===== src/Pebble/Seek.antt =====
-- With a `split` that takes the whole key, SeekPrefixGE finds exactly the key's own entry.
use regatta.Prelude.{◌≡◌, refl, ap, [], ◌∷◌, length, take, arith}
use regatta.Bytes.{Bytes}
use regatta.Bytes.Order.{eq_of_compare, lt_of_gt}
use regatta.Pebble.OrderedMap.{Entries, lookup, IsSorted}
use regatta.Pebble.OrderedMap.Laws.{lookup-above}
use regatta.Pebble.{seek_prefix_ge}

take-length : (x : Bytes) → take (length x) x ≡ x
take-length [] = refl
take-length (b ∷ x) = ap (◌∷◌ b) (take-length x)

-- Over entries in key order, SeekPrefixGE with splitAll finds the value of the key itself, or nothing.
pub seek_prefix_ge-eq-lookup :
    (k : Bytes) (m : Entries) → IsSorted m → seek_prefix_ge k m ≡ lookup k m
unfolding seek_prefix_ge lookup
seek_prefix_ge-eq-lookup k [] s = refl
seek_prefix_ge-eq-lookup k ((j, v) ∷ m) s = ground (
  arith,
  seek_prefix_ge-eq-lookup k m s.1,
  take-length j,
  take-length k,
  eq_of_compare j k,
  lt_of_gt j k,
  lookup-above k j m,
)
