-- ===== src/Pebble/OrderedMap.antt =====
-- The contents of a pebble database as an ordered list of entries: what its documentation says
-- of Set, Delete, DeleteRange and of an iterator between bounds.
pub mod Laws
use regatta.Prelude.{
  ◌≡◌, Bool, true, false, not, ◌&&◌, Option, none, some, List, [], ◌∷◌, Ordering, if◌then◌else◌,
}
use regatta.Bytes.{Bytes, compare_bytes, equal, less}

abbrev pub Entry : Type 0
Entry = Bytes × Bytes

abbrev pub Entries : Type 0
Entries = List Entry

unfoldable pub lookup : Bytes → Entries → Option Bytes
lookup k [] = none
lookup k ((j, v) ∷ m) = if equal j k then some v else lookup k m

unfoldable pub insert : Bytes → Bytes → Entries → Entries
insert k v [] = (k, v) ∷ []
insert k v ((j, w) ∷ m) = elim (compare_bytes j k) [
  | Ordering.lt ↦ (j, w) ∷ insert k v m
  | Ordering.eq ↦ (k, v) ∷ m
  | Ordering.gt ↦ (k, v) ∷ (j, w) ∷ m
]

-- The entries whose keys pass a test.
unfoldable pub keep : (Bytes → Bool) → Entries → Entries
keep p [] = []
keep p ((j, w) ∷ m) = let rest = keep p m in if p j then (j, w) ∷ rest else rest

-- lo <= k < hi
abbrev pub in_range : Bytes → Bytes → Bytes → Bool
in_range lo hi k = not (less k lo) && less k hi

unfoldable pub remove : Bytes → Entries → Entries
remove k m = keep (λ j. not (equal j k)) m

unfoldable pub remove_range : Bytes → Bytes → Entries → Entries
remove_range lo hi m = keep (λ j. not (in_range lo hi j)) m

unfoldable pub range : Bytes → Bytes → Entries → Entries
range lo hi m = keep (in_range lo hi) m

-- Every key of the list lies above `k`.
abbrev pub IsAbove : Bytes → Entries → Type 0
IsAbove k [] = Unit
IsAbove k ((j, w) ∷ m) = (compare_bytes k j ≡ Ordering.lt) × IsAbove k m

-- The keys ascend strictly.
abbrev pub IsSorted : Entries → Type 0
IsSorted [] = Unit
IsSorted ((j, w) ∷ m) = IsAbove j m × IsSorted m
