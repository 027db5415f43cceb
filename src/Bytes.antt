-- ===== src/Bytes.antt =====
-- Go's byte slices as lists of numbers, with `bytes.Compare` and `bytes.Equal` of the standard
-- library, the order that pebble's default comparer keeps its keys in.
pub mod Order
use Prim.Native.String.{String}
use Prim.Native.Char.{code}
use regatta.Prelude.{ℕ, ◌<◌, ◌≡◌, Bool, true, false, List, [], ◌∷◌, compare, Ordering}

abbrev pub Bytes : Type 0
Bytes = List ℕ

-- []byte(s) of an ASCII string literal
abbrev pub codes : String → Bytes
codes String.[] = []
codes (String.◌∷◌ c s) = code c ∷ codes s

-- Every element is a byte.
abbrev pub IsBytes : Bytes → Type 0
IsBytes [] = Unit
IsBytes (x ∷ xs) = (x < 256) × IsBytes xs

-- bytes.Compare: lt is -1, eq is 0, gt is 1.
unfoldable pub compare_bytes : Bytes → Bytes → Ordering
compare_bytes [] [] = Ordering.eq
compare_bytes [] (y ∷ ys) = Ordering.lt
compare_bytes (x ∷ xs) [] = Ordering.gt
compare_bytes (x ∷ xs) (y ∷ ys) = elim (compare x y) [
  | Ordering.lt ↦ Ordering.lt
  | Ordering.eq ↦ compare_bytes xs ys
  | Ordering.gt ↦ Ordering.gt
]

-- bytes.Equal
abbrev pub equal : Bytes → Bytes → Bool
equal a b = elim (compare_bytes a b) [ Ordering.eq ↦ true | _ ↦ false ]

-- bytes.Compare(a, b) == -1
abbrev pub less : Bytes → Bytes → Bool
less a b = elim (compare_bytes a b) [ Ordering.lt ↦ true | _ ↦ false ]

-- bytes.Compare(a, b) == 1
abbrev pub greater : Bytes → Bytes → Bool
greater a b = elim (compare_bytes a b) [ Ordering.gt ↦ true | _ ↦ false ]
