-- ===== src/Bytes.antt =====
-- Byte strings: `Vec<u8>`, `&[u8]` and `Hash` of the source are lists of numbers, compared
-- lexicographically as the standard library compares slices.
pub mod Order
use Prim.Native.Nat.{compare, Ordering}
use merk.Prelude.{ℕ, Bool, true, false, List, [], ◌∷◌, ◌<◌, All}

abbrev pub Bytes : Type 0
Bytes = List ℕ

abbrev pub IsByte : ℕ → Type 0
IsByte b = b < 256

abbrev pub AllBytes : Bytes → Type 0
AllBytes bs = All IsByte bs

unfoldable pub cmp : Bytes → Bytes → Ordering
cmp [] [] = Ordering.eq
cmp [] (b ∷ bs) = Ordering.lt
cmp (a ∷ as') [] = Ordering.gt
cmp (a ∷ as') (b ∷ bs) = elim (compare a b) [
  | Ordering.lt ↦ Ordering.lt
  | Ordering.eq ↦ cmp as' bs
  | Ordering.gt ↦ Ordering.gt
]

-- `a < b`, `a <= b` and `a == b` of slices
abbrev pub lt_bytes : Bytes → Bytes → Bool
lt_bytes a b = elim (cmp a b) [ Ordering.lt ↦ true | _ ↦ false ]

abbrev pub le_bytes : Bytes → Bytes → Bool
le_bytes a b = elim (cmp a b) [ Ordering.gt ↦ false | _ ↦ true ]

abbrev pub eq_bytes : Bytes → Bytes → Bool
eq_bytes a b = elim (cmp a b) [ Ordering.eq ↦ true | _ ↦ false ]
