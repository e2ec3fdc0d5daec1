-- ===== src/Btree.antt =====
-- `BTreeMap<Vec<u8>, V>` of the standard library: the entries in key order.
pub mod Laws
use merk.Prelude.{Bool, true, false, List, [], ◌∷◌, Option, none, some, ◌&&◌, if◌then◌else◌, All}
use Prim.Native.Nat.{Ordering}
use merk.Bytes.{Bytes, cmp, lt_bytes, le_bytes, eq_bytes}
use merk.Bytes.Order.{◌≺◌}
use merk.Outcome.{Result, ok, panic}

pub data Bound : Type 0 where
  unbounded : Bound
  included : Bytes → Bound
  excluded : Bytes → Bound

abbrev pub above_start : Bound → Bytes → Bool
above_start Bound.unbounded key = true
above_start (Bound.included b) key = le_bytes b key
above_start (Bound.excluded b) key = lt_bytes b key

abbrev pub below_end : Bound → Bytes → Bool
below_end Bound.unbounded key = true
below_end (Bound.included b) key = le_bytes key b
below_end (Bound.excluded b) key = lt_bytes key b

-- A range whose start is beyond its end, or whose bounds exclude the same key.
abbrev pub is_inverted : Bound → Bound → Bool
is_inverted (Bound.included a) (Bound.included b) = lt_bytes b a
is_inverted (Bound.included a) (Bound.excluded b) = lt_bytes b a
is_inverted (Bound.excluded a) (Bound.included b) = lt_bytes b a
is_inverted (Bound.excluded a) (Bound.excluded b) = le_bytes b a
is_inverted _ _ = false

module _ {V : Type 0} where
  unfoldable pub get : List (Bytes × V) → Bytes → Option V
  get [] q = none
  get ((k, v) ∷ m) q = if eq_bytes q k then some v else get m q

  unfoldable pub insert : List (Bytes × V) → Bytes → V → List (Bytes × V)
  insert [] q w = (q, w) ∷ []
  insert ((k, v) ∷ m) q w =
      let rest = insert m q w in
      elim (cmp q k) [
        | Ordering.lt ↦ (q, w) ∷ (k, v) ∷ m
        | Ordering.eq ↦ (k, w) ∷ m
        | Ordering.gt ↦ (k, v) ∷ rest
      ]

  unfoldable pub last_key_value : List (Bytes × V) → Option (Bytes × V)
  last_key_value [] = none
  last_key_value (e ∷ []) = some e
  last_key_value (e ∷ e' ∷ m) = last_key_value (e' ∷ m)

  abbrev pub first_key_value : List (Bytes × V) → Option (Bytes × V)
  first_key_value [] = none
  first_key_value (e ∷ m) = some e

  unfoldable pub within : Bound → Bound → List (Bytes × V) → List (Bytes × V)
  within lo hi [] = []
  within lo hi ((k, v) ∷ m) =
      if above_start lo k && below_end hi k then (k, v) ∷ within lo hi m else within lo hi m

  -- `BTreeMap::range`, which panics on an inverted range
  unfoldable pub range : Bound → Bound → List (Bytes × V) → Result (List (Bytes × V))
  unfolding within
  range lo hi m = if is_inverted lo hi then panic else ok (within lo hi m)

  -- Keys increase strictly.
  abbrev pub IsSorted : List (Bytes × V) → Type 0
  IsSorted [] = Unit
  IsSorted ((k, v) ∷ m) = All (λ e. k ≺ e.0) m × IsSorted m
