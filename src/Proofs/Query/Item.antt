-- ===== src/Proofs/Query/Item.antt =====
-- `QueryItem` of src/proofs/query/mod.rs: a key or a range of keys, and its comparison.
pub mod Inside
use Prim.Native.Nat.{Ordering}
use merk.Prelude.{◌≡◌, refl, Bool, true, false, ◌&&◌, ◌||◌, if◌then◌else◌, arith}
use merk.Bytes.{Bytes, cmp, lt_bytes, le_bytes, eq_bytes}
use merk.Bytes.Order.{
  ◌≺◌, eq_of_cmp, lt_of_gt, cmp_refl, le_bytes_refl, le_bytes-true, le_bytes-false, lt_bytes-true,
  lt_bytes-false, eq_bytes-false',
}

pub data QueryItem : Type 0 where
  key : Bytes → QueryItem
  range : Bytes → Bytes → QueryItem
  range_inclusive : Bytes → Bytes → QueryItem

abbrev pub lower_bound : QueryItem → Bytes
lower_bound (QueryItem.key k) = k
lower_bound (QueryItem.range start end) = start
lower_bound (QueryItem.range_inclusive start end) = start

-- the bound, and whether it is in the range
abbrev pub upper_bound : QueryItem → Bytes × Bool
upper_bound (QueryItem.key k) = (k, true)
upper_bound (QueryItem.range start end) = (end, false)
upper_bound (QueryItem.range_inclusive start end) = (end, true)

abbrev pub contains : QueryItem → Bytes → Bool
contains item k =
    le_bytes (lower_bound item) k
    && (lt_bytes k (upper_bound item).0
        || (eq_bytes k (upper_bound item).0 && (upper_bound item).1))

-- the `match` on the two comparisons
abbrev pub compare_bounds : Ordering → Ordering → Bool → Bool → Ordering
compare_bounds Ordering.lt Ordering.lt a b = Ordering.lt
compare_bounds Ordering.lt Ordering.eq a b = if a then Ordering.eq else Ordering.lt
compare_bounds Ordering.lt Ordering.gt a b = Ordering.eq
compare_bounds Ordering.eq _ a b = if b then Ordering.eq else Ordering.gt
compare_bounds Ordering.gt _ a b = Ordering.gt

-- `Ord for QueryItem`
unfoldable pub cmp_item : QueryItem → QueryItem → Ordering
cmp_item a b =
    compare_bounds (cmp (lower_bound a) (upper_bound b).0) (cmp (upper_bound a).0 (lower_bound b))
      (upper_bound a).1 (upper_bound b).1

-- a range that is not empty
abbrev pub IsProper : QueryItem → Type 0
IsProper (QueryItem.key k) = Unit
IsProper (QueryItem.range start end) = start ≺ end
IsProper (QueryItem.range_inclusive start end) = le_bytes start end ≡ true

closed_either :
    (closed : Bool)
    → (if closed then Ordering.eq else Ordering.lt) ≡ (
        if true && (false || (true && closed))
        then Ordering.eq
        else if false
        then Ordering.gt
        else Ordering.lt)
closed_either true = refl
closed_either false = refl

-- The comparison with a key, for a range from `lo` to `hi`.
bounds-contains :
    (lo hi k : Bytes) (closed : Bool)
    → (closed ≡ true → le_bytes lo hi ≡ true)
    → (closed ≡ false → lo ≺ hi)
    → (o p : Ordering) → cmp lo k ≡ o
    → cmp hi k ≡ p
    → compare_bounds (cmp lo k) (cmp hi k) closed true ≡ (
        if le_bytes lo k && (lt_bytes k hi || (eq_bytes k hi && closed))
        then Ordering.eq
        else if lt_bytes k lo
        then Ordering.gt
        else Ordering.lt)
bounds-contains lo hi k closed h h' Ordering.lt Ordering.lt eo ep =
    rw
      (
        eo,
        ep,
        le_bytes-true lo k eo,
        lt_bytes-false hi k ep,
        eq_bytes-false' hi k ep,
        lt_bytes-false lo k eo,
      )
      refl
bounds-contains lo hi k closed h h' Ordering.lt Ordering.eq eo ep =
    let same : cmp k hi ≡ Ordering.eq = rw (eq_of_cmp hi k ep) (cmp_refl k) in
    let below : lt_bytes k hi ≡ false = ground arith in
    let at : eq_bytes k hi ≡ true = ground arith in
    rw (eo, ep, le_bytes-true lo k eo, below, at, lt_bytes-false lo k eo) (closed_either closed)
bounds-contains lo hi k closed h h' Ordering.lt Ordering.gt eo ep =
    rw (eo, ep, le_bytes-true lo k eo, lt_bytes-true k hi (lt_of_gt hi k ep)) refl
bounds-contains lo hi k true h h' Ordering.eq p eo ep =
    let here : le_bytes lo k ≡ true = ground arith in
    let below : le_bytes k hi ≡ true = rw (← eq_of_cmp lo k eo) (h refl) in
    let within : (lt_bytes k hi || (eq_bytes k hi && true)) ≡ true = ground arith in
    rw (eo, here, within) refl
bounds-contains lo hi k false h h' Ordering.eq p eo ep =
    let here : le_bytes lo k ≡ true = ground arith in
    let below : k ≺ hi = rw (← eq_of_cmp lo k eo) (h' refl) in
    rw (eo, here, lt_bytes-true k hi below) refl
bounds-contains lo hi k closed h h' Ordering.gt p eo ep =
    let below = lt_of_gt lo k eo in
    rw (eo, le_bytes-false k lo below, lt_bytes-true k lo below) refl

-- Against a key, an item that is not an empty range is equal if it contains the key, greater if
-- the key is below its lower bound, and less otherwise.
pub cmp_item-contains :
    (item : QueryItem) (k : Bytes)
    → IsProper item
    → cmp_item item (QueryItem.key k) ≡ (
        if contains item k
        then Ordering.eq
        else if lt_bytes k (lower_bound item)
        then Ordering.gt
        else Ordering.lt)
unfolding cmp_item
cmp_item-contains (QueryItem.key j) k proper =
    bounds-contains j j k true (λ _. le_bytes_refl j) (λ e. cc) (cmp j k) (cmp j k) refl refl
cmp_item-contains (QueryItem.range start end) k proper =
    bounds-contains start end k false (λ e. cc) (λ _. proper) (cmp start k) (cmp end k) refl refl
cmp_item-contains (QueryItem.range_inclusive start end) k proper =
    bounds-contains start end k true (λ _. proper) (λ e. cc) (cmp start k) (cmp end k) refl refl
