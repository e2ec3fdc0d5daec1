-- ===== src/Proofs/Query/Insert.antt =====
-- `Query` of src/proofs/query/mod.rs: a set of items, as the `BTreeSet` keeps them, in order. Items
-- that collide are equal for the comparison, and an inserted item is merged with all of them.
pub mod Bounds
pub mod Merge
pub mod Order
pub mod Covers
pub mod Keys
mod Examples
use Prim.Native.Nat.{Ordering}
use merk.Prelude.{
  ℕ, zero, suc, Bool, not, ◌&&◌, List, [], ◌∷◌, Option, none, some, length, if◌then◌else◌,
}
use merk.Bytes.{Bytes, cmp, le_bytes}
use merk.Outcome.{Result, ok, panic, ◌>>=◌}
use merk.Proofs.Query.Item.{QueryItem, lower_bound, upper_bound, cmp_item}

-- `std::cmp::min` on slices, `std::cmp::max` on pairs
abbrev pub min_bytes : Bytes → Bytes → Bytes
min_bytes a b = if le_bytes a b then a else b

unfoldable pub max_bound : Bytes × Bool → Bytes × Bool → Bytes × Bool
max_bound p q = elim (cmp p.0 q.0) [
  | Ordering.lt ↦ q
  | Ordering.eq ↦ if p.1 && not q.1 then p else q
  | Ordering.gt ↦ p
]

abbrev pub item_to : Bytes → Bytes × Bool → QueryItem
item_to start end =
    if end.1 then QueryItem.range_inclusive start end.0 else QueryItem.range start end.0

-- `QueryItem::merge`
unfoldable pub merge : QueryItem → QueryItem → QueryItem
unfolding max_bound
merge a b =
    item_to (min_bytes (lower_bound a) (lower_bound b)) (max_bound (upper_bound a) (upper_bound b))

-- `BTreeSet::take`: an item that collides, and the others
abbrev pub put_back :
    QueryItem → Option (QueryItem × List QueryItem) → Option (QueryItem × List QueryItem)
put_back x none = none
put_back x (some (taken, rest)) = some (taken, x ∷ rest)

abbrev pub take_at :
    Ordering
    → QueryItem
    → List QueryItem
    → Option (QueryItem × List QueryItem)
    → Option (QueryItem × List QueryItem)
take_at Ordering.lt x items later = none
take_at Ordering.eq x items later = some (x, items)
take_at Ordering.gt x items later = put_back x later

unfoldable pub take_item : QueryItem → List QueryItem → Option (QueryItem × List QueryItem)
take_item item [] = none
take_item item (x ∷ items) = take_at (cmp_item item x) x items (take_item item items)

-- `BTreeSet::insert`, which keeps an item that is equal
unfoldable pub insert_new : QueryItem → List QueryItem → List QueryItem
insert_new item [] = item ∷ []
insert_new item (x ∷ items) =
    let later = insert_new item items in
    elim (cmp_item item x) [
      | Ordering.lt ↦ item ∷ x ∷ items
      | Ordering.eq ↦ x ∷ items
      | Ordering.gt ↦ x ∷ later
    ]

-- The loop of `insert_item`. It takes one item out in each round, so their number and one is fuel
-- enough; without fuel it panics.
unfoldable pub merge_all : ℕ → QueryItem → List QueryItem → Result (QueryItem × List QueryItem)
unfolding take_item merge
merge_all zero item items = panic
merge_all (suc fuel) item items = elim (take_item item items) [
  | none ↦ ok (item, items)
  | some (existing, rest) ↦ merge_all fuel (merge item existing) rest
]

-- `Query::insert_item`, `Query::insert_key`
unfoldable pub insert_item : List QueryItem → QueryItem → Result (List QueryItem)
unfolding merge_all insert_new
insert_item items item = do
  (merged, rest) ← merge_all (suc (length items)) item items
  ok (insert_new merged rest)

unfoldable pub insert_key : List QueryItem → Bytes → List QueryItem
unfolding insert_new
insert_key items key = insert_new (QueryItem.key key) items
