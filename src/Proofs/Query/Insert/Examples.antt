-- ===== src/Proofs/Query/Insert/Examples.antt =====
-- Queries at concrete items.
use merk.Prelude.{◌≡◌, refl, ◌||◌, List, [], ◌∷◌}
use merk.Bytes.{cmp}
use merk.Outcome.{ok}
use merk.Proofs.Query.Create.Split.{IsQuery}
use merk.Proofs.Query.Insert.{
  merge, max_bound, merge_all, take_item, insert_new, insert_item, insert_key,
}
use merk.Proofs.Query.Insert.Covers.{covers, insert_item-covers}
use merk.Proofs.Query.Insert.Keys.{insert_key-covers}
use merk.Proofs.Query.Insert.Merge.{merge-contains}
use merk.Proofs.Query.Item.{QueryItem, contains, cmp_item}

abbrev low : QueryItem
low = QueryItem.range (1 ∷ []) (4 ∷ [])

abbrev high : QueryItem
high = QueryItem.range_inclusive (6 ∷ []) (8 ∷ [])

abbrev between : QueryItem
between = QueryItem.range_inclusive (3 ∷ []) (6 ∷ [])

two_ranges-IsQuery : IsQuery (low ∷ high ∷ [])
unfolding cmp cmp_item
two_ranges-IsQuery = (refl, (refl, tt), (refl, tt, tt))

-- both ranges are merged with the item between them
merged :
    insert_item (low ∷ high ∷ []) between ≡ ok (QueryItem.range_inclusive (1 ∷ []) (8 ∷ []) ∷ [])
unfolding insert_item merge_all take_item merge max_bound insert_new cmp cmp_item
merged = refl

insert_item-covers_example :
    (items' : List QueryItem) × (insert_item (low ∷ high ∷ []) between ≡ ok items')
    × IsQuery items'
    × (covers (5 ∷ []) items' ≡ (contains between (5 ∷ []) || covers (5 ∷ []) (low ∷ high ∷ [])))
unfolding cmp
insert_item-covers_example =
    insert_item-covers (low ∷ high ∷ []) between (5 ∷ []) two_ranges-IsQuery refl

insert_key-covers_example :
    IsQuery (insert_key (low ∷ high ∷ []) (4 ∷ []))
    × (covers (4 ∷ []) (insert_key (low ∷ high ∷ []) (4 ∷ []))
        ≡ (contains (QueryItem.key (4 ∷ [])) (4 ∷ []) || covers (4 ∷ []) (low ∷ high ∷ [])))
insert_key-covers_example = insert_key-covers (low ∷ high ∷ []) (4 ∷ []) (4 ∷ []) two_ranges-IsQuery

merge-contains_example :
    contains (merge low between) (5 ∷ []) ≡ (contains low (5 ∷ []) || contains between (5 ∷ []))
unfolding cmp cmp_item
merge-contains_example = merge-contains low between (5 ∷ []) refl refl refl
