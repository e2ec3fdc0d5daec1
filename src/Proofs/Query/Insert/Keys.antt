-- ===== src/Proofs/Query/Insert/Keys.antt =====
-- `Query::insert_key`: a key that an item contains is not inserted, and is covered already.
use mathlib.Core.Path.{subst}
use Prim.Native.Nat.{Ordering}
use merk.Prelude.{◌≡◌, refl, sym, ap, ◌∙◌, inl, inr, Bool, true, false, ◌||◌, List, [], ◌∷◌, arith}
use merk.Bytes.{Bytes, cmp, le_bytes}
use merk.Bytes.Order.{◌≺◌, eq_of_cmp, lt_of_gt, le_bytes-true, le_bytes-false, le_bytes_refl}
use merk.Proofs.Query.Create.Split.{IsQuery}
use merk.Proofs.Query.Insert.{insert_new, insert_key}
use merk.Proofs.Query.Insert.Covers.{covers, or_swap}
use merk.Proofs.Query.Insert.Bounds.{Inside-contains}
use merk.Proofs.Query.Insert.Merge.{proper_le}
use merk.Proofs.Query.Insert.Order.{insert_new-IsQuery}
use merk.Proofs.Query.Item.{
  QueryItem, lower_bound, upper_bound, contains, compare_bounds, cmp_item, IsProper,
}
use merk.Proofs.Query.Item.Inside.{Inside, contains-Inside}

-- an item that a key collides with contains the key
collides-contains :
    (j : Bytes) (y : QueryItem)
    → IsProper y
    → cmp_item (QueryItem.key j) y ≡ Ordering.eq
    → contains y j ≡ true
unfolding cmp_item
collides-contains j y p e =
    Inside-contains y j
      (by_cmp (cmp j (upper_bound y).0) (cmp j (lower_bound y)) (upper_bound y).1 refl refl refl e)
  where
    by_cmp :
        (o q : Ordering) (closed : Bool)
        → cmp j (upper_bound y).0 ≡ o
        → cmp j (lower_bound y) ≡ q
        → (upper_bound y).1 ≡ closed
        → compare_bounds o q true closed ≡ Ordering.eq
        → Inside y j
    by_cmp Ordering.lt Ordering.lt closed eo eq ec e = cc
    by_cmp Ordering.lt Ordering.eq closed eo eq ec e = record {
      above = rw (← eq_of_cmp j (lower_bound y) eq) (le_bytes_refl j);
      below = inl eo;
    }
    by_cmp Ordering.lt Ordering.gt closed eo eq ec e = record {
      above = le_bytes-true (lower_bound y) j (lt_of_gt j (lower_bound y) eq);
      below = inl eo;
    }
    by_cmp Ordering.eq q true eo eq ec e =
        let same = eq_of_cmp j (upper_bound y).0 eo in
        record { above = rw same (proper_le y p); below = inr (same, ec) }
    by_cmp Ordering.eq q false eo eq ec e = cc
    by_cmp Ordering.gt q closed eo eq ec e = cc

-- a key contains itself only
contains-key : (j k : Bytes) → contains (QueryItem.key j) k ≡ true → k ≡ j
contains-key j k e = elim (contains-Inside (QueryItem.key j) k e).below [
  | inr s ↦ s.0
  | inl l ↦
      let above = (contains-Inside (QueryItem.key j) k e).above in
      absurd (ground (arith, lt_bytes_false l))
]
  where
    lt_bytes_false : k ≺ j → le_bytes j k ≡ false
    lt_bytes_false l = le_bytes-false k j l

absorb : (a b c : Bool) → (a ≡ true → b ≡ true) → (b || c) ≡ (a || (b || c))
absorb true true c h = refl
absorb true false c h = let no = h refl in cc
absorb false b c h = refl

insert_new-key :
    (j : Bytes) (items : List QueryItem) (k : Bytes)
    → IsQuery items
    → covers k (insert_new (QueryItem.key j) items)
      ≡ (contains (QueryItem.key j) k || covers k items)
unfolding insert_new
insert_new-key j [] k q = refl
insert_new-key j (y ∷ items) k q =
    by_cmp (cmp_item (QueryItem.key j) y) refl (insert_new-key j items k q.2)
  where
    by_cmp :
        (o : Ordering)
        → cmp_item (QueryItem.key j) y ≡ o
        → covers k (insert_new (QueryItem.key j) items)
          ≡ (contains (QueryItem.key j) k || covers k items)
        → covers k (elim o [
          | Ordering.lt ↦ QueryItem.key j ∷ y ∷ items
          | Ordering.eq ↦ y ∷ items
          | Ordering.gt ↦ y ∷ insert_new (QueryItem.key j) items
        ])
          ≡ (contains (QueryItem.key j) k || (contains y k || covers k items))
    by_cmp Ordering.lt e ih = refl
    by_cmp Ordering.eq e ih =
        absorb (contains (QueryItem.key j) k) (contains y k) (covers k items) (λ h.
          subst (λ x. contains y x ≡ true) (sym (contains-key j k h)) (collides-contains j y q.0 e))
    by_cmp Ordering.gt e ih =
        ap (λ c. contains y k || c) ih
        ∙ or_swap (contains y k) (contains (QueryItem.key j) k) (covers k items)

-- Into a query of proper items in order, `insert_key` inserts a key: the items are proper and in
-- order again, and they cover that key and what was covered before.
pub insert_key-covers :
    (items : List QueryItem) (key k : Bytes)
    → IsQuery items
    → IsQuery (insert_key items key)
      × (covers k (insert_key items key) ≡ (contains (QueryItem.key key) k || covers k items))
unfolding insert_key
insert_key-covers items key k q =
    (insert_new-IsQuery (QueryItem.key key) items tt q, insert_new-key key items k q)
