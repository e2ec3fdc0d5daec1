-- ===== src/Proofs/Query/Insert/Covers.antt =====
-- What a query covers after an insertion: what it covered before, and the item.
use mathlib.Core.Path.{subst}
use Prim.Native.Nat.{Ordering}
use merk.Prelude.{
  ℕ, zero, suc, ◌<◌, ◌≡◌, refl, sym, ap, ◌∙◌, Bool, true, false, ◌||◌, List, [], ◌∷◌, Option, none,
  some, length, arith,
}
use merk.Bytes.{Bytes}
use merk.Outcome.{Result, ok}
use merk.Proofs.Query.Create.Split.{IsQuery}
use merk.Proofs.Query.Insert.{
  put_back, take_at, take_item, insert_new, merge, merge_all, insert_item,
}
use merk.Proofs.Query.Insert.Merge.{merge-contains, merge-IsProper}
use merk.Proofs.Query.Insert.Order.{Later, insert_new-IsQuery}
use merk.Proofs.Query.Item.{QueryItem, contains, cmp_item, IsProper}

-- some item contains the key
abbrev pub covers : Bytes → List QueryItem → Bool
covers k [] = false
covers k (item ∷ items) = contains item k || covers k items

pub or_swap : (a b c : Bool) → (a || (b || c)) ≡ (b || (a || c))
or_swap true true c = refl
or_swap true false c = refl
or_swap false true c = refl
or_swap false false c = refl

or_assoc : (a b c : Bool) → ((a || b) || c) ≡ (a || (b || c))
or_assoc true b c = refl
or_assoc false b c = refl

-- an item that was taken out of a query, and what is left
record Taken (item : QueryItem) (items : List QueryItem) (x : QueryItem) (rest : List QueryItem)
    : Type 0 where
  collides : cmp_item item x ≡ Ordering.eq
  proper : IsProper x
  query : IsQuery rest
  later : (a : QueryItem) → Later a items → Later a rest
  shorter : length items ≡ suc (length rest)
  same : (k : Bytes) → covers k items ≡ (contains x k || covers k rest)

take_item-Taken :
    (item : QueryItem) (items : List QueryItem) (x : QueryItem) (rest : List QueryItem)
    → IsQuery items
    → take_item item items ≡ some (x, rest)
    → Taken item items x rest
unfolding take_item
take_item-Taken item [] x rest q e = cc
take_item-Taken item (y ∷ items) x rest q e =
    by_cmp (cmp_item item y) refl (take_item item items)
      (λ x rest. take_item-Taken item items x rest q.2) e
  where
    kept :
        (r : Option (QueryItem × List QueryItem))
        → ((x : QueryItem) (rest : List QueryItem) → r ≡ some (x, rest) → Taken item items x rest)
        → put_back y r ≡ some (x, rest)
        → Taken item (y ∷ items) x rest
    kept none ih e = cc
    kept (some (x', rest')) ih e =
        let t = ih x' rest' refl in
        let same_item : x' ≡ x = cc in
        let same_rest : y ∷ rest' ≡ rest = cc in
        subst (λ r. Taken item (y ∷ items) x r) same_rest
          (subst (λ z. Taken item (y ∷ items) z (y ∷ rest')) same_item
            (record {
              collides = t.collides;
              proper = t.proper;
              query = (q.0, t.later y q.1, t.query);
              later = λ a h. (h.0, t.later a h.1);
              shorter = ap (λ n. suc n) t.shorter;
              same = λ k.
                  ap (λ c. contains y k || c) (t.same k)
                  ∙ or_swap (contains y k) (contains x' k) (covers k rest');
            }))

    by_cmp :
        (o : Ordering)
        → cmp_item item y ≡ o
        → (r : Option (QueryItem × List QueryItem))
        → ((x : QueryItem) (rest : List QueryItem) → r ≡ some (x, rest) → Taken item items x rest)
        → take_at o y items r ≡ some (x, rest)
        → Taken item (y ∷ items) x rest
    by_cmp Ordering.lt o r ih e = cc
    by_cmp Ordering.eq o r ih e =
        let same_item : y ≡ x = cc in
        let same_rest : items ≡ rest = cc in
        subst (λ r. Taken item (y ∷ items) x r) same_rest
          (subst (λ z. Taken item (y ∷ items) z items) same_item
            (record {
              collides = o;
              proper = q.0;
              query = q.2;
              later = λ a h. h.1;
              shorter = refl;
              same = λ k. refl;
            }))
    by_cmp Ordering.gt o r ih e = kept r ih e

-- a query that nothing collides with is inserted into as a list is
insert_new-covers :
    (item : QueryItem) (items : List QueryItem) (k : Bytes)
    → take_item item items ≡ none
    → covers k (insert_new item items) ≡ (contains item k || covers k items)
unfolding take_item insert_new
insert_new-covers item [] k e = refl
insert_new-covers item (y ∷ items) k e =
    by_cmp (cmp_item item y) (take_item item items) (insert_new-covers item items k) e
  where
    nothing : (r : Option (QueryItem × List QueryItem)) → put_back y r ≡ none → r ≡ none
    nothing none e = refl
    nothing (some r) e = cc

    by_cmp :
        (o : Ordering) (r : Option (QueryItem × List QueryItem))
        → (r ≡ none → covers k (insert_new item items) ≡ (contains item k || covers k items))
        → take_at o y items r ≡ none
        → covers k (elim o [
          | Ordering.lt ↦ item ∷ y ∷ items
          | Ordering.eq ↦ y ∷ items
          | Ordering.gt ↦ y ∷ insert_new item items
        ])
          ≡ (contains item k || (contains y k || covers k items))
    by_cmp Ordering.lt r ih e = refl
    by_cmp Ordering.eq r ih e = cc
    by_cmp Ordering.gt r ih e =
        ap (λ c. contains y k || c) (ih (nothing r e))
        ∙ or_swap (contains y k) (contains item k) (covers k items)

-- what the loop ends with
record Merged (item : QueryItem) (items : List QueryItem) (r : Result (QueryItem × List QueryItem))
    : Type 0 where
  merged : QueryItem
  rest : List QueryItem
  made : r ≡ ok (merged, rest)
  proper : IsProper merged
  query : IsQuery rest
  free : take_item merged rest ≡ none
  same : (k : Bytes) → (contains merged k || covers k rest) ≡ (contains item k || covers k items)

merge_all-Merged :
    (fuel : ℕ) (item : QueryItem) (items : List QueryItem)
    → length items < fuel
    → IsProper item
    → IsQuery items
    → Merged item items (merge_all fuel item items)
unfolding merge_all
merge_all-Merged zero item items b p q = absurd (omega arith)
merge_all-Merged (suc fuel) item items b p q =
    by_taken (take_item item items) refl (λ item' rest. merge_all-Merged fuel item' rest)
  where
    by_taken :
        (r : Option (QueryItem × List QueryItem))
        → take_item item items ≡ r
        → ((item' : QueryItem) (rest : List QueryItem)
            → length rest < fuel
            → IsProper item'
            → IsQuery rest
            → Merged item' rest (merge_all fuel item' rest))
        → Merged item items (elim r [
          | none ↦ ok (item, items)
          | some (existing, rest) ↦ merge_all fuel (merge item existing) rest
        ])
    by_taken none e ih = record {
      merged = item;
      rest = items;
      made = refl;
      proper = p;
      query = q;
      free = e;
      same = λ k. refl;
    }
    by_taken (some (x, rest)) e ih =
        let t = take_item-Taken item items x rest q e in
        let n = t.shorter in
        let m = ih (merge item x) rest (omega arith) (merge-IsProper item x p) t.query in
        record {
          merged = m.merged;
          rest = m.rest;
          made = m.made;
          proper = m.proper;
          query = m.query;
          free = m.free;
          same = λ k.
              m.same k
              ∙ ap (λ c. c || covers k rest) (merge-contains item x k p t.proper t.collides)
              ∙ or_assoc (contains item k) (contains x k) (covers k rest)
              ∙ ap (λ c. contains item k || c) (sym (t.same k));
        }

-- Into a query of proper items in order, `insert_item` inserts any proper item: its loop ends
-- within as many rounds as there are items, and one; the items are proper and in order again; and
-- they cover a key if the item contains it or it was covered before.
pub insert_item-covers :
    (items : List QueryItem) (item : QueryItem) (k : Bytes)
    → IsQuery items
    → IsProper item
    → (items' : List QueryItem) × (insert_item items item ≡ ok items')
      × IsQuery items'
      × (covers k items' ≡ (contains item k || covers k items))
unfolding insert_item
insert_item-covers items item k q p =
    let m = merge_all-Merged (suc (length items)) item items (omega arith) p q in
    (
      insert_new m.merged m.rest,
      rw (m.made) refl,
      insert_new-IsQuery m.merged m.rest m.proper m.query,
      insert_new-covers m.merged m.rest k m.free ∙ m.same k,
    )
