-- ===== src/Proofs/Query/Insert/Merge.antt =====
-- Merging two items that collide: the keys of both, and no others.
use Prim.Native.Nat.{Ordering}
use mathlib.Core.Path.{subst}
use merk.Prelude.{◌≡◌, refl, sym, ◌⊎◌, inl, inr, Bool, true, false, ◌||◌}
use merk.Bytes.{Bytes, cmp, le_bytes}
use merk.Bytes.Order.{eq_of_cmp, lt_of_gt, le_bytes_refl, le_bytes-true, lt_of_not_le_bytes}
use merk.Proofs.Query.Create.Answers.{or_left, or_right}
use merk.Proofs.Query.Insert.{min_bytes, max_bound, item_to, merge}
use merk.Proofs.Query.Item.{
  QueryItem, lower_bound, upper_bound, contains, compare_bounds, cmp_item, IsProper,
}
use merk.Proofs.Query.Item.Inside.{Inside, contains-Inside, proper-Inside, or_parts, lt_of_le_lt}
use merk.Proofs.Query.Insert.Bounds.{
  AtMost, Inside-contains, le_trans, lt_of_lt_le, AtMost-le, min_le, min_or, strict,
  max_bound-IsMax,
}

-- the bounds of a merged item
item_to-bounds :
    (start : Bytes) (end : Bytes × Bool)
    → (lower_bound (item_to start end) ≡ start) × (upper_bound (item_to start end) ≡ end)
item_to-bounds start (end, true) = (refl, refl)
item_to-bounds start (end, false) = (refl, refl)

merge-bounds :
    (a b : QueryItem)
    → (lower_bound (merge a b) ≡ min_bytes (lower_bound a) (lower_bound b))
      × (upper_bound (merge a b) ≡ max_bound (upper_bound a) (upper_bound b))
unfolding merge
merge-bounds a b = item_to-bounds _ _

-- the end of a proper item is not below its start
pub proper_le : (a : QueryItem) → IsProper a → le_bytes (lower_bound a) (upper_bound a).0 ≡ true
proper_le a p = AtMost-le (lower_bound a) (upper_bound a) (proper-Inside a p).below

-- Items that collide touch: each begins before the other ends.
record Touch (a b : QueryItem) : Type 0 where
  left : le_bytes (lower_bound a) (upper_bound b).0 ≡ true
  right : le_bytes (lower_bound b) (upper_bound a).0 ≡ true

eq-Touch : (a b : QueryItem) → IsProper a → IsProper b → cmp_item a b ≡ Ordering.eq → Touch a b
unfolding cmp_item
eq-Touch a b pa pb e =
    by_cmp (cmp (lower_bound a) (upper_bound b).0) (cmp (upper_bound a).0 (lower_bound b))
      (upper_bound a).1 (upper_bound b).1 refl refl e
  where
    by_cmp :
        (o p : Ordering) (x y : Bool)
        → cmp (lower_bound a) (upper_bound b).0 ≡ o
        → cmp (upper_bound a).0 (lower_bound b) ≡ p
        → compare_bounds o p x y ≡ Ordering.eq
        → Touch a b
    by_cmp Ordering.lt Ordering.lt x y eo ep e = cc
    by_cmp Ordering.lt Ordering.eq x y eo ep e = record {
      left = le_bytes-true (lower_bound a) (upper_bound b).0 eo;
      right = rw (eq_of_cmp (upper_bound a).0 (lower_bound b) ep) (le_bytes_refl (lower_bound b));
    }
    by_cmp Ordering.lt Ordering.gt x y eo ep e = record {
      left = le_bytes-true (lower_bound a) (upper_bound b).0 eo;
      right =
          le_bytes-true (lower_bound b) (upper_bound a).0
            (lt_of_gt (upper_bound a).0 (lower_bound b) ep);
    }
    by_cmp Ordering.eq p x y eo ep e =
        let same = eq_of_cmp (lower_bound a) (upper_bound b).0 eo in
        record {
          left = rw same (le_bytes_refl (upper_bound b).0);
          right =
              le_trans (lower_bound b) (lower_bound a) (upper_bound a).0
                (subst (λ k. le_bytes (lower_bound b) k ≡ true) (sym same) (proper_le b pb))
                (proper_le a pa);
        }
    by_cmp Ordering.gt p x y eo ep e = cc

module _ (a b : QueryItem) (k : Bytes) where
  merge-left : Inside a k → Inside (merge a b) k
  merge-left i =
      let (l, u) = merge-bounds a b in
      let m = max_bound-IsMax (upper_bound a) (upper_bound b) in
      record {
        above =
            le_trans _ (lower_bound a) k
              (subst (λ x. le_bytes x (lower_bound a) ≡ true) (sym l)
                (min_le (lower_bound a) (lower_bound b)).0)
              i.above;
        below = subst (AtMost k) (sym u) (m.lefts k i.below);
      }

  merge-right : Inside b k → Inside (merge a b) k
  merge-right i =
      let (l, u) = merge-bounds a b in
      let m = max_bound-IsMax (upper_bound a) (upper_bound b) in
      record {
        above =
            le_trans _ (lower_bound b) k
              (subst (λ x. le_bytes x (lower_bound b) ≡ true) (sym l)
                (min_le (lower_bound a) (lower_bound b)).1)
              i.above;
        below = subst (AtMost k) (sym u) (m.rights k i.below);
      }

  merge-either : Touch a b → Inside (merge a b) k → Inside a k ⊎ Inside b k
  merge-either t i =
      let (l, u) = merge-bounds a b in
      let m = max_bound-IsMax (upper_bound a) (upper_bound b) in
      let above =
        min_or (lower_bound a) (lower_bound b) k (subst (λ x. le_bytes x k ≡ true) l i.above) in
      let below = subst (AtMost k) u i.below in
      elim m.either [
        | inl e ↦ in_first (le_bytes (lower_bound a) k) refl above (subst (AtMost k) e below)
        | inr e ↦ in_second (le_bytes (lower_bound b) k) refl above (subst (AtMost k) e below)
      ]
    where
      in_first :
          (c : Bool)
          → le_bytes (lower_bound a) k ≡ c
          → (le_bytes (lower_bound a) k ≡ true) ⊎ (le_bytes (lower_bound b) k ≡ true)
          → AtMost k (upper_bound a)
          → Inside a k ⊎ Inside b k
      in_first true e above below = inl (record { above = e; below = below })
      in_first false e (inl h) below = cc
      in_first false e (inr h) below = inr (record {
        above = h;
        below = inl (
            lt_of_lt_le k (lower_bound a) (upper_bound b).0 (lt_of_not_le_bytes (lower_bound a) k e)
              t.left);
      })

      in_second :
          (c : Bool)
          → le_bytes (lower_bound b) k ≡ c
          → (le_bytes (lower_bound a) k ≡ true) ⊎ (le_bytes (lower_bound b) k ≡ true)
          → AtMost k (upper_bound b)
          → Inside a k ⊎ Inside b k
      in_second true e above below = inr (record { above = e; below = below })
      in_second false e (inr h) below = cc
      in_second false e (inl h) below = inl (record {
        above = h;
        below = inl (
            lt_of_lt_le k (lower_bound b) (upper_bound a).0 (lt_of_not_le_bytes (lower_bound b) k e)
              t.right);
      })

same_truth : (x y : Bool) → (x ≡ true → y ≡ true) → (y ≡ true → x ≡ true) → x ≡ y
same_truth true y f g = sym (f refl)
same_truth false true f g = g refl
same_truth false false f g = refl

-- Two proper items that collide merge to an item that contains a key if one of the two does.
pub merge-contains :
    (a b : QueryItem) (k : Bytes)
    → IsProper a
    → IsProper b
    → cmp_item a b ≡ Ordering.eq
    → contains (merge a b) k ≡ (contains a k || contains b k)
merge-contains a b k pa pb e =
    same_truth _ _
      (λ h. elim (merge-either a b k (eq-Touch a b pa pb e) (contains-Inside (merge a b) k h)) [
        | inl i ↦ or_left _ _ (Inside-contains a k i)
        | inr i ↦ or_right _ _ (Inside-contains b k i)
      ])
      (λ h. Inside-contains (merge a b) k (elim (or_parts _ _ h) [
        | inl i ↦ merge-left a b k (contains-Inside a k i)
        | inr i ↦ merge-right a b k (contains-Inside b k i)
      ]))

-- and the merged item is proper
pub merge-IsProper : (a b : QueryItem) → IsProper a → IsProper (merge a b)
merge-IsProper a b p =
    from_inside (merge a b) (lower_bound a) (merge-left a b (lower_bound a) (proper-Inside a p))
  where
    from_inside : (c : QueryItem) (k : Bytes) → Inside c k → IsProper c
    from_inside (QueryItem.key j) k i = tt
    from_inside (QueryItem.range s e) k i = lt_of_le_lt s k e i.above (strict k e i.below)
    from_inside (QueryItem.range_inclusive s e) k i =
        le_trans s k e i.above (AtMost-le k (e, true) i.below)
