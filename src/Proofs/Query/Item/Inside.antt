-- ===== src/Proofs/Query/Item/Inside.antt =====
-- Keys that an item contains, against the comparison of items.
use Prim.Native.Nat.{Ordering}
use merk.Prelude.{◌≡◌, refl, ◌⊎◌, inl, inr, Bool, true, false, ◌&&◌, ◌||◌, arith, if◌then◌else◌}
use merk.Bytes.{Bytes, cmp, lt_bytes, le_bytes}
use merk.Bytes.Order.{◌≺◌, lt_trans, eq_of_cmp, le_bytes_refl, lt_of_lt_bytes, eq_of_eq_bytes}
use merk.Proofs.Query.Item.{
  QueryItem, lower_bound, upper_bound, contains, compare_bounds, cmp_item, IsProper,
  cmp_item-contains,
}

-- `a` is not above `b`
pub lt_of_le_lt : (a b c : Bytes) → le_bytes a b ≡ true → b ≺ c → a ≺ c
lt_of_le_lt a b c h l = by_cmp (cmp a b) refl
  where
    by_cmp : (o : Ordering) → cmp a b ≡ o → a ≺ c
    by_cmp Ordering.lt e = lt_trans a b c e l
    by_cmp Ordering.eq e = rw (eq_of_cmp a b e) l
    by_cmp Ordering.gt e = absurd (ground arith)

and_parts : (a b : Bool) → (a && b) ≡ true → (a ≡ true) × (b ≡ true)
and_parts true true e = (refl, refl)
and_parts true false e = cc
and_parts false b e = cc

pub or_parts : (a b : Bool) → (a || b) ≡ true → (a ≡ true) ⊎ (b ≡ true)
or_parts true b e = inl refl
or_parts false b e = inr e

-- a contained key is not below the lower bound, and not above the upper bound
pub record Inside (item : QueryItem) (k : Bytes) : Type 0 where
  pub above : le_bytes (lower_bound item) k ≡ true
  pub below :
      (k ≺ (upper_bound item).0) ⊎ ((k ≡ (upper_bound item).0) × ((upper_bound item).1 ≡ true))

pub contains-Inside : (item : QueryItem) (k : Bytes) → contains item k ≡ true → Inside item k
contains-Inside item k e =
    let (above, rest) = and_parts _ _ e in
    record {
      above = above;
      below = elim (or_parts _ _ rest) [
        | inl l ↦ inl (lt_of_lt_bytes k (upper_bound item).0 l)
        | inr r ↦
            let (same, closed) = and_parts _ _ r in
            inr (eq_of_eq_bytes k (upper_bound item).0 same, closed)
      ];
    }

-- an item that is less than another ends before the other begins
pub lt-before :
    (a b : QueryItem) (k : Bytes) → cmp_item a b ≡ Ordering.lt → Inside a k → k ≺ lower_bound b
unfolding cmp_item
lt-before a b k e i =
    by_cmp (cmp (lower_bound a) (upper_bound b).0) (cmp (upper_bound a).0 (lower_bound b))
      (upper_bound a).1 (upper_bound b).1 e refl i.below
  where
    by_cmp :
        (o p : Ordering) (x y : Bool)
        → compare_bounds o p x y ≡ Ordering.lt
        → cmp (upper_bound a).0 (lower_bound b) ≡ p
        → (k ≺ (upper_bound a).0) ⊎ ((k ≡ (upper_bound a).0) × (x ≡ true))
        → k ≺ lower_bound b
    by_cmp Ordering.lt Ordering.lt x y e l (inl h) =
        lt_trans k (upper_bound a).0 (lower_bound b) h l
    by_cmp Ordering.lt Ordering.lt x y e l (inr h) = rw h.0 l
    by_cmp Ordering.lt Ordering.eq x y e l (inl h) =
        rw (← eq_of_cmp (upper_bound a).0 (lower_bound b) l) h
    by_cmp Ordering.lt Ordering.eq true y e l (inr h) = cc
    by_cmp Ordering.lt Ordering.eq false y e l (inr h) = cc
    by_cmp Ordering.lt Ordering.gt x y e l h = cc
    by_cmp Ordering.eq p x true e l h = cc
    by_cmp Ordering.eq p x false e l h = cc
    by_cmp Ordering.gt p x y e l h = cc

-- an item that is greater than a key begins after it
pub gt-after :
    (a : QueryItem) (x : Bytes)
    → IsProper a
    → cmp_item a (QueryItem.key x) ≡ Ordering.gt
    → x ≺ lower_bound a
gt-after a x proper e =
    by_bool (contains a x) (lt_bytes x (lower_bound a)) refl (cc (cmp_item-contains a x proper))
  where
    by_bool :
        (c l : Bool)
        → lt_bytes x (lower_bound a) ≡ l
        → (if c then Ordering.eq else if l then Ordering.gt else Ordering.lt) ≡ Ordering.gt
        → x ≺ lower_bound a
    by_bool true l el e = cc
    by_bool false true el e = lt_of_lt_bytes x (lower_bound a) el
    by_bool false false el e = cc

pub eq-Inside :
    (a : QueryItem) (x : Bytes)
    → IsProper a
    → cmp_item a (QueryItem.key x) ≡ Ordering.eq
    → Inside a x
eq-Inside a x proper e =
    by_bool (contains a x) (lt_bytes x (lower_bound a)) refl (cc (cmp_item-contains a x proper))
  where
    by_bool :
        (c l : Bool)
        → contains a x ≡ c
        → (if c then Ordering.eq else if l then Ordering.gt else Ordering.lt) ≡ Ordering.eq
        → Inside a x
    by_bool true l el e = contains-Inside a x el
    by_bool false true el e = cc
    by_bool false false el e = cc

pub proper-Inside : (a : QueryItem) → IsProper a → Inside a (lower_bound a)
proper-Inside (QueryItem.key k) p = record { above = le_bytes_refl k; below = inr (refl, refl) }
proper-Inside (QueryItem.range s e) p = record { above = le_bytes_refl s; below = inl p }
proper-Inside (QueryItem.range_inclusive s e) p = record {
  above = le_bytes_refl s;
  below = by_cmp (cmp s e) refl;
}
  where
    by_cmp : (o : Ordering) → cmp s e ≡ o → (s ≺ e) ⊎ ((s ≡ e) × (true ≡ true))
    by_cmp Ordering.lt l = inl l
    by_cmp Ordering.eq l = inr (eq_of_cmp s e l, refl)
    by_cmp Ordering.gt l = absurd (ground arith)
