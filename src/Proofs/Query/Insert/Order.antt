-- ===== src/Proofs/Query/Insert/Order.antt =====
-- The order of proper items: an item is less than another that begins after it ends.
use mathlib.Core.Path.{subst}
use Prim.Native.Nat.{Ordering}
use merk.Prelude.{◌≡◌, refl, sym, ◌⊎◌, inl, inr, Bool, true, false, List, [], ◌∷◌, All}
use merk.Bytes.{cmp, le_bytes}
use merk.Bytes.Order.{◌≺◌, eq_of_cmp, lt_of_gt, cmp_refl, le_bytes-true, le_bytes_refl}
use merk.Proofs.Query.Create.Split.{IsQuery}
use merk.Proofs.Query.Insert.{insert_new}
use merk.Proofs.Query.Insert.Bounds.{lt_of_lt_le}
use merk.Proofs.Query.Insert.Merge.{proper_le}
use merk.Proofs.Query.Item.{QueryItem, lower_bound, upper_bound, compare_bounds, cmp_item, IsProper}
use merk.Proofs.Query.Item.Inside.{lt_of_le_lt}

abbrev Before : QueryItem → QueryItem → Type 0
Before a b =
    ((upper_bound a).0 ≺ lower_bound b)
    ⊎ (((upper_bound a).0 ≡ lower_bound b) × ((upper_bound a).1 ≡ false))

lt-Before : (a b : QueryItem) → cmp_item a b ≡ Ordering.lt → Before a b
unfolding cmp_item
lt-Before a b e =
    by_cmp (cmp (lower_bound a) (upper_bound b).0) (cmp (upper_bound a).0 (lower_bound b))
      (upper_bound a).1 (upper_bound b).1 refl refl e
  where
    by_cmp :
        (o p : Ordering) (x y : Bool)
        → cmp (upper_bound a).0 (lower_bound b) ≡ p
        → (upper_bound a).1 ≡ x
        → compare_bounds o p x y ≡ Ordering.lt
        → Before a b
    by_cmp Ordering.lt Ordering.lt x y ep ex e = inl ep
    by_cmp Ordering.lt Ordering.eq true y ep ex e = cc
    by_cmp Ordering.lt Ordering.eq false y ep ex e =
        inr (eq_of_cmp (upper_bound a).0 (lower_bound b) ep, ex)
    by_cmp Ordering.lt Ordering.gt x y ep ex e = cc
    by_cmp Ordering.eq p x true ep ex e = cc
    by_cmp Ordering.eq p x false ep ex e = cc
    by_cmp Ordering.gt p x y ep ex e = cc

gt-Before : (a b : QueryItem) → cmp_item a b ≡ Ordering.gt → Before b a
unfolding cmp_item
gt-Before a b e =
    by_cmp (cmp (lower_bound a) (upper_bound b).0) (cmp (upper_bound a).0 (lower_bound b))
      (upper_bound a).1 (upper_bound b).1 refl refl e
  where
    by_cmp :
        (o p : Ordering) (x y : Bool)
        → cmp (lower_bound a) (upper_bound b).0 ≡ o
        → (upper_bound b).1 ≡ y
        → compare_bounds o p x y ≡ Ordering.gt
        → Before b a
    by_cmp Ordering.lt Ordering.lt x y eo ey e = cc
    by_cmp Ordering.lt Ordering.eq true y eo ey e = cc
    by_cmp Ordering.lt Ordering.eq false y eo ey e = cc
    by_cmp Ordering.lt Ordering.gt x y eo ey e = cc
    by_cmp Ordering.eq p x true eo ey e = cc
    by_cmp Ordering.eq p x false eo ey e =
        inr (sym (eq_of_cmp (lower_bound a) (upper_bound b).0 eo), ey)
    by_cmp Ordering.gt p x y eo ey e = inl (lt_of_gt (lower_bound a) (upper_bound b).0 eo)

-- an item whose end is not included starts before its end
proper_lt :
    (a : QueryItem) → IsProper a → (upper_bound a).1 ≡ false → lower_bound a ≺ (upper_bound a).0
proper_lt (QueryItem.key k) p e = cc
proper_lt (QueryItem.range s t) p e = p
proper_lt (QueryItem.range_inclusive s t) p e = cc

Before-lt : (a b : QueryItem) → IsProper a → IsProper b → Before a b → cmp_item a b ≡ Ordering.lt
unfolding cmp_item
Before-lt a b pa pb (inl h) =
    let starts : lower_bound a ≺ (upper_bound b).0 =
      lt_of_lt_le (lower_bound a) (lower_bound b) (upper_bound b).0
        (lt_of_le_lt (lower_bound a) (upper_bound a).0 (lower_bound b) (proper_le a pa) h)
        (proper_le b pb) in
    rw (starts, h) refl
Before-lt a b pa pb (inr h) =
    let meets : cmp (upper_bound a).0 (lower_bound b) ≡ Ordering.eq =
      subst (λ k. cmp (upper_bound a).0 k ≡ Ordering.eq) h.0 (cmp_refl (upper_bound a).0) in
    let starts : lower_bound a ≺ (upper_bound b).0 =
      lt_of_lt_le (lower_bound a) (lower_bound b) (upper_bound b).0
        (subst (λ k. lower_bound a ≺ k) h.0 (proper_lt a pa h.1)) (proper_le b pb) in
    rw (starts, meets, h.1) refl

Before-le : (a b : QueryItem) → Before a b → le_bytes (upper_bound a).0 (lower_bound b) ≡ true
Before-le a b (inl h) = le_bytes-true (upper_bound a).0 (lower_bound b) h
Before-le a b (inr h) = rw (h.0) (le_bytes_refl (lower_bound b))

Before-trans : (a b c : QueryItem) → IsProper b → Before a b → Before b c → Before a c
Before-trans a b c pb h (inl l) = inl (
    lt_of_le_lt _ (lower_bound b) (lower_bound c) (Before-le a b h)
      (lt_of_le_lt (lower_bound b) (upper_bound b).0 (lower_bound c) (proper_le b pb) l))
Before-trans a b c pb h (inr m) = inl (
    lt_of_le_lt _ (lower_bound b) (lower_bound c) (Before-le a b h)
      (subst (λ k. lower_bound b ≺ k) m.0 (proper_lt b pb m.1)))

lt_trans_item :
    (a b c : QueryItem)
    → IsProper a
    → IsProper b
    → IsProper c
    → cmp_item a b ≡ Ordering.lt
    → cmp_item b c ≡ Ordering.lt
    → cmp_item a c ≡ Ordering.lt
lt_trans_item a b c pa pb pc h h' =
    Before-lt a c pa pc (Before-trans a b c pb (lt-Before a b h) (lt-Before b c h'))

-- every item is greater than `a`
abbrev pub Later : QueryItem → List QueryItem → Type 0
Later a items = All (λ b. cmp_item a b ≡ Ordering.lt) items

Later-trans :
    (a b : QueryItem) (items : List QueryItem)
    → IsProper a
    → IsProper b
    → IsQuery items
    → cmp_item a b ≡ Ordering.lt
    → Later b items
    → Later a items
Later-trans a b [] pa pb q h hs = tt
Later-trans a b (c ∷ items) pa pb q h hs =
    (lt_trans_item a b c pa pb q.0 h hs.0, Later-trans a b items pa pb q.2 h hs.1)

insert_new-All :
    (P : QueryItem → Type 0) (item : QueryItem) (items : List QueryItem)
    → P item
    → All P items
    → All P (insert_new item items)
unfolding insert_new
insert_new-All P item [] p ps = (p, tt)
insert_new-All P item (x ∷ items) p ps =
    by_cmp (cmp_item item x) (insert_new-All P item items p ps.1)
  where
    by_cmp :
        (o : Ordering)
        → All P (insert_new item items)
        → All P (elim o [
          | Ordering.lt ↦ item ∷ x ∷ items
          | Ordering.eq ↦ x ∷ items
          | Ordering.gt ↦ x ∷ insert_new item items
        ])
    by_cmp Ordering.lt later = (p, ps)
    by_cmp Ordering.eq later = ps
    by_cmp Ordering.gt later = (ps.0, later)

-- A proper item is inserted where the order says.
pub insert_new-IsQuery :
    (item : QueryItem) (items : List QueryItem)
    → IsProper item
    → IsQuery items
    → IsQuery (insert_new item items)
unfolding insert_new
insert_new-IsQuery item [] p q = (p, tt, tt)
insert_new-IsQuery item (x ∷ items) p q =
    by_cmp (cmp_item item x) refl (insert_new-IsQuery item items p q.2)
  where
    by_cmp :
        (o : Ordering)
        → cmp_item item x ≡ o
        → IsQuery (insert_new item items)
        → IsQuery (elim o [
          | Ordering.lt ↦ item ∷ x ∷ items
          | Ordering.eq ↦ x ∷ items
          | Ordering.gt ↦ x ∷ insert_new item items
        ])
    by_cmp Ordering.lt e later = (p, (e, Later-trans item x items p q.0 q.2 e q.1), q)
    by_cmp Ordering.eq e later = q
    by_cmp Ordering.gt e later =
        let before = Before-lt x item q.0 p (gt-Before item x e) in
        (q.0, insert_new-All (λ b. cmp_item x b ≡ Ordering.lt) item items before q.1, later)
