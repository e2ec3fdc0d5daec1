-- ===== src/Proofs/Query/Insert/Bounds.antt =====
-- The bounds of a merged item: the smaller lower bound and the greater upper bound.
use Prim.Native.Nat.{Ordering}
use mathlib.Core.Path.{subst}
use merk.Prelude.{
  ◌≡◌, refl, sym, ◌⊎◌, inl, inr, Bool, true, false, ◌&&◌, ◌||◌, Bool-cases, not, arith,
  if◌then◌else◌,
}
use merk.Bytes.{Bytes, cmp, lt_bytes, le_bytes, eq_bytes}
use merk.Bytes.Order.{
  ◌≺◌, lt_trans, eq_of_cmp, lt_of_gt, le_bytes_refl, le_bytes-true, lt_bytes-true, eq_bytes_refl,
  lt_of_not_le_bytes,
}
use merk.Proofs.Query.Insert.{min_bytes, max_bound}
use merk.Proofs.Query.Item.{QueryItem, upper_bound, contains}
use merk.Proofs.Query.Item.Inside.{Inside, lt_of_le_lt}

-- the key is not beyond the bound
abbrev pub AtMost : Bytes → Bytes × Bool → Type 0
AtMost k p = (k ≺ p.0) ⊎ ((k ≡ p.0) × (p.1 ≡ true))

pub Inside-contains : (item : QueryItem) (k : Bytes) → Inside item k → contains item k ≡ true
Inside-contains item k i = rw i.above (at_most (upper_bound item) i.below)
  where
    or_true : (b : Bool) → (b || true) ≡ true
    or_true true = refl
    or_true false = refl

    at_most : (p : Bytes × Bool) → AtMost k p → (lt_bytes k p.0 || (eq_bytes k p.0 && p.1)) ≡ true
    at_most p (inl h) = rw (lt_bytes-true k p.0 h) refl
    at_most p (inr h) = rw (← h.0, h.1, eq_bytes_refl k) (or_true (lt_bytes k k))

pub le_trans : (a b c : Bytes) → le_bytes a b ≡ true → le_bytes b c ≡ true → le_bytes a c ≡ true
le_trans a b c h h' = by_cmp (cmp b c) refl
  where
    by_cmp : (o : Ordering) → cmp b c ≡ o → le_bytes a c ≡ true
    by_cmp Ordering.lt e = le_bytes-true a c (lt_of_le_lt a b c h e)
    by_cmp Ordering.eq e = rw (← eq_of_cmp b c e) h
    by_cmp Ordering.gt e = absurd (ground arith)

pub lt_of_lt_le : (a b c : Bytes) → a ≺ b → le_bytes b c ≡ true → a ≺ c
lt_of_lt_le a b c h h' = by_cmp (cmp b c) refl
  where
    by_cmp : (o : Ordering) → cmp b c ≡ o → a ≺ c
    by_cmp Ordering.lt e = lt_trans a b c h e
    by_cmp Ordering.eq e = rw (← eq_of_cmp b c e) h
    by_cmp Ordering.gt e = absurd (ground arith)

pub AtMost-le : (k : Bytes) (p : Bytes × Bool) → AtMost k p → le_bytes k p.0 ≡ true
AtMost-le k p (inl h) = le_bytes-true k p.0 h
AtMost-le k p (inr h) = rw (← h.0) (le_bytes_refl k)

-- the smaller lower bound
pub min_le :
    (a b : Bytes) → (le_bytes (min_bytes a b) a ≡ true) × (le_bytes (min_bytes a b) b ≡ true)
min_le a b = elim (Bool-cases (le_bytes a b)) [
  | inl h ↦ rw h (le_bytes_refl a, h)
  | inr h ↦ rw h (le_bytes-true b a (lt_of_not_le_bytes a b h), le_bytes_refl b)
]

pub min_or :
    (a b k : Bytes)
    → le_bytes (min_bytes a b) k ≡ true
    → (le_bytes a k ≡ true) ⊎ (le_bytes b k ≡ true)
min_or a b k e = by_bool (le_bytes a b) e
  where
    by_bool :
        (c : Bool)
        → le_bytes (if c then a else b) k ≡ true
        → (le_bytes a k ≡ true) ⊎ (le_bytes b k ≡ true)
    by_bool true e = inl e
    by_bool false e = inr e

-- the greater upper bound
pub record IsMax (p q m : Bytes × Bool) : Type 0 where
  pub lefts : (k : Bytes) → AtMost k p → AtMost k m
  pub rights : (k : Bytes) → AtMost k q → AtMost k m
  pub either : (m ≡ p) ⊎ (m ≡ q)

-- below a bound that is not included
pub strict : (k b : Bytes) → AtMost k (b, false) → k ≺ b
strict k b (inl l) = l
strict k b (inr s) = cc

open_bound : (k b : Bytes) → AtMost k (b, false) → AtMost k (b, true)
open_bound k b h = inl (strict k b h)

pub max_bound-IsMax : (p q : Bytes × Bool) → IsMax p q (max_bound p q)
unfolding max_bound
max_bound-IsMax (a, x) (b, y) = by_cmp (cmp a b) refl x y
  where
    by_cmp :
        (o : Ordering)
        → cmp a b ≡ o
        → (x y : Bool)
        → IsMax
            (a, x)
            (b, y)
            (elim o [
              | Ordering.lt ↦ (b, y)
              | Ordering.eq ↦ if x && not y then (a, x) else (b, y)
              | Ordering.gt ↦ (a, x)
            ])
    by_cmp Ordering.lt e x y = record {
      lefts = λ k h. inl (elim h [ inl l ↦ lt_trans k a b l e | inr s ↦ rw (s.0) e ]);
      rights = λ k h. h;
      either = inr refl;
    }
    by_cmp Ordering.gt e x y = record {
      lefts = λ k h. h;
      rights = λ k h. inl (elim h [
        | inl l ↦ lt_trans k b a l (lt_of_gt a b e)
        | inr s ↦ rw (s.0) (lt_of_gt a b e)
      ]);
      either = inl refl;
    }
    by_cmp Ordering.eq e true true = record {
      lefts = λ k h. subst (λ c. AtMost k (c, true)) (eq_of_cmp a b e) h;
      rights = λ k h. h;
      either = inr refl;
    }
    by_cmp Ordering.eq e true false = record {
      lefts = λ k h. h;
      rights = λ k h. subst (λ c. AtMost k (c, true)) (sym (eq_of_cmp a b e)) (open_bound k b h);
      either = inl refl;
    }
    by_cmp Ordering.eq e false y = record {
      lefts = λ k h. inl (subst (λ c. k ≺ c) (eq_of_cmp a b e) (strict k a h));
      rights = λ k h. h;
      either = inr refl;
    }
