-- ===== src/Bytes/Order.antt =====
-- The comparison of byte strings is a total order.
use Prim.Native.Nat.{Ordering}
use merk.Prelude.{◌≡◌, refl, ◌⊎◌, inl, inr, ◌≢◌, true, false, [], ◌∷◌, arith}
use merk.Bytes.{Bytes, cmp, lt_bytes, le_bytes, eq_bytes}

infix 50 ◌≺◌
abbrev pub ◌≺◌ : Bytes → Bytes → Type 0
a ≺ b = cmp a b ≡ Ordering.lt

pub cmp_refl : (a : Bytes) → cmp a a ≡ Ordering.eq
unfolding cmp
cmp_refl [] = refl
cmp_refl (x ∷ a) = ground (arith, cmp_refl a)

pub eq_of_cmp : (a b : Bytes) → cmp a b ≡ Ordering.eq → a ≡ b
unfolding cmp
eq_of_cmp [] [] h = refl
eq_of_cmp [] (y ∷ b) h = cc
eq_of_cmp (x ∷ a) [] h = cc
eq_of_cmp (x ∷ a) (y ∷ b) h = ground (arith, eq_of_cmp a b)

pub lt_of_gt : (a b : Bytes) → cmp a b ≡ Ordering.gt → b ≺ a
unfolding cmp
lt_of_gt [] [] h = cc
lt_of_gt [] (y ∷ b) h = cc
lt_of_gt (x ∷ a) [] h = refl
lt_of_gt (x ∷ a) (y ∷ b) h = ground (arith, lt_of_gt a b)

pub gt_of_lt : (a b : Bytes) → a ≺ b → cmp b a ≡ Ordering.gt
unfolding cmp
gt_of_lt [] [] h = cc
gt_of_lt [] (y ∷ b) h = refl
gt_of_lt (x ∷ a) [] h = cc
gt_of_lt (x ∷ a) (y ∷ b) h = ground (arith, gt_of_lt a b)

pub lt_trans : (a b c : Bytes) → a ≺ b → b ≺ c → a ≺ c
unfolding cmp
lt_trans [] [] [] h k = h
lt_trans [] (y ∷ b) [] h k = cc
lt_trans [] b (z ∷ c) h k = refl
lt_trans (x ∷ a) [] c h k = cc
lt_trans (x ∷ a) (y ∷ b) [] h k = cc
lt_trans (x ∷ a) (y ∷ b) (z ∷ c) h k = ground (arith, lt_trans a b c)

pub bytes_cases : (a b : Bytes) → (a ≡ b) ⊎ (a ≢ b)
bytes_cases a b = split (cmp a b) refl
  where
    split : (o : Ordering) → cmp a b ≡ o → (a ≡ b) ⊎ (a ≢ b)
    split Ordering.eq e = inl (eq_of_cmp a b e)
    split Ordering.lt e = inr (λ p. cc (cmp_refl a))
    split Ordering.gt e = inr (λ p. cc (cmp_refl a))

-- the Boolean tests where the order is known
module _ (a b : Bytes) (h : a ≺ b) where
  pub lt_bytes-true : lt_bytes a b ≡ true
  lt_bytes-true = ground arith

  pub lt_bytes-false : lt_bytes b a ≡ false
  lt_bytes-false = ground (arith, gt_of_lt a b h)

  pub le_bytes-true : le_bytes a b ≡ true
  le_bytes-true = ground arith

  pub le_bytes-false : le_bytes b a ≡ false
  le_bytes-false = ground (arith, gt_of_lt a b h)

  pub eq_bytes-false : eq_bytes a b ≡ false
  eq_bytes-false = ground arith

  pub eq_bytes-false' : eq_bytes b a ≡ false
  eq_bytes-false' = ground (arith, gt_of_lt a b h)

pub le_bytes_refl : (a : Bytes) → le_bytes a a ≡ true
le_bytes_refl a = ground (arith, cmp_refl a)

pub eq_bytes_refl : (a : Bytes) → eq_bytes a a ≡ true
eq_bytes_refl a = ground (arith, cmp_refl a)

pub eq_of_eq_bytes : (a b : Bytes) → eq_bytes a b ≡ true → a ≡ b
eq_of_eq_bytes a b h = ground (arith, eq_of_cmp a b)

pub lt_of_not_le_bytes : (a b : Bytes) → le_bytes a b ≡ false → b ≺ a
lt_of_not_le_bytes a b h = ground (arith, lt_of_gt a b)

pub lt_of_lt_bytes : (a b : Bytes) → lt_bytes a b ≡ true → a ≺ b
lt_of_lt_bytes a b h = ground arith
