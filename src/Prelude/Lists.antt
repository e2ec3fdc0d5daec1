-- ===== src/Prelude/Lists.antt =====
-- Lists measured by native numbers, and predicates on all members.
use Prim.Native.Nat.{ℕ, zero, suc, ◌+◌}
use mathlib.Core.Path.{◌≡◌, refl, ap}
use mathlib.Core.List.{List, [], ◌∷◌, ◌++◌}
use mathlib.Core.Logic.{◌⊎◌, inl, inr}
use native.Mathlib.Omega.{arith}

module _ {ℓ} {A : Type ℓ} where
  abbrev pub length : List A → ℕ
  length [] = 0
  length (x ∷ xs) = suc (length xs)

  abbrev pub drop : ℕ → List A → List A
  drop zero xs = xs
  drop (suc n) [] = []
  drop (suc n) (x ∷ xs) = drop n xs

  abbrev pub replicate : ℕ → A → List A
  replicate zero a = []
  replicate (suc n) a = a ∷ replicate n a

  pub length-append : (xs ys : List A) → length (xs ++ ys) ≡ length xs + length ys
  length-append [] ys = omega arith
  length-append (x ∷ xs) ys = omega (arith, length-append xs ys)

  pub drop-length-append : (xs ys : List A) → drop (length xs) (xs ++ ys) ≡ ys
  drop-length-append [] ys = refl
  drop-length-append (x ∷ xs) ys = drop-length-append xs ys

  pub length-replicate : (n : ℕ) (a : A) → length (replicate n a) ≡ n
  length-replicate zero a = refl
  length-replicate (suc n) a = ap suc (length-replicate n a)

  abbrev pub All {κ} : (A → Type κ) → List A → Type κ
  All P [] = Unit
  All P (x ∷ xs) = P x × All P xs

  pub All-append {κ} : (P : A → Type κ) (xs ys : List A) → All P xs → All P ys → All P (xs ++ ys)
  All-append P [] ys hx hy = hy
  All-append P (x ∷ xs) ys hx hy = (hx.0, All-append P xs ys hx.1 hy)

  -- two splits of one list at the same length are the same split
  pub append_injective :
      (xs xs' ys ys' : List A)
      → length xs ≡ length xs'
      → xs ++ ys ≡ xs' ++ ys'
      → (xs ≡ xs') × (ys ≡ ys')
  append_injective [] [] ys ys' n e = (refl, e)
  append_injective [] (x ∷ xs) ys ys' n e = absurd (omega arith)
  append_injective (x ∷ xs) [] ys ys' n e = absurd (omega arith)
  append_injective (x ∷ xs) (x' ∷ xs') ys ys' n e =
      let (p, q) = append_injective xs xs' ys ys' (omega arith) (cc) in (cc p, q)

  pub All-imp {κ μ} :
      {P : A → Type κ} {Q : A → Type μ}
      → ((x : A) → P x → Q x)
      → (xs : List A) → All P xs
      → All Q xs
  All-imp f [] h = tt
  All-imp f (x ∷ xs) h = (f x h.0, All-imp f xs h.1)

  pub All-append_parts {κ} :
      (P : A → Type κ) (xs ys : List A) → All P (xs ++ ys) → All P xs × All P ys
  All-append_parts P [] ys h = (tt, h)
  All-append_parts P (x ∷ xs) ys h = let (hx, hy) = All-append_parts P xs ys h.1 in ((h.0, hx), hy)

  -- a list is empty or has a last element
  pub snoc_cases : (xs : List A) → (xs ≡ []) ⊎ ((ys : List A) × (y : A) × (xs ≡ ys ++ (y ∷ [])))
  snoc_cases [] = inl refl
  snoc_cases (x ∷ xs) = elim (snoc_cases xs) [
    | inl e ↦ inr ([], x, rw e refl)
    | inr (ys, y, e) ↦ inr (x ∷ ys, y, rw e refl)
  ]
