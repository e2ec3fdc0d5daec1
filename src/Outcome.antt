-- ===== src/Outcome.antt =====
-- src/error.rs: the errors, and the outcomes of a call. A panic is an outcome of its own.
use merk.Prelude.{◌≡◌, refl}

-- The variants of `Error` that the modelled code raises. Messages are left out; `ed` also stands
-- for the input/output errors that the `ed` crate wraps.
pub data Error : Type 0 where
  attach batch_key bound ed fetch hash_mismatch index_out_of_bounds integer_conversion key : Error
  chunk_processing missing_data path proof stack_underflow tree unexpected_node : Error

pub data Result {ℓ} (A : Type ℓ) : Type ℓ where
  panic : Result A
  err : Error → Result A
  ok : A → Result A

-- the `?` operator
infixl 5 ◌>>=◌
abbrev pub ◌>>=◌ {ℓ κ} : {A : Type ℓ} {B : Type κ} → Result A → (A → Result B) → Result B
panic >>= next = panic
err reason >>= next = err reason
ok value >>= next = next value

pub >>=-eq-ok {ℓ κ} :
    {A : Type ℓ} {B : Type κ} (first : Result A) (next : A → Result B) {b : B}
    → (first >>= next) ≡ ok b
    → (value : A) × (first ≡ ok value) × (next value ≡ ok b)
>>=-eq-ok panic next done = cc
>>=-eq-ok (err reason) next done = cc
>>=-eq-ok (ok value) next done = (value, refl, done)

-- `P` holds of the value, if there is one.
abbrev pub Ensures {ℓ κ} : {A : Type ℓ} → (A → Type κ) → Result A → Type κ
Ensures P (ok a) = P a
Ensures P (err e) = Unit
Ensures P panic = Unit

pub Ensures-bind {ℓ κ μ} :
    {A : Type ℓ} {B : Type κ} (Q : B → Type μ) (m : Result A) (f : A → Result B)
    → ((a : A) → m ≡ ok a → Ensures Q (f a))
    → Ensures Q (m >>= f)
Ensures-bind Q (ok a) f h = h a refl
Ensures-bind Q (err e) f h = tt
Ensures-bind Q panic f h = tt

pub Ensures_at {ℓ κ} :
    {A : Type ℓ} (P : A → Type κ) (m : Result A) (a : A) → m ≡ ok a → Ensures P m → P a
Ensures_at P m a e h = rw e at h

pub Ensures-imp {ℓ κ μ} :
    {A : Type ℓ} (P : A → Type κ) (Q : A → Type μ) (m : Result A)
    → ((a : A) → P a → Q a)
    → Ensures P m
    → Ensures Q m
Ensures-imp P Q (ok a) f h = f a h
Ensures-imp P Q (err e) f h = tt
Ensures-imp P Q panic f h = tt

-- A chain of two binds is a bind of a chain, with the inner steps equal at every value.
pub bind_chain {ℓ κ μ} :
    {A : Type ℓ} {B : Type κ} {C : Type μ} (r : Result A) (f : A → Result C) (g : A → Result B)
    (h : B → Result C)
    → ((a : A) → f a ≡ (g a >>= h))
    → (r >>= f) ≡ ((r >>= g) >>= h)
bind_chain (ok a) f g h e = e a
bind_chain (err x) f g h e = refl
bind_chain panic f g h e = refl

pub Ensures-and {ℓ κ μ} :
    {A : Type ℓ} (P : A → Type κ) (Q : A → Type μ) (m : Result A)
    → Ensures P m
    → Ensures Q m
    → Ensures (λ a. P a × Q a) m
Ensures-and P Q (ok a) p q = (p, q)
Ensures-and P Q (err e) p q = tt
Ensures-and P Q panic p q = tt
