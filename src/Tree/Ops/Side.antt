-- ===== src/Tree/Ops/Side.antt =====
-- A node by one of its sides: the child on that side comes first. What the balance factor says of
-- it, and what a rotation does to its entries.
use merk.Prelude.{
  ℕ, suc, ◌+◌, ◌<◌, ◌≤◌, ◌≡◌, refl, sym, Bool, true, false, not, ◌∷◌, max, append_assoc, arith,
}
use merk.Bytes.{Bytes}
use merk.Model
use merk.Model.{Model, entries}
use merk.Tree.Ops.{factor, is_balanced, is_negative, is_positive}

abbrev pub node : Bool → Bytes → Bytes → Model → Model → Model
node true k v a b = Model.bin k v a b
node false k v a b = Model.bin k v b a

pub node_height :
    (left : Bool) (k v : Bytes) (a b : Model)
    → Model.height (node left k v a b) ≡ 1 + max (Model.height a) (Model.height b)
node_height true k v a b = refl
node_height false k v a b = omega arith

-- rotating keeps the entries
pub turned_entries :
    (left : Bool) (k v k2 v2 : Bytes) (a b c p : Model)
    → entries p ≡ entries (node left k v b c)
    → entries (node left k2 v2 a p) ≡ entries (node left k v (node left k2 v2 a b) c)
turned_entries true k v k2 v2 a b c p e =
    rw e (sym (append_assoc (entries a) ((k2, v2) ∷ entries b) ((k, v) ∷ entries c)))
turned_entries false k v k2 v2 a b c p e =
    rw e (append_assoc (entries c) ((k, v) ∷ entries b) ((k2, v2) ∷ entries a))

abbrev pub leans : Bool → ℕ → ℕ → Bool
leans true outer inner = is_positive (factor outer inner)
leans false outer inner = not (is_positive (factor inner outer))

pub factor_quiet :
    (a b : ℕ) → a < 128 → b < 128 → a ≤ suc b → b ≤ suc a → is_balanced (factor a b) ≡ true
factor_quiet a b ha hb l r = ground arith

pub factor_left :
    (a b : ℕ)
    → a < 128
    → b < 128
    → suc b < a
    → (is_balanced (factor a b) ≡ false) × (is_negative (factor a b) ≡ true)
factor_left a b ha hb h = (ground arith, ground arith)

pub factor_right :
    (a b : ℕ)
    → a < 128
    → b < 128
    → suc a < b
    → (is_balanced (factor a b) ≡ false) × (is_negative (factor a b) ≡ false)
factor_right a b ha hb h = (ground arith, ground arith)

pub leans_left : (o i : ℕ) → o < 128 → i < 128 → i ≤ o → leans true o i ≡ false
leans_left o i ho hi h = ground arith

pub leans_inner : (left : Bool) (o i : ℕ) → o < 128 → i < 128 → o < i → leans left o i ≡ true
leans_inner true o i ho hi h = ground arith
leans_inner false o i ho hi h = ground arith

pub leans_right : (o i : ℕ) → o < 128 → i < 128 → i < o → leans false o i ≡ false
leans_right o i ho hi h = ground arith
