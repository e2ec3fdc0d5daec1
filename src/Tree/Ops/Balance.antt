-- ===== src/Tree/Ops/Balance.antt =====
-- What `maybe_balance` makes of a node whose left subtree is higher than the right one.
use merk.Prelude.{ℕ, suc, ◌<◌, ◌≤◌, ◌≡◌, ◌⊎◌, refl, ap, ◌∙◌, true, false, ◌∷◌, ◌++◌, arith}
use merk.Bytes.{Bytes}
use merk.Hash.{Hasher}
use merk.Model
use merk.Model.{Model, entries}
use merk.Tree.Load.{Fetch}
use merk.Tree.Ops.Side.{turned_entries, leans_left, leans_inner}
use merk.Tree.Ops.Settle.{quiet, single, double}
use merk.Tree.Ops.Turn.{Settles, turn-Turns}

-- the heights of siblings differ by one at most
abbrev pub IsAvl : Model → Type 0
IsAvl Model.leaf = Unit
IsAvl (Model.bin k v l r) =
    IsAvl l
    × IsAvl r
    × (Model.height l ≤ suc (Model.height r))
    × (Model.height r ≤ suc (Model.height l))

pub le_cases : (a b : ℕ) → (a ≤ b) ⊎ (b < a)
le_cases a b = ground arith

module _ (source : Fetch) ⦃hasher : Hasher⦄ where
  -- what becomes of a node, and its height
  pub record Balanced (n : ℕ) (m : Model) : Type 0 where
    pub out : Model
    pub settles : Settles source n m out
    pub avl : IsAvl out
    pub same : entries out ≡ entries m
    pub low : Model.height m ≤ suc (Model.height out)
    pub high : Model.height out ≤ Model.height m

  abbrev pub Taller : Model → Type 0
  Taller m =
      (k : Bytes) × (v : Bytes) × (x : Model) × (y : Model) × (m ≡ Model.bin k v x y)
      × (Model.height x < Model.height y)

  -- of a heavy node: where the height stays, the right side is the higher one
  pub record Joined (n : ℕ) (m : Model) : Type 0 where
    pub balanced : Balanced n m
    pub tall : Model.height balanced.out ≡ Model.height m → Taller balanced.out

  pub stays :
      (n : ℕ) (k v : Bytes) (a b : Model)
      → IsAvl a
      → IsAvl b
      → Model.height a < 128
      → Model.height b < 128
      → Model.height a ≤ suc (Model.height b)
      → Model.height b ≤ suc (Model.height a)
      → (x : Balanced (suc n) (Model.bin k v a b)) × (x.out ≡ Model.bin k v a b)
  stays n k v a b xa xb ha hb l r = (
    record {
      out = Model.bin k v a b;
      settles = quiet source n true k v a b ha hb l r;
      avl = (xa, xb, l, r);
      same = refl;
      low = omega arith;
      high = omega arith;
    },
    refl,
  )

  -- the outer grandchild is at least as high as the inner one
  pub straight :
      (n : ℕ) (k v k2 v2 : Bytes) (a b c : Model)
      → IsAvl (Model.bin k2 v2 a b)
      → IsAvl c
      → Model.height (Model.bin k2 v2 a b) < 128
      → suc (Model.height c) < Model.height (Model.bin k2 v2 a b)
      → Model.height b ≤ Model.height a
      → Balanced (suc n) (Model.bin k v b c)
      → Joined (suc (suc (suc n))) (Model.bin k v (Model.bin k2 v2 a b) c)
  straight n k v k2 v2 a b c (xa, xb, l, r) xc h d outer lower =
      let p = lower.out in
      let low = lower.low in
      let high = lower.high in
      let turned =
        turn-Turns source (suc n) true k v k2 v2 a b c p (Model.bin k2 v2 a p) (omega arith)
          (omega arith) lower.settles
          (quiet source n true k2 v2 a p (omega arith) (omega arith) (omega arith) (omega arith)) in
      record {
        balanced = record {
          out = Model.bin k2 v2 a p;
          settles =
              single source (suc (suc n)) true k v k2 v2 a b c (Model.bin k2 v2 a p) h d
                (leans_left (Model.height a) (Model.height b) (omega arith) (omega arith) outer)
                turned;
          avl = (xa, lower.avl, omega arith, omega arith);
          same = turned_entries true k v k2 v2 a b c p lower.same;
          low = omega arith;
          high = omega arith;
        };
        tall = λ e. (k2, v2, a, p, refl, omega arith);
      }

  -- the inner grandchild is higher, and so is its child next to the root
  pub crossed :
      (n : ℕ) (k v k2 v2 k3 v3 : Bytes) (a x y c : Model)
      → IsAvl (Model.bin k2 v2 a (Model.bin k3 v3 x y))
      → IsAvl c
      → Model.height (Model.bin k2 v2 a (Model.bin k3 v3 x y)) < 128
      → suc (Model.height c) < Model.height (Model.bin k2 v2 a (Model.bin k3 v3 x y))
      → Model.height a < Model.height (Model.bin k3 v3 x y)
      → Model.height x ≤ Model.height y
      → Balanced (suc n) (Model.bin k v y c)
      → Joined (suc (suc (suc n))) (Model.bin k v (Model.bin k2 v2 a (Model.bin k3 v3 x y)) c)
  crossed n k v k2 v2 k3 v3 a x y c (xa, (xx, xy, l3, r3), l, r) xc h d inner near lower =
      let p = lower.out in
      let low = lower.low in
      let high = lower.high in
      let side = Model.bin k2 v2 a x in
      let first =
        turn-Turns source (suc n) false k2 v2 k3 v3 y x a side (Model.bin k3 v3 side y)
          (omega arith) (omega arith)
          (quiet source n false k2 v2 x a (omega arith) (omega arith) (omega arith) (omega arith))
          (quiet source n false k3 v3 y side (omega arith) (omega arith) (omega arith)
            (omega arith)) in
      let second =
        turn-Turns source (suc n) true k v k3 v3 side y c p (Model.bin k3 v3 side p) (omega arith)
          (omega arith) lower.settles
          (quiet source n true k3 v3 side p (omega arith) (omega arith) (omega arith)
            (omega arith)) in
      let e = turned_entries false k2 v2 k3 v3 y x a side refl in
      record {
        balanced = record {
          out = Model.bin k3 v3 side p;
          settles =
              double source (suc (suc n)) true k v k2 v2 a (Model.bin k3 v3 x y) c
                (Model.bin k3 v3 side y) (Model.bin k3 v3 side p) h d
                (leans_inner true (Model.height a) (Model.height (Model.bin k3 v3 x y))
                  (omega arith) (omega arith) inner)
                (omega arith) first second;
          avl = ((xa, xx, omega arith, omega arith), lower.avl, omega arith, omega arith);
          same =
              turned_entries true k v k3 v3 side y c p lower.same
              ∙ ap (λ es. es ++ ((k, v) ∷ entries c)) e;
          low = omega arith;
          high = omega arith;
        };
        tall = λ e. absurd (omega arith);
      }
