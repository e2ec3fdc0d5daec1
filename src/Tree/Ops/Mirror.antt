-- ===== src/Tree/Ops/Mirror.antt =====
-- A node whose right side is higher by two, as it comes up after a rotation.
use merk.Prelude.{ℕ, suc, ◌<◌, ◌≡◌, refl, ap, ◌∙◌, true, false, ◌∷◌, ◌++◌, arith}
use merk.Bytes.{Bytes}
use merk.Hash.{Hasher}
use merk.Model
use merk.Model.{Model, entries}
use merk.Tree.Load.{Fetch}
use merk.Tree.Ops.Side.{turned_entries, leans_right, leans_inner}
use merk.Tree.Ops.Settle.{quiet, single, double}
use merk.Tree.Ops.Turn.{turn-Turns}
use merk.Tree.Ops.Balance.{IsAvl, Balanced}

module _ (source : Fetch) ⦃hasher : Hasher⦄ where
  -- a right side that is two higher, and higher on its right
  pub outer :
      (n : ℕ) (k2 v2 k4 v4 : Bytes) (a x y : Model)
      → IsAvl a
      → IsAvl (Model.bin k4 v4 x y)
      → Model.height a < 126
      → Model.height x ≡ Model.height a
      → Model.height y ≡ suc (Model.height a)
      → (b : Balanced source (suc (suc (suc n))) (Model.bin k2 v2 a (Model.bin k4 v4 x y)))
        × (Model.height b.out ≡ suc (suc (Model.height a)))
  outer n k2 v2 k4 v4 a x y xa (xx, xy, l, r) h ex ey =
      let p = Model.bin k2 v2 a x in
      let turned =
        turn-Turns source (suc n) false k2 v2 k4 v4 y x a p (Model.bin k4 v4 p y) (omega arith)
          (omega arith)
          (quiet source n false k2 v2 x a (omega arith) (omega arith) (omega arith) (omega arith))
          (quiet source n false k4 v4 y p (omega arith) (omega arith) (omega arith)
            (omega arith)) in
      (
        record {
          out = Model.bin k4 v4 p y;
          settles =
              single source (suc (suc n)) false k2 v2 k4 v4 y x a (Model.bin k4 v4 p y)
                (omega arith) (omega arith)
                (leans_right (Model.height y) (Model.height x) (omega arith) (omega arith)
                  (omega arith))
                turned;
          avl = ((xa, xx, omega arith, omega arith), xy, omega arith, omega arith);
          same = turned_entries false k2 v2 k4 v4 y x a p refl;
          low = omega arith;
          high = omega arith;
        },
        omega arith,
      )

  -- a right side that is two higher, and on its left, whose left side is higher
  pub inner_left :
      (n : ℕ) (k v k2 v2 k3 v3 : Bytes) (a x y c : Model)
      → IsAvl a
      → IsAvl (Model.bin k3 v3 x y)
      → IsAvl c
      → Model.height a < 126
      → Model.height x ≡ Model.height a
      → suc (Model.height y) ≡ Model.height a
      → Model.height c ≡ Model.height a
      → (b : Balanced source
          (suc (suc (suc n)))
          (Model.bin k2 v2 a (Model.bin k v (Model.bin k3 v3 x y) c)))
        × (Model.height b.out ≡ suc (suc (Model.height a)))
  inner_left n k v k2 v2 k3 v3 a x y c xa (xx, xy, l, r) xc h ex ey ec =
      let p = Model.bin k v y c in
      let side = Model.bin k2 v2 a x in
      let first =
        turn-Turns source (suc n) true k v k3 v3 x y c p (Model.bin k3 v3 x p) (omega arith)
          (omega arith)
          (quiet source n true k v y c (omega arith) (omega arith) (omega arith) (omega arith))
          (quiet source n true k3 v3 x p (omega arith) (omega arith) (omega arith) (omega arith)) in
      let second =
        turn-Turns source (suc n) false k2 v2 k3 v3 p x a side (Model.bin k3 v3 side p)
          (omega arith) (omega arith)
          (quiet source n false k2 v2 x a (omega arith) (omega arith) (omega arith) (omega arith))
          (quiet source n false k3 v3 p side (omega arith) (omega arith) (omega arith)
            (omega arith)) in
      let e = turned_entries true k v k3 v3 x y c p refl in
      (
        record {
          out = Model.bin k3 v3 side p;
          settles =
              double source (suc (suc n)) false k2 v2 k v c (Model.bin k3 v3 x y) a
                (Model.bin k3 v3 x p) (Model.bin k3 v3 side p) (omega arith) (omega arith)
                (leans_inner false (Model.height c) (Model.height (Model.bin k3 v3 x y))
                  (omega arith) (omega arith) (omega arith))
                (omega arith) first second;
          avl = (
            (xa, xx, omega arith, omega arith),
            (xy, xc, omega arith, omega arith),
            omega arith,
            omega arith,
          );
          same =
              turned_entries false k2 v2 k3 v3 p x a side refl
              ∙ ap (λ es. entries a ++ ((k2, v2) ∷ es)) e;
          low = omega arith;
          high = omega arith;
        },
        omega arith,
      )
