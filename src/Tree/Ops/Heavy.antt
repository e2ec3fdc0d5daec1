-- ===== src/Tree/Ops/Heavy.antt =====
-- `maybe_balance` on a node whose left child is higher by two or more, by the shape of that child.
use mathlib.Core.Path.{subst}
use merk.Prelude.{ℕ, suc, ◌+◌, ◌<◌, ◌≤◌, ◌≡◌, inl, inr, sym, ap, ◌∙◌, arith}
use merk.Bytes.{Bytes}
use merk.Hash.{Hasher}
use merk.Model
use merk.Model.{Model, entries}
use merk.Tree.Load.{Fetch}
use merk.Tree.Ops.Balance.{IsAvl, Balanced, Joined, Taller, le_cases, stays, straight, crossed}
use merk.Tree.Ops.Undone.{back}
use merk.Tree.Ops.Mirror.{outer, inner_left}

module _ (source : Fetch) ⦃hasher : Hasher⦄ where
  -- `Joined`, where the left side is higher by two at least
  pub record Settled (n : ℕ) (k v : Bytes) (a c : Model) : Type 0 where
    pub balanced : Balanced source n (Model.bin k v a c)
    pub tall :
        suc (Model.height c) < Model.height a
        → Model.height balanced.out ≡ Model.height (Model.bin k v a c)
        → Taller source balanced.out

  pub joined-Settled :
      (n : ℕ) (k v : Bytes) (a c : Model) → Joined source n (Model.bin k v a c) → Settled n k v a c
  joined-Settled n k v a c j = record { balanced = j.balanced; tall = λ h. j.tall }

  -- the child of the root next to it is the lower one, and its sibling is still higher by two
  returned :
      (n : ℕ) (k v k2 v2 k3 v3 : Bytes) (a x y c : Model)
      → IsAvl a
      → Model.height a < 126
      → Model.height x ≡ Model.height a
      → suc (Model.height y) ≡ Model.height a
      → Model.height c < Model.height a
      → Settled (suc (suc (suc n))) k v (Model.bin k3 v3 x y) c
      → Joined source
          (suc (suc (suc (suc (suc n)))))
          (Model.bin k v (Model.bin k2 v2 a (Model.bin k3 v3 x y)) c)
  returned n k v k2 v2 k3 v3 a x y c xa h ex ey d s =
      let lower = s.balanced in
      let p = lower.out in
      let low = lower.low in
      let high = lower.high in
      elim (le_cases (Model.height p) (suc (Model.height a))) [
        | inl level ↦
            let (upper, top) =
              stays source (suc (suc n)) k2 v2 a p xa lower.avl (omega arith) (omega arith)
                (omega arith) (omega arith) in
            back source n k v k2 v2 k3 v3 a x y c h ex ey (omega arith) lower upper
              (ap Model.height top ∙ omega arith)
        | inr higher ↦
            let (k4, v4, x4, y4, e, side) = s.tall (omega arith) (omega arith) in
            let avl : IsAvl (Model.bin k4 v4 x4 y4) = subst IsAvl e lower.avl in
            let same : Model.height p ≡ Model.height (Model.bin k4 v4 x4 y4) = ap Model.height e in
            let l = avl.3 in
            let (upper, top) =
              subst
                (λ q.
                  (b : Balanced source (suc (suc (suc n))) (Model.bin k2 v2 a q)) × (Model.height
                      b.out
                    ≡ suc (suc (Model.height a))))
                (sym e) (outer source n k2 v2 k4 v4 a x4 y4 xa avl h (omega arith) (omega arith)) in
            back source n k v k2 v2 k3 v3 a x y c h ex ey (omega arith) lower upper top
      ]

  -- the same, and the sibling is as high as the outer child
  level_siblings :
      (n : ℕ) (k v k2 v2 k3 v3 : Bytes) (a x y c : Model)
      → IsAvl a
      → IsAvl (Model.bin k3 v3 x y)
      → IsAvl c
      → Model.height a < 126
      → Model.height x ≡ Model.height a
      → suc (Model.height y) ≡ Model.height a
      → Model.height c ≡ Model.height a
      → Joined source
          (suc (suc (suc (suc (suc n)))))
          (Model.bin k v (Model.bin k2 v2 a (Model.bin k3 v3 x y)) c)
  level_siblings n k v k2 v2 k3 v3 a x y c xa xb xc h ex ey ec =
      let b = Model.bin k3 v3 x y in
      let (lower, same) =
        stays source (suc (suc n)) k v b c xb xc (omega arith) (omega arith) (omega arith)
          (omega arith) in
      let (upper, top) =
        subst
          (λ q.
            (b : Balanced source (suc (suc (suc n))) (Model.bin k2 v2 a q)) × (Model.height b.out
              ≡ suc (suc (Model.height a))))
          (sym same) (inner_left source n k v k2 v2 k3 v3 a x y c xa xb xc h ex ey ec) in
      back source n k v k2 v2 k3 v3 a x y c h ex ey (omega arith) lower upper top

  abbrev Below : ℕ → ℕ → Model → Type 0
  Below d n c =
      (k v : Bytes) (a : Model)
      → IsAvl a
      → Model.height a ≤ suc (d + Model.height c)
      → Model.height c ≤ suc (Model.height a)
      → Model.height a < 128
      → Settled (suc (suc (suc n))) k v a c

  -- by the shape of the higher side
  pub heavy :
      (d n : ℕ) (k v : Bytes) (a c : Model)
      → Below d n c
      → IsAvl a
      → IsAvl c
      → Model.height a ≡ suc (suc (d + Model.height c))
      → Model.height a < 128
      → Joined source (suc (suc (suc (suc (suc n))))) (Model.bin k v a c)
  heavy d n k v Model.leaf c below xa xc e ha = absurd (omega arith)
  heavy d n k v (Model.bin k2 v2 a b) c below (xa, xb, l, r) xc e ha =
      elim (le_cases (Model.height b) (Model.height a)) [
        | inl level ↦
            straight source (suc (suc n)) k v k2 v2 a b c (xa, xb, l, r) xc ha (omega arith) level
              (below k v b xb (omega arith) (omega arith) (omega arith)).balanced
        | inr inner ↦ by_inner b inner xb r e ha
      ]
    where
      by_inner :
          (b : Model)
          → Model.height a < Model.height b
          → IsAvl b
          → Model.height b ≤ suc (Model.height a)
          → Model.height (Model.bin k2 v2 a b) ≡ suc (suc (d + Model.height c))
          → Model.height (Model.bin k2 v2 a b) < 128
          → Joined source (suc (suc (suc (suc (suc n))))) (Model.bin k v (Model.bin k2 v2 a b) c)
      by_inner Model.leaf inner xb r e ha = absurd (omega arith)
      by_inner (Model.bin k3 v3 x y) inner (xx, xy, lb, rb) r e ha =
          elim (le_cases (Model.height x) (Model.height y)) [
            | inl near ↦
                crossed source (suc (suc n)) k v k2 v2 k3 v3 a x y c
                  (xa, (xx, xy, lb, rb), omega arith, r) xc ha (omega arith) inner near
                  (below k v y xy (omega arith) (omega arith) (omega arith)).balanced
            | inr far ↦ elim (le_cases (Model.height a) (Model.height c)) [
              | inl level ↦
                  level_siblings n k v k2 v2 k3 v3 a x y c xa (xx, xy, lb, rb) xc (omega arith)
                    (omega arith) (omega arith) (omega arith)
              | inr lower ↦
                  returned n k v k2 v2 k3 v3 a x y c xa (omega arith) (omega arith) (omega arith)
                    lower
                    (below k v (Model.bin k3 v3 x y) (xx, xy, lb, rb) (omega arith) (omega arith)
                      (omega arith))
            ]
          ]
