-- ===== src/Tree/Ops/Join.antt =====
-- `maybe_balance` on a node whose left subtree is higher by any number: it calls itself until the
-- tree is balanced.
use mathlib.Core.Path.{subst}
use merk.Prelude.{ℕ, zero, suc, ◌+◌, ◌-◌, ◌*◌, ◌<◌, ◌≤◌, ◌≡◌, inl, inr, refl, ap, arith}
use merk.Bytes.{Bytes}
use merk.Outcome.{ok}
use merk.Hash.{Hasher}
use merk.Model
use merk.Model.{Model, entries}
use merk.Tree.{Tree}
use merk.Tree.Load.{Fetch}
use merk.Tree.Ops.{maybe_balance}
use merk.Tree.Ops.Balance.{IsAvl, le_cases, stays}
use merk.Tree.Ops.Fetched.{Over}
use merk.Tree.Ops.Heavy.{Settled, joined-Settled, heavy}

-- twice the first, and the second
abbrev more : ℕ → ℕ → ℕ
more zero m = m
more (suc d) m = suc (suc (more d m))

more-suc : (d m : ℕ) → more d (suc (suc m)) ≡ suc (suc (more d m))
more-suc zero m = refl
more-suc (suc d) m = ap (λ n. suc (suc n)) (more-suc d m)

more_lem : (d m : ℕ) → more d m ≡ 2 * d + m
more_lem zero m = omega arith
more_lem (suc d) m = let e = more_lem d m in omega arith

module _ (source : Fetch) ⦃hasher : Hasher⦄ where
  by_excess :
      (d m : ℕ) (k v : Bytes) (a c : Model)
      → IsAvl a
      → IsAvl c
      → Model.height a ≤ suc (d + Model.height c)
      → Model.height c ≤ suc (Model.height a)
      → Model.height a < 128
      → Model.height c < 127
      → Settled source (suc (suc (suc (more d m)))) k v a c
  by_excess zero m k v a c xa xc l r ha hc = record {
    balanced = (stays source (suc (suc m)) k v a c xa xc ha (omega arith) (omega arith) r).0;
    tall = λ h. absurd (omega arith);
  }
  by_excess (suc d) m k v a c xa xc l r ha hc =
      elim (le_cases (Model.height a) (suc (d + Model.height c))) [
        | inl less ↦
            subst (λ n. Settled source (suc (suc (suc n))) k v a c) (more-suc d m)
              (by_excess d (suc (suc m)) k v a c xa xc less r ha hc)
        | inr far ↦ joined-Settled source _ k v a c (
            heavy source d (more d m) k v a c
              (λ k v a xa l r ha. by_excess d m k v a c xa xc l r ha hc) xa xc (omega arith) ha)
      ]

  -- Where the source holds what is pruned in a tree with an AVL tree of a height below 127 on each
  -- side, the right one higher by one at most and the left one by `d + 1` at most: with fuel for
  -- `2 * d + 3` calls, `maybe_balance` succeeds, and the tree that it returns is an AVL tree with
  -- the same entries, as high as before or lower by one, and the source holds what is pruned in it.
  pub maybe_balance-IsAvl :
      (n d : ℕ) (t : Tree) (k v : Bytes) (l r : Model)
      → Over source t (Model.bin k v l r)
      → IsAvl l
      → IsAvl r
      → Model.height l ≤ Model.height r + suc d
      → Model.height r ≤ Model.height l + 1
      → Model.height l < 127
      → Model.height r < 127
      → 2 * d + 3 ≤ n
      → (t' : Tree) × (m : Model) × (maybe_balance source n t ≡ ok t')
        × Over source t' m
        × IsAvl m
        × (entries m ≡ entries (Model.bin k v l r))
        × (Model.height (Model.bin k v l r) ≤ Model.height m + 1)
        × (Model.height m ≤ Model.height (Model.bin k v l r))
  maybe_balance-IsAvl n d t k v l r over xl xr a b ha hb enough =
      let m = n - (2 * d + 3) in
      let e = more_lem d m in
      let fuel : suc (suc (suc (more d m))) ≡ n = omega arith in
      let s = by_excess d m k v l r xl xr (omega arith) (omega arith) (omega arith) hb in
      let (t', ran, over') = s.balanced.settles t over in
      let low = s.balanced.low in
      let high = s.balanced.high in
      (
        t',
        s.balanced.out,
        subst (λ n. maybe_balance source n t ≡ ok t') fuel ran,
        over',
        s.balanced.avl,
        s.balanced.same,
        omega arith,
        high,
      )
