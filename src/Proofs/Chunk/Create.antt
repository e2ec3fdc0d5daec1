-- ===== src/Proofs/Chunk/Create.antt =====
-- `create_trunk_proof`: the whole tree where the trunk would be low, the trunk where it is not.
use merk.Prelude.{
  ℕ, ◌+◌, ◌-◌, ◌^◌, ◌≤◌, ◌<◌, ◌≡◌, refl, sym, ap, ◌∙◌, Bool, true, false, not, [], arith, ltb,
}
use merk.Outcome.{ok}
use merk.Hash.{Hasher}
use merk.Model
use merk.Model.{Model}
use merk.Proofs.Chunk.{min_trunk_height, trunk_from, traverse_for_trunk, create_trunk_proof}
use merk.Proofs.Chunk.Height.{trunk_height, traverse_for_height_proof-spine}
use merk.Proofs.Chunk.Rows.{full}
use merk.Proofs.Chunk.Traverse.{Gives, prior, traverse_for_trunk-trunk}
use merk.Proofs.Chunk.Trunk.{left_at_end, trunk, trunk-full}
use merk.Proofs.Query.Create.Program.{Stored}
use merk.Proofs.Tree.Partial.{Partial}
use merk.Proofs.Tree.Postfix.{program}
use merk.Tree.{Tree}
use merk.Tree.Load.{Fetch}
use merk.Tree.Reps.{RepsTree}

-- the trunk would be low
abbrev pub is_low : Model → Bool
is_low m = ltb (trunk_height 1 m) min_trunk_height

module _ ⦃hasher : Hasher⦄ where
  abbrev pub trunk_if : Bool → Model → Partial
  trunk_if true m = full m
  trunk_if false m = trunk (trunk_height 1 m) true m

module _ ⦃hasher : Hasher⦄ (source : Fetch) where
  -- the whole tree, if the remaining depth covers its height
  traverse_for_trunk-full :
      (fuel : ℕ) (t : Tree) (m : Model) (n : ℕ)
      → Model.height m ≤ fuel
      → Model.height m ≤ n
      → Stored source m
      → RepsTree false t m
      → Gives source (traverse_for_trunk source fuel t [] n true) m (program (full m))
  traverse_for_trunk-full fuel t m n b c s e =
      let nothing : prior n true m ≡ [] = rw (left_at_end n m c) refl in
      let (t', made, f) = traverse_for_trunk-trunk source fuel t m n true [] b s e in
      (
        t',
        ap (λ p. traverse_for_trunk source fuel t p n true) (sym nothing)
            ∙ made
            ∙ ap (λ p. ok (t', program p)) (trunk-full n true m c),
        f,
      )

  trunk_from-program :
      (fuel : ℕ) (t : Tree) (m : Model) (low : Bool)
      → ltb (trunk_height 1 m) min_trunk_height ≡ low
      → Model.height m ≤ fuel
      → Model.height m < 2 ^ 64
      → Stored source m
      → RepsTree false t m
      → Gives source
          (trunk_from source fuel (t, (prior (trunk_height 1 m) true m, trunk_height 1 m)))
          m
          (program (trunk_if low m), not low)
  trunk_from-program fuel t m true low b c s e =
      let (t', made, f) = traverse_for_trunk-full fuel t m (2 ^ 64 - 1) b (omega arith) s e in
      (t', rw (low, made) refl, f)
  trunk_from-program fuel t m false low b c s e =
      let (t', made, f) =
        traverse_for_trunk-trunk source fuel t m (trunk_height 1 m) true [] b s e in
      (t', rw (low, made) refl, f)

  -- For a tree with fresh links whose height is below 2 ^ 64, and a source that holds its subtrees,
  -- `create_trunk_proof` succeeds with the tree's height as fuel, and the tree stands for the same
  -- model after it. It writes the operators of the whole tree where half of the left spine is
  -- shorter than the least height of a trunk, and says that no chunks follow; else it writes those
  -- of the trunk of that height, with its left spine to the end, and says that chunks follow.
  pub create_trunk_proof-program :
      (fuel : ℕ) (t : Tree) (m : Model)
      → Model.height m ≤ fuel
      → Model.height m < 2 ^ 64
      → Stored source m
      → RepsTree false t m
      → Gives source
          (create_trunk_proof source fuel t)
          m
          (program (trunk_if (is_low m) m), not (is_low m))
  unfolding create_trunk_proof
  create_trunk_proof-program fuel t m b c s e =
      let (t', made, f) =
        traverse_for_height_proof-spine source fuel t m [] 1 (omega arith) b s e in
      let steps : trunk_height 1 m + 1 - 1 ≡ trunk_height 1 m = omega arith in
      let (t'', made', f') = trunk_from-program fuel t' m (is_low m) refl b c s f in
      (t'', rw (made, steps) made', f')
