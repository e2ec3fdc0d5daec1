-- ===== src/Proofs/Chunk/Height.antt =====
-- `traverse_for_height_proof` finds the height of the trunk, half the depth of the leftmost node,
-- and writes the operators of the left spine below the trunk.
use merk.Prelude.{
  ℕ, zero, suc, ◌+◌, ◌-◌, ◌/◌, ◌≤◌, ◌<◌, ◌≡◌, refl, ap, Bool, true, false, List, ◌∷◌, ◌++◌,
  append_assoc, arith, ltb,
}
use merk.Bytes.{Bytes}
use merk.Outcome.{Result, ok}
use merk.Hash.{Hasher}
use merk.Model
use merk.Model.{Model, root_hash, kv_digest}
use merk.Proofs.{Node, Op}
use merk.Proofs.Chunk.{parent_if, right_ops, push_height, push_below, traverse_for_height_proof}
use merk.Proofs.Chunk.Descend.{walk-Reached, walk_nowhere}
use merk.Proofs.Chunk.Traverse.{Gives}
use merk.Proofs.Chunk.Trunk.{left_length, left_at, hashed, spine}
use merk.Proofs.Query.Create.Program.{Stored}
use merk.Proofs.Tree.Postfix.{mark, program}
use merk.Tree.{Tree, MaybeLink, Link}
use merk.Tree.Load.{Fetch}
use merk.Tree.Reps.{RepsTree, RepsLink}

-- the trunk's height, for a subtree whose root has the depth
abbrev pub trunk_height : ℕ → Model → ℕ
trunk_height depth m = (depth + left_length m - 1) / 2

module _ ⦃hasher : Hasher⦄ where
  -- what follows a node of the spine
  abbrev beside : Model → List Op
  beside r = program (hashed r) ++ mark (hashed r) Op.child

  right_ops-beside : (l : MaybeLink) (m : Model) → RepsLink false l m → right_ops l ≡ ok (beside m)
  right_ops-beside MaybeLink.unlinked m e = rw e refl
  right_ops-beside (MaybeLink.linked (Link.reference h hs k)) Model.leaf e = elim e.2 [ ]
  right_ops-beside (MaybeLink.linked (Link.reference h hs k)) (Model.bin k' v l r) e = rw (e.0) refl
  right_ops-beside (MaybeLink.linked (Link.modified n hs t)) m e = cc
  right_ops-beside (MaybeLink.linked (Link.uncommitted h hs t)) m e = elim e [ ]
  right_ops-beside (MaybeLink.linked (Link.loaded h hs (Tree.tree kv x y))) Model.leaf e =
      elim e.2 [ ]
  right_ops-beside (MaybeLink.linked (Link.loaded h hs t)) (Model.bin k v l r) e = rw (e.0) refl

  push_height-spine :
      (t : Tree) (has_left : Bool) (proof : List Op) (k v : Bytes) (ml mr : Model)
      → RepsTree false t (Model.bin k v ml mr)
      → push_height t has_left proof
        ≡ ok (proof ++ (Op.push (Node.kv_hash (kv_digest k v)) ∷ (parent_if has_left ++ beside mr)))
  unfolding push_height
  push_height-spine (Tree.tree kv l r) has_left proof k v ml mr e =
      rw (right_ops-beside r mr e.4, e.2) refl

module _ ⦃hasher : Hasher⦄ (source : Fetch) where
  -- what is written of a subtree
  abbrev pub HeightProof : Result (Tree × (List Op × ℕ)) → Model → List Op → ℕ → Type 0
  HeightProof r m proof depth = Gives source r m (
    proof ++ program (spine (left_at (trunk_height depth m + 1 - depth) m)),
    trunk_height depth m,
  )

  at_leftmost :
      (t : Tree) (k v : Bytes) (mr : Model) (proof : List Op) (depth : ℕ)
      → 1 ≤ depth
      → RepsTree false t (Model.bin k v Model.leaf mr)
      → HeightProof
          (push_below source depth false (t, (proof, depth / 2)))
          (Model.bin k v Model.leaf mr)
          proof
          depth
  at_leftmost t k v mr proof depth b e =
      let above : ltb (depth / 2) depth ≡ true = ground arith in
      let same : (depth + 1 - 1) / 2 ≡ depth / 2 = omega arith in
      let none_left : depth / 2 + 1 - depth ≡ 0 = omega arith in
      (t, rw (above, same, none_left, push_height-spine t false proof k v Model.leaf mr e) refl, e)

  above_leftmost :
      (t : Tree) (k v k' v' : Bytes) (x y mr : Model) (proof : List Op) (depth : ℕ)
      → (c : Bool) → ltb (trunk_height depth (Model.bin k v (Model.bin k' v' x y) mr)) depth ≡ c
      → RepsTree false t (Model.bin k v (Model.bin k' v' x y) mr)
      → HeightProof
          (push_below source depth true (
            t,
            (
              proof
                  ++ program (
                      spine (
                        left_at
                          (trunk_height (depth + 1) (Model.bin k' v' x y) + 1 - (depth + 1))
                          (Model.bin k' v' x y))),
              trunk_height (depth + 1) (Model.bin k' v' x y),
            ),
          ))
          (Model.bin k v (Model.bin k' v' x y) mr)
          proof
          depth
  above_leftmost t k v k' v' x y mr proof depth true below e =
      let l = Model.bin k' v' x y in
      let m = Model.bin k v l mr in
      let same : trunk_height (depth + 1) l ≡ trunk_height depth m = omega arith in
      let lower : trunk_height depth m < depth = ground arith in
      let top : trunk_height depth m + 1 - (depth + 1) ≡ 0 = omega arith in
      let top' : trunk_height depth m + 1 - depth ≡ 0 = omega arith in
      (
        t,
        rw
            (
              same,
              below,
              top,
              top',
              push_height-spine t true (proof ++ program (spine l)) k v l mr e,
            )
            (ap (λ ops. ok (t, (ops, trunk_height depth m)))
              (append_assoc proof (program (spine l)) _)),
        e,
      )
  above_leftmost t k v k' v' x y mr proof depth false below e =
      let l = Model.bin k' v' x y in
      let m = Model.bin k v l mr in
      let same : trunk_height (depth + 1) l ≡ trunk_height depth m = omega arith in
      let higher : depth ≤ trunk_height depth m = ground arith in
      let step : trunk_height depth m + 1 - depth ≡ suc (trunk_height depth m + 1 - (depth + 1)) =
        omega arith in
      (t, rw (same, below, step) refl, e)

  pub traverse_for_height_proof-spine :
      (fuel : ℕ) (t : Tree) (m : Model) (proof : List Op) (depth : ℕ)
      → 1 ≤ depth
      → Model.height m ≤ fuel
      → Stored source m
      → RepsTree false t m
      → HeightProof (traverse_for_height_proof source fuel t proof depth) m proof depth
  unfolding traverse_for_height_proof
  traverse_for_height_proof-spine fuel (Tree.tree kv l r) Model.leaf proof depth d b s e =
      elim e [ ]
  traverse_for_height_proof-spine zero t (Model.bin k v ml mr) proof depth d b s e =
      absurd (omega arith)
  traverse_for_height_proof-spine (suc fuel) (Tree.tree kv l r) (Model.bin k v Model.leaf mr) proof
        depth d b s e =
      rw (walk_nowhere source (Tree.tree kv l r) true l refl e.3)
        (at_leftmost (Tree.tree kv l r) k v mr proof depth d e)
  traverse_for_height_proof-spine (suc fuel) (Tree.tree kv l r)
        (Model.bin k v (Model.bin k' v' x y) mr) proof depth d b s e =
      let t = Tree.tree kv l r in
      let w = walk-Reached source t true l k' v' x y refl e.3 s.1 in
      let (c, made, fresh) =
        traverse_for_height_proof-spine fuel w.child (Model.bin k' v' x y) proof (depth + 1)
          (omega arith) (omega arith) s.1 w.fresh in
      let (l', back, fl) =
        w.back (λ c. traverse_for_height_proof source fuel c proof (depth + 1)) c _ made fresh in
      rw (w.walks, back)
        (above_leftmost (Tree.tree kv l' r) k v k' v' x y mr proof depth _ refl
          (e.0, e.1, e.2, fl, e.4))
