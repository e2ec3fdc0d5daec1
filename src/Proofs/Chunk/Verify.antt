-- ===== src/Proofs/Chunk/Verify.antt =====
-- `verify_leaf` and `verify_trunk` of src/proofs/chunk.rs, on the tree that `execute` builds.
use merk.Prelude.{ℕ, zero, suc, ◌+◌, ◌/◌, Bool, true, false, ◌&&◌, List, ltb, if◌then◌else◌}
use merk.Bytes.{Bytes, eq_bytes}
use merk.Outcome.{Result, ok, err, ◌>>=◌, Error}
use merk.Hash.{Hasher}
use merk.Proofs.{Node, Op}
use merk.Proofs.Tree.{ProofTree, Slot, execute, hash as proof_hash}
use merk.Proofs.Chunk.{min_trunk_height}

-- `()`
abbrev pub Done : Type 0
Done = Unit

-- the closure of `verify_leaf`
unfoldable pub leaf_node : Done → Node → Result Done
leaf_node done (Node.kv key value) = ok tt
leaf_node done (Node.hash h) = err Error.tree
leaf_node done (Node.kv_hash h) = err Error.tree

-- the closure of `verify_trunk`
unfoldable pub kv_only : Bool → Node → Result Bool
kv_only only (Node.kv key value) = ok (only && true)
kv_only only (Node.hash h) = ok (only && false)
kv_only only (Node.kv_hash h) = ok (only && false)

-- `verify_height_proof`: the nodes of the left spine, none of them a `Hash` below the root.
unfoldable pub verify_height_proof : ProofTree → Result ℕ
verify_height_proof (ProofTree.tree node Slot.vacant right n) = ok 1
verify_height_proof
      (ProofTree.tree node (Slot.occupied (ProofTree.tree (Node.hash h) l r k) hash) right n) =
    err Error.unexpected_node
verify_height_proof
      (ProofTree.tree node (Slot.occupied (ProofTree.tree (Node.kv_hash h) l r k) hash) right n) =
    verify_height_proof (ProofTree.tree (Node.kv_hash h) l r k) >>= λ height. ok (height + 1)
verify_height_proof
      (ProofTree.tree node
        (Slot.occupied (ProofTree.tree (Node.kv key value) l r k) hash)
        right
        n) =
    verify_height_proof (ProofTree.tree (Node.kv key value) l r k) >>= λ height. ok (height + 1)

-- the three arms of `verify_completeness` on the node
abbrev pub inner_node : Node → Result Done
inner_node (Node.kv key value) = ok tt
inner_node _ = err Error.unexpected_node

abbrev pub bottom_node : Bool → Node → Result Done
bottom_node false (Node.hash h) = ok tt
bottom_node true (Node.kv_hash h) = ok tt
bottom_node _ _ = err Error.unexpected_node

abbrev mutual
  pub verify_completeness : ProofTree → ℕ → Bool → Result Done
  verify_completeness (ProofTree.tree node l r n) zero leftmost = bottom_node leftmost node
  verify_completeness (ProofTree.tree node l r n) (suc depth) leftmost =
      inner_node node >>= λ _. verify_slot l depth leftmost >>= λ _. verify_slot r depth false

  -- `recurse`
  pub verify_slot : Slot → ℕ → Bool → Result Done
  verify_slot Slot.vacant depth leftmost = ok tt
  verify_slot (Slot.occupied t hash) depth leftmost = verify_completeness t depth leftmost

module _ ⦃hasher : Hasher⦄ where
  unfoldable pub verify_leaf : List (Result Op) → Bytes → Result ProofTree
  verify_leaf ops expected_hash = do
    (built, _) ← execute false leaf_node ops tt
    actual ← proof_hash built
    if eq_bytes actual expected_hash then ok built else err Error.hash_mismatch

  abbrev pub verify_layers : ProofTree → Bool → ℕ → Result Done
  verify_layers t only trunk_height =
      if ltb trunk_height min_trunk_height
      then (if only then ok tt else err Error.tree)
      else verify_completeness t trunk_height true

  unfoldable pub verify_trunk : List (Result Op) → Result (ProofTree × ℕ)
  unfolding verify_height_proof
  verify_trunk ops = do
    (built, only) ← execute false kv_only ops true
    height ← verify_height_proof built
    _ ← verify_layers built only (height / 2)
    ok (built, height)
