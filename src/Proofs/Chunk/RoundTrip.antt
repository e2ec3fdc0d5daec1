-- ===== src/Proofs/Chunk/RoundTrip.antt =====
-- A trunk from `create_trunk_proof` to `verify_trunk`.
use merk.Prelude.{
  ℕ, zero, suc, ◌+◌, ◌/◌, ◌^◌, ◌≤◌, ◌<◌, ◌≡◌, refl, Bool, true, false, none, map, arith,
}
use merk.Bytes.{Bytes}
use merk.Outcome.{ok, ◌>>=◌}
use merk.Hash.{Hasher}
use merk.Model
use merk.Model.{Model, entries, IsSorted, IsSized, root_hash}
use merk.Proofs.Chunk.{create_trunk_proof}
use merk.Proofs.Chunk.Accepts.{
  verify_height_proof-LeftSpine, full-LeftSpine, trunk-LeftSpine, kv_only-ok, kv_only-IsKv,
  trunk-Covers, verify_completeness-trunk,
}
use merk.Proofs.Chunk.Complete.{full-IsKv, full-Covers, full-hash, full-Leafy}
use merk.Proofs.Chunk.Create.{is_low, trunk_if, create_trunk_proof-program}
use merk.Proofs.Chunk.Height.{trunk_height}
use merk.Proofs.Chunk.Rows.{full}
use merk.Proofs.Chunk.Trunk.{left_length, trunk, trunk-hash}
use merk.Proofs.Chunk.Verify.{kv_only, verify_trunk}
use merk.Proofs.Query.Create.Program.{Stored}
use merk.Proofs.Query.Verify.Accepts.{Covers-check_key}
use merk.Proofs.Tree.{ProofTree, hash}
use merk.Proofs.Tree.Partial.{Partial, inorder}
use merk.Proofs.Tree.Postfix.{program, execute-program}
use merk.Proofs.Tree.Shape.{SameShape}
use merk.Tree.{Tree}
use merk.Tree.Load.{Fetch}
use merk.Tree.Reps.{RepsTree}

pub trunk-present :
    ⦃hasher : Hasher⦄
    → (n : ℕ) (k v : Bytes) (l r : Model) → trunk n true (Model.bin k v l r) ≡ Partial.absent
    → ⊥
trunk-present n k v l r e = by_height n e
  where
    by_height : (n : ℕ) → trunk n true (Model.bin k v l r) ≡ Partial.absent → ⊥
    by_height zero e = cc
    by_height (suc n) e = cc

module _ ⦃hasher : Hasher⦄ where
  -- an accepted trunk, with its height, its hash and its nodes
  abbrev pub Accepted : Partial → Model → Type 0
  Accepted p m =
      (t : ProofTree) × (verify_trunk (map ok (program p)) ≡ ok (t, left_length m))
      × (hash t ≡ ok (root_hash m))
      × SameShape t p

  half : (k v : Bytes) (l r : Model) → (1 + left_length l) / 2 ≡ trunk_height 1 (Model.bin k v l r)
  half k v l r = omega arith

  pub verify_trunk-trunk_if :
      (low : Bool) (k v : Bytes) (l r : Model)
      → is_low (Model.bin k v l r) ≡ low
      → IsSorted (entries (Model.bin k v l r))
      → IsSized (Model.bin k v l r)
      → Accepted (trunk_if low (Model.bin k v l r)) (Model.bin k v l r)
  unfolding verify_trunk
  verify_trunk-trunk_if true k v l r low s z =
      let m = Model.bin k v l r in
      let ns = inorder (full m) in
      let (last, checked) = Covers-check_key none ns (entries m) (full-Covers m) s tt in
      let (t, executed, hashed, kept) =
        execute-program false kv_only (full m) (root_hash m) last true true (λ e. cc) (full-Leafy m)
          (full-hash m z) checked (kv_only-IsKv ns (full-IsKv m)) in
      let height = verify_height_proof-LeftSpine t k v l r (full m) kept (full-LeftSpine m) in
      (t, rw (executed, height, half k v l r, low) refl, hashed, kept)
  verify_trunk-trunk_if false k v l r low s z =
      let m = Model.bin k v l r in
      let n = trunk_height 1 m in
      let p = trunk n true m in
      let ns = inorder p in
      let (last, checked) = Covers-check_key none ns (entries m) (trunk-Covers n true m) s tt in
      let (only, visited) = kv_only-ok true ns in
      let (eh, leafy) = trunk-hash n true m z in
      let (t, executed, hashed, kept) =
        execute-program false kv_only p (root_hash m) last true only (trunk-present n k v l r) leafy
          eh checked visited in
      let height = verify_height_proof-LeftSpine t k v l r p kept (trunk-LeftSpine n m) in
      let complete = verify_completeness-trunk t n true m kept in
      (t, rw (executed, height, half k v l r, low, complete) refl, hashed, kept)

  -- For a tree with fresh links whose height is below 2 ^ 64, whose keys increase and whose keys
  -- and values are shorter than 2 ^ 32, and a source that holds its subtrees: `verify_trunk`
  -- accepts the operators that `create_trunk_proof` writes, with the tree's height as fuel; the
  -- height that it finds is the number of nodes of the left spine, and the tree that it returns has
  -- the root hash.
  pub verify_trunk-create_trunk_proof :
      (source : Fetch) (fuel : ℕ) (t : Tree) (m : Model)
      → Model.height m ≤ fuel
      → Model.height m < 2 ^ 64
      → IsSorted (entries m)
      → IsSized m
      → Stored source m
      → RepsTree false t m
      → (chunk : ProofTree) × ((create_trunk_proof source fuel t >>= λ r.
            verify_trunk (map ok r.1.0))
          ≡ ok (chunk, left_length m))
        × (hash chunk ≡ ok (root_hash m))
  verify_trunk-create_trunk_proof source fuel (Tree.tree kv l r) Model.leaf b c s z st e =
      elim e [ ]
  verify_trunk-create_trunk_proof source fuel t (Model.bin k v l r) b c s z st e =
      let m = Model.bin k v l r in
      let (t', made, f) = create_trunk_proof-program source fuel t m b c st e in
      let (chunk, accepted, hashed, _) = verify_trunk-trunk_if (is_low m) k v l r refl s z in
      (chunk, rw made accepted, hashed)
