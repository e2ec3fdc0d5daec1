-- ===== src/Proofs/Chunk/Trunk.antt =====
-- The trunk that `create_trunk_proof` writes, as a partial tree.
use merk.Prelude.{ℕ, zero, suc, ◌+◌, ◌≤◌, ◌≡◌, refl, Bool, true, false, arith}
use merk.Outcome.{ok}
use merk.Hash.{Hasher}
use merk.Model
use merk.Model.{Model, IsSized, root_hash, kv_digest}
use merk.Model.Cover.{kv_hash-kv_digest}
use merk.Proofs.{Node}
use merk.Proofs.Chunk.Rows.{full}
use merk.Proofs.Tree.Partial.{Partial, hash_partial, Leafy}

-- the nodes of the left spine
abbrev pub left_length : Model → ℕ
left_length Model.leaf = 0
left_length (Model.bin k v l r) = 1 + left_length l

-- a number of steps to the left
abbrev pub left_at : ℕ → Model → Model
left_at zero m = m
left_at (suc n) Model.leaf = Model.leaf
left_at (suc n) (Model.bin k v l r) = left_at n l

module _ ⦃hasher : Hasher⦄ where
  -- a subtree as its hash, a left spine with hashes to its right, and the trunk above them
  abbrev pub hashed : Model → Partial
  hashed Model.leaf = Partial.absent
  hashed (Model.bin k v l r) =
      Partial.node (Node.hash (root_hash (Model.bin k v l r))) Partial.absent Partial.absent

  abbrev pub spine : Model → Partial
  spine Model.leaf = Partial.absent
  spine (Model.bin k v l r) = Partial.node (Node.kv_hash (kv_digest k v)) (spine l) (hashed r)

  abbrev pub trunk : ℕ → Bool → Model → Partial
  trunk zero true m = spine m
  trunk zero false m = hashed m
  trunk (suc n) leftmost Model.leaf = Partial.absent
  trunk (suc n) leftmost (Model.bin k v l r) =
      Partial.node (Node.kv k v) (trunk n leftmost l) (trunk n false r)

  hashed-hash : (m : Model) → (hash_partial (hashed m) ≡ ok (root_hash m)) × Leafy (hashed m)
  hashed-hash Model.leaf = (refl, tt)
  hashed-hash (Model.bin k v l r) = (refl, ((refl, refl), tt, tt))

  spine-hash : (m : Model) → (hash_partial (spine m) ≡ ok (root_hash m)) × Leafy (spine m)
  spine-hash Model.leaf = (refl, tt)
  spine-hash (Model.bin k v l r) =
      let (el, fl) = spine-hash l in
      let (er, fr) = hashed-hash r in (rw (el, er) refl, (tt, fl, fr))

  -- A trunk of any height has the hash of the tree.
  pub trunk-hash :
      (n : ℕ) (leftmost : Bool) (m : Model)
      → IsSized m
      → (hash_partial (trunk n leftmost m) ≡ ok (root_hash m)) × Leafy (trunk n leftmost m)
  trunk-hash zero true m z = spine-hash m
  trunk-hash zero false m z = hashed-hash m
  trunk-hash (suc n) leftmost Model.leaf z = (refl, tt)
  trunk-hash (suc n) leftmost (Model.bin k v l r) z =
      let (el, fl) = trunk-hash n leftmost l z.2 in
      let (er, fr) = trunk-hash n false r z.3 in
      (rw (el, er, kv_hash-kv_digest k v z.0 z.1) refl, (tt, fl, fr))

  -- A trunk that is as high as the tree is the whole tree.
  pub trunk-full :
      (n : ℕ) (leftmost : Bool) (m : Model) → Model.height m ≤ n → trunk n leftmost m ≡ full m
  trunk-full zero true Model.leaf h = refl
  trunk-full zero false Model.leaf h = refl
  trunk-full zero leftmost (Model.bin k v l r) h = absurd (omega arith)
  trunk-full (suc n) leftmost Model.leaf h = refl
  trunk-full (suc n) leftmost (Model.bin k v l r) h =
      rw (trunk-full n leftmost l (omega arith), trunk-full n false r (omega arith)) refl

  pub left_at_end : (n : ℕ) (m : Model) → Model.height m ≤ n → left_at n m ≡ Model.leaf
  left_at_end zero Model.leaf h = refl
  left_at_end zero (Model.bin k v l r) h = absurd (omega arith)
  left_at_end (suc n) Model.leaf h = refl
  left_at_end (suc n) (Model.bin k v l r) h = left_at_end n l (omega arith)
