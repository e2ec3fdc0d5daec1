-- ===== src/Tree/Reps.antt =====
-- What a tree in memory stands for: its links' hashes and heights are those of the model, where
-- they are not stale.
use merk.Prelude.{◌≡◌, refl, ap, Bool, true, false, ◌+◌, ◌%◌, ◌^◌, ◌<◌, max, arith}
use merk.Bytes.{Bytes}
use merk.Outcome.{ok}
use merk.Hash.{Hasher}
use merk.Model
use merk.Model.{Model, root_hash, kv_digest}
use merk.Tree.{
  Tree, MaybeLink, Link, Heights, child_height, child_heights, child_hash, hash, height,
}

-- the heights of the children, as a link carries them
abbrev pub heights_of : Model → Heights
heights_of Model.leaf = (0, 0)
heights_of (Model.bin k v l r) = (Model.height l, Model.height r)

abbrev pub HasKey : Model → Bytes → Type 0
HasKey Model.leaf key = ⊥
HasKey (Model.bin k v l r) key = k ≡ key

module _ ⦃hasher : Hasher⦄ where
  -- With `stale`, links may be `Modified`; below a link that is `Loaded` none is. No operation
  -- makes a link `Uncommitted`.
  abbrev mutual
    pub RepsTree : Bool → Tree → Model → Type 0
    RepsTree stale (Tree.tree kv l r) Model.leaf = ⊥
    RepsTree stale (Tree.tree kv l r) (Model.bin k v ml mr) =
        (kv.key ≡ k)
        × (kv.value ≡ v)
        × (kv.hash ≡ kv_digest k v)
        × RepsLink stale l ml
        × RepsLink stale r mr

    pub RepsLink : Bool → MaybeLink → Model → Type 0
    RepsLink stale MaybeLink.unlinked m = m ≡ Model.leaf
    RepsLink stale (MaybeLink.linked (Link.reference h hs k)) m =
        (h ≡ root_hash m) × (hs ≡ heights_of m) × HasKey m k
    RepsLink stale (MaybeLink.linked (Link.modified n hs t)) m =
        (stale ≡ true) × (hs ≡ heights_of m) × RepsTree true t m
    RepsLink stale (MaybeLink.linked (Link.uncommitted h hs t)) m = ⊥
    RepsLink stale (MaybeLink.linked (Link.loaded h hs t)) m =
        (h ≡ root_hash m) × (hs ≡ heights_of m) × RepsTree false t m

  child_hash-Reps :
      (l : MaybeLink) (m : Model) → RepsLink false l m → child_hash l ≡ ok (root_hash m)
  child_hash-Reps MaybeLink.unlinked m e = rw e refl
  child_hash-Reps (MaybeLink.linked (Link.reference h hs k)) m e = ap ok e.0
  child_hash-Reps (MaybeLink.linked (Link.modified n hs t)) m e = cc
  child_hash-Reps (MaybeLink.linked (Link.uncommitted h hs t)) m e = elim e [ ]
  child_hash-Reps (MaybeLink.linked (Link.loaded h hs t)) m e = ap ok e.0

  -- A tree without stale links has the root hash of the model that it stands for.
  pub hash-Reps : (t : Tree) (m : Model) → RepsTree false t m → hash t ≡ ok (root_hash m)
  hash-Reps (Tree.tree kv l r) Model.leaf e = elim e [ ]
  hash-Reps (Tree.tree kv l r) (Model.bin k v ml mr) e =
      rw (child_hash-Reps l ml e.3, child_hash-Reps r mr e.4, e.2) refl

  link_height_lem :
      (hs : Heights) (k v : Bytes) (l r : Model)
      → Model.height (Model.bin k v l r) < 2 ^ 8
      → hs ≡ heights_of (Model.bin k v l r)
      → (1 + max hs.0 hs.1) % 2 ^ 8 ≡ Model.height (Model.bin k v l r)
  link_height_lem hs k v l r b e = rw e (omega arith)

  -- A child's height is the model's, if it fits a `u8`.
  pub child_height-Reps :
      (stale : Bool) (l : MaybeLink) (m : Model)
      → Model.height m < 2 ^ 8
      → RepsLink stale l m
      → child_height l ≡ Model.height m
  child_height-Reps stale MaybeLink.unlinked m b e = rw e refl
  child_height-Reps stale (MaybeLink.linked (Link.reference h hs x)) Model.leaf b e = elim e.2 [ ]
  child_height-Reps stale (MaybeLink.linked (Link.reference h hs x)) (Model.bin k v ml mr) b e =
      link_height_lem hs k v ml mr b e.1
  child_height-Reps stale (MaybeLink.linked (Link.modified n hs (Tree.tree kv l r))) Model.leaf b
        e =
      elim e.2 [ ]
  child_height-Reps stale (MaybeLink.linked (Link.modified n hs t)) (Model.bin k v ml mr) b e =
      link_height_lem hs k v ml mr b e.1
  child_height-Reps stale (MaybeLink.linked (Link.uncommitted h hs t)) m b e = elim e [ ]
  child_height-Reps stale (MaybeLink.linked (Link.loaded h hs (Tree.tree kv l r))) Model.leaf b e =
      elim e.2 [ ]
  child_height-Reps stale (MaybeLink.linked (Link.loaded h hs t)) (Model.bin k v ml mr) b e =
      link_height_lem hs k v ml mr b e.1

  -- A tree computes the heights of its model, its children's and its own, if they fit a `u8`.
  pub heights-Reps :
      (stale : Bool) (t : Tree) (m : Model)
      → Model.height m < 2 ^ 8
      → RepsTree stale t m
      → (child_heights t ≡ heights_of m) × (height t ≡ Model.height m)
  heights-Reps stale (Tree.tree kv l r) Model.leaf b e = elim e [ ]
  heights-Reps stale (Tree.tree kv l r) (Model.bin k v ml mr) b e =
      let el = child_height-Reps stale l ml (omega arith) e.3 in
      let er = child_height-Reps stale r mr (omega arith) e.4 in
      (rw (el, er) refl, rw (el, er) (omega arith))
