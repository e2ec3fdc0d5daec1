-- ===== src/Store/Chunks/Accepted.antt =====
-- The bytes of every chunk are accepted by the functions that verify them.
use merk.Prelude.{
  ℕ, zero, suc, ◌+◌, ◌≡◌, refl, ap, ◌∙◌, Bool, true, false, List, [], ◌∷◌, map, length,
  length-append, All, All-append, All-append_parts, arith,
}
use merk.Bytes.{Bytes}
use merk.Outcome.{ok}
use merk.Hash.{Hasher, kv_message}
use merk.Model.{Model, entries, IsSorted, root_hash}
use merk.Model.Cover.{HasHash, length-root_hash}
use merk.Model.Find.{IsSorted-left, IsSorted-right}
use merk.Proofs.{Node}
use merk.Proofs.Chunk.Accepts.{trunk-Covers}
use merk.Proofs.Chunk.Complete.{full-Covers, full-IsKv, verify_leaf-full}
use merk.Proofs.Chunk.Create.{is_low, trunk_if}
use merk.Proofs.Chunk.Height.{trunk_height}
use merk.Proofs.Chunk.Leaf.{IsKv, shown}
use merk.Proofs.Chunk.Rows.{full}
use merk.Proofs.Chunk.RoundTrip.{verify_trunk-trunk_if}
use merk.Proofs.Chunk.Trunk.{left_length, hashed, spine, trunk}
use merk.Proofs.Chunk.Verify.{verify_leaf, verify_trunk}
use merk.Proofs.Encoding.{Ed, encode_into, decode_all}
use merk.Proofs.Encoding.RoundTrip.{Fits, decode_all-encode_into}
use merk.Proofs.Query.Verify.Accepts.{IsShort, Covers-Fits}
use merk.Proofs.Query.Verify.Complete.{program-Fits, IsShort-IsSized}
use merk.Proofs.Tree.{ProofTree, hash}
use merk.Proofs.Tree.Partial.{inorder}
use merk.Proofs.Tree.Postfix.{program}
use merk.Proofs.Tree.Visit.{collected}
use merk.Store.Chunks.Windows.{windows, bounds, leaf_bytes}

IsKv-HasHash : (ns : List Node) → All IsKv ns → All HasHash ns
IsKv-HasHash [] h = tt
IsKv-HasHash (Node.kv k v ∷ ns) h = (tt, IsKv-HasHash ns h.1)
IsKv-HasHash (Node.hash x ∷ ns) h = elim h.0 [ ]
IsKv-HasHash (Node.kv_hash x ∷ ns) h = elim h.0 [ ]

-- There is one subtree more than there are boundaries.
pub length-windows : (n : ℕ) (m : Model) → length (windows n m) ≡ length (bounds n m) + 1
length-windows zero m = refl
length-windows (suc n) Model.leaf = refl
length-windows (suc n) (Model.bin k v l r) =
    let a = length-windows n l in
    let b = length-windows n r in
    let c = length-append (windows n l) (windows n r) in
    let d = length-append (bounds n l) (k ∷ bounds n r) in omega arith

-- the subtrees are as sorted and as short as the tree
windows-All :
    (n : ℕ) (m : Model)
    → IsSorted (entries m)
    → IsShort (entries m)
    → All (λ w. IsSorted (entries w) × IsShort (entries w)) (windows n m)
windows-All zero m s h = ((s, h), tt)
windows-All (suc n) Model.leaf s h = ((s, h), tt)
windows-All (suc n) (Model.bin k v l r) s h =
    let (hl, hn) = All-append_parts _ (entries l) ((k, v) ∷ entries r) h in
    All-append _ (windows n l) (windows n r)
      (windows-All n l (IsSorted-left (entries l) ((k, v) ∷ entries r) s) hl)
      (windows-All n r (IsSorted-right (entries l) ((k, v) ∷ entries r) s).1 hn.1)

module _ ⦃hasher : Hasher⦄ where
  hashed-HasHash : (m : Model) → All HasHash (inorder (hashed m))
  hashed-HasHash Model.leaf = tt
  hashed-HasHash (Model.bin k v l r) = (length-root_hash (Model.bin k v l r), tt)

  spine-HasHash : (m : Model) → All HasHash (inorder (spine m))
  spine-HasHash Model.leaf = tt
  spine-HasHash (Model.bin k v l r) =
      All-append HasHash (inorder (spine l)) _ (spine-HasHash l)
        (hasher.length-digest (kv_message k v), hashed-HasHash r)

  trunk-HasHash : (n : ℕ) (leftmost : Bool) (m : Model) → All HasHash (inorder (trunk n leftmost m))
  trunk-HasHash zero true m = spine-HasHash m
  trunk-HasHash zero false m = hashed-HasHash m
  trunk-HasHash (suc n) leftmost Model.leaf = tt
  trunk-HasHash (suc n) leftmost (Model.bin k v l r) =
      All-append HasHash (inorder (trunk n leftmost l)) _ (trunk-HasHash n leftmost l)
        (tt, trunk-HasHash n false r)

  full-Fits : (m : Model) → IsShort (entries m) → All Fits (program (full m))
  full-Fits m h = program-Fits (full m) (
      Covers-Fits (inorder (full m)) (entries m) (full-Covers m) h
        (IsKv-HasHash (inorder (full m)) (full-IsKv m)))

  pub trunk_if-Fits :
      (low : Bool) (m : Model) → IsShort (entries m) → All Fits (program (trunk_if low m))
  trunk_if-Fits true m h = full-Fits m h
  trunk_if-Fits false m h =
      let n = trunk_height 1 m in
      program-Fits (trunk n true m) (
        Covers-Fits (inorder (trunk n true m)) (entries m) (trunk-Covers n true m) h
          (trunk-HasHash n true m))

module _ ⦃hasher : Hasher⦄ ⦃codec : Ed⦄ where
  -- a chunk that `verify_trunk` accepts, with the height and the root hash of the tree
  abbrev pub TrunkAccepted : Bytes → Model → Type 0
  TrunkAccepted bytes m =
      (t : ProofTree) × (verify_trunk (decode_all bytes) ≡ ok (t, left_length m))
      × (hash t ≡ ok (root_hash m))

  -- A chunk that `verify_leaf` accepts against the root hash of a subtree, whose entries it shows.
  -- There is nothing to accept for an empty subtree.
  abbrev pub LeafAccepted : Bytes → Model → Type 0
  LeafAccepted bytes Model.leaf = Unit
  LeafAccepted bytes (Model.bin k v l r) =
      (t : ProofTree) × (verify_leaf (decode_all bytes) (root_hash (Model.bin k v l r)) ≡ ok t)
      × (shown (collected t) ≡ entries (Model.bin k v l r))

  -- one leaf chunk for each subtree, in order
  abbrev pub AllAccepted : List Bytes → List Model → Type 0
  AllAccepted [] [] = Unit
  AllAccepted [] (w ∷ ws) = ⊥
  AllAccepted (b ∷ bs) [] = ⊥
  AllAccepted (b ∷ bs) (w ∷ ws) = LeafAccepted b w × AllAccepted bs ws

  trunk-Accepted :
      (k v : Bytes) (l r : Model)
      → IsSorted (entries (Model.bin k v l r))
      → IsShort (entries (Model.bin k v l r))
      → TrunkAccepted
          (encode_into (program (trunk_if (is_low (Model.bin k v l r)) (Model.bin k v l r))))
          (Model.bin k v l r)
  trunk-Accepted k v l r s h =
      let m = Model.bin k v l r in
      let (t, accepted, hashed, _) =
        verify_trunk-trunk_if (is_low m) k v l r refl s (IsShort-IsSized m h) in
      (
        t,
        ap verify_trunk (decode_all-encode_into _ (trunk_if-Fits (is_low m) m h)) ∙ accepted,
        hashed,
      )

  pub trunk_if-Accepted :
      (m : Model)
      → (m ≡ Model.leaf → ⊥)
      → IsSorted (entries m)
      → IsShort (entries m)
      → TrunkAccepted (encode_into (program (trunk_if (is_low m) m))) m
  trunk_if-Accepted Model.leaf some_node s h = absurd (some_node refl)
  trunk_if-Accepted (Model.bin k v l r) some_node s h = trunk-Accepted k v l r s h

  leaf-Accepted :
      (m : Model) → IsSorted (entries m) → IsShort (entries m) → LeafAccepted (leaf_bytes m) m
  leaf-Accepted Model.leaf s h = tt
  leaf-Accepted (Model.bin k v l r) s h =
      let m = Model.bin k v l r in
      let (t, accepted, seen) = verify_leaf-full k v l r s (IsShort-IsSized m h) in
      (
        t,
        ap (λ ops. verify_leaf ops (root_hash m)) (decode_all-encode_into _ (full-Fits m h))
            ∙ accepted,
        seen,
      )

  pub leaves-Accepted :
      (ws : List Model)
      → All (λ w. IsSorted (entries w) × IsShort (entries w)) ws
      → AllAccepted (map leaf_bytes ws) ws
  leaves-Accepted [] h = tt
  leaves-Accepted (w ∷ ws) h = (leaf-Accepted w h.0.0 h.0.1, leaves-Accepted ws h.1)

  pub windows-Accepted :
      (n : ℕ) (m : Model)
      → IsSorted (entries m)
      → IsShort (entries m)
      → AllAccepted (map leaf_bytes (windows n m)) (windows n m)
  windows-Accepted n m s h = leaves-Accepted (windows n m) (windows-All n m s h)
