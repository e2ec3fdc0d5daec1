-- ===== src/Store/Restore/Shape.antt =====
-- The partial tree of a trunk that `verify_trunk` accepted: its forks, its layers and their hashes.
use merk.Prelude.{
  ℕ, zero, suc, ◌≡◌, ◌≢◌, refl, sym, ap, ◌∙◌, Bool, true, false, List, [], ◌∷◌, ◌++◌,
}
use merk.Bytes.{Bytes}
use merk.Outcome.{ok}
use merk.Hash.{Hasher, null_hash}
use merk.Model.{Model, IsSized, root_hash}
use merk.Proofs.{Node}
use merk.Proofs.Chunk.Trunk.{trunk, trunk-hash}
use merk.Proofs.Tree.{ProofTree, Slot, hash, child_hash}
use merk.Proofs.Tree.Partial.{Partial, hash_partial, Leafy}
use merk.Proofs.Tree.Shape.{SameShape, SlotShape, hash_partial-Parts}
use merk.Proofs.Tree.WellFormed.{WellFormed, WellFormedSlot}

-- down to a depth, and at it, there are nodes
abbrev pub Deep : ℕ → Model → Type 0
Deep n Model.leaf = ⊥
Deep zero (Model.bin k v l r) = Unit
Deep (suc n) (Model.bin k v l r) = Deep n l × Deep n r

-- the keys at a depth
abbrev pub keys_at : ℕ → Model → List Bytes
keys_at n Model.leaf = []
keys_at zero (Model.bin k v l r) = k ∷ []
keys_at (suc n) (Model.bin k v l r) = keys_at n l ++ keys_at n r

module _ ⦃hasher : Hasher⦄ where
  mutual
    -- a tree of the shape of a partial tree has its hash
    pub shaped-hash :
        (t : ProofTree) (p : Partial) (h : Bytes)
        → SameShape t p
        → WellFormed t
        → Leafy p
        → hash_partial p ≡ ok h
        → hash t ≡ ok h
    shaped-hash (ProofTree.tree node l r n) Partial.absent h s w leafy e = elim s [ ]
    shaped-hash (ProofTree.tree node l r n) (Partial.node node' a b) h (same, sl, sr) (high, wl, wr)
          leafy e =
        let parts = hash_partial-Parts node' a b h leafy e in
        rw same (
          parts.whole l r n (shaped-child_hash l a parts.left sl wl leafy.1 parts.left_hash)
            (shaped-child_hash r b parts.right sr wr leafy.2 parts.right_hash))

    shaped-child_hash :
        (s : Slot) (p : Partial) (h : Bytes)
        → SlotShape s p
        → WellFormedSlot s
        → Leafy p
        → hash_partial p ≡ ok h
        → child_hash s ≡ h
    shaped-child_hash Slot.vacant p h shape w leafy e =
        let none_left : ok null_hash ≡ ok h = ap hash_partial (sym shape) ∙ e in cc
    shaped-child_hash (Slot.occupied t x) p h shape (ex, w) leafy e =
        let same = shaped-hash t p h shape w leafy e in cc

  -- A node of a trunk above its depth.
  pub record Forked (t : ProofTree) (n : ℕ) (leftmost : Bool) (k v : Bytes) (l r : Model)
      : Type 0 where
    pub a : ProofTree
    pub b : ProofTree
    pub size : ℕ
    pub tree :
        t
        ≡ ProofTree.tree
            (Node.kv k v)
            (Slot.occupied a (root_hash l))
            (Slot.occupied b (root_hash r))
            size
    pub shape_a : SameShape a (trunk n leftmost l)
    pub shape_b : SameShape b (trunk n false r)
    pub well_a : WellFormed a
    pub well_b : WellFormed b
    pub hash_a : hash a ≡ ok (root_hash l)
    pub hash_b : hash b ≡ ok (root_hash r)

  trunk-some :
      (n : ℕ) (leftmost : Bool) (m : Model) → Deep n m → trunk n leftmost m ≢ Partial.absent
  trunk-some n leftmost Model.leaf d e = elim d [ ]
  trunk-some zero true (Model.bin k v l r) d e = cc
  trunk-some zero false (Model.bin k v l r) d e = cc
  trunk-some (suc n) leftmost (Model.bin k v l r) d e = cc

  pub trunk-Forked :
      (t : ProofTree) (n : ℕ) (leftmost : Bool) (k v : Bytes) (l r : Model)
      → SameShape t (trunk (suc n) leftmost (Model.bin k v l r))
      → WellFormed t
      → IsSized (Model.bin k v l r)
      → Deep (suc n) (Model.bin k v l r)
      → Forked t n leftmost k v l r
  trunk-Forked (ProofTree.tree node Slot.vacant b size) n leftmost k v l r s w z d =
      absurd (trunk-some n leftmost l d.0 s.1)
  trunk-Forked (ProofTree.tree node (Slot.occupied a x) Slot.vacant size) n leftmost k v l r s w z
        d =
      absurd (trunk-some n false r d.1 s.2)
  trunk-Forked (ProofTree.tree node (Slot.occupied a x) (Slot.occupied b y) size) n leftmost k v l r
        (same, sa, sb) (high, (ex, wa), (ey, wb)) z d =
      let (hl, fl) = trunk-hash n leftmost l z.2 in
      let (hr, fr) = trunk-hash n false r z.3 in
      let ha = shaped-hash a (trunk n leftmost l) (root_hash l) sa wa fl hl in
      let hb = shaped-hash b (trunk n false r) (root_hash r) sb wb fr hr in
      let ea : x ≡ root_hash l = cc in
      let eb : y ≡ root_hash r = cc in
      record {
        a = a;
        b = b;
        size = size;
        tree = rw (same, ea, eb) refl;
        shape_a = sa;
        shape_b = sb;
        well_a = wa;
        well_b = wb;
        hash_a = ha;
        hash_b = hb;
      }
