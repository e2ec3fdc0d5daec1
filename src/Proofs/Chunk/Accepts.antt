-- ===== src/Proofs/Chunk/Accepts.antt =====
-- `verify_trunk` accepts what `create_trunk_proof` writes.
use mathlib.Core.Path.{subst}
use merk.Prelude.{
  ℕ, zero, suc, ◌+◌, ◌≡◌, refl, sym, ap, ◌∙◌, Bool, true, false, ◌&&◌, List, [], ◌∷◌, arith, All,
  append-nil,
}
use merk.Bytes.{Bytes}
use merk.Outcome.{ok}
use merk.Hash.{Hasher}
use merk.Model.{Model, entries}
use merk.Model.Cover.{Covers, Covers-append}
use merk.Proofs.{Node}
use merk.Proofs.Chunk.Leaf.{IsKv}
use merk.Proofs.Chunk.Rows.{full}
use merk.Proofs.Chunk.Trunk.{left_length, hashed, spine, trunk}
use merk.Proofs.Chunk.Verify.{kv_only, verify_height_proof, verify_completeness, verify_slot}
use merk.Proofs.Tree.{ProofTree, Slot}
use merk.Proofs.Tree.Execute.{visit_all}
use merk.Proofs.Tree.Partial.{Partial, inorder, is_hash}
use merk.Proofs.Tree.Postfix.{}
use merk.Proofs.Tree.Shape.{SameShape, SlotShape}

-- the left spine of a partial tree is that of the model, with no `Hash` on it
abbrev pub LeftSpine : Model → Partial → Type 0
LeftSpine Model.leaf p = p ≡ Partial.absent
LeftSpine (Model.bin k v l r) Partial.absent = ⊥
LeftSpine (Model.bin k v l r) (Partial.node n a b) = (is_hash n ≡ false) × LeftSpine l a

pub verify_height_proof-LeftSpine :
    (t : ProofTree) (k v : Bytes) (l r : Model) (p : Partial)
    → SameShape t p
    → LeftSpine (Model.bin k v l r) p
    → verify_height_proof t ≡ ok (1 + left_length l)
unfolding verify_height_proof
verify_height_proof-LeftSpine (ProofTree.tree n sl sr h) k v l r Partial.absent s e = elim e [ ]
verify_height_proof-LeftSpine (ProofTree.tree n Slot.vacant sr h) k v Model.leaf r
      (Partial.node n' a b) s e =
    refl
verify_height_proof-LeftSpine (ProofTree.tree n Slot.vacant sr h) k v (Model.bin k' v' x y) r
      (Partial.node n' a b) s e =
    elim (subst (LeftSpine (Model.bin k' v' x y)) s.1 e.1) [ ]
verify_height_proof-LeftSpine (ProofTree.tree n (Slot.occupied (ProofTree.tree c cl cr i) g) sr h) k
      v Model.leaf r (Partial.node n' a b) s e =
    elim (subst (SameShape (ProofTree.tree c cl cr i)) e.1 s.1) [ ]
verify_height_proof-LeftSpine (ProofTree.tree n (Slot.occupied t g) sr h) k v (Model.bin k' v' x y)
      r (Partial.node n' Partial.absent b) s e =
    elim e.1 [ ]
verify_height_proof-LeftSpine
      (ProofTree.tree n (Slot.occupied (ProofTree.tree (Node.hash d) cl cr i) g) sr h) k v
      (Model.bin k' v' x y) r (Partial.node n' (Partial.node m a a') b) s e =
    let same : is_hash (Node.hash d) ≡ false = ap is_hash s.1.0 ∙ e.1.0 in cc
verify_height_proof-LeftSpine
      (ProofTree.tree n (Slot.occupied (ProofTree.tree (Node.kv_hash d) cl cr i) g) sr h) k v
      (Model.bin k' v' x y) r (Partial.node n' (Partial.node m a a') b) s e =
    rw
      (verify_height_proof-LeftSpine (ProofTree.tree (Node.kv_hash d) cl cr i) k' v' x y
        (Partial.node m a a') s.1 e.1)
      (ap ok (omega arith))
verify_height_proof-LeftSpine
      (ProofTree.tree n (Slot.occupied (ProofTree.tree (Node.kv c d) cl cr i) g) sr h) k v
      (Model.bin k' v' x y) r (Partial.node n' (Partial.node m a a') b) s e =
    rw
      (verify_height_proof-LeftSpine (ProofTree.tree (Node.kv c d) cl cr i) k' v' x y
        (Partial.node m a a') s.1 e.1)
      (ap ok (omega arith))

pub full-LeftSpine : (m : Model) → LeftSpine m (full m)
full-LeftSpine Model.leaf = refl
full-LeftSpine (Model.bin k v l r) = (refl, full-LeftSpine l)

pub kv_only-ok : (b : Bool) (ns : List Node) → (b' : Bool) × (visit_all kv_only b ns ≡ ok b')
unfolding kv_only
kv_only-ok b [] = (b, refl)
kv_only-ok b (Node.kv k v ∷ ns) = kv_only-ok (b && true) ns
kv_only-ok b (Node.hash h ∷ ns) = kv_only-ok (b && false) ns
kv_only-ok b (Node.kv_hash h ∷ ns) = kv_only-ok (b && false) ns

pub kv_only-IsKv : (ns : List Node) → All IsKv ns → visit_all kv_only true ns ≡ ok true
unfolding kv_only
kv_only-IsKv [] h = refl
kv_only-IsKv (Node.kv k v ∷ ns) h = kv_only-IsKv ns h.1
kv_only-IsKv (Node.hash x ∷ ns) h = elim h.0 [ ]
kv_only-IsKv (Node.kv_hash x ∷ ns) h = elim h.0 [ ]

module _ ⦃hasher : Hasher⦄ where
  spine-LeftSpine : (m : Model) → LeftSpine m (spine m)
  spine-LeftSpine Model.leaf = refl
  spine-LeftSpine (Model.bin k v l r) = (refl, spine-LeftSpine l)

  pub trunk-LeftSpine : (n : ℕ) (m : Model) → LeftSpine m (trunk n true m)
  trunk-LeftSpine zero m = spine-LeftSpine m
  trunk-LeftSpine (suc n) Model.leaf = refl
  trunk-LeftSpine (suc n) (Model.bin k v l r) = (refl, trunk-LeftSpine n l)

  hashed-Covers : (m : Model) → Covers (inorder (hashed m)) (entries m)
  hashed-Covers Model.leaf = refl
  hashed-Covers (Model.bin k v l r) =
      (entries (Model.bin k v l r), [], sym (append-nil (entries (Model.bin k v l r))), refl)

  spine-Covers : (m : Model) → Covers (inorder (spine m)) (entries m)
  spine-Covers Model.leaf = refl
  spine-Covers (Model.bin k v l r) =
      Covers-append (inorder (spine l)) _ (entries l) _ (spine-Covers l)
        ((k, v) ∷ [], entries r, refl, hashed-Covers r)

  pub trunk-Covers :
      (n : ℕ) (leftmost : Bool) (m : Model) → Covers (inorder (trunk n leftmost m)) (entries m)
  trunk-Covers zero true m = spine-Covers m
  trunk-Covers zero false m = hashed-Covers m
  trunk-Covers (suc n) leftmost Model.leaf = refl
  trunk-Covers (suc n) leftmost (Model.bin k v l r) =
      Covers-append (inorder (trunk n leftmost l)) _ (entries l) _ (trunk-Covers n leftmost l)
        (refl, refl, trunk-Covers n false r)

  mutual
    pub verify_completeness-trunk :
        (t : ProofTree) (n : ℕ) (leftmost : Bool) (m : Model)
        → SameShape t (trunk n leftmost m)
        → verify_completeness t n leftmost ≡ ok tt
    verify_completeness-trunk (ProofTree.tree n sl sr h) zero true Model.leaf s = elim s [ ]
    verify_completeness-trunk (ProofTree.tree n sl sr h) zero false Model.leaf s = elim s [ ]
    verify_completeness-trunk (ProofTree.tree n sl sr h) (suc d) leftmost Model.leaf s = elim s [ ]
    verify_completeness-trunk (ProofTree.tree n sl sr h) zero true (Model.bin k v l r) s =
        rw (s.0) refl
    verify_completeness-trunk (ProofTree.tree n sl sr h) zero false (Model.bin k v l r) s =
        rw (s.0) refl
    verify_completeness-trunk (ProofTree.tree n sl sr h) (suc d) leftmost (Model.bin k v l r) s =
        rw (s.0, verify_slot-trunk sl d leftmost l s.1, verify_slot-trunk sr d false r s.2) refl

    verify_slot-trunk :
        (s : Slot) (n : ℕ) (leftmost : Bool) (m : Model)
        → SlotShape s (trunk n leftmost m)
        → verify_slot s n leftmost ≡ ok tt
    verify_slot-trunk Slot.vacant n leftmost m s = refl
    verify_slot-trunk (Slot.occupied t h) n leftmost m s =
        verify_completeness-trunk t n leftmost m s
