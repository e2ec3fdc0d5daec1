-- ===== src/Proofs/Tree/Attach.antt =====
-- Hashing and attaching, against the partial trees.
use merk.Prelude.{◌≡◌, refl, sym, ◌∙◌, Bool, true, false, ℕ}
use merk.Outcome.{ok, Ensures, Ensures-bind, Ensures_at}
use merk.Hash.{Hasher}
use merk.Proofs.{Node}
use merk.Proofs.Tree.{
  ProofTree, Slot, node_of, child_hash, hash, attach_slot, attach, try_into_hash, maybe_collapse,
  attach_child,
}
use merk.Proofs.Tree.Partial.{Partial, is_hash, hash_partial, HashIsLeaf, Leafy, RepsSlot, Reps}

module _ ⦃hasher : Hasher⦄ where
  RepsSlot-hash : (s : Slot) (p : Partial) → RepsSlot s p → hash_partial p ≡ ok (child_hash s)
  RepsSlot-hash Slot.vacant p h = rw h
  RepsSlot-hash (Slot.occupied t k) p h = h.0

  RepsSlot-Leafy : (s : Slot) (p : Partial) → RepsSlot s p → Leafy p
  RepsSlot-Leafy Slot.vacant p h = rw h tt
  RepsSlot-Leafy (Slot.occupied t k) p h = h.1

  pub Reps-Leafy : (t : ProofTree) (p : Partial) → Reps t p → Leafy p
  Reps-Leafy t Partial.absent h = elim h [ ]
  Reps-Leafy (ProofTree.tree n l r k) (Partial.node n' pl pr) h =
      (h.3, RepsSlot-Leafy l pl h.1, RepsSlot-Leafy r pr h.2)

  -- A tree of `execute` has the hash of the partial tree that it stands for.
  pub Reps-hash : (t : ProofTree) (p : Partial) → Reps t p → hash_partial p ≡ hash t
  unfolding hash
  Reps-hash t Partial.absent h = elim h [ ]
  Reps-hash (ProofTree.tree n l r k) (Partial.node (Node.hash x) pl pr) h = rw h.0
  Reps-hash (ProofTree.tree n l r k) (Partial.node (Node.kv_hash x) pl pr) h =
      rw (h.0, RepsSlot-hash l pl h.1, RepsSlot-hash r pr h.2)
  Reps-hash (ProofTree.tree n l r k) (Partial.node (Node.kv x v) pl pr) h =
      rw (h.0, RepsSlot-hash l pl h.1, RepsSlot-hash r pr h.2)

  hash-collapse : (b : Bool) (c : ProofTree) → Ensures (λ c'. hash c' ≡ hash c) (maybe_collapse b c)
  unfolding try_into_hash
  hash-collapse true c = Ensures-bind _ (hash c) _ (λ h e. sym e)
  hash-collapse false c = refl

  HashIsLeaf-inner : (n : Node) (l r : Partial) → is_hash n ≡ false → HashIsLeaf n l r
  HashIsLeaf-inner (Node.hash h) l r e = cc
  HashIsLeaf-inner (Node.kv_hash h) l r e = tt
  HashIsLeaf-inner (Node.kv k v) l r e = tt

  attach_slot-RepsSlot :
      (s : Slot) (c c' : ProofTree) (p q : Partial)
      → RepsSlot s p
      → Reps c q
      → hash c' ≡ hash c
      → Ensures (λ s'. RepsSlot s' q × (p ≡ Partial.absent)) (attach_slot s c')
  unfolding attach_slot
  attach_slot-RepsSlot Slot.vacant c c' p q hp hc e =
      Ensures-bind _ (hash c') _ (λ h r. ((Reps-hash c q hc ∙ sym e ∙ r, Reps-Leafy c q hc), hp))
  attach_slot-RepsSlot (Slot.occupied t h) c c' p q hp hc e = tt

  module _ (b : Bool) (m : Node) (l r : Slot) (k : ℕ) (c : ProofTree) (n : Node) (pl pr q : Partial)
      (ht : Reps (ProofTree.tree m l r k) (Partial.node n pl pr)) (hc : Reps c q)
      (inner : is_hash m ≡ false) where
    same_hash : (c' : ProofTree) → maybe_collapse b c ≡ ok c' → hash c' ≡ hash c
    same_hash c' e = Ensures_at _ _ c' e (hash-collapse b c)

    still_leaf : (pl pr : Partial) → HashIsLeaf n pl pr
    still_leaf pl pr = HashIsLeaf-inner n pl pr (rw (← ht.0) inner)

    -- Attaching a child to a node that is no `Hash` attaches the child's partial tree, on a side
    -- that was empty.
    pub attach_left :
        Ensures
          (λ t'. (node_of t' ≡ m) × Reps t' (Partial.node n q pr) × (pl ≡ Partial.absent))
          (attach_child b (ProofTree.tree m l r k) true c)
    unfolding attach_child attach
    attach_left = Ensures-bind _ (maybe_collapse b c) _ λ c' e.
        Ensures-bind _ (attach_slot l c') _ λ s es.
          let (slot, free) =
            Ensures_at _ _ s es (attach_slot-RepsSlot l c c' pl q ht.1 hc (same_hash c' e)) in
          (refl, (ht.0, slot, ht.2, still_leaf q pr), free)

    pub attach_right :
        Ensures
          (λ t'. (node_of t' ≡ m) × Reps t' (Partial.node n pl q) × (pr ≡ Partial.absent))
          (attach_child b (ProofTree.tree m l r k) false c)
    unfolding attach_child attach
    attach_right = Ensures-bind _ (maybe_collapse b c) _ λ c' e.
        Ensures-bind _ (attach_slot r c') _ λ s es.
          let (slot, free) =
            Ensures_at _ _ s es (attach_slot-RepsSlot r c c' pr q ht.2 hc (same_hash c' e)) in
          (refl, (ht.0, ht.1, slot, still_leaf pl q), free)
