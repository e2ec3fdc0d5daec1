-- ===== src/Proofs/Tree/Shape.antt =====
-- The parts of a partial tree that has a hash, the visits of its nodes, and the shape of what
-- `execute` makes of them.
use merk.Prelude.{◌≡◌, refl, sym, ◌∙◌, Bool, true, false, List, ◌∷◌, ◌++◌, ℕ}
use merk.Bytes.{Bytes}
use merk.Outcome.{Result, ok, >>=-eq-ok}
use merk.Hash.{Hasher, null_hash}
use merk.Proofs.{Node}
use merk.Proofs.Tree.{ProofTree, Slot, child_hash, hash}
use merk.Proofs.Tree.Partial.{Partial, hash_partial, Leafy}
use merk.Proofs.Tree.Execute.{visit_all, visit_all-append}

-- the visits of a run of nodes, a node, and another run
pub record Visits {S : Type 0} (f : S → Node → Result S) (s s' : S) (xs : List Node) (n : Node)
    (ys : List Node) : Type 0 where
  pub before : S
  pub after : S
  pub first : visit_all f s xs ≡ ok before
  pub here : f before n ≡ ok after
  pub rest : visit_all f after ys ≡ ok s'

pub visit_all-Visits :
    {S : Type 0} (f : S → Node → Result S) (s s' : S) (xs : List Node) (n : Node) (ys : List Node)
    → visit_all f s (xs ++ (n ∷ ys)) ≡ ok s'
    → Visits f s s' xs n ys
visit_all-Visits f s s' xs n ys e =
    let (a, ea, e') = >>=-eq-ok (visit_all f s xs) _ (sym (visit_all-append f s xs (n ∷ ys)) ∙ e) in
    let (b, eb, e'') = >>=-eq-ok (f a n) _ e' in
    record { before = a; after = b; first = ea; here = eb; rest = e'' }

-- A tree that has the nodes of a partial tree where that has them.
abbrev mutual
  pub SameShape : ProofTree → Partial → Type 0
  SameShape (ProofTree.tree n l r k) Partial.absent = ⊥
  SameShape (ProofTree.tree n l r k) (Partial.node n' a b) =
      (n ≡ n') × SlotShape l a × SlotShape r b

  pub SlotShape : Slot → Partial → Type 0
  SlotShape Slot.vacant p = p ≡ Partial.absent
  SlotShape (Slot.occupied t h) p = SameShape t p

-- without collapsing, the shape is kept
abbrev pub Kept : Bool → ProofTree → Partial → Type 0
Kept true t p = Unit
Kept false t p = SameShape t p

abbrev pub KeptSlot : Bool → Slot → Partial → Type 0
KeptSlot true s p = Unit
KeptSlot false s p = SlotShape s p

pub KeptSlot-vacant : (b : Bool) → KeptSlot b Slot.vacant Partial.absent
KeptSlot-vacant true = tt
KeptSlot-vacant false = refl

pub Kept-node :
    (b : Bool) (n : Node) (sl sr : Slot) (k : ℕ) (l r : Partial)
    → KeptSlot b sl l
    → KeptSlot b sr r
    → Kept b (ProofTree.tree n sl sr k) (Partial.node n l r)
Kept-node true n sl sr k l r a c = tt
Kept-node false n sl sr k l r a c = (refl, a, c)

module _ ⦃hasher : Hasher⦄ where
  -- the parts of a tree that has a hash, and the hash of a tree that `execute` makes of them
  pub record Parts (n : Node) (l r : Partial) (h : Bytes) : Type 0 where
    pub left : Bytes
    pub right : Bytes
    pub left_hash : hash_partial l ≡ ok left
    pub right_hash : hash_partial r ≡ ok right
    pub whole :
        (sl sr : Slot) (k : ℕ)
        → child_hash sl ≡ left
        → child_hash sr ≡ right
        → hash (ProofTree.tree n sl sr k) ≡ ok h

  pub hash_partial-Parts :
      (n : Node) (l r : Partial) (h : Bytes)
      → Leafy (Partial.node n l r)
      → hash_partial (Partial.node n l r) ≡ ok h
      → Parts n l r h
  unfolding hash
  hash_partial-Parts (Node.hash x) l r h leafy e = record {
    left = null_hash;
    right = null_hash;
    left_hash = rw (leafy.0.0) refl;
    right_hash = rw (leafy.0.1) refl;
    whole = λ sl sr k a b. e;
  }
  hash_partial-Parts (Node.kv_hash x) l r h leafy e =
      let (hl, el, e') = >>=-eq-ok (hash_partial l) _ e in
      let (hr, er, e'') = >>=-eq-ok (hash_partial r) _ e' in
      record {
        left = hl;
        right = hr;
        left_hash = el;
        right_hash = er;
        whole = λ sl sr k a b. rw (a, b) e'';
      }
  hash_partial-Parts (Node.kv x v) l r h leafy e =
      let (hl, el, e') = >>=-eq-ok (hash_partial l) _ e in
      let (hr, er, e'') = >>=-eq-ok (hash_partial r) _ e' in
      record {
        left = hl;
        right = hr;
        left_hash = el;
        right_hash = er;
        whole = λ sl sr k a b. rw (a, b) e'';
      }
