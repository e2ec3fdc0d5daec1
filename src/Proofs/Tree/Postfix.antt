-- ===== src/Proofs/Tree/Postfix.antt =====
-- The operators that build a partial tree, and their execution.
use merk.Prelude.{
  ◌≡◌, refl, sym, ap, ◌∙◌, Bool, true, false, List, [], ◌∷◌, ◌++◌, Option, none, map, max, ◌+◌, ℕ,
}
use merk.Bytes.{Bytes}
use merk.Outcome.{Result, ok, ◌>>=◌, bind_chain}
use merk.Hash.{Hasher, null_hash}
use merk.Proofs.{Node, Op}
use merk.Proofs.Tree.{
  ProofTree, Slot, height, of_node, child_hash, hash, attach_slot, attach, try_into_hash,
  attach_child, Machine, check_key, step, run, finish, execute,
}
use merk.Proofs.Tree.Partial.{Partial, inorder, hash_partial, Leafy}
use merk.Proofs.Tree.Execute.{visit_all}
use merk.Proofs.Tree.Shape.{
  visit_all-Visits, Kept, KeptSlot, KeptSlot-vacant, Kept-node, hash_partial-Parts,
}

abbrev pub mark : Partial → Op → List Op
mark Partial.absent op = []
mark (Partial.node n l r) op = op ∷ []

abbrev pub program : Partial → List Op
program Partial.absent = []
program (Partial.node n l r) =
    program l ++ (Op.push n ∷ (mark l Op.parent ++ (program r ++ mark r Op.child)))

module _ ⦃hasher : Hasher⦄ where
  -- what the program of a partial tree leaves on the stack
  unfoldable pub Leaves : Bool → Partial → List ProofTree → Bytes → Type 0
  Leaves b Partial.absent ts h = (ts ≡ []) × (h ≡ null_hash)
  Leaves b (Partial.node n l r) ts h =
      (t : ProofTree) × (ts ≡ t ∷ []) × (hash t ≡ ok h) × Kept b t (Partial.node n l r)

  attach_child-ok :
      (b : Bool) (n : Node) (l r : Slot) (k : ℕ) (c : ProofTree) (h : Bytes) (p : Partial)
      → hash c ≡ ok h
      → Kept b c p
      → (s : Slot) × (k' : ℕ) × (child_hash s ≡ h)
        × KeptSlot b s p
        × (l ≡ Slot.vacant
            → attach_child b (ProofTree.tree n l r k) true c ≡ ok (ProofTree.tree n s r k'))
        × (r ≡ Slot.vacant
            → attach_child b (ProofTree.tree n l r k) false c ≡ ok (ProofTree.tree n l s k'))
  unfolding attach_child try_into_hash attach attach_slot of_node hash
  attach_child-ok true n l r k c h p e q = (
    Slot.occupied (of_node (Node.hash h)) h,
    max k 2,
    refl,
    tt,
    (λ v. rw (v, e) refl),
    (λ v. rw (v, e) refl),
  )
  attach_child-ok false n l r k c h p e q = (
    Slot.occupied c h,
    max k (height c + 1),
    refl,
    q,
    (λ v. rw (v, e) refl),
    (λ v. rw (v, e) refl),
  )

module _ ⦃hasher : Hasher⦄ {S : Type 0} (collapse : Bool) (visit_node : S → Node → Result S) where
  -- the loop on operators that all decode
  abbrev pub steps : List Op → Machine S → Result (Machine S)
  steps ops m = run collapse visit_node (map ok ops) m

  steps-append : (xs ys : List Op) (m : Machine S) → steps (xs ++ ys) m ≡ (steps xs m >>= steps ys)
  unfolding run
  steps-append [] ys m = refl
  steps-append (x ∷ xs) ys m =
      bind_chain (step collapse visit_node x m) _ _ _ (λ m'. steps-append xs ys m')

  -- two runs of operators, one after the other
  steps_both :
      (xs ys : List Op) (m m' m'' : Machine S)
      → steps xs m ≡ ok m'
      → steps ys m' ≡ ok m''
      → steps (xs ++ ys) m ≡ ok m''
  steps_both xs ys m m' m'' e f = steps-append xs ys m ∙ ap (λ r. r >>= steps ys) e ∙ f

  module _ (last : Option Bytes) (s : S) (stack : List ProofTree) where
    abbrev pub at : List ProofTree → Machine S
    at ts = record { stack = ts; last_key = last; visited = s }

    mark-parent :
        (n : Node) (l : Partial) (ts : List ProofTree) (hl : Bytes)
        → Leaves collapse l ts hl
        → (sl : Slot) × (k : ℕ) × (child_hash sl ≡ hl)
          × KeptSlot collapse sl l
          × (steps (mark l Op.parent) (at (of_node n ∷ (ts ++ stack)))
              ≡ ok (at (ProofTree.tree n sl Slot.vacant k ∷ stack)))
    unfolding run step of_node Leaves
    mark-parent n Partial.absent ts hl e =
        (Slot.vacant, 1, sym e.1, KeptSlot-vacant collapse, rw (e.0) refl)
    mark-parent n (Partial.node n' a b) ts hl (t, e, eh, kept) =
        let (sl, k, same, kept', left, right) =
          attach_child-ok collapse n Slot.vacant Slot.vacant 1 t hl (Partial.node n' a b) eh kept in
        (sl, k, same, kept', rw (e, left refl) refl)

    mark-child :
        (n : Node) (sl : Slot) (k : ℕ) (r : Partial) (ts : List ProofTree) (hr : Bytes)
        → Leaves collapse r ts hr
        → (sr : Slot) × (k' : ℕ) × (child_hash sr ≡ hr)
          × KeptSlot collapse sr r
          × (steps (mark r Op.child) (at (ts ++ (ProofTree.tree n sl Slot.vacant k ∷ stack)))
              ≡ ok (at (ProofTree.tree n sl sr k' ∷ stack)))
    unfolding run step Leaves
    mark-child n sl k Partial.absent ts hr e =
        (Slot.vacant, k, sym e.1, KeptSlot-vacant collapse, rw (e.0) refl)
    mark-child n sl k (Partial.node n' a b) ts hr (t, e, eh, kept) =
        let (sr, k', same, kept', left, right) =
          attach_child-ok collapse n sl Slot.vacant k t hr (Partial.node n' a b) eh kept in
        (sr, k', same, kept', rw (e, right refl) refl)

  -- The program of a partial tree that has a hash, with nothing below a `Hash`, runs to the end
  -- where its keys increase and the visits succeed: it leaves a tree with that hash on the stack,
  -- collapsed or not.
  pub steps-program :
      (p : Partial) (h : Bytes) (last last' : Option Bytes) (s s' : S) (stack : List ProofTree)
      → Leafy p
      → hash_partial p ≡ ok h
      → visit_all check_key last (inorder p) ≡ ok last'
      → visit_all visit_node s (inorder p) ≡ ok s'
      → (ts : List ProofTree) × Leaves collapse p ts h
        × (steps (program p) (at last s stack stack) ≡ ok (at last' s' stack (ts ++ stack)))
  unfolding run Leaves step of_node
  steps-program Partial.absent h last last' s s' stack leafy e c v =
      let k : last ≡ last' = cc in let w : s ≡ s' = cc in ([], (refl, cc), rw (k, w) refl)
  steps-program (Partial.node n l r) h last last' s s' stack leafy e c v =
      let parts = hash_partial-Parts n l r h leafy e in
      let cs = visit_all-Visits check_key last last' (inorder l) n (inorder r) c in
      let vs = visit_all-Visits visit_node s s' (inorder l) n (inorder r) v in
      let (tl, ll, el) =
        steps-program l parts.left last cs.before s vs.before stack leafy.1 parts.left_hash cs.first
          vs.first in
      let push : steps (Op.push n ∷ []) (at cs.before vs.before stack (tl ++ stack))
          ≡ ok (at cs.after vs.after stack (of_node n ∷ (tl ++ stack))) =
        rw (step, cs.here, vs.here) refl in
      let (sl, k, hl, keptl, em) = mark-parent cs.after vs.after stack n l tl parts.left ll in
      let parent = ProofTree.tree n sl Slot.vacant k in
      let (tr, lr, er) =
        steps-program r parts.right cs.after last' vs.after s' (parent ∷ stack) leafy.2
          parts.right_hash cs.rest vs.rest in
      let (sr, k', hr, keptr, en) = mark-child last' s' stack n sl k r tr parts.right lr in
      let t = ProofTree.tree n sl sr k' in
      let right_half = steps_both (program r) (mark r Op.child) _ _ _ er en in
      let upper_half =
        steps_both (mark l Op.parent) (program r ++ mark r Op.child) _ _ _ em right_half in
      let after_left = steps_both (Op.push n ∷ []) _ _ _ _ push upper_half in
      (
        t ∷ [],
        (t, refl, parts.whole sl sr k' hl hr, Kept-node collapse n sl sr k' l r keptl keptr),
        steps_both (program l) _ _ _ _ el after_left,
      )

module _ ⦃hasher : Hasher⦄ where
  -- `execute` on the operators of a partial tree
  pub execute-program :
      {S : Type 0} (collapse : Bool) (visit_node : S → Node → Result S) (p : Partial) (h : Bytes)
      (last : Option Bytes) (s s' : S)
      → (p ≡ Partial.absent → ⊥)
      → Leafy p
      → hash_partial p ≡ ok h
      → visit_all check_key none (inorder p) ≡ ok last
      → visit_all visit_node s (inorder p) ≡ ok s'
      → (t : ProofTree) × (execute collapse visit_node (map ok (program p)) s ≡ ok (t, s'))
        × (hash t ≡ ok h)
        × Kept collapse t p
  unfolding execute finish Leaves
  execute-program collapse visit_node Partial.absent h last s s' some_node leafy e c v =
      absurd (some_node refl)
  execute-program collapse visit_node (Partial.node n l r) h last s s' some_node leafy e c v =
      let (ts, (t, whole, eh, kept), done) =
        steps-program collapse visit_node (Partial.node n l r) h none last s s' [] leafy e c v in
      (t, ap (λ r. r >>= finish collapse visit_node) done ∙ (rw whole refl), eh, kept)
