-- ===== src/Proofs/Tree/Visit.antt =====
-- `Tree::visit_nodes` and `Tree::visit_refs` of src/proofs/tree.rs, the closure as a function on
-- what it captures, and the order in which they see what `execute` has built.
use merk.Prelude.{
  ◌≡◌, refl, sym, ap, ◌∙◌, Bool, true, false, List, [], ◌∷◌, ◌++◌, Option, none, append_assoc,
  append-nil, if◌then◌else◌,
}
use merk.Bytes.{Bytes}
use merk.Outcome.{
  Result, ok, err, panic, ◌>>=◌, Ensures, Ensures-bind, Ensures_at, Ensures-imp, >>=-eq-ok,
}
use merk.Hash.{Hasher}
use merk.Proofs.{Node, Op}
use merk.Proofs.Tree.{
  ProofTree, Slot, of_node, hash, attach_slot, attach, attach_child, check_key, Machine, step, run,
  finish, execute,
}
use merk.Proofs.Tree.Partial.{pushed, pushes}

module _ {S : Type 0} where
  abbrev mutual
    pub visit_nodes : (S → Node → S) → ProofTree → S → S
    visit_nodes visit_node (ProofTree.tree node l r n) s =
        visit_slot visit_node r (visit_node (visit_slot visit_node l s) node)

    pub visit_slot : (S → Node → S) → Slot → S → S
    visit_slot visit_node Slot.vacant s = s
    visit_slot visit_node (Slot.occupied t hash) s = visit_nodes visit_node t s

  abbrev mutual
    pub visit_refs : (S → ProofTree → S) → ProofTree → S → S
    visit_refs visit_node (ProofTree.tree node l r n) s =
        visit_ref_slot visit_node r
          (visit_node (visit_ref_slot visit_node l s) (ProofTree.tree node l r n))

    pub visit_ref_slot : (S → ProofTree → S) → Slot → S → S
    visit_ref_slot visit_node Slot.vacant s = s
    visit_ref_slot visit_node (Slot.occupied t hash) s = visit_refs visit_node t s

-- the nodes that a visit collects
abbrev pub collected : ProofTree → List Node
collected t = visit_nodes (λ ns n. ns ++ (n ∷ [])) t []

-- the nodes from left to right
abbrev mutual
  pub nodes : ProofTree → List Node
  nodes (ProofTree.tree node l r n) = slot_nodes l ++ (node ∷ slot_nodes r)

  pub slot_nodes : Slot → List Node
  slot_nodes Slot.vacant = []
  slot_nodes (Slot.occupied t hash) = nodes t

mutual
  visit_nodes-nodes :
      (t : ProofTree) (ns : List Node) → visit_nodes (λ ns n. ns ++ (n ∷ [])) t ns ≡ ns ++ nodes t
  visit_nodes-nodes (ProofTree.tree node l r n) ns =
      visit_slot-nodes r _
      ∙ ap (λ xs. (xs ++ (node ∷ [])) ++ slot_nodes r) (visit_slot-nodes l ns)
      ∙ (simp append_assoc)

  visit_slot-nodes :
      (s : Slot) (ns : List Node) → visit_slot (λ ns n. ns ++ (n ∷ [])) s ns ≡ ns ++ slot_nodes s
  visit_slot-nodes Slot.vacant ns = sym (append-nil ns)
  visit_slot-nodes (Slot.occupied t hash) ns = visit_nodes-nodes t ns

-- What a stack, its top first, says from left to right.
abbrev stack_nodes : List ProofTree → List Node
stack_nodes [] = []
stack_nodes (t ∷ ts) = stack_nodes ts ++ nodes t

occupied_nodes :
    (h : Result Bytes) (c : ProofTree) (s : Slot)
    → (h >>= λ x. ok (Slot.occupied c x)) ≡ ok s
    → slot_nodes s ≡ nodes c
occupied_nodes (ok h) c s e = let same : Slot.occupied c h ≡ s = cc in ap slot_nodes (sym same)
occupied_nodes (err x) c s e = cc
occupied_nodes panic c s e = cc

module _ ⦃hasher : Hasher⦄ where
  attach-nodes :
      (t c : ProofTree) (left : Bool)
      → Ensures
          (λ t'. nodes t' ≡ (if left then nodes c ++ nodes t else nodes t ++ nodes c))
          (attach t left c)
  unfolding attach attach_slot
  attach-nodes (ProofTree.tree n Slot.vacant r k) c true =
      Ensures-bind _ (hash c >>= _) _
        λ s e. ap (λ xs. xs ++ (n ∷ slot_nodes r)) (occupied_nodes (hash c) c s e)
  attach-nodes (ProofTree.tree n (Slot.occupied t h) r k) c true = tt
  attach-nodes (ProofTree.tree n l Slot.vacant k) c false = Ensures-bind _ (hash c >>= _) _ λ s e.
      ap (λ xs. slot_nodes l ++ (n ∷ xs)) (occupied_nodes (hash c) c s e)
      ∙ sym (append_assoc (slot_nodes l) (n ∷ []) (nodes c))
  attach-nodes (ProofTree.tree n l (Slot.occupied t h) k) c false = tt

module _ ⦃hasher : Hasher⦄ {S : Type 0} (visit_node : S → Node → Result S) where
  step-nodes :
      (op : Op) (m : Machine S)
      → Ensures
          (λ m'. stack_nodes m'.stack ≡ stack_nodes m.stack ++ pushed op)
          (step false visit_node op m)
  unfolding step attach_child of_node
  step-nodes (Op.push n) m =
      Ensures-bind _ (check_key m.last_key n) _
        λ last e. Ensures-bind _ (visit_node m.visited n) _ λ s e'. refl
  step-nodes Op.parent m = on_stack m.stack m.last_key m.visited
    where
      on_stack :
          (ts : List ProofTree) (k : Option Bytes) (s : S)
          → Ensures
              (λ m'. stack_nodes m'.stack ≡ stack_nodes ts ++ [])
              (step false visit_node Op.parent (record { stack = ts; last_key = k; visited = s }))
      on_stack [] k s = tt
      on_stack (t ∷ []) k s = tt
      on_stack (t ∷ c ∷ ts) k s = Ensures-bind _ (attach t true c) _ λ t' e.
          ap (λ xs. stack_nodes ts ++ xs) (Ensures_at _ _ t' e (attach-nodes t c true))
          ∙ (simp (append_assoc, append-nil))
  step-nodes Op.child m = on_stack m.stack m.last_key m.visited
    where
      on_stack :
          (ts : List ProofTree) (k : Option Bytes) (s : S)
          → Ensures
              (λ m'. stack_nodes m'.stack ≡ stack_nodes ts ++ [])
              (step false visit_node Op.child (record { stack = ts; last_key = k; visited = s }))
      on_stack [] k s = tt
      on_stack (c ∷ []) k s = tt
      on_stack (c ∷ t ∷ ts) k s = Ensures-bind _ (attach t false c) _ λ t' e.
          ap (λ xs. stack_nodes ts ++ xs) (Ensures_at _ _ t' e (attach-nodes t c false))
          ∙ (simp (append_assoc, append-nil))

  run-nodes :
      (ops : List (Result Op)) (m : Machine S)
      → Ensures
          (λ m'. stack_nodes m'.stack ≡ stack_nodes m.stack ++ pushes ops)
          (run false visit_node ops m)
  unfolding run
  run-nodes [] m = sym (append-nil (stack_nodes m.stack))
  run-nodes (ok op ∷ ops) m = Ensures-bind _ (step false visit_node op m) _ λ m' e.
      Ensures-imp _ _ (run false visit_node ops m')
        (λ m'' h.
          h
          ∙ ap (λ xs. xs ++ pushes ops) (Ensures_at _ _ m' e (step-nodes op m))
          ∙ append_assoc (stack_nodes m.stack) (pushed op) (pushes ops))
        (run-nodes ops m')
  run-nodes (err x ∷ ops) m = tt
  run-nodes (panic ∷ ops) m = tt

  finish-nodes :
      (ts : List ProofTree) (k : Option Bytes) (s : S) (r : ProofTree × S)
      → finish false visit_node (record { stack = ts; last_key = k; visited = s }) ≡ ok r
      → nodes r.0 ≡ stack_nodes ts
  unfolding finish
  finish-nodes [] k s r e = cc
  finish-nodes (t ∷ []) k s r e = let same : (t, s) ≡ r = cc in ap (λ x. nodes x.0) (sym same)
  finish-nodes (t ∷ u ∷ ts) k s r e = cc

  -- A visit of the tree that `execute` builds without collapsing collects exactly the nodes that
  -- the operators push, in the order of the pushes.
  pub collected-execute :
      (ops : List (Result Op)) (s : S) (r : ProofTree × S)
      → execute false visit_node ops s ≡ ok r
      → collected r.0 ≡ pushes ops
  unfolding execute
  collected-execute ops s r e =
      let m₀ : Machine S = record { stack = []; last_key = none; visited = s } in
      let (m, ran, finished) = >>=-eq-ok (run false visit_node ops m₀) _ e in
      visit_nodes-nodes r.0 []
      ∙ finish-nodes m.stack m.last_key m.visited r finished
      ∙ Ensures_at _ _ m ran (run-nodes ops m₀)
