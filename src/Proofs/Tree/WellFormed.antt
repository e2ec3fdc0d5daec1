-- ===== src/Proofs/Tree/WellFormed.antt =====
-- What `attach` keeps true of a partial tree: its height, and the hashes of its children.
use mathlib.Core.Path.{subst}
use merk.Prelude.{
  ◌≡◌, refl, ◌+◌, ℕ, max, Bool, true, false, List, [], ◌∷◌, Option, none, All, arith,
}
use merk.Bytes.{Bytes}
use merk.Outcome.{Result, ok, err, panic, Ensures, Ensures-bind, Ensures_at, >>=-eq-ok}
use merk.Hash.{Hasher}
use merk.Proofs.{Node, Op}
use merk.Proofs.Tree.{
  ProofTree, Slot, height, of_node, hash, attach_slot, attach, attach_child, check_key, Machine,
  step, run, finish, execute,
}

abbrev pub top : Slot → ℕ
top Slot.vacant = 0
top (Slot.occupied t h) = height t

module _ ⦃hasher : Hasher⦄ where
  abbrev mutual
    pub WellFormed : ProofTree → Type 0
    WellFormed (ProofTree.tree node l r n) =
        (n ≡ 1 + max (top l) (top r)) × WellFormedSlot l × WellFormedSlot r

    pub WellFormedSlot : Slot → Type 0
    WellFormedSlot Slot.vacant = Unit
    WellFormedSlot (Slot.occupied t h) = (hash t ≡ ok h) × WellFormed t

  -- the slot that a child goes to
  slot-WellFormed :
      (c : ProofTree)
      → WellFormed c
      → Ensures (λ s. WellFormedSlot s × (top s ≡ height c)) (attach_slot Slot.vacant c)
  unfolding attach_slot
  slot-WellFormed c w = Ensures-bind _ (hash c) _ λ h e. ((e, w), refl)

  attach-WellFormed :
      (t c : ProofTree) (left : Bool)
      → WellFormed t
      → WellFormed c
      → Ensures WellFormed (attach t left c)
  unfolding attach attach_slot
  attach-WellFormed (ProofTree.tree n Slot.vacant r k) c true w v =
      Ensures-bind WellFormed (attach_slot Slot.vacant c) _ λ s e.
        let (ws, es) = Ensures_at _ _ s e (slot-WellFormed c v) in
        let high : max k (height c + 1) ≡ 1 + max (top s) (top r) = let h = w.0 in omega arith in
        (high, ws, w.2)
  attach-WellFormed (ProofTree.tree n (Slot.occupied t h) r k) c true w v = tt
  attach-WellFormed (ProofTree.tree n l Slot.vacant k) c false w v =
      Ensures-bind WellFormed (attach_slot Slot.vacant c) _ λ s e.
        let (ws, es) = Ensures_at _ _ s e (slot-WellFormed c v) in
        let high : max k (height c + 1) ≡ 1 + max (top l) (top s) = let h = w.0 in omega arith in
        (high, w.1, ws)
  attach-WellFormed (ProofTree.tree n l (Slot.occupied t h) k) c false w v = tt

module _ ⦃hasher : Hasher⦄ {S : Type 0} (visit_node : S → Node → Result S) where
  step-WellFormed :
      (op : Op) (m : Machine S)
      → All WellFormed m.stack
      → Ensures (λ m'. All WellFormed m'.stack) (step false visit_node op m)
  unfolding step attach_child of_node
  step-WellFormed (Op.push n) m w =
      Ensures-bind _ (check_key m.last_key n) _
        λ last e. Ensures-bind _ (visit_node m.visited n) _ λ s e'. ((refl, tt, tt), w)
  step-WellFormed Op.parent m w = on_stack m.stack m.last_key m.visited w
    where
      on_stack :
          (ts : List ProofTree) (k : Option Bytes) (s : S)
          → All WellFormed ts
          → Ensures
              (λ m'. All WellFormed m'.stack)
              (step false visit_node Op.parent (record { stack = ts; last_key = k; visited = s }))
      on_stack [] k s w = tt
      on_stack (t ∷ []) k s w = tt
      on_stack (t ∷ c ∷ ts) k s (wt, (wc, ws)) =
          Ensures-bind _ (attach t true c) _
            λ t' e. (Ensures_at _ _ t' e (attach-WellFormed t c true wt wc), ws)
  step-WellFormed Op.child m w = on_stack m.stack m.last_key m.visited w
    where
      on_stack :
          (ts : List ProofTree) (k : Option Bytes) (s : S)
          → All WellFormed ts
          → Ensures
              (λ m'. All WellFormed m'.stack)
              (step false visit_node Op.child (record { stack = ts; last_key = k; visited = s }))
      on_stack [] k s w = tt
      on_stack (t ∷ []) k s w = tt
      on_stack (c ∷ t ∷ ts) k s (wc, (wt, ws)) =
          Ensures-bind _ (attach t false c) _
            λ t' e. (Ensures_at _ _ t' e (attach-WellFormed t c false wt wc), ws)

  run-WellFormed :
      (ops : List (Result Op)) (m : Machine S)
      → All WellFormed m.stack
      → Ensures (λ m'. All WellFormed m'.stack) (run false visit_node ops m)
  unfolding run
  run-WellFormed [] m w = w
  run-WellFormed (ok op ∷ ops) m w =
      Ensures-bind _ (step false visit_node op m) _
        λ m' e. run-WellFormed ops m' (Ensures_at _ _ m' e (step-WellFormed op m w))
  run-WellFormed (err x ∷ ops) m w = tt
  run-WellFormed (panic ∷ ops) m w = tt

  -- What `execute` builds without collapsing has true heights and the hashes of its children.
  pub execute-WellFormed :
      (ops : List (Result Op)) (s : S) (r : ProofTree × S)
      → execute false visit_node ops s ≡ ok r
      → WellFormed r.0
  unfolding execute finish
  execute-WellFormed ops s r e =
      let (m, ran, done) = >>=-eq-ok (run false visit_node ops _) _ e in
      by_stack m.stack m.visited (Ensures_at _ _ m ran (run-WellFormed ops _ tt)) r done
    where
      by_stack :
          (ts : List ProofTree) (s : S)
          → All WellFormed ts
          → (r : ProofTree × S)
          → finish false visit_node (record { stack = ts; last_key = none; visited = s }) ≡ ok r
          → WellFormed r.0
      by_stack [] s w r e = cc
      by_stack (t ∷ []) s w r e = let same : (t, s) ≡ r = cc in subst (λ r. WellFormed r.0) same w.0
      by_stack (t ∷ t' ∷ ts) s w r e = cc
