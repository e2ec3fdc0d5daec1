-- ===== src/Proofs/Tree/Layer.antt =====
-- `LayerIter` of src/proofs/tree.rs: the nodes at a depth, from left to right. The top of the stack
-- comes first.
use merk.Prelude.{
  ℕ, zero, suc, ◌+◌, ◌-◌, ◌≡◌, ◌≢◌, refl, sym, ap, ◌∙◌, inl, inr, Bool, true, false, List, [], ◌∷◌,
  ◌++◌, Option, none, some, if◌then◌else◌, length, length-append, append_assoc, append-nil,
  Bool-cases, arith,
}
use merk.Bytes.{Bytes, eq_bytes}
use merk.Bytes.Order.{eq_bytes_refl, eq_of_eq_bytes}
use merk.Outcome.{Result, ok, panic, ◌>>=◌}
use merk.Hash.{Hasher}
use merk.Proofs.Tree.{ProofTree, Slot, hash}

abbrev same_hash : Result Bytes → Result Bytes → Bool
same_hash (ok h) (ok h') = eq_bytes h h'
same_hash _ _ = false

-- `==` of two trees: their hashes are the same
abbrev pub eq_tree : ⦃hasher : Hasher⦄ → ProofTree → ProofTree → Bool
eq_tree t t' = same_hash (hash t) (hash t')

-- `child(left).unwrap()`
abbrev pub expect_slot : Slot → Result ProofTree
expect_slot Slot.vacant = panic
expect_slot (Slot.occupied t h) = ok t

abbrev pub left_child : ProofTree → Result ProofTree
left_child (ProofTree.tree node l r n) = expect_slot l

abbrev pub right_child : ProofTree → Result ProofTree
right_child (ProofTree.tree node l r n) = expect_slot r

-- `traverse_to_start`, and the inner loop of `next`: left children, down by a number of steps
abbrev pub traverse_to_start : ℕ → ProofTree → List ProofTree → Result (List ProofTree)
traverse_to_start zero t stack = ok (t ∷ stack)
traverse_to_start (suc n) t stack = do child ← left_child t; traverse_to_start n child (t ∷ stack)

abbrev pub go_on :
    (List ProofTree → Result (List ProofTree))
    → Option ProofTree × List ProofTree
    → Result (List ProofTree)
go_on more (none, stack) = ok []
go_on more (some item, stack) = do items ← more stack; ok (item ∷ items)

module _ ⦃hasher : Hasher⦄ where
  -- the loop of `next`, on what is below the node that was popped
  unfoldable pub turn_layer : ℕ → ProofTree → List ProofTree → Result (List ProofTree)
  turn_layer depth popped [] = ok []
  turn_layer depth popped (parent ∷ stack) =
      let up = turn_layer depth parent stack in
      left_child parent >>= λ left. right_child parent >>= λ right.
      if eq_tree left popped
      then traverse_to_start (depth - length (parent ∷ stack)) right (parent ∷ stack)
      else up

  -- `LayerIter::next`: the item, and the stack that is left
  unfoldable pub next : ℕ → List ProofTree → Result (Option ProofTree × List ProofTree)
  unfolding turn_layer
  next depth [] = ok (none, [])
  next depth (item ∷ stack) = do stack' ← turn_layer depth item stack; ok (some item, stack')

  -- what a loop over the iterator sees, on fuel
  unfoldable pub collect : ℕ → ℕ → List ProofTree → Result (List ProofTree)
  unfolding next
  collect zero depth stack = panic
  collect (suc fuel) depth stack = next depth stack >>= go_on (collect fuel depth)

  -- `layer`, collected
  unfoldable pub layer : ℕ → ProofTree → ℕ → Result (List ProofTree)
  unfolding collect
  layer fuel t depth = do stack ← traverse_to_start depth t []; collect fuel depth stack

-- the nodes at a depth, from left to right
abbrev mutual
  pub nodes_at : ℕ → ProofTree → List ProofTree
  nodes_at zero t = t ∷ []
  nodes_at (suc n) (ProofTree.tree node l r k) = slot_nodes_at n l ++ slot_nodes_at n r

  pub slot_nodes_at : ℕ → Slot → List ProofTree
  slot_nodes_at n Slot.vacant = []
  slot_nodes_at n (Slot.occupied t h) = nodes_at n t

module _ ⦃hasher : Hasher⦄ where
  -- Down to a depth, every node has two children, with hashes that differ.
  abbrev pub Forks : ℕ → ProofTree → Type 0
  Forks zero t = Unit
  Forks (suc n) (ProofTree.tree node (Slot.occupied a ha) (Slot.occupied b hb) k) =
      ((x : Bytes) × (y : Bytes) × (hash a ≡ ok x) × (hash b ≡ ok y) × (x ≢ y))
      × Forks n a
      × Forks n b
  Forks (suc n) t = ⊥

  -- From the leftmost node of a subtree, the loop gives the subtree's nodes at the depth, and then
  -- goes on behind the subtree.
  collect-nodes_at :
      (n depth fuel : ℕ) (t : ProofTree) (stack next_stack rest : List ProofTree)
      → depth ≡ length stack + n
      → Forks n t
      → turn_layer depth t stack ≡ ok next_stack
      → collect fuel depth next_stack ≡ ok rest
      → (start : List ProofTree) × (traverse_to_start n t stack ≡ ok start)
        × (collect (length (nodes_at n t) + fuel) depth start ≡ ok (nodes_at n t ++ rest))
  unfolding next collect
  collect-nodes_at zero depth fuel t stack next_stack rest d f turns more =
      let count : 1 + fuel ≡ suc fuel = omega arith in
      (t ∷ stack, refl, rw (count, turns, more) refl)
  collect-nodes_at (suc n) depth fuel (ProofTree.tree node Slot.vacant b k) stack next_stack rest d
        f turns more =
      elim f [ ]
  collect-nodes_at (suc n) depth fuel (ProofTree.tree node (Slot.occupied a ha) Slot.vacant k) stack
        next_stack rest d f turns more =
      elim f [ ]
  collect-nodes_at (suc n) depth fuel
        (ProofTree.tree node (Slot.occupied a ha) (Slot.occupied b hb) k) stack next_stack rest d
        ((x, y, ea, eb, differ), fa, fb) turns more =
      let t = ProofTree.tree node (Slot.occupied a ha) (Slot.occupied b hb) k in
      let other : eq_tree a b ≡ false = rw (ea, eb) (distinct x y differ) in
      let same : eq_tree a a ≡ true = rw ea (eq_bytes_refl x) in
      let up : turn_layer depth b (t ∷ stack) ≡ ok next_stack = rw (turn_layer, other) turns in
      let (right, started, collected) =
        collect-nodes_at n depth fuel b (t ∷ stack) next_stack rest (omega arith) fb up more in
      let steps : depth - length (t ∷ stack) ≡ n = omega arith in
      let turned : turn_layer depth a (t ∷ stack) ≡ ok right =
        rw (turn_layer, same, steps) started in
      let (left, started', collected') =
        collect-nodes_at n depth (length (nodes_at n b) + fuel) a (t ∷ stack) right _ (omega arith)
          fa turned collected in
      let count : length (nodes_at n a ++ nodes_at n b) + fuel
          ≡ length (nodes_at n a) + (length (nodes_at n b) + fuel) =
        let h = length-append (nodes_at n a) (nodes_at n b) in omega arith in
      (
        left,
        started',
        ap (λ f. collect f depth left) count
            ∙ collected'
            ∙ ap ok (sym (append_assoc (nodes_at n a) (nodes_at n b) rest)),
      )
    where
      distinct : (x y : Bytes) → x ≢ y → eq_bytes x y ≡ false
      distinct x y h = elim (Bool-cases (eq_bytes x y)) [
        | inl same ↦ absurd (h (eq_of_eq_bytes x y same))
        | inr other ↦ other
      ]

  -- On a tree whose nodes above a depth all have two children, with hashes that differ, the
  -- iterator gives the nodes at that depth, from left to right, and ends. The loop over it has fuel
  -- for each node and for the end.
  pub layer-nodes_at :
      (depth : ℕ) (t : ProofTree)
      → Forks depth t
      → layer (length (nodes_at depth t) + 1) t depth ≡ ok (nodes_at depth t)
  unfolding layer next collect
  layer-nodes_at depth t f =
      let (start, started, collected) =
        collect-nodes_at depth depth 1 t [] [] [] (omega arith) f refl refl in
      rw (started, collected) (ap ok (append-nil (nodes_at depth t)))
