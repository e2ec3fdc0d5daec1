-- ===== src/Proofs/Tree.antt =====
-- src/proofs/tree.rs: the partial tree that a proof describes, and `execute`, which builds it.
pub mod Partial
pub mod Attach
pub mod Execute
pub mod Shape
pub mod Postfix
pub mod Visit
pub mod Layer
pub mod WellFormed
use merk.Prelude.{
  ℕ, ◌+◌, ◌≡◌, Bool, true, false, List, [], ◌∷◌, Option, none, some, max, if◌then◌else◌,
}
use merk.Bytes.{Bytes, le_bytes}
use merk.Outcome.{Result, ok, err, panic, ◌>>=◌, Error}
use merk.Hash.{Hasher, null_hash, kv_hash, node_hash}
use merk.Proofs.{Node, Op}

-- `tree node left right height`, and a slot for `Option<Child>`: nothing, or a tree and its hash.
mutual
  pub data ProofTree : Type 0 where
    tree : Node → Slot → Slot → ℕ → ProofTree

  pub data Slot : Type 0 where
    vacant : Slot
    occupied : ProofTree → Bytes → Slot

-- `From<Node>`
unfoldable pub of_node : Node → ProofTree
of_node node = ProofTree.tree node Slot.vacant Slot.vacant 1

abbrev pub node_of : ProofTree → Node
node_of (ProofTree.tree node l r n) = node

abbrev pub height : ProofTree → ℕ
height (ProofTree.tree node l r n) = n

abbrev pub child_hash : Slot → Bytes
child_hash Slot.vacant = null_hash
child_hash (Slot.occupied t hash) = hash

module _ ⦃hasher : Hasher⦄ where
  -- A node of kind `Hash` has the hash that it names, whatever is attached to it.
  unfoldable pub hash : ProofTree → Result Bytes
  hash (ProofTree.tree (Node.hash h) l r n) = ok h
  hash (ProofTree.tree (Node.kv_hash h) l r n) = ok (node_hash h (child_hash l) (child_hash r))
  hash (ProofTree.tree (Node.kv key value) l r n) = do
    h ← kv_hash key value
    ok (node_hash h (child_hash l) (child_hash r))

  unfoldable pub attach_slot : Slot → ProofTree → Result Slot
  unfolding hash
  attach_slot (Slot.occupied t h) c = err Error.attach
  attach_slot Slot.vacant c = do h ← hash c; ok (Slot.occupied c h)

  unfoldable pub attach : ProofTree → Bool → ProofTree → Result ProofTree
  unfolding attach_slot
  attach (ProofTree.tree node l r n) true c = do
    l' ← attach_slot l c
    ok (ProofTree.tree node l' r (max n (height c + 1)))
  attach (ProofTree.tree node l r n) false c = do
    r' ← attach_slot r c
    ok (ProofTree.tree node l r' (max n (height c + 1)))

  unfoldable pub try_into_hash : ProofTree → Result ProofTree
  unfolding hash of_node
  try_into_hash t = do h ← hash t; ok (of_node (Node.hash h))

  abbrev pub maybe_collapse : Bool → ProofTree → Result ProofTree
  maybe_collapse true t = try_into_hash t
  maybe_collapse false t = ok t

  -- `parent.attach(left, if collapse { child.try_into_hash()? } else { child })?`
  unfoldable pub attach_child : Bool → ProofTree → Bool → ProofTree → Result ProofTree
  attach_child collapse parent left child = maybe_collapse collapse child >>= attach parent left

-- The variables of the loop of `execute`; `visited` is what the closure `visit_node` captures.
pub record Machine (S : Type 0) : Type 0 where
  pub stack : List ProofTree
  pub last_key : Option Bytes
  pub visited : S

abbrev pub pop : List ProofTree → Result (ProofTree × List ProofTree)
pop [] = err Error.stack_underflow
pop (t ∷ stack) = ok (t, stack)

-- Keys should always increase; the key becomes the last one.
unfoldable pub check_key : Option Bytes → Node → Result (Option Bytes)
check_key none (Node.kv key value) = ok (some key)
check_key (some last) (Node.kv key value) =
    if le_bytes key last then err Error.key else ok (some key)
check_key last (Node.hash h) = ok last
check_key last (Node.kv_hash h) = ok last

module _ ⦃hasher : Hasher⦄ {S : Type 0} (collapse : Bool) (visit_node : S → Node → Result S) where
  -- one round of the loop
  unfoldable pub step : Op → Machine S → Result (Machine S)
  unfolding of_node check_key
  step Op.parent m = do
    (parent, rest) ← pop m.stack
    (child, rest') ← pop rest
    parent' ← attach_child collapse parent true child
    ok (record m { stack = parent' ∷ rest' })
  step Op.child m = do
    (child, rest) ← pop m.stack
    (parent, rest') ← pop rest
    parent' ← attach_child collapse parent false child
    ok (record m { stack = parent' ∷ rest' })
  step (Op.push node) m = do
    last ← check_key m.last_key node
    s ← visit_node m.visited node
    ok (record { stack = of_node node ∷ m.stack; last_key = last; visited = s })

  unfoldable pub run : List (Result Op) → Machine S → Result (Machine S)
  run [] m = ok m
  run (op? ∷ ops) m = op? >>= λ op. step op m >>= run ops

  -- The loop, then the test that one item is left on the stack.
  unfoldable pub finish : Machine S → Result (ProofTree × S)
  finish m = elim m.stack [
    | [] ↦ err Error.proof
    | t ∷ rest ↦ elim rest [ [] ↦ ok (t, m.visited) | _ ∷ _ ↦ err Error.proof ]
  ]

  unfoldable pub execute : List (Result Op) → S → Result (ProofTree × S)
  unfolding finish
  execute ops s = run ops (record { stack = []; last_key = none; visited = s }) >>= finish
