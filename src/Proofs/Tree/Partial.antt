-- ===== src/Proofs/Tree/Partial.antt =====
-- The trees that a proof's operators describe, with nothing collapsed: the ghost state that the
-- theorems about `execute` follow.
use merk.Prelude.{◌≡◌, Bool, true, false, List, [], ◌∷◌, ◌++◌, not, ◌&&◌}
use merk.Bytes.{Bytes}
use merk.Outcome.{Result, ok, err, panic, ◌>>=◌}
use merk.Hash.{Hasher, null_hash, kv_hash, node_hash}
use merk.Proofs.{Node, Op}
use merk.Proofs.Tree.{ProofTree, Slot}

pub data Partial : Type 0 where
  absent : Partial
  node : Node → Partial → Partial → Partial

-- the nodes from left to right
abbrev pub inorder : Partial → List Node
inorder Partial.absent = []
inorder (Partial.node n l r) = inorder l ++ (n ∷ inorder r)

-- What a stack (its top first) says from left to right.
abbrev pub inorder_stack : List Partial → List Node
inorder_stack [] = []
inorder_stack (p ∷ ps) = inorder_stack ps ++ inorder p

-- An operator's effect on the stack of these trees.
abbrev pub track : Op → List Partial → List Partial
track (Op.push n) ps = Partial.node n Partial.absent Partial.absent ∷ ps
track Op.parent (Partial.node n l r ∷ c ∷ ps) = Partial.node n c r ∷ ps
track Op.child (c ∷ Partial.node n l r ∷ ps) = Partial.node n l c ∷ ps
track _ ps = ps

abbrev pub track_all : List (Result Op) → List Partial → List Partial
track_all [] ps = ps
track_all (ok op ∷ ops) ps = track_all ops (track op ps)
track_all (err e ∷ ops) ps = ps
track_all (panic ∷ ops) ps = ps

-- The nodes that the operators push, in order, up to the first item that is no operator.
abbrev pub pushed : Op → List Node
pushed (Op.push n) = n ∷ []
pushed Op.parent = []
pushed Op.child = []

abbrev pub pushes : List (Result Op) → List Node
pushes [] = []
pushes (ok op ∷ ops) = pushed op ++ pushes ops
pushes (err e ∷ ops) = []
pushes (panic ∷ ops) = []

abbrev pub is_hash : Node → Bool
is_hash (Node.hash h) = true
is_hash _ = false

-- No operator attaches a child to a node of kind `Hash`; the list is the stack's nodes, top first.
unfoldable pub graft_free : List (Result Op) → List Node → Bool
graft_free (ok (Op.push n) ∷ ops) ns = graft_free ops (n ∷ ns)
graft_free (ok Op.parent ∷ ops) (p ∷ c ∷ ns) = not (is_hash p) && graft_free ops (p ∷ ns)
graft_free (ok Op.child ∷ ops) (c ∷ p ∷ ns) = not (is_hash p) && graft_free ops (p ∷ ns)
graft_free _ ns = true

module _ ⦃hasher : Hasher⦄ where
  abbrev pub hash_partial : Partial → Result Bytes
  hash_partial Partial.absent = ok null_hash
  hash_partial (Partial.node (Node.hash h) l r) = ok h
  hash_partial (Partial.node (Node.kv_hash h) l r) = do
    hl ← hash_partial l
    hr ← hash_partial r
    ok (node_hash h hl hr)
  hash_partial (Partial.node (Node.kv key value) l r) = do
    hl ← hash_partial l
    hr ← hash_partial r
    h ← kv_hash key value
    ok (node_hash h hl hr)

  -- Nothing hangs below a node of kind `Hash`.
  abbrev pub HashIsLeaf : Node → Partial → Partial → Type 0
  HashIsLeaf (Node.hash h) l r = (l ≡ Partial.absent) × (r ≡ Partial.absent)
  HashIsLeaf (Node.kv_hash h) l r = Unit
  HashIsLeaf (Node.kv key value) l r = Unit

  abbrev pub Leafy : Partial → Type 0
  Leafy Partial.absent = Unit
  Leafy (Partial.node n l r) = HashIsLeaf n l r × Leafy l × Leafy r

  -- A slot or a tree of `execute`, collapsed or not, stands for a partial tree.
  abbrev pub RepsSlot : Slot → Partial → Type 0
  RepsSlot Slot.vacant p = p ≡ Partial.absent
  RepsSlot (Slot.occupied t h) p = (hash_partial p ≡ ok h) × Leafy p

  abbrev pub Reps : ProofTree → Partial → Type 0
  Reps t Partial.absent = ⊥
  Reps (ProofTree.tree n l r k) (Partial.node n' pl pr) =
      (n ≡ n') × RepsSlot l pl × RepsSlot r pr × HashIsLeaf n' pl pr

  abbrev pub RepStack : List ProofTree → List Partial → Type 0
  RepStack [] [] = Unit
  RepStack [] (p ∷ ps) = ⊥
  RepStack (t ∷ ts) [] = ⊥
  RepStack (t ∷ ts) (p ∷ ps) = Reps t p × RepStack ts ps
