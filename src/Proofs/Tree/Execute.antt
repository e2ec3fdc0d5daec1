-- ===== src/Proofs/Tree/Execute.antt =====
-- `execute` follows the partial trees, whether it collapses them or not.
use merk.Prelude.{
  ◌≡◌, refl, ap, ◌∙◌, Bool, true, false, List, [], ◌∷◌, ◌++◌, Option, none, map, not, ◌&&◌,
  append_assoc, append-nil,
}
use merk.Bytes.{Bytes}
use merk.Outcome.{
  Result, ok, err, panic, ◌>>=◌, Ensures, Ensures-bind, Ensures_at, Ensures-imp, bind_chain,
}
use merk.Hash.{Hasher}
use merk.Proofs.{Node, Op}
use merk.Proofs.Tree.{
  ProofTree, node_of, attach_child, check_key, Machine, step, run, finish, execute, hash,
}
use merk.Proofs.Tree.Partial.{
  Partial, inorder, inorder_stack, track, track_all, pushed, pushes, is_hash, graft_free,
  hash_partial, HashIsLeaf, Reps, RepStack, Leafy,
}
use merk.Proofs.Tree.Attach.{attach_left, attach_right, Reps-hash, Reps-Leafy}

absent_leaf : ⦃hasher : Hasher⦄ (n : Node) → HashIsLeaf n Partial.absent Partial.absent
absent_leaf (Node.hash h) = (refl, refl)
absent_leaf (Node.kv_hash h) = tt
absent_leaf (Node.kv k v) = tt

and_true : (a b : Bool) → (not a && b) ≡ true → (a ≡ false) × (b ≡ true)
and_true true b e = cc
and_true false b e = (refl, e)

module _ {S : Type 0} (visit_node : S → Node → Result S) where
  -- `visit_node` on each node in turn
  abbrev pub visit_all : S → List Node → Result S
  visit_all s [] = ok s
  visit_all s (n ∷ ns) = visit_node s n >>= λ s'. visit_all s' ns

  pub visit_all-append :
      (s : S) (xs ys : List Node)
      → visit_all s (xs ++ ys) ≡ (visit_all s xs >>= λ s'. visit_all s' ys)
  visit_all-append s [] ys = refl
  visit_all-append s (x ∷ xs) ys =
      bind_chain (visit_node s x) _ _ _ (λ s'. visit_all-append s' xs ys)

module _ ⦃hasher : Hasher⦄ {S : Type 0} (collapse : Bool) (visit_node : S → Node → Result S) where
  pub record Follows (op : Op) (ops : List (Result Op)) (s : S) (ps : List Partial) (m : Machine S)
      : Type 0 where
    pub reps : RepStack m.stack (track op ps)
    pub order : inorder_stack (track op ps) ≡ inorder_stack ps ++ pushed op
    pub visits : visit_all visit_node s (pushed op) ≡ ok m.visited
    pub free : graft_free ops (map node_of m.stack) ≡ true

  step-parent :
      (ops : List (Result Op)) (k : Option Bytes) (s : S) (t c : ProofTree) (ts : List ProofTree)
      (p q : Partial) (ps : List Partial)
      → Reps t p
      → Reps c q
      → RepStack ts ps
      → graft_free (ok Op.parent ∷ ops) (map node_of (t ∷ c ∷ ts)) ≡ true
      → Ensures (Follows Op.parent ops s (p ∷ q ∷ ps)) (
          step collapse visit_node Op.parent
            (record { stack = t ∷ c ∷ ts; last_key = k; visited = s }))
  unfolding step graft_free
  step-parent ops k s t c ts Partial.absent q ps ht hc hs g = elim ht [ ]
  step-parent ops k s (ProofTree.tree m l r i) c ts (Partial.node n pl pr) q ps ht hc hs g =
      let (inner, rest) = and_true (is_hash m) _ g in
      Ensures-bind _ (attach_child collapse (ProofTree.tree m l r i) true c) _ λ t' e.
        let (same, reps, free) =
          Ensures_at _ _ t' e (attach_left collapse m l r i c n pl pr q ht hc inner) in
        record {
          reps = (reps, hs);
          order = rw free (simp (append_assoc, append-nil));
          visits = refl;
          free = rw same rest;
        }

  step-child :
      (ops : List (Result Op)) (k : Option Bytes) (s : S) (c t : ProofTree) (ts : List ProofTree)
      (q p : Partial) (ps : List Partial)
      → Reps c q
      → Reps t p
      → RepStack ts ps
      → graft_free (ok Op.child ∷ ops) (map node_of (c ∷ t ∷ ts)) ≡ true
      → Ensures (Follows Op.child ops s (q ∷ p ∷ ps)) (
          step collapse visit_node Op.child
            (record { stack = c ∷ t ∷ ts; last_key = k; visited = s }))
  unfolding step graft_free
  step-child ops k s c t ts q Partial.absent ps hc ht hs g = elim ht [ ]
  step-child ops k s c (ProofTree.tree m l r i) ts q (Partial.node n pl pr) ps hc ht hs g =
      let (inner, rest) = and_true (is_hash m) _ g in
      Ensures-bind _ (attach_child collapse (ProofTree.tree m l r i) false c) _ λ t' e.
        let (same, reps, free) =
          Ensures_at _ _ t' e (attach_right collapse m l r i c n pl pr q ht hc inner) in
        record {
          reps = (reps, hs);
          order = rw free (simp (append_assoc, append-nil));
          visits = refl;
          free = rw same rest;
        }

  step-push :
      (ops : List (Result Op)) (k : Option Bytes) (s : S) (n : Node) (ts : List ProofTree)
      (ps : List Partial)
      → RepStack ts ps
      → graft_free (ok (Op.push n) ∷ ops) (map node_of ts) ≡ true
      → Ensures
          (Follows (Op.push n) ops s ps)
          (step collapse visit_node (Op.push n) (record { stack = ts; last_key = k; visited = s }))
  unfolding step graft_free
  step-push ops k s n ts ps hs g = Ensures-bind _ (check_key k n) _ λ last e.
      Ensures-bind _ (visit_node s n) _ λ s' e'. record {
        reps = ((refl, refl, refl, absent_leaf n), hs);
        order = refl;
        visits = ap (λ r. r >>= ok) e';
        free = g;
      }

  step-Follows :
      (op : Op) (ops : List (Result Op)) (k : Option Bytes) (s : S) (ts : List ProofTree)
      (ps : List Partial)
      → RepStack ts ps
      → graft_free (ok op ∷ ops) (map node_of ts) ≡ true
      → Ensures
          (Follows op ops s ps)
          (step collapse visit_node op (record { stack = ts; last_key = k; visited = s }))
  unfolding step
  step-Follows (Op.push n) ops k s ts ps hs g = step-push ops k s n ts ps hs g
  step-Follows Op.parent ops k s (t ∷ c ∷ ts) (p ∷ q ∷ ps) hs g =
      step-parent ops k s t c ts p q ps hs.0 hs.1.0 hs.1.1 g
  step-Follows Op.child ops k s (c ∷ t ∷ ts) (q ∷ p ∷ ps) hs g =
      step-child ops k s c t ts q p ps hs.0 hs.1.0 hs.1.1 g
  step-Follows Op.parent ops k s [] ps hs g = tt
  step-Follows Op.parent ops k s (t ∷ []) ps hs g = tt
  step-Follows Op.parent ops k s (t ∷ c ∷ ts) [] hs g = elim hs [ ]
  step-Follows Op.parent ops k s (t ∷ c ∷ ts) (p ∷ []) hs g = elim hs.1 [ ]
  step-Follows Op.child ops k s [] ps hs g = tt
  step-Follows Op.child ops k s (t ∷ []) ps hs g = tt
  step-Follows Op.child ops k s (t ∷ c ∷ ts) [] hs g = elim hs [ ]
  step-Follows Op.child ops k s (t ∷ c ∷ ts) (p ∷ []) hs g = elim hs.1 [ ]

  -- the whole loop
  pub record Tracks (ops : List (Result Op)) (s : S) (ps : List Partial) (m : Machine S)
      : Type 0 where
    pub reps : RepStack m.stack (track_all ops ps)
    pub order : inorder_stack (track_all ops ps) ≡ inorder_stack ps ++ pushes ops
    pub visits : visit_all visit_node s (pushes ops) ≡ ok m.visited

  run-Tracks :
      (ops : List (Result Op)) (m : Machine S) (ps : List Partial)
      → RepStack m.stack ps
      → graft_free ops (map node_of m.stack) ≡ true
      → Ensures (Tracks ops m.visited ps) (run collapse visit_node ops m)
  unfolding run
  run-Tracks [] m ps hs g = record { reps = hs; order = simp append-nil; visits = refl }
  run-Tracks (ok op ∷ ops) m ps hs g = Ensures-bind _ (step collapse visit_node op m) _ λ m' e.
      let f = Ensures_at _ _ m' e (step-Follows op ops m.last_key m.visited m.stack ps hs g) in
      Ensures-imp _ _ (run collapse visit_node ops m')
        (λ m'' t. record {
          reps = t.reps;
          order = t.order ∙ (rw f.order (append_assoc (inorder_stack ps) (pushed op) (pushes ops)));
          visits =
              visit_all-append visit_node m.visited (pushed op) (pushes ops)
              ∙ (rw f.visits t.visits);
        })
        (run-Tracks ops m' (track op ps) f.reps f.free)
  run-Tracks (err e ∷ ops) m ps hs g = tt
  run-Tracks (panic ∷ ops) m ps hs g = tt

  -- The operators describe one tree `p`.
  pub record Describes (ops : List (Result Op)) (s : S) (p : Partial) (r : ProofTree × S)
      : Type 0 where
    pub order : inorder p ≡ pushes ops
    pub leafy : Leafy p
    pub hashes : hash_partial p ≡ hash r.0
    pub visits : visit_all visit_node s (pushes ops) ≡ ok r.1

  finish-Describes :
      (ops : List (Result Op)) (s : S) (k : Option Bytes) (s' : S) (ts : List ProofTree)
      (ps : List Partial)
      → RepStack ts ps
      → inorder_stack ps ≡ pushes ops
      → visit_all visit_node s (pushes ops) ≡ ok s'
      → Ensures
          (λ r. (p : Partial) × Describes ops s p r)
          (finish collapse visit_node (record { stack = ts; last_key = k; visited = s' }))
  unfolding finish
  finish-Describes ops s k s' (t ∷ []) (p ∷ []) hs o v = (
    p,
    record { order = o; leafy = Reps-Leafy t p hs.0; hashes = Reps-hash t p hs.0; visits = v },
  )
  finish-Describes ops s k s' [] ps hs o v = tt
  finish-Describes ops s k s' (t ∷ u ∷ ts) ps hs o v = tt
  finish-Describes ops s k s' (t ∷ []) [] hs o v = elim hs [ ]
  finish-Describes ops s k s' (t ∷ []) (p ∷ q ∷ ps) hs o v = elim hs.1 [ ]

  execute-Ensures :
      (ops : List (Result Op)) (s : S)
      → graft_free ops [] ≡ true
      → Ensures (λ r. (p : Partial) × Describes ops s p r) (execute collapse visit_node ops s)
  unfolding execute
  execute-Ensures ops s g =
      let m₀ : Machine S = record { stack = []; last_key = none; visited = s } in
      Ensures-bind _ (run collapse visit_node ops m₀) _ λ m e.
        let t = Ensures_at _ _ m e (run-Tracks ops m₀ [] tt g) in
        finish-Describes ops s m.last_key m.visited m.stack (track_all ops []) t.reps t.order
          t.visits

  -- If `execute` accepts operators that attach nothing to a node of kind `Hash`, they describe one
  -- tree: the nodes pushed are that tree's from left to right, nothing hangs below a `Hash`, each
  -- node was visited in that order, and the hash of the result, collapsed or not, is the hash of
  -- that tree.
  pub execute-Describes :
      (ops : List (Result Op)) (s : S) (r : ProofTree × S)
      → graft_free ops [] ≡ true
      → execute collapse visit_node ops s ≡ ok r
      → (p : Partial) × Describes ops s p r
  execute-Describes ops s r g e = Ensures_at _ _ r e (execute-Ensures ops s g)
