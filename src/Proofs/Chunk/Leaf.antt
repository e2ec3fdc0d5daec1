-- ===== src/Proofs/Chunk/Leaf.antt =====
-- `verify_leaf` against the root hash of a tree: the chunk holds the tree's entries, all of them.
use mathlib.Core.Path.{subst}
use merk.Prelude.{
  ◌≡◌, refl, sym, ap, ◌∙◌, ◌⊎◌, inl, inr, Bool, true, false, List, [], ◌∷◌, All, All-append,
  All-append_parts, if◌then◌else◌,
}
use merk.Bytes.{eq_bytes}
use merk.Bytes.Order.{eq_of_eq_bytes}
use merk.Outcome.{
  Result, ok, err, panic, >>=-eq-ok, Error, Ensures, Ensures-bind, Ensures-imp, Ensures_at,
}
use merk.Hash.{Hasher, Broken}
use merk.Model.{Model, Entry, entries, IsSized, root_hash}
use merk.Model.Cover.{Covers, HasHash, HasHashes, hash_partial-Covers}
use merk.Proofs.{Node, Op}
use merk.Proofs.Chunk.Verify.{Done, leaf_node, verify_leaf}
use merk.Proofs.Tree.{ProofTree, Machine, check_key, step, run, execute, hash as proof_hash}
use merk.Proofs.Tree.Execute.{execute-Describes}
use merk.Proofs.Tree.Partial.{Partial, inorder, pushed, pushes, is_hash, graft_free}
use merk.Proofs.Tree.Visit.{collected, collected-execute}

abbrev pub IsKv : Node → Type 0
IsKv (Node.kv k v) = Unit
IsKv (Node.hash h) = ⊥
IsKv (Node.kv_hash h) = ⊥

-- the entries that nodes show
abbrev pub shown : List Node → List Entry
shown [] = []
shown (Node.kv k v ∷ ns) = (k, v) ∷ shown ns
shown (Node.hash h ∷ ns) = shown ns
shown (Node.kv_hash h ∷ ns) = shown ns

trivial : {A : Type 0} (r : Result A) → Ensures (λ _. Done) r
trivial (ok a) = tt
trivial (err x) = tt
trivial panic = tt

leaf_node-IsKv : (s : Done) (n : Node) → Ensures (λ _. All IsKv (n ∷ [])) (leaf_node s n)
unfolding leaf_node
leaf_node-IsKv s (Node.kv k v) = (tt, tt)
leaf_node-IsKv s (Node.hash h) = tt
leaf_node-IsKv s (Node.kv_hash h) = tt

not_hash : (n : Node) → IsKv n → is_hash n ≡ false
not_hash (Node.kv k v) h = refl
not_hash (Node.hash x) h = elim h [ ]
not_hash (Node.kv_hash x) h = refl

-- keys and values only leave nothing to graft on
graft_free-IsKv :
    (ops : List (Result Op)) (ns : List Node)
    → All IsKv (pushes ops)
    → All IsKv ns
    → graft_free ops ns ≡ true
unfolding graft_free
graft_free-IsKv [] ns h hs = refl
graft_free-IsKv (ok (Op.push n) ∷ ops) ns h hs = graft_free-IsKv ops (n ∷ ns) h.1 (h.0, hs)
graft_free-IsKv (ok Op.parent ∷ ops) [] h hs = refl
graft_free-IsKv (ok Op.parent ∷ ops) (p ∷ []) h hs = refl
graft_free-IsKv (ok Op.parent ∷ ops) (p ∷ c ∷ ns) h hs =
    rw (not_hash p hs.0) (graft_free-IsKv ops (p ∷ ns) h (hs.0, hs.1.1))
graft_free-IsKv (ok Op.child ∷ ops) [] h hs = refl
graft_free-IsKv (ok Op.child ∷ ops) (c ∷ []) h hs = refl
graft_free-IsKv (ok Op.child ∷ ops) (c ∷ p ∷ ns) h hs =
    rw (not_hash p hs.1.0) (graft_free-IsKv ops (p ∷ ns) h hs.1)
graft_free-IsKv (err x ∷ ops) ns h hs = refl
graft_free-IsKv (panic ∷ ops) ns h hs = refl

pub Covers-shown : (ns : List Node) (es : List Entry) → All IsKv ns → Covers ns es → shown ns ≡ es
Covers-shown [] es h c = sym c
Covers-shown (Node.kv k v ∷ ns) [] h c = elim c [ ]
Covers-shown (Node.kv k v ∷ ns) ((k', v') ∷ es) h c = rw (c.0, c.1, Covers-shown ns es h.1 c.2) refl
Covers-shown (Node.hash x ∷ ns) es h c = elim h.0 [ ]
Covers-shown (Node.kv_hash x ∷ ns) es h c = elim h.0 [ ]

IsKv-HasHashes : (p : Partial) → All IsKv (inorder p) → HasHashes p
IsKv-HasHashes Partial.absent h = tt
IsKv-HasHashes (Partial.node n l r) h =
    let (hl, hr) = All-append_parts IsKv (inorder l) (n ∷ inorder r) h in
    (kind n hr.0, IsKv-HasHashes l hl, IsKv-HasHashes r hr.1)
  where
    kind : (n : Node) → IsKv n → HasHash n
    kind (Node.kv k v) h = tt
    kind (Node.hash x) h = elim h [ ]
    kind (Node.kv_hash x) h = elim h [ ]

module _ ⦃hasher : Hasher⦄ where
  step-IsKv :
      (op : Op) (m : Machine Done) → Ensures (λ _. All IsKv (pushed op)) (step false leaf_node op m)
  unfolding step
  step-IsKv (Op.push n) m = Ensures-bind _ (check_key m.last_key n) _ λ last e.
      Ensures-bind _ (leaf_node m.visited n) _
        λ s e'. Ensures_at _ _ s e' (leaf_node-IsKv m.visited n)
  step-IsKv Op.parent m = trivial _
  step-IsKv Op.child m = trivial _

  run-IsKv :
      (ops : List (Result Op)) (m : Machine Done)
      → Ensures (λ _. All IsKv (pushes ops)) (run false leaf_node ops m)
  unfolding run
  run-IsKv [] m = tt
  run-IsKv (ok op ∷ ops) m = Ensures-bind _ (step false leaf_node op m) _ λ m' e.
      Ensures-imp _ _ (run false leaf_node ops m')
        (λ m'' h. All-append IsKv (pushed op) (pushes ops) (Ensures_at _ _ m' e (step-IsKv op m)) h)
        (run-IsKv ops m')
  run-IsKv (err x ∷ ops) m = tt
  run-IsKv (panic ∷ ops) m = tt

  execute-IsKv :
      (ops : List (Result Op)) (r : ProofTree × Done)
      → execute false leaf_node ops tt ≡ ok r
      → All IsKv (pushes ops)
  unfolding execute
  execute-IsKv ops r e =
      let (m, ran, _) = >>=-eq-ok (run false leaf_node ops _) _ e in
      Ensures_at _ _ m ran (run-IsKv ops _)

  if_same :
      (b : Bool) (x y : ProofTree) (z : Error)
      → (if b then ok x else err z) ≡ ok y
      → (b ≡ true) × (x ≡ y)
  if_same true x y z e = (refl, cc)
  if_same false x y z e = cc

  -- If `verify_leaf` accepts operators against the root hash of a tree whose keys and values are
  -- shorter than 2 ^ 32, a visit of the chunk that it returns collects exactly the tree's entries,
  -- in order, or the hash function is broken.
  pub verify_leaf_sound :
      (ops : List (Result Op)) (t : Model) (chunk : ProofTree)
      → IsSized t
      → verify_leaf ops (root_hash t) ≡ ok chunk
      → Broken ⊎ (shown (collected chunk) ≡ entries t)
  unfolding verify_leaf
  verify_leaf_sound ops t chunk z e =
      let (r, executed, e') = >>=-eq-ok (execute false leaf_node ops tt) _ e in
      let (h, hashed, e'') = >>=-eq-ok (proof_hash r.0) _ e' in
      let (equal, same) = if_same (eq_bytes h (root_hash t)) r.0 chunk Error.hash_mismatch e'' in
      let kvs = execute-IsKv ops r executed in
      let (p, d) =
        execute-Describes false leaf_node ops tt r (graft_free-IsKv ops [] kvs tt) executed in
      let kvs' = subst (All IsKv) (sym d.order) kvs in
      let root = d.hashes ∙ hashed ∙ ap ok (eq_of_eq_bytes h (root_hash t) equal) in
      let seen = collected-execute leaf_node ops tt r executed ∙ sym d.order in
      elim (hash_partial-Covers p t d.leafy (IsKv-HasHashes p kvs') z root) [
        | inl broken ↦ inl broken
        | inr covers ↦ inr (
            ap (λ c. shown (collected c)) (sym same)
            ∙ ap shown seen
            ∙ Covers-shown (inorder p) (entries t) kvs' covers)
      ]
