-- ===== src/Proofs/Chunk/Complete.antt =====
-- `verify_leaf` on what `get_next_chunk` reads from the rows of a subtree.
use merk.Prelude.{
  ◌≡◌, refl, ap, ◌∙◌, false, List, [], ◌∷◌, ◌++◌, Option, none, map, append-nil, All, All-append,
}
use merk.Bytes.{Bytes}
use merk.Bytes.Order.{eq_bytes_refl}
use merk.Outcome.{ok, ◌>>=◌}
use merk.Hash.{Hasher}
use merk.Model.{Model, entries, IsSorted, IsSized, root_hash}
use merk.Model.Cover.{Covers, Covers-append, kv_hash-kv_digest}
use merk.Proofs.{Node, Op}
use merk.Proofs.Chunk.{Row, get_next_chunk}
use merk.Proofs.Chunk.Verify.{leaf_node, verify_leaf}
use merk.Proofs.Chunk.Leaf.{IsKv, shown, Covers-shown}
use merk.Proofs.Chunk.Program.{IsPlain, FitsAll, Ends, get_next_chunk-program}
use merk.Proofs.Chunk.Rows.{Rows, full}
use merk.Proofs.Query.Verify.Accepts.{Covers-check_key}
use merk.Proofs.Tree.{ProofTree, execute}
use merk.Proofs.Tree.Execute.{visit_all}
use merk.Proofs.Tree.Partial.{Partial, inorder, pushes, hash_partial, Leafy}
use merk.Proofs.Tree.Postfix.{mark, program, execute-program}
use merk.Proofs.Tree.Shape.{SameShape}
use merk.Proofs.Tree.Visit.{collected, collected-execute}
use merk.Tree.Encoding.{EdOption}

-- the program of a partial tree pushes its nodes from left to right
pushes-append :
    (xs ys : List Op) → pushes (map ok (xs ++ ys)) ≡ pushes (map ok xs) ++ pushes (map ok ys)
pushes-append [] ys = refl
pushes-append (Op.push n ∷ xs) ys = ap (λ ns. n ∷ ns) (pushes-append xs ys)
pushes-append (Op.parent ∷ xs) ys = pushes-append xs ys
pushes-append (Op.child ∷ xs) ys = pushes-append xs ys

pushes-mark :
    (p : Partial)
    → (pushes (map ok (mark p Op.parent)) ≡ []) × (pushes (map ok (mark p Op.child)) ≡ [])
pushes-mark Partial.absent = (refl, refl)
pushes-mark (Partial.node n l r) = (refl, refl)

pub pushes-program : (p : Partial) → pushes (map ok (program p)) ≡ inorder p
pushes-program Partial.absent = refl
pushes-program (Partial.node n l r) =
    pushes-append (program l) _
    ∙ (rw
        (
          pushes-program l,
          pushes-append (mark l Op.parent) (program r ++ mark r Op.child),
          pushes-append (program r) (mark r Op.child),
          (pushes-mark l).0,
          (pushes-mark r).1,
          pushes-program r,
        )
        (ap (λ ns. inorder l ++ (n ∷ ns)) (append-nil (inorder r))))

pub full-IsKv : (m : Model) → All IsKv (inorder (full m))
full-IsKv Model.leaf = tt
full-IsKv (Model.bin k v l r) = All-append IsKv (inorder (full l)) _ (full-IsKv l) (tt, full-IsKv r)

pub full-Covers : (m : Model) → Covers (inorder (full m)) (entries m)
full-Covers Model.leaf = refl
full-Covers (Model.bin k v l r) =
    Covers-append (inorder (full l)) _ (entries l) _ (full-Covers l) (refl, refl, full-Covers r)

IsKv-leaf_node : (ns : List Node) → All IsKv ns → visit_all leaf_node tt ns ≡ ok tt
unfolding leaf_node
IsKv-leaf_node [] h = refl
IsKv-leaf_node (Node.kv k v ∷ ns) h = IsKv-leaf_node ns h.1
IsKv-leaf_node (Node.hash x ∷ ns) h = elim h.0 [ ]
IsKv-leaf_node (Node.kv_hash x ∷ ns) h = elim h.0 [ ]

module _ ⦃hasher : Hasher⦄ where
  pub full-hash : (m : Model) → IsSized m → hash_partial (full m) ≡ ok (root_hash m)
  full-hash Model.leaf s = refl
  full-hash (Model.bin k v l r) s =
      rw (full-hash l s.2, full-hash r s.3, kv_hash-kv_digest k v s.0 s.1) refl

  pub full-Leafy : (m : Model) → Leafy (full m)
  full-Leafy Model.leaf = tt
  full-Leafy (Model.bin k v l r) = (tt, full-Leafy l, full-Leafy r)

  -- what the operators of a whole tree make
  pub leaf-SameShape :
      (k v : Bytes) (l r : Model)
      → IsSorted (entries (Model.bin k v l r))
      → IsSized (Model.bin k v l r)
      → (chunk : ProofTree) × (execute false leaf_node
            (map ok (program (full (Model.bin k v l r))))
            tt
          ≡ ok (chunk, tt))
        × (verify_leaf (map ok (program (full (Model.bin k v l r)))) (root_hash (Model.bin k v l r))
            ≡ ok chunk)
        × SameShape chunk (full (Model.bin k v l r))
  unfolding verify_leaf
  leaf-SameShape k v l r s z =
      let m = Model.bin k v l r in
      let ns = inorder (full m) in
      let (last, checked) = Covers-check_key none ns (entries m) (full-Covers m) s tt in
      let (t, executed, hashed, kept) =
        execute-program false leaf_node (full m) (root_hash m) last tt tt (λ e. cc) (full-Leafy m)
          (full-hash m z) checked (IsKv-leaf_node ns (full-IsKv m)) in
      (t, executed, rw (executed, hashed, eq_bytes_refl (root_hash m)) refl, kept)

  -- the operators of a whole tree make a leaf chunk with its entries
  pub verify_leaf-full :
      (k v : Bytes) (l r : Model)
      → IsSorted (entries (Model.bin k v l r))
      → IsSized (Model.bin k v l r)
      → (chunk : ProofTree) × (verify_leaf
            (map ok (program (full (Model.bin k v l r))))
            (root_hash (Model.bin k v l r))
          ≡ ok chunk)
        × (shown (collected chunk) ≡ entries (Model.bin k v l r))
  verify_leaf-full k v l r s z =
      let m = Model.bin k v l r in
      let (t, executed, accepted, kept) = leaf-SameShape k v l r s z in
      let seen = collected-execute leaf_node (map ok (program (full m))) tt (t, tt) executed in
      (
        t,
        accepted,
        ap shown (seen ∙ pushes-program (full m))
            ∙ Covers-shown (inorder (full m)) (entries m) (full-IsKv m) (full-Covers m),
      )

  -- A chunk that `get_next_chunk` reads from the rows of a subtree, with nothing or the row of the
  -- end key behind them, is accepted by `verify_leaf` against the subtree's root hash, and a visit
  -- of what it returns collects the subtree's entries. The subtree is not empty, its keys increase
  -- and are not the end key, keys below its root are shorter than 2 ^ 8, and all keys and values
  -- are shorter than 2 ^ 32.
  pub verify_leaf-get_next_chunk :
      ⦃o : EdOption⦄
      → (end_key : Option Bytes) (m : Model) (rows rest : List Row) → (m ≡ Model.leaf → ⊥)
      → Rows m rows
      → IsSorted (entries m)
      → IsSized m
      → FitsAll m
      → IsPlain end_key (entries m)
      → Ends end_key rest
      → (chunk : ProofTree) × ((get_next_chunk (rows ++ rest) end_key >>= λ r.
            verify_leaf (map ok r.0) (root_hash m))
          ≡ ok chunk)
        × (shown (collected chunk) ≡ entries m)
  verify_leaf-get_next_chunk end_key Model.leaf rows rest some_node h s z f p e =
      absurd (some_node refl)
  verify_leaf-get_next_chunk end_key (Model.bin k v l r) rows rest some_node h s z f p e =
      let (chunk, accepted, seen) = verify_leaf-full k v l r s z in
      (
        chunk,
        rw (get_next_chunk-program end_key (Model.bin k v l r) rows rest h s f p e) accepted,
        seen,
      )
