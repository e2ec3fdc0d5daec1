-- ===== src/Proofs/Chunk.antt =====
-- src/proofs/chunk.rs: the trunk that a walker writes, the chunks that are read from the store. The iterator over RocksDB is the list of rows, keys with encoded nodes, that
-- it has left; it is valid where a row is left.
pub mod Verify
pub mod Leaf
pub mod Rows
pub mod Program
pub mod Complete
pub mod Descend
pub mod Trunk
pub mod Traverse
pub mod Height
pub mod Create
pub mod Accepts
pub mod RoundTrip
mod Examples
use merk.Prelude.{
  ℕ, zero, suc, ◌+◌, ◌-◌, ◌/◌, ◌^◌, ◌≡◌, refl, Bool, true, false, ◌&&◌, List, [], ◌∷◌, ◌++◌, Option,
  none, some, ltb, if◌then◌else◌, map,
}
use merk.Bytes.{Bytes, lt_bytes, eq_bytes}
use merk.Outcome.{Result, ok, err, panic, ◌>>=◌, Error}
use merk.Hash.{Hasher}
use merk.Proofs.{Node, Op}
use merk.Proofs.Tree.{ProofTree, Slot, execute, hash as proof_hash}
use merk.Proofs.Query.Create.{ref_walk, put_tree}
use merk.Tree.{
  Tree, MaybeLink, Link, kv_of, link, link_hash, link_key, expect, new, hash as tree_hash,
}
use merk.Tree.Encoding.{EdOption, decode_tree}
use merk.Tree.Load.{Fetch, set_link}

abbrev pub min_trunk_height : ℕ
min_trunk_height = 5

-- `Option<&Link>::is_some`
abbrev pub is_linked : MaybeLink → Bool
is_linked MaybeLink.unlinked = false
is_linked (MaybeLink.linked l) = true

abbrev pub parent_if : Bool → List Op
parent_if true = Op.parent ∷ []
parent_if false = []

-- `RefWalker::to_kv_node`, `RefWalker::to_kvhash_node`, `RefWalker::to_hash_node`
abbrev pub to_kv_node : Tree → Node
to_kv_node t = Node.kv (kv_of t).key (kv_of t).value

abbrev pub to_kvhash_node : Tree → Node
to_kvhash_node t = Node.kv_hash (kv_of t).hash

abbrev pub to_hash_node : ⦃hasher : Hasher⦄ → Tree → Result Node
to_hash_node t = do h ← tree_hash t; ok (Node.hash h)

-- the hash of the right child, for the height proof
abbrev pub right_ops : MaybeLink → Result (List Op)
right_ops MaybeLink.unlinked = ok []
right_ops (MaybeLink.linked l) = do h ← link_hash l; ok (Op.push (Node.hash h) ∷ Op.child ∷ [])

unfoldable pub push_height : Tree → Bool → List Op → Result (List Op)
push_height t has_left proof = do
  right ← right_ops (link t false)
  ok (proof ++ (Op.push (to_kvhash_node t) ∷ (parent_if has_left ++ right)))

module _ (source : Fetch) where
  -- A call on the walker of a child, whose tree goes back into its link.
  abbrev pub with_child :
      {X : Type 0} → (Tree → Result (Tree × X)) → Bool → Tree → Tree → Result (Tree × X)
  with_child call left t c = do
    (c', x) ← call c
    ok (set_link source t left (put_tree (link t left) c'), x)

  -- the recursion to the left: the trunk's height, from the depth of the leftmost node
  abbrev pub height_below :
      (Tree → Result (Tree × (List Op × ℕ)))
      → ℕ
      → List Op
      → Tree
      → Option Tree
      → Result (Tree × (List Op × ℕ))
  height_below call depth proof t none = ok (t, (proof, depth / 2))
  height_below call depth proof t (some c) = with_child call true t c

  abbrev pub is_some_tree : Option Tree → Bool
  is_some_tree none = false
  is_some_tree (some c) = true

  abbrev pub push_below : ℕ → Bool → Tree × (List Op × ℕ) → Result (Tree × (List Op × ℕ))
  push_below depth has_left (t, (proof, trunk_height)) =
      if ltb trunk_height depth
      then (do proof' ← push_height t has_left proof; ok (t, (proof', trunk_height)))
      else ok (t, (proof, trunk_height))

  -- The recursions go down the tree; without fuel they panic.
  unfoldable pub traverse_for_height_proof : ℕ → Tree → List Op → ℕ → Result (Tree × (List Op × ℕ))
  unfolding ref_walk
  traverse_for_height_proof zero t proof depth = panic
  traverse_for_height_proof (suc fuel) t proof depth = do
    (t₁, maybe_left) ← ref_walk source t true
    below ←
        height_below (λ c. traverse_for_height_proof fuel c proof (depth + 1)) depth proof t₁
          maybe_left
    push_below depth (is_some_tree maybe_left) below

  module _ ⦃hasher : Hasher⦄ where
    -- what is written at the bottom of the trunk
    abbrev pub trunk_bottom : Tree → List Op → Bool → Result (Tree × List Op)
    trunk_bottom t proof true = ok (t, proof)
    trunk_bottom t proof false = do n ← to_hash_node t; ok (t, proof ++ (Op.push n ∷ []))

    abbrev pub trunk_left :
        (Tree → List Op → Result (Tree × List Op)) → Bool → Tree → List Op → Result (Tree × List Op)
    trunk_left call false t proof = ok (t, proof)
    trunk_left call true t proof = do
      (t₁, maybe_left) ← ref_walk source t true
      left ← expect maybe_left
      with_child (λ c. call c proof) true t₁ left

    abbrev pub trunk_right :
        (Tree → List Op → Result (Tree × List Op))
        → List Op
        → Tree × Option Tree
        → Result (Tree × List Op)
    trunk_right call proof (t, none) = ok (t, proof)
    trunk_right call proof (t, some c) = do
      (t', proof') ← with_child (λ c. call c proof) false t c
      ok (t', proof' ++ (Op.child ∷ []))

    unfoldable pub traverse_for_trunk : ℕ → Tree → List Op → ℕ → Bool → Result (Tree × List Op)
    unfolding ref_walk
    traverse_for_trunk zero t proof remaining_depth is_leftmost = panic
    traverse_for_trunk (suc fuel) t proof zero is_leftmost = trunk_bottom t proof is_leftmost
    traverse_for_trunk (suc fuel) t proof (suc depth) is_leftmost = do
      let has_left = is_linked (link t true)
      (t₁, proof₁) ←
          trunk_left (λ c p. traverse_for_trunk fuel c p depth is_leftmost) has_left t proof
      right ← ref_walk source t₁ false
      trunk_right (λ c p. traverse_for_trunk fuel c p depth false)
          (proof₁ ++ (Op.push (to_kv_node t₁) ∷ parent_if has_left)) right

    -- the trunk, and whether leaf chunks follow
    abbrev pub trunk_from : ℕ → Tree × (List Op × ℕ) → Result (Tree × (List Op × Bool))
    trunk_from fuel (t, (proof, trunk_height)) =
        if ltb trunk_height min_trunk_height
        then (do
          (t', proof') ← traverse_for_trunk fuel t [] (2 ^ 64 - 1) true
          ok (t', (proof', false)))
        else (do
          (t', proof') ← traverse_for_trunk fuel t proof trunk_height true
          ok (t', (proof', true)))

    unfoldable pub create_trunk_proof : ℕ → Tree → Result (Tree × (List Op × Bool))
    unfolding traverse_for_height_proof traverse_for_trunk
    create_trunk_proof fuel t = traverse_for_height_proof fuel t [] 1 >>= trunk_from fuel

-- A row of the store.
abbrev pub Row : Type 0
Row = Bytes × Bytes

abbrev pub is_end : Option Bytes → Bytes → Bool
is_end none key = false
is_end (some end_key) key = eq_bytes key end_key

-- `while let Some(top_key) = stack.last()`, with the top of the stack first
unfoldable pub close : Bytes → List Bytes → List Op → List Bytes × List Op
close key [] chunk = ([], chunk)
close key (top_key ∷ stack) chunk =
    let closed = close key stack (chunk ++ (Op.child ∷ [])) in
    if lt_bytes key top_key then (top_key ∷ stack, chunk) else closed

unfoldable pub open_or_close : Bytes → MaybeLink → List Bytes → List Op → List Bytes × List Op
unfolding close
open_or_close key (MaybeLink.linked l) stack chunk = (link_key l ∷ stack, chunk)
open_or_close key MaybeLink.unlinked stack chunk = close key stack chunk

module _ ⦃o : EdOption⦄ where
  -- the loop: the chunk, and the rows that are left
  unfoldable pub chunk_rows :
      Option Bytes → List Row → List Bytes → List Op → Result (List Op × List Row)
  unfolding open_or_close
  chunk_rows end_key [] stack chunk = ok (chunk, [])
  chunk_rows end_key ((key, encoded) ∷ rows) stack chunk =
      if is_end end_key key
      then ok (chunk, (key, encoded) ∷ rows)
      else (decode_tree [] encoded >>= λ node.
          let chunk₁ =
            chunk
            ++ (Op.push (Node.kv key (kv_of node).value)
                ∷ parent_if (is_linked (link node true))) in
          let (stack₂, chunk₂) = open_or_close key (link node false) stack chunk₁ in
          chunk_rows end_key rows stack₂ chunk₂)

  -- the row of the end key is skipped
  abbrev pub skip_row : List Row → List Row
  skip_row [] = []
  skip_row (row ∷ rows) = rows

  unfoldable pub get_next_chunk :
      ⦃hasher : Hasher⦄ → List Row → Option Bytes → Result (List Op × List Row)
  unfolding chunk_rows
  get_next_chunk rows end_key = do
    node ← new [] []
    (chunk, left) ← chunk_rows end_key rows [] []
    ok (chunk, skip_row left)
