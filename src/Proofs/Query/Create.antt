-- ===== src/Proofs/Query/Create.antt =====
-- `create_proof` of src/proofs/query/mod.rs, and the `RefWalker` of src/tree/walk/ref_walker.rs that
-- it goes down the tree with. The walker changes the tree in place, by loading pruned children, so
-- each function returns the tree.
pub mod Program
pub mod Split
pub mod Found
pub mod Answers
pub mod Join
pub mod Walk
mod Examples
use Prim.Native.Nat.{Ordering}
use merk.Prelude.{
  ℕ, zero, suc, ◌≡◌, Bool, true, false, ◌||◌, List, [], ◌∷◌, ◌++◌, Option, none, some,
  if◌then◌else◌, drop,
}
use merk.Bytes.{Bytes, lt_bytes}
use merk.Outcome.{Result, ok, err, panic, ◌>>=◌}
use merk.Hash.{Hasher}
use merk.Proofs.{Node, Op}
use merk.Proofs.Query.Item.{QueryItem, lower_bound, upper_bound, cmp_item}
use merk.Tree.{Tree, MaybeLink, Link, kv_of, link, link_hash, is_reference}
use merk.Tree.Load.{Fetch, load, set_link}

abbrev pub take : {A : Type 0} → ℕ → List A → List A
take zero xs = []
take (suc n) [] = []
take (suc n) (x ∷ xs) = x ∷ take n xs

-- What `binary_search_by` says: a match and its index, or the index of the first greater item.
-- `search` looks from the left; on items that are not in order the two may differ.
pub data Search : Type 0 where
  hit : ℕ → QueryItem → Search
  miss : ℕ → Search

abbrev pub shift : Search → Search
shift (Search.hit n item) = Search.hit (suc n) item
shift (Search.miss n) = Search.miss (suc n)

unfoldable pub search : List QueryItem → Bytes → Search
search [] k = Search.miss 0
search (item ∷ items) k =
    let rest = search items k in
    elim (cmp_item item (QueryItem.key k)) [
      | Ordering.lt ↦ shift rest
      | Ordering.eq ↦ Search.hit 0 item
      | Ordering.gt ↦ Search.miss 0
    ]

-- the items for the left child and for the right child
unfoldable pub split_query : Search → Bytes → List QueryItem → List QueryItem × List QueryItem
split_query (Search.hit index item) k query = (
  (if lt_bytes (lower_bound item) k then take (suc index) query else take index query),
  (if lt_bytes k (upper_bound item).0 then drop index query else drop (suc index) query),
)
split_query (Search.miss index) k query = (take index query, drop index query)

-- the proof operators, and whether a key left or right of the subtree's edges was queried
abbrev pub Proof : Type 0
Proof = List Op × (Bool × Bool)

-- the node that is pushed, a key and value where the query matches or an absence is to be shown
abbrev pub pushed_node : Search → Tree → Bool → Node
pushed_node (Search.hit index item) t absence = Node.kv (kv_of t).key (kv_of t).value
pushed_node (Search.miss index) t absence =
    if absence then Node.kv (kv_of t).key (kv_of t).value else Node.kv_hash (kv_of t).hash

-- an operator that follows a child's proof, unless it is empty
abbrev pub after : List Op → Op → List Op
after [] op = []
after (x ∷ xs) op = op ∷ []

abbrev pub join_proofs : Search → Tree → Proof → Proof → Proof
join_proofs s t left right = (
  left.0
      ++ (Op.push (pushed_node s t (left.1.1 || right.1.0))
          ∷ (after left.0 Op.parent ++ (right.0 ++ after right.0 Op.child))),
  (left.1.0, right.1.1),
)

-- `RefWalker::walk`: the tree with the child loaded, and the child
abbrev pub loaded_child : MaybeLink → Result (Option Tree)
loaded_child MaybeLink.unlinked = ok none
loaded_child (MaybeLink.linked (Link.reference h hs k)) = panic
loaded_child (MaybeLink.linked (Link.modified n hs t)) = panic
loaded_child (MaybeLink.linked (Link.uncommitted h hs t)) = ok (some t)
loaded_child (MaybeLink.linked (Link.loaded h hs t)) = ok (some t)

-- the tree with another tree in a link, as the walker of the child leaves it
abbrev pub put_tree : MaybeLink → Tree → MaybeLink
put_tree (MaybeLink.linked (Link.uncommitted h hs t)) c = MaybeLink.linked (Link.uncommitted h hs c)
put_tree (MaybeLink.linked (Link.loaded h hs t)) c = MaybeLink.linked (Link.loaded h hs c)
put_tree l c = l

-- `Link::to_hash_node` where the child is not queried
abbrev pub hash_proof : MaybeLink → Result Proof
hash_proof MaybeLink.unlinked = ok ([], (false, false))
hash_proof (MaybeLink.linked l) = do
  h ← link_hash l
  ok (Op.push (Node.hash h) ∷ [], (false, false))

module _ (source : Fetch) where
  abbrev pub load_if_reference : Tree → Bool → MaybeLink → Result Tree
  load_if_reference t left (MaybeLink.linked (Link.reference h hs k)) = load source t left
  load_if_reference t left _ = ok t

  unfoldable pub ref_walk : Tree → Bool → Result (Tree × Option Tree)
  ref_walk t left = do
    t' ← load_if_reference t left (link t left)
    c ← loaded_child (link t' left)
    ok (t', c)

  -- the child's proof by `create`, put back into the tree
  abbrev pub prove_child :
      (Tree → Result (Tree × Proof)) → Bool → Tree × Option Tree → Result (Tree × Proof)
  prove_child create left (t, none) = ok (t, ([], (true, true)))
  prove_child create left (t, some c) = do
    (c', proof) ← create c
    ok (set_link source t left (put_tree (link t left) c'), proof)

  -- `create_child_proof`
  abbrev pub create_child_proof :
      (Tree → List QueryItem → Result (Tree × Proof))
      → Bool
      → List QueryItem
      → Tree
      → Result (Tree × Proof)
  create_child_proof create left [] t = do proof ← hash_proof (link t left); ok (t, proof)
  create_child_proof create left (item ∷ items) t =
      ref_walk t left >>= prove_child (λ c. create c (item ∷ items)) left

  -- The recursion goes down the tree, so its height is fuel enough; without fuel it panics.
  unfoldable pub create_proof : ℕ → Tree → List QueryItem → Result (Tree × Proof)
  create_proof zero t query = panic
  create_proof (suc fuel) t query =
      let s = search query (kv_of t).key in
      let items = split_query s (kv_of t).key query in
      create_child_proof (create_proof fuel) true items.0 t >>= λ (t₁, left).
      create_child_proof (create_proof fuel) false items.1 t₁ >>= λ (t₂, right).
      ok (t₂, join_proofs s t₂ left right)
