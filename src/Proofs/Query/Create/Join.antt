-- ===== src/Proofs/Query/Create/Join.antt =====
-- The proof of a node from its children's: its operators, its hash and the keys that it answers.
use Prim.Native.Nat.{Ordering}
use mathlib.Core.Path.{subst}
use merk.Prelude.{
  ◌<◌, ◌^◌, ◌≡◌, refl, ◌⊎◌, inl, inr, Bool, true, false, ◌||◌, List, [], ◌∷◌, ◌++◌, length, All,
  All-append,
}
use merk.Bytes.{Bytes, cmp}
use merk.Bytes.Order.{eq_of_cmp, lt_of_gt}
use merk.Outcome.{ok}
use merk.Hash.{Hasher, kv_message}
use merk.Model.{Model, entries, root_hash}
use merk.Model.Cover.{Covers, Covers-append, HasHash, kv_hash-kv_digest}
use merk.Proofs.{Node, Op}
use merk.Proofs.Tree.Partial.{Partial, inorder, hash_partial, Leafy}
use merk.Proofs.Query.Item.{QueryItem}
use merk.Proofs.Query.Create.{Search, search, split_query, Proof, pushed_node, join_proofs}
use merk.Proofs.Query.Create.Split.{IsQuery, Covered, Splits, is_hit, search-Splits}
use merk.Proofs.Query.Create.Answers.{Answers, Answers-left, Answers-right, or_left, or_right}
use merk.Tree.{Tree, kv_of}
use merk.Tree.Reps.{RepsTree}
use merk.Tree.Load.{Fetch}
use merk.Proofs.Query.Create.Program.{Proves, after-program}

module _ ⦃hasher : Hasher⦄ (source : Fetch) where
  -- what the node pushed for a tree's root may be: its key and value, or the hash of the two
  NodeFor : Node → Tree → Type 0
  NodeFor n t = (n ≡ Node.kv (kv_of t).key (kv_of t).value) ⊎ (n ≡ Node.kv_hash (kv_of t).hash)

  pushed_node-NodeFor : (s : Search) (t : Tree) (b : Bool) → NodeFor (pushed_node s t b) t
  unfolding NodeFor
  pushed_node-NodeFor (Search.hit i item) t b = inl refl
  pushed_node-NodeFor (Search.miss i) t true = inl refl
  pushed_node-NodeFor (Search.miss i) t false = inr refl

  pushed_node-kept :
      (s : Search) (t : Tree) (b : Bool)
      → (b || is_hit s) ≡ true
      → pushed_node s t b ≡ Node.kv (kv_of t).key (kv_of t).value
  pushed_node-kept (Search.hit i item) t b e = refl
  pushed_node-kept (Search.miss i) t true e = refl
  pushed_node-kept (Search.miss i) t false e = cc

  -- the proof of a node from its children's proofs, for the part that does not depend on the query
  record Joined (n : Node) (m : Model) (l r : Partial) : Type 0 where
    hashes : hash_partial (Partial.node n l r) ≡ ok (root_hash m)
    leafy : Leafy (Partial.node n l r)
    sized : All HasHash (inorder l ++ (n ∷ inorder r))
    covers : Covers (inorder l ++ (n ∷ inorder r)) (entries m)

  NodeFor-Joined :
      (n : Node) (t : Tree) (k v : Bytes) (ml mr : Model) (ql qr : List QueryItem) (pl pr : Proof)
      → NodeFor n t
      → RepsTree false t (Model.bin k v ml mr)
      → length k < 2 ^ 32
      → length v < 2 ^ 32
      → (a : Proves source ml ql pl) → (b : Proves source mr qr pr)
      → Joined n (Model.bin k v ml mr) a.partial b.partial
  unfolding NodeFor
  NodeFor-Joined n (Tree.tree kv x y) k v ml mr ql qr pl pr (inl c) e hk hv a b = record {
    hashes = rw (c, a.hashes, b.hashes, e.0, e.1, kv_hash-kv_digest k v hk hv) refl;
    leafy = rw c (tt, a.leafy, b.leafy);
    sized = All-append HasHash (inorder a.partial) _ a.sized (rw c (tt, b.sized));
    covers =
        Covers-append (inorder a.partial) _ (entries ml) _ a.covers (rw c (e.0, e.1, b.covers));
  }
  NodeFor-Joined n (Tree.tree kv x y) k v ml mr ql qr pl pr (inr c) e hk hv a b = record {
    hashes = rw (c, a.hashes, b.hashes, e.2) refl;
    leafy = rw c (tt, a.leafy, b.leafy);
    sized =
        All-append HasHash (inorder a.partial) _ a.sized
          (rw (c, e.2) (hasher.length-digest (kv_message k v), b.sized));
    covers =
        Covers-append (inorder a.partial) _ (entries ml) _ a.covers
          (rw c ((k, v) ∷ [], entries mr, refl, b.covers));
  }

  -- the answers of a node from its children's
  join-Answers :
      (query : List QueryItem) (t : Tree) (left right : Proof) (ls rs : List Node)
      → IsQuery query
      → ((k : Bytes)
          → Covered k (split_query (search query (kv_of t).key) (kv_of t).key query).0
          → Answers k left.1.0 left.1.1 ls)
      → ((k : Bytes)
          → Covered k (split_query (search query (kv_of t).key) (kv_of t).key query).1
          → Answers k right.1.0 right.1.1 rs)
      → (k : Bytes) → Covered k query
      → Answers k left.1.0 right.1.1
          (ls ++ (pushed_node (search query (kv_of t).key) t (left.1.1 || right.1.0) ∷ rs))
  join-Answers query t left right ls rs q al ar k c =
      let x = (kv_of t).key in
      let s = search query x in
      let h = search-Splits query x q in
      let n = pushed_node s t (left.1.1 || right.1.0) in
      let kept : (left.1.1 || right.1.0) ≡ true → n ≡ Node.kv x (kv_of t).value =
        λ e. pushed_node-kept s t _ (or_left _ (is_hit s) e) in
      by_cmp (cmp k x) refl h kept
    where
      by_cmp :
          (o : Ordering)
          → cmp k (kv_of t).key ≡ o
          → Splits (search query (kv_of t).key) (kv_of t).key query
          → ((left.1.1 || right.1.0) ≡ true
              → pushed_node (search query (kv_of t).key) t (left.1.1 || right.1.0)
                ≡ Node.kv (kv_of t).key (kv_of t).value)
          → Answers k left.1.0 right.1.1
              (ls ++ (pushed_node (search query (kv_of t).key) t (left.1.1 || right.1.0) ∷ rs))
      by_cmp Ordering.lt o h kept =
          Answers-left k (kv_of t).key (kv_of t).value left.1.0 left.1.1 right.1.0 right.1.1 ls rs _
            kept o (al k (h.lefts k o c))
      by_cmp Ordering.gt o h kept =
          let above = lt_of_gt k (kv_of t).key o in
          Answers-right k (kv_of t).key (kv_of t).value left.1.0 left.1.1 right.1.0 right.1.1 ls rs
            _ kept above (ar k (h.rights k above c))
      by_cmp Ordering.eq o h kept =
          let same = eq_of_cmp k (kv_of t).key o in
          let here = h.here (subst (λ j. Covered j query) same c) in
          let n =
            pushed_node-kept (search query (kv_of t).key) t (left.1.1 || right.1.0)
              (or_right _ _ here) in
          Answers.shown ls rs (kv_of t).value (rw (n, same) refl)

  pub join_proofs-Proves :
      (query : List QueryItem) (t : Tree) (left right : Proof) (k v : Bytes) (ml mr : Model)
      → RepsTree false t (Model.bin k v ml mr)
      → length k < 2 ^ 32
      → length v < 2 ^ 32
      → IsQuery query
      → Proves source ml (split_query (search query (kv_of t).key) (kv_of t).key query).0 left
      → Proves source mr (split_query (search query (kv_of t).key) (kv_of t).key query).1 right
      → Proves source
          (Model.bin k v ml mr)
          query
          (join_proofs (search query (kv_of t).key) t left right)
  join_proofs-Proves query t left right k v ml mr e hk hv q a b =
      let s = search query (kv_of t).key in
      let node = pushed_node s t (left.1.1 || right.1.0) in
      let j =
        NodeFor-Joined node t k v ml mr _ _ left right
          (pushed_node-NodeFor s t (left.1.1 || right.1.0)) e hk hv a b in
      record {
        partial = Partial.node node a.partial b.partial;
        operators =
            rw
              (
                a.operators,
                b.operators,
                after-program a.partial Op.parent,
                after-program b.partial Op.child,
              )
              refl;
        hashes = j.hashes;
        leafy = j.leafy;
        sized = j.sized;
        covers = j.covers;
        answers =
            join-Answers query t left right (inorder a.partial) (inorder b.partial) q a.answers
              b.answers;
      }
