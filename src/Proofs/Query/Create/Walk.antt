-- ===== src/Proofs/Query/Create/Walk.antt =====
-- The recursion of `create_proof`: each child that the query asks for is loaded and proved.
use merk.Prelude.{
  ℕ, zero, suc, ◌≤◌, ◌≡◌, refl, sym, ap, Bool, true, false, List, [], ◌∷◌, some, arith,
}
use merk.Bytes.{Bytes}
use merk.Outcome.{Result, ok, ◌>>=◌}
use merk.Hash.{Hasher}
use merk.Model
use merk.Model.{Model, IsSized, root_hash}
use merk.Proofs.Query.Item.{QueryItem}
use merk.Proofs.Query.Create.{
  search, split_query, Proof, join_proofs, ref_walk, prove_child, create_child_proof, create_proof,
}
use merk.Proofs.Query.Create.Split.{IsQuery, split_query-IsQuery}
use merk.Proofs.Query.Create.Join.{join_proofs-Proves}
use merk.Proofs.Query.Create.Program.{Stored, Created, CreatedChild, leaf-Proves, hash_proof-Proves}
use merk.Tree.{Tree, MaybeLink, Link, link}
use merk.Tree.Reps.{RepsTree, RepsLink, heights_of}
use merk.Tree.Load.{Fetch, load, set_link}

module _ ⦃hasher : Hasher⦄ (source : Fetch) where
  pub link-set_link :
      (t : Tree) (left : Bool) (x : MaybeLink) → link (set_link source t left x) left ≡ x
  link-set_link (Tree.tree kv l r) true x = refl
  link-set_link (Tree.tree kv l r) false x = refl

  pub set_link-same :
      (t : Tree) (left : Bool) (x : MaybeLink) → link t left ≡ x → set_link source t left x ≡ t
  set_link-same (Tree.tree kv l r) true x e = rw e refl
  set_link-same (Tree.tree kv l r) false x e = rw e refl

  pub set_link-set_link :
      (t : Tree) (left : Bool) (x y : MaybeLink)
      → set_link source (set_link source t left x) left y ≡ set_link source t left y
  set_link-set_link (Tree.tree kv l r) true x y = refl
  set_link-set_link (Tree.tree kv l r) false x y = refl

  -- the proof of a child in memory, put back into its link
  prove_loaded :
      (create : Tree → Result (Tree × Proof)) (t : Tree) (left : Bool) (h : Bytes) (hs : ℕ × ℕ)
      (c : Tree) (m : Model) (query : List QueryItem)
      → h ≡ root_hash m
      → hs ≡ heights_of m
      → Created source (create c) m query
      → CreatedChild source
          (prove_child source create left
            (set_link source t left (MaybeLink.linked (Link.loaded h hs c)), some c))
          (set_link source t left)
          m
          query
  prove_loaded create t left h hs c m query eh es (c', proof, made, fresh, proves) = (
    MaybeLink.linked (Link.loaded h hs c'),
    proof,
    rw
        (
          made,
          link-set_link t left (MaybeLink.linked (Link.loaded h hs c)),
          set_link-set_link t left (MaybeLink.linked (Link.loaded h hs c)),
        )
        refl,
    (eh, es, fresh),
    proves,
  )

  walk_child :
      (create : Tree → Result (Tree × Proof)) (t : Tree) (left : Bool) (l : MaybeLink) (m : Model)
      (query : List QueryItem)
      → link t left ≡ l
      → RepsLink false l m
      → Stored source m
      → ((c : Tree) → RepsTree false c m → Created source (create c) m query)
      → CreatedChild source
          (ref_walk source t left >>= prove_child source create left)
          (set_link source t left)
          m
          query
  unfolding ref_walk load
  walk_child create t left MaybeLink.unlinked m query e f s ih = (
    MaybeLink.unlinked,
    ([], (true, true)),
    rw (e, e)
        (ap (λ t. ok (t, ([], (true, true)))) (sym (set_link-same t left MaybeLink.unlinked e))),
    f,
    leaf-Proves source m query f,
  )
  walk_child create t left (MaybeLink.linked (Link.reference h hs k)) Model.leaf query e f s ih =
      elim f.2 [ ]
  walk_child create t left (MaybeLink.linked (Link.reference h hs k)) (Model.bin k' v ml mr) query e
        f s ih =
      let (c, stored, fresh) = s.0 in
      let held : source.fetch_by_key k ≡ ok (some c) = rw (← f.2) stored in
      let loads : load source t left
          ≡ ok (set_link source t left (MaybeLink.linked (Link.loaded h hs c))) =
        rw (e, held) refl in
      rw (e, loads, link-set_link t left (MaybeLink.linked (Link.loaded h hs c)))
        (prove_loaded create t left h hs c (Model.bin k' v ml mr) query f.0 f.1 (ih c fresh))
  walk_child create t left (MaybeLink.linked (Link.modified n hs c)) m query e f s ih = cc
  walk_child create t left (MaybeLink.linked (Link.uncommitted h hs c)) m query e f s ih =
      elim f [ ]
  walk_child create t left (MaybeLink.linked (Link.loaded h hs c)) m query e f s ih =
      let same = sym (set_link-same t left (MaybeLink.linked (Link.loaded h hs c)) e) in
      let walks : ref_walk source t left
          ≡ ok (set_link source t left (MaybeLink.linked (Link.loaded h hs c)), some c) =
        rw (e, e) (ap (λ t. ok (t, some c)) same) in
      rw walks (prove_loaded create t left h hs c m query f.0 f.1 (ih c f.2))

  child-Created :
      (create : Tree → List QueryItem → Result (Tree × Proof)) (t : Tree) (left : Bool) (m : Model)
      (query : List QueryItem)
      → RepsLink false (link t left) m
      → Stored source m
      → ((c : Tree) → RepsTree false c m → Created source (create c query) m query)
      → CreatedChild source
          (create_child_proof source create left query t)
          (set_link source t left)
          m
          query
  child-Created create t left m [] f s ih =
      let (proof, made, proves) = hash_proof-Proves source (link t left) m f in
      (link t left, proof, rw (made, set_link-same t left (link t left) refl) refl, f, proves)
  child-Created create t left m (item ∷ items) f s ih =
      walk_child (λ c. create c (item ∷ items)) t left (link t left) m (item ∷ items) refl f s ih

  -- For a tree with fresh links, of a model whose keys and values are shorter than 2 ^ 32, and a
  -- source that holds its subtrees: on a query whose items are proper and in order, `create_proof`
  -- succeeds with the tree's height as fuel, and the tree stands for the same model after it. The
  -- proof is the program of a partial tree whose hash is the root hash and whose nodes are entries of
  -- the model, with gaps; it shows every key that an item contains or the gap that the key falls in,
  -- up to the edges that its flags tell of.
  pub create_proof-Created :
      (fuel : ℕ) (t : Tree) (m : Model) (query : List QueryItem)
      → Model.height m ≤ fuel
      → IsSized m
      → Stored source m
      → RepsTree false t m
      → IsQuery query
      → Created source (create_proof source fuel t query) m query
  unfolding create_proof
  create_proof-Created fuel (Tree.tree kv l r) Model.leaf query b z s e q = elim e [ ]
  create_proof-Created zero t (Model.bin k v ml mr) query b z s e q = absurd (omega arith)
  create_proof-Created (suc fuel) (Tree.tree kv l r) (Model.bin k v ml mr) query b z s e q =
      let found = search query kv.key in
      let items = split_query found kv.key query in
      let (ql, qr) = split_query-IsQuery found kv.key query q in
      let (l', left, made, fl, pl) =
        child-Created (create_proof source fuel) (Tree.tree kv l r) true ml items.0 e.3 s.1
          (λ c fresh. create_proof-Created fuel c ml items.0 (omega arith) z.2 s.1 fresh ql) in
      let (r', right, made', fr, pr) =
        child-Created (create_proof source fuel) (Tree.tree kv l' r) false mr items.1 e.4 s.2
          (λ c fresh. create_proof-Created fuel c mr items.1 (omega arith) z.3 s.2 fresh qr) in
      let fresh : RepsTree false (Tree.tree kv l' r') (Model.bin k v ml mr) =
        (e.0, e.1, e.2, fl, fr) in
      (
        Tree.tree kv l' r',
        join_proofs found (Tree.tree kv l' r') left right,
        rw (made, made') refl,
        fresh,
        join_proofs-Proves source query (Tree.tree kv l' r') left right k v ml mr fresh z.0 z.1 q pl
            pr,
      )
