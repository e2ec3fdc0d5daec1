-- ===== src/Proofs/Query/Create/Examples.antt =====
-- Proofs that are created for concrete queries, and checked.
use Prim.Native.Nat.{Ordering}
use merk.Prelude.{◌≡◌, refl, inl, false, List, none, [], ◌∷◌, arith, if◌then◌else◌}
use merk.Bytes.{cmp, lt_bytes}
use merk.Outcome.{ok, ◌>>=◌}
use merk.Proofs.{Node, Op}
use merk.Proofs.Query.Item.{QueryItem, contains, cmp_item, cmp_item-contains}
use merk.Proofs.Query.Create.{search, split_query, create_proof, ref_walk}
use merk.Proofs.Query.Create.Program.{Created}
use merk.Proofs.Query.Create.Found.{search_unique}
use merk.Proofs.Query.Create.{Search, search}
use merk.Proofs.Query.Create.Walk.{create_proof-Created}
use merk.Model.{root_hash}
use merk.Proofs.Encoding.{encode_into}
use merk.Proofs.Query.Map.{get}
use merk.Proofs.Query.Verify.{verify}
use merk.Proofs.Query.Verify.Complete.{verify-create_proof}
use merk.Tree.Load.{load}
use merk.Tree.{kv_of}
use merk.Samples.{
  store, store-Stored, toy_hasher, toy_ed, sample, sample-IsSized, fresh_tree, pruned_tree,
  pruned-Reps,
}

create_proof-Created_example :
    Created store
      (create_proof store 2 pruned_tree (QueryItem.key (3 ∷ []) ∷ []))
      sample
      (QueryItem.key (3 ∷ []) ∷ [])
create_proof-Created_example =
    create_proof-Created store 2 pruned_tree sample (QueryItem.key (3 ∷ []) ∷ []) (omega arith)
      sample-IsSized store-Stored pruned-Reps (tt, tt, tt)

-- the child is loaded and shown, the root is a hash of its pair
created :
    create_proof store 2 pruned_tree (QueryItem.key (3 ∷ []) ∷ [])
    ≡ ok (
      fresh_tree,
      (
        Op.push (Node.kv_hash (kv_of pruned_tree).hash)
            ∷ Op.push (Node.kv (3 ∷ []) (30 ∷ []))
            ∷ Op.child
            ∷ [],
        (false, false),
      ),
    )
unfolding create_proof search split_query ref_walk load cmp cmp_item
created = refl

cmp_item-contains_example :
    cmp_item (QueryItem.range (1 ∷ []) (4 ∷ [])) (QueryItem.key (4 ∷ [])) ≡ (
      if contains (QueryItem.range (1 ∷ []) (4 ∷ [])) (4 ∷ [])
      then Ordering.eq
      else if lt_bytes (4 ∷ []) (1 ∷ [])
      then Ordering.gt
      else Ordering.lt)
unfolding cmp
cmp_item-contains_example = cmp_item-contains (QueryItem.range (1 ∷ []) (4 ∷ [])) (4 ∷ []) refl

-- a key that is not there, and one that is
abbrev two_items : List QueryItem
two_items = QueryItem.key (1 ∷ []) ∷ QueryItem.key (3 ∷ []) ∷ []

-- the first key is below all others, so the proof shows that it is absent
verify-create_proof_example :
    (create_proof store 2 pruned_tree two_items >>= λ created.
    verify (encode_into created.1.0) (root_hash sample) >>= λ map. get map (1 ∷ []))
    ≡ ok none
unfolding cmp cmp_item
verify-create_proof_example =
    verify-create_proof store 2 pruned_tree sample two_items (1 ∷ []) (omega arith)
      ((refl, tt), (tt, tt)) ((omega arith, omega arith), ((omega arith, omega arith), tt))
      store-Stored pruned-Reps (tt, (refl, tt), (tt, tt, tt)) (inl refl)

-- the key is in the second of two items
search_unique_example :
    search (QueryItem.key (1 ∷ []) ∷ QueryItem.range (2 ∷ []) (9 ∷ []) ∷ []) (5 ∷ [])
    ≡ Search.hit 1 (QueryItem.range (2 ∷ []) (9 ∷ []))
unfolding cmp cmp_item
search_unique_example =
    search_unique (QueryItem.key (1 ∷ []) ∷ QueryItem.range (2 ∷ []) (9 ∷ []) ∷ []) (5 ∷ [])
      (Search.hit 1 (QueryItem.range (2 ∷ []) (9 ∷ []))) (tt, (refl, tt), (refl, tt, tt))
      (([], refl), refl)
