-- ===== src/Tree/Ops/Examples.antt =====
-- Batches that build a tree, rotate it and delete from it, with the toy hasher.
use merk.Prelude.{◌≡◌, ◌+◌, ◌≤◌, arith, refl, List, [], ◌∷◌, Option, none, some}
use merk.Bytes.{Bytes, cmp}
use merk.Outcome.{Result, ok, ◌>>=◌}
use merk.Hash.{kv_hash}
use merk.Tree.{Tree, MaybeLink, Link, key, attach, detach}
use merk.Tree.Walker.{walker_detach, walker_detach_expect}
use merk.Tree.Lookup.{GetResult, get_value}
use merk.Tree.Ops.{
  BatchOp, BatchEntry, panic_source, search_batch, maybe_balance, remove, promote_edge, remove_edge,
}
use merk.Tree.Ops.Apply.{apply_to}
use merk.Samples.{toy_hasher, store, sample, pruned_tree, pruned-Reps, store-Stored}
use merk.Model
use merk.Model.{Model, entries, kv_digest}
use merk.Tree.Ops.Balance.{IsAvl}
use merk.Tree.Ops.Join.{maybe_balance-IsAvl}
use merk.Tree.Ops.Fetched.{Over}

-- puts in increasing order, one batch each, which a list would hold at height 3
abbrev put_one : Bytes → List BatchEntry
put_one k = (k, BatchOp.put k) ∷ []

abbrev after_one : Option Tree → List BatchEntry → Result (Option Tree)
after_one t batch = apply_to 12 panic_source t batch >>= λ r. ok r.0

abbrev three : Result (Option Tree)
three = after_one none (put_one (1 ∷ [])) >>= λ t.
    after_one t (put_one (2 ∷ [])) >>= λ t. after_one t (put_one (3 ∷ []))

abbrev look : Bytes → Option Tree → Result (Bytes × GetResult)
look k none = ok ([], GetResult.not_found)
look k (some t) = ok (key t, get_value t k)

-- the rotation puts 2 at the root
rotated : (three >>= look (3 ∷ [])) ≡ ok (2 ∷ [], GetResult.found (3 ∷ []))
unfolding apply_to kv_hash maybe_balance search_batch cmp walker_detach attach detach
    walker_detach_expect
rotated = refl

-- deleting the root lifts its neighbour
deleted :
    (three >>= λ t. after_one t ((2 ∷ [], BatchOp.delete) ∷ []) >>= look (2 ∷ []))
    ≡ ok (3 ∷ [], GetResult.not_found)
unfolding apply_to kv_hash maybe_balance search_batch cmp walker_detach attach detach
    walker_detach_expect remove promote_edge remove_edge
deleted = refl

-- a root with no right child, over the sample, whose child is pruned
abbrev lopsided : Tree
lopsided =
    Tree.tree (record { key = 4 ∷ []; value = 40 ∷ []; hash = kv_digest (4 ∷ []) (40 ∷ []) })
      (MaybeLink.linked (Link.modified 0 (0, 1) pruned_tree)) MaybeLink.unlinked

lopsided-Over : Over store lopsided (Model.bin (4 ∷ []) (40 ∷ []) sample Model.leaf)
lopsided-Over = record {
  reps = (refl, refl, refl, (refl, refl, (refl, refl, refl, refl, pruned-Reps.4)), refl);
  fetchable = ((tt, store-Stored.2), tt);
}

maybe_balance-IsAvl_example :
    (t' : Tree) × (m : Model) × (maybe_balance store 5 lopsided ≡ ok t')
    × Over store t' m
    × IsAvl m
    × (entries m ≡ entries (Model.bin (4 ∷ []) (40 ∷ []) sample Model.leaf))
    × (3 ≤ Model.height m + 1)
    × (Model.height m ≤ 3)
maybe_balance-IsAvl_example =
    maybe_balance-IsAvl store 5 1 lopsided (4 ∷ []) (40 ∷ []) sample Model.leaf lopsided-Over
      (tt, (tt, tt, omega arith, omega arith), omega arith, omega arith) tt (omega arith)
      (omega arith) (omega arith) (omega arith) (omega arith)
