-- ===== src/Tree/Examples.antt =====
-- The theorems about trees at concrete trees, with the toy hasher and codecs.
use merk.Prelude.{◌≡◌, refl, true, false, List, [], ◌∷◌, none, some, arith}
use merk.Bytes.{Bytes, cmp}
use merk.Outcome.{ok}
use merk.Model
use merk.Model.{Model, entries, find, root_hash}
use merk.Tree.Iter.{Drains, iter, iter-Drains}
use merk.Tree.{Tree, MaybeLink, Kv, kv_of, height, child_heights, link, walk}
use merk.Tree.Reps.{RepsTree, heights_of, heights-Reps}
use merk.Tree.Attach.{with_child, walk-Reps}
use merk.Tree.Commit.{Commit, noop_commit, prune_slot, commit}
use merk.Tree.Commit.Refresh.{Refreshed, commit-Refreshed}
use merk.Tree.Load.{Fetch, Loaded, load-Reps}
use merk.Tree.Lookup.{get_value, in_memory, Answers, get_value-find}
use merk.Tree.Encoding.{encode_tree, decode_tree}
use merk.Tree.Encoding.RoundTrip.{decode_tree-encode_tree}
use merk.Samples.{
  child-Reps, stale-Reps, fresh-Reps, pruned-Reps, toy_hasher, toy_option, sample, child_tree,
  stale_tree, fresh_tree, pruned_tree, root_with,
}

heights-Reps_example :
    (child_heights stale_tree ≡ heights_of sample) × (height stale_tree ≡ Model.height sample)
heights-Reps_example = heights-Reps true stale_tree sample (omega arith) stale-Reps

-- a writer that keeps the trees it is given and prunes every child
abbrev keeper : Commit (List Tree)
keeper = record { write = λ t kept. ok (t ∷ kept); prune = λ t kept. (true, true) }

commit-Refreshed_example : Refreshed keeper stale_tree sample []
commit-Refreshed_example =
    commit-Refreshed keeper (λ t kept. (t ∷ kept, refl)) stale_tree sample [] stale-Reps

-- the child is written first, and what is left is the pruned tree
committed : commit keeper stale_tree [] ≡ ok (pruned_tree, fresh_tree ∷ child_tree ∷ [])
committed = refl

kept_in_memory : commit noop_commit stale_tree tt ≡ ok (fresh_tree, tt)
unfolding noop_commit
kept_in_memory = refl

bare_tree : RepsTree true (root_with MaybeLink.unlinked) (with_child sample false Model.leaf)
bare_tree = (refl, refl, refl, refl, refl)

-- a walk that drops the child
walk-Reps_example :
    (t' : Tree) × (walk stale_tree false (λ c. none) ≡ ok t')
    × RepsTree true t' (with_child sample false Model.leaf)
walk-Reps_example =
    walk-Reps stale_tree sample false (λ c. none) Model.leaf refl (omega arith) stale-Reps
      (λ c e. refl)

-- a source that holds the child, whatever the key
abbrev source : Fetch
source = record { fetch_by_key = λ k. ok (some child_tree) }

load-Reps_example : Loaded source false pruned_tree sample false
load-Reps_example =
    load-Reps source false pruned_tree sample false refl
      (λ k e. (child_tree, refl, child-Reps false)) pruned-Reps

get_value-find_example :
    Answers (in_memory stale_tree) (get_value stale_tree (3 ∷ [])) (find (3 ∷ []) (entries sample))
unfolding cmp
get_value-find_example = get_value-find stale_tree sample (3 ∷ []) ((refl, tt), (tt, tt)) stale-Reps

abbrev sample_kv : Kv
sample_kv = record { key = 2 ∷ []; value = 20 ∷ []; hash = root_hash sample }

decode_tree-encode_tree_example :
    (bytes : Bytes) × (l' : MaybeLink) × (r' : MaybeLink) × (encode_tree fresh_tree ≡ ok bytes)
    × (prune_slot true MaybeLink.unlinked ≡ ok l')
    × (prune_slot true (link fresh_tree false) ≡ ok r')
    × (decode_tree (2 ∷ []) bytes ≡ ok (Tree.tree (kv_of fresh_tree) l' r'))
decode_tree-encode_tree_example =
    decode_tree-encode_tree (kv_of fresh_tree) MaybeLink.unlinked (link fresh_tree false) sample
      fresh-Reps (tt, omega arith)

iter-Drains_example : Drains (iter fresh_tree) ((2 ∷ [], 20 ∷ []) ∷ (3 ∷ [], 30 ∷ []) ∷ [])
iter-Drains_example = iter-Drains fresh_tree
