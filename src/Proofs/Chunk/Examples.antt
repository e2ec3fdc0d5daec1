-- ===== src/Proofs/Chunk/Examples.antt =====
-- Chunks at concrete trees and rows, with the toy hasher and codec.
use merk.Prelude.{◌≡◌, refl, ◌⊎◌, List, [], ◌∷◌, ◌++◌, some, map, arith, false}
use merk.Bytes.{Bytes, cmp}
use merk.Outcome.{Result, ok, ◌>>=◌}
use merk.Hash.{Broken, le32, kv_message, node_message, kv_hash, node_hash}
use merk.Model.{entries, kv_digest, root_hash}
use merk.Proofs.{Node, Op}
use merk.Proofs.Chunk.{Row, get_next_chunk}
use merk.Proofs.Chunk.Verify.{leaf_node, verify_leaf}
use merk.Proofs.Chunk.Complete.{verify_leaf-get_next_chunk}
use merk.Proofs.Chunk.Leaf.{shown, verify_leaf_sound}
use merk.Proofs.Chunk.Rows.{Rows, full}
use merk.Proofs.Chunk.{
  create_trunk_proof, traverse_for_height_proof, traverse_for_trunk, push_height,
}
use merk.Proofs.Chunk.Create.{create_trunk_proof-program}
use merk.Proofs.Chunk.RoundTrip.{verify_trunk-create_trunk_proof}
use merk.Proofs.Chunk.Verify.{verify_trunk}
use merk.Proofs.Query.Create.{ref_walk}
use merk.Tree.{Tree}
use merk.Tree.Load.{load}
use merk.Tree.Reps.{RepsTree}
use merk.Proofs.Tree
use merk.Proofs.Tree.{ProofTree, Slot, execute, hash}
use merk.Proofs.Tree.Postfix.{program}
use merk.Proofs.Tree.Visit.{collected}
use merk.Samples.{
  store, store-Stored, pruned_tree, pruned-Reps, toy_hasher, toy_option, checksum, right_child,
  sample, sample-IsSized, child_tree, fresh_tree, child-Reps, fresh-Reps,
}
use merk.Tree.Encoding.{encode_tree, encode_link, encode_kv, encode_parts}

-- the rows of the sample, in the order of their keys, and a row behind them
abbrev child_bytes : Bytes
child_bytes = 0 ∷ 0 ∷ (kv_digest (3 ∷ []) (30 ∷ []) ++ (30 ∷ []))

abbrev root_bytes : Bytes
root_bytes =
    0
    ∷ 1
    ∷ (encode_parts (root_hash right_child) (3 ∷ []) (0, 0)
        ++ (kv_digest (2 ∷ []) (20 ∷ []) ++ (20 ∷ [])))

abbrev sample_rows : List Row
sample_rows = (2 ∷ [], root_bytes) ∷ (3 ∷ [], child_bytes) ∷ []

abbrev rows_behind : List Row
rows_behind = (9 ∷ [], child_bytes) ∷ (10 ∷ [], child_bytes) ∷ []

child_encodes : encode_tree child_tree ≡ ok child_bytes
unfolding encode_tree encode_kv toy_option
child_encodes = refl

root_encodes : encode_tree fresh_tree ≡ ok root_bytes
unfolding encode_tree encode_link encode_kv toy_option
root_encodes = refl

sample-Rows : Rows sample sample_rows
sample-Rows = (
  [],
  (3 ∷ [], child_bytes) ∷ [],
  root_bytes,
  refl,
  (fresh_tree, root_encodes, fresh-Reps),
  refl,
  ([], [], child_bytes, refl, (child_tree, child_encodes, child-Reps false), refl, refl),
)

verify_leaf-get_next_chunk_example :
    (chunk : ProofTree) × ((get_next_chunk (sample_rows ++ rows_behind) (some (9 ∷ [])) >>= λ r.
    verify_leaf (map ok r.0) (root_hash sample))
      ≡ ok chunk)
    × (shown (collected chunk) ≡ entries sample)
unfolding cmp
verify_leaf-get_next_chunk_example =
    verify_leaf-get_next_chunk (some (9 ∷ [])) sample sample_rows rows_behind (λ e. cc) sample-Rows
      ((refl, tt), (tt, tt)) sample-IsSized (tt, omega arith, tt, (tt, tt, tt, tt))
      (refl, (refl, tt)) refl

abbrev sample_chunk : ProofTree
sample_chunk =
    ProofTree.tree (Node.kv (2 ∷ []) (20 ∷ [])) Slot.vacant
      (Slot.occupied (ProofTree.tree (Node.kv (3 ∷ []) (30 ∷ [])) Slot.vacant Slot.vacant 1)
        (root_hash right_child))
      2

abbrev chunk_ops : List (Result Op)
chunk_ops = map ok (program (full sample))

chunk_executes : execute false leaf_node chunk_ops tt ≡ ok (sample_chunk, tt)
unfolding execute Tree.run Tree.step Tree.attach_child Tree.attach hash leaf_node toy_hasher
    checksum kv_hash node_hash node_message kv_message le32 cmp
chunk_executes = refl

chunk_verifies : verify_leaf chunk_ops (root_hash sample) ≡ ok sample_chunk
unfolding verify_leaf execute Tree.run Tree.step Tree.attach_child Tree.attach hash leaf_node
    toy_hasher checksum kv_hash node_hash node_message kv_message le32 cmp
chunk_verifies = refl

verify_leaf_sound_example : Broken ⊎ (shown (collected sample_chunk) ≡ entries sample)
verify_leaf_sound_example =
    verify_leaf_sound chunk_ops sample sample_chunk sample-IsSized chunk_verifies

create_trunk_proof-program_example :
    (t : Tree) × (create_trunk_proof store 2 pruned_tree ≡ ok (t, (program (full sample), false)))
    × RepsTree false t sample
create_trunk_proof-program_example =
    create_trunk_proof-program store 2 pruned_tree sample (omega arith) (omega arith) store-Stored
      pruned-Reps

verify_trunk-create_trunk_proof_example :
    (chunk : ProofTree) × ((create_trunk_proof store 2 pruned_tree >>= λ r.
    verify_trunk (map ok r.1.0))
      ≡ ok (chunk, 1))
    × (hash chunk ≡ ok (root_hash sample))
unfolding cmp
verify_trunk-create_trunk_proof_example =
    verify_trunk-create_trunk_proof store 2 pruned_tree sample (omega arith) (omega arith)
      ((refl, tt), (tt, tt)) sample-IsSized store-Stored pruned-Reps

-- the store's child is loaded and written, and nothing is abridged
trunk_created :
    create_trunk_proof store 2 pruned_tree ≡ ok (fresh_tree, (program (full sample), false))
unfolding create_trunk_proof traverse_for_height_proof traverse_for_trunk push_height ref_walk load
    cmp
trunk_created = refl
