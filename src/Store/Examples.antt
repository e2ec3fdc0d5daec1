-- ===== src/Store/Examples.antt =====
-- A batch that is committed to a database in memory, and what the store answers then.
use merk.Prelude.{◌≡◌, refl, ◌⊎◌, inl, List, [], ◌∷◌, none, some, arith}
use merk.Bytes.{Bytes, cmp}
use merk.Btree
use merk.Btree.{get as btree_get}
use merk.Model.{entries, IsSorted}
use merk.Proofs.Chunk.Program.{FitsAll}
use merk.Proofs.Query.Verify.Accepts.{IsShort}
use merk.Outcome.{ok, err, ◌>>=◌, Error}
use merk.Proofs.Query.Item.{QueryItem, cmp_item}
use merk.Proofs.Query.Map
use merk.Proofs.Query.Verify.{verify}
use merk.Store.{
  Merk, commit_merk, get, open_merk, snapshot, snapshot_get, root_hash, prove, apply,
  apply_unchecked,
}
use merk.Store.Answers.{get-find, open_merk-Holds, snapshot_get-get}
use merk.Store.Batch.{apply-IsSorted}
use merk.Store.Chunks.{chunk, EdVec, ChunkProducer, chunks, drain}
use merk.Store.Chunks.Accepted.{TrunkAccepted, AllAccepted}
use merk.Store.Chunks.ByIndex.{chunk-drain}
use merk.Store.Chunks.Drain.{at}
use merk.Store.Chunks.Random.{nth_chunk}
use merk.Store.Chunks.Complete.{chunks-Accepted}
use merk.Store.Durable.{commit_merk-Holds}
use merk.Store.Holds.{Holds, Pending}
use merk.Store.Memory.{Memory, empty, toy_db, toy_db-IsLawful}
use merk.Store.Prove.{verify-prove}
use merk.Proofs.Encoding.{encode_into}
use merk.Proofs.Chunk.Create.{is_low}
use merk.Store.Chunks.Complete.{leaves_if}
use merk.Samples.{toy_hasher, toy_ed, toy_option, sample, stale_tree, stale-Reps}
use merk.Tree.Ops.{BatchOp, BatchEntry}

instance unfoldable toy_vec : EdVec
toy_vec = record { encode_vec = encode_into; encode_vec-encode_into = λ ops. refl }

sample-FitsAll : FitsAll sample
sample-FitsAll = (tt, omega arith, tt, (tt, tt, tt, tt))

sample-IsSorted : IsSorted (entries sample)
unfolding cmp
sample-IsSorted = ((refl, tt), (tt, tt))

sample-IsShort : IsShort (entries sample)
sample-IsShort = ((omega arith, omega arith), ((omega arith, omega arith), tt))

-- two nodes that are not written yet
abbrev pending : Merk Memory
pending = record { tree = some stale_tree; state = empty }

pending-Pending : Pending toy_db [] pending sample
unfolding toy_db btree_get
pending-Pending = record {
  tree = stale-Reps;
  backed = (tt, (tt, tt));
  gone = (tt, (tt, tt));
  only = λ k free gone. refl;
}

commit_merk-Holds_example :
    (merk : Merk Memory) × (commit_merk toy_db [] [] pending ≡ ok merk) × Holds toy_db merk sample
commit_merk-Holds_example =
    commit_merk-Holds toy_db toy_db-IsLawful [] [] pending sample sample-IsSorted sample-FitsAll
      pending-Pending

-- what the commit leaves
held :
    (merk : Merk Memory) × (commit_merk toy_db [] [] pending ≡ ok merk) × Holds toy_db merk sample
held =
    commit_merk-Holds toy_db toy_db-IsLawful [] [] pending sample sample-IsSorted sample-FitsAll
      pending-Pending

abbrev committed : Merk Memory
committed = held.0

committed-Holds : Holds toy_db committed sample
committed-Holds = held.2

open_merk-Holds_example :
    (merk : Merk Memory) × (open_merk toy_db committed.state ≡ ok merk) × Holds toy_db merk sample
open_merk-Holds_example = open_merk-Holds toy_db committed sample sample-FitsAll committed-Holds

get-find_example : get toy_db committed (3 ∷ []) ≡ ok (some (30 ∷ []))
unfolding cmp
get-find_example =
    get-find toy_db committed sample (3 ∷ []) sample-IsSorted sample-FitsAll committed-Holds

snapshot_get-get_example :
    (snapshot toy_db committed >>= λ ss. snapshot_get toy_db ss (3 ∷ []))
    ≡ get toy_db committed (3 ∷ [])
snapshot_get-get_example =
    snapshot_get-get toy_db committed sample (3 ∷ []) sample-IsSorted sample-FitsAll committed-Holds

-- a key that is not there, and one that is
abbrev asked : List QueryItem
asked = QueryItem.key (1 ∷ []) ∷ QueryItem.key (3 ∷ []) ∷ []

verify-prove_example :
    (merk : Merk Memory) × (bytes : Bytes) × (prove toy_db 2 asked committed ≡ ok (merk, bytes))
    × Holds toy_db merk sample
    × ((root_hash committed.tree >>= λ h. verify bytes h >>= λ map. Map.get map (1 ∷ [])) ≡ ok none)
unfolding cmp cmp_item
verify-prove_example =
    verify-prove toy_db 2 asked committed sample (1 ∷ []) (λ e. cc) (omega arith) sample-IsSorted
      sample-IsShort committed-Holds (tt, (refl, tt), (tt, tt, tt)) (inl refl)

-- two keys out of order
abbrev disordered : List BatchEntry
disordered = (3 ∷ [], BatchOp.delete) ∷ (2 ∷ [], BatchOp.delete) ∷ []

apply-IsSorted_example :
    (Btree.IsSorted disordered
      × (apply toy_db 8 disordered [] pending ≡ apply_unchecked toy_db 8 disordered [] pending))
    ⊎ ((Btree.IsSorted disordered → ⊥)
        × (apply toy_db 8 disordered [] pending ≡ err Error.batch_key))
apply-IsSorted_example = apply-IsSorted toy_db 8 disordered [] pending

chunks-Accepted_example :
    (merk : Merk Memory) × (p : ChunkProducer) × (first : Bytes) × (rest : List Bytes) × (chunks
        toy_db 2 committed
      ≡ ok (merk, p))
    × Holds toy_db merk sample
    × (drain 2 p ≡ ok (first ∷ rest))
    × TrunkAccepted first sample
    × AllAccepted rest (leaves_if (is_low sample) sample)
chunks-Accepted_example =
    chunks-Accepted toy_db toy_db-IsLawful 2 2 committed sample (λ e. cc) (omega arith)
      (omega arith) sample-IsSorted sample-IsShort (omega arith) committed-Holds

-- the iterator is at its end and the index far behind
chunk-drain_example :
    (merk : Merk Memory) × (p : ChunkProducer) × (all : List Bytes) × (chunks toy_db 2 committed
      ≡ ok (merk, p))
    × (drain 2 p ≡ ok all)
    × ((chunk (at p 9 []) 0 >>= λ r. ok r.1) ≡ nth_chunk all 0)
chunk-drain_example =
    chunk-drain toy_db toy_db-IsLawful 2 2 committed sample 9 0 [] (λ e. cc) (omega arith)
      (omega arith) sample-IsSorted sample-IsShort (omega arith) committed-Holds
