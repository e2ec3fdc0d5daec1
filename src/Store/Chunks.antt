-- ===== src/Store/Chunks.antt =====
-- src/merk/chunks.rs: `ChunkProducer` and its iterator. The iterator over RocksDB is the list of the
-- rows that it has left.
pub mod Windows
pub mod Drain
pub mod Accepted
pub mod Complete
pub mod Random
pub mod ByIndex
use merk.Prelude.{
  ℕ, zero, suc, ◌+◌, ◌≡◌, Bool, true, false, List, [], ◌∷◌, Option, none, some, ltb, leb,
  if◌then◌else◌, length,
}
use merk.Bytes.{Bytes, lt_bytes}
use merk.Outcome.{Result, ok, err, panic, ◌>>=◌, Error}
use merk.Hash.{Hasher}
use merk.Proofs.{Node, Op}
use merk.Proofs.Chunk.{Row, create_trunk_proof, get_next_chunk, skip_row}
use merk.Proofs.Encoding.{Ed, encode_into}
use merk.Store.{Merk, source}
use merk.Store.Rocks.{Column, Db}
use merk.Tree.{Tree, expect}
use merk.Tree.Encoding.{EdOption}

-- What the `ed` crate makes of `Vec<Op>`: the elements, one behind the other.
pub record EdVec ⦃codec : Ed⦄ : Type 0 where
  pub encode_vec : List Op → Bytes
  pub encode_vec-encode_into : (ops : List Op) → encode_vec ops ≡ encode_into ops

pub record ChunkProducer : Type 0 where
  pub trunk : List Op
  pub chunk_boundaries : List Bytes
  pub rows : List Row
  pub raw_iter : List Row
  pub index : ℕ

-- the keys of the pairs that the trunk shows
abbrev pub boundaries : List Op → List Bytes
boundaries [] = []
boundaries (Op.push (Node.kv key value) ∷ ops) = key ∷ boundaries ops
boundaries (Op.push (Node.hash h) ∷ ops) = boundaries ops
boundaries (Op.push (Node.kv_hash h) ∷ ops) = boundaries ops
boundaries (Op.parent ∷ ops) = boundaries ops
boundaries (Op.child ∷ ops) = boundaries ops

abbrev pub boundary_at : List Bytes → ℕ → Option Bytes
boundary_at [] n = none
boundary_at (k ∷ ks) zero = some k
boundary_at (k ∷ ks) (suc n) = boundary_at ks n

-- `seek` of RocksDB: to the first row that is not below the key
abbrev pub seek : Bytes → List Row → List Row
seek key [] = []
seek key (row ∷ rows) = let rest = seek key rows in if lt_bytes row.0 key then rest else row ∷ rows

abbrev pub len_of : List Bytes → ℕ
len_of [] = 1
len_of (k ∷ ks) = length (k ∷ ks) + 2

-- `ChunkProducer::len`
abbrev pub len : ChunkProducer → ℕ
len p = len_of p.chunk_boundaries

abbrev pub trunk_boundaries : Bool → List Op → List Bytes
trunk_boundaries true trunk = boundaries trunk
trunk_boundaries false trunk = []

module _ ⦃hasher : Hasher⦄ ⦃o : EdOption⦄ where
  -- where `chunk` puts the iterator
  abbrev pub position : ChunkProducer → ℕ → Result (List Row)
  position p zero = ok p.rows
  position p (suc zero) = ok p.rows
  position p (suc (suc n)) = do
    preceding_key ← expect (boundary_at p.chunk_boundaries n)
    ok (skip_row (seek preceding_key p.rows))

  module _ {S : Type 0} (db : Db S) where
    abbrev pub create_trunk : ℕ → Merk S → Option Tree → Result (Merk S × (List Op × Bool))
    create_trunk fuel merk none = ok (merk, ([], false))
    create_trunk fuel merk (some t) = do
      (t', trunk) ← create_trunk_proof (source db merk.state) fuel t
      ok (record merk { tree = some t' }, trunk)

    -- `ChunkProducer::new`
    unfoldable pub chunks : ℕ → Merk S → Result (Merk S × ChunkProducer)
    unfolding create_trunk_proof
    chunks fuel merk = do
      (merk', (trunk, has_more)) ← create_trunk fuel merk merk.tree
      let rows = db.rows Column.main merk.state
      ok (
        merk',
        record {
          trunk = trunk;
          chunk_boundaries = trunk_boundaries has_more trunk;
          rows = rows;
          raw_iter = rows;
          index = 0;
        },
      )

  module _ ⦃codec : Ed⦄ ⦃vec : EdVec⦄ where
    abbrev pub trunk_chunk : ChunkProducer → List Op → Result (ChunkProducer × Bytes)
    trunk_chunk p [] = err Error.fetch
    trunk_chunk p (op ∷ ops) = ok (record p { index = p.index + 1 }, vec.encode_vec (op ∷ ops))

    abbrev pub leaf_chunk : ChunkProducer → ℕ → Result (ChunkProducer × Bytes)
    leaf_chunk p n =
        if ltb p.index (len p)
        then (do
          (chunk, rows) ← get_next_chunk p.raw_iter (boundary_at p.chunk_boundaries n)
          ok (record p { raw_iter = rows; index = p.index + 1 }, vec.encode_vec chunk))
        else panic

    abbrev pub chunk_at : ChunkProducer → ℕ → Result (ChunkProducer × Bytes)
    chunk_at p zero = trunk_chunk p p.trunk
    chunk_at p (suc n) = leaf_chunk p n

    unfoldable pub next_chunk : ChunkProducer → Result (ChunkProducer × Bytes)
    unfolding get_next_chunk
    next_chunk p = chunk_at p p.index

    unfoldable pub chunk : ChunkProducer → ℕ → Result (ChunkProducer × Bytes)
    unfolding next_chunk
    chunk p index =
        if leb (len p) index
        then err Error.index_out_of_bounds
        else (do rows ← position p index; next_chunk (record p { index = index; raw_iter = rows }))

    -- `ChunkIter::next`
    unfoldable pub next : ChunkProducer → Option (Result (ChunkProducer × Bytes))
    unfolding next_chunk
    next p = if leb (len p) p.index then none else some (next_chunk p)

    abbrev pub take_next :
        (ChunkProducer → Result (List Bytes))
        → Option (Result (ChunkProducer × Bytes))
        → Result (List Bytes)
    take_next more none = ok []
    take_next more (some r) = r >>= λ (p, bytes). more p >>= λ rest. ok (bytes ∷ rest)

    -- the chunks that a loop over the iterator sees, on fuel
    unfoldable pub drain : ℕ → ChunkProducer → Result (List Bytes)
    unfolding next
    drain zero p = panic
    drain (suc fuel) p = take_next (drain fuel) (next p)
