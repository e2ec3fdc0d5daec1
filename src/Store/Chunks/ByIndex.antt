-- ===== src/Store/Chunks/ByIndex.antt =====
-- `chunk` of a producer against the chunks that the loop over it gives.
use mathlib.Core.Path.{subst}
use merk.Prelude.{
  ℕ, zero, suc, none, ◌+◌, ◌≤◌, ◌<◌, ◌^◌, ◌≡◌, refl, sym, ap, ◌∙◌, Bool, true, false, List, ◌∷◌,
  map, length, arith,
}
use merk.Bytes.{Bytes}
use merk.Outcome.{ok, ◌>>=◌}
use merk.Hash.{Hasher}
use merk.Model
use merk.Model.{Model, entries, IsSorted}
use merk.Proofs.{Op}
use merk.Proofs.Chunk.Create.{is_low, trunk_if}
use merk.Proofs.Chunk.Height.{trunk_height}
use merk.Proofs.Chunk.Program.{FitsAll}
use merk.Proofs.Chunk.Rows.{Rows}
use merk.Proofs.Chunk.{Row}
use merk.Proofs.Encoding.{Ed, encode_into}
use merk.Proofs.Query.Verify.Accepts.{IsShort}
use merk.Proofs.Tree.Postfix.{program}
use merk.Store.{Merk}
use merk.Store.Chunks.{EdVec, ChunkProducer, chunks, chunk, next_chunk, drain}
use merk.Store.Chunks.Complete.{
  leaves_if, len_of_positive, program_some, producer, producer-bounds, producer-Split,
  drain-producer, chunks-producer,
}
use merk.Store.Chunks.Drain.{at}
use merk.Store.Chunks.Random.{nth_chunk, chunk-position, chunk_out, chunk-Split}
use merk.Store.Chunks.Windows.{Split, leaf_bytes, windows}
use merk.Store.Holds.{Holds}
use merk.Store.Prove.{IsShort-FitsAll}
use merk.Store.Rocks.{Column, Db, IsLawful}
use merk.Store.Rows.{Holds-Rows}
use merk.Tree.Encoding.{EdOption}

module _ {S : Type 0} (db : Db S) ⦃hasher : Hasher⦄ ⦃o : EdOption⦄ ⦃codec : Ed⦄ ⦃vec : EdVec⦄ where
  chunk-trunk :
      (p : ChunkProducer) (op : Op) (ops : List Op)
      → p.trunk ≡ op ∷ ops
      → (chunk p 0 >>= λ r. ok r.1) ≡ ok (encode_into p.trunk)
  unfolding next_chunk
  chunk-trunk p op ops e =
      ap (λ x. x >>= λ r. ok r.1)
        (chunk-position p 0 p.rows (len_of_positive p.chunk_boundaries) refl)
      ∙ (rw (e, vec.encode_vec-encode_into (op ∷ ops)) refl)

  chunk-producer :
      (m : Model) (low : Bool) (rows raw_iter : List Row) (index i : ℕ)
      → is_low m ≡ low
      → (m ≡ Model.leaf → ⊥)
      → IsSorted (entries m)
      → FitsAll m
      → IsSorted rows
      → Rows m rows
      → (chunk (at (producer db low m rows) index raw_iter) i >>= λ r. ok r.1)
        ≡ nth_chunk (encode_into (program (trunk_if low m)) ∷ map leaf_bytes (leaves_if low m)) i
  chunk-producer m low rows raw_iter index zero el some_node s f sorted h =
      let (op, ops, e) = program_some low m some_node in
      chunk-trunk (at (producer db low m rows) index raw_iter) op ops e
  chunk-producer m true rows raw_iter index (suc i) el some_node s f sorted h =
      ap (λ x. x >>= λ r. ok r.1)
        (chunk_out (at (producer db true m rows) index raw_iter) (suc i) (omega arith))
  chunk-producer m false rows raw_iter index (suc i) el some_node s f sorted h =
      let p = at (producer db false m rows) index raw_iter in
      let (keys, count) = producer-bounds db m rows el some_node in
      let n = trunk_height 1 m in
      chunk-Split p (windows n m) i (count ∙ (rw keys (omega arith))) sorted
        (subst (λ ks. Split none (windows n m) ks rows) (sym keys) (producer-Split db m rows s f h))

  -- Where the database obeys the laws of RocksDB and holds a tree with a node, whose height is at
  -- most the fuel and below 2 ^ 64, its keys increase and are shorter than 2 ^ 8 and its values
  -- shorter than 2 ^ 16: `chunks` succeeds, and wherever its producer's index and iterator stand,
  -- `chunk` gives for an index the chunk that the loop over the producer gives there, and reports
  -- an index behind the last one as out of bounds. The loop has fuel for each chunk and its end.
  pub chunk-drain :
      (lawful : IsLawful db) (fuel fuel' : ℕ) (merk : Merk S) (m : Model) (index i : ℕ)
      (raw_iter : List Row)
      → (m ≡ Model.leaf → ⊥)
      → Model.height m ≤ fuel
      → Model.height m < 2 ^ 64
      → IsSorted (entries m)
      → IsShort (entries m)
      → length (leaves_if (is_low m) m) + 2 ≤ fuel'
      → Holds db merk m
      → (merk' : Merk S) × (p : ChunkProducer) × (all : List Bytes) × (chunks db fuel merk
          ≡ ok (merk', p))
        × (drain fuel' p ≡ ok all)
        × ((chunk (at p index raw_iter) i >>= λ r. ok r.1) ≡ nth_chunk all i)
  chunk-drain lawful fuel fuel' merk m index i raw_iter some_node b c s short b' held =
      let low = is_low m in
      let fits = IsShort-FitsAll m short in
      let rows = db.rows Column.main merk.state in
      let stored = Holds-Rows db lawful merk m s held in
      let (merk', made, held') = chunks-producer db fuel merk m some_node b c short held in
      (
        merk',
        producer db low m rows,
        encode_into (program (trunk_if low m)) ∷ map leaf_bytes (leaves_if low m),
        made,
        drain-producer db fuel' m low rows refl some_node s fits b' stored,
        chunk-producer m low rows raw_iter index i refl some_node s fits
            (lawful.rows-IsSorted Column.main merk.state) stored,
      )
