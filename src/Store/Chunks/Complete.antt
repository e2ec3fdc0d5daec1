-- ===== src/Store/Chunks/Complete.antt =====
-- All the chunks of a `Merk`: what a loop over them gives, and that each of them verifies.
use merk.Prelude.{
  ℕ, zero, suc, ◌+◌, ◌≤◌, ◌<◌, ◌^◌, ◌≡◌, refl, ap, ◌∙◌, Bool, true, false, not, List, [], ◌∷◌, ◌++◌,
  Option, none, some, map, length, arith, leb,
}
use merk.Bytes.{Bytes}
use merk.Outcome.{ok}
use merk.Hash.{Hasher}
use merk.Model
use merk.Model.{Model, Entry, entries, IsSorted}
use merk.Proofs.{Op}
use merk.Proofs.Chunk.Create.{is_low, trunk_if, create_trunk_proof-program}
use merk.Proofs.Chunk.Height.{trunk_height}
use merk.Proofs.Chunk.{Row}
use merk.Proofs.Chunk.Program.{IsPlain, FitsAll}
use merk.Proofs.Chunk.Rows.{Rows, full}
use merk.Proofs.Chunk.RoundTrip.{trunk-present}
use merk.Proofs.Chunk.Trunk.{trunk}
use merk.Proofs.Encoding.{Ed, encode_into}
use merk.Proofs.Query.Verify.Accepts.{IsShort}
use merk.Proofs.Tree.Partial.{Partial}
use merk.Proofs.Tree.Postfix.{program}
use merk.Store.{Merk, source}
use merk.Store.Chunks.{
  EdVec, ChunkProducer, len_of, trunk_boundaries, chunks, next, next_chunk, take_next, drain, len,
}
use merk.Store.Chunks.Accepted.{
  length-windows, TrunkAccepted, AllAccepted, trunk_if-Accepted, windows-Accepted,
}
use merk.Store.Chunks.Drain.{at, next_end, drain-Split}
use merk.Store.Chunks.Windows.{Split, windows, bounds, leaf_bytes, boundaries-trunk, Rows-Split}
use merk.Store.Disk.{OnDisk-Stored}
use merk.Store.Holds.{Holds, FreshOption}
use merk.Store.Prove.{IsShort-FitsAll}
use merk.Store.Rocks.{Column, Db, IsLawful}
use merk.Store.Rows.{Holds-Rows}
use merk.Tree.{Tree}
use merk.Tree.Encoding.{EdOption}

-- the subtrees that have chunks of their own
abbrev pub leaves_if : Bool → Model → List Model
leaves_if true m = []
leaves_if false m = windows (trunk_height 1 m) m

append_some :
    (xs : List Op) (y : Op) (ys : List Op)
    → (op : Op) × (ops : List Op) × (xs ++ (y ∷ ys) ≡ op ∷ ops)
append_some [] y ys = (y, ys, refl)
append_some (x ∷ xs) y ys = (x, xs ++ (y ∷ ys), refl)

length_some :
    (xs : List Bytes) (y : Bytes) (ys : List Bytes)
    → len_of (xs ++ (y ∷ ys)) ≡ length (xs ++ (y ∷ ys)) + 2
length_some [] y ys = refl
length_some (x ∷ xs) y ys = refl

pub len_of_positive : (ks : List Bytes) → 0 < len_of ks
len_of_positive [] = omega arith
len_of_positive (k ∷ ks) = omega arith

-- a trunk that is not low has a boundary
len_of-bounds :
    (n : ℕ) (m : Model)
    → 0 < n
    → (m ≡ Model.leaf → ⊥)
    → len_of (bounds n m) ≡ length (bounds n m) + 2
len_of-bounds zero m b some_node = absurd (omega arith)
len_of-bounds (suc n) Model.leaf b some_node = absurd (some_node refl)
len_of-bounds (suc n) (Model.bin k v l r) b some_node = length_some (bounds n l) k (bounds n r)

module _ ⦃hasher : Hasher⦄ where
  by_partial :
      (p : Partial)
      → (p ≡ Partial.absent → ⊥)
      → (op : Op) × (ops : List Op) × (program p ≡ op ∷ ops)
  by_partial Partial.absent h = absurd (h refl)
  by_partial (Partial.node n l r) h = append_some (program l) (Op.push n) _

  pub program_some :
      (low : Bool) (m : Model)
      → (m ≡ Model.leaf → ⊥)
      → (op : Op) × (ops : List Op) × (program (trunk_if low m) ≡ op ∷ ops)
  program_some low Model.leaf some_node = absurd (some_node refl)
  program_some true (Model.bin k v l r) some_node = by_partial (full (Model.bin k v l r)) (λ e. cc)
  program_some false (Model.bin k v l r) some_node =
      by_partial (trunk (trunk_height 1 (Model.bin k v l r)) true (Model.bin k v l r))
        (trunk-present (trunk_height 1 (Model.bin k v l r)) k v l r)

module _ {S : Type 0} (db : Db S) ⦃hasher : Hasher⦄ ⦃o : EdOption⦄ ⦃codec : Ed⦄ ⦃vec : EdVec⦄ where
  next_trunk :
      (p : ChunkProducer) (op : Op) (ops : List Op)
      → p.index ≡ 0
      → p.trunk ≡ op ∷ ops
      → next p ≡ some (ok (at p 1 p.raw_iter, encode_into p.trunk))
  unfolding next next_chunk
  next_trunk p op ops i e =
      let positive = len_of_positive p.chunk_boundaries in
      let more : leb (len_of p.chunk_boundaries) 0 ≡ false = ground arith in
      rw (i, more, e, vec.encode_vec-encode_into (op ∷ ops)) refl

  drain_trunk :
      (fuel : ℕ) (p : ChunkProducer) (op : Op) (ops : List Op) (rest : List Bytes)
      → p.index ≡ 0
      → p.trunk ≡ op ∷ ops
      → drain fuel (at p 1 p.raw_iter) ≡ ok rest
      → drain (suc fuel) p ≡ ok (encode_into p.trunk ∷ rest)
  unfolding drain
  drain_trunk fuel p op ops rest i e more =
      ap (take_next (drain fuel)) (next_trunk p op ops i e) ∙ (rw more refl)

  drain_end :
      (fuel : ℕ) (p : ChunkProducer) (n : ℕ) (rows : List Row)
      → len p ≤ n
      → drain (suc fuel) (at p n rows) ≡ ok []
  unfolding drain
  drain_end fuel p n rows b = ap (take_next (drain fuel)) (next_end p n rows b)

  -- the producer that `chunks` makes
  abbrev pub producer : Bool → Model → List Row → ChunkProducer
  producer low m rows = record {
    trunk = program (trunk_if low m);
    chunk_boundaries = trunk_boundaries (not low) (program (trunk_if low m));
    rows = rows;
    raw_iter = rows;
    index = 0;
  }

  -- the boundaries of a trunk that is not low, and the rows between them
  pub producer-bounds :
      (m : Model) (rows : List Row)
      → is_low m ≡ false
      → (m ≡ Model.leaf → ⊥)
      → ((producer false m rows).chunk_boundaries ≡ bounds (trunk_height 1 m) m)
        × (len (producer false m rows) ≡ 0 + length (bounds (trunk_height 1 m) m) + 2)
  producer-bounds m rows el some_node =
      let n = trunk_height 1 m in
      let keys = boundaries-trunk n true m in
      let high : 0 < n = ground arith in
      (keys, ap len_of keys ∙ len_of-bounds n m high some_node ∙ (omega arith))

  pub producer-Split :
      (m : Model) (rows : List Row)
      → IsSorted (entries m)
      → FitsAll m
      → Rows m rows
      → Split none (windows (trunk_height 1 m) m) (bounds (trunk_height 1 m) m) rows
  producer-Split m rows s f h =
      Rows-Split none (trunk_height 1 m) m rows (s, f, plain (entries m)) h
    where
      plain : (es : List Entry) → IsPlain none es
      plain [] = tt
      plain (e ∷ es) = (refl, plain es)

  pub drain-producer :
      (fuel : ℕ) (m : Model) (low : Bool) (rows : List Row)
      → is_low m ≡ low
      → (m ≡ Model.leaf → ⊥)
      → IsSorted (entries m)
      → FitsAll m
      → length (leaves_if low m) + 2 ≤ fuel
      → Rows m rows
      → drain fuel (producer low m rows)
        ≡ ok (encode_into (program (trunk_if low m)) ∷ map leaf_bytes (leaves_if low m))
  drain-producer zero m low rows el some_node s f b h = absurd (omega arith)
  drain-producer (suc zero) m low rows el some_node s f b h = absurd (omega arith)
  drain-producer (suc (suc fuel)) m true rows el some_node s f b h =
      let p = producer true m rows in
      let (op, ops, e) = program_some true m some_node in
      drain_trunk (suc fuel) p op ops [] refl e (drain_end fuel p 1 rows (omega arith))
  drain-producer (suc fuel) m false rows el some_node s f b h =
      let p = producer false m rows in
      let n = trunk_height 1 m in
      let (op, ops, e) = program_some false m some_node in
      let (keys, count) = producer-bounds m rows el some_node in
      let more = length-windows n m in
      let all =
        drain-Split fuel p [] (bounds n m) (windows n m) rows keys count (omega arith)
          (producer-Split m rows s f h) in
      drain_trunk fuel p op ops (map leaf_bytes (windows n m)) refl e all

  -- `chunks` succeeds, and the producer has the trunk, its boundaries and the rows.
  pub chunks-producer :
      (fuel : ℕ) (merk : Merk S) (m : Model)
      → (m ≡ Model.leaf → ⊥)
      → Model.height m ≤ fuel
      → Model.height m < 2 ^ 64
      → IsShort (entries m)
      → Holds db merk m
      → (merk' : Merk S) × (chunks db fuel merk
          ≡ ok (merk', producer (is_low m) m (db.rows Column.main merk.state)))
        × Holds db merk' m
  unfolding chunks
  chunks-producer fuel merk m some_node b c short held = by_tree merk.tree refl held.tree
    where
      by_tree :
          (t : Option Tree)
          → merk.tree ≡ t
          → FreshOption t m
          → (merk' : Merk S) × (chunks db fuel merk
              ≡ ok (merk', producer (is_low m) m (db.rows Column.main merk.state)))
            × Holds db merk' m
      by_tree none e fresh = absurd (some_node fresh)
      by_tree (some t) e fresh =
          let stored = OnDisk-Stored db merk.state m (IsShort-FitsAll m short) held.disk in
          let (t', made, fresh') =
            create_trunk_proof-program (source db merk.state) fuel t m b c stored fresh in
          (
            record merk { tree = some t' },
            rw (e, made) refl,
            record { tree = fresh'; disk = held.disk; only = held.only; pointer = held.pointer },
          )

  -- the producer, and what the loop over it gives
  pub chunks-drained :
      (lawful : IsLawful db) (fuel fuel' : ℕ) (merk : Merk S) (m : Model)
      → (m ≡ Model.leaf → ⊥)
      → Model.height m ≤ fuel
      → Model.height m < 2 ^ 64
      → IsSorted (entries m)
      → IsShort (entries m)
      → length (leaves_if (is_low m) m) + 2 ≤ fuel'
      → Holds db merk m
      → (merk' : Merk S) × (p : ChunkProducer) × (chunks db fuel merk ≡ ok (merk', p))
        × Holds db merk' m
        × (drain fuel' p
            ≡ ok (
                encode_into (program (trunk_if (is_low m) m))
                ∷ map leaf_bytes (leaves_if (is_low m) m)))
  chunks-drained lawful fuel fuel' merk m some_node b c s short b' held =
      let (merk', made, held') = chunks-producer fuel merk m some_node b c short held in
      let rows = db.rows Column.main merk.state in
      (
        merk',
        producer (is_low m) m rows,
        made,
        held',
        drain-producer fuel' m (is_low m) rows refl some_node s (IsShort-FitsAll m short) b'
            (Holds-Rows db lawful merk m s held),
      )

  -- Where the database obeys the laws of RocksDB and holds a tree with a node, whose height is at
  -- most the fuel and below 2 ^ 64, its keys increase and are shorter than 2 ^ 8 and its values
  -- shorter than 2 ^ 16: `chunks` succeeds, the database still holds the tree, and the loop over the
  -- producer gives one chunk that `verify_trunk` accepts with the height of the left spine and the
  -- tree's root hash, then one chunk for each subtree below the trunk, in order, and none if the
  -- trunk is low; `verify_leaf` accepts the chunk of a subtree with a node against its root hash,
  -- and what it returns has the subtree's entries. The loop has fuel for each chunk and its end.
  pub chunks-Accepted :
      (lawful : IsLawful db) (fuel fuel' : ℕ) (merk : Merk S) (m : Model)
      → (m ≡ Model.leaf → ⊥)
      → Model.height m ≤ fuel
      → Model.height m < 2 ^ 64
      → IsSorted (entries m)
      → IsShort (entries m)
      → length (leaves_if (is_low m) m) + 2 ≤ fuel'
      → Holds db merk m
      → (merk' : Merk S) × (p : ChunkProducer) × (first : Bytes) × (rest : List Bytes) × (chunks db
            fuel merk
          ≡ ok (merk', p))
        × Holds db merk' m
        × (drain fuel' p ≡ ok (first ∷ rest))
        × TrunkAccepted first m
        × AllAccepted rest (leaves_if (is_low m) m)
  chunks-Accepted lawful fuel fuel' merk m some_node b c s short b' held =
      let (merk', p, made, held', drained) =
        chunks-drained lawful fuel fuel' merk m some_node b c s short b' held in
      (
        merk',
        p,
        encode_into (program (trunk_if (is_low m) m)),
        map leaf_bytes (leaves_if (is_low m) m),
        made,
        held',
        drained,
        trunk_if-Accepted m some_node s short,
        leaves (is_low m),
      )
    where
      leaves : (low : Bool) → AllAccepted (map leaf_bytes (leaves_if low m)) (leaves_if low m)
      leaves true = tt
      leaves false = windows-Accepted (trunk_height 1 m) m s short
