-- ===== src/Store/Restore/Low.antt =====
-- Restoring a tree whose trunk is low, from its only chunk.
use mathlib.Core.Path.{subst}
use merk.Prelude.{
  ℕ, ◌≢◌, ◌+◌, ◌-◌, ◌/◌, ◌≤◌, ◌<◌, length, ◌^◌, ◌≡◌, refl, ap, ◌∙◌, true, false, List, [], ◌∷◌,
  Option, none, some, map, arith, ltb, leb,
}
use merk.Bytes.{Bytes}
use merk.Bytes.Order.{eq_bytes_refl}
use merk.Outcome.{Result, ok, ◌>>=◌, >>=-eq-ok}
use merk.Hash.{Hasher}
use merk.Model
use merk.Model.{Model, Entry, entries, IsSorted, root_hash}
use merk.Proofs.{Op}
use merk.Proofs.Chunk.Create.{is_low}
use merk.Proofs.Chunk.RoundTrip.{verify_trunk-trunk_if}
use merk.Proofs.Chunk.Rows.{full}
use merk.Proofs.Chunk.Trunk.{left_length}
use merk.Proofs.Chunk.Verify.{verify_trunk, kv_only, verify_height_proof, verify_layers}
use merk.Proofs.Encoding.{Ed}
use merk.Proofs.Encoding.RoundTrip.{decode_all-encode_into}
use merk.Proofs.Query.Verify.Accepts.{IsShort}
use merk.Proofs.Query.Verify.Complete.{IsShort-IsSized}
use merk.Proofs.Tree.{ProofTree, hash as proof_hash, execute}
use merk.Proofs.Tree.Postfix.{program}
use merk.Proofs.Tree.Shape.{SameShape}
use merk.Proofs.Tree.WellFormed.{WellFormed, execute-WellFormed}
use merk.Store.{Merk, root_key_key, node_write, load_root, open_merk, set_root_key}
use merk.Store.Chunks.{EdVec, chunks, drain}
use merk.Store.Chunks.Complete.{leaves_if, chunks-drained}
use merk.Store.Chunks.Accepted.{trunk_if-Fits}
use merk.Store.Chunks.Windows.{leaf_bytes}
use merk.Store.Disk.{OnDisk, OnDisk-same, OnDisk-fetch, IsFree, reads_of}
use merk.Store.Holds.{Holds}
use merk.Store.Prove.{IsShort-FitsAll}
use merk.Store.Replay.{changed, changed-other}
use merk.Store.Restore.{
  Restorer, proof_key, restore, restore_all, process_chunk, process_trunk, store_trunk, write_chunk,
  chunk_writes, finalize,
}
use merk.Store.Restore.Leaf.{everywhere, key-full}
use merk.Store.Restore.Full.{visit-ChunkWrites}
use merk.Store.Rocks.{Column, Write, Db, IsLawful}
use merk.Tree.{Tree}
use merk.Tree.Encoding.{EdOption}

module _ ⦃hasher : Hasher⦄ where
  -- what `verify_trunk` returns was built by `execute`
  pub verify_trunk-WellFormed :
      (ops : List (Result Op)) (t : ProofTree) (n : ℕ) → verify_trunk ops ≡ ok (t, n) → WellFormed t
  unfolding verify_trunk
  verify_trunk-WellFormed ops t n e =
      let (r, executed, e') = >>=-eq-ok (execute false kv_only ops true) _ e in
      let (height, measured, e'') = >>=-eq-ok (verify_height_proof r.0) _ e' in
      let (done, layers, e''') = >>=-eq-ok (verify_layers r.0 r.1 (height / 2)) _ e'' in
      let same : r.0 ≡ t = cc in
      subst WellFormed same (execute-WellFormed kv_only ops true r executed)

module _ {S : Type 0} (db : Db S) ⦃hasher : Hasher⦄ ⦃o : EdOption⦄ ⦃codec : Ed⦄ where
  -- A database without a tree.
  pub record Blank (s : S) : Type 0 where
    pub main : (k : Bytes) → db.get Column.main k s ≡ ok none
    pub pointer : db.get Column.internal root_key_key s ≡ ok none

module _ {S : Type 0} (db : Db S) ⦃hasher : Hasher⦄ ⦃o : EdOption⦄ ⦃codec : Ed⦄ ⦃vec : EdVec⦄
    (lawful : IsLawful db) where
  -- the database once the only chunk is written
  low-written :
      (merk : Merk S) (t : ProofTree) (k v : Bytes) (l r : Model)
      → IsSorted (entries (Model.bin k v l r))
      → IsShort (entries (Model.bin k v l r))
      → Model.height (Model.bin k v l r) < 2 ^ 8
      → SameShape t (full (Model.bin k v l r))
      → WellFormed t
      → Blank db merk.state
      → (s₁ : S) × (s : S) × (write_chunk db t merk ≡ ok (record merk { state = s₁ }))
        × (set_root_key db k (record merk { state = s₁ }) ≡ ok (record merk { state = s }))
        × OnDisk (reads_of db s) (Model.bin k v l r)
        × ((q : Bytes) → IsFree q (entries (Model.bin k v l r)) → db.get Column.main q s ≡ ok none)
        × (db.get Column.internal root_key_key s ≡ ok (some k))
  unfolding write_chunk chunk_writes
  low-written merk t k v l r so short b shape w blank =
      let m = Model.bin k v l r in
      let c =
        visit-ChunkWrites t m shape w so (IsShort-IsSized m short) (IsShort-FitsAll m short) b in
      let (s₁, e₁, reads₁) = lawful.writes (map node_write c.changes) merk.state in
      let (s₂, e₂, reads₂) = lawful.writes (Write.put Column.internal root_key_key k ∷ []) s₁ in
      let main : (q : Bytes)
          → db.get Column.main q s₂ ≡ changed c.changes q (db.get Column.main q merk.state) =
        λ q. reads₂ Column.main q ∙ reads₁ Column.main q in
      (
        s₁,
        s₂,
        rw (c.writes [], e₁) refl,
        rw e₂ refl,
        OnDisk-same _ (reads_of db s₂) m (everywhere main (entries m))
            (c.stores (reads_of db merk.state)),
        (λ q free. main q ∙ changed-other c.changes q _ (c.keys (λ x. x ≢ q) free) ∙ blank.main q),
        reads₂ Column.internal root_key_key ∙ (rw (eq_bytes_refl root_key_key) refl),
      )

  -- a restorer that was given no chunk yet
  abbrev pub blank_restorer : Merk S → Bytes → Restorer S
  blank_restorer merk expected_root_hash = record {
    leaf_hashes = none;
    parent_keys = none;
    trunk_height = none;
    merk = merk;
    expected_root_hash = expected_root_hash;
    stated_length = 1;
  }

  -- what it is once it has the only chunk
  abbrev low_restorer : Merk S → Bytes → ℕ → S → Restorer S
  low_restorer merk expected_root_hash height s = record (blank_restorer merk expected_root_hash) {
    leaf_hashes = some [];
    parent_keys = some [];
    trunk_height = some height;
    merk = record merk { state = s };
  }

  store_trunk-low :
      (merk : Merk S) (h : Bytes) (t : ProofTree) (k : Bytes) (n : ℕ) (s₁ s : S)
      → leb 5 (n / 2) ≡ false
      → proof_key t ≡ ok k
      → write_chunk db t merk ≡ ok (record merk { state = s₁ })
      → set_root_key db k (record merk { state = s₁ }) ≡ ok (record merk { state = s })
      → store_trunk db (blank_restorer merk h) t n ≡ ok (low_restorer merk h (n / 2) s, 0)
  store_trunk-low merk h t k n s₁ s small ek wrote pointed = rw (ek, small, wrote, pointed) refl

  process_trunk-low :
      (merk : Merk S) (h : Bytes) (ops : List (Result Op)) (t : ProofTree) (n : ℕ)
      (r : Restorer S × ℕ)
      → verify_trunk ops ≡ ok (t, n)
      → proof_hash t ≡ ok h
      → store_trunk db (blank_restorer merk h) t n ≡ ok r
      → process_trunk db (blank_restorer merk h) ops ≡ ok r
  unfolding process_trunk
  process_trunk-low merk h ops t n r accepted hashed stored =
      rw (accepted, hashed, eq_bytes_refl h) stored

  finalize-low :
      (merk : Merk S) (h : Bytes) (n : ℕ) (s : S) (root : Option Tree)
      → leb 5 n ≡ false
      → load_root db s ≡ ok root
      → finalize db (low_restorer merk h n s) ≡ ok (record { tree = root; state = s })
  unfolding finalize
  finalize-low merk h n s root small loaded = rw (small, loaded) refl

  low_height : (n : ℕ) → ltb ((1 + n - 1) / 2) 5 ≡ true → leb 5 (n / 2) ≡ false
  low_height n h = ground arith

  restore_all-low :
      (merk : Merk S) (k v : Bytes) (l r : Model)
      → is_low (Model.bin k v l r) ≡ true
      → IsSorted (entries (Model.bin k v l r))
      → IsShort (entries (Model.bin k v l r))
      → Model.height (Model.bin k v l r) < 2 ^ 8
      → Blank db merk.state
      → (merk' : Merk S) × (restore_all db
            (blank_restorer merk (root_hash (Model.bin k v l r)))
            (leaf_bytes (Model.bin k v l r) ∷ [])
          ≡ ok merk')
        × Holds db merk' (Model.bin k v l r)
  unfolding restore_all process_chunk load_root
  restore_all-low merk k v l r low so short b blank =
      let m = Model.bin k v l r in
      let (t, accepted, hashed, shape) =
        verify_trunk-trunk_if true k v l r low so (IsShort-IsSized m short) in
      let decoded = decode_all-encode_into (program (full m)) (trunk_if-Fits true m short) in
      let wf = verify_trunk-WellFormed (map ok (program (full m))) t (left_length m) accepted in
      let (s₁, s, wrote, pointed, disk, only, pointer) =
        low-written merk t k v l r so short b shape wf blank in
      let (c, fetched, fresh) = OnDisk-fetch db s k v l r (IsShort-FitsAll m short) disk in
      let small = low_height (left_length m) low in
      let stored =
        store_trunk-low merk (root_hash m) t k (left_length m) s₁ s small (key-full t k v l r shape)
          wrote pointed in
      let processed =
        ap (process_trunk db (blank_restorer merk (root_hash m))) decoded
        ∙ process_trunk-low merk (root_hash m) _ t (left_length m) _ accepted hashed stored in
      let loaded : load_root db s ≡ ok (some c) = rw (pointer, fetched) refl in
      let done = finalize-low merk (root_hash m) (left_length m / 2) s (some c) small loaded in
      (
        record { tree = some c; state = s },
        ap (λ x. x >>= λ (r', count). restore_all db r' []) processed ∙ done,
        record { tree = fresh; disk = disk; only = only; pointer = pointer },
      )

  -- Where the database obeys the laws of RocksDB and holds a tree with a node whose trunk is low,
  -- its height is at most the fuel and below 2 ^ 8, its keys increase and are shorter than 2 ^ 8 and
  -- its values shorter than 2 ^ 16: a restorer over a database without a tree, which is given the
  -- tree's root hash and the number of chunks, accepts every chunk that the loop over the producer
  -- gives, and `finalize` succeeds; the restored database then holds the tree.
  pub restore-chunks :
      (fuel fuel' : ℕ) (merk : Merk S) (m : Model) (s : S)
      → (m ≡ Model.leaf → ⊥)
      → is_low m ≡ true
      → Model.height m ≤ fuel
      → Model.height m < 2 ^ 8
      → 2 ≤ fuel'
      → IsSorted (entries m)
      → IsShort (entries m)
      → Holds db merk m
      → Blank db s
      → (restored : Merk S) × ((chunks db fuel merk >>= λ (merk', p). drain fuel' p >>= λ all.
            restore db false s (root_hash m) (length all) >>= λ r. restore_all db r all)
          ≡ ok restored)
        × Holds db restored m
  unfolding restore open_merk load_root
  restore-chunks fuel fuel' merk Model.leaf s some_node low b c d so short held blank =
      absurd (some_node refl)
  restore-chunks fuel fuel' merk (Model.bin k v l r) s some_node low b c d so short held blank =
      let m = Model.bin k v l r in
      let count : length (leaves_if true m) + 2 ≤ fuel' = omega arith in
      let (merk', p, made, held', drained) =
        chunks-drained db lawful fuel fuel' merk m some_node b (omega arith) so short (rw low count)
          held in
      let empty : Merk S = record { tree = none; state = s } in
      let (restored, ran, holds) = restore_all-low empty k v l r low so short c blank in
      let all : drain fuel' p ≡ ok (leaf_bytes m ∷ []) = drained ∙ (rw low refl) in
      (restored, rw (made, all, blank.pointer) ran, holds)
