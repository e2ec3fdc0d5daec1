-- ===== src/Store/Restore/High.antt =====
-- Restoring a tree from all its chunks.
use mathlib.Core.Path.{subst}
use merk.Prelude.{
  ℕ, suc, ◌+◌, ◌-◌, ◌/◌, ◌≤◌, ◌<◌, ◌^◌, ◌≡◌, ◌≢◌, ◌⊎◌, inl, inr, refl, ap, ◌∙◌, Bool, true, false,
  List, [], ◌∷◌, some, none, map, length, append-nil, arith,
}
use merk.Bytes.{Bytes}
use merk.Bytes.Order.{eq_bytes_refl}
use merk.Outcome.{Result, ok, ◌>>=◌}
use merk.Hash.{Hasher, Broken}
use merk.Model
use merk.Model.{Model, entries, IsSorted, root_hash}
use merk.Proofs.{Op}
use merk.Proofs.Chunk.Create.{is_low, trunk_if}
use merk.Proofs.Chunk.Height.{trunk_height}
use merk.Proofs.Chunk.RoundTrip.{verify_trunk-trunk_if}
use merk.Proofs.Chunk.Trunk.{trunk, left_length}
use merk.Proofs.Chunk.Verify.{verify_trunk}
use merk.Proofs.Encoding.{Ed, encode_into}
use merk.Proofs.Encoding.RoundTrip.{decode_all-encode_into}
use merk.Proofs.Query.Verify.Accepts.{IsShort}
use merk.Proofs.Query.Verify.Complete.{IsShort-IsSized}
use merk.Proofs.Tree.{ProofTree, hash as proof_hash}
use merk.Proofs.Tree.Postfix.{program}
use merk.Proofs.Tree.Shape.{SameShape}
use merk.Store.{Merk, root_key_key, node_write, load_root, open_merk}
use merk.Store.Chunks.{EdVec, chunks, drain}
use merk.Store.Chunks.Accepted.{trunk_if-Fits}
use merk.Store.Chunks.Complete.{leaves_if, chunks-drained}
use merk.Store.Chunks.Windows.{windows, leaf_bytes}
use merk.Store.Disk.{OnDisk-same, OnDisk-fetch, IsFree, reads_of}
use merk.Store.Holds.{Holds}
use merk.Store.Prove.{IsShort-FitsAll}
use merk.Store.Replay.{changed, changed-other, node_write-internal}
use merk.Store.Restore.{
  Restorer, restore, restore_all, process_chunk, process_trunk, store_trunk, finalize,
  rewrite_trunk_child_heights,
}
use merk.Store.Restore.Fill.{fill, length-map}
use merk.Store.Restore.Grown.{Grown}
use merk.Store.Restore.Heights.{Grown-fetch, rewrite-HeightWrites}
use merk.Store.Restore.Layers.{Deep-Distinct, Distinct, length-windows_at}
use merk.Store.Restore.Leaf.{everywhere, filling}
use merk.Store.Restore.Low.{Blank, verify_trunk-WellFormed, restore-chunks}
use merk.Store.Restore.Shape.{Deep, keys_at}
use merk.Store.Restore.Start.{fresh_restorer, trunk_restorer, trunk-Started, tall}
use merk.Store.Rocks.{Column, Db, IsLawful}
use merk.Tree.Encoding.{EdOption}

left_length-height : (m : Model) → left_length m ≤ Model.height m
left_length-height Model.leaf = omega arith
left_length-height (Model.bin k v l r) = let h = left_length-height l in omega arith

abbrev CompleteIf : Bool → Model → Type 0
CompleteIf true m = Unit
CompleteIf false m = Deep (trunk_height 1 m) m

-- a trunk that is not low is complete
abbrev pub IsComplete : Model → Type 0
IsComplete m = CompleteIf (is_low m) m

module _ {S : Type 0} (db : Db S) ⦃hasher : Hasher⦄ ⦃o : EdOption⦄ ⦃codec : Ed⦄ ⦃vec : EdVec⦄
    (lawful : IsLawful db) where
  -- What `finalize` makes of the database once all the leaf chunks are there.
  finalize-Holds :
      (r : Restorer S) (n : ℕ) (s : S) (k v : Bytes) (l r' : Model)
      → r.trunk_height ≡ some n
      → 5 ≤ n
      → IsSorted (entries (Model.bin k v l r'))
      → IsShort (entries (Model.bin k v l r'))
      → Model.height (Model.bin k v l r') < 2 ^ 8
      → Grown true (reads_of db s) n (Model.bin k v l r')
      → ((q : Bytes) → IsFree q (entries (Model.bin k v l r')) → db.get Column.main q s ≡ ok none)
      → db.get Column.internal root_key_key s ≡ ok (some k)
      → (restored : Merk S) × (finalize db (filling db r [] [] s) ≡ ok restored)
        × Holds db restored (Model.bin k v l r')
  unfolding finalize rewrite_trunk_child_heights load_root
  finalize-Holds r n s k v l r' height low so short b g only pointer =
      let m = Model.bin k v l r' in
      let fits = IsShort-FitsAll m short in
      let (c, fetched, stands) = Grown-fetch db s n m k refl fits g in
      let h = rewrite-HeightWrites db s n c m stands so fits b g in
      let (s', wrote, reads) = lawful.writes (map node_write h.changes) s in
      let main : (q : Bytes)
          → db.get Column.main q s' ≡ changed h.changes q (db.get Column.main q s) =
        λ q. reads Column.main q in
      let pointer' =
        reads Column.internal root_key_key
        ∙ node_write-internal h.changes root_key_key _
        ∙ pointer in
      let disk =
        OnDisk-same _ (reads_of db s') m (everywhere main (entries m))
          (h.stores (reads_of db s) g) in
      let (d, fetched', fresh) = OnDisk-fetch db s' k v l r' fits disk in
      (
        record { tree = some d; state = s' },
        rw (height, tall n low, pointer, fetched, h.ran, wrote, pointer', fetched') refl,
        record {
          tree = fresh;
          disk = disk;
          only = λ q free.
              main q ∙ changed-other h.changes q _ (h.keys (λ y. y ≢ q) free) ∙ only q free;
          pointer = pointer';
        },
      )

  process_trunk-high :
      (r r' : Restorer S) (ops : List (Result Op)) (t : ProofTree) (n count : ℕ)
      → verify_trunk ops ≡ ok (t, n)
      → proof_hash t ≡ ok r.expected_root_hash
      → store_trunk db r t n ≡ ok (r', count)
      → process_trunk db r ops ≡ ok (r', count)
  unfolding process_trunk
  process_trunk-high r r' ops t n count accepted hashed stored =
      rw (accepted, hashed, eq_bytes_refl r.expected_root_hash) stored

  restore_all-high :
      (merk : Merk S) (n : ℕ) (k v : Bytes) (l r : Model)
      → trunk_height 1 (Model.bin k v l r) ≡ suc n
      → is_low (Model.bin k v l r) ≡ false
      → IsSorted (entries (Model.bin k v l r))
      → IsShort (entries (Model.bin k v l r))
      → suc n < 64
      → Model.height (Model.bin k v l r) < 2 ^ 8
      → Deep (suc n) (Model.bin k v l r)
      → Distinct (suc n) (Model.bin k v l r)
      → Blank db merk.state
      → (restored : Merk S) × (restore_all db
            (fresh_restorer db merk (root_hash (Model.bin k v l r)) (2 ^ suc n + 1))
            (encode_into (program (trunk_if false (Model.bin k v l r)))
              ∷ map leaf_bytes (windows (suc n) (Model.bin k v l r)))
          ≡ ok restored)
        × Holds db restored (Model.bin k v l r)
  unfolding restore_all process_chunk
  restore_all-high merk n k v l r top high so short small b d x blank =
      let m = Model.bin k v l r in
      let (t, accepted, hashed, shape) =
        verify_trunk-trunk_if false k v l r high so (IsShort-IsSized m short) in
      let decoded =
        decode_all-encode_into (program (trunk_if false m)) (trunk_if-Fits false m short) in
      let wf = verify_trunk-WellFormed _ t (left_length m) accepted in
      let half : left_length m / 2 ≡ suc n = omega arith in
      let low : 5 ≤ suc n = ground arith in
      let shape' = subst (λ i. SameShape t (trunk i true m)) top shape in
      let a =
        trunk-Started db lawful merk t n k v l r half low small shape' wf so short d x blank in
      let base = trunk_restorer db merk (root_hash m) (2 ^ suc n + 1) (suc n) in
      let f = fill db lawful base n m [] [] a.s [] refl d so short b a.grown in
      let (restored, done, holds) =
        finalize-Holds base (suc n) f.s' k v l r refl low so short b f.grown
          (λ q free. f.others q free ∙ a.only q free) (f.pointer ∙ a.pointer) in
      let processed =
        ap (process_trunk db (fresh_restorer db merk (root_hash m) (2 ^ suc n + 1))) decoded
        ∙ process_trunk-high (fresh_restorer db merk (root_hash m) (2 ^ suc n + 1)) _ _ t
            (left_length m) _ accepted hashed a.runs in
      let ran : restore_all db
            (filling db base (map root_hash (windows (suc n) m)) (keys_at n m) a.s)
            (map leaf_bytes (windows (suc n) m))
          ≡ restore_all db (filling db base [] [] f.s') [] =
        simp append-nil at f.runs in
      (
        restored,
        ap (λ x. x >>= λ (r', count). restore_all db r' (map leaf_bytes (windows (suc n) m)))
              processed
            ∙ ran
            ∙ done,
        holds,
      )

  -- the restored database of a tree
  abbrev Restored : ℕ → ℕ → Merk S → Model → S → Type 0
  Restored fuel fuel' merk m s =
      (restored : Merk S) × ((chunks db fuel merk >>= λ (merk', p). drain fuel' p >>= λ all.
      restore db false s (root_hash m) (length all) >>= λ r. restore_all db r all)
        ≡ ok restored)
      × Holds db restored m

  restore_chunks-high :
      (fuel fuel' n : ℕ) (merk : Merk S) (k v : Bytes) (l r : Model) (s : S)
      → trunk_height 1 (Model.bin k v l r) ≡ suc n
      → is_low (Model.bin k v l r) ≡ false
      → Deep (suc n) (Model.bin k v l r)
      → Model.height (Model.bin k v l r) ≤ fuel
      → Model.height (Model.bin k v l r) < 2 ^ 7
      → length (leaves_if (is_low (Model.bin k v l r)) (Model.bin k v l r)) + 2 ≤ fuel'
      → IsSorted (entries (Model.bin k v l r))
      → IsShort (entries (Model.bin k v l r))
      → Holds db merk (Model.bin k v l r)
      → Blank db s
      → Broken ⊎ Restored fuel fuel' merk (Model.bin k v l r) s
  unfolding restore open_merk load_root
  restore_chunks-high fuel fuel' n merk k v l r s top high d b c b' so short held blank =
      let m = Model.bin k v l r in
      let spine = left_length-height m in
      let small : suc n < 64 = omega arith in
      elim (Deep-Distinct (suc n) m d so (IsShort-IsSized m short)) [
        | inl broken ↦ inl broken
        | inr x ↦
            let (merk', p, made, held', drained) =
              chunks-drained db lawful fuel fuel' merk m (λ e. cc) b (omega arith) so short b'
                held in
            let empty : Merk S = record { tree = none; state = s } in
            let (restored, ran, holds) =
              restore_all-high empty n k v l r top high so short small (omega arith) d x blank in
            let first = encode_into (program (trunk_if false m)) in
            let rest = map leaf_bytes (windows (suc n) m) in
            let all : drain fuel' p ≡ ok (first ∷ rest) =
              drained
              ∙ ap
                  (λ low.
                    ok (encode_into (program (trunk_if low m)) ∷ map leaf_bytes (leaves_if low m)))
                  high
              ∙ ap (λ i. ok (first ∷ map leaf_bytes (windows i m))) top in
            let size = length-map leaf_bytes (windows (suc n) m) in
            let size' = length-windows_at (suc n) m d in
            let count : length (first ∷ rest) ≡ 2 ^ suc n + 1 = omega arith in
            inr (restored, rw (made, all, blank.pointer, count) ran, holds)
      ]

  -- Where the database obeys the laws of RocksDB and holds a tree with a node, its height is at most
  -- the fuel and below 2 ^ 7, the tree has all the nodes at the depth of its trunk if the trunk is
  -- not low, its keys increase and are shorter than 2 ^ 8 and its values shorter than 2 ^ 16: a
  -- restorer over a database without a tree, which is given the tree's root hash and the number of
  -- chunks, accepts every chunk that the loop over the producer gives, and `finalize` succeeds, and
  -- the restored database then holds the tree; or the hash function is broken. The loop has fuel for
  -- each chunk and its end.
  pub restore-all_chunks :
      (fuel fuel' : ℕ) (merk : Merk S) (m : Model) (s : S)
      → (m ≡ Model.leaf → ⊥)
      → IsComplete m
      → Model.height m ≤ fuel
      → Model.height m < 2 ^ 7
      → length (leaves_if (is_low m) m) + 2 ≤ fuel'
      → IsSorted (entries m)
      → IsShort (entries m)
      → Holds db merk m
      → Blank db s
      → Broken
        ⊎ ((restored : Merk S) × ((chunks db fuel merk >>= λ (merk', p). drain fuel' p >>= λ all.
                restore db false s (root_hash m) (length all) >>= λ r. restore_all db r all)
              ≡ ok restored)
            × Holds db restored m)
  restore-all_chunks fuel fuel' merk Model.leaf s some_node complete b c d so short held blank =
      absurd (some_node refl)
  restore-all_chunks fuel fuel' merk (Model.bin k v l r) s some_node complete b c d so short held
        blank =
      by_low (is_low m) refl complete
    where
      m : Model
      m = Model.bin k v l r

      by_low :
          (low : Bool) → is_low m ≡ low → CompleteIf low m → Broken ⊎ Restored fuel fuel' merk m s
      by_low true low complete = inr (
          restore-chunks db lawful fuel fuel' merk m s some_node low b (omega arith) (omega arith)
            so short held blank)
      by_low false high complete =
          let n = trunk_height 1 m - 1 in
          let tall : 5 ≤ trunk_height 1 m = ground arith in
          let top : trunk_height 1 m ≡ suc n = omega arith in
          restore_chunks-high fuel fuel' n merk k v l r s top high
            (subst (λ i. Deep i m) top complete) b c d so short held blank
