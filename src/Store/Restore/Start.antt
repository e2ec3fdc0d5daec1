-- ===== src/Store/Restore/Start.antt =====
-- The first chunk of a tree whose trunk is not low: what the restorer keeps of it and writes.
use native.Mathlib.Nat.{pow-le-pow_right}
use merk.Prelude.{
  ℕ, zero, suc, ◌+◌, ◌-◌, ◌/◌, ◌%◌, ◌==◌, ◌≤◌, ◌<◌, ◌^◌, ◌≡◌, ◌≢◌, refl, sym, ap, ◌∙◌, true, false,
  List, [], ◌∷◌, some, none, map, length, leb, arith,
}
use merk.Bytes.{Bytes}
use merk.Bytes.Order.{eq_bytes_refl}
use merk.Outcome.{ok}
use merk.Hash.{Hasher}
use merk.Model
use merk.Model.{Model, entries, IsSorted, root_hash}
use merk.Proofs.Chunk.Trunk.{trunk, left_length}
use merk.Proofs.Query.Verify.Accepts.{IsShort}
use merk.Proofs.Query.Verify.Complete.{IsShort-IsSized}
use merk.Proofs.Tree.{ProofTree}
use merk.Proofs.Tree.Layer.{layer, layer-nodes_at}
use merk.Proofs.Tree.Shape.{SameShape}
use merk.Proofs.Tree.WellFormed.{WellFormed}
use merk.Proofs.Encoding.{Ed}
use merk.Store.{Merk, root_key_key, node_write}
use merk.Store.Chunks.Windows.{windows}
use merk.Store.Disk.{IsFree, reads_of}
use merk.Store.Prove.{IsShort-FitsAll}
use merk.Store.Replay.{changed, changed-other}
use merk.Store.Restore.{
  Restorer, proof_key, assert_layers, trunk_layers, store_trunk, write_chunk, chunk_writes,
}
use merk.Store.Restore.Fill.{length-map}
use merk.Store.Restore.Grown.{Grown, Grown-same}
use merk.Store.Restore.Layers.{
  Distinct, trunk-Forks, trunk-hashes, trunk-keys, length-nodes_at, length-windows_at,
  length-keys_at,
}
use merk.Store.Restore.Leaf.{everywhere, filling}
use merk.Store.Restore.Low.{Blank}
use merk.Store.Restore.Shape.{Deep, keys_at, trunk-Forked}
use merk.Store.Restore.Trunk.{trunk-TrunkWrites}
use merk.Store.Rocks.{Column, Write, Db, IsLawful}
use merk.Tree.Encoding.{EdOption}

pub tall : (n : ℕ) → 5 ≤ n → leb 5 n ≡ true
tall n h = ground arith

Deep-less : (n : ℕ) (m : Model) → Deep (suc n) m → Deep n m
Deep-less n Model.leaf d = elim d [ ]
Deep-less zero (Model.bin k v l r) d = tt
Deep-less (suc n) (Model.bin k v l r) d = (Deep-less n l d.0, Deep-less n r d.1)

pow_less : (n : ℕ) → suc n < 64 → 2 ^ suc n < 2 ^ 64
pow_less n b =
    let h : 2 ^ suc n ≤ 2 ^ 63 = pow-le-pow_right {n = 2} (omega arith) {j = 63} (omega arith) in
    omega arith

pow_half : (n : ℕ) → 2 ^ suc n / 2 ≡ 2 ^ n
pow_half n = omega arith

same_eq : (a b : ℕ) → a ≡ b → (a == b) ≡ true
same_eq a b e = ground arith

module _ {S : Type 0} (db : Db S) ⦃hasher : Hasher⦄ ⦃o : EdOption⦄ where
  assert_layers-passes :
      (n : ℕ) (hashes keys : List Bytes)
      → suc n < 64
      → length hashes ≡ 2 ^ suc n
      → length keys ≡ 2 ^ n
      → assert_layers db (suc n) hashes keys ≡ ok (hashes, keys)
  assert_layers-passes n hashes keys b eh ek =
      let below = pow_less n b in
      let half = pow_half n in
      let small : 2 ^ suc n % 2 ^ 64 ≡ 2 ^ suc n = omega arith in
      let first = same_eq (length keys) (length hashes / 2) (omega arith) in
      let second = same_eq (length hashes) (2 ^ suc n % 2 ^ 64) (eh ∙ (rw small refl)) in
      rw (first, second) refl

  -- the hashes of the leaf chunks and the keys of their parents
  trunk_layers-trunk :
      (n : ℕ) (t : ProofTree) (m : Model)
      → 5 ≤ suc n
      → suc n < 64
      → SameShape t (trunk (suc n) true m)
      → WellFormed t
      → Model.IsSized m
      → Deep (suc n) m
      → Distinct (suc n) m
      → trunk_layers db t (suc n) ≡ ok (map root_hash (windows (suc n) m), keys_at n m)
  trunk_layers-trunk n t m low high s w z d x =
      let forks = trunk-Forks (suc n) (suc n) t true m (omega arith) s w z d x in
      let forks' = trunk-Forks n (suc n) t true m (omega arith) s w z d x in
      let up : suc n - 1 ≡ n = omega arith in
      let leaves =
        ap (λ k. layer (k + 1) t (suc n)) (sym (length-nodes_at (suc n) t forks))
        ∙ layer-nodes_at (suc n) t forks in
      let parents =
        ap (λ k. layer (k + 1) t n) (sym (length-nodes_at n t forks'))
        ∙ layer-nodes_at n t forks' in
      let hashes = length-map root_hash (windows (suc n) m) ∙ length-windows_at (suc n) m d in
      let keys = length-keys_at n m (Deep-less n m d) in
      rw
        (
          tall (suc n) low,
          up,
          leaves,
          parents,
          trunk-hashes (suc n) t true m s w z d,
          trunk-keys n t true m s w z d,
        )
        (assert_layers-passes n _ _ high hashes keys)

  -- a restorer that was given no chunk yet, and what it is once it has the trunk
  abbrev pub fresh_restorer : Merk S → Bytes → ℕ → Restorer S
  fresh_restorer merk h count = record {
    leaf_hashes = none;
    parent_keys = none;
    trunk_height = none;
    merk = merk;
    expected_root_hash = h;
    stated_length = count;
  }

  abbrev pub trunk_restorer : Merk S → Bytes → ℕ → ℕ → Restorer S
  trunk_restorer merk h count n = record (fresh_restorer merk h count) { trunk_height = some n }

  module _ ⦃codec : Ed⦄ where
    -- What the trunk leaves in the restorer and the database.
    pub record Started (merk : Merk S) (t : ProofTree) (n : ℕ) (k : Bytes) (m : Model)
        : Type 0 where
      pub s : S
      pub runs :
          store_trunk db (fresh_restorer merk (root_hash m) (2 ^ suc n + 1)) t (left_length m)
          ≡ ok (
            filling db
                (trunk_restorer merk (root_hash m) (2 ^ suc n + 1) (suc n))
                (map root_hash (windows (suc n) m))
                (keys_at n m)
                s,
            length (map root_hash (windows (suc n) m)),
          )
      pub grown : Grown false (reads_of db s) (suc n) m
      pub only : (q : Bytes) → IsFree q (entries m) → db.get Column.main q s ≡ ok none
      pub pointer : db.get Column.internal root_key_key s ≡ ok (some k)

    pub trunk-Started :
        (lawful : IsLawful db) (merk : Merk S) (t : ProofTree) (n : ℕ) (k v : Bytes) (l r : Model)
        → left_length (Model.bin k v l r) / 2 ≡ suc n
        → 5 ≤ suc n
        → suc n < 64
        → SameShape t (trunk (suc n) true (Model.bin k v l r))
        → WellFormed t
        → IsSorted (entries (Model.bin k v l r))
        → IsShort (entries (Model.bin k v l r))
        → Deep (suc n) (Model.bin k v l r)
        → Distinct (suc n) (Model.bin k v l r)
        → Blank db merk.state
        → Started merk t n k (Model.bin k v l r)
    unfolding write_chunk chunk_writes
    trunk-Started lawful merk t n k v l r half low high s w so short d x blank =
        let m = Model.bin k v l r in
        let z = IsShort-IsSized m short in
        let f = trunk-Forked t n true k v l r s w z d in
        let c = trunk-TrunkWrites (suc n) true t m s w d so z (IsShort-FitsAll m short) in
        let (s₁, e₁, reads₁) = lawful.writes (map node_write c.changes) merk.state in
        let (s₂, e₂, reads₂) = lawful.writes (Write.put Column.internal root_key_key k ∷ []) s₁ in
        let main : (q : Bytes)
            → db.get Column.main q s₂ ≡ changed c.changes q (db.get Column.main q merk.state) =
          λ q. reads₂ Column.main q ∙ reads₁ Column.main q in
        let root : proof_key t ≡ ok k = rw f.tree refl in
        let layers = trunk_layers-trunk n t m low high s w z d x in
        let count = length-map root_hash (windows (suc n) m) ∙ length-windows_at (suc n) m d in
        let stated =
          same_eq (2 ^ suc n + 1) (length (map root_hash (windows (suc n) m)) + 1) (omega arith) in
        record {
          s = s₂;
          runs = rw (root, half, layers, stated, c.writes [], e₁, e₂) refl;
          grown =
              Grown-same false _ (reads_of db s₂) (suc n) m (everywhere main (entries m))
                (c.stores (reads_of db merk.state));
          only = λ q free.
              main q ∙ changed-other c.changes q _ (c.keys (λ y. y ≢ q) free) ∙ blank.main q;
          pointer = reads₂ Column.internal root_key_key ∙ (rw (eq_bytes_refl root_key_key) refl);
        }
