-- ===== src/Store/Restore/Layers.antt =====
-- The layers of a trunk: the hashes of the subtrees below it, and the keys of their parents.
use merk.Prelude.{
  ℕ, zero, suc, ◌^◌, ◌≤◌, ◌≡◌, ◌≢◌, refl, sym, ap, ◌∙◌, ◌⊎◌, inl, inr, Bool, false, List, [], ◌∷◌,
  ◌++◌, map, length, length-append, All-append_parts, arith,
}
use merk.Bytes.{Bytes}
use merk.Bytes.Order.{bytes_cases, lt_trans}
use merk.Outcome.{Result, ok, >>=-eq-ok}
use merk.Hash.{Hasher, Broken, kv_message}
use merk.Hash.Injective.{node_hash_injective, digest_injective, kv_message_injective}
use merk.Model.{Model, entries, IsSorted, IsSized, root_hash, kv_digest}
use merk.Model.Cover.{length-root_hash}
use merk.Model.Find.{AllAbove-append, IsSorted-left, IsSorted-right}
use merk.Proofs.Chunk.Program.{left_below}
use merk.Proofs.Chunk.Trunk.{trunk, trunk-hash}
use merk.Proofs.Tree.{ProofTree, Slot, hash}
use merk.Proofs.Tree.Layer.{nodes_at, Forks}
use merk.Proofs.Tree.Shape.{SameShape}
use merk.Proofs.Tree.WellFormed.{WellFormed}
use merk.Store.Chunks.Windows.{windows}
use merk.Store.Disk.{lt_other}
use merk.Store.Restore.{map_results, proof_key}
use merk.Store.Restore.Shape.{Deep, keys_at, trunk-Forked, shaped-hash}

map_results-append :
    {A : Type 0} (f : A → Result Bytes) (xs ys : List A) (as' bs : List Bytes)
    → map_results f xs ≡ ok as'
    → map_results f ys ≡ ok bs
    → map_results f (xs ++ ys) ≡ ok (as' ++ bs)
map_results-append f [] ys as' bs ex ey = let same : [] ≡ as' = cc in rw (← same) ey
map_results-append f (x ∷ xs) ys as' bs ex ey =
    let (y, e, e') = >>=-eq-ok (f x) _ ex in
    let (zs, e₁, e₂) = >>=-eq-ok (map_results f xs) _ e' in
    let same : y ∷ zs ≡ as' = cc in rw (e, map_results-append f xs ys zs bs e₁ ey, ← same) refl

map-append : (f : Model → Bytes) (xs ys : List Model) → map f (xs ++ ys) ≡ map f xs ++ map f ys
map-append f [] ys = refl
map-append f (x ∷ xs) ys = ap (λ l. f x ∷ l) (map-append f xs ys)

-- a tree with nodes down to a depth has 2 ^ n there
pub length-keys_at : (n : ℕ) (m : Model) → Deep n m → length (keys_at n m) ≡ 2 ^ n
length-keys_at n Model.leaf d = elim d [ ]
length-keys_at zero (Model.bin k v l r) d = refl
length-keys_at (suc n) (Model.bin k v l r) d =
    let a = length-keys_at n l d.0 in
    let b = length-keys_at n r d.1 in
    let c = length-append (keys_at n l) (keys_at n r) in omega arith

pub length-windows_at : (n : ℕ) (m : Model) → Deep n m → length (windows n m) ≡ 2 ^ n
length-windows_at n Model.leaf d = elim d [ ]
length-windows_at zero (Model.bin k v l r) d = refl
length-windows_at (suc n) (Model.bin k v l r) d =
    let a = length-windows_at n l d.0 in
    let b = length-windows_at n r d.1 in
    let c = length-append (windows n l) (windows n r) in omega arith

module _ ⦃hasher : Hasher⦄ where
  -- above a depth, the two children of a node have different hashes
  abbrev pub Distinct : ℕ → Model → Type 0
  Distinct zero m = Unit
  Distinct (suc n) Model.leaf = Unit
  Distinct (suc n) (Model.bin k v l r) = (root_hash l ≢ root_hash r) × Distinct n l × Distinct n r

  -- subtrees of a sorted tree with one hash break the hash function
  siblings :
      (n : ℕ) (k v : Bytes) (l r : Model)
      → Deep n l
      → Deep n r
      → IsSorted (entries (Model.bin k v l r))
      → IsSized l
      → IsSized r
      → root_hash l ≡ root_hash r
      → Broken
  siblings n k v Model.leaf r dl dr s zl zr e = elim dl [ ]
  siblings n k v (Model.bin k' v' a b) Model.leaf dl dr s zl zr e = elim dr [ ]
  siblings n k v (Model.bin k₁ v₁ a₁ b₁) (Model.bin k₂ v₂ a₂ b₂) dl dr s zl zr e =
      elim (node_hash_injective (kv_digest k₁ v₁) (root_hash a₁) (root_hash b₁) (kv_digest k₂ v₂)
        (root_hash a₂) (root_hash b₂) (length-root_hash a₁ ∙ sym (length-root_hash a₂))
        (hasher.length-digest (kv_message k₁ v₁) ∙ sym (hasher.length-digest (kv_message k₂ v₂)))
        e) [
          | inl broken ↦ broken
          | inr same ↦ elim (digest_injective (kv_message k₁ v₁) (kv_message k₂ v₂) same.0) [
            | inl broken ↦ broken
            | inr message ↦
                let (key, value) = kv_message_injective k₁ v₁ k₂ v₂ zl.0 zr.0 message in
                let l = Model.bin k₁ v₁ a₁ b₁ in
                let r = Model.bin k₂ v₂ a₂ b₂ in
                let (_, at) =
                  All-append_parts _ (entries a₁) ((k₁, v₁) ∷ entries b₁)
                    (left_below (entries l) (k, v) (entries r) s) in
                let above =
                  AllAbove-append k (entries a₂) (k₂, v₂) (entries b₂)
                    (IsSorted-right (entries l) ((k, v) ∷ entries r) s).0 in
                absurd (lt_other k₁ k₂ (lt_trans k₁ k k₂ at.0 above) key)
          ]
        ]

  -- In a sorted tree siblings differ in their hashes, or the hash function is broken.
  pub Deep-Distinct :
      (n : ℕ) (m : Model) → Deep n m → IsSorted (entries m) → IsSized m → Broken ⊎ Distinct n m
  Deep-Distinct zero m d s z = inr tt
  Deep-Distinct (suc n) Model.leaf d s z = elim d [ ]
  Deep-Distinct (suc n) (Model.bin k v l r) d s z =
      let sl = IsSorted-left (entries l) ((k, v) ∷ entries r) s in
      let sr = (IsSorted-right (entries l) ((k, v) ∷ entries r) s).1 in
      elim (bytes_cases (root_hash l) (root_hash r)) [
        | inl same ↦ inl (siblings n k v l r d.0 d.1 s z.2 z.3 same)
        | inr differ ↦ elim (Deep-Distinct n l d.0 sl z.2) [
          | inl broken ↦ inl broken
          | inr left ↦ elim (Deep-Distinct n r d.1 sr z.3) [
            | inl broken ↦ inl broken
            | inr right ↦ inr (differ, left, right)
          ]
        ]
      ]

  -- What the layers of an accepted trunk are, down to its depth.
  pub trunk-Forks :
      (n depth : ℕ) (t : ProofTree) (leftmost : Bool) (m : Model)
      → n ≤ depth
      → SameShape t (trunk depth leftmost m)
      → WellFormed t
      → IsSized m
      → Deep depth m
      → Distinct depth m
      → Forks n t
  trunk-Forks zero depth t leftmost m b s w z d x = tt
  trunk-Forks (suc n) depth t leftmost Model.leaf b s w z d x = elim d [ ]
  trunk-Forks (suc n) zero t leftmost (Model.bin k v l r) b s w z d x = absurd (omega arith)
  trunk-Forks (suc n) (suc depth) t leftmost (Model.bin k v l r) b s w z d x =
      let f = trunk-Forked t depth leftmost k v l r s w z d in
      rw f.tree (
        (root_hash l, root_hash r, f.hash_a, f.hash_b, x.0),
        trunk-Forks n depth f.a leftmost l (omega arith) f.shape_a f.well_a z.2 d.0 x.1,
        trunk-Forks n depth f.b false r (omega arith) f.shape_b f.well_b z.3 d.1 x.2,
      )

  pub trunk-hashes :
      (n : ℕ) (t : ProofTree) (leftmost : Bool) (m : Model)
      → SameShape t (trunk n leftmost m)
      → WellFormed t
      → IsSized m
      → Deep n m
      → map_results hash (nodes_at n t) ≡ ok (map root_hash (windows n m))
  trunk-hashes n t leftmost Model.leaf s w z d = elim d [ ]
  trunk-hashes zero t leftmost (Model.bin k v l r) s w z d =
      let (e, leafy) = trunk-hash zero leftmost (Model.bin k v l r) z in
      rw (shaped-hash t (trunk zero leftmost (Model.bin k v l r)) _ s w leafy e) refl
  trunk-hashes (suc n) t leftmost (Model.bin k v l r) s w z d =
      let f = trunk-Forked t n leftmost k v l r s w z d in
      rw f.tree (
        map_results-append hash (nodes_at n f.a) (nodes_at n f.b) _ _
          (trunk-hashes n f.a leftmost l f.shape_a f.well_a z.2 d.0)
          (trunk-hashes n f.b false r f.shape_b f.well_b z.3 d.1)
        ∙ ap ok (sym (map-append root_hash (windows n l) (windows n r))))

  pub trunk-keys :
      (n : ℕ) (t : ProofTree) (leftmost : Bool) (m : Model)
      → SameShape t (trunk (suc n) leftmost m)
      → WellFormed t
      → IsSized m
      → Deep (suc n) m
      → map_results proof_key (nodes_at n t) ≡ ok (keys_at n m)
  trunk-keys n t leftmost Model.leaf s w z d = elim d [ ]
  trunk-keys zero t leftmost (Model.bin k v l r) s w z d =
      rw (trunk-Forked t zero leftmost k v l r s w z d).tree refl
  trunk-keys (suc n) t leftmost (Model.bin k v l r) s w z d =
      let f = trunk-Forked t (suc n) leftmost k v l r s w z d in
      rw f.tree (
        map_results-append proof_key (nodes_at n f.a) (nodes_at n f.b) _ _
          (trunk-keys n f.a leftmost l f.shape_a f.well_a z.2 d.0)
          (trunk-keys n f.b false r f.shape_b f.well_b z.3 d.1))

  -- as many nodes are there as the model has
  pub length-nodes_at : (n : ℕ) (t : ProofTree) → Forks n t → length (nodes_at n t) ≡ 2 ^ n
  length-nodes_at zero t f = refl
  length-nodes_at (suc n) (ProofTree.tree node Slot.vacant b k) f = elim f [ ]
  length-nodes_at (suc n) (ProofTree.tree node (Slot.occupied a ha) Slot.vacant k) f = elim f [ ]
  length-nodes_at (suc n) (ProofTree.tree node (Slot.occupied a ha) (Slot.occupied b hb) k) f =
      let x = length-nodes_at n a f.1 in
      let y = length-nodes_at n b f.2 in
      let c = length-append (nodes_at n a) (nodes_at n b) in omega arith
