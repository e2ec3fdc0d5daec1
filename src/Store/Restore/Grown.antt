-- ===== src/Store/Restore/Grown.antt =====
-- What the database holds of the trunk while the leaf chunks come in: nodes whose links have the
-- right hashes, but not the right heights yet, and at the bottom no keys before the leaf is there.
use merk.Prelude.{
  ℕ, zero, suc, ◌<◌, ◌^◌, ◌≡◌, refl, ◌∙◌, Bool, true, false, ◌∷◌, ◌++◌, some, All, All-append_parts,
  length,
}
use merk.Bytes.{Bytes}
use merk.Outcome.{ok}
use merk.Hash.{Hasher, kv_message}
use merk.Model.{Model, entries, root_hash, kv_digest}
use merk.Model.Cover.{length-root_hash}
use merk.Store.Disk.{Reads, OnDisk, OnDisk-same}
use merk.Tree.{Tree, MaybeLink, Link, Kv, Heights}
use merk.Tree.Encoding.{EdOption, encode_parts, encode_tree, decode_tree, encode_kv, encode_link}
use merk.Tree.Encoding.RoundTrip.{decode_option-encode_parts, decode_kv-encode_kv}
use merk.Tree.Reps.{HasKey}

-- the heights and the key of a link
abbrev pub Label : Type 0
Label = Heights × Bytes

abbrev pub IsLabel : Label → Type 0
IsLabel x = length x.1 < 2 ^ 8

-- at the bottom a link has a key once the subtree is there
abbrev pub IsKeyed : Bool → ℕ → Model → Label → Type 0
IsKeyed true zero m x = HasKey m x.1
IsKeyed false zero m x = Unit
IsKeyed filled (suc n) m x = HasKey m x.1

module _ ⦃hasher : Hasher⦄ where
  -- a link to a subtree, and a node with two of them
  abbrev pub to_child : Model → Label → MaybeLink
  to_child m (hs, k) = MaybeLink.linked (Link.reference (root_hash m) hs k)

  abbrev pub kv_at : Bytes → Bytes → Kv
  kv_at k v = record { key = k; value = v; hash = kv_digest k v }

  abbrev pub fork : Bytes → Bytes → Model → Model → Label → Label → Tree
  fork k v l r x y = Tree.tree (kv_at k v) (to_child l x) (to_child r y)

module _ ⦃hasher : Hasher⦄ ⦃o : EdOption⦄ where
  -- A node with two references is encoded, and its bytes read back as the same node.
  pub fork-encode :
      (k v : Bytes) (l r : Model) (x y : Label)
      → IsLabel x
      → IsLabel y
      → (encoded : Bytes) × (encode_tree (fork k v l r x y) ≡ ok encoded)
        × (decode_tree k encoded ≡ ok (fork k v l r x y))
  unfolding encode_tree decode_tree encode_link
  fork-encode k v l r x y bx by' =
      let n = hasher.length-digest (kv_message k v) in
      let kv = kv_at k v in
      let right = o.encode_some (encode_parts (root_hash r) y.1 y.0) in
      (
        o.encode_some (encode_parts (root_hash l) x.1 x.0) ++ (right ++ encode_kv kv),
        refl,
        rw
            (decode_option-encode_parts (root_hash l) x.1 x.0 (right ++ encode_kv kv) bx
              (length-root_hash l))
            (rw
              (decode_option-encode_parts (root_hash r) y.1 y.0 (encode_kv kv) by'
                (length-root_hash r))
              (rw ((decode_kv-encode_kv kv n).0) refl)),
      )

  -- a row that reads as a node with two references
  abbrev pub Row : Reads → Bytes → Bytes → Model → Model → Label → Label → Type 0
  Row reads k v l r x y =
      (encoded : Bytes) × (reads k ≡ ok (some encoded))
      × (encode_tree (fork k v l r x y) ≡ ok encoded)
      × (decode_tree k encoded ≡ ok (fork k v l r x y))
      × IsLabel x
      × IsLabel y

  -- The nodes above a depth are stored with two children each; the subtrees at the depth are stored
  -- too, once they are filled in.
  abbrev pub Grown : Bool → Reads → ℕ → Model → Type 0
  Grown true reads zero m = OnDisk reads m
  Grown false reads zero m = Unit
  Grown filled reads (suc n) Model.leaf = ⊥
  Grown filled reads (suc n) (Model.bin k v l r) =
      ((x : Label) × (y : Label) × Row reads k v l r x y
        × IsKeyed filled n l x
        × IsKeyed filled n r y)
      × Grown filled reads n l
      × Grown filled reads n r

  pub Grown-same :
      (filled : Bool) (reads reads' : Reads) (n : ℕ) (m : Model)
      → All (λ e. reads' e.0 ≡ reads e.0) (entries m)
      → Grown filled reads n m
      → Grown filled reads' n m
  Grown-same true reads reads' zero m same g = OnDisk-same reads reads' m same g
  Grown-same false reads reads' zero m same g = tt
  Grown-same filled reads reads' (suc n) Model.leaf same g = elim g [ ]
  Grown-same filled reads reads' (suc n) (Model.bin k v l r) same
        ((x, y, (encoded, e, writes, reads_back, bx, by'), kx, ky), gl, gr) =
      let (sl, sn) = All-append_parts _ (entries l) ((k, v) ∷ entries r) same in
      (
        (x, y, (encoded, sn.0 ∙ e, writes, reads_back, bx, by'), kx, ky),
        Grown-same filled reads reads' n l sl gl,
        Grown-same filled reads reads' n r sn.1 gr,
      )
