-- ===== src/Store/Disk.antt =====
-- What the rows of the store say of a model, and of a tree whose modified nodes are not written yet.
use mathlib.Core.Path.{subst}
use merk.Prelude.{◌≡◌, ◌≢◌, refl, ◌∙◌, true, false, List, ◌∷◌, Option, some, All, All-append_parts}
use merk.Bytes.{Bytes}
use merk.Bytes.Order.{◌≺◌, cmp_refl}
use merk.Outcome.{Result, ok}
use merk.Hash.{Hasher}
use merk.Model.{Model, Entry, entries}
use merk.Proofs.Chunk.Program.{FitsAll}
use merk.Proofs.Chunk.Rows.{Encodes}
use merk.Proofs.Query.Create.Program.{Stored}
use merk.Store.{source, fetch_by_key}
use merk.Store.Rocks.{Column, Db}
use merk.Tree.{Tree, MaybeLink, Link}
use merk.Tree.Commit.Refresh.{prune_slot-Reps}
use merk.Tree.Encoding.{EdOption, decode_tree}
use merk.Tree.Encoding.RoundTrip.{decode_tree-encode_tree}
use merk.Tree.Reps.{RepsTree}

-- what is read under each key
abbrev pub Reads : Type 0
Reads = Bytes → Result (Option Bytes)

-- no entry has the key
abbrev pub IsFree : Bytes → List Entry → Type 0
IsFree k es = All (λ e. e.0 ≢ k) es

pub lt_other : (a b : Bytes) → a ≺ b → a ≢ b
lt_other a b l e = let same = cmp_refl b in let below : b ≺ b = subst (λ x. x ≺ b) e l in cc

module _ ⦃hasher : Hasher⦄ ⦃o : EdOption⦄ where
  -- every node is stored under its key
  abbrev pub OnDisk : Reads → Model → Type 0
  OnDisk reads Model.leaf = Unit
  OnDisk reads (Model.bin k v l r) =
      ((encoded : Bytes) × (reads k ≡ ok (some encoded)) × Encodes encoded (Model.bin k v l r))
      × OnDisk reads l
      × OnDisk reads r

  -- every node is stored but those that were modified since the last commit
  abbrev mutual
    pub Backed : Reads → Tree → Model → Type 0
    Backed reads (Tree.tree kv l r) Model.leaf = ⊥
    Backed reads (Tree.tree kv l r) (Model.bin k v ml mr) =
        BackedLink reads l ml × BackedLink reads r mr

    pub BackedLink : Reads → MaybeLink → Model → Type 0
    BackedLink reads MaybeLink.unlinked m = Unit
    BackedLink reads (MaybeLink.linked (Link.modified n hs t)) m = Backed reads t m
    BackedLink reads (MaybeLink.linked (Link.reference h hs k)) m = OnDisk reads m
    BackedLink reads (MaybeLink.linked (Link.uncommitted h hs t)) m = OnDisk reads m
    BackedLink reads (MaybeLink.linked (Link.loaded h hs t)) m = OnDisk reads m

  pub OnDisk-same :
      (reads reads' : Reads) (m : Model)
      → All (λ e. reads' e.0 ≡ reads e.0) (entries m)
      → OnDisk reads m
      → OnDisk reads' m
  OnDisk-same reads reads' Model.leaf same d = tt
  OnDisk-same reads reads' (Model.bin k v l r) same ((encoded, e, node), dl, dr) =
      let (sl, sn) = All-append_parts _ (entries l) ((k, v) ∷ entries r) same in
      (
        (encoded, sn.0 ∙ e, node),
        OnDisk-same reads reads' l sl dl,
        OnDisk-same reads reads' r sn.1 dr,
      )

  -- A row that encodes a node with fresh links reads back as one.
  pub Encodes-decode :
      (encoded k v : Bytes) (l r : Model)
      → FitsAll (Model.bin k v l r)
      → Encodes encoded (Model.bin k v l r)
      → (c : Tree) × (decode_tree k encoded ≡ ok c) × RepsTree false c (Model.bin k v l r)
  Encodes-decode encoded k v l r f (Tree.tree kv a b, e, reps) =
      let (bytes, a', b', writes, pa, pb, back) =
        decode_tree-encode_tree kv a b (Model.bin k v l r) reps (f.0, f.1) in
      let same : bytes ≡ encoded = cc in
      let (x, ex, fx) = prune_slot-Reps true a l reps.3 in
      let (y, ey, fy) = prune_slot-Reps true b r reps.4 in
      let xa : x ≡ a' = cc in
      let yb : y ≡ b' = cc in
      (
        Tree.tree kv a' b',
        (rw (← same, ← reps.0) back),
        (reps.0, reps.1, reps.2, rw (← xa) fx, rw (← yb) fy),
      )

module _ {S : Type 0} (db : Db S) ⦃hasher : Hasher⦄ ⦃o : EdOption⦄ (s : S) where
  abbrev pub reads_of : Reads
  reads_of k = db.get Column.main k s

  -- what is on disk can be fetched
  pub OnDisk-fetch :
      (k v : Bytes) (l r : Model)
      → FitsAll (Model.bin k v l r)
      → OnDisk reads_of (Model.bin k v l r)
      → (c : Tree) × (fetch_by_key db s k ≡ ok (some c)) × RepsTree false c (Model.bin k v l r)
  unfolding fetch_by_key
  OnDisk-fetch k v l r f ((encoded, e, node), dl, dr) =
      let (c, ec, fresh) = Encodes-decode encoded k v l r f node in (c, rw (e, ec) refl, fresh)

  pub OnDisk-Stored : (m : Model) → FitsAll m → OnDisk reads_of m → Stored (source db s) m
  OnDisk-Stored Model.leaf f d = tt
  OnDisk-Stored (Model.bin k v l r) f d =
      (OnDisk-fetch k v l r f d, OnDisk-Stored l f.2 d.1, OnDisk-Stored r f.3 d.2)
