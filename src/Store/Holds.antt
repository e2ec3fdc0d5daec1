-- ===== src/Store/Holds.antt =====
-- A `Merk` whose database holds exactly the nodes of a tree, and what is left to write after a batch
-- was applied to the tree in memory.
use merk.Prelude.{false, ◌≡◌, ◌≢◌, List, Option, none, some, All}
use merk.Bytes.{Bytes}
use merk.Outcome.{ok}
use merk.Hash.{Hasher}
use merk.Model.{Model, entries}
use merk.Store.{Merk, root_key_key}
use merk.Store.Disk.{Reads, OnDisk, Backed, IsFree, reads_of}
use merk.Store.Rocks.{Column, Db}
use merk.Tree.{Tree}
use merk.Tree.Attach.{RepsOption}
use merk.Tree.Encoding.{EdOption}
use merk.Tree.Reps.{RepsTree}

abbrev pub root_key : Model → Option Bytes
root_key Model.leaf = none
root_key (Model.bin k v l r) = some k

module _ ⦃hasher : Hasher⦄ where
  abbrev pub FreshOption : Option Tree → Model → Type 0
  FreshOption none m = m ≡ Model.leaf
  FreshOption (some t) m = RepsTree false t m

module _ {S : Type 0} (db : Db S) ⦃hasher : Hasher⦄ ⦃o : EdOption⦄ where
  -- The tree in memory stands for the model, and the database holds its nodes, no others, and a
  -- pointer to its root.
  pub record Holds (merk : Merk S) (m : Model) : Type 0 where
    pub tree : FreshOption merk.tree m
    pub disk : OnDisk (reads_of db merk.state) m
    pub only : (k : Bytes) → IsFree k (entries m) → db.get Column.main k merk.state ≡ ok none
    pub pointer : db.get Column.internal root_key_key merk.state ≡ ok (root_key m)

  abbrev pub BackedOption : Reads → Option Tree → Model → Type 0
  BackedOption reads none m = Unit
  BackedOption reads (some t) m = Backed reads t m

  -- The tree in memory stands for the model, its nodes are stored but for the modified ones, and
  -- other nodes that are stored have a deleted key.
  pub record Pending (deleted : List Bytes) (merk : Merk S) (m : Model) : Type 0 where
    pub tree : RepsOption merk.tree m
    pub backed : BackedOption (reads_of db merk.state) merk.tree m
    pub gone : All (λ e. All (λ d. d ≢ e.0) deleted) (entries m)
    pub only :
        (k : Bytes)
        → IsFree k (entries m)
        → All (λ d. d ≢ k) deleted
        → db.get Column.main k merk.state ≡ ok none
