-- ===== src/Store/Durable.antt =====
-- `Merk::commit` writes what is pending.
use merk.Prelude.{
  true, false, ◌≡◌, ◌≢◌, refl, ap, ◌∙◌, inl, inr, List, [], ◌∷◌, ◌++◌, Option, none, some, map, All,
  All-imp, Bool-cases,
}
use merk.Bytes.{Bytes, eq_bytes}
use merk.Bytes.Order.{eq_bytes_refl}
use merk.Outcome.{Result, ok}
use merk.Hash.{Hasher}
use merk.Model.{Model, entries, IsSorted}
use merk.Proofs.Chunk.Program.{FitsAll}
use merk.Store.{
  Merk, Change, node_write, aux_write, sort_by_key, deletion, root_key_key, commit_merk,
  new_committer,
}
use merk.Store.Disk.{OnDisk, OnDisk-same, reads_of}
use merk.Store.Holds.{Holds, Pending, BackedOption, FreshOption, root_key}
use merk.Store.Replay.{
  changed, changed-append, changed-other, sort_by_key-changed, replay-append, aux_write-main,
  aux_write-internal, node_write-internal,
}
use merk.Store.Rocks.{Column, Write, Db, IsLawful, written, replay}
use merk.Store.Written.{commit-WrittenTree}
use merk.Tree.{Tree, key, height}
use merk.Tree.Attach.{RepsOption}
use merk.Tree.Encoding.{EdOption}
use merk.Tree.Ops.{BatchEntry}
use merk.Tree.Reps.{RepsTree}

-- the writes behind that of the root key
abbrev tail : List Change → List Bytes → List BatchEntry → List Write
tail nodes deleted aux =
    map node_write (sort_by_key (nodes ++ map deletion deleted)) ++ map aux_write aux

tail-main :
    (nodes : List Change) (deleted : List Bytes) (aux : List BatchEntry) (k : Bytes)
    (old : Result (Option Bytes))
    → replay (tail nodes deleted aux) Column.main k old
      ≡ changed (map deletion deleted) k (changed nodes k old)
tail-main nodes deleted aux k old =
    replay-append (map node_write (sort_by_key (nodes ++ map deletion deleted))) _ Column.main k old
    ∙ aux_write-main aux k _
    ∙ sort_by_key-changed (nodes ++ map deletion deleted) k old
    ∙ changed-append nodes (map deletion deleted) k old

tail-internal :
    (nodes : List Change) (deleted : List Bytes) (aux : List BatchEntry) (k : Bytes)
    (old : Result (Option Bytes))
    → replay (tail nodes deleted aux) Column.internal k old ≡ old
tail-internal nodes deleted aux k old =
    replay-append (map node_write (sort_by_key (nodes ++ map deletion deleted))) _ Column.internal k
      old
    ∙ aux_write-internal aux k _
    ∙ node_write-internal (sort_by_key (nodes ++ map deletion deleted)) k old

All-deletion :
    (k : Bytes) (ds : List Bytes) → All (λ d. d ≢ k) ds → All (λ e. e.0 ≢ k) (map deletion ds)
All-deletion k [] h = tt
All-deletion k (d ∷ ds) h = (h.0, All-deletion k ds h.1)

-- a key that was not stored, or that is deleted, is not stored any more
changed-deletion :
    (k : Bytes) (ds : List Bytes) (old : Result (Option Bytes))
    → (All (λ d. d ≢ k) ds → old ≡ ok none)
    → changed (map deletion ds) k old ≡ ok none
changed-deletion k [] old h = h tt
changed-deletion k (d ∷ ds) old h = elim (Bool-cases (eq_bytes k d)) [
  | inl same ↦
      ap (changed (map deletion ds) k) (hit same) ∙ changed-deletion k ds (ok none) (λ _. refl)
  | inr other ↦
      ap (changed (map deletion ds) k) (missed other)
      ∙ changed-deletion k ds old (λ others. h (differ other, others))
]
  where
    hit : eq_bytes k d ≡ true → written (Write.delete Column.main d) Column.main k old ≡ ok none
    hit same = rw same refl

    missed : eq_bytes k d ≡ false → written (Write.delete Column.main d) Column.main k old ≡ old
    missed other = rw other refl

    differ : eq_bytes k d ≡ false → d ≢ k
    differ other e = let same : eq_bytes k d ≡ true = rw e (eq_bytes_refl k) in cc

module _ ⦃hasher : Hasher⦄ where
  key-root_key : (t : Tree) (m : Model) → RepsTree false t m → some (key t) ≡ root_key m
  key-root_key (Tree.tree kv l r) Model.leaf e = elim e [ ]
  key-root_key (Tree.tree kv l r) (Model.bin k v ml mr) e = ap some e.0

module _ {S : Type 0} (db : Db S) ⦃hasher : Hasher⦄ ⦃o : EdOption⦄ (lawful : IsLawful db) where
  -- the database after the changes of the nodes and the deletions
  held :
      (nodes : List Change) (deleted : List Bytes) (merk : Merk S) (t' : Option Tree) (s' : S)
      (m : Model)
      → FreshOption t' m
      → OnDisk (λ k. changed nodes k (reads_of db merk.state k)) m
      → ((P : Bytes → Type 0) → All (λ e. P e.0) (entries m) → All (λ e. P e.0) nodes)
      → Pending db deleted merk m
      → ((k : Bytes)
          → db.get Column.main k s'
            ≡ changed (map deletion deleted) k (changed nodes k (db.get Column.main k merk.state)))
      → db.get Column.internal root_key_key s' ≡ ok (root_key m)
      → Holds db (record { tree = t'; state = s' }) m
  held nodes deleted merk t' s' m fresh disk keys p reads pointer = record {
    tree = fresh;
    disk =
        OnDisk-same _ (reads_of db s') m
          (All-imp
            (λ e h.
              reads e.0 ∙ changed-other (map deletion deleted) e.0 _ (All-deletion e.0 deleted h))
            (entries m) p.gone)
          disk;
    only = λ k free.
        reads k
        ∙ changed-deletion k deleted _
            (λ others. changed-other nodes k _ (keys (λ q. q ≢ k) free) ∙ p.only k free others);
    pointer = pointer;
  }

  -- For a database that obeys the laws of RocksDB, and a model whose keys increase, and are shorter
  -- than 2 ^ 8 below the root: where the tree in memory stands for the model, its nodes are stored
  -- except for the modified ones, and any other node that is stored has a key that was deleted,
  -- `commit` succeeds, and then the tree's links are fresh, the database holds its nodes and no
  -- others, and the root key points to its root.
  pub commit_merk-Holds :
      (deleted : List Bytes) (aux : List BatchEntry) (merk : Merk S) (m : Model)
      → IsSorted (entries m)
      → FitsAll m
      → Pending db deleted merk m
      → (merk' : Merk S) × (commit_merk db deleted aux merk ≡ ok merk') × Holds db merk' m
  unfolding commit_merk
  commit_merk-Holds deleted aux merk m s f p = by_tree merk.tree refl p.tree p.backed
    where
      by_tree :
          (t : Option Tree)
          → merk.tree ≡ t
          → RepsOption t m
          → BackedOption db (reads_of db merk.state) t m
          → (merk' : Merk S) × (commit_merk db deleted aux merk ≡ ok merk') × Holds db merk' m
      by_tree none e reps b =
          let (s', ew, reads) =
            lawful.writes (Write.delete Column.internal root_key_key ∷ tail [] deleted aux)
              merk.state in
          (
            record { tree = none; state = s' },
            rw (e, ew) refl,
            held [] deleted merk none s' m reps (rw reps tt) (λ P h. tt) p
                (λ k. reads Column.main k ∙ tail-main [] deleted aux k _)
                (reads Column.internal root_key_key
                  ∙ tail-internal [] deleted aux root_key_key _
                  ∙ (rw (eq_bytes_refl root_key_key, reps) refl)),
          )
      by_tree (some t) e reps b =
          let w = commit-WrittenTree t m (new_committer (height t) 21) s f reps in
          let (s', ew, reads) =
            lawful.writes
              (Write.put Column.internal root_key_key (key w.result) ∷ tail w.changes deleted aux)
              merk.state in
          (
            record { tree = some w.result; state = s' },
            rw (e, w.commits, w.batch, ew) refl,
            held w.changes deleted merk (some w.result) s' m w.fresh
                (w.stores (reads_of db merk.state) b) w.keys p
                (λ k. reads Column.main k ∙ tail-main w.changes deleted aux k _)
                (reads Column.internal root_key_key
                  ∙ tail-internal w.changes deleted aux root_key_key _
                  ∙ (rw (eq_bytes_refl root_key_key) (ap ok (key-root_key w.result m w.fresh)))),
          )
