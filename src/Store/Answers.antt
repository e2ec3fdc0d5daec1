-- ===== src/Store/Answers.antt =====
-- `Merk::get` and `Merk::open`, and those of a snapshot, where the database holds a tree.
use Prim.Native.Nat.{Ordering}
use merk.Prelude.{
  ◌≡◌, ◌≢◌, refl, sym, ap, ◌∙◌, inl, inr, true, false, List, [], ◌∷◌, Option, none, some,
  Bool-cases, Option-cases,
}
use merk.Bytes.{Bytes, cmp, eq_bytes}
use merk.Bytes.Order.{lt_of_gt, eq_of_cmp, eq_bytes_refl}
use merk.Outcome.{ok, ◌>>=◌}
use merk.Hash.{Hasher}
use merk.Model.{Model, Entry, entries, find, IsSorted}
use merk.Model.Find.{find_before, find_after, find_at, IsSorted-left, IsSorted-right}
use merk.Proofs.Chunk.Program.{FitsAll}
use merk.Store.{
  Merk, fetch_by_key, source, get_result, get_tree, load_root, open_merk, get, snapshot,
  snapshot_get,
}
use merk.Store.Disk.{OnDisk, IsFree, OnDisk-fetch, reads_of}
use merk.Store.Holds.{Holds, FreshOption}
use merk.Store.Rocks.{Db}
use merk.Tree.{Tree, kv_of}
use merk.Tree.Attach.{stale_tree-Reps}
use merk.Tree.Encoding.{EdOption}
use merk.Tree.Lookup.{GetResult, answer_of, get_value-find}
use merk.Tree.Reps.{RepsTree}

-- what is not found is free
find-IsFree : (k : Bytes) (es : List Entry) → find k es ≡ none → IsFree k es
find-IsFree k [] h = tt
find-IsFree k ((k', v) ∷ es) h = elim (Bool-cases (eq_bytes k k')) [
  | inl same ↦ let found : find k ((k', v) ∷ es) ≡ some v = rw (same, find) refl in cc
  | inr other ↦
      let later : find k ((k', v) ∷ es) ≡ find k es = rw (other, find) refl in
      (differ other, find-IsFree k es (sym later ∙ h))
]
  where
    differ : eq_bytes k k' ≡ false → k' ≢ k
    differ other e = let same : eq_bytes k k' ≡ true = rw e (eq_bytes_refl k) in cc

module _ {S : Type 0} (db : Db S) ⦃hasher : Hasher⦄ ⦃o : EdOption⦄ where
  -- a node with the value is fetched
  abbrev Fetched : S → Bytes → Bytes → Type 0
  Fetched s q v = (c : Tree) × (fetch_by_key db s q ≡ ok (some c)) × ((kv_of c).value ≡ v)

  -- an entry of a tree on disk is fetched with its value
  fetch_found :
      (s : S) (m : Model) (q v : Bytes)
      → IsSorted (entries m)
      → FitsAll m
      → OnDisk (reads_of db s) m
      → find q (entries m) ≡ some v
      → Fetched s q v
  fetch_found s Model.leaf q v sorted f d e = cc
  fetch_found s (Model.bin k w l r) q v sorted f d e =
      by_cmp (fetch_found s l q v (IsSorted-left (entries l) _ sorted) f.2 d.1)
        (fetch_found s r q v (IsSorted-right (entries l) ((k, w) ∷ entries r) sorted).1 f.3 d.2)
        (cmp q k) refl
    where
      value : (c : Tree) → RepsTree false c (Model.bin k w l r) → (kv_of c).value ≡ w
      value (Tree.tree kv x y) reps = reps.1

      by_cmp :
          (find q (entries l) ≡ some v → Fetched s q v)
          → (find q (entries r) ≡ some v → Fetched s q v)
          → (o : Ordering) → cmp q k ≡ o
          → Fetched s q v
      by_cmp left right Ordering.lt below =
          left (sym (find_before q (entries l) (k, w) (entries r) sorted below) ∙ e)
      by_cmp left right Ordering.eq here =
          let (c, fetched, reps) = OnDisk-fetch db s k w l r f d in
          let same = eq_of_cmp q k here in
          let found : find q (entries (Model.bin k w l r)) ≡ some w =
            rw same (find_at (entries l) k w (entries r) sorted) in
          let equal : w ≡ v = cc in (c, rw same fetched, value c reps ∙ equal)
      by_cmp left right Ordering.gt above =
          right (sym (find_after q (entries l) (k, w) (entries r) sorted (lt_of_gt q k above)) ∙ e)

  -- the database answers for a pruned node
  pruned-find :
      (merk : Merk S) (m : Model) (q : Bytes)
      → IsSorted (entries m)
      → FitsAll m
      → Holds db merk m
      → get_result (source db merk.state) q GetResult.pruned ≡ ok (find q (entries m))
  unfolding fetch_by_key
  pruned-find merk m q s f h = elim (Option-cases (find q (entries m))) [
    | inl absent ↦ rw (absent, h.only q (find-IsFree q (entries m) absent)) refl
    | inr (v, found) ↦
        let (c, fetched, value) = fetch_found merk.state m q v s f h.disk found in
        rw (found, fetched) (ap (λ v. ok (some v)) value)
  ]

  -- Where the database holds a tree whose keys increase, and are shorter than 2 ^ 8 below the root,
  -- `get` finds what the tree has under a key, in memory or, where the node is pruned, in the
  -- database, and nothing under a key that the tree does not have.
  pub get-find :
      (merk : Merk S) (m : Model) (q : Bytes)
      → IsSorted (entries m)
      → FitsAll m
      → Holds db merk m
      → get db merk q ≡ ok (find q (entries m))
  unfolding get
  get-find merk m q s f h = by_tree merk.tree h.tree
    where
      answered : (o : Option Bytes) → get_result (source db merk.state) q (answer_of o) ≡ ok o
      answered none = refl
      answered (some v) = refl

      by_tree :
          (t : Option Tree)
          → FreshOption t m
          → get_tree (source db merk.state) q t ≡ ok (find q (entries m))
      by_tree none e = rw e refl
      by_tree (some t) e = elim (get_value-find t m q s (stale_tree-Reps t m e)) [
        | inl told ↦ ap (get_result (source db merk.state) q) told ∙ answered (find q (entries m))
        | inr (_, pruned) ↦
            ap (get_result (source db merk.state) q) pruned ∙ pruned-find merk m q s f h
      ]

  load_root-Holds :
      (merk : Merk S) (m : Model)
      → FitsAll m
      → Holds db merk m
      → (t : Option Tree) × (load_root db merk.state ≡ ok t) × FreshOption t m
  unfolding load_root
  load_root-Holds merk Model.leaf f h = (none, rw h.pointer refl, refl)
  load_root-Holds merk (Model.bin k v l r) f h =
      let (c, fetched, fresh) = OnDisk-fetch db merk.state k v l r f h.disk in
      (some c, rw (h.pointer, fetched) refl, fresh)

  -- Where the database holds a tree whose keys are shorter than 2 ^ 8 below the root, opening it
  -- again succeeds, and it holds that tree.
  pub open_merk-Holds :
      (merk : Merk S) (m : Model)
      → FitsAll m
      → Holds db merk m
      → (merk' : Merk S) × (open_merk db merk.state ≡ ok merk') × Holds db merk' m
  unfolding open_merk
  open_merk-Holds merk m f h =
      let (t, loaded, fresh) = load_root-Holds merk m f h in
      (
        record { tree = t; state = merk.state },
        rw loaded refl,
        record { tree = fresh; disk = h.disk; only = h.only; pointer = h.pointer },
      )

  -- Where the database holds a tree whose keys increase, and are shorter than 2 ^ 8 below the root,
  -- a snapshot is taken without an error, and its `get` answers every key as that of the `Merk`.
  pub snapshot_get-get :
      (merk : Merk S) (m : Model) (q : Bytes)
      → IsSorted (entries m)
      → FitsAll m
      → Holds db merk m
      → (snapshot db merk >>= λ ss. snapshot_get db ss q) ≡ get db merk q
  unfolding snapshot snapshot_get get
  snapshot_get-get merk m q s f h =
      let (t, loaded, fresh) = load_root-Holds merk m f h in
      let reopened : Merk S = record { tree = t; state = merk.state } in
      let held : Holds db reopened m = record {
        tree = fresh;
        disk = h.disk;
        only = h.only;
        pointer = h.pointer;
      } in
      rw loaded (get-find reopened m q s f held ∙ sym (get-find merk m q s f h))
