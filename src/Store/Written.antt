-- ===== src/Store/Written.antt =====
-- What the committer of src/merk/mod.rs collects when a tree is committed: the modified nodes, so
-- that the store holds every node once they are written.
use mathlib.Core.Path.{subst}
use merk.Prelude.{
  ℕ, Bool, ◌≡◌, ◌≢◌, refl, sym, ap, ◌∙◌, ◌⊎◌, inl, inr, true, false, List, [], ◌∷◌, ◌++◌, Option,
  none, some, All, All-append, All-append_parts, All-imp, append_assoc, append-nil,
}
use merk.Bytes.{Bytes}
use merk.Bytes.Order.{◌≺◌, lt_trans, eq_bytes_refl}
use merk.Outcome.{Result, ok, ◌>>=◌}
use merk.Hash.{Hasher}
use merk.Model.{Model, entries, IsSorted, root_hash, kv_digest}
use merk.Model.Find.{IsSorted-left, IsSorted-right}
use merk.Proofs.Chunk.Rows.{Encodes}
use merk.Proofs.Chunk.Program.{FitsAll, AllAbove-All, left_below}
use merk.Store.{Change, MerkCommitter, committer, prune_level}
use merk.Store.Disk.{Reads, OnDisk, Backed, BackedLink, OnDisk-same, lt_other}
use merk.Store.Replay.{changed, changed-append, changed-other}
use merk.Tree.{Tree, MaybeLink, Link, Kv, Heights}
use merk.Tree.Commit.{commit_node, reload, commit, commit_slot}
use merk.Tree.Commit.Refresh.{prune_slot-Reps}
use merk.Tree.Encoding.{EdOption}
use merk.Tree.Encoding.RoundTrip.{decode_tree-encode_tree}
use merk.Tree.Reps.{RepsTree, RepsLink, hash-Reps, heights_of}

changed-last :
    (xs ys : List Change) (k : Bytes) (v : Option Bytes) (old : Result (Option Bytes))
    → changed (xs ++ (ys ++ ((k, v) ∷ []))) k old ≡ ok v
changed-last xs ys k v old =
    changed-append xs _ k old ∙ changed-append ys ((k, v) ∷ []) k _ ∙ last v _
  where
    last : (v : Option Bytes) (x : Result (Option Bytes)) → changed ((k, v) ∷ []) k x ≡ ok v
    last none x = rw (eq_bytes_refl k) refl
    last (some w) x = rw (eq_bytes_refl k) refl

abbrev pub IsFrom : Bytes → Bytes → Type 0
IsFrom k q = (k ≺ q) ⊎ (k ≡ q)

pub IsFrom-other : (k q q' : Bytes) → q ≺ k → IsFrom k q' → q' ≢ q
IsFrom-other k q q' l (inl h) = λ e. lt_other q q' (lt_trans q k q' l h) (sym e)
IsFrom-other k q q' l (inr h) = λ e. lt_other q k l (sym (h ∙ e))

module _ ⦃hasher : Hasher⦄ ⦃o : EdOption⦄ where
  -- a tree that was committed: its links are fresh, and once the changes that were collected are
  -- made, all of it is on disk
  pub record WrittenTree (t : Tree) (m : Model) (c : MerkCommitter) : Type 1 where
    pub result : Tree
    pub state : MerkCommitter
    pub changes : List Change
    pub commits : commit committer t c ≡ ok (result, state)
    pub fresh : RepsTree false result m
    pub batch : state.batch ≡ c.batch ++ changes
    pub keys : (P : Bytes → Type 0) → All (λ e. P e.0) (entries m) → All (λ e. P e.0) changes
    pub stores : (reads : Reads) → Backed reads t m → OnDisk (λ k. changed changes k (reads k)) m

  record WrittenLink (l : MaybeLink) (m : Model) (c : MerkCommitter) : Type 1 where
    result : MaybeLink
    state : MerkCommitter
    changes : List Change
    commits : commit_slot committer l c ≡ ok (result, state)
    fresh : RepsLink false result m
    batch : state.batch ≡ c.batch ++ changes
    keys : (P : Bytes → Type 0) → All (λ e. P e.0) (entries m) → All (λ e. P e.0) changes
    stores : (reads : Reads) → BackedLink reads l m → OnDisk (λ k. changed changes k (reads k)) m

  -- a link that is not modified is left as it is
  kept :
      (l : MaybeLink) (m : Model) (c : MerkCommitter)
      → commit_slot committer l c ≡ ok (l, c)
      → RepsLink false l m
      → ((reads : Reads) → BackedLink reads l m → OnDisk reads m)
      → WrittenLink l m c
  kept l m c e f d = record {
    result = l;
    state = c;
    changes = [];
    commits = e;
    fresh = f;
    batch = sym (append-nil c.batch);
    keys = λ P h. tt;
    stores = d;
  }

  reload-WrittenLink :
      (n : ℕ) (hs : Heights) (t : Tree) (m : Model) (c : MerkCommitter)
      → hs ≡ heights_of m
      → WrittenTree t m c
      → WrittenLink (MaybeLink.linked (Link.modified n hs t)) m c
  reload-WrittenLink n hs t m c eh a = record {
    result = MaybeLink.linked (Link.loaded (root_hash m) hs a.result);
    state = a.state;
    changes = a.changes;
    commits =
        ap (λ x. x >>= reload committer hs) a.commits
        ∙ ap (λ h. h >>= λ h. ok (MaybeLink.linked (Link.loaded h hs a.result), a.state))
            (hash-Reps a.result m a.fresh);
    fresh = (refl, eh, a.fresh);
    batch = a.batch;
    keys = a.keys;
    stores = a.stores;
  }

  -- The changes of the children and the node, in the order of the commit, put all of them on disk.
  pub node-OnDisk :
      (key k v encoded : Bytes) (l r : Model) (xs ys : List Change) (reads : Reads)
      → key ≡ k
      → IsSorted (entries (Model.bin k v l r))
      → ((P : Bytes → Type 0) → All (λ e. P e.0) (entries l) → All (λ e. P e.0) xs)
      → ((P : Bytes → Type 0) → All (λ e. P e.0) (entries r) → All (λ e. P e.0) ys)
      → OnDisk (λ q. changed xs q (reads q)) l
      → OnDisk (λ q. changed ys q (reads q)) r
      → Encodes encoded (Model.bin k v l r)
      → OnDisk
          (λ q. changed (xs ++ (ys ++ ((key, some encoded) ∷ []))) q (reads q))
          (Model.bin k v l r)
  node-OnDisk key k v encoded l r xs ys reads ek s kx ky dl dr node =
      let below = left_below (entries l) (k, v) (entries r) s in
      let above =
        AllAbove-All k (entries r) (IsSorted-right (entries l) ((k, v) ∷ entries r) s).0 in
      let root = (key, some encoded) ∷ [] in
      let later : All (λ e. IsFrom k e.0) (ys ++ root) =
        All-append (λ e. IsFrom k e.0) ys root
          (ky (IsFrom k) (All-imp (λ e h. inl h) (entries r) above)) (inr (sym ek), tt) in
      (
        (encoded, rw ek (changed-last xs ys k (some encoded) _), node),
        OnDisk-same _ _ l
            (All-imp
              (λ e h.
                changed-append xs (ys ++ root) e.0 _
                ∙ changed-other (ys ++ root) e.0 _
                    (All-imp (λ c h'. IsFrom-other k e.0 c.0 h h') (ys ++ root) later))
              (entries l) below)
            dl,
        OnDisk-same _ _ r
            (All-imp
              (λ e h.
                changed-append xs (ys ++ root) e.0 _
                ∙ ap (changed (ys ++ root) e.0) (
                    changed-other xs e.0 _ (
                      All-imp (λ c h'. lt_other c.0 e.0 (lt_trans c.0 k e.0 h' h)) xs
                        (kx (λ q. q ≺ k) below)))
                ∙ changed-append ys root e.0 _
                ∙ changed-other root e.0 _ ((λ same. lt_other k e.0 h (sym ek ∙ same)), tt))
              (entries r) above)
            dr,
      )

  node-WrittenTree :
      (kv : Kv) (l r : MaybeLink) (k v : Bytes) (ml mr : Model) (c : MerkCommitter)
      → IsSorted (entries (Model.bin k v ml mr))
      → FitsAll (Model.bin k v ml mr)
      → (kv.key ≡ k)
      → (kv.value ≡ v)
      → (kv.hash ≡ kv_digest k v)
      → (a : WrittenLink l ml c) → WrittenLink r mr a.state
      → WrittenTree (Tree.tree kv l r) (Model.bin k v ml mr) c
  node-WrittenTree kv l r k v ml mr c s f ek ev eh a b =
      let t = Tree.tree kv a.result b.result in
      let m = Model.bin k v ml mr in
      let reps : RepsTree false t m = (ek, ev, eh, a.fresh, b.fresh) in
      let (encoded, x, y, encodes, _, _, _) =
        decode_tree-encode_tree kv a.result b.result m reps (f.0, f.1) in
      let own = (kv.key, some encoded) ∷ [] in
      let c' : MerkCommitter = record b.state { batch = b.state.batch ++ own } in
      let (l', el, fl) = prune_slot-Reps (prune_level t c').0 a.result ml a.fresh in
      let (r', er, fr) = prune_slot-Reps (prune_level t c').1 b.result mr b.fresh in
      let node : commit_node committer t b.state ≡ ok (Tree.tree kv l' r', c') =
        rw (encodes, el, er) refl in
      let whole : commit committer (Tree.tree kv l r) c ≡ ok (Tree.tree kv l' r', c') =
        rw (a.commits, b.commits) node in
      record {
        result = Tree.tree kv l' r';
        state = c';
        changes = a.changes ++ (b.changes ++ own);
        commits = whole;
        fresh = (ek, ev, eh, fl, fr);
        batch =
            ap (λ xs. xs ++ own) (b.batch ∙ ap (λ xs. xs ++ b.changes) a.batch)
            ∙ append_assoc (c.batch ++ a.changes) b.changes own
            ∙ append_assoc c.batch a.changes (b.changes ++ own);
        keys = λ P h.
            let (hl, hn) = All-append_parts _ (entries ml) ((k, v) ∷ entries mr) h in
            All-append _ a.changes (b.changes ++ own) (a.keys P hl)
              (All-append _ b.changes own (b.keys P hn.1) (subst P (sym ek) hn.0, tt));
        stores = λ reads d.
            node-OnDisk kv.key k v encoded ml mr a.changes b.changes reads ek s a.keys b.keys
              (a.stores reads d.0) (b.stores reads d.1) (t, encodes, reps);
      }

  mutual
    written_tree :
        (stale : Bool) (t : Tree) (m : Model) (c : MerkCommitter)
        → IsSorted (entries m)
        → FitsAll m
        → RepsTree stale t m
        → WrittenTree t m c
    written_tree stale (Tree.tree kv l r) Model.leaf c s f e = elim e [ ]
    written_tree stale (Tree.tree kv l r) (Model.bin k v ml mr) c s f e =
        let sl = IsSorted-left (entries ml) ((k, v) ∷ entries mr) s in
        let sr = (IsSorted-right (entries ml) ((k, v) ∷ entries mr) s).1 in
        let a = written_link stale l ml c sl f.2 e.3 in
        node-WrittenTree kv l r k v ml mr c s f e.0 e.1 e.2 a
          (written_link stale r mr a.state sr f.3 e.4)

    written_link :
        (stale : Bool) (l : MaybeLink) (m : Model) (c : MerkCommitter)
        → IsSorted (entries m)
        → FitsAll m
        → RepsLink stale l m
        → WrittenLink l m c
    written_link stale MaybeLink.unlinked m c s f e =
        kept MaybeLink.unlinked m c refl e (λ reads d. rw e tt)
    written_link stale (MaybeLink.linked (Link.reference h hs k)) m c s f e =
        kept (MaybeLink.linked (Link.reference h hs k)) m c refl e (λ reads d. d)
    written_link stale (MaybeLink.linked (Link.loaded h hs t)) m c s f e =
        kept (MaybeLink.linked (Link.loaded h hs t)) m c refl e (λ reads d. d)
    written_link stale (MaybeLink.linked (Link.uncommitted h hs t)) m c s f e = elim e [ ]
    written_link stale (MaybeLink.linked (Link.modified n hs t)) m c s f e =
        reload-WrittenLink n hs t m c e.1 (written_tree true t m c s f e.2)

  -- Committing a tree whose keys increase, and are shorter than 2 ^ 8 below the root.
  pub commit-WrittenTree :
      (t : Tree) (m : Model) (c : MerkCommitter)
      → IsSorted (entries m)
      → FitsAll m
      → RepsTree true t m
      → WrittenTree t m c
  commit-WrittenTree t m c s f e = written_tree true t m c s f e
