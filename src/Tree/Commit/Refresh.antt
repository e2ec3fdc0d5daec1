-- ===== src/Tree/Commit/Refresh.antt =====
-- `commit` refreshes every stale link, and writes the modified nodes, children first.
use merk.Prelude.{ℕ, ◌≡◌, refl, sym, ap, ◌∙◌, Bool, true, false, List, [], ◌∷◌, ◌++◌}
use merk.Bytes.{Bytes}
use merk.Outcome.{ok, ◌>>=◌}
use merk.Hash.{Hasher}
use merk.Model.{Model, root_hash, kv_digest}
use merk.Tree.{Tree, MaybeLink, Link, Kv, Heights, key, hash}
use merk.Tree.Reps.{RepsTree, RepsLink, hash-Reps, HasKey, heights_of}
use merk.Tree.Commit.{Commit, prune_slot, commit_node, reload, commit, commit_slot}

-- the keys of a tree's modified nodes, children first
abbrev mutual
  pub stale_keys : Tree → List Bytes
  stale_keys (Tree.tree kv l r) = stale_keys_link l ++ (stale_keys_link r ++ (kv.key ∷ []))

  pub stale_keys_link : MaybeLink → List Bytes
  stale_keys_link (MaybeLink.linked (Link.modified n hs t)) = stale_keys t
  stale_keys_link _ = []

module _ ⦃hasher : Hasher⦄ where
  key-HasKey : (t : Tree) (m : Model) → RepsTree false t m → HasKey m (key t)
  key-HasKey (Tree.tree kv l r) Model.leaf e = elim e [ ]
  key-HasKey (Tree.tree kv l r) (Model.bin k v ml mr) e = sym e.0

  pub prune_slot-Reps :
      (b : Bool) (l : MaybeLink) (m : Model)
      → RepsLink false l m
      → (l' : MaybeLink) × (prune_slot b l ≡ ok l') × RepsLink false l' m
  prune_slot-Reps false l m e = (l, refl, e)
  prune_slot-Reps true MaybeLink.unlinked m e = (MaybeLink.unlinked, refl, e)
  prune_slot-Reps true (MaybeLink.linked (Link.reference h hs k)) m e = (_, refl, e)
  prune_slot-Reps true (MaybeLink.linked (Link.modified n hs t)) m e = cc
  prune_slot-Reps true (MaybeLink.linked (Link.uncommitted h hs t)) m e = elim e [ ]
  prune_slot-Reps true (MaybeLink.linked (Link.loaded h hs t)) m e =
      (MaybeLink.linked (Link.reference h hs (key t)), refl, (e.0, e.1, key-HasKey t m e.2))

module _ ⦃hasher : Hasher⦄ {C : Type 0} (c : Commit C) where
  -- One call of `write` for each key in turn, on a tree with that key whose links are all fresh.
  abbrev pub Writes : C → List Bytes → C → Type 0
  Writes s [] s' = s ≡ s'
  Writes s (k ∷ ks) s' =
      (t : Tree) × (m : Model) × (s₁ : C) × (key t ≡ k)
      × RepsTree false t m
      × (c.write t s ≡ ok s₁)
      × Writes s₁ ks s'

  Writes-append :
      (s s₁ s₂ : C) (ks ks' : List Bytes)
      → Writes s ks s₁
      → Writes s₁ ks' s₂
      → Writes s (ks ++ ks') s₂
  Writes-append s s₁ s₂ [] ks' e w = rw e w
  Writes-append s s₁ s₂ (k ∷ ks) ks' (t, m, s', ek, er, ew, w) w' =
      (t, m, s', ek, er, ew, Writes-append s' s₁ s₂ ks ks' w w')

  -- The outcome of committing a tree: every link is fresh, and the modified nodes were written.
  pub record Refreshed (t : Tree) (m : Model) (s : C) : Type 0 where
    pub result : Tree
    pub state : C
    pub commits : commit c t s ≡ ok (result, state)
    pub fresh : RepsTree false result m
    pub hashes : hash result ≡ ok (root_hash m)
    pub writes : Writes s (stale_keys t) state

  record RefreshedLink (l : MaybeLink) (m : Model) (s : C) : Type 0 where
    result : MaybeLink
    state : C
    commits : commit_slot c l s ≡ ok (result, state)
    fresh : RepsLink false result m
    writes : Writes s (stale_keys_link l) state

  reload-RefreshedLink :
      (n : ℕ) (hs : Heights) (t : Tree) (m : Model) (s : C)
      → hs ≡ heights_of m
      → Refreshed t m s
      → RefreshedLink (MaybeLink.linked (Link.modified n hs t)) m s
  reload-RefreshedLink n hs t m s eh a = record {
    result = MaybeLink.linked (Link.loaded (root_hash m) hs a.result);
    state = a.state;
    commits =
        ap (λ x. x >>= reload c hs) a.commits
        ∙ ap (λ h. h >>= λ h. ok (MaybeLink.linked (Link.loaded h hs a.result), a.state)) a.hashes;
    fresh = (refl, eh, a.fresh);
    writes = a.writes;
  }

  module _ (writer : (t : Tree) (s : C) → (s' : C) × (c.write t s ≡ ok s')) where
    node-Refreshed :
        (kv : Kv) (l r : MaybeLink) (k v : Bytes) (ml mr : Model) (s : C)
        → (kv.key ≡ k)
        → (kv.value ≡ v)
        → (kv.hash ≡ kv_digest k v)
        → (a : RefreshedLink l ml s) → RefreshedLink r mr a.state
        → Refreshed (Tree.tree kv l r) (Model.bin k v ml mr) s
    node-Refreshed kv l r k v ml mr s ek ev eh a b =
        let t = Tree.tree kv a.result b.result in
        let m = Model.bin k v ml mr in
        let (s', ew) = writer t b.state in
        let (l', el, fl) = prune_slot-Reps (c.prune t s').0 a.result ml a.fresh in
        let (r', er, fr) = prune_slot-Reps (c.prune t s').1 b.result mr b.fresh in
        let fresh : RepsTree false (Tree.tree kv l' r') m = (ek, ev, eh, fl, fr) in
        let node : commit_node c t b.state ≡ ok (Tree.tree kv l' r', s') = rw (ew, el, er) refl in
        let whole : commit c (Tree.tree kv l r) s ≡ ok (Tree.tree kv l' r', s') =
          rw (a.commits, b.commits) node in
        let own : Writes b.state (kv.key ∷ []) s' =
          (t, m, s', refl, (ek, ev, eh, a.fresh, b.fresh), ew, refl) in
        record {
          result = Tree.tree kv l' r';
          state = s';
          commits = whole;
          fresh = fresh;
          hashes = hash-Reps (Tree.tree kv l' r') m fresh;
          writes =
              Writes-append s a.state s' (stale_keys_link l) (stale_keys_link r ++ (kv.key ∷ []))
                a.writes
                (Writes-append a.state b.state s' (stale_keys_link r) (kv.key ∷ []) b.writes own);
        }

    mutual
      refresh : (stale : Bool) (t : Tree) (m : Model) (s : C) → RepsTree stale t m → Refreshed t m s
      refresh stale (Tree.tree kv l r) Model.leaf s e = elim e [ ]
      refresh stale (Tree.tree kv l r) (Model.bin k v ml mr) s e =
          let a = refresh_link stale l ml s e.3 in
          node-Refreshed kv l r k v ml mr s e.0 e.1 e.2 a (refresh_link stale r mr a.state e.4)

      refresh_link :
          (stale : Bool) (l : MaybeLink) (m : Model) (s : C)
          → RepsLink stale l m
          → RefreshedLink l m s
      refresh_link stale MaybeLink.unlinked m s e = record {
        result = _;
        state = s;
        commits = refl;
        fresh = e;
        writes = refl;
      }
      refresh_link stale (MaybeLink.linked (Link.reference h hs k)) m s e = record {
        result = _;
        state = s;
        commits = refl;
        fresh = e;
        writes = refl;
      }
      refresh_link stale (MaybeLink.linked (Link.uncommitted h hs t)) m s e = elim e [ ]
      refresh_link stale (MaybeLink.linked (Link.loaded h hs t)) m s e = record {
        result = _;
        state = s;
        commits = refl;
        fresh = e;
        writes = refl;
      }
      refresh_link stale (MaybeLink.linked (Link.modified n hs t)) m s e =
          reload-RefreshedLink n hs t m s e.1 (refresh true t m s e.2)

    -- Where `write` never fails, committing a tree that stands for a model gives a tree that stands
    -- for it with no stale link and with its root hash, pruned or not; it never panics, and it has
    -- called `write` once for each modified node, children first, on a tree with fresh links.
    pub commit-Refreshed : (t : Tree) (m : Model) (s : C) → RepsTree true t m → Refreshed t m s
    commit-Refreshed t m s e = refresh true t m s e
