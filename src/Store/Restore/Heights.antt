-- ===== src/Store/Restore/Heights.antt =====
-- The heights in the trunk's links, which are set once all the leaf chunks are there.
use merk.Prelude.{
  ℕ, zero, suc, ◌<◌, ◌^◌, ◌≡◌, refl, ap, ◌∙◌, true, false, List, [], ◌∷◌, ◌++◌, some, map, All,
  All-append, All-append_parts, arith,
}
use merk.Bytes.{Bytes}
use merk.Outcome.{ok}
use merk.Hash.{Hasher}
use merk.Model
use merk.Model.{Model, entries, root_hash, IsSorted}
use merk.Model.Find.{IsSorted-left, IsSorted-right}
use merk.Proofs.Chunk.Program.{FitsAll}
use merk.Proofs.Chunk.Rows.{Encodes}
use merk.Proofs.Query.Create.{ref_walk}
use merk.Store.{Change, node_write, fetch_by_key, source}
use merk.Store.Disk.{Reads, OnDisk, OnDisk-fetch, reads_of}
use merk.Store.Replay.{changed}
use merk.Store.Restore.{rewrite_heights, above}
use merk.Store.Restore.Full.{map-append}
use merk.Store.Restore.Grown.{Label, IsLabel, IsKeyed, Grown, kv_at, to_child, fork, fork-encode}
use merk.Store.Rocks.{Db}
use merk.Store.Written.{node-OnDisk}
use merk.Tree.{Tree, MaybeLink, Link}
use merk.Tree.Encoding.{EdOption}
use merk.Tree.Load.{load}
use merk.Tree.Reps.{RepsTree, HasKey, heights_of, heights-Reps}

module _ ⦃hasher : Hasher⦄ where
  -- a tree that was read: a fork of the trunk, or a node below it
  abbrev pub Stands : ℕ → Tree → Model → Type 0
  Stands n t Model.leaf = ⊥
  Stands zero t (Model.bin k v l r) = RepsTree false t (Model.bin k v l r)
  Stands (suc n) t (Model.bin k v l r) =
      (x : Label) × (y : Label) × (t ≡ fork k v l r x y)
      × IsLabel x
      × IsLabel y
      × IsKeyed true n l x
      × IsKeyed true n r y

keyed : (n : ℕ) (m : Model) (x : Label) → IsKeyed true n m x → HasKey m x.1
keyed zero m x h = h
keyed (suc n) m x h = h

module _ {S : Type 0} (db : Db S) ⦃hasher : Hasher⦄ ⦃o : EdOption⦄ (s : S) where
  above-height :
      (m : Model) (k : Bytes)
      → HasKey m k
      → Model.height m < 2 ^ 8
      → above db (heights_of m) ≡ Model.height m
  above-height Model.leaf k h b = elim h [ ]
  above-height (Model.bin k' v l r) k h b = omega arith

  -- what the trunk's links point to can be fetched
  pub Grown-fetch :
      (n : ℕ) (m : Model) (k : Bytes)
      → HasKey m k
      → FitsAll m
      → Grown true (reads_of db s) n m
      → (c : Tree) × (fetch_by_key db s k ≡ ok (some c)) × Stands n c m
  unfolding fetch_by_key
  Grown-fetch n Model.leaf k h f g = elim h [ ]
  Grown-fetch zero (Model.bin k' v l r) k h f g =
      let (c, e, fresh) = OnDisk-fetch db s k' v l r f g in (c, rw (← h) e, fresh)
  Grown-fetch (suc n) (Model.bin k' v l r) k h f
        ((x, y, (encoded, e, writes, back, bx, by'), kx, ky), gl, gr) =
      (fork k' v l r x y, rw (← h, e, back) refl, (x, y, refl, bx, by', kx, ky))

  walk-left :
      (k v : Bytes) (l r : Model) (x y : Label) (c : Tree)
      → fetch_by_key db s x.1 ≡ ok (some c)
      → (t : Tree) × (ref_walk (source db s) (fork k v l r x y) true ≡ ok (t, some c))
        × ((d : Tree)
            → fetch_by_key db s y.1 ≡ ok (some d)
            → (t' : Tree) × (ref_walk (source db s) t false ≡ ok (t', some d)))
  unfolding ref_walk load
  walk-left k v l r x y c e =
      let left = MaybeLink.linked (Link.loaded (root_hash l) x.0 c) in
      (
        Tree.tree (kv_at k v) left (to_child r y),
        rw e refl,
        λ d e'. (
          Tree.tree (kv_at k v) left (MaybeLink.linked (Link.loaded (root_hash r) y.0 d)),
          rw e' refl,
        ),
      )

  -- what setting the heights of a subtree writes
  pub record HeightWrites (t : Tree) (n : ℕ) (m : Model) : Type 1 where
    pub changes : List Change
    pub ran : rewrite_heights db s n t ≡ ok (heights_of m, map node_write changes)
    pub keys : (P : Bytes → Type 0) → All (λ e. P e.0) (entries m) → All (λ e. P e.0) changes
    pub stores :
        (reads : Reads) → Grown true reads n m → OnDisk (λ k. changed changes k (reads k)) m

  pub rewrite-HeightWrites :
      (n : ℕ) (t : Tree) (m : Model)
      → Stands n t m
      → IsSorted (entries m)
      → FitsAll m
      → Model.height m < 2 ^ 8
      → Grown true (reads_of db s) n m
      → HeightWrites t n m
  unfolding rewrite_heights
  rewrite-HeightWrites n t Model.leaf stands so f b g = elim stands [ ]
  rewrite-HeightWrites zero t (Model.bin k v l r) stands so f b g = record {
    changes = [];
    ran =
        ap (λ hs. ok (hs, map node_write [])) (heights-Reps false t (Model.bin k v l r) b stands).0;
    keys = λ P h. tt;
    stores = λ reads d. d;
  }
  rewrite-HeightWrites (suc n) t (Model.bin k v l r) (x, y, same, bx, by', kx, ky) so f b
        (_, gl, gr) =
      let sl = IsSorted-left (entries l) ((k, v) ∷ entries r) so in
      let sr = (IsSorted-right (entries l) ((k, v) ∷ entries r) so).1 in
      let hx = keyed n l x kx in
      let hy = keyed n r y ky in
      let (c, fetched, stands_c) = Grown-fetch n l x.1 hx f.2 gl in
      let (d, fetched', stands_d) = Grown-fetch n r y.1 hy f.3 gr in
      let (t₁, walked, next) = walk-left k v l r x y c fetched in
      let (t₂, walked') = next d fetched' in
      let left = rewrite-HeightWrites n c l stands_c sl f.2 (omega arith) gl in
      let right = rewrite-HeightWrites n d r stands_d sr f.3 (omega arith) gr in
      let (encoded, writes, back) = fork-encode k v l r x y bx by' in
      let (encoded', writes', back') =
        fork-encode k v l r (heights_of l, x.1) (heights_of r, y.1) bx by' in
      let node : Encodes encoded' (Model.bin k v l r) = (
        fork k v l r (heights_of l, x.1) (heights_of r, y.1),
        writes',
        (refl, refl, refl, (refl, refl, hx), (refl, refl, hy)),
      ) in
      record {
        changes = left.changes ++ (right.changes ++ ((k, some encoded') ∷ []));
        ran =
            ap (rewrite_heights db s (suc n)) same
            ∙ (rw
                (
                  writes,
                  back,
                  walked,
                  left.ran,
                  walked',
                  right.ran,
                  writes',
                  above-height l x.1 hx (omega arith),
                  above-height r y.1 hy (omega arith),
                  map-append left.changes (right.changes ++ ((k, some encoded') ∷ [])),
                  map-append right.changes ((k, some encoded') ∷ []),
                )
                refl);
        keys = λ P h.
            let (hl, hn) = All-append_parts _ (entries l) ((k, v) ∷ entries r) h in
            All-append _ left.changes (right.changes ++ ((k, some encoded') ∷ [])) (left.keys P hl)
              (All-append _ right.changes ((k, some encoded') ∷ []) (right.keys P hn.1) (hn.0, tt));
        stores = λ reads g'.
            node-OnDisk k k v encoded' l r left.changes right.changes reads refl so left.keys
              right.keys (left.stores reads g'.1) (right.stores reads g'.2) node;
      }
