-- ===== src/Tree/Ops/Fetched.antt =====
-- `Walker::detach` and `attach` on a tree whose pruned children the source holds.
use merk.Prelude.{◌≡◌, refl, ap, ◌<◌, ◌^◌, Bool, true, false, Option, none, some}
use merk.Outcome.{ok}
use merk.Hash.{Hasher}
use merk.Model
use merk.Model.{Model}
use merk.Proofs.Query.Create.Program.{Stored}
use merk.Tree.{Tree, MaybeLink, Link, link, attach, detach, maybe_from_modified_tree}
use merk.Tree.Attach.{child, with_child, stale_tree-Reps, from_modified-Reps}
use merk.Tree.Load.{Fetch}
use merk.Tree.Reps.{RepsTree, RepsLink}
use merk.Tree.Walker.{walker_detach, walker_detach_link}

module _ (source : Fetch) ⦃hasher : Hasher⦄ where
  -- the source holds what is pruned
  abbrev mutual
    pub Fetchable : Tree → Model → Type 0
    Fetchable (Tree.tree kv l r) Model.leaf = ⊥
    Fetchable (Tree.tree kv l r) (Model.bin k v ml mr) = FetchableLink l ml × FetchableLink r mr

    pub FetchableLink : MaybeLink → Model → Type 0
    FetchableLink MaybeLink.unlinked m = Unit
    FetchableLink (MaybeLink.linked (Link.reference h hs k)) m = Stored source m
    FetchableLink (MaybeLink.linked (Link.modified n hs t)) m = Fetchable t m
    FetchableLink (MaybeLink.linked (Link.uncommitted h hs t)) m = Fetchable t m
    FetchableLink (MaybeLink.linked (Link.loaded h hs t)) m = Fetchable t m

  -- A tree that stands for a model, over a source that holds what is pruned.
  pub record Over (t : Tree) (m : Model) : Type 0 where
    pub reps : RepsTree true t m
    pub fetchable : Fetchable t m

  -- a tree with fresh links, where the source holds every subtree
  mutual
    Stored-Fetchable : (t : Tree) (m : Model) → RepsTree false t m → Stored source m → Fetchable t m
    Stored-Fetchable (Tree.tree kv l r) Model.leaf e s = e
    Stored-Fetchable (Tree.tree kv l r) (Model.bin k v ml mr) e s =
        (Stored-FetchableLink l ml e.3 s.1, Stored-FetchableLink r mr e.4 s.2)

    Stored-FetchableLink :
        (l : MaybeLink) (m : Model) → RepsLink false l m → Stored source m → FetchableLink l m
    Stored-FetchableLink MaybeLink.unlinked m e s = tt
    Stored-FetchableLink (MaybeLink.linked (Link.reference h hs k)) m e s = s
    Stored-FetchableLink (MaybeLink.linked (Link.modified n hs t)) m e s = cc
    Stored-FetchableLink (MaybeLink.linked (Link.uncommitted h hs t)) m e s = elim e [ ]
    Stored-FetchableLink (MaybeLink.linked (Link.loaded h hs t)) m e s = Stored-Fetchable t m e.2 s

  pub Stored-Over : (t : Tree) (m : Model) → RepsTree false t m → Stored source m → Over t m
  Stored-Over t m e s = record {
    reps = stale_tree-Reps t m e;
    fetchable = Stored-Fetchable t m e s;
  }

  abbrev pub OverOption : Option Tree → Model → Type 0
  OverOption none m = m ≡ Model.leaf
  OverOption (some t) m = Over t m

  -- what the walker takes out of a link
  fetched-Over :
      (l : MaybeLink) (t : Tree) (left : Bool) (m : Model)
      → RepsLink true l m
      → FetchableLink l m
      → link t left ≡ l
      → (c : Option Tree) × (walker_detach_link source t left l ≡ ok ((detach t left).0, c))
        × OverOption c m
  unfolding detach
  fetched-Over MaybeLink.unlinked (Tree.tree kv a b) true m e f s =
      (none, ap (λ x. ok (Tree.tree kv x b, none)) s, e)
  fetched-Over MaybeLink.unlinked (Tree.tree kv a b) false m e f s =
      (none, ap (λ x. ok (Tree.tree kv a x, none)) s, e)
  fetched-Over (MaybeLink.linked (Link.reference h hs k)) t left Model.leaf e f s = elim e.2 [ ]
  fetched-Over (MaybeLink.linked (Link.reference h hs k)) t left (Model.bin k' v ml mr) e f s =
      let (c, held, reps) = f.0 in
      let same : k ≡ k' = cc in
      (some c, rw (same, held) refl, Stored-Over c (Model.bin k' v ml mr) reps f)
  fetched-Over (MaybeLink.linked (Link.modified n hs c)) (Tree.tree kv a b) true m e f s =
      (some c, rw s refl, record { reps = e.2; fetchable = f })
  fetched-Over (MaybeLink.linked (Link.modified n hs c)) (Tree.tree kv a b) false m e f s =
      (some c, rw s refl, record { reps = e.2; fetchable = f })
  fetched-Over (MaybeLink.linked (Link.uncommitted h hs c)) t left m e f s = elim e [ ]
  fetched-Over (MaybeLink.linked (Link.loaded h hs c)) (Tree.tree kv a b) true m e f s =
      (some c, rw s refl, record { reps = stale_tree-Reps c m e.2; fetchable = f })
  fetched-Over (MaybeLink.linked (Link.loaded h hs c)) (Tree.tree kv a b) false m e f s =
      (some c, rw s refl, record { reps = stale_tree-Reps c m e.2; fetchable = f })

  -- What `detach` of a walker gives.
  pub record Parted (t : Tree) (m : Model) (left : Bool) : Type 0 where
    pub parent : Tree
    pub inner : Option Tree
    pub detaches : walker_detach source t left ≡ ok (parent, inner)
    pub free : link parent left ≡ MaybeLink.unlinked
    pub rest : Over parent (with_child m left Model.leaf)
    pub taken : OverOption inner (child m left)

  pub detach-Parted : (t : Tree) (m : Model) (left : Bool) → Over t m → Parted t m left
  unfolding walker_detach detach
  detach-Parted (Tree.tree kv l r) Model.leaf left o = elim o.reps [ ]
  detach-Parted (Tree.tree kv l r) (Model.bin k v ml mr) true o =
      let e = o.reps in
      let (c, runs, inner) = fetched-Over l (Tree.tree kv l r) true ml e.3 o.fetchable.0 refl in
      record {
        parent = Tree.tree kv MaybeLink.unlinked r;
        inner = c;
        detaches = runs;
        free = refl;
        rest = record { reps = (e.0, e.1, e.2, refl, e.4); fetchable = (tt, o.fetchable.1) };
        taken = inner;
      }
  detach-Parted (Tree.tree kv l r) (Model.bin k v ml mr) false o =
      let e = o.reps in
      let (c, runs, inner) = fetched-Over r (Tree.tree kv l r) false mr e.4 o.fetchable.1 refl in
      record {
        parent = Tree.tree kv l MaybeLink.unlinked;
        inner = c;
        detaches = runs;
        free = refl;
        rest = record { reps = (e.0, e.1, e.2, e.3, refl); fetchable = (o.fetchable.0, tt) };
        taken = inner;
      }

  from_modified-Fetchable :
      (c : Option Tree) (m : Model) → OverOption c m → FetchableLink (maybe_from_modified_tree c) m
  from_modified-Fetchable none m o = tt
  from_modified-Fetchable (some c) m o = o.fetchable

  from_modified_option :
      (c : Option Tree) (m : Model)
      → Model.height m < 2 ^ 8
      → OverOption c m
      → RepsLink true (maybe_from_modified_tree c) m
  from_modified_option none m b o = o
  from_modified_option (some c) m b o = from_modified-Reps (some c) m b o.reps

  pub attach-Over :
      (t : Tree) (m : Model) (left : Bool) (c : Option Tree) (mc : Model)
      → link t left ≡ MaybeLink.unlinked
      → Model.height mc < 2 ^ 8
      → Over t m
      → OverOption c mc
      → (t' : Tree) × (attach t left c ≡ ok t') × Over t' (with_child m left mc)
  unfolding attach
  attach-Over (Tree.tree kv l r) Model.leaf left c mc free b o oc = elim o.reps [ ]
  attach-Over (Tree.tree kv l r) (Model.bin k v ml mr) true c mc free b o oc =
      let e = o.reps in
      (
        Tree.tree kv (maybe_from_modified_tree c) r,
        rw free refl,
        record {
          reps = (e.0, e.1, e.2, from_modified_option c mc b oc, e.4);
          fetchable = (from_modified-Fetchable c mc oc, o.fetchable.1);
        },
      )
  attach-Over (Tree.tree kv l r) (Model.bin k v ml mr) false c mc free b o oc =
      let e = o.reps in
      (
        Tree.tree kv l (maybe_from_modified_tree c),
        rw free refl,
        record {
          reps = (e.0, e.1, e.2, e.3, from_modified_option c mc b oc);
          fetchable = (o.fetchable.0, from_modified-Fetchable c mc oc);
        },
      )
