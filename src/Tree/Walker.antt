-- ===== src/Tree/Walker.antt =====
-- src/tree/walk/mod.rs: a walker is a tree with a source that pruned children are fetched from. The
-- source never changes, so a walker is modelled by its tree, and the source is a parameter; the
-- `Owner` that a tree is taken out of and put back into leaves no trace.
use merk.Prelude.{◌≡◌, refl, ◌<◌, ◌^◌, Bool, true, false, Option, none, some}
use merk.Bytes.{Bytes}
use merk.Outcome.{Result, ok, ◌>>=◌}
use merk.Hash.{Hasher}
use merk.Model
use merk.Model.{Model}
use merk.Tree.{Tree, MaybeLink, Link, link, expect, attach, detach}
use merk.Tree.Reps.{RepsTree, RepsLink, HasKey}
use merk.Tree.Attach.{
  child, with_child, is_loaded, RepsOption, attach-Reps, detach-Reps, with_child_twice,
}
use merk.Tree.Load.{Fetch, fetch}

module _ (source : Fetch) where
  -- the branches of `Walker::detach`: no link, a child in memory, and a pruned child
  abbrev pub walker_detach_link : Tree → Bool → MaybeLink → Result (Tree × Option Tree)
  walker_detach_link t left MaybeLink.unlinked = ok (t, none)
  walker_detach_link t left (MaybeLink.linked (Link.reference h hs k)) = do
    c ← fetch source (Link.reference h hs k)
    ok ((detach t left).0, some c)
  walker_detach_link t left (MaybeLink.linked (Link.modified n hs c)) = ok (detach t left)
  walker_detach_link t left (MaybeLink.linked (Link.uncommitted h hs c)) = ok (detach t left)
  walker_detach_link t left (MaybeLink.linked (Link.loaded h hs c)) = ok (detach t left)

  unfoldable pub walker_detach : Tree → Bool → Result (Tree × Option Tree)
  walker_detach t left = walker_detach_link t left (link t left)

  unfoldable pub walker_detach_expect : Tree → Bool → Result (Tree × Tree)
  walker_detach_expect t left = do
    (parent, c) ← walker_detach t left
    c' ← expect c
    ok (parent, c')

  unfoldable pub walker_walk : Tree → Bool → (Option Tree → Result (Option Tree)) → Result Tree
  walker_walk t left f = do (parent, c) ← walker_detach t left; c' ← f c; attach parent left c'

  unfoldable pub walker_walk_expect : Tree → Bool → (Tree → Result (Option Tree)) → Result Tree
  walker_walk_expect t left f = do
    (parent, c) ← walker_detach_expect t left
    c' ← f c
    attach parent left c'

  module _ ⦃hasher : Hasher⦄ where
    detach_free :
        (t : Tree) (m : Model) (left : Bool)
        → RepsTree true t m
        → (link (detach t left).0 left ≡ MaybeLink.unlinked)
          × RepsTree true (detach t left).0 (with_child m left Model.leaf)
    unfolding detach
    detach_free (Tree.tree kv l r) Model.leaf left e = elim e [ ]
    detach_free (Tree.tree kv l r) (Model.bin k v ml mr) true e = (refl, (e.0, e.1, e.2, refl, e.4))
    detach_free (Tree.tree kv l r) (Model.bin k v ml mr) false e =
        (refl, (e.0, e.1, e.2, e.3, refl))

    link-Reps :
        (t : Tree) (m : Model) (left : Bool)
        → RepsTree true t m
        → RepsLink true (link t left) (child m left)
    link-Reps (Tree.tree kv l r) Model.leaf left e = elim e [ ]
    link-Reps (Tree.tree kv l r) (Model.bin k v ml mr) true e = e.3
    link-Reps (Tree.tree kv l r) (Model.bin k v ml mr) false e = e.4

    with_child-child : (m : Model) (left : Bool) → with_child m left (child m left) ≡ m
    with_child-child Model.leaf left = refl
    with_child-child (Model.bin k v l r) true = refl
    with_child-child (Model.bin k v l r) false = refl

    -- what the walker detaches, by the kind of link
    record Detached (t : Tree) (m : Model) (left : Bool) (r : Result (Tree × Option Tree))
        : Type 0 where
      parent : Tree
      inner : Option Tree
      detaches : r ≡ ok (parent, inner)
      free : link parent left ≡ MaybeLink.unlinked
      rest : RepsTree true parent (with_child m left Model.leaf)
      taken : RepsOption inner (child m left)

    in_memory-Detached :
        (t : Tree) (m : Model) (left : Bool)
        → is_loaded (link t left) ≡ true
        → RepsTree true t m
        → Detached t m left (ok (detach t left))
    in_memory-Detached t m left i e =
        let (free, rest, inner) = detach-Reps t m left i e in
        record {
          parent = (detach t left).0;
          inner = (detach t left).1;
          detaches = refl;
          free = free;
          rest = rest;
          taken = inner;
        }

    detach_link :
        (t : Tree) (m : Model) (left : Bool) (l : MaybeLink)
        → link t left ≡ l
        → RepsLink true l (child m left)
        → ((k : Bytes)
            → HasKey (child m left) k
            → (c : Tree) × (source.fetch_by_key k ≡ ok (some c)) × RepsTree true c (child m left))
        → RepsTree true t m
        → Detached t m left (walker_detach_link t left l)
    detach_link t m left MaybeLink.unlinked e f held reps =
        let same : with_child m left Model.leaf ≡ m = rw (← f) (with_child-child m left) in
        record {
          parent = t;
          inner = none;
          detaches = refl;
          free = e;
          rest = rw same reps;
          taken = f;
        }
    detach_link t m left (MaybeLink.linked (Link.reference h hs k)) e f held reps =
        let (c, stored, inner) = held k f.2 in
        let (free, rest) = detach_free t m left reps in
        record {
          parent = (detach t left).0;
          inner = some c;
          detaches = rw stored refl;
          free = free;
          rest = rest;
          taken = inner;
        }
    detach_link t m left (MaybeLink.linked (Link.modified n hs c)) e f held reps =
        in_memory-Detached t m left (rw e refl) reps
    detach_link t m left (MaybeLink.linked (Link.uncommitted h hs c)) e f held reps =
        in_memory-Detached t m left (rw e refl) reps
    detach_link t m left (MaybeLink.linked (Link.loaded h hs c)) e f held reps =
        in_memory-Detached t m left (rw e refl) reps

    -- Walking with a walker, where the source holds the child under its key if it is pruned: `f` is
    -- handed the child, and if it returns one, the walk succeeds and the tree has the new child in
    -- the place of the old one. The new child's height fits a `u8`.
    pub walker_walk-Reps :
        (t : Tree) (m : Model) (left : Bool) (f : Option Tree → Result (Option Tree)) (mc : Model)
        → ((k : Bytes)
            → HasKey (child m left) k
            → (c : Tree) × (source.fetch_by_key k ≡ ok (some c)) × RepsTree true c (child m left))
        → Model.height mc < 2 ^ 8
        → RepsTree true t m
        → ((c : Option Tree)
            → RepsOption c (child m left)
            → (c' : Option Tree) × (f c ≡ ok c') × RepsOption c' mc)
        → (t' : Tree) × (walker_walk t left f ≡ ok t') × RepsTree true t' (with_child m left mc)
    unfolding walker_walk walker_detach
    walker_walk-Reps t m left f mc held b reps h =
        let d = detach_link t m left (link t left) refl (link-Reps t m left reps) held reps in
        let (c', returned, new) = h d.inner d.taken in
        let (t', attached, whole) =
          attach-Reps d.parent (with_child m left Model.leaf) left c' mc d.free b d.rest new in
        (t', rw (d.detaches, returned) attached, rw (← with_child_twice m left Model.leaf mc) whole)
