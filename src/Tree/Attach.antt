-- ===== src/Tree/Attach.antt =====
-- `attach`, `detach` and `walk` against the model: they replace one child and keep the rest.
use merk.Prelude.{◌≡◌, refl, ◌<◌, ◌^◌, Bool, true, false, Option, none, some}
use merk.Outcome.{ok}
use merk.Hash.{Hasher}
use merk.Model
use merk.Model.{Model}
use merk.Tree.{Tree, MaybeLink, Link, link, taken, attach, detach, walk, maybe_from_modified_tree}
use merk.Tree.Reps.{RepsTree, RepsLink, heights-Reps}

abbrev pub child : Model → Bool → Model
child Model.leaf left = Model.leaf
child (Model.bin k v l r) true = l
child (Model.bin k v l r) false = r

-- the model with another child
abbrev pub with_child : Model → Bool → Model → Model
with_child Model.leaf left m = Model.leaf
with_child (Model.bin k v l r) true m = Model.bin k v m r
with_child (Model.bin k v l r) false m = Model.bin k v l m

abbrev pub is_loaded : MaybeLink → Bool
is_loaded (MaybeLink.linked (Link.reference h hs k)) = false
is_loaded _ = true

module _ ⦃hasher : Hasher⦄ where
  abbrev pub RepsOption : Option Tree → Model → Type 0
  RepsOption none m = m ≡ Model.leaf
  RepsOption (some t) m = RepsTree true t m

  pub from_modified-Reps :
      (c : Option Tree) (m : Model)
      → Model.height m < 2 ^ 8
      → RepsOption c m
      → RepsLink true (maybe_from_modified_tree c) m
  from_modified-Reps none m b e = e
  from_modified-Reps (some t) m b e = (refl, (heights-Reps true t m b e).0, e)

  -- Attaching a child to a free side succeeds, and the tree stands for the model with that child.
  pub attach-Reps :
      (t : Tree) (m : Model) (left : Bool) (c : Option Tree) (mc : Model)
      → link t left ≡ MaybeLink.unlinked
      → Model.height mc < 2 ^ 8
      → RepsTree true t m
      → RepsOption c mc
      → (t' : Tree) × (attach t left c ≡ ok t') × RepsTree true t' (with_child m left mc)
  unfolding attach
  attach-Reps (Tree.tree kv l r) Model.leaf left c mc free b e ec = elim e [ ]
  attach-Reps (Tree.tree kv MaybeLink.unlinked r) (Model.bin k v ml mr) true c mc free b e ec =
      (_, refl, (e.0, e.1, e.2, from_modified-Reps c mc b ec, e.4))
  attach-Reps (Tree.tree kv (MaybeLink.linked l) r) (Model.bin k v ml mr) true c mc free b e ec = cc
  attach-Reps (Tree.tree kv l MaybeLink.unlinked) (Model.bin k v ml mr) false c mc free b e ec =
      (_, refl, (e.0, e.1, e.2, e.3, from_modified-Reps c mc b ec))
  attach-Reps (Tree.tree kv l (MaybeLink.linked r)) (Model.bin k v ml mr) false c mc free b e ec =
      cc

  stale-Reps : (l : MaybeLink) (m : Model) → RepsLink false l m → RepsLink true l m
  stale-Reps MaybeLink.unlinked m e = e
  stale-Reps (MaybeLink.linked (Link.reference h hs k)) m e = e
  stale-Reps (MaybeLink.linked (Link.modified n hs t)) m e = cc
  stale-Reps (MaybeLink.linked (Link.uncommitted h hs t)) m e = elim e [ ]
  stale-Reps (MaybeLink.linked (Link.loaded h hs t)) m e = e

  pub stale_tree-Reps : (t : Tree) (m : Model) → RepsTree false t m → RepsTree true t m
  stale_tree-Reps (Tree.tree kv l r) Model.leaf e = elim e [ ]
  stale_tree-Reps (Tree.tree kv l r) (Model.bin k v ml mr) e =
      (e.0, e.1, e.2, stale-Reps l ml e.3, stale-Reps r mr e.4)

  taken-Reps :
      (l : MaybeLink) (m : Model) → is_loaded l ≡ true → RepsLink true l m → RepsOption (taken l) m
  taken-Reps MaybeLink.unlinked m i e = e
  taken-Reps (MaybeLink.linked (Link.reference h hs k)) m i e = cc
  taken-Reps (MaybeLink.linked (Link.modified n hs t)) m i e = e.2
  taken-Reps (MaybeLink.linked (Link.uncommitted h hs t)) m i e = elim e [ ]
  taken-Reps (MaybeLink.linked (Link.loaded h hs t)) m i e = stale_tree-Reps t m e.2

  -- Detaching a child that is in memory gives that child's tree, and leaves the side free.
  pub detach-Reps :
      (t : Tree) (m : Model) (left : Bool)
      → is_loaded (link t left) ≡ true
      → RepsTree true t m
      → (link (detach t left).0 left ≡ MaybeLink.unlinked)
        × RepsTree true (detach t left).0 (with_child m left Model.leaf)
        × RepsOption (detach t left).1 (child m left)
  unfolding detach
  detach-Reps (Tree.tree kv l r) Model.leaf left i e = elim e [ ]
  detach-Reps (Tree.tree kv l r) (Model.bin k v ml mr) true i e =
      (refl, (e.0, e.1, e.2, refl, e.4), taken-Reps l ml i e.3)
  detach-Reps (Tree.tree kv l r) (Model.bin k v ml mr) false i e =
      (refl, (e.0, e.1, e.2, e.3, refl), taken-Reps r mr i e.4)

  pub with_child_twice :
      (m : Model) (left : Bool) (a b : Model)
      → with_child (with_child m left a) left b ≡ with_child m left b
  with_child_twice Model.leaf left a b = refl
  with_child_twice (Model.bin k v l r) true a b = refl
  with_child_twice (Model.bin k v l r) false a b = refl

  -- Walking to a child that is in memory hands that child to `f`, does not panic, and gives the
  -- tree with what `f` returned in the child's place. The new child's height fits a `u8`.
  pub walk-Reps :
      (t : Tree) (m : Model) (left : Bool) (f : Option Tree → Option Tree) (mc : Model)
      → is_loaded (link t left) ≡ true
      → Model.height mc < 2 ^ 8
      → RepsTree true t m
      → ((c : Option Tree) → RepsOption c (child m left) → RepsOption (f c) mc)
      → (t' : Tree) × (walk t left f ≡ ok t') × RepsTree true t' (with_child m left mc)
  unfolding walk
  walk-Reps t m left f mc i b e h =
      let (free, rest, c) = detach-Reps t m left i e in
      let (t', et, et') =
        attach-Reps (detach t left).0 (with_child m left Model.leaf) left (f (detach t left).1) mc
          free b rest (h (detach t left).1 c) in
      (t', et, rw (← with_child_twice m left Model.leaf mc) et')
