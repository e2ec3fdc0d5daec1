-- ===== src/Tree.antt =====
-- src/tree/mod.rs, src/tree/link.rs and the type of src/tree/kv.rs: the tree with its links.
-- Heights are `u8` and `pending_writes` is a `usize`; both wrap, as the release build does. The
-- debug assertion of `attach` is not modelled.
pub mod Reps
pub mod Attach
pub mod Commit
pub mod Load
pub mod Lookup
pub mod Walker
pub mod Iter
pub mod Ops
pub mod Encoding
mod Examples
use merk.Prelude.{ℕ, ◌+◌, ◌%◌, ◌^◌, ◌≡◌, Bool, true, false, Option, none, some, max}
use merk.Bytes.{Bytes}
use merk.Outcome.{Result, ok, err, panic, ◌>>=◌}
use merk.Hash.{Hasher, null_hash, kv_hash, node_hash}

-- `KV`
pub record Kv : Type 0 where
  pub key : Bytes
  pub value : Bytes
  pub hash : Bytes

-- `child_heights: (u8, u8)`
abbrev pub Heights : Type 0
Heights = ℕ × ℕ

-- `MaybeLink` is `Option<Link>`.
mutual
  pub data Tree : Type 0 where
    tree : Kv → MaybeLink → MaybeLink → Tree

  pub data MaybeLink : Type 0 where
    unlinked : MaybeLink
    linked : Link → MaybeLink

  pub data Link : Type 0 where
    reference : Bytes → Heights → Bytes → Link
    modified : ℕ → Heights → Tree → Link
    uncommitted : Bytes → Heights → Tree → Link
    loaded : Bytes → Heights → Tree → Link

abbrev pub kv_of : Tree → Kv
kv_of (Tree.tree kv l r) = kv

-- `Tree::link` and `Tree::slot_mut`
abbrev pub link : Tree → Bool → MaybeLink
link (Tree.tree kv l r) true = l
link (Tree.tree kv l r) false = r

abbrev pub key : Tree → Bytes
key t = (kv_of t).key

-- `Link::is_reference` to `Link::is_stored`
abbrev pub is_reference : Link → Bool
is_reference (Link.reference h hs k) = true
is_reference _ = false

abbrev pub is_modified : Link → Bool
is_modified (Link.modified n hs t) = true
is_modified _ = false

-- `Link::key`, `Link::tree`, `Link::hash`
abbrev pub link_key : Link → Bytes
link_key (Link.reference h hs k) = k
link_key (Link.modified n hs t) = key t
link_key (Link.uncommitted h hs t) = key t
link_key (Link.loaded h hs t) = key t

abbrev pub link_tree : Link → Option Tree
link_tree (Link.reference h hs k) = none
link_tree (Link.modified n hs t) = some t
link_tree (Link.uncommitted h hs t) = some t
link_tree (Link.loaded h hs t) = some t

abbrev pub link_hash : Link → Result Bytes
link_hash (Link.modified n hs t) = panic
link_hash (Link.reference h hs k) = ok h
link_hash (Link.uncommitted h hs t) = ok h
link_hash (Link.loaded h hs t) = ok h

abbrev pub child_heights_of : Link → Heights
child_heights_of (Link.reference h hs k) = hs
child_heights_of (Link.modified n hs t) = hs
child_heights_of (Link.uncommitted h hs t) = hs
child_heights_of (Link.loaded h hs t) = hs

abbrev pub link_height : Link → ℕ
link_height l = (1 + max (child_heights_of l).0 (child_heights_of l).1) % 2 ^ 8

-- `Link::into_reference`
abbrev pub into_reference : Link → Result Link
into_reference (Link.reference h hs k) = ok (Link.reference h hs k)
into_reference (Link.modified n hs t) = panic
into_reference (Link.uncommitted h hs t) = panic
into_reference (Link.loaded h hs t) = ok (Link.reference h hs (key t))

-- `Tree::child_height`, `Tree::child_heights`, `Tree::height`, `Tree::child_pending_writes`
abbrev pub child_height : MaybeLink → ℕ
child_height MaybeLink.unlinked = 0
child_height (MaybeLink.linked l) = link_height l

abbrev pub child_heights : Tree → Heights
child_heights (Tree.tree kv l r) = (child_height l, child_height r)

abbrev pub height : Tree → ℕ
height (Tree.tree kv l r) = (1 + max (child_height l) (child_height r)) % 2 ^ 8

abbrev pub child_pending_writes : MaybeLink → ℕ
child_pending_writes (MaybeLink.linked (Link.modified n hs t)) = n
child_pending_writes _ = 0

-- `Tree::child_hash` and `Tree::hash`, which panics on a child that is modified
abbrev pub child_hash : MaybeLink → Result Bytes
child_hash MaybeLink.unlinked = ok null_hash
child_hash (MaybeLink.linked l) = link_hash l

-- `Link::from_modified_tree`
abbrev pub from_modified_tree : Tree → Link
from_modified_tree t =
    Link.modified
      ((1 + child_pending_writes (link t true) + child_pending_writes (link t false)) % 2 ^ 64)
      (child_heights t) t

abbrev pub maybe_from_modified_tree : Option Tree → MaybeLink
maybe_from_modified_tree none = MaybeLink.unlinked
maybe_from_modified_tree (some t) = MaybeLink.linked (from_modified_tree t)

-- `Tree::attach`: the assertion panics if there is a child already.
unfoldable pub attach : Tree → Bool → Option Tree → Result Tree
attach (Tree.tree kv MaybeLink.unlinked r) true c = ok (Tree.tree kv (maybe_from_modified_tree c) r)
attach (Tree.tree kv (MaybeLink.linked l) r) true c = panic
attach (Tree.tree kv l MaybeLink.unlinked) false c =
    ok (Tree.tree kv l (maybe_from_modified_tree c))
attach (Tree.tree kv l (MaybeLink.linked r)) false c = panic

-- what `detach` takes out of a slot; a reference gives no tree
abbrev pub taken : MaybeLink → Option Tree
taken MaybeLink.unlinked = none
taken (MaybeLink.linked l) = link_tree l

unfoldable pub detach : Tree → Bool → Tree × Option Tree
detach (Tree.tree kv l r) true = (Tree.tree kv MaybeLink.unlinked r, taken l)
detach (Tree.tree kv l r) false = (Tree.tree kv l MaybeLink.unlinked, taken r)

abbrev pub expect : {A : Type 0} → Option A → Result A
expect none = panic
expect (some a) = ok a

unfoldable pub detach_expect : Tree → Bool → Result (Tree × Tree)
unfolding detach
detach_expect t left = do child ← expect (detach t left).1; ok ((detach t left).0, child)

unfoldable pub walk : Tree → Bool → (Option Tree → Option Tree) → Result Tree
unfolding detach attach
walk t left f = attach (detach t left).0 left (f (detach t left).1)

unfoldable pub walk_expect : Tree → Bool → (Tree → Option Tree) → Result Tree
unfolding detach_expect attach
walk_expect t left f = do (parent, child) ← detach_expect t left; attach parent left (f child)

module _ ⦃hasher : Hasher⦄ where
  -- `KV::new`, `KV::with_value`
  abbrev pub new_kv : Bytes → Bytes → Result Kv
  new_kv k v = do h ← kv_hash k v; ok (record { key = k; value = v; hash = h })

  abbrev pub new : Bytes → Bytes → Result Tree
  new k v = do kv ← new_kv k v; ok (Tree.tree kv MaybeLink.unlinked MaybeLink.unlinked)

  abbrev pub with_value : Tree → Bytes → Result Tree
  with_value (Tree.tree kv l r) v = do
    h ← kv_hash kv.key v
    ok (Tree.tree (record kv { value = v; hash = h }) l r)

  abbrev pub hash : Tree → Result Bytes
  hash (Tree.tree kv l r) = do hl ← child_hash l; hr ← child_hash r; ok (node_hash kv.hash hl hr)
