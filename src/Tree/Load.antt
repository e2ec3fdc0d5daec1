-- ===== src/Tree/Load.antt =====
-- `Tree::load` of src/tree/mod.rs, and the trait of src/tree/walk/fetch.rs.
use merk.Prelude.{◌≡◌, refl, Bool, true, false, not, Option, none, some}
use merk.Bytes.{Bytes}
use merk.Outcome.{Result, ok, err, panic, ◌>>=◌, Error}
use merk.Hash.{Hasher}
use merk.Model.{Model}
use merk.Tree.{Tree, MaybeLink, Link, Heights, kv_of, link, link_key}
use merk.Tree.Reps.{RepsTree, HasKey}
use merk.Tree.Attach.{child, is_loaded}

-- The trait `Fetch`
pub record Fetch : Type 0 where
  pub fetch_by_key : Bytes → Result (Option Tree)

module _ (source : Fetch) where
  -- `Option::ok_or_else`
  abbrev pub expect_key : Option Tree → Result Tree
  expect_key none = err Error.key
  expect_key (some t) = ok t

  abbrev pub fetch_by_key_expect : Bytes → Result Tree
  fetch_by_key_expect k = source.fetch_by_key k >>= expect_key

  abbrev pub fetch : Link → Result Tree
  fetch l = fetch_by_key_expect (link_key l)

  -- the assignment to `slot_mut`
  abbrev pub set_link : Tree → Bool → MaybeLink → Tree
  set_link (Tree.tree kv l r) true x = Tree.tree kv x r
  set_link (Tree.tree kv l r) false x = Tree.tree kv l x

  abbrev pub load_link : Tree → Bool → MaybeLink → Result Tree
  load_link t left (MaybeLink.linked (Link.reference h hs k)) = do
    c ← fetch (Link.reference h hs k)
    ok (set_link t left (MaybeLink.linked (Link.loaded h hs c)))
  load_link t left _ = panic

  unfoldable pub load : Tree → Bool → Result Tree
  load t left = load_link t left (link t left)

  module _ ⦃hasher : Hasher⦄ where
    -- What loading a child gives: its reference becomes a loaded link with the reference's hash and
    -- heights around the fetched tree, and the rest of the node stays.
    pub record Loaded (stale : Bool) (t : Tree) (m : Model) (left : Bool) : Type 0 where
      pub h : Bytes
      pub hs : Heights
      pub k : Bytes
      pub c : Tree
      pub t' : Tree
      pub loads : load t left ≡ ok t'
      pub was : link t left ≡ MaybeLink.linked (Link.reference h hs k)
      pub fetched : source.fetch_by_key k ≡ ok (some c)
      pub is : link t' left ≡ MaybeLink.linked (Link.loaded h hs c)
      pub other : link t' (not left) ≡ link t (not left)
      pub pair : kv_of t' ≡ kv_of t
      pub reps : RepsTree stale t' m

    -- Where the source holds, under the key of the pruned child, a fresh tree for that child,
    -- loading succeeds: the child's reference becomes a loaded link with the same hash and heights
    -- around the tree that the source holds under the reference's key, the node's pair and its other
    -- link stay, and the tree stands for the same model as before.
    pub load-Reps :
        (stale : Bool) (t : Tree) (m : Model) (left : Bool)
        → is_loaded (link t left) ≡ false
        → ((k : Bytes)
            → HasKey (child m left) k
            → (c : Tree) × (source.fetch_by_key k ≡ ok (some c)) × RepsTree false c (child m left))
        → RepsTree stale t m
        → Loaded stale t m left
    unfolding load
    load-Reps stale (Tree.tree kv l r) Model.leaf left i h e = elim e [ ]
    load-Reps stale (Tree.tree kv (MaybeLink.linked (Link.reference x hs k)) r)
          (Model.bin mk mv ml mr) true i h e =
        let (c, fetched, fresh) = h k e.3.2 in
        record {
          h = x;
          hs = hs;
          k = k;
          c = c;
          t' = Tree.tree kv (MaybeLink.linked (Link.loaded x hs c)) r;
          loads = rw fetched refl;
          was = refl;
          fetched = fetched;
          is = refl;
          other = refl;
          pair = refl;
          reps = (e.0, e.1, e.2, (e.3.0, e.3.1, fresh), e.4);
        }
    load-Reps stale (Tree.tree kv MaybeLink.unlinked r) (Model.bin mk mv ml mr) true i h e = cc
    load-Reps stale (Tree.tree kv (MaybeLink.linked (Link.modified n hs c)) r)
          (Model.bin mk mv ml mr) true i h e =
        cc
    load-Reps stale (Tree.tree kv (MaybeLink.linked (Link.uncommitted x hs c)) r)
          (Model.bin mk mv ml mr) true i h e =
        cc
    load-Reps stale (Tree.tree kv (MaybeLink.linked (Link.loaded x hs c)) r) (Model.bin mk mv ml mr)
          true i h e =
        cc
    load-Reps stale (Tree.tree kv l (MaybeLink.linked (Link.reference x hs k)))
          (Model.bin mk mv ml mr) false i h e =
        let (c, fetched, fresh) = h k e.4.2 in
        record {
          h = x;
          hs = hs;
          k = k;
          c = c;
          t' = Tree.tree kv l (MaybeLink.linked (Link.loaded x hs c));
          loads = rw fetched refl;
          was = refl;
          fetched = fetched;
          is = refl;
          other = refl;
          pair = refl;
          reps = (e.0, e.1, e.2, e.3, (e.4.0, e.4.1, fresh));
        }
    load-Reps stale (Tree.tree kv l MaybeLink.unlinked) (Model.bin mk mv ml mr) false i h e = cc
    load-Reps stale (Tree.tree kv l (MaybeLink.linked (Link.modified n hs c)))
          (Model.bin mk mv ml mr) false i h e =
        cc
    load-Reps stale (Tree.tree kv l (MaybeLink.linked (Link.uncommitted x hs c)))
          (Model.bin mk mv ml mr) false i h e =
        cc
    load-Reps stale (Tree.tree kv l (MaybeLink.linked (Link.loaded x hs c))) (Model.bin mk mv ml mr)
          false i h e =
        cc
