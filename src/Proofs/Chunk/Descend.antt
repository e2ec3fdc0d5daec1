-- ===== src/Proofs/Chunk/Descend.antt =====
-- A walk to a child and a call on its walker, for a tree with fresh links.
use merk.Prelude.{ℕ, ◌≡◌, refl, sym, ap, Bool, true, false, none, some}
use merk.Bytes.{Bytes}
use merk.Outcome.{Result, ok}
use merk.Hash.{Hasher}
use merk.Model.{Model, root_hash}
use merk.Proofs.Chunk.{is_linked, with_child}
use merk.Proofs.Query.Create.{ref_walk}
use merk.Proofs.Query.Create.Program.{Stored}
use merk.Proofs.Query.Create.Walk.{link-set_link, set_link-same, set_link-set_link}
use merk.Tree.{Tree, MaybeLink, Link, link}
use merk.Tree.Load.{Fetch, load, set_link}
use merk.Tree.Reps.{RepsTree, RepsLink, heights_of}

abbrev pub is_bin : Model → Bool
is_bin Model.leaf = false
is_bin (Model.bin k v l r) = true

module _ ⦃hasher : Hasher⦄ where
  pub is_linked-RepsLink : (l : MaybeLink) (m : Model) → RepsLink false l m → is_linked l ≡ is_bin m
  is_linked-RepsLink MaybeLink.unlinked m e = rw e refl
  is_linked-RepsLink (MaybeLink.linked (Link.reference h hs k)) Model.leaf e = elim e.2 [ ]
  is_linked-RepsLink (MaybeLink.linked (Link.reference h hs k)) (Model.bin k' v l r) e = refl
  is_linked-RepsLink (MaybeLink.linked (Link.modified n hs t)) m e = cc
  is_linked-RepsLink (MaybeLink.linked (Link.uncommitted h hs t)) m e = elim e [ ]
  is_linked-RepsLink (MaybeLink.linked (Link.loaded h hs (Tree.tree kv x y))) Model.leaf e =
      elim e.2 [ ]
  is_linked-RepsLink (MaybeLink.linked (Link.loaded h hs t)) (Model.bin k v l r) e = refl

module _ ⦃hasher : Hasher⦄ (source : Fetch) where
  -- A child that a walk has reached, and what a call on its walker leaves behind.
  pub record Reached (t : Tree) (left : Bool) (m : Model) : Type 1 where
    pub here : Tree
    pub child : Tree
    pub walks : ref_walk source t left ≡ ok (here, some child)
    pub fresh : RepsTree false child m
    pub back :
        {X : Type 0} (call : Tree → Result (Tree × X)) (c : Tree) (x : X)
        → call child ≡ ok (c, x)
        → RepsTree false c m
        → (l : MaybeLink) × (with_child source call left here child
            ≡ ok (set_link source t left l, x))
          × RepsLink false l m

  -- the child is in memory
  loaded-Reached :
      (t : Tree) (left : Bool) (h : Bytes) (hs : ℕ × ℕ) (c : Tree) (m : Model)
      → h ≡ root_hash m
      → hs ≡ heights_of m
      → RepsTree false c m
      → ref_walk source t left
        ≡ ok (set_link source t left (MaybeLink.linked (Link.loaded h hs c)), some c)
      → Reached t left m
  loaded-Reached t left h hs c m eh es f walks = record {
    here = set_link source t left (MaybeLink.linked (Link.loaded h hs c));
    child = c;
    walks = walks;
    fresh = f;
    back = λ call c' x made f'. (
      MaybeLink.linked (Link.loaded h hs c'),
      rw
          (
            made,
            link-set_link source t left (MaybeLink.linked (Link.loaded h hs c)),
            set_link-set_link source t left (MaybeLink.linked (Link.loaded h hs c)),
          )
          refl,
      (eh, es, f'),
    );
  }

  pub walk-Reached :
      (t : Tree) (left : Bool) (l : MaybeLink) (k v : Bytes) (ml mr : Model)
      → link t left ≡ l
      → RepsLink false l (Model.bin k v ml mr)
      → Stored source (Model.bin k v ml mr)
      → Reached t left (Model.bin k v ml mr)
  unfolding ref_walk load
  walk-Reached t left MaybeLink.unlinked k v ml mr e f s = cc
  walk-Reached t left (MaybeLink.linked (Link.reference h hs k')) k v ml mr e f s =
      let (c, stored, fresh) = s.0 in
      let held : source.fetch_by_key k' ≡ ok (some c) = rw (← f.2) stored in
      let loads : load source t left
          ≡ ok (set_link source t left (MaybeLink.linked (Link.loaded h hs c))) =
        rw (e, held) refl in
      loaded-Reached t left h hs c (Model.bin k v ml mr) f.0 f.1 fresh
        (rw (e, loads, link-set_link source t left (MaybeLink.linked (Link.loaded h hs c))) refl)
  walk-Reached t left (MaybeLink.linked (Link.modified n hs c)) k v ml mr e f s = cc
  walk-Reached t left (MaybeLink.linked (Link.uncommitted h hs c)) k v ml mr e f s = elim f [ ]
  walk-Reached t left (MaybeLink.linked (Link.loaded h hs c)) k v ml mr e f s =
      let same = sym (set_link-same source t left (MaybeLink.linked (Link.loaded h hs c)) e) in
      loaded-Reached t left h hs c (Model.bin k v ml mr) f.0 f.1 f.2
        (rw (e, e) (ap (λ t. ok (t, some c)) same))

  -- there is no child
  pub walk_nowhere :
      (t : Tree) (left : Bool) (l : MaybeLink)
      → link t left ≡ l
      → RepsLink false l Model.leaf
      → ref_walk source t left ≡ ok (t, none)
  unfolding ref_walk
  walk_nowhere t left MaybeLink.unlinked e f = rw (e, e) refl
  walk_nowhere t left (MaybeLink.linked (Link.reference h hs k')) e f = elim f.2 [ ]
  walk_nowhere t left (MaybeLink.linked (Link.modified n hs c)) e f = cc
  walk_nowhere t left (MaybeLink.linked (Link.uncommitted h hs c)) e f = elim f [ ]
  walk_nowhere t left (MaybeLink.linked (Link.loaded h hs (Tree.tree kv x y))) e f = elim f.2 [ ]
