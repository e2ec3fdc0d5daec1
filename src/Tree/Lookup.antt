-- ===== src/Tree/Lookup.antt =====
-- `Tree::get_value` of src/tree/mod.rs: the search for a key along the links.
use Prim.Native.Nat.{Ordering}
use merk.Prelude.{
  ◌≡◌, refl, ◌⊎◌, inl, inr, Bool, true, false, List, ◌∷◌, ◌++◌, Option, none, some, ◌&&◌,
  if◌then◌else◌,
}
use merk.Bytes.{Bytes, cmp, lt_bytes, eq_bytes}
use merk.Bytes.Order.{
  lt_of_gt, eq_of_cmp, eq_bytes-false, eq_bytes-false', lt_bytes-true, lt_bytes-false,
  eq_bytes_refl,
}
use merk.Hash.{Hasher}
use merk.Model.Find.{find_before, find_after, find_at, IsSorted-left, IsSorted-right}
use merk.Model.{Model, Entry, entries, find, IsSorted}
use merk.Tree.{Tree, MaybeLink, Link}
use merk.Tree.Reps.{RepsTree, RepsLink}

pub data GetResult : Type 0 where
  found : Bytes → GetResult
  pruned : GetResult
  not_found : GetResult

-- The loop moves a cursor down; here it is a recursion on the tree.
abbrev mutual
  pub get_value : Tree → Bytes → GetResult
  get_value (Tree.tree kv l r) q =
      let left = get_link l q in
      let right = get_link r q in
      if eq_bytes q kv.key
      then GetResult.found kv.value
      else if lt_bytes q kv.key
      then left
      else right

  pub get_link : MaybeLink → Bytes → GetResult
  get_link MaybeLink.unlinked q = GetResult.not_found
  get_link (MaybeLink.linked (Link.reference h hs k)) q = GetResult.pruned
  get_link (MaybeLink.linked (Link.modified n hs t)) q = get_value t q
  get_link (MaybeLink.linked (Link.uncommitted h hs t)) q = get_value t q
  get_link (MaybeLink.linked (Link.loaded h hs t)) q = get_value t q

abbrev pub answer_of : Option Bytes → GetResult
answer_of none = GetResult.not_found
answer_of (some v) = GetResult.found v

-- no link is a reference
abbrev mutual
  pub in_memory : Tree → Bool
  in_memory (Tree.tree kv l r) = in_memory_link l && in_memory_link r

  pub in_memory_link : MaybeLink → Bool
  in_memory_link MaybeLink.unlinked = true
  in_memory_link (MaybeLink.linked (Link.reference h hs k)) = false
  in_memory_link (MaybeLink.linked (Link.modified n hs t)) = in_memory t
  in_memory_link (MaybeLink.linked (Link.uncommitted h hs t)) = in_memory t
  in_memory_link (MaybeLink.linked (Link.loaded h hs t)) = in_memory t

-- what a search may say about a key of the list; with `whole` it may not give up
abbrev pub Answers : Bool → GetResult → Option Bytes → Type 0
Answers whole g o = (g ≡ answer_of o) ⊎ ((whole ≡ false) × (g ≡ GetResult.pruned))

Answers-left :
    (a b : Bool) (g : GetResult) (o : Option Bytes) → Answers a g o → Answers (a && b) g o
Answers-left a b g o (inl e) = inl e
Answers-left true b g o (inr (e, p)) = cc
Answers-left false b g o (inr (e, p)) = inr (refl, p)

Answers-right :
    (a b : Bool) (g : GetResult) (o : Option Bytes) → Answers b g o → Answers (a && b) g o
Answers-right a b g o (inl e) = inl e
Answers-right true b g o (inr (e, p)) = inr (e, p)
Answers-right false b g o (inr (e, p)) = inr (refl, p)

-- One step of the search, from the answers of the children.
node-Answers :
    (q k v : Bytes) (a b : Bool) (x y : GetResult) (xs ys : List Entry)
    → IsSorted (xs ++ ((k, v) ∷ ys))
    → Answers a x (find q xs)
    → Answers b y (find q ys)
    → (o : Ordering) → cmp q k ≡ o
    → Answers
        (a && b)
        (if eq_bytes q k then GetResult.found v else if lt_bytes q k then x else y)
        (find q (xs ++ ((k, v) ∷ ys)))
node-Answers q k v a b x y xs ys s hx hy Ordering.lt o =
    rw (find_before q xs (k, v) ys s o, eq_bytes-false q k o, lt_bytes-true q k o)
      (Answers-left a b x (find q xs) hx)
node-Answers q k v a b x y xs ys s hx hy Ordering.eq o =
    rw (eq_of_cmp q k o, eq_bytes_refl k, find_at xs k v ys s) (inl refl)
node-Answers q k v a b x y xs ys s hx hy Ordering.gt o =
    let below = lt_of_gt q k o in
    rw (find_after q xs (k, v) ys s below, eq_bytes-false' k q below, lt_bytes-false k q below)
      (Answers-right a b y (find q ys) hy)

module _ ⦃hasher : Hasher⦄ where
  mutual
    get_value-Answers :
        (stale : Bool) (t : Tree) (m : Model) (q : Bytes)
        → IsSorted (entries m)
        → RepsTree stale t m
        → Answers (in_memory t) (get_value t q) (find q (entries m))
    get_value-Answers stale (Tree.tree kv l r) Model.leaf q s e = elim e [ ]
    get_value-Answers stale (Tree.tree kv l r) (Model.bin k v ml mr) q s e =
        rw (e.0, e.1)
          (node-Answers q k v (in_memory_link l) (in_memory_link r) (get_link l q) (get_link r q)
            (entries ml) (entries mr) s
            (get_link-Answers stale l ml q (IsSorted-left (entries ml) ((k, v) ∷ entries mr) s) e.3)
            (get_link-Answers stale r mr q (IsSorted-right (entries ml) ((k, v) ∷ entries mr) s).1
              e.4)
            (cmp q k) refl)

    get_link-Answers :
        (stale : Bool) (l : MaybeLink) (m : Model) (q : Bytes)
        → IsSorted (entries m)
        → RepsLink stale l m
        → Answers (in_memory_link l) (get_link l q) (find q (entries m))
    get_link-Answers stale MaybeLink.unlinked m q s e = rw e (inl refl)
    get_link-Answers stale (MaybeLink.linked (Link.reference h hs k)) m q s e = inr (refl, refl)
    get_link-Answers stale (MaybeLink.linked (Link.uncommitted h hs t)) m q s e = elim e [ ]
    get_link-Answers stale (MaybeLink.linked (Link.modified n hs t)) m q s e =
        get_value-Answers true t m q s e.2
    get_link-Answers stale (MaybeLink.linked (Link.loaded h hs t)) m q s e =
        get_value-Answers false t m q s e.2

  -- On a tree that stands for a model with increasing keys, the search finds what the model holds
  -- under the key; only where a part of the tree is pruned may it answer `Pruned` instead.
  pub get_value-find :
      (t : Tree) (m : Model) (q : Bytes)
      → IsSorted (entries m)
      → RepsTree true t m
      → Answers (in_memory t) (get_value t q) (find q (entries m))
  get_value-find t m q s e = get_value-Answers true t m q s e
