-- ===== src/Tree/Iter.antt =====
-- src/tree/iter.rs: the iterator over the nodes in memory. Its stack is a list, the top first.
use mathlib.Core.Path.{subst}
use merk.Prelude.{
  ℕ, zero, suc, ◌≡◌, refl, sym, ap, ◌∙◌, Bool, true, false, List, [], ◌∷◌, ◌++◌, Option, none, some,
  append_assoc, append-nil,
}
use merk.Outcome.{Result, ok, panic, ◌>>=◌}
use merk.Model.{Entry}
use merk.Tree.{Tree, MaybeLink, Link, kv_of, link, taken, expect}

-- `Tree::child`
abbrev pub tree_child : Tree → Bool → Option Tree
tree_child t left = taken (link t left)

-- `StackItem`, and whether the left child, the node and the right child were visited
pub record StackItem : Type 0 where
  pub tree : Tree
  pub left : Bool
  pub self : Bool
  pub right : Bool

abbrev pub is_none : Option Tree → Bool
is_none none = true
is_none (some t) = false

-- `StackItem::new`, `StackItem::to_entry`
abbrev pub new_item : Tree → StackItem
new_item t = record {
  tree = t;
  left = is_none (tree_child t true);
  self = false;
  right = is_none (tree_child t false);
}

abbrev pub to_entry : StackItem → Entry
to_entry item = ((kv_of item.tree).key, (kv_of item.tree).value)

-- `Iter::new`
abbrev pub iter : Tree → List StackItem
iter t = new_item t ∷ []

-- One pass through the body of `next` on the top of the stack, which recurses where nothing is
-- yielded.
abbrev pub visit_child : Bool → StackItem → List StackItem → Result (Option Entry × List StackItem)
visit_child left item stack = do
  t ← expect (tree_child item.tree left)
  ok (none, new_item t ∷ item ∷ stack)

abbrev pub turn_at :
    Bool → Bool → Bool → Tree → List StackItem → Result (Option Entry × List StackItem)
turn_at false self right t stack =
    visit_child true (record { tree = t; left = true; self = self; right = right }) stack
turn_at true false right t stack =
    let item : StackItem = record { tree = t; left = true; self = true; right = right } in
    ok (some (to_entry item), item ∷ stack)
turn_at true true false t stack =
    visit_child false (record { tree = t; left = true; self = true; right = true }) stack
turn_at true true true t stack = ok (none, stack)

abbrev pub turn : StackItem → List StackItem → Result (Option Entry × List StackItem)
turn item stack = turn_at item.left item.self item.right item.tree stack

-- what `next` does after a pass
abbrev pub go_on :
    (List StackItem → Result (Option Entry × List StackItem))
    → Option Entry × List StackItem
    → Result (Option Entry × List StackItem)
go_on again (none, stack) = again stack
go_on again (some entry, stack) = ok (some entry, stack)

-- Without fuel it panics.
unfoldable pub next : ℕ → List StackItem → Result (Option Entry × List StackItem)
next zero stack = panic
next (suc fuel) [] = ok (none, [])
next (suc fuel) (item ∷ stack) = turn item stack >>= go_on (next fuel)

-- Calls of `next`, each with some fuel, that yield the entries one by one, and then nothing.
pub data Drains : List StackItem → List Entry → Type 0 where
  stop : {stack : List StackItem} (fuel : ℕ) → next fuel stack ≡ ok (none, []) → Drains stack []
  more :
      {stack stack' : List StackItem} {entry : Entry} {entries : List Entry} (fuel : ℕ)
      → next fuel stack ≡ ok (some entry, stack')
      → Drains stack' entries
      → Drains stack (entry ∷ entries)

-- the entries of the nodes in memory, from left to right
abbrev mutual
  pub retained : Tree → List Entry
  retained (Tree.tree kv l r) = retained_link l ++ ((kv.key, kv.value) ∷ retained_link r)

  pub retained_link : MaybeLink → List Entry
  retained_link MaybeLink.unlinked = []
  retained_link (MaybeLink.linked (Link.reference h hs k)) = []
  retained_link (MaybeLink.linked (Link.modified n hs t)) = retained t
  retained_link (MaybeLink.linked (Link.uncommitted h hs t)) = retained t
  retained_link (MaybeLink.linked (Link.loaded h hs t)) = retained t

Drains-quiet :
    (item : StackItem) (stack stack' : List StackItem) (es : List Entry)
    → turn item stack ≡ ok (none, stack')
    → Drains stack' es
    → Drains (item ∷ stack) es
unfolding next
Drains-quiet item stack stack' es e (Drains.stop fuel d) = Drains.stop (suc fuel) (rw e d)
Drains-quiet item stack stack' es e (Drains.more fuel d ds) = Drains.more (suc fuel) (rw e d) ds

Drains-yield :
    (item : StackItem) (stack stack' : List StackItem) (entry : Entry) (es : List Entry)
    → turn item stack ≡ ok (some entry, stack')
    → Drains stack' es
    → Drains (item ∷ stack) (entry ∷ es)
unfolding next
Drains-yield item stack stack' entry es e d = Drains.more 1 (rw e refl) d

-- what a node in memory adds to what the rest of the stack yields
abbrev Adds : Tree → Type 0
Adds t =
    (stack : List StackItem) (es : List Entry)
    → Drains stack es
    → Drains (new_item t ∷ stack) (retained t ++ es)

abbrev retained_of : Option Tree → List Entry
retained_of none = []
retained_of (some c) = retained c

retained_link-taken : (l : MaybeLink) → retained_link l ≡ retained_of (taken l)
retained_link-taken MaybeLink.unlinked = refl
retained_link-taken (MaybeLink.linked (Link.reference h hs k)) = refl
retained_link-taken (MaybeLink.linked (Link.modified n hs t)) = refl
retained_link-taken (MaybeLink.linked (Link.uncommitted h hs t)) = refl
retained_link-taken (MaybeLink.linked (Link.loaded h hs t)) = refl

-- the same for a child that may not be there
abbrev AddsChild : Option Tree → Type 0
AddsChild none = Unit
AddsChild (some c) = Adds c

module _ (t : Tree) (stack : List StackItem) where
  abbrev at_item : Bool → Bool → Bool → List StackItem
  at_item left self right = record { tree = t; left = left; self = self; right = right } ∷ stack

  done_item : (es : List Entry) → Drains stack es → Drains (at_item true true true) es
  done_item es d =
      Drains-quiet (record { tree = t; left = true; self = true; right = true }) stack stack es refl
        d

  right_child :
      (r : Option Tree) (es : List Entry)
      → tree_child t false ≡ r
      → AddsChild r
      → Drains stack es
      → Drains (at_item true true (is_none r)) (retained_of r ++ es)
  right_child none es e adds d = done_item es d
  right_child (some c) es e adds d =
      Drains-quiet (record { tree = t; left = true; self = true; right = false }) stack
        (new_item c ∷ at_item true true true) (retained c ++ es) (rw e refl)
        (adds (at_item true true true) es (done_item es d))

  left_child :
      (l : Option Tree) (right : Bool) (es : List Entry)
      → tree_child t true ≡ l
      → AddsChild l
      → Drains (at_item true false right) es
      → Drains (at_item (is_none l) false right) (retained_of l ++ es)
  left_child none right es e adds d = d
  left_child (some c) right es e adds d =
      Drains-quiet (record { tree = t; left = false; self = false; right = right }) stack
        (new_item c ∷ at_item true false right) (retained c ++ es) (rw e refl)
        (adds (at_item true false right) es d)

mutual
  tree-Adds : (t : Tree) → Adds t
  tree-Adds (Tree.tree kv l r) stack es d =
      let t = Tree.tree kv l r in
      let behind = right_child t stack (taken r) es refl (link-Adds r) d in
      let here =
        Drains-yield (record { tree = t; left = true; self = false; right = is_none (taken r) })
          stack _ (kv.key, kv.value) _ refl behind in
      let whole = left_child t stack (taken l) (is_none (taken r)) _ refl (link-Adds l) here in
      subst (λ xs. Drains (new_item t ∷ stack) xs)
        (sym (
          append_assoc (retained_link l) ((kv.key, kv.value) ∷ retained_link r) es
          ∙ ap (λ xs. xs ++ ((kv.key, kv.value) ∷ (retained_link r ++ es))) (retained_link-taken l)
          ∙ ap (λ xs. retained_of (taken l) ++ ((kv.key, kv.value) ∷ (xs ++ es)))
              (retained_link-taken r)))
        whole

  link-Adds : (l : MaybeLink) → AddsChild (taken l)
  link-Adds MaybeLink.unlinked = tt
  link-Adds (MaybeLink.linked (Link.reference h hs k)) = tt
  link-Adds (MaybeLink.linked (Link.modified n hs t)) = tree-Adds t
  link-Adds (MaybeLink.linked (Link.uncommitted h hs t)) = tree-Adds t
  link-Adds (MaybeLink.linked (Link.loaded h hs t)) = tree-Adds t

-- The iterator of a tree terminates: calls of `next`, each with enough fuel, yield the entries of
-- the nodes in memory, each once and from left to right, and then nothing; pruned subtrees are
-- skipped, and no `unwrap` panics.
pub iter-Drains : (t : Tree) → Drains (iter t) (retained t)
unfolding next
iter-Drains t =
    subst (λ xs. Drains (iter t) xs) (append-nil (retained t))
      (tree-Adds t [] [] (Drains.stop 1 refl))
