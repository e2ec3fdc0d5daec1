-- ===== src/Tree/Commit.antt =====
-- `Tree::commit` of src/tree/mod.rs, and the trait of src/tree/commit.rs.
pub mod Refresh
use merk.Prelude.{ℕ, Bool, true, false}
use merk.Outcome.{Result, ok, panic, ◌>>=◌}
use merk.Hash.{Hasher}
use merk.Tree.{Tree, MaybeLink, Link, into_reference, hash}

-- The trait `Commit`; `write` takes `&mut self`, so it returns the new state.
pub record Commit (C : Type 0) : Type 0 where
  pub write : Tree → C → Result C
  pub prune : Tree → C → Bool × Bool

-- `NoopCommit`
unfoldable pub noop_commit : Commit (Unit {0})
noop_commit = record { write = λ t c. ok c; prune = λ t c. (false, false) }

-- `take().map(|link| link.into_reference())`
abbrev pub prune_slot : Bool → MaybeLink → Result MaybeLink
prune_slot true (MaybeLink.linked l) = do l' ← into_reference l; ok (MaybeLink.linked l')
prune_slot true MaybeLink.unlinked = ok MaybeLink.unlinked
prune_slot false l = ok l

module _ ⦃hasher : Hasher⦄ {C : Type 0} (c : Commit C) where
  -- the node itself, once its links are committed
  abbrev pub commit_node : Tree → C → Result (Tree × C)
  commit_node (Tree.tree kv l r) s = do
    s' ← c.write (Tree.tree kv l r) s
    l' ← prune_slot (c.prune (Tree.tree kv l r) s').0 l
    r' ← prune_slot (c.prune (Tree.tree kv l r) s').1 r
    ok (Tree.tree kv l' r', s')

  -- a `Modified` link whose tree was committed becomes `Loaded`
  abbrev pub reload : ℕ × ℕ → Tree × C → Result (MaybeLink × C)
  reload hs (t, s) = do h ← hash t; ok (MaybeLink.linked (Link.loaded h hs t), s)

  abbrev mutual
    pub commit : Tree → C → Result (Tree × C)
    commit (Tree.tree kv l r) s = commit_slot l s >>= λ (l', s₁).
        commit_slot r s₁ >>= λ (r', s₂). commit_node (Tree.tree kv l' r') s₂

    pub commit_slot : MaybeLink → C → Result (MaybeLink × C)
    commit_slot (MaybeLink.linked (Link.modified n hs t)) s = commit t s >>= reload hs
    commit_slot MaybeLink.unlinked s = ok (MaybeLink.unlinked, s)
    commit_slot (MaybeLink.linked (Link.reference h hs k)) s =
        ok (MaybeLink.linked (Link.reference h hs k), s)
    commit_slot (MaybeLink.linked (Link.uncommitted h hs t)) s =
        ok (MaybeLink.linked (Link.uncommitted h hs t), s)
    commit_slot (MaybeLink.linked (Link.loaded h hs t)) s =
        ok (MaybeLink.linked (Link.loaded h hs t), s)
