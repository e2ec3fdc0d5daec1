-- ===== src/Tree/Ops/Settle.antt =====
-- `maybe_balance` on a node: it stays, it is rotated, or its higher child is rotated first.
use merk.Prelude.{ℕ, suc, ◌^◌, ◌<◌, ◌≤◌, ◌≡◌, refl, ap, ◌∙◌, Bool, true, false, not, some, arith}
use merk.Bytes.{Bytes}
use merk.Outcome.{Result, ok, ◌>>=◌}
use merk.Hash.{Hasher}
use merk.Model
use merk.Model.{Model, entries}
use merk.Tree.{Tree, MaybeLink, Link, link}
use merk.Tree.Load.{Fetch}
use merk.Tree.Reps.{RepsLink, child_height-Reps}
use merk.Tree.Walker.{walker_walk_expect}
use merk.Tree.Ops.{
  maybe_balance, rotate, factor, balance_factor, link_balance_factor, is_balanced, is_negative,
  is_positive, same_bool,
}
use merk.Tree.Ops.Fetched.{Over}
use merk.Tree.Ops.Side.{node, leans, factor_quiet, factor_left, factor_right}
use merk.Tree.Ops.Turn.{Settles, Turns, expected, near, near_attach, some_child}

module _ (source : Fetch) where
  -- one round of `maybe_balance`
  abbrev settle : (Tree → Bool → Result Tree) → Tree → Bool → Bool → Result Tree
  settle turn t balanced left = elim balanced [
    | true ↦ ok t
    | false ↦ link_balance_factor (link t left) >>= λ b. elim (same_bool left (is_positive b)) [
      | true ↦
          walker_walk_expect source t left (λ c. turn c (not left) >>= λ c'. ok (some c')) >>= λ t'.
          turn t' left
      | false ↦ turn t left
    ]
  ]

  maybe_balance-settle :
      (n : ℕ) (t : Tree) (balanced left : Bool)
      → is_balanced (balance_factor t) ≡ balanced
      → is_negative (balance_factor t) ≡ left
      → maybe_balance source (suc n) t ≡ settle (rotate source n) t balanced left
  unfolding maybe_balance
  maybe_balance-settle n t balanced left e side =
      rounds (is_balanced (balance_factor t)) balanced e (is_negative (balance_factor t)) left side
    where
      rounds :
          (b b' : Bool)
          → b ≡ b'
          → (l l' : Bool) → l ≡ l'
          → settle (rotate source n) t b l ≡ settle (rotate source n) t b' l'
      rounds b b' e l l' e' =
          ap (settle (rotate source n) t b) e' ∙ ap (λ b. settle (rotate source n) t b l') e

module _ (source : Fetch) ⦃hasher : Hasher⦄ where
  link_factor :
      (l : MaybeLink) (k v : Bytes) (a b : Model)
      → RepsLink true l (Model.bin k v a b)
      → link_balance_factor l ≡ ok (factor (Model.height a) (Model.height b))
  link_factor MaybeLink.unlinked k v a b e = cc
  link_factor (MaybeLink.linked (Link.reference h hs x)) k v a b e = rw e.1 refl
  link_factor (MaybeLink.linked (Link.modified n hs t)) k v a b e = rw e.1 refl
  link_factor (MaybeLink.linked (Link.uncommitted h hs t)) k v a b e = elim e [ ]
  link_factor (MaybeLink.linked (Link.loaded h hs t)) k v a b e = rw e.1 refl

  factor-Over :
      (t : Tree) (k v : Bytes) (a b : Model)
      → Model.height a < 128
      → Model.height b < 128
      → Over source t (Model.bin k v a b)
      → balance_factor t ≡ factor (Model.height a) (Model.height b)
  factor-Over (Tree.tree kv l r) k v a b ha hb o =
      rw
        (
          child_height-Reps true l a (omega arith) o.reps.3,
          child_height-Reps true r b (omega arith) o.reps.4,
        )
        refl

  -- a node that is not out of balance stays
  pub quiet :
      (n : ℕ) (left : Bool) (k v : Bytes) (a b : Model)
      → Model.height a < 128
      → Model.height b < 128
      → Model.height a ≤ suc (Model.height b)
      → Model.height b ≤ suc (Model.height a)
      → Settles source (suc n) (node left k v a b) (node left k v a b)
  quiet n true k v a b ha hb l r t o = (
    t,
    maybe_balance-settle source n t true _
        (ap is_balanced (factor-Over t k v a b ha hb o) ∙ factor_quiet _ _ ha hb l r) refl,
    o,
  )
  quiet n false k v a b ha hb l r t o = (
    t,
    maybe_balance-settle source n t true _
        (ap is_balanced (factor-Over t k v b a hb ha o) ∙ factor_quiet _ _ hb ha r l) refl,
    o,
  )

  -- what `maybe_balance` reads of a node that is heavy on one side
  record Heavy (t : Tree) (left : Bool) (outer inner : ℕ) : Type 0 where
    factor_of : ℕ
    unbalanced : is_balanced (balance_factor t) ≡ false
    side : is_negative (balance_factor t) ≡ left
    child_factor : link_balance_factor (link t left) ≡ ok factor_of
    lean : same_bool left (is_positive factor_of) ≡ leans left outer inner

  node-Heavy :
      (left : Bool) (t : Tree) (k v k2 v2 : Bytes) (a b c : Model)
      → Model.height (node left k2 v2 a b) < 128
      → suc (Model.height c) < Model.height (node left k2 v2 a b)
      → Over source t (node left k v (node left k2 v2 a b) c)
      → Heavy t left (Model.height a) (Model.height b)
  node-Heavy true (Tree.tree kv l r) k v k2 v2 a b c h d o =
      let e = factor-Over (Tree.tree kv l r) k v (Model.bin k2 v2 a b) c h (omega arith) o in
      let (u, s) =
        factor_left (Model.height (Model.bin k2 v2 a b)) (Model.height c) h (omega arith) d in
      record {
        factor_of = factor (Model.height a) (Model.height b);
        unbalanced = rw e u;
        side = rw e s;
        child_factor = link_factor l k2 v2 a b o.reps.3;
        lean = refl;
      }
  node-Heavy false (Tree.tree kv l r) k v k2 v2 a b c h d o =
      let e = factor-Over (Tree.tree kv l r) k v c (Model.bin k2 v2 b a) (omega arith) h o in
      let (u, s) =
        factor_right (Model.height c) (Model.height (Model.bin k2 v2 b a)) (omega arith) h d in
      record {
        factor_of = factor (Model.height b) (Model.height a);
        unbalanced = rw e u;
        side = rw e s;
        child_factor = link_factor r k2 v2 b a o.reps.4;
        lean = refl;
      }

  -- a heavy node turns once, or its child turns first
  pub single :
      (n : ℕ) (left : Bool) (k v k2 v2 : Bytes) (a b c out : Model)
      → Model.height (node left k2 v2 a b) < 128
      → suc (Model.height c) < Model.height (node left k2 v2 a b)
      → leans left (Model.height a) (Model.height b) ≡ false
      → Turns source n left (node left k v (node left k2 v2 a b) c) out
      → Settles source (suc n) (node left k v (node left k2 v2 a b) c) out
  single n left k v k2 v2 a b c out h d lean turned t o =
      let w = node-Heavy left t k v k2 v2 a b c h d o in
      let (t', ran, over) = turned t o in
      let lean_of = w.lean ∙ lean in
      (
        t',
        rw
            (
              maybe_balance-settle source n t false left w.unbalanced w.side,
              w.child_factor,
              ◌>>=◌,
              lean_of,
            )
            ran,
        over,
      )

  pub double :
      (n : ℕ) (left : Bool) (k v k2 v2 : Bytes) (a b c c' out : Model)
      → Model.height (node left k2 v2 a b) < 128
      → suc (Model.height c) < Model.height (node left k2 v2 a b)
      → leans left (Model.height a) (Model.height b) ≡ true
      → Model.height c' < 2 ^ 8
      → Turns source n (not left) (node left k2 v2 a b) c'
      → Turns source n left (node left k v c' c) out
      → Settles source (suc n) (node left k v (node left k2 v2 a b) c) out
  unfolding walker_walk_expect
  double n left k v k2 v2 a b c c' out h d lean h' first second t o =
      let w = node-Heavy left t k v k2 v2 a b c h d o in
      let (parent, inner, gone, free, rest, taken) =
        near source left t k v (node left k2 v2 a b) c o in
      let (top, is_some, over) = some_child source left inner k2 v2 a b taken in
      let (top', ran, over') = first top over in
      let (t1, put, over1) =
        near_attach source left parent (some top') k v c' c free h' rest over' in
      let (t', ran', over_out) = second t1 over1 in
      let found = expected source t parent top left inner gone is_some in
      let lean_of = w.lean ∙ lean in
      let step = maybe_balance-settle source n t false left w.unbalanced w.side in
      (t', rw (step, w.child_factor, ◌>>=◌, lean_of, found, ran, put) ran', over_out)
