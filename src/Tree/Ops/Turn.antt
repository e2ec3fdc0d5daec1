-- ===== src/Tree/Ops/Turn.antt =====
-- `rotate` on a node that is higher on one side, by what `maybe_balance` does to its parts.
use merk.Prelude.{ℕ, suc, ◌^◌, ◌<◌, ◌≡◌, refl, Bool, true, false, not, Option, some, none}
use merk.Bytes.{Bytes}
use merk.Outcome.{Result, ok, ◌>>=◌}
use merk.Hash.{Hasher}
use merk.Model
use merk.Model.{Model, entries}
use merk.Tree.{Tree, MaybeLink, link, attach}
use merk.Tree.Attach.{child}
use merk.Tree.Load.{Fetch}
use merk.Tree.Walker.{walker_detach, walker_detach_expect}
use merk.Tree.Ops.{maybe_balance, rotate}
use merk.Tree.Ops.Fetched.{Over, OverOption, detach-Parted, attach-Over}
use merk.Tree.Ops.Side.{node}

module _ (source : Fetch) where
  -- one round of `rotate`
  abbrev swap : (Tree → Result Tree) → Tree → Bool → Result Tree
  swap balance t left = do
    (parent, child) ← walker_detach_expect source t left
    (child', grandchild) ← walker_detach source child (not left)
    parent' ← attach parent left grandchild
    parent'' ← balance parent'
    child'' ← attach child' (not left) (some parent'')
    balance child''

  rotate-swap :
      (n : ℕ) (t : Tree) (left : Bool)
      → rotate source (suc n) t left ≡ swap (maybe_balance source n) t left
  unfolding maybe_balance
  rotate-swap n t left = refl

  pub expected :
      (t parent top : Tree) (left : Bool) (c : Option Tree)
      → walker_detach source t left ≡ ok (parent, c)
      → c ≡ some top
      → walker_detach_expect source t left ≡ ok (parent, top)
  unfolding walker_detach_expect
  expected t parent top left c e is_some = rw (e, is_some) refl

module _ (source : Fetch) ⦃hasher : Hasher⦄ where
  -- what `maybe_balance` and `rotate` make of each tree over a model
  abbrev pub Settles : ℕ → Model → Model → Type 0
  Settles n m out =
      (t : Tree)
      → Over source t m
      → (t' : Tree) × (maybe_balance source n t ≡ ok t') × Over source t' out

  abbrev pub Turns : ℕ → Bool → Model → Model → Type 0
  Turns n left m out =
      (t : Tree)
      → Over source t m
      → (t' : Tree) × (rotate source n t left ≡ ok t') × Over source t' out

  -- the walker and the sides of a node
  abbrev pub Detached : Tree → Bool → Model → Model → Type 0
  Detached t side rest a =
      (parent : Tree) × (c : Option Tree) × (walker_detach source t side ≡ ok (parent, c))
      × (link parent side ≡ MaybeLink.unlinked)
      × Over source parent rest
      × OverOption source c a

  pub near :
      (left : Bool) (t : Tree) (k v : Bytes) (a b : Model)
      → Over source t (node left k v a b)
      → Detached t left (node left k v Model.leaf b) a
  near true t k v a b o =
      let d = detach-Parted source t (Model.bin k v a b) true o in
      (d.parent, d.inner, d.detaches, d.free, d.rest, d.taken)
  near false t k v a b o =
      let d = detach-Parted source t (Model.bin k v b a) false o in
      (d.parent, d.inner, d.detaches, d.free, d.rest, d.taken)

  far :
      (left : Bool) (t : Tree) (k v : Bytes) (a b : Model)
      → Over source t (node left k v a b)
      → Detached t (not left) (node left k v a Model.leaf) b
  far true t k v a b o = near false t k v b a o
  far false t k v a b o = near true t k v b a o

  abbrev pub Attached : Tree → Bool → Option Tree → Model → Type 0
  Attached t side c m = (t' : Tree) × (attach t side c ≡ ok t') × Over source t' m

  pub near_attach :
      (left : Bool) (t : Tree) (c : Option Tree) (k v : Bytes) (a b : Model)
      → link t left ≡ MaybeLink.unlinked
      → Model.height a < 2 ^ 8
      → Over source t (node left k v Model.leaf b)
      → OverOption source c a
      → Attached t left c (node left k v a b)
  near_attach true t c k v a b free h o oc =
      attach-Over source t (Model.bin k v Model.leaf b) true c a free h o oc
  near_attach false t c k v a b free h o oc =
      attach-Over source t (Model.bin k v b Model.leaf) false c a free h o oc

  far_attach :
      (left : Bool) (t : Tree) (c : Option Tree) (k v : Bytes) (a b : Model)
      → link t (not left) ≡ MaybeLink.unlinked
      → Model.height b < 2 ^ 8
      → Over source t (node left k v a Model.leaf)
      → OverOption source c b
      → Attached t (not left) c (node left k v a b)
  far_attach true t c k v a b free h o oc = near_attach false t c k v b a free h o oc
  far_attach false t c k v a b free h o oc = near_attach true t c k v b a free h o oc

  pub some_child :
      (left : Bool) (c : Option Tree) (k v : Bytes) (a b : Model)
      → OverOption source c (node left k v a b)
      → (t : Tree) × (c ≡ some t) × Over source t (node left k v a b)
  some_child true none k v a b e = cc
  some_child false none k v a b e = cc
  some_child left (some t) k v a b o = (t, refl, o)

  -- a rotation, by what `maybe_balance` does to the lower node and to the upper one
  pub turn-Turns :
      (n : ℕ) (left : Bool) (k v k2 v2 : Bytes) (a b c p q : Model)
      → Model.height b < 2 ^ 8
      → Model.height p < 2 ^ 8
      → Settles n (node left k v b c) p
      → Settles n (node left k2 v2 a p) q
      → Turns (suc n) left (node left k v (node left k2 v2 a b) c) q
  turn-Turns n left k v k2 v2 a b c p q hb hp lower upper t o =
      let (parent, inner, gone, free, rest, taken) = near left t k v (node left k2 v2 a b) c o in
      let (top, is_some, over) = some_child left inner k2 v2 a b taken in
      let (top', grand, gone', free', rest', taken') = far left top k2 v2 a b over in
      let (low, put, over_low) = near_attach left parent grand k v b c free hb rest taken' in
      let (low', ran, over_low') = lower low over_low in
      let (high, put', over_high) =
        far_attach left top' (some low') k2 v2 a p free' hp rest' over_low' in
      let (out, ran', over_out) = upper high over_high in
      let found = expected source t parent top left inner gone is_some in
      (out, rw (rotate-swap source n t left, found, gone', put, ran, put') ran', over_out)
