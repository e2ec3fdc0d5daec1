-- ===== src/Tree/Ops.antt =====
-- src/tree/ops.rs: batches of operations, and the rotations that keep the tree balanced. A walker
-- is a tree with a source, as in Tree/Walker. The functions call each other on fuel, and panic
-- when there is none left.
mod Examples
pub mod Fetched
pub mod Side
pub mod Turn
pub mod Settle
pub mod Balance
pub mod Mirror
pub mod Undone
pub mod Heavy
pub mod Join
pub mod Apply
use Prim.Native.Nat.{Ordering}
use merk.Prelude.{
  ℕ, zero, suc, ◌+◌, ◌-◌, ◌/◌, ◌%◌, Bool, true, false, not, ◌&&◌, ◌||◌, List, [], ◌∷◌, ◌++◌, Option,
  none, some, ltb, leb, ◌==◌, if◌then◌else◌, length, drop,
}
use merk.Bytes.{Bytes, cmp}
use merk.Outcome.{Result, ok, panic, ◌>>=◌}
use merk.Hash.{Hasher}
use merk.Tree.{
  Tree, MaybeLink, Link, key, link, child_height, child_heights_of, attach, new, with_value,
}
use merk.Tree.Load.{Fetch}
use merk.Tree.Walker.{walker_detach, walker_detach_expect, walker_walk_expect}

-- `Op` and `BatchEntry`
pub data BatchOp : Type 0 where
  put : Bytes → BatchOp
  delete : BatchOp

abbrev pub BatchEntry : Type 0
BatchEntry = Bytes × BatchOp

-- `PanicSource`
abbrev pub panic_source : Fetch
panic_source = record { fetch_by_key = λ k. panic }

-- A balance factor is an `i8`: the difference of the heights, wrapped to 8 bits.
abbrev pub factor : ℕ → ℕ → ℕ
factor left right = (right + 256 - left % 256) % 256

abbrev pub balance_factor : Tree → ℕ
balance_factor t = factor (child_height (link t true)) (child_height (link t false))

abbrev pub link_balance_factor : MaybeLink → Result ℕ
link_balance_factor MaybeLink.unlinked = panic
link_balance_factor (MaybeLink.linked l) = ok (factor (child_heights_of l).0 (child_heights_of l).1)

-- `< 0`, `> 0` and `abs() <= 1` on an `i8`; the absolute value of -128 wraps to itself.
abbrev pub is_negative : ℕ → Bool
is_negative b = leb 128 b

abbrev pub is_positive : ℕ → Bool
is_positive b = ltb 0 b && ltb b 128

abbrev pub is_balanced : ℕ → Bool
is_balanced b = b == 0 || b == 1 || b == 255 || b == 128

abbrev pub same_bool : Bool → Bool → Bool
same_bool true b = b
same_bool false b = not b

abbrev pub is_linked : MaybeLink → Bool
is_linked MaybeLink.unlinked = false
is_linked (MaybeLink.linked l) = true

-- the binary search of `apply`, as a search from the left
pub data BatchSearch : Type 0 where
  hit : ℕ → BatchOp → BatchSearch
  miss : ℕ → BatchSearch

abbrev pub next_index : BatchSearch → BatchSearch
next_index (BatchSearch.hit n op) = BatchSearch.hit (suc n) op
next_index (BatchSearch.miss n) = BatchSearch.miss (suc n)

unfoldable pub search_batch : List BatchEntry → Bytes → BatchSearch
search_batch [] k = BatchSearch.miss 0
search_batch ((k', op) ∷ batch) k =
    let rest = search_batch batch k in
    elim (cmp k' k) [
      | Ordering.lt ↦ next_index rest
      | Ordering.eq ↦ BatchSearch.hit 0 op
      | Ordering.gt ↦ BatchSearch.miss 0
    ]

abbrev pub take_batch : ℕ → List BatchEntry → List BatchEntry
take_batch zero batch = []
take_batch (suc n) [] = []
take_batch (suc n) (e ∷ batch) = e ∷ take_batch n batch

module _ (source : Fetch) where
  unfoldable mutual
    pub maybe_balance : ℕ → Tree → Result Tree
    maybe_balance zero t = panic
    maybe_balance (suc n) t = elim (is_balanced (balance_factor t)) [
      | true ↦ ok t
      | false ↦
          let left = is_negative (balance_factor t) in
          link_balance_factor (link t left) >>= λ b. elim (same_bool left (is_positive b)) [
            | true ↦
                walker_walk_expect source t left (λ c. rotate n c (not left) >>= λ c'. ok (some c'))
                >>= λ t'. rotate n t' left
            | false ↦ rotate n t left
          ]
    ]

    pub rotate : ℕ → Tree → Bool → Result Tree
    rotate zero t left = panic
    rotate (suc n) t left = do
      (parent, child) ← walker_detach_expect source t left
      (child', grandchild) ← walker_detach source child (not left)
      parent' ← attach parent left grandchild
      parent'' ← maybe_balance n parent'
      child'' ← attach child' (not left) (some parent'')
      maybe_balance n child''

  unfoldable pub remove_edge : ℕ → Tree → Bool → Result (Tree × Option Tree)
  unfolding maybe_balance
  remove_edge zero t left = panic
  remove_edge (suc n) t left = elim (is_linked (link t left)) [
    | false ↦ walker_detach source t (not left)
    | true ↦ walker_detach_expect source t left >>= λ (parent, child).
        remove_edge n child left >>= λ (edge, child'). attach parent left child' >>= λ parent'.
        maybe_balance n parent' >>= λ parent''. ok (edge, some parent'')
  ]

  unfoldable pub promote_edge : ℕ → Tree → Bool → Tree → Result Tree
  promote_edge n t left attached = do
    (edge, child) ← remove_edge n t left
    edge' ← attach edge (not left) child
    edge'' ← attach edge' left (some attached)
    maybe_balance n edge''

  unfoldable pub remove : ℕ → Tree → Result (Option Tree)
  remove n t =
      let has_left = is_linked (link t true) in
      let has_right = is_linked (link t false) in
      let left = ltb (child_height (link t false)) (child_height (link t true)) in
      elim (has_left && has_right) [
        | true ↦ walker_detach_expect source t left >>= λ (parent, tall).
            walker_detach_expect source parent (not left) >>= λ (_, short).
            promote_edge n tall (not left) short >>= λ t'. ok (some t')
        | false ↦ elim (has_left || has_right) [
          | true ↦ walker_detach_expect source t left >>= λ (_, c). ok (some c)
          | false ↦ ok none
        ]
      ]

  abbrev pub balance_option : ℕ → Option Tree → Result (Option Tree)
  balance_option n none = ok none
  balance_option n (some t) = do t' ← maybe_balance n t; ok (some t')
