-- ===== src/Tree/Ops/Apply.antt =====
-- `apply_to`, `build`, `apply` and `recurse` of src/tree/ops.rs: a batch against a tree. The keys
-- that were deleted are returned with the tree.
use merk.Prelude.{
  ℕ, zero, suc, ◌/◌, Bool, true, false, List, [], ◌∷◌, ◌++◌, Option, none, some, if◌then◌else◌,
  length, drop,
}
use merk.Bytes.{Bytes}
use merk.Outcome.{Result, ok, panic, ◌>>=◌}
use merk.Hash.{Hasher}
use merk.Tree.{Tree, key, attach, new, with_value}
use merk.Tree.Load.{Fetch}
use merk.Tree.Walker.{walker_detach}
use merk.Tree.Ops.{
  BatchOp, BatchEntry, BatchSearch, search_batch, take_batch, panic_source, maybe_balance, remove,
  balance_option,
}

-- a tree, if any is left, and the deleted keys
abbrev pub Applied : Type 0
Applied = Option Tree × List Bytes

-- `&batch[index]`, which panics out of range
abbrev pub entry_at : List BatchEntry → ℕ → Result BatchEntry
entry_at [] n = panic
entry_at (e ∷ batch) zero = ok e
entry_at (e ∷ batch) (suc n) = entry_at batch n

module _ ⦃hasher : Hasher⦄ where
  -- `walk` with the batch for one side; an empty batch leaves the side alone
  abbrev pub walk_batch :
      Fetch
      → (Option Tree → List BatchEntry → Result Applied)
      → Tree
      → Bool
      → List BatchEntry
      → Result (Tree × List Bytes)
  walk_batch source apply t left [] = ok (t, [])
  walk_batch source apply t left (e ∷ batch) = walker_detach source t left >>= λ (parent, child).
      apply child (e ∷ batch) >>= λ (child', deleted).
      attach parent left child' >>= λ parent'. ok (parent', deleted)

  unfoldable mutual
    pub apply_to : ℕ → Fetch → Option Tree → List BatchEntry → Result Applied
    apply_to zero source t batch = panic
    apply_to (suc n) source t [] = ok (t, [])
    apply_to (suc n) source none (e ∷ batch) = build n source (e ∷ batch) >>= λ t. ok (t, [])
    apply_to (suc n) source (some t) (e ∷ batch) = apply n source t (e ∷ batch)

    pub build : ℕ → Fetch → List BatchEntry → Result (Option Tree)
    build zero source batch = panic
    build (suc n) source [] = ok none
    build (suc n) source (e ∷ rest) =
        let batch = e ∷ rest in
        let mid = length batch / 2 in
        entry_at batch mid >>= λ (mid_key, mid_op). elim mid_op [
          | BatchOp.delete ↦ build n source (take_batch mid batch) >>= λ left. elim left [
            | some t ↦ apply n source t (drop (suc mid) batch) >>= λ r. ok r.0
            | none ↦ build n source (drop (suc mid) batch)
          ]
          | BatchOp.put value ↦
              new mid_key value >>= λ t. recurse n panic_source t batch mid true >>= λ r. ok r.0
        ]

    pub apply : ℕ → Fetch → Tree → List BatchEntry → Result Applied
    apply zero source t batch = panic
    apply (suc n) source t batch = elim (search_batch batch (key t)) [
      | BatchSearch.miss index ↦ recurse n source t batch index false
      | BatchSearch.hit index op ↦ elim op [
        | BatchOp.put value ↦ with_value t value >>= λ t'. recurse n source t' batch index true
        | BatchOp.delete ↦ walker_detach source t true >>= λ (t₁, left).
            walker_detach source t₁ false >>= λ (t₂, right).
            apply_to n source left (take_batch index batch) >>= λ (left', deleted).
            apply_to n source right (drop (suc index) batch) >>= λ (right', deleted').
            attach t₂ true left' >>= λ t₃. attach t₃ false right' >>= λ t₄.
            remove source n t₄ >>= λ t₅.
            balance_option source n t₅ >>= λ t₆. ok (t₆, deleted ++ (key t ∷ deleted'))
      ]
    ]

    pub recurse : ℕ → Fetch → Tree → List BatchEntry → ℕ → Bool → Result Applied
    recurse zero source t batch mid exclusive = panic
    recurse (suc n) source t batch mid exclusive =
        walk_batch source (apply_to n source) t true (take_batch mid batch) >>= λ (t₁, deleted).
        walk_batch source (apply_to n source) t₁ false
          (if exclusive then drop (suc mid) batch else drop mid batch)
        >>= λ (t₂, deleted'). maybe_balance source n t₂ >>= λ t₃. ok (some t₃, deleted ++ deleted')
