-- ===== src/Store/Batch.antt =====
-- The test of `Merk::apply` on the keys of a batch.
use Prim.Native.Nat.{Ordering}
use merk.Prelude.{
  ℕ, ◌≡◌, refl, ap, ◌∙◌, ◌⊎◌, inl, inr, List, [], ◌∷◌, Option, none, some, All, All-imp,
}
use merk.Bytes.{Bytes, cmp}
use merk.Bytes.Order.{◌≺◌, lt_trans}
use merk.Btree.{IsSorted}
use merk.Outcome.{Result, ok, err, ◌>>=◌, Error}
use merk.Hash.{Hasher}
use merk.Proofs.Chunk.Verify.{Done}
use merk.Store.{Merk, check_order, check_batch, apply_unchecked, apply}
use merk.Store.Rocks.{Db}
use merk.Tree.Encoding.{EdOption}
use merk.Tree.Ops.{BatchEntry}

-- the keys are above the one before them
abbrev After : Option Bytes → List BatchEntry → Type 0
After none batch = Unit
After (some p) batch = All (λ e. p ≺ e.0) batch

-- what the test says of a batch
abbrev Checked : Option Bytes → List BatchEntry → Result Done → Type 0
Checked prev batch r =
    ((r ≡ ok tt) × After prev batch × IsSorted batch)
    ⊎ ((r ≡ err Error.batch_key) × ((After prev batch × IsSorted batch) → ⊥))

check_batch-Checked :
    (prev : Option Bytes) (batch : List BatchEntry) → Checked prev batch (check_batch prev batch)
unfolding check_batch
check_batch-Checked none [] = inl (refl, tt, tt)
check_batch-Checked (some p) [] = inl (refl, tt, tt)
check_batch-Checked none (e ∷ batch) = elim (check_batch-Checked (some e.0) batch) [
  | inl (checked, above, sorted) ↦ inl (checked, tt, (above, sorted))
  | inr (refused, unsorted) ↦ inr (refused, λ (_, sorted). unsorted sorted)
]
check_batch-Checked (some p) (e ∷ batch) =
    by_cmp (check_batch-Checked (some e.0) batch) (cmp p e.0) refl
  where
    step :
        (o : Ordering)
        → cmp p e.0 ≡ o
        → check_batch (some p) (e ∷ batch) ≡ (check_order o >>= λ _. check_batch (some e.0) batch)
    step o h = ap (λ o. check_order o >>= λ _. check_batch (some e.0) batch) h

    by_cmp :
        Checked (some e.0) batch (check_batch (some e.0) batch)
        → (o : Ordering) → cmp p e.0 ≡ o
        → Checked (some p) (e ∷ batch) (check_batch (some p) (e ∷ batch))
    by_cmp (inl (checked, above, sorted)) Ordering.lt h = inl (
      step Ordering.lt h ∙ checked,
      (h, All-imp (λ x h'. lt_trans p e.0 x.0 h h') batch above),
      (above, sorted),
    )
    by_cmp (inr (refused, unsorted)) Ordering.lt h =
        inr (step Ordering.lt h ∙ refused, λ (_, sorted). unsorted sorted)
    by_cmp later Ordering.eq h = inr (step Ordering.eq h, λ (above, _). cc)
    by_cmp later Ordering.gt h = inr (step Ordering.gt h, λ (above, _). cc)

module _ {S : Type 0} (db : Db S) ⦃hasher : Hasher⦄ ⦃o : EdOption⦄ where
  -- On a batch whose keys increase strictly, `apply` does what `apply_unchecked` does; on any other
  -- it fails with `BatchKey` and writes nothing.
  pub apply-IsSorted :
      (fuel : ℕ) (batch aux : List BatchEntry) (merk : Merk S)
      → (IsSorted batch × (apply db fuel batch aux merk ≡ apply_unchecked db fuel batch aux merk))
        ⊎ ((IsSorted batch → ⊥) × (apply db fuel batch aux merk ≡ err Error.batch_key))
  unfolding apply
  apply-IsSorted fuel batch aux merk = elim (check_batch-Checked none batch) [
    | inl (checked, _, sorted) ↦ inl (sorted, rw checked refl)
    | inr (refused, unsorted) ↦ inr ((λ sorted. unsorted (tt, sorted)), rw refused refl)
  ]
