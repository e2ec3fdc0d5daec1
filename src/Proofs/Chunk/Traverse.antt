-- ===== src/Proofs/Chunk/Traverse.antt =====
-- `traverse_for_trunk` writes the operators of the trunk behind what the height proof has written.
use mathlib.Core.Path.{subst}
use merk.Prelude.{
  ℕ, zero, suc, ◌≤◌, ◌≡◌, refl, sym, ap, ◌∙◌, Bool, true, false, List, [], ◌∷◌, ◌++◌, append_assoc,
  append-nil, arith, if◌then◌else◌,
}
use merk.Bytes.{Bytes}
use merk.Outcome.{Result, ok, ◌>>=◌}
use merk.Hash.{Hasher}
use merk.Model
use merk.Model.{Model, root_hash}
use merk.Proofs.{Node, Op}
use merk.Proofs.Chunk.{is_linked, parent_if, trunk_left, trunk_right, traverse_for_trunk}
use merk.Proofs.Chunk.Descend.{is_bin, is_linked-RepsLink, walk-Reached, walk_nowhere}
use merk.Proofs.Chunk.Trunk.{left_at, spine, trunk}
use merk.Proofs.Query.Create.{ref_walk}
use merk.Proofs.Query.Create.Program.{Stored}
use merk.Proofs.Query.Create.Walk.{set_link-same}
use merk.Proofs.Tree.Partial.{Partial}
use merk.Proofs.Tree.Postfix.{mark, program}
use merk.Tree.{Tree, MaybeLink, link}
use merk.Tree.Load.{Fetch, set_link}
use merk.Tree.Reps.{RepsTree, RepsLink, hash-Reps}

assemble :
    (base xs : List Op) (op : Op) (ys zs : List Op)
    → ((base ++ xs) ++ (op ∷ ys)) ++ zs ≡ base ++ (xs ++ (op ∷ (ys ++ zs)))
assemble base xs op ys zs =
    append_assoc (base ++ xs) (op ∷ ys) zs ∙ append_assoc base xs (op ∷ (ys ++ zs))

module _ ⦃hasher : Hasher⦄ where
  -- what the height proof has written of a subtree of the trunk
  abbrev pub prior : ℕ → Bool → Model → List Op
  prior n true m = program (spine (left_at n m))
  prior n false m = []

  prior-leaf : (n : ℕ) (leftmost : Bool) → prior n leftmost Model.leaf ≡ []
  prior-leaf zero true = refl
  prior-leaf (suc n) true = refl
  prior-leaf n false = refl

  prior-step :
      (n : ℕ) (leftmost : Bool) (k v : Bytes) (l r : Model)
      → prior (suc n) leftmost (Model.bin k v l r) ≡ prior n leftmost l
  prior-step n true k v l r = refl
  prior-step n false k v l r = refl

  trunk-leaf : (n : ℕ) (leftmost : Bool) → trunk n leftmost Model.leaf ≡ Partial.absent
  trunk-leaf zero true = refl
  trunk-leaf zero false = refl
  trunk-leaf (suc n) leftmost = refl

  trunk-mark :
      (n : ℕ) (leftmost : Bool) (m : Model) (op : Op)
      → mark (trunk n leftmost m) op ≡ (if is_bin m then op ∷ [] else [])
  trunk-mark zero true Model.leaf op = refl
  trunk-mark zero false Model.leaf op = refl
  trunk-mark (suc n) leftmost Model.leaf op = refl
  trunk-mark zero true (Model.bin k v l r) op = refl
  trunk-mark zero false (Model.bin k v l r) op = refl
  trunk-mark (suc n) leftmost (Model.bin k v l r) op = refl

  parent_if-trunk :
      (n : ℕ) (leftmost : Bool) (m : Model) (l : MaybeLink)
      → RepsLink false l m
      → parent_if (is_linked l) ≡ mark (trunk n leftmost m) Op.parent
  parent_if-trunk n leftmost m l e =
      ap parent_if (is_linked-RepsLink l m e)
      ∙ by_bool (is_bin m)
      ∙ sym (trunk-mark n leftmost m Op.parent)
    where
      by_bool : (b : Bool) → parent_if b ≡ (if b then Op.parent ∷ [] else [])
      by_bool true = refl
      by_bool false = refl

module _ ⦃hasher : Hasher⦄ (source : Fetch) where
  -- a result, with a tree that stands for the model
  abbrev pub Gives : {X : Type 0} → Result (Tree × X) → Model → X → Type 0
  Gives r m x = (t : Tree) × (r ≡ ok (t, x)) × RepsTree false t m

  -- a result for a child, with the link that it leaves
  abbrev pub GivesChild : Result (Tree × List Op) → (MaybeLink → Tree) → Model → List Op → Type 0
  GivesChild r around m x = (l : MaybeLink) × (r ≡ ok (around l, x)) × RepsLink false l m

  left_part :
      (call : Tree → List Op → Result (Tree × List Op)) (t : Tree) (m : Model) (n : ℕ)
      (leftmost : Bool) (base : List Op)
      → RepsLink false (link t true) m
      → Stored source m
      → ((c : Tree)
          → RepsTree false c m
          → Gives (call c (base ++ prior n leftmost m)) m (base ++ program (trunk n leftmost m)))
      → GivesChild
          (trunk_left source call (is_linked (link t true)) t (base ++ prior n leftmost m))
          (set_link source t true)
          m
          (base ++ program (trunk n leftmost m))
  left_part call t Model.leaf n leftmost base f s ih = (
    link t true,
    rw
        (
          is_linked-RepsLink (link t true) Model.leaf f,
          prior-leaf n leftmost,
          trunk-leaf n leftmost,
          set_link-same source t true (link t true) refl,
        )
        refl,
    f,
  )
  left_part call t (Model.bin k v l r) n leftmost base f s ih =
      let w = walk-Reached source t true (link t true) k v l r refl f s in
      let (c, made, fresh) = ih w.child w.fresh in
      let (link', back, f') =
        w.back (λ c. call c (base ++ prior n leftmost (Model.bin k v l r))) c _ made fresh in
      (link', rw (is_linked-RepsLink (link t true) (Model.bin k v l r) f, w.walks) back, f')

  right_part :
      (call : Tree → List Op → Result (Tree × List Op)) (t : Tree) (m : Model) (n : ℕ)
      (proof : List Op)
      → RepsLink false (link t false) m
      → Stored source m
      → ((c : Tree)
          → RepsTree false c m
          → Gives (call c proof) m (proof ++ program (trunk n false m)))
      → GivesChild
          (ref_walk source t false >>= trunk_right source call proof)
          (set_link source t false)
          m
          (proof ++ (program (trunk n false m) ++ mark (trunk n false m) Op.child))
  right_part call t Model.leaf n proof f s ih = (
    link t false,
    rw
        (
          walk_nowhere source t false (link t false) refl f,
          trunk-leaf n false,
          set_link-same source t false (link t false) refl,
          append-nil proof,
        )
        refl,
    f,
  )
  right_part call t (Model.bin k v l r) n proof f s ih =
      let w = walk-Reached source t false (link t false) k v l r refl f s in
      let (c, made, fresh) = ih w.child w.fresh in
      let (link', back, f') = w.back (λ c. call c proof) c _ made fresh in
      (
        link',
        rw (w.walks, back, trunk-mark n false (Model.bin k v l r) Op.child)
            (ap (λ ops. ok (set_link source t false link', ops))
              (append_assoc proof (program (trunk n false (Model.bin k v l r))) (Op.child ∷ []))),
        f',
      )

  -- On a tree with fresh links, with the height proof of its part of the trunk behind `base`, the
  -- traversal leaves the operators of that part of the trunk behind `base`.
  pub traverse_for_trunk-trunk :
      (fuel : ℕ) (t : Tree) (m : Model) (n : ℕ) (leftmost : Bool) (base : List Op)
      → Model.height m ≤ fuel
      → Stored source m
      → RepsTree false t m
      → Gives
          (traverse_for_trunk source fuel t (base ++ prior n leftmost m) n leftmost)
          m
          (base ++ program (trunk n leftmost m))
  unfolding traverse_for_trunk
  traverse_for_trunk-trunk fuel (Tree.tree kv l r) Model.leaf n leftmost base b s e = elim e [ ]
  traverse_for_trunk-trunk zero t (Model.bin k v ml mr) n leftmost base b s e = absurd (omega arith)
  traverse_for_trunk-trunk (suc fuel) t (Model.bin k v ml mr) zero true base b s e = (t, refl, e)
  traverse_for_trunk-trunk (suc fuel) t (Model.bin k v ml mr) zero false base b s e =
      (t, rw (hash-Reps t (Model.bin k v ml mr) e, append-nil base) refl, e)
  traverse_for_trunk-trunk (suc fuel) (Tree.tree kv l r) (Model.bin k v ml mr) (suc n) leftmost base
        b s e =
      let m = Model.bin k v ml mr in
      let t = Tree.tree kv l r in
      let (l', left, fl) =
        left_part (λ c p. traverse_for_trunk source fuel c p n leftmost) t ml n leftmost base e.3
          s.1 (λ c f. traverse_for_trunk-trunk fuel c ml n leftmost base (omega arith) s.1 f) in
      let tl = program (trunk n leftmost ml) in
      let proof = (base ++ tl) ++ (Op.push (Node.kv kv.key kv.value) ∷ parent_if (is_linked l)) in
      let (r', right, fr) =
        right_part (λ c p. traverse_for_trunk source fuel c p n false) (Tree.tree kv l' r) mr n
          proof e.4 s.2
          (λ c f.
            subst
              (λ p.
                Gives (traverse_for_trunk source fuel c p n false) mr
                  (proof ++ program (trunk n false mr)))
              (append-nil proof)
              (traverse_for_trunk-trunk fuel c mr n false proof (omega arith) s.2 f)) in
      (
        Tree.tree kv l' r',
        rw (prior-step n leftmost k v ml mr, left, right)
            (ap (λ ops. ok (Tree.tree kv l' r', ops))
              (assemble base tl (Op.push (Node.kv kv.key kv.value)) (parent_if (is_linked l)) _
                ∙ (rw (e.0, e.1, parent_if-trunk n leftmost ml l e.3) refl))),
        (e.0, e.1, e.2, fl, fr),
      )
