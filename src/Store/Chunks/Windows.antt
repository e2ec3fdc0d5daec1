-- ===== src/Store/Chunks/Windows.antt =====
-- The subtrees below the trunk, with the boundaries between them, and the rows of each.
use merk.Prelude.{
  ℕ, zero, suc, ◌≡◌, refl, ap, ◌∙◌, Bool, true, false, append-nil, List, [], ◌∷◌, ◌++◌, Option,
  some, append_assoc, All-imp, All-append_parts,
}
use merk.Bytes.{Bytes}
use merk.Bytes.Order.{eq_bytes-false}
use merk.Hash.{Hasher}
use merk.Model.{Model, entries, IsSorted}
use merk.Model.Find.{IsSorted-left, IsSorted-right}
use merk.Proofs.{Node, Op}
use merk.Proofs.Chunk.{Row}
use merk.Proofs.Chunk.Program.{FitsAll, IsPlain, left_below}
use merk.Proofs.Chunk.Rows.{Rows, full}
use merk.Proofs.Chunk.Trunk.{hashed, spine, trunk}
use merk.Proofs.Encoding.{Ed, encode_into}
use merk.Proofs.Tree.Partial.{Partial}
use merk.Proofs.Tree.Postfix.{mark, program}
use merk.Store.Chunks.{boundaries}
use merk.Tree.Encoding.{EdOption}

-- the subtrees at a depth, and the keys above that depth, from left to right
abbrev pub windows : ℕ → Model → List Model
windows zero m = m ∷ []
windows (suc n) Model.leaf = Model.leaf ∷ []
windows (suc n) (Model.bin k v l r) = windows n l ++ windows n r

abbrev pub bounds : ℕ → Model → List Bytes
bounds zero m = []
bounds (suc n) Model.leaf = []
bounds (suc n) (Model.bin k v l r) = bounds n l ++ (k ∷ bounds n r)

-- the bytes of a leaf chunk
abbrev pub leaf_bytes : ⦃codec : Ed⦄ → Model → Bytes
leaf_bytes m = encode_into (program (full m))

-- what a subtree needs to be read up to an end key
abbrev pub Good : Option Bytes → Model → Type 0
Good end_key m = IsSorted (entries m) × FitsAll m × IsPlain end_key (entries m)

boundaries-append : (xs ys : List Op) → boundaries (xs ++ ys) ≡ boundaries xs ++ boundaries ys
boundaries-append [] ys = refl
boundaries-append (Op.push (Node.kv k v) ∷ xs) ys = ap (λ ks. k ∷ ks) (boundaries-append xs ys)
boundaries-append (Op.push (Node.hash h) ∷ xs) ys = boundaries-append xs ys
boundaries-append (Op.push (Node.kv_hash h) ∷ xs) ys = boundaries-append xs ys
boundaries-append (Op.parent ∷ xs) ys = boundaries-append xs ys
boundaries-append (Op.child ∷ xs) ys = boundaries-append xs ys

boundaries-mark :
    (p : Partial) → (boundaries (mark p Op.parent) ≡ []) × (boundaries (mark p Op.child) ≡ [])
boundaries-mark Partial.absent = (refl, refl)
boundaries-mark (Partial.node n l r) = (refl, refl)

boundaries-node :
    (n : Node) (l r : Partial)
    → boundaries (program (Partial.node n l r))
      ≡ boundaries (program l) ++ (boundaries (Op.push n ∷ []) ++ boundaries (program r))
boundaries-node n l r =
    boundaries-append (program l) _
    ∙ ap (λ ks. boundaries (program l) ++ ks)
        (boundaries-append (Op.push n ∷ []) _
          ∙ ap (λ ks. boundaries (Op.push n ∷ []) ++ ks)
              (boundaries-append (mark l Op.parent) _
                ∙ ap (λ ks. ks ++ boundaries (program r ++ mark r Op.child)) (boundaries-mark l).0
                ∙ boundaries-append (program r) _
                ∙ ap (λ ks. boundaries (program r) ++ ks) (boundaries-mark r).1
                ∙ append-nil (boundaries (program r))))

module _ ⦃hasher : Hasher⦄ where
  -- hashes bound nothing
  boundaries-hashed : (m : Model) → boundaries (program (hashed m)) ≡ []
  boundaries-hashed Model.leaf = refl
  boundaries-hashed (Model.bin k v l r) = refl

  boundaries-spine : (m : Model) → boundaries (program (spine m)) ≡ []
  boundaries-spine Model.leaf = refl
  boundaries-spine (Model.bin k v l r) =
      boundaries-node _ (spine l) (hashed r) ∙ (rw (boundaries-spine l, boundaries-hashed r) refl)

  -- The pairs that a trunk shows have the keys above its depth.
  pub boundaries-trunk :
      (n : ℕ) (leftmost : Bool) (m : Model) → boundaries (program (trunk n leftmost m)) ≡ bounds n m
  boundaries-trunk zero true m = boundaries-spine m
  boundaries-trunk zero false m = boundaries-hashed m
  boundaries-trunk (suc n) leftmost Model.leaf = refl
  boundaries-trunk (suc n) leftmost (Model.bin k v l r) =
      boundaries-node _ (trunk n leftmost l) (trunk n false r)
      ∙ (rw (boundaries-trunk n leftmost l, boundaries-trunk n false r) refl)

module _ ⦃hasher : Hasher⦄ ⦃o : EdOption⦄ where
  -- Rows that are split at the boundaries into those of the subtrees.
  abbrev pub Split : Option Bytes → List Model → List Bytes → List Row → Type 0
  Split end_key [] ks rows = ⊥
  Split end_key (w ∷ ws) [] rows = (ws ≡ []) × Rows w rows × Good end_key w
  Split end_key (w ∷ ws) (k ∷ ks) rows =
      (before : List Row) × (encoded : Bytes) × (rest : List Row) × (rows
        ≡ before ++ ((k, encoded) ∷ rest))
      × Rows w before
      × Good (some k) w
      × Split end_key ws ks rest

  Split-append :
      (end_key : Option Bytes) (ws ws' : List Model) (ks ks' : List Bytes) (k encoded : Bytes)
      (xs ys : List Row)
      → Split (some k) ws ks xs
      → Split end_key ws' ks' ys
      → Split end_key (ws ++ ws') (ks ++ (k ∷ ks')) (xs ++ ((k, encoded) ∷ ys))
  Split-append end_key [] ws' ks ks' k encoded xs ys s t = elim s [ ]
  Split-append end_key (w ∷ ws) ws' [] ks' k encoded xs ys (e, rows, good) t =
      (xs, encoded, ys, refl, rows, good, rw e t)
  Split-append end_key (w ∷ ws) ws' (k' ∷ ks) ks' k encoded xs ys
        (before, encoded', rest, e, rows, good, more) t =
      (
        before,
        encoded',
        rest ++ ((k, encoded) ∷ ys),
        ap (λ zs. zs ++ ((k, encoded) ∷ ys)) e
            ∙ append_assoc before ((k', encoded') ∷ rest) ((k, encoded) ∷ ys),
        rows,
        good,
        Split-append end_key ws ws' ks ks' k encoded rest ys more t,
      )

  -- The rows of a tree are split by the boundaries at any depth.
  pub Rows-Split :
      (end_key : Option Bytes) (n : ℕ) (m : Model) (rows : List Row)
      → Good end_key m
      → Rows m rows
      → Split end_key (windows n m) (bounds n m) rows
  Rows-Split end_key zero m rows good h = (refl, h, good)
  Rows-Split end_key (suc n) Model.leaf rows good h = (refl, h, good)
  Rows-Split end_key (suc n) (Model.bin k v l r) rows (s, f, p)
        (before, after, encoded, e, node, hl, hr) =
      let below = left_below (entries l) (k, v) (entries r) s in
      let plain = All-imp (λ x h. eq_bytes-false x.0 k h) (entries l) below in
      let (_, pn) = All-append_parts _ (entries l) ((k, v) ∷ entries r) p in
      let sl = IsSorted-left (entries l) ((k, v) ∷ entries r) s in
      let sr = (IsSorted-right (entries l) ((k, v) ∷ entries r) s).1 in
      rw e (
        Split-append end_key (windows n l) (windows n r) (bounds n l) (bounds n r) k encoded before
          after (Rows-Split (some k) n l before (sl, f.2, plain) hl)
          (Rows-Split end_key n r after (sr, f.3, pn.1) hr))
