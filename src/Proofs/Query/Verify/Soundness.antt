-- ===== src/Proofs/Query/Verify/Soundness.antt =====
-- A proof that `verify` accepts against the root hash of a tree tells the truth about that tree.
use mathlib.Core.Path.{subst, subst₂}
use merk.Prelude.{
  ◌≡◌, refl, sym, ap, ◌∙◌, ◌⊎◌, inl, inr, Bool, true, false, List, [], ◌∷◌, Option, none, All,
  All-append_parts, if◌then◌else◌, Bool-cases, Option-cases,
}
use merk.Bytes.{Bytes, eq_bytes}
use merk.Bytes.Order.{eq_of_eq_bytes}
use merk.Outcome.{ok, err, >>=-eq-ok, Error}
use merk.Hash.{Hasher, Broken}
use merk.Btree
use merk.Btree.{get as btree_get}
use merk.Model.{Model, Entry, entries, find, IsSorted, IsSized, root_hash}
use merk.Model.Cover.{Covers, HasHash, HasHashes, hash_partial-Covers}
use merk.Proofs.Encoding.{Ed, decode_all}
use merk.Proofs.Encoding.Width.{decode_all-HasHash}
use merk.Proofs.Tree.{hash, execute}
use merk.Proofs.Tree.Partial.{Partial, inorder, pushes, graft_free}
use merk.Proofs.Tree.Execute.{execute-Describes}
use merk.Proofs.Query.Map.{Map, new, insert, get}
use merk.Proofs.Query.Map.Absence.{gap_flag, get-absent, get-found}
use merk.Proofs.Query.Verify.{verify}
use merk.Proofs.Query.Verify.Built.{visit_all-Appends}
use merk.Proofs.Query.Verify.Tells.{Tells, Covers-Tells, Tells-found, Tells-absent}

-- the nodes of a partial tree from those of its traversal
pub inorder-HasHashes : (p : Partial) → All HasHash (inorder p) → HasHashes p
inorder-HasHashes Partial.absent h = tt
inorder-HasHashes (Partial.node n l r) h =
    let (hl, hr) = All-append_parts HasHash (inorder l) (n ∷ inorder r) h in
    (hr.0, inorder-HasHashes l hl, inorder-HasHashes r hr.1)

-- an answer of `get` on a map that tells of `es`
pub get-Tells :
    (m : Map) (es : List Entry) (q : Bytes) (r : Option Bytes)
    → Btree.IsSorted m.entries
    → IsSorted es
    → Tells m.entries m.right_edge es
    → get m q ≡ ok r
    → r ≡ find q es
unfolding get
get-Tells m es q r s s' t e = elim (Option-cases (btree_get m.entries q)) [
  | inl absent ↦
      let answer = sym (get-absent m q s absent) ∙ e in
      elim (Bool-cases (gap_flag q m.entries m.right_edge)) [
        | inl proven ↦
            let same : ok none ≡ ok r = rw proven at answer in
            cc (Tells-absent m.entries m.right_edge es q s' t absent proven)
        | inr missing ↦ let same : err Error.missing_data ≡ ok r = rw missing at answer in cc
      ]
  | inr ((c, v), found) ↦
      let same = sym (get-found m q c v found) ∙ e in
      cc (Tells-found m.entries m.right_edge es q c v s' t found)
]

pub if_ok :
    {A : Type 0} (b : Bool) (x y : A) (z : Error)
    → (if b then ok x else err z) ≡ ok y
    → (b ≡ true) × (x ≡ y)
if_ok true x y z e = (refl, cc)
if_ok false x y z e = cc

module _ ⦃hasher : Hasher⦄ ⦃codec : Ed⦄ where
  -- what an accepted proof tells of the tree, as a map
  verify-Tells :
      (bytes : Bytes) (t : Model) (m : Map)
      → IsSized t
      → graft_free (decode_all bytes) [] ≡ true
      → verify bytes (root_hash t) ≡ ok m
      → Broken ⊎ (Btree.IsSorted m.entries × Tells m.entries m.right_edge (entries t))
  unfolding verify new
  verify-Tells bytes t m z g e =
      let ops = decode_all bytes in
      let (r, executed, e') = >>=-eq-ok (execute true insert ops new) _ e in
      let (h, hashed, e'') = >>=-eq-ok (hash r.0) _ e' in
      let (p, d) = execute-Describes true insert ops new r g executed in
      let hashes =
        inorder-HasHashes p (subst (All HasHash) (sym d.order) (decode_all-HasHash bytes)) in
      let (equal, built_map) = if_ok (eq_bytes h (root_hash t)) r.1 m Error.hash_mismatch e'' in
      let root = d.hashes ∙ hashed ∙ ap ok (eq_of_eq_bytes h (root_hash t) equal) in
      let a = visit_all-Appends new r.1 (pushes ops) tt d.visits in
      elim (hash_partial-Covers p t d.leafy hashes z root) [
        | inl broken ↦ inl broken
        | inr covers ↦
            let tells =
              Covers-Tells true (pushes ops) [] (entries t)
                (subst (λ ns. Covers ns (entries t)) d.order covers) (λ _. refl) in
            let tells' : Tells r.1.entries r.1.right_edge (entries t) =
              subst₂ (λ l f. Tells l f (entries t)) (sym a.entries) (sym a.right_edge) tells in
            inr (
              subst (λ m. Btree.IsSorted m.entries × Tells m.entries m.right_edge (entries t))
                built_map (a.sorted, tells'))
      ]

  -- If `verify` accepts bytes against the root hash of a tree, and the bytes attach nothing to a
  -- node of kind `Hash`, then an answer of `get` on the map, a value or a proven absence, is the
  -- answer of the tree, or the hash function is broken. The tree's keys increase and its keys and
  -- values are shorter than 2 ^ 32.
  pub verify_sound :
      (bytes : Bytes) (t : Model) (m : Map) (q : Bytes) (r : Option Bytes)
      → IsSorted (entries t)
      → IsSized t
      → graft_free (decode_all bytes) [] ≡ true
      → verify bytes (root_hash t) ≡ ok m
      → get m q ≡ ok r
      → Broken ⊎ (r ≡ find q (entries t))
  verify_sound bytes t m q r s z g e answer = elim (verify-Tells bytes t m z g e) [
    | inl broken ↦ inl broken
    | inr (sorted, tells) ↦ inr (get-Tells m (entries t) q r sorted s tells answer)
  ]
