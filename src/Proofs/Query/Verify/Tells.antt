-- ===== src/Proofs/Query/Verify/Tells.antt =====
-- What a map says about the entries that its nodes cover: its values are theirs, and a gap whose
-- flag is set is empty.
use mathlib.Core.Path.{subst}
use Prim.Native.Nat.{Ordering}
use merk.Prelude.{
  ◌≡◌, refl, ◌∙◌, Bool, true, false, List, [], ◌∷◌, ◌++◌, none, some, arith, append_assoc,
  append-nil, Bool-cases, inl, inr,
}
use merk.Bytes.{Bytes, cmp, eq_bytes}
use merk.Bytes.Order.{lt_of_gt}
use merk.Btree.{get as btree_get}
use merk.Model.{Entry, find, IsSorted}
use merk.Model.Cover.{Covers}
use merk.Model.Find.{IsSorted-right, find-append, find_after, find_below, AllAbove-lt}
use merk.Proofs.{Node}
use merk.Proofs.Query.Map.{Shown}
use merk.Proofs.Query.Map.Absence.{gap_flag}
use merk.Proofs.Query.Verify.Built.{built, last_flag}

abbrev pub Tells : List Shown → Bool → List Entry → Type 0
Tells [] edge es = edge ≡ true → es ≡ []
Tells ((k, (c, v)) ∷ m) edge es =
    (skipped : List Entry) × (rest : List Entry) × (es ≡ skipped ++ ((k, v) ∷ rest))
    × (c ≡ true → skipped ≡ [])
    × Tells m edge rest

pub Covers-Tells :
    (c : Bool) (ns : List Node) (before es : List Entry)
    → Covers ns es
    → (c ≡ true → before ≡ [])
    → Tells (built c ns) (last_flag c ns) (before ++ es)
Covers-Tells c [] before es h b = λ e. rw (h, append-nil) (b e)
Covers-Tells c (Node.kv k v ∷ ns) before [] h b = elim h [ ]
Covers-Tells c (Node.kv k v ∷ ns) before ((k', v') ∷ es) h b =
    (before, es, rw (h.0, h.1) refl, b, Covers-Tells true ns [] es h.2 (λ _. refl))
Covers-Tells c (Node.hash x ∷ ns) before es (skipped, rest, e, h) b =
    rw (e, ← append_assoc) (Covers-Tells false ns (before ++ skipped) rest h (λ p. cc))
Covers-Tells c (Node.kv_hash x ∷ ns) before es (skipped, rest, e, h) b =
    rw (e, ← append_assoc) (Covers-Tells false ns (before ++ skipped) rest h (λ p. cc))

-- A value of the map is the value of the entries.
pub Tells-found :
    (m : List Shown) (edge : Bool) (es : List Entry) (q : Bytes) (c : Bool) (v : Bytes)
    → IsSorted es
    → Tells m edge es
    → btree_get m q ≡ some (c, v)
    → find q es ≡ some v
unfolding btree_get
Tells-found [] edge es q c v s t e = cc
Tells-found ((k, (c', w)) ∷ m) edge es q c v s (skipped, rest, whole, _, t) e =
    let s' = subst IsSorted whole s in
    rw whole (
      find-append q v skipped ((k, w) ∷ rest) s' (elim (Bool-cases (eq_bytes q k)) [
        | inl same ↦ ground arith
        | inr other ↦
            ground
              (arith, Tells-found m edge rest q c v (IsSorted-right skipped ((k, w) ∷ rest) s').1 t)
      ]))

-- A key in a gap whose flag is set is not among the entries.
pub Tells-absent :
    (m : List Shown) (edge : Bool) (es : List Entry) (q : Bytes)
    → IsSorted es
    → Tells m edge es
    → btree_get m q ≡ none
    → gap_flag q m edge ≡ true
    → find q es ≡ none
unfolding btree_get gap_flag
Tells-absent [] edge es q s t e g = rw (t g) refl
Tells-absent ((k, (c, w)) ∷ m) edge es q s (skipped, rest, whole, first, t) e g =
    let s' = subst IsSorted whole s in
    rw whole (
      compared (cmp q k) refl s'
        (Tells-absent m edge rest q (IsSorted-right skipped ((k, w) ∷ rest) s').1 t))
  where
    compared :
        (o : Ordering)
        → cmp q k ≡ o
        → IsSorted (skipped ++ ((k, w) ∷ rest))
        → (btree_get m q ≡ none → gap_flag q m edge ≡ true → find q rest ≡ none)
        → find q (skipped ++ ((k, w) ∷ rest)) ≡ none
    compared Ordering.lt o s' ih =
        let none_left : skipped ≡ [] = first (ground arith) in
        let here = subst (λ l. IsSorted (l ++ ((k, w) ∷ rest))) none_left s' in
        rw none_left (find_below q ((k, w) ∷ rest) (o, AllAbove-lt q k rest o here.0))
    compared Ordering.eq o s' ih = absurd (ground arith)
    compared Ordering.gt o s' ih =
        find_after q skipped (k, w) rest s' (lt_of_gt q k o) ∙ ih (ground arith) (ground arith)
