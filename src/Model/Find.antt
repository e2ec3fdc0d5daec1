-- ===== src/Model/Find.antt =====
-- Looking up in sorted entries.
use merk.Prelude.{
  ◌≡◌, refl, ap, inl, inr, List, [], ◌∷◌, ◌++◌, none, some, arith, if◌then◌else◌, Bool-cases,
}
use merk.Bytes.{Bytes, eq_bytes}
use merk.Bytes.Order.{◌≺◌, lt_trans, eq_of_eq_bytes, eq_bytes-false, eq_bytes-false', eq_bytes_refl}
use merk.Model.{Entry, find, AllAbove, IsSorted}

pub AllAbove-find : (k q v : Bytes) (es : List Entry) → AllAbove k es → find q es ≡ some v → k ≺ q
AllAbove-find k q v [] h e = cc
AllAbove-find k q v ((k', v') ∷ es) h e = elim (Bool-cases (eq_bytes q k')) [
  | inl same ↦ rw (eq_of_eq_bytes q k' same) h.0
  | inr other ↦ AllAbove-find k q v es h.1 (ground arith)
]

pub IsSorted-right : (xs ys : List Entry) → IsSorted (xs ++ ys) → IsSorted ys
IsSorted-right [] ys s = s
IsSorted-right (x ∷ xs) ys s = IsSorted-right xs ys s.1

pub AllAbove-append :
    (k : Bytes) (xs : List Entry) (e : Entry) (ys : List Entry)
    → AllAbove k (xs ++ (e ∷ ys))
    → k ≺ e.0
AllAbove-append k [] e ys h = h.0
AllAbove-append k (x ∷ xs) e ys h = AllAbove-append k xs e ys h.1

pub AllAbove-right : (k : Bytes) (xs ys : List Entry) → AllAbove k (xs ++ ys) → AllAbove k ys
AllAbove-right k [] ys h = h
AllAbove-right k (x ∷ xs) ys h = AllAbove-right k xs ys h.1

-- a key that the later entries hold is not among the earlier ones
pub find-append :
    (q v : Bytes) (xs ys : List Entry)
    → IsSorted (xs ++ ys)
    → find q ys ≡ some v
    → find q (xs ++ ys) ≡ some v
find-append q v [] ys s e = e
find-append q v ((k, w) ∷ xs) ys s e =
    rw (eq_bytes-false' k q (AllAbove-find k q v ys (AllAbove-right k xs ys s.0) e), find)
      (find-append q v xs ys s.1 e)

-- a key above an entry is found behind it, if at all
pub find_after :
    (q : Bytes) (xs : List Entry) (e : Entry) (ys : List Entry)
    → IsSorted (xs ++ (e ∷ ys))
    → e.0 ≺ q
    → find q (xs ++ (e ∷ ys)) ≡ find q ys
find_after q [] e ys s h = rw (eq_bytes-false' e.0 q h, find)
find_after q ((k, w) ∷ xs) e ys s h =
    let below = lt_trans k e.0 q (AllAbove-append k xs e ys s.0) h in
    rw (eq_bytes-false' k q below, find) (find_after q xs e ys s.1 h)

pub find_below : (q : Bytes) (es : List Entry) → AllAbove q es → find q es ≡ none
find_below q [] h = refl
find_below q ((k, v) ∷ es) h = rw (eq_bytes-false q k h.0, find) (find_below q es h.1)

pub AllAbove-lt : (q k : Bytes) (es : List Entry) → q ≺ k → AllAbove k es → AllAbove q es
AllAbove-lt q k [] l h = tt
AllAbove-lt q k ((k', v) ∷ es) l h = (lt_trans q k k' l h.0, AllAbove-lt q k es l h.1)

-- a key below an entry is found before it, if at all
pub find_before :
    (q : Bytes) (xs : List Entry) (e : Entry) (ys : List Entry)
    → IsSorted (xs ++ (e ∷ ys))
    → q ≺ e.0
    → find q (xs ++ (e ∷ ys)) ≡ find q xs
find_before q [] e ys s h = find_below q (e ∷ ys) (h, AllAbove-lt q e.0 ys h s.0)
find_before q ((k, w) ∷ xs) e ys s h =
    ap (λ o. if eq_bytes q k then some w else o) (find_before q xs e ys s.1 h)

pub find_at :
    (xs : List Entry) (k v : Bytes) (ys : List Entry)
    → IsSorted (xs ++ ((k, v) ∷ ys))
    → find k (xs ++ ((k, v) ∷ ys)) ≡ some v
find_at xs k v ys s = find-append k v xs ((k, v) ∷ ys) s (rw (eq_bytes_refl k, find) refl)

pub IsSorted-left : (xs ys : List Entry) → IsSorted (xs ++ ys) → IsSorted xs
IsSorted-left [] ys s = tt
IsSorted-left ((k, v) ∷ xs) ys s = (AllAbove-left k xs ys s.0, IsSorted-left xs ys s.1)
  where
    AllAbove-left : (k : Bytes) (xs ys : List Entry) → AllAbove k (xs ++ ys) → AllAbove k xs
    AllAbove-left k [] ys h = tt
    AllAbove-left k (x ∷ xs) ys h = (h.0, AllAbove-left k xs ys h.1)
