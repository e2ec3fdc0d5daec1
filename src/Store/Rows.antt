-- ===== src/Store/Rows.antt =====
-- The rows of a database that holds a tree are the tree's rows, in key order.
use Prim.Native.Nat.{Ordering}
use mathlib.Core.Path.{subst}
use merk.Prelude.{
  ◌≡◌, refl, sym, ap, ◌∙◌, inl, inr, true, false, List, [], ◌∷◌, ◌++◌, Option, none, some, All,
  All-append, All-imp, Option-cases, Bool-cases,
}
use merk.Bytes.{Bytes, cmp, eq_bytes}
use merk.Bytes.Order.{
  ◌≺◌, lt_trans, lt_of_gt, eq_of_cmp, eq_of_eq_bytes, eq_bytes_refl, eq_bytes-false,
}
use merk.Btree
use merk.Btree.{get}
use merk.Outcome.{ok}
use merk.Hash.{Hasher}
use merk.Model
use merk.Model.{Model, Entry, entries, AllAbove}
use merk.Proofs.Chunk.{Row}
use merk.Proofs.Chunk.Rows.{Rows}
use merk.Store.{Merk}
use merk.Store.Disk.{Reads, OnDisk, IsFree, reads_of}
use merk.Store.Holds.{Holds}
use merk.Store.Rocks.{Column, Db, IsLawful}
use merk.Tree.Encoding.{EdOption}

get_above : (k : Bytes) (xs : List Row) → All (λ x. k ≺ x.0) xs → get xs k ≡ none
unfolding get
get_above k [] h = refl
get_above k ((k', v) ∷ xs) h = rw (eq_bytes-false k k' h.0) (get_above k xs h.1)

get_head : (x : Row) (xs : List Row) → get (x ∷ xs) x.0 ≡ some x.1
unfolding get
get_head x xs = rw (eq_bytes_refl x.0) refl

get_tail :
    (x : Row) (xs : List Row) (k : Bytes) → eq_bytes k x.0 ≡ false → get (x ∷ xs) k ≡ get xs k
unfolding get
get_tail x xs k h = rw h refl

-- sorted rows are determined by what they hold
pub rows_ext :
    (xs ys : List Row)
    → Btree.IsSorted xs
    → Btree.IsSorted ys
    → ((k : Bytes) → get xs k ≡ get ys k)
    → xs ≡ ys
unfolding get
rows_ext [] [] s t h = refl
rows_ext [] (y ∷ ys) s t h = let missing = h y.0 ∙ get_head y ys in cc
rows_ext (x ∷ xs) [] s t h = let missing = sym (h x.0) ∙ get_head x xs in cc
rows_ext (x ∷ xs) (y ∷ ys) s t h = by_cmp (rows_ext xs ys s.1 t.1) (cmp x.0 y.0) refl
  where
    tails : x.0 ≡ y.0 → (k : Bytes) → get xs k ≡ get ys k
    tails e k = elim (Bool-cases (eq_bytes k x.0)) [
      | inl same ↦
          let here = eq_of_eq_bytes k x.0 same in
          rw here (get_above x.0 xs s.0 ∙ sym (get_above x.0 ys (rw e t.0)))
      | inr other ↦ sym (get_tail x xs k other) ∙ h k ∙ get_tail y ys k (rw (← e) other)
    ]

    by_cmp :
        (((k : Bytes) → get xs k ≡ get ys k) → xs ≡ ys)
        → (o : Ordering) → cmp x.0 y.0 ≡ o
        → x ∷ xs ≡ y ∷ ys
    by_cmp more Ordering.lt l =
        let absent =
          get_above x.0 (y ∷ ys) (l, All-imp (λ z h'. lt_trans x.0 y.0 z.0 l h') ys t.0) in
        let missing = sym (get_head x xs) ∙ h x.0 ∙ absent in cc
    by_cmp more Ordering.gt g =
        let l = lt_of_gt x.0 y.0 g in
        let absent =
          get_above y.0 (x ∷ xs) (l, All-imp (λ z h'. lt_trans y.0 x.0 z.0 l h') xs s.0) in
        let missing = sym absent ∙ h y.0 ∙ get_head y ys in cc
    by_cmp more Ordering.eq c =
        let e = eq_of_cmp x.0 y.0 c in
        let values : some x.1 ≡ some y.1 =
          sym (get_head x xs) ∙ h x.0 ∙ ap (get (y ∷ ys)) e ∙ get_head y ys in
        let value : x.1 ≡ y.1 = cc in
        let rest = more (tails e) in
        ap (λ k. (k, x.1) ∷ xs) e ∙ ap (λ v. (y.0, v) ∷ xs) value ∙ ap (λ zs. y ∷ zs) rest

-- rows and entries with the same keys
abbrev Aligned : List Row → List Entry → Type 0
Aligned [] [] = Unit
Aligned [] (e ∷ es) = ⊥
Aligned (x ∷ xs) [] = ⊥
Aligned (x ∷ xs) (e ∷ es) = (x.0 ≡ e.0) × Aligned xs es

Aligned-append :
    (xs ys : List Row) (es fs : List Entry)
    → Aligned xs es
    → Aligned ys fs
    → Aligned (xs ++ ys) (es ++ fs)
Aligned-append [] ys [] fs a b = b
Aligned-append [] ys (e ∷ es) fs a b = elim a [ ]
Aligned-append (x ∷ xs) ys [] fs a b = elim a [ ]
Aligned-append (x ∷ xs) ys (e ∷ es) fs a b = (a.0, Aligned-append xs ys es fs a.1 b)

Aligned-above :
    (k : Bytes) (xs : List Row) (es : List Entry)
    → Aligned xs es
    → AllAbove k es
    → All (λ x. k ≺ x.0) xs
Aligned-above k [] es a h = tt
Aligned-above k (x ∷ xs) [] a h = elim a [ ]
Aligned-above k (x ∷ xs) (e ∷ es) a h = (rw a.0 h.0, Aligned-above k xs es a.1 h.1)

Aligned-IsSorted :
    (xs : List Row) (es : List Entry) → Aligned xs es → Model.IsSorted es → Btree.IsSorted xs
Aligned-IsSorted [] es a s = tt
Aligned-IsSorted (x ∷ xs) [] a s = elim a [ ]
Aligned-IsSorted (x ∷ xs) (e ∷ es) a s =
    (rw a.0 (Aligned-above e.0 xs es a.1 s.0), Aligned-IsSorted xs es a.1 s.1)

-- a key that the rows do not hold is free
Aligned-IsFree :
    (k : Bytes) (xs : List Row) (es : List Entry) → Aligned xs es → get xs k ≡ none → IsFree k es
unfolding get
Aligned-IsFree k xs [] a h = tt
Aligned-IsFree k [] (e ∷ es) a h = elim a [ ]
Aligned-IsFree k (x ∷ xs) (e ∷ es) a h = elim (Bool-cases (eq_bytes k x.0)) [
  | inl same ↦ let held : get (x ∷ xs) k ≡ some x.1 = rw same refl in cc
  | inr other ↦ (
    (λ here. differ other (a.0 ∙ here)),
    Aligned-IsFree k xs es a.1 (sym (get_tail x xs k other) ∙ h),
  )
]
  where
    differ : eq_bytes k x.0 ≡ false → x.0 ≡ k → ⊥
    differ other e = let same : eq_bytes k x.0 ≡ true = rw e (eq_bytes_refl k) in cc

-- a row that is held is one of them
get-All : (P : Row → Type 0) (xs : List Row) (k v : Bytes) → All P xs → get xs k ≡ some v → P (k, v)
unfolding get
get-All P [] k v h e = cc
get-All P ((k', v') ∷ xs) k v h e = elim (Bool-cases (eq_bytes k k')) [
  | inl same ↦
      let here = eq_of_eq_bytes k k' same in
      let held : some v' ≡ some v =
        sym (get_head (k', v') xs) ∙ ap (get ((k', v') ∷ xs)) (sym here) ∙ e in
      let value : v' ≡ v = cc in subst (λ v. P (k, v)) value (subst (λ k. P (k, v')) (sym here) h.0)
  | inr other ↦ get-All P xs k v h.1 (sym (get_tail (k', v') xs k other) ∙ e)
]

module _ ⦃hasher : Hasher⦄ ⦃o : EdOption⦄ where
  -- the rows of a tree that is on disk
  record DiskRows (reads : Reads) (m : Model) : Type 0 where
    list : List Row
    rows : Rows m list
    aligned : Aligned list (entries m)
    read : All (λ x. reads x.0 ≡ ok (some x.1)) list

  disk_rows : (reads : Reads) (m : Model) → OnDisk reads m → DiskRows reads m
  disk_rows reads Model.leaf d = record { list = []; rows = refl; aligned = tt; read = tt }
  disk_rows reads (Model.bin k v l r) ((encoded, e, node), dl, dr) =
      let a = disk_rows reads l dl in
      let b = disk_rows reads r dr in
      record {
        list = a.list ++ ((k, encoded) ∷ b.list);
        rows = (a.list, b.list, encoded, refl, node, a.rows, b.rows);
        aligned =
            Aligned-append a.list ((k, encoded) ∷ b.list) (entries l) ((k, v) ∷ entries r) a.aligned
              (refl, b.aligned);
        read = All-append _ a.list ((k, encoded) ∷ b.list) a.read (e, b.read);
      }

module _ {S : Type 0} (db : Db S) ⦃hasher : Hasher⦄ ⦃o : EdOption⦄ (lawful : IsLawful db) where
  -- what an iterator over the database goes through
  pub Holds-Rows :
      (merk : Merk S) (m : Model)
      → Model.IsSorted (entries m)
      → Holds db merk m
      → Rows m (db.rows Column.main merk.state)
  Holds-Rows merk m s h =
      let d = disk_rows (reads_of db merk.state) m h.disk in
      let reads : (k : Bytes) → reads_of db merk.state k ≡ ok (get d.list k) = λ k.
        elim (Option-cases (get d.list k)) [
          | inl absent ↦
              h.only k (Aligned-IsFree k d.list (entries m) d.aligned absent) ∙ ap ok (sym absent)
          | inr (v, held) ↦
              get-All (λ x. reads_of db merk.state x.0 ≡ ok (some x.1)) d.list k v d.read held
              ∙ ap ok (sym held)
        ] in
      let same : (k : Bytes) → get d.list k ≡ get (db.rows Column.main merk.state) k =
        λ k. value (sym (reads k) ∙ lawful.rows-get Column.main k merk.state) in
      subst (Rows m)
        (rows_ext d.list (db.rows Column.main merk.state)
          (Aligned-IsSorted d.list (entries m) d.aligned s)
          (lawful.rows-IsSorted Column.main merk.state) same)
        d.rows
    where
      value : {x y : Option Bytes} → ok x ≡ ok y → x ≡ y
      value e = cc
