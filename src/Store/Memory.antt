-- ===== src/Store/Memory.antt =====
-- A database in memory, for the tests: sorted rows for each column family. It obeys the laws that
-- the theorems assume of RocksDB.
use Prim.Native.Nat.{Ordering}
use mathlib.Core.Path.{subst}
use merk.Prelude.{
  ◌≡◌, refl, sym, ap, ◌∙◌, inl, inr, Bool, true, false, List, [], ◌∷◌, Option, none, some, All,
  All-imp, Bool-cases, if◌then◌else◌, arith,
}
use merk.Bytes.{Bytes, cmp, lt_bytes, eq_bytes}
use merk.Bytes.Order.{◌≺◌, lt_trans, lt_of_gt, lt_of_lt_bytes, eq_of_eq_bytes, eq_bytes_refl}
use merk.Btree.{get, IsSorted}
use merk.Outcome.{ok}
use merk.Proofs.Chunk.{Row}
use merk.Store.Rocks.{Column, Write, Db, IsLawful, written, replay}

unfoldable pub insert_row : Bytes → Bytes → List Row → List Row
insert_row q w [] = (q, w) ∷ []
insert_row q w ((k, v) ∷ rows) =
    let rest = insert_row q w rows in
    if lt_bytes q k
    then (q, w) ∷ (k, v) ∷ rows
    else if eq_bytes q k
    then (q, w) ∷ rows
    else (k, v) ∷ rest

unfoldable pub erase : Bytes → List Row → List Row
erase q [] = []
erase q ((k, v) ∷ rows) = let rest = erase q rows in if eq_bytes q k then rest else (k, v) ∷ rest

above : (q k : Bytes) → lt_bytes q k ≡ false → eq_bytes q k ≡ false → k ≺ q
above q k h h' = by_cmp (cmp q k) refl
  where
    by_cmp : (o : Ordering) → cmp q k ≡ o → k ≺ q
    by_cmp Ordering.lt e = let below : lt_bytes q k ≡ true = rw (e, lt_bytes) refl in cc
    by_cmp Ordering.eq e = let same : eq_bytes q k ≡ true = rw (e, eq_bytes) refl in cc
    by_cmp Ordering.gt e = lt_of_gt q k e

both : (k q k' : Bytes) → eq_bytes k q ≡ true → eq_bytes k k' ≡ true → eq_bytes q k' ≡ true
both k q k' h h' = rw (← eq_of_eq_bytes k q h, ← eq_of_eq_bytes k k' h') (eq_bytes_refl k)

either : (k q k' : Bytes) → eq_bytes q k' ≡ true → eq_bytes k k' ≡ true → eq_bytes k q ≡ true
either k q k' h h' = rw (eq_of_eq_bytes q k' h, eq_of_eq_bytes k k' h') (eq_bytes_refl k')

back : (k q k' : Bytes) → eq_bytes k q ≡ true → eq_bytes q k' ≡ true → eq_bytes k k' ≡ true
back k q k' h h' = rw (eq_of_eq_bytes k q h, eq_of_eq_bytes q k' h') (eq_bytes_refl k')

All-insert_row :
    (P : Row → Type 0) (q w : Bytes) (rows : List Row)
    → P (q, w)
    → All P rows
    → All P (insert_row q w rows)
unfolding insert_row
All-insert_row P q w [] p h = (p, tt)
All-insert_row P q w ((k, v) ∷ rows) p h = elim (Bool-cases (lt_bytes q k)) [
  | inl below ↦ rw (below, All) (p, h)
  | inr over ↦ elim (Bool-cases (eq_bytes q k)) [
    | inl same ↦ rw (over, same, All) (p, h.1)
    | inr other ↦ rw (over, other, All) (h.0, All-insert_row P q w rows p h.1)
  ]
]

All-erase : (P : Row → Type 0) (q : Bytes) (rows : List Row) → All P rows → All P (erase q rows)
unfolding erase
All-erase P q [] h = tt
All-erase P q ((k, v) ∷ rows) h = elim (Bool-cases (eq_bytes q k)) [
  | inl same ↦ rw (same, All) (All-erase P q rows h.1)
  | inr other ↦ rw (other, All) (h.0, All-erase P q rows h.1)
]

pub insert_row-IsSorted :
    (q w : Bytes) (rows : List Row) → IsSorted rows → IsSorted (insert_row q w rows)
unfolding insert_row
insert_row-IsSorted q w [] s = (tt, tt)
insert_row-IsSorted q w ((k, v) ∷ rows) s = elim (Bool-cases (lt_bytes q k)) [
  | inl below ↦
      let l = lt_of_lt_bytes q k below in
      rw (below, IsSorted) ((l, All-imp (λ e h. lt_trans q k e.0 l h) rows s.0), s)
  | inr over ↦ elim (Bool-cases (eq_bytes q k)) [
    | inl same ↦
        rw (over, same, IsSorted)
          (subst (λ x. All (λ e. x ≺ e.0) rows) (sym (eq_of_eq_bytes q k same)) s.0, s.1)
    | inr other ↦
        rw (over, other, IsSorted)
          (
            All-insert_row (λ e. k ≺ e.0) q w rows (above q k over other) s.0,
            insert_row-IsSorted q w rows s.1,
          )
  ]
]

pub erase-IsSorted : (q : Bytes) (rows : List Row) → IsSorted rows → IsSorted (erase q rows)
unfolding erase
erase-IsSorted q [] s = tt
erase-IsSorted q ((k, v) ∷ rows) s = elim (Bool-cases (eq_bytes q k)) [
  | inl same ↦ rw (same, IsSorted) (erase-IsSorted q rows s.1)
  | inr other ↦
      rw (other, IsSorted) (All-erase (λ e. k ≺ e.0) q rows s.0, erase-IsSorted q rows s.1)
]

get-insert_row :
    (q w : Bytes) (rows : List Row) (k : Bytes)
    → get (insert_row q w rows) k ≡ (if eq_bytes k q then some w else get rows k)
unfolding get insert_row
get-insert_row q w [] k = refl
get-insert_row q w ((k', v) ∷ rows) k =
    ground (arith, get-insert_row q w rows k, both k q k', either k q k', back k q k')

get-erase :
    (q : Bytes) (rows : List Row) (k : Bytes)
    → get (erase q rows) k ≡ (if eq_bytes k q then none else get rows k)
unfolding get erase
get-erase q [] k = ground arith
get-erase q ((k', v) ∷ rows) k =
    ground (arith, get-erase q rows k, both k q k', either k q k', back k q k')

-- the rows of one column family
pub record Table : Type 0 where
  pub rows : List Row
  pub sorted : IsSorted rows

pub record Memory : Type 0 where
  pub main : Table
  pub aux : Table
  pub internal : Table

abbrev pub empty_table : Table
empty_table = record { rows = []; sorted = tt }

abbrev pub empty : Memory
empty = record { main = empty_table; aux = empty_table; internal = empty_table }

abbrev column : Column → Memory → Table
column Column.main s = s.main
column Column.aux s = s.aux
column Column.internal s = s.internal

abbrev with_column : Column → Memory → Table → Memory
with_column Column.main s t = record s { main = t }
with_column Column.aux s t = record s { aux = t }
with_column Column.internal s t = record s { internal = t }

abbrev edit : Write → Table → Table
edit (Write.put c k v) t = record {
  rows = insert_row k v t.rows;
  sorted = insert_row-IsSorted k v t.rows t.sorted;
}
edit (Write.delete c k) t = record {
  rows = erase k t.rows;
  sorted = erase-IsSorted k t.rows t.sorted;
}

abbrev of : Write → Column
of (Write.put c k v) = c
of (Write.delete c k) = c

abbrev write_one : Write → Memory → Memory
write_one w s = with_column (of w) s (edit w (column (of w) s))

abbrev write_all : List Write → Memory → Memory
write_all [] s = s
write_all (w ∷ ws) s = write_all ws (write_one w s)

unfoldable pub toy_db : Db Memory
toy_db = record {
  get = λ c k s. ok (get (column c s).rows k);
  write = λ ws s. ok (write_all ws s);
  rows = λ c s. (column c s).rows;
}

-- an option of a conditional, as a result
ok_if : (b : Bool) (x y : Option Bytes) → ok (if b then x else y) ≡ (if b then ok x else ok y)
ok_if true x y = refl
ok_if false x y = refl

write_one-written :
    (w : Write) (c : Column) (k : Bytes) (s : Memory)
    → ok (get (column c (write_one w s)).rows k) ≡ written w c k (ok (get (column c s).rows k))
write_one-written (Write.put Column.main q v) Column.main k s =
    ap ok (get-insert_row q v s.main.rows k) ∙ ok_if (eq_bytes k q) _ _
write_one-written (Write.put Column.aux q v) Column.aux k s =
    ap ok (get-insert_row q v s.aux.rows k) ∙ ok_if (eq_bytes k q) _ _
write_one-written (Write.put Column.internal q v) Column.internal k s =
    ap ok (get-insert_row q v s.internal.rows k) ∙ ok_if (eq_bytes k q) _ _
write_one-written (Write.delete Column.main q) Column.main k s =
    ap ok (get-erase q s.main.rows k) ∙ ok_if (eq_bytes k q) _ _
write_one-written (Write.delete Column.aux q) Column.aux k s =
    ap ok (get-erase q s.aux.rows k) ∙ ok_if (eq_bytes k q) _ _
write_one-written (Write.delete Column.internal q) Column.internal k s =
    ap ok (get-erase q s.internal.rows k) ∙ ok_if (eq_bytes k q) _ _
write_one-written (Write.put Column.main q v) Column.aux k s = refl
write_one-written (Write.put Column.main q v) Column.internal k s = refl
write_one-written (Write.put Column.aux q v) Column.main k s = refl
write_one-written (Write.put Column.aux q v) Column.internal k s = refl
write_one-written (Write.put Column.internal q v) Column.main k s = refl
write_one-written (Write.put Column.internal q v) Column.aux k s = refl
write_one-written (Write.delete Column.main q) Column.aux k s = refl
write_one-written (Write.delete Column.main q) Column.internal k s = refl
write_one-written (Write.delete Column.aux q) Column.main k s = refl
write_one-written (Write.delete Column.aux q) Column.internal k s = refl
write_one-written (Write.delete Column.internal q) Column.main k s = refl
write_one-written (Write.delete Column.internal q) Column.aux k s = refl

write_all-replay :
    (ws : List Write) (c : Column) (k : Bytes) (s : Memory)
    → ok (get (column c (write_all ws s)).rows k) ≡ replay ws c k (ok (get (column c s).rows k))
write_all-replay [] c k s = refl
write_all-replay (w ∷ ws) c k s =
    write_all-replay ws c k (write_one w s) ∙ ap (replay ws c k) (write_one-written w c k s)

pub toy_db-IsLawful : IsLawful toy_db
unfolding toy_db
toy_db-IsLawful = record {
  writes = λ ws s. (write_all ws s, refl, λ c k. write_all-replay ws c k s);
  rows-IsSorted = λ c s. (column c s).sorted;
  rows-get = λ c k s. refl;
}
