-- ===== src/Proofs/Query/Map/Absence.antt =====
-- `get` on a key that the map does not hold: the iterator is asked for the range of that one key,
-- and its answer turns on the flag of the gap that the key falls in.
use mathlib.Core.Path.{subst}
use merk.Prelude.{
  ◌≡◌, refl, sym, ap, ◌∙◌, Bool, true, false, List, [], ◌∷◌, ◌++◌, Option, none, some, All, arith,
  if◌then◌else◌,
}
use merk.Bytes.{Bytes, lt_bytes}
use merk.Bytes.Order.{◌≺◌, gt_of_lt, lt_bytes-true, lt_bytes-false}
use merk.Outcome.{ok, err, ◌>>=◌, Error}
use merk.Btree.{Bound, get as btree_get, last_key_value, first_key_value, IsSorted}
use merk.Btree.Laws.{Split-at}
use merk.Proofs.Query.Map.{Shown, Map, range, advance, next, value_of, get, get_or_range}
use merk.Proofs.Query.Map.Window.{
  list_of, IsBelow, IsAbove, last-IsBelow, first-IsAbove, range-window,
}

-- The flag of the gap that `q` falls in: of the first entry above it, or of the right edge.
unfoldable pub gap_flag : Bytes → List Shown → Bool → Bool
gap_flag q [] edge = edge
gap_flag q ((k, (c, v)) ∷ m) edge = if lt_bytes q k then c else gap_flag q m edge

gap_flag-append :
    (q : Bytes) (m m' : List Shown) (edge : Bool)
    → All (λ e. e.0 ≺ q) m
    → gap_flag q (m ++ m') edge ≡ gap_flag q m' edge
unfolding gap_flag
gap_flag-append q [] m' edge h = refl
gap_flag-append q ((k, (c, v)) ∷ m) m' edge h =
    rw (lt_bytes-false k q h.0, gap_flag) (gap_flag-append q m m' edge h.1)

-- the flag of the entry above, or of the right edge
flag_of : Option Shown → Bool → Bool
flag_of none edge = edge
flag_of (some (k, (c, v))) edge = c

gap_flag-first :
    (q : Bytes) (above : List Shown) (edge : Bool)
    → All (λ e. q ≺ e.0) above
    → gap_flag q above edge ≡ flag_of (first_key_value above) edge
unfolding gap_flag flag_of
gap_flag-first q [] edge h = refl
gap_flag-first q ((k, (c, v)) ∷ above) edge h = rw (lt_bytes-true q k h.0, gap_flag)

advance-window :
    (q : Bytes) (edge : Bool) (rest : List Shown) (p n : Option Shown)
    → IsBelow q p
    → IsAbove q n
    → value_of
        (advance
          (record {
            right_edge = edge;
            lower = Bound.included q;
            upper = Bound.included q;
            done = false;
            iter = rest;
          })
          (list_of p ++ list_of n)).0
      ≡ (if flag_of n edge then ok none else err Error.missing_data)
unfolding advance list_of flag_of value_of
advance-window q true rest none none hp hn = refl
advance-window q false rest none none hp hn = refl
advance-window q edge rest none (some (k, (true, v))) hp hn = ground arith
advance-window q edge rest none (some (k, (false, v))) hp hn = ground arith
advance-window q true rest (some (j, (d, w))) none hp hn = ground (arith, gt_of_lt j q hp)
advance-window q false rest (some (j, (d, w))) none hp hn = ground (arith, gt_of_lt j q hp)
advance-window q edge rest (some (j, (d, w))) (some (k, (true, v))) hp hn =
    ground (arith, gt_of_lt j q hp)
advance-window q edge rest (some (j, (d, w))) (some (k, (false, v))) hp hn =
    ground (arith, gt_of_lt j q hp)

-- In a sorted map, a key that the map does not hold is answered by the flag of its gap: it is
-- proven to be absent, or data is missing.
pub get-absent :
    (m : Map) (q : Bytes)
    → IsSorted m.entries
    → btree_get m.entries q ≡ none
    → get m q ≡ (if gap_flag q m.entries m.right_edge then ok none else err Error.missing_data)
unfolding get next
get-absent m q s h =
    let sp = Split-at q m.entries s h in
    ap (get_or_range m q) h
    ∙ subst
        (λ l.
          (range (record { entries = l; right_edge = m.right_edge }) (Bound.included q)
              (Bound.included q)
            >>= λ r. value_of (next r).0)
          ≡ (if gap_flag q l m.right_edge then ok none else err Error.missing_data))
        (sym sp.whole)
        (ap (λ r. r >>= λ r. value_of (next r).0)
            (range-window q sp.below sp.above m.right_edge (subst IsSorted sp.whole s) sp.all_below
              sp.all_above)
          ∙ advance-window q m.right_edge
              (list_of (last_key_value sp.below) ++ list_of (first_key_value sp.above))
              (last_key_value sp.below) (first_key_value sp.above)
              (last-IsBelow q sp.below sp.all_below) (first-IsAbove q sp.above sp.all_above)
          ∙ ap (λ c. if c then ok none else err Error.missing_data)
              (sym (
                gap_flag-append q sp.below sp.above m.right_edge sp.all_below
                ∙ gap_flag-first q sp.above m.right_edge sp.all_above)))

-- A key that the map holds is answered by its value.
pub get-found :
    (m : Map) (q : Bytes) (c : Bool) (v : Bytes)
    → btree_get m.entries q ≡ some (c, v)
    → get m q ≡ ok (some v)
unfolding get get_or_range
get-found m q c v h = ap (get_or_range m q) h
