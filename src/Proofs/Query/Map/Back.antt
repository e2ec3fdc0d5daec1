-- ===== src/Proofs/Query/Map/Back.antt =====
-- `next_back` of src/proofs/query/map.rs: the range from its end. It asks the map for the flag of
-- the gap to the right of a key.
use merk.Prelude.{
  ◌≡◌, refl, Bool, true, false, List, [], ◌∷◌, Option, none, some, Bool-cases, inl, inr,
  if◌then◌else◌,
}
use merk.Bytes.{Bytes, lt_bytes, le_bytes, eq_bytes}
use merk.Outcome.{ok, err, Error}
use merk.Btree.{Bound, within, first_key_value}
use merk.Proofs.Query.Map.{Shown, Map, Range, Yield, yield_none_if_contiguous}
use merk.Proofs.Query.Map.Absence.{gap_flag}

-- `map_or(self.right_edge, |(_, (contiguous, _))| *contiguous)`
abbrev pub flag_or : Bool → Option Shown → Bool
flag_or edge none = edge
flag_or edge (some (k, (c, v))) = c

unfoldable pub contiguous_right : Map → Bytes → Bool
contiguous_right m key =
    flag_or m.right_edge (first_key_value (within (Bound.excluded key) Bound.unbounded m.entries))

abbrev pub before_end : Bound → Bytes → Bool
before_end Bound.unbounded key = true
before_end (Bound.included b) key = lt_bytes key b
before_end (Bound.excluded b) key = lt_bytes key b

abbrev pub at_end : Bound → Bytes → Bool
at_end Bound.unbounded key = true
at_end (Bound.included b) key = eq_bytes key b
at_end (Bound.excluded b) key = false

abbrev pub before_start : Bound → Bytes → Bool
before_start Bound.unbounded key = false
before_start (Bound.included b) key = lt_bytes key b
before_start (Bound.excluded b) key = le_bytes key b

-- The branches of `next_back`; `rest` is what the inner iterator has left.
abbrev pub yield_back : Range → List Shown → Shown → Yield × Range
yield_back r rest (key, (_, value)) =
    (some (ok (key, value)), record r { upper = Bound.excluded key; iter = rest })

abbrev pub yield_back_if_contiguous : Range → List Shown → Shown → Bool → Yield × Range
yield_back_if_contiguous r rest entry false =
    (some (err Error.missing_data), record r { done = true; iter = rest })
yield_back_if_contiguous r rest entry true = yield_back r rest entry

-- `yield_next_back_if_contiguous`; `again` is the call of `next_back` on the rest
abbrev pub yield_next_back_if_contiguous : Range → List Shown → Bool → Yield × Range → Yield × Range
yield_next_back_if_contiguous r rest false again =
    (some (err Error.missing_data), record r { done = true; iter = rest })
yield_next_back_if_contiguous r rest true again = again

abbrev pub reverse_onto : List Shown → List Shown → List Shown
reverse_onto [] ys = ys
reverse_onto (x ∷ xs) ys = reverse_onto xs (x ∷ ys)

abbrev pub reversed : List Shown → List Shown
reversed xs = reverse_onto xs []

-- The body of `next_back` where `done` is not set, on the entries that are left, the last one first.
unfoldable pub retreat : Map → Range → List Shown → Yield × Range
unfolding contiguous_right yield_none_if_contiguous
retreat m r [] = yield_none_if_contiguous r [] (contiguous_right m [])
retreat m r ((key, (contiguous_l, value)) ∷ rest) =
    let again = retreat m r rest in
    let contiguous_r = contiguous_right m key in
    if before_start r.lower key
    then yield_none_if_contiguous r (reversed rest) contiguous_r
    else if before_end r.upper key
    then yield_back_if_contiguous r (reversed rest) (key, (contiguous_l, value)) contiguous_r
    else if at_end r.upper key
    then yield_back r (reversed rest) (key, (contiguous_l, value))
    else yield_next_back_if_contiguous r (reversed rest) contiguous_l again

unfoldable pub next_back : Map → Range → Yield × Range
unfolding retreat
next_back m r = if r.done then (none, r) else retreat m r (reversed r.iter)

flag_or-within :
    (q : Bytes) (edge : Bool) (es : List Shown)
    → flag_or edge (first_key_value (within (Bound.excluded q) Bound.unbounded es))
      ≡ gap_flag q es edge
unfolding within gap_flag
flag_or-within q edge [] = refl
flag_or-within q edge ((k, (c, v)) ∷ es) = elim (Bool-cases (lt_bytes q k)) [
  | inl h ↦ rw h refl
  | inr h ↦ rw h (flag_or-within q edge es)
]

-- The flag that iteration from the back asks for, to the right of a key, is the flag of the gap
-- behind the key that iteration from the front and `get` go by: that of the first entry above the
-- key, or the right edge.
pub contiguous_right-gap_flag :
    (m : Map) (q : Bytes) → contiguous_right m q ≡ gap_flag q m.entries m.right_edge
unfolding contiguous_right
contiguous_right-gap_flag m q = flag_or-within q m.right_edge m.entries
