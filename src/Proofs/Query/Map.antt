-- ===== src/Proofs/Query/Map.antt =====
-- src/proofs/query/map.rs: the map that a verified proof gives, and its iterator.
pub mod Window
pub mod Absence
pub mod Back
pub mod Join
use merk.Prelude.{Bool, true, false, List, [], ◌∷◌, Option, none, some, ◌&&◌, ◌||◌, if◌then◌else◌}
use merk.Bytes.{Bytes, lt_bytes, le_bytes, eq_bytes}
use merk.Outcome.{Result, ok, err, panic, ◌>>=◌, Error}
use merk.Btree.{
  Bound, get as btree_get, insert as btree_insert, last_key_value, first_key_value, within,
  range as btree_range,
}
use merk.Proofs.{Node}

-- A key with its flag, whether the gap to its left is known to be empty, and its value.
abbrev pub Shown : Type 0
Shown = Bytes × (Bool × Bytes)

pub record Map : Type 0 where
  pub entries : List Shown
  pub right_edge : Bool

-- `MapBuilder::new`
unfoldable pub new : Map
new = record { entries = []; right_edge = true }

-- `MapBuilder::insert`: a key must be above the last one.
unfoldable pub check_order : Option Shown → Bytes → Map → Result Map
check_order none key m = ok m
check_order (some (prev_key, _)) key m = if le_bytes key prev_key then err Error.key else ok m

unfoldable pub insert : Map → Node → Result Map
unfolding check_order last_key_value btree_insert
insert m (Node.kv key value) =
    check_order (last_key_value m.entries) key
      (record { entries = btree_insert m.entries key (m.right_edge, value); right_edge = true })
insert m (Node.hash h) = ok (record m { right_edge = false })
insert m (Node.kv_hash h) = ok (record m { right_edge = false })

unfoldable pub bound_to_inner : Bound → Option Bytes
bound_to_inner Bound.unbounded = none
bound_to_inner (Bound.included k) = some k
bound_to_inner (Bound.excluded k) = some k

-- The iterator: what is left of the inner iterator, and `right_edge` of the map that it borrows.
pub record Range : Type 0 where
  pub right_edge : Bool
  pub lower : Bound
  pub upper : Bound
  pub done : Bool
  pub iter : List Shown

-- The bounds of the inner iterator: the entries next to the requested range are in it.
unfoldable pub bound_at : Option Shown → Bound
bound_at none = Bound.unbounded
bound_at (some (key, _)) = Bound.included key

unfoldable pub outer_start : Option Bytes → List Shown → Bound
unfolding bound_at last_key_value within
outer_start none entries = Bound.unbounded
outer_start (some k) entries =
    bound_at (last_key_value (within Bound.unbounded (Bound.included k) entries))

unfoldable pub outer_end : Option Bytes → List Shown → Bound
unfolding bound_at within
outer_end none entries = Bound.unbounded
outer_end (some k) entries =
    bound_at (first_key_value (within (Bound.included k) Bound.unbounded entries))

unfoldable pub range : Map → Bound → Bound → Result Range
unfolding outer_start outer_end btree_range bound_to_inner
range m lo hi = do
  iter ←
      btree_range (outer_start (bound_to_inner lo) m.entries)
        (outer_end (bound_to_inner hi) m.entries) m.entries
  ok (record { right_edge = m.right_edge; lower = lo; upper = hi; done = false; iter = iter })

-- what `next` yields: nothing, an entry or an error
abbrev pub Yield : Type 0
Yield = Option (Result (Bytes × Bytes))

abbrev pub past_start : Bound → Bytes → Bool
past_start Bound.unbounded key = true
past_start (Bound.included b) key = lt_bytes b key
past_start (Bound.excluded b) key = lt_bytes b key

abbrev pub at_start : Bound → Bytes → Bool
at_start Bound.unbounded key = true
at_start (Bound.included b) key = eq_bytes key b
at_start (Bound.excluded b) key = false

abbrev pub past_end : Bound → Bytes → Bool
past_end Bound.unbounded key = false
past_end (Bound.included b) key = lt_bytes b key
past_end (Bound.excluded b) key = le_bytes b key

-- the branches of `next`; `rest` is what the inner iterator has left
unfoldable pub yield_entry : Range → List Shown → Shown → Yield × Range
yield_entry r rest (key, (_, value)) =
    (some (ok (key, value)), record r { lower = Bound.excluded key; iter = rest })

unfoldable pub yield_entry_if_contiguous : Range → List Shown → Shown → Bool → Yield × Range
unfolding yield_entry
yield_entry_if_contiguous r rest entry false =
    (some (err Error.missing_data), record r { done = true; iter = rest })
yield_entry_if_contiguous r rest entry true = yield_entry r rest entry

unfoldable pub yield_none_if_contiguous : Range → List Shown → Bool → Yield × Range
yield_none_if_contiguous r rest false =
    (some (err Error.missing_data), record r { done = true; iter = rest })
yield_none_if_contiguous r rest true = (none, record r { done = true; iter = rest })

-- `yield_next_if_contiguous`; `again` is the call of `next` on the rest
unfoldable pub yield_next_if_contiguous : Range → List Shown → Yield × Range → Yield × Range
yield_next_if_contiguous r [] again = again
yield_next_if_contiguous r ((key, (false, value)) ∷ rest) again =
    (some (err Error.missing_data), record r { done = true; iter = (key, (false, value)) ∷ rest })
yield_next_if_contiguous r ((key, (true, value)) ∷ rest) again = again

-- The body of `next` where `done` is not set, on the entries that the inner iterator has left.
unfoldable pub advance : Range → List Shown → Yield × Range
unfolding yield_entry yield_entry_if_contiguous yield_none_if_contiguous yield_next_if_contiguous
advance r [] = yield_none_if_contiguous r [] r.right_edge
advance r ((key, (contiguous, value)) ∷ rest) =
    let again = advance r rest in
    if past_end r.upper key
    then yield_none_if_contiguous r rest contiguous
    else if past_start r.lower key
    then yield_entry_if_contiguous r rest (key, (contiguous, value)) contiguous
    else if at_start r.lower key
    then yield_entry r rest (key, (contiguous, value))
    else yield_next_if_contiguous r rest again

unfoldable pub next : Range → Yield × Range
unfolding advance
next r = if r.done then (none, r) else advance r r.iter

-- `Map::get`
value_of : Yield → Result (Option Bytes)
value_of none = ok none
value_of (some (ok (key, value))) = ok (some value)
value_of (some (err e)) = err e
value_of (some panic) = panic

-- without an exact match the range of the key alone decides
get_or_range : Map → Bytes → Option (Bool × Bytes) → Result (Option Bytes)
unfolding range next value_of
get_or_range m key (some (_, value)) = ok (some value)
get_or_range m key none =
    range m (Bound.included key) (Bound.included key) >>= λ r. value_of (next r).0

unfoldable pub get : Map → Bytes → Result (Option Bytes)
unfolding get_or_range btree_get
get m key = get_or_range m key (btree_get m.entries key)
