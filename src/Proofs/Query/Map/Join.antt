-- ===== src/Proofs/Query/Map/Join.antt =====
-- `Map::join` of src/proofs/query/map.rs.
use merk.Prelude.{Bool, ◌||◌, List, [], ◌∷◌, Option, none, some, if◌then◌else◌}
use merk.Bytes.{Bytes, eq_bytes}
use merk.Outcome.{Result, ok, panic, ◌>>=◌}
use merk.Btree.{get as btree_get, insert as btree_insert}
use merk.Proofs.Query.Map.{Shown, Map}

-- `BTreeMap::extend`
unfoldable pub extend : List Shown → List Shown → List Shown
unfolding btree_insert
extend entries [] = entries
extend entries ((key, shown) ∷ others) = extend (btree_insert entries key shown) others

-- An entry that both maps have: the values must be equal, and the flags are joined.
abbrev pub join_shadowed : Option (Bool × Bytes) → Shown → Result Shown
join_shadowed none entry = ok entry
join_shadowed (some (shadowed, value)) (key, (contiguous, val)) =
    if eq_bytes val value then ok (key, (contiguous || shadowed, val)) else panic

unfoldable pub join_entries : List Shown → List Shown → Result (List Shown)
unfolding btree_get
join_entries own [] = ok []
join_entries own ((key, shown) ∷ entries) = do
  entry ← join_shadowed (btree_get own key) (key, shown)
  rest ← join_entries own entries
  ok (entry ∷ rest)

unfoldable pub join : Map → Map → Result Map
unfolding join_entries extend
join m other = do
  entries ← join_entries m.entries (extend m.entries other.entries)
  ok (record { entries = entries; right_edge = m.right_edge || other.right_edge })
