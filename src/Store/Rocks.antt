-- ===== src/Store/Rocks.antt =====
-- What src/merk uses of RocksDB: reads, batches of writes and iteration, over an unknown state. The
-- model does not say how a database works; the theorems assume `IsLawful`.
use merk.Prelude.{◌≡◌, Bool, true, false, ◌&&◌, List, [], ◌∷◌, Option, none, some, if◌then◌else◌}
use merk.Bytes.{Bytes, eq_bytes}
use merk.Btree.{get, IsSorted}
use merk.Outcome.{Result, ok}

-- the default column family, that of auxiliary values, and the internal one
pub data Column : Type 0 where
  main aux internal : Column

abbrev pub same_column : Column → Column → Bool
same_column Column.main Column.main = true
same_column Column.aux Column.aux = true
same_column Column.internal Column.internal = true
same_column _ _ = false

-- an entry of a `WriteBatch`
pub data Write : Type 0 where
  put : Column → Bytes → Bytes → Write
  delete : Column → Bytes → Write

pub record Db (S : Type 0) : Type 0 where
  pub get : Column → Bytes → S → Result (Option Bytes)
  pub write : List Write → S → Result S
  pub rows : Column → S → List (Bytes × Bytes)

-- what one entry makes of the value under a key
abbrev pub written : Write → Column → Bytes → Result (Option Bytes) → Result (Option Bytes)
written (Write.put c k v) c' k' old = if same_column c' c && eq_bytes k' k then ok (some v) else old
written (Write.delete c k) c' k' old = if same_column c' c && eq_bytes k' k then ok none else old

-- a batch, its entries in order
abbrev pub replay : List Write → Column → Bytes → Result (Option Bytes) → Result (Option Bytes)
replay [] c k old = old
replay (w ∷ ws) c k old = replay ws c k (written w c k old)

-- A batch is written as a whole, and its entries take effect in order; an iterator goes through the
-- rows of a column family in key order.
pub record IsLawful {S : Type 0} (db : Db S) : Type 0 where
  pub writes :
      (ws : List Write) (s : S)
      → (s' : S) × (db.write ws s ≡ ok s')
        × ((c : Column) (k : Bytes) → db.get c k s' ≡ replay ws c k (db.get c k s))
  pub rows-IsSorted : (c : Column) (s : S) → IsSorted (db.rows c s)
  pub rows-get : (c : Column) (k : Bytes) (s : S) → db.get c k s ≡ ok (get (db.rows c s) k)
