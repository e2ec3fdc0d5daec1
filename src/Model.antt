-- ===== src/Model.antt =====
-- What a Merk tree means: a binary tree of keys and values, with the root hash that the source's
-- hashing gives it. The theorems compare the detailed trees of the source with it.
pub mod Cover
pub mod Find
use merk.Prelude.{
  ◌+◌, ◌^◌, ◌<◌, ℕ, List, [], ◌∷◌, ◌++◌, Option, none, some, max, if◌then◌else◌, length,
}
use merk.Bytes.{Bytes, eq_bytes}
use merk.Bytes.Order.{◌≺◌}
use merk.Hash.{Hasher, null_hash, kv_message, node_hash}

pub data Model : Type 0 where
  leaf : Model
  bin : Bytes → Bytes → Model → Model → Model

abbrev pub Entry : Type 0
Entry = Bytes × Bytes

abbrev pub entries : Model → List Entry
entries Model.leaf = []
entries (Model.bin k v l r) = entries l ++ ((k, v) ∷ entries r)

abbrev pub height : Model → ℕ
height Model.leaf = 0
height (Model.bin k v l r) = 1 + max (height l) (height r)

abbrev pub find : Bytes → List Entry → Option Bytes
find q [] = none
find q ((k, v) ∷ es) = if eq_bytes q k then some v else find q es

-- Every key of the list is above `k`; keys increase strictly.
abbrev pub AllAbove : Bytes → List Entry → Type 0
AllAbove k [] = Unit
AllAbove k ((k', v) ∷ es) = (k ≺ k') × AllAbove k es

abbrev pub IsSorted : List Entry → Type 0
IsSorted [] = Unit
IsSorted ((k, v) ∷ es) = AllAbove k es × IsSorted es

-- Lengths that `kv_hash` accepts.
abbrev pub IsSized : Model → Type 0
IsSized Model.leaf = Unit
IsSized (Model.bin k v l r) = (length k < 2 ^ 32) × (length v < 2 ^ 32) × IsSized l × IsSized r

module _ ⦃hasher : Hasher⦄ where
  abbrev pub kv_digest : Bytes → Bytes → Bytes
  kv_digest k v = hasher.digest (kv_message k v)

  abbrev pub root_hash : Model → Bytes
  root_hash Model.leaf = null_hash
  root_hash (Model.bin k v l r) = node_hash (kv_digest k v) (root_hash l) (root_hash r)
