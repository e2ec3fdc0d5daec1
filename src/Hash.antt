-- ===== src/Hash.antt =====
-- src/tree/hash.rs: the hash of a key and value, and of a node from its children's hashes.
pub mod Injective
use merk.Prelude.{ℕ, ◌/◌, ◌%◌, ◌^◌, ◌≡◌, ◌≢◌, [], ◌∷◌, ◌++◌, ltb, if◌then◌else◌, length, replicate}
use merk.Bytes.{Bytes}
use merk.Outcome.{Result, ok, err, Error}

-- The digest of the `sha2` crate, which takes any input to 32 bytes.
pub record Hasher : Type 0 where
  pub digest : Bytes → Bytes
  pub length-digest : (m : Bytes) → length (digest m) ≡ 32

abbrev pub hash_length : ℕ
hash_length = 32

abbrev pub null_hash : Bytes
null_hash = replicate 32 0

-- `u32::to_le_bytes`
unfoldable pub le32 : ℕ → Bytes
le32 n = (n % 256) ∷ (n / 2 ^ 8 % 256) ∷ (n / 2 ^ 16 % 256) ∷ (n / 2 ^ 24 % 256) ∷ []

-- what `kv_hash` and `node_hash` feed to the hasher
unfoldable pub kv_message : Bytes → Bytes → Bytes
kv_message key value = 0 ∷ (le32 (length key) ++ (key ++ (le32 (length value) ++ value)))

unfoldable pub node_message : Bytes → Bytes → Bytes → Bytes
node_message kv left right = 1 ∷ (left ++ (kv ++ right))

module _ ⦃hasher : Hasher⦄ where
  -- `u32::try_from` fails on a length of 2 ^ 32 or more.
  unfoldable pub kv_hash : Bytes → Bytes → Result Bytes
  kv_hash key value =
      if ltb (length key) (2 ^ 32)
      then if ltb (length value) (2 ^ 32)
        then ok (hasher.digest (kv_message key value))
        else err Error.integer_conversion
      else err Error.integer_conversion

  unfoldable pub node_hash : Bytes → Bytes → Bytes → Bytes
  node_hash kv left right = hasher.digest (node_message kv left right)

  -- What breaks the hash function: two inputs with one digest, or an input whose digest is zero.
  -- The elements of a digest are numbers without a bound, so no counting of the digests makes
  -- this hold of every hasher.
  pub data Broken : Type 0 where
    collision : (a b : Bytes) → a ≢ b → hasher.digest a ≡ hasher.digest b → Broken
    null_preimage : (a : Bytes) → hasher.digest a ≡ null_hash → Broken
