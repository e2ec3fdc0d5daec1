-- ===== src/Proofs/Query/Verify.antt =====
-- `verify` of src/proofs/query/mod.rs: a proof's bytes are executed with collapsing, every node
-- that is pushed goes to the map, and the root's hash must be the expected one.
pub mod Built
pub mod Tells
pub mod Soundness
pub mod Forgery
pub mod Accepts
pub mod Complete
use merk.Prelude.{true, if◌then◌else◌}
use merk.Bytes.{Bytes, eq_bytes}
use merk.Outcome.{Result, ok, err, ◌>>=◌, Error}
use merk.Hash.{Hasher}
use merk.Proofs.Encoding.{Ed, decode_all}
use merk.Proofs.Tree.{hash, execute}
use merk.Proofs.Query.Map.{Map, new, insert}

module _ ⦃hasher : Hasher⦄ ⦃e : Ed⦄ where
  unfoldable pub verify : Bytes → Bytes → Result Map
  verify bytes expected_hash = do
    (root, map) ← execute true insert (decode_all bytes) new
    actual ← hash root
    if eq_bytes actual expected_hash then ok map else err Error.hash_mismatch
