-- ===== src/Proofs/Query/Verify/Forgery.antt =====
-- What `verify` accepts when a child is attached to a node of kind `Hash`: `hash` of
-- src/proofs/tree.rs looks at the node alone, and `execute` attaches to any node.
use merk.Prelude.{
  ◌≡◌, ap, ◌∙◌, ◌^◌, ◌<◌, true, false, List, [], ◌∷◌, map, some, arith, if◌then◌else◌, length, All,
}
use merk.Bytes.{Bytes, eq_bytes}
use merk.Bytes.Order.{eq_bytes_refl}
use merk.Outcome.{ok, err, ◌>>=◌, Error}
use merk.Hash.{Hasher, kv_hash, kv_message}
use merk.Btree.{get as btree_get}
use merk.Proofs.{Node, Op}
use merk.Proofs.Encoding.{Ed, encode_into}
use merk.Proofs.Encoding.RoundTrip.{Fits, decode_all-encode_into}
use merk.Proofs.Tree.{
  hash, execute, run, step, attach_child, try_into_hash, attach, attach_slot, finish, of_node,
}
use merk.Proofs.Query.Map.{Map, new, insert, get}
use merk.Proofs.Query.Map.Absence.{get-found}
use merk.Proofs.Query.Verify.{verify}

-- A key and a value, put to the left of a node that names a hash.
unfoldable pub graft : Bytes → Bytes → Bytes → List Op
graft key value h = Op.push (Node.kv key value) ∷ Op.push (Node.hash h) ∷ Op.parent ∷ []

abbrev grafted : Bytes → Bytes → Map
grafted key value = record { entries = (key, (true, value)) ∷ []; right_edge = false }

module _ ⦃hasher : Hasher⦄ where
  kv_hash-ok :
      (k v : Bytes)
      → length k < 2 ^ 32
      → length v < 2 ^ 32
      → kv_hash k v ≡ ok (hasher.digest (kv_message k v))
  unfolding kv_hash
  kv_hash-ok k v hk hv = ground arith

  execute-graft :
      (k v h : Bytes)
      → length k < 2 ^ 32
      → length v < 2 ^ 32
      → (execute true insert (map ok (graft k v h)) new >>= λ r.
          hash r.0 >>= λ actual. if eq_bytes actual h then ok r.1 else err Error.hash_mismatch)
        ≡ ok (grafted k v)
  unfolding execute run step attach_child try_into_hash attach attach_slot finish of_node hash
      insert new graft
  execute-graft k v h hk hv = rw (kv_hash-ok k v hk hv, eq_bytes_refl h)

get-grafted : (k v : Bytes) → get (grafted k v) k ≡ ok (some v)
unfolding btree_get
get-grafted k v = get-found (grafted k v) k true v (rw (eq_bytes_refl k))

Fits-graft :
    (k v h : Bytes) → length k < 2 ^ 8 → length v < 2 ^ 16 → length h ≡ 32 → All Fits (graft k v h)
unfolding graft
Fits-graft k v h hk hv hh = ((hk, hv), (hh, (tt, tt)))

module _ ⦃hasher : Hasher⦄ ⦃codec : Ed⦄ where
  -- Against any 32-byte hash, `verify` accepts a proof of three operators that shows any key
  -- shorter than 2 ^ 8 with any value shorter than 2 ^ 16, and `get` on its map answers that value.
  pub verify-graft :
      (key value h : Bytes)
      → length key < 2 ^ 8
      → length value < 2 ^ 16
      → length h ≡ 32
      → (verify (encode_into (graft key value h)) h >>= λ m. get m key) ≡ ok (some value)
  unfolding verify
  verify-graft key value h hk hv hh =
      rw (decode_all-encode_into (graft key value h) (Fits-graft key value h hk hv hh)) (
        ap (λ r. r >>= λ m. get m key) (execute-graft key value h (omega arith) (omega arith))
        ∙ get-grafted key value)
