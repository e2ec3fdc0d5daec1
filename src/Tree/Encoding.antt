-- ===== src/Tree/Encoding.antt =====
-- src/tree/encoding.rs, and the encodings of src/tree/kv.rs and src/tree/link.rs.
pub mod RoundTrip
use merk.Prelude.{ℕ, ◌+◌, ◌%◌, ◌^◌, ◌≡◌, List, [], ◌∷◌, ◌++◌, length}
use merk.Bytes.{Bytes}
use merk.Outcome.{Result, ok, err, panic, ◌>>=◌, Error}
use merk.Proofs.Encoding.{read_exact}
use merk.Tree.{Tree, MaybeLink, Link, Kv, Heights}

-- What the `ed` crate makes of `Option<Link>`: a mark, with the link's bytes behind it if there is
-- a link. Its derive writes and reads the fields of `TreeInner` in the order of the source.
pub record EdOption : Type 0 where
  pub encode_none : Bytes
  pub encode_some : Bytes → Bytes
  pub decode_option : (Bytes → Result (Link × Bytes)) → Bytes → Result (MaybeLink × Bytes)
  pub decode_option-encode_none :
      (decode : Bytes → Result (Link × Bytes)) (rest : Bytes)
      → decode_option decode (encode_none ++ rest) ≡ ok (MaybeLink.unlinked, rest)
  pub decode_option-encode_some :
      (decode : Bytes → Result (Link × Bytes)) (bytes rest : Bytes) (l : Link)
      → decode (bytes ++ rest) ≡ ok (l, rest)
      → decode_option decode (encode_some bytes ++ rest) ≡ ok (MaybeLink.linked l, rest)

-- `KV`: the key is not written, and the value goes on to the end.
unfoldable pub encode_kv : Kv → Bytes
encode_kv kv = kv.hash ++ kv.value

unfoldable pub decode_kv : Bytes → Result Kv
decode_kv bytes = do
  (hash, rest) ← read_exact 32 bytes
  ok (record { key = []; value = rest; hash = hash })

unfoldable pub kv_encoding_length : Kv → ℕ
kv_encoding_length kv = 32 + length kv.value

-- the parts of a link that are written
abbrev pub parts : Link → Result (Bytes × Bytes × Heights)
parts (Link.reference hash hs key) = ok (hash, key, hs)
parts (Link.loaded hash hs (Tree.tree kv l r)) = ok (hash, kv.key, hs)
parts (Link.uncommitted hash hs (Tree.tree kv l r)) = ok (hash, kv.key, hs)
parts (Link.modified n hs t) = panic

abbrev pub encode_parts : Bytes → Bytes → Heights → Bytes
encode_parts hash key hs = (length key % 2 ^ 8) ∷ (key ++ (hash ++ (hs.0 ∷ hs.1 ∷ [])))

unfoldable pub encode_link : Link → Result Bytes
encode_link l = do (hash, key, hs) ← parts l; ok (encode_parts hash key hs)

unfoldable pub link_encoding_length : Link → Result ℕ
link_encoding_length l = do (hash, key, hs) ← parts l; ok (1 + length key + 32 + 2)

-- `read_u8` of src/tree/link.rs
unfoldable pub read_u8 : Bytes → Result (ℕ × Bytes)
read_u8 [] = err Error.ed
read_u8 (b ∷ bytes) = ok (b, bytes)

unfoldable pub decode_link : Bytes → Result (Link × Bytes)
unfolding read_u8
decode_link bytes = do
  (length, rest) ← read_u8 bytes
  (key, rest) ← read_exact length rest
  (hash, rest) ← read_exact 32 rest
  (left, rest) ← read_u8 rest
  (right, rest) ← read_u8 rest
  ok (Link.reference hash (left, right) key, rest)

-- `unwrap`
abbrev pub unwrap : {A : Type 0} → Result A → Result A
unwrap (ok a) = ok a
unwrap (err e) = panic
unwrap panic = panic

module _ ⦃o : EdOption⦄ where
  abbrev pub encode_slot : MaybeLink → Result Bytes
  encode_slot MaybeLink.unlinked = ok o.encode_none
  encode_slot (MaybeLink.linked l) = do bytes ← encode_link l; ok (o.encode_some bytes)

  unfoldable pub encode_tree : Tree → Result Bytes
  encode_tree (Tree.tree kv l r) =
      unwrap (do left ← encode_slot l; right ← encode_slot r; ok (left ++ (right ++ encode_kv kv)))

  unfoldable pub decode_tree : Bytes → Bytes → Result Tree
  decode_tree key bytes = unwrap (do
    (l, rest) ← o.decode_option decode_link bytes
    (r, rest) ← o.decode_option decode_link rest
    kv ← decode_kv rest
    ok (Tree.tree (record kv { key = key }) l r))
