-- ===== src/Proofs/Encoding.antt =====
-- src/proofs/encoding.rs: operators as bytes, and the decoder that reads them one by one.
-- `as u8` and `as u16` wrap, as the release build does; the debug assertions are not modelled.
pub mod RoundTrip
pub mod Width
use merk.Prelude.{
  ℕ, zero, suc, ◌+◌, ◌%◌, ◌^◌, ◌<◌, ◌≡◌, List, [], ◌∷◌, ◌++◌, Option, none, some, leb, ◌==◌,
  if◌then◌else◌, length, drop,
}
use merk.Bytes.{Bytes}
use merk.Outcome.{Result, ok, err, panic, ◌>>=◌, Error}
use merk.Proofs.{Node, Op}

-- The integer codecs of the `ed` crate: a byte stands for itself, and a `u16` takes two bytes
-- that read back.
pub record Ed : Type 0 where
  pub decode_u8 : Bytes → Result (ℕ × Bytes)
  pub encode_u16 : ℕ → Bytes
  pub decode_u16 : Bytes → Result (ℕ × Bytes)
  pub decode_u8-cons : (b : ℕ) (rest : Bytes) → decode_u8 (b ∷ rest) ≡ ok (b, rest)
  pub length-encode_u16 : (n : ℕ) → length (encode_u16 n) ≡ 2
  pub decode_u16-encode_u16 :
      (n : ℕ) (rest : Bytes) → n < 2 ^ 16 → decode_u16 (encode_u16 n ++ rest) ≡ ok (n, rest)

-- `Read::read_exact` into a buffer of `n` bytes
unfoldable pub read_exact : ℕ → Bytes → Result (Bytes × Bytes)
read_exact zero bytes = ok ([], bytes)
read_exact (suc n) [] = err Error.ed
read_exact (suc n) (b ∷ bytes) = do (taken, rest) ← read_exact n bytes; ok (b ∷ taken, rest)

unfoldable pub encoding_length : Op → ℕ
encoding_length (Op.push (Node.hash _)) = 1 + 32
encoding_length (Op.push (Node.kv_hash _)) = 1 + 32
encoding_length (Op.push (Node.kv key value)) = 4 + length key + length value
encoding_length Op.parent = 1
encoding_length Op.child = 1

module _ ⦃e : Ed⦄ where
  unfoldable pub encode : Op → Bytes
  encode (Op.push (Node.hash hash)) = 0x01 ∷ hash
  encode (Op.push (Node.kv_hash kv_hash)) = 0x02 ∷ kv_hash
  encode (Op.push (Node.kv key value)) =
      0x03 ∷ (length key % 2 ^ 8) ∷ (key ++ (e.encode_u16 (length value % 2 ^ 16) ++ value))
  encode Op.parent = 0x10 ∷ []
  encode Op.child = 0x11 ∷ []

  -- `encode_into` over the operators of a proof
  unfoldable pub encode_into : List Op → Bytes
  encode_into [] = []
  encode_into (op ∷ ops) = encode op ++ encode_into ops

  -- the branches of the `match` on the variant byte
  decode_hash : Bytes → Result (Op × Bytes)
  decode_hash bytes = do (hash, rest) ← read_exact 32 bytes; ok (Op.push (Node.hash hash), rest)

  decode_kv_hash : Bytes → Result (Op × Bytes)
  decode_kv_hash bytes = do
    (hash, rest) ← read_exact 32 bytes
    ok (Op.push (Node.kv_hash hash), rest)

  decode_kv : Bytes → Result (Op × Bytes)
  decode_kv bytes = do
    (key_len, rest) ← e.decode_u8 bytes
    (key, rest') ← read_exact key_len rest
    (value_len, rest'') ← e.decode_u16 rest'
    (value, rest''') ← read_exact value_len rest''
    ok (Op.push (Node.kv key value), rest''')

  decode_tag : ℕ → Bytes → Result (Op × Bytes)
  decode_tag variant rest =
      if variant == 0x10
      then ok (Op.parent, rest)
      else if variant == 0x11
      then ok (Op.child, rest)
      else err Error.ed

  decode_variant : ℕ → Bytes → Result (Op × Bytes)
  unfolding decode_hash decode_kv_hash decode_kv decode_tag
  decode_variant variant rest =
      if variant == 0x01
      then decode_hash rest
      else if variant == 0x02
      then decode_kv_hash rest
      else if variant == 0x03
      then decode_kv rest
      else decode_tag variant rest

  -- `Decode for Op`, with what is left of the input
  unfoldable pub decode : Bytes → Result (Op × Bytes)
  unfolding decode_variant
  decode bytes = do (variant, rest) ← e.decode_u8 bytes; decode_variant variant rest

pub record Decoder : Type 0 where
  pub offset : ℕ
  pub bytes : Bytes

unfoldable pub new : Bytes → Decoder
new bytes = record { offset = 0; bytes = bytes }

module _ ⦃e : Ed⦄ where
  -- An operator that does not decode leaves the offset where it is.
  item_of : Decoder → Result (Op × Bytes) → Option (Result Op) × Decoder
  item_of d (ok (op, _)) = (some (ok op), record d { offset = d.offset + encoding_length op })
  item_of d (err e) = (some (err e), d)
  item_of d panic = (some panic, d)

  unfoldable pub next : Decoder → Option (Result Op) × Decoder
  unfolding item_of
  next d =
      if leb (length d.bytes) d.offset
      then (none, d)
      else item_of d (decode (drop d.offset d.bytes))

  -- The items that a consumer sees which stops at the first error, as `execute` does.
  follow : (Decoder → List (Result Op)) → Option (Result Op) × Decoder → List (Result Op)
  follow more (none, d) = []
  follow more (some (ok op), d) = ok op ∷ more d
  follow more (some r, d) = r ∷ []

  unfoldable pub items : ℕ → Decoder → List (Result Op)
  unfolding follow
  items zero d = []
  items (suc fuel) d = follow (items fuel) (next d)

  -- Each operator takes a byte at least, so the number of bytes is fuel enough.
  unfoldable pub decode_all : Bytes → List (Result Op)
  decode_all bytes = items (suc (length bytes)) (new bytes)
