-- ===== src/Proofs/Encoding/RoundTrip.antt =====
-- Decoding reads back what encoding wrote, operator by operator and for a whole proof.
use merk.Prelude.{
  ℕ, zero, suc, ◌%◌, ◌^◌, ◌≤◌, ◌<◌, ◌≡◌, refl, ap, ◌∙◌, List, [], ◌∷◌, ◌++◌, map, none, some, false,
  leb, arith, length, length-append, drop-length-append, append_assoc, append-nil, All,
}
use merk.Bytes.{Bytes}
use merk.Outcome.{ok}
use merk.Proofs.{Node, Op}
use merk.Proofs.Encoding.{
  Ed, read_exact, decode_kv, encoding_length, encode, encode_into, decode, next, follow, items,
  decode_all, new,
}

-- What the field widths of the format can hold.
abbrev pub Fits : Op → Type 0
Fits (Op.push (Node.hash hash)) = length hash ≡ 32
Fits (Op.push (Node.kv_hash hash)) = length hash ≡ 32
Fits (Op.push (Node.kv key value)) = (length key < 2 ^ 8) × (length value < 2 ^ 16)
Fits Op.parent = Unit
Fits Op.child = Unit

-- a hash has the length that its type gives it in the source
abbrev pub HasWidth : Op → Type 0
HasWidth (Op.push (Node.hash hash)) = length hash ≡ 32
HasWidth (Op.push (Node.kv_hash hash)) = length hash ≡ 32
HasWidth _ = Unit

Fits-HasWidth : (op : Op) → Fits op → HasWidth op
Fits-HasWidth (Op.push (Node.hash hash)) fits = fits
Fits-HasWidth (Op.push (Node.kv_hash hash)) fits = fits
Fits-HasWidth (Op.push (Node.kv key value)) fits = tt
Fits-HasWidth Op.parent fits = tt
Fits-HasWidth Op.child fits = tt

pub read_exact-append : (xs ys : Bytes) → read_exact (length xs) (xs ++ ys) ≡ ok (xs, ys)
unfolding read_exact
read_exact-append [] ys = refl
read_exact-append (x ∷ xs) ys = rw (read_exact-append xs ys)

pub read_exact-append_eq :
    (n : ℕ) (xs ys : Bytes) → length xs ≡ n → read_exact n (xs ++ ys) ≡ ok (xs, ys)
read_exact-append_eq n xs ys h = rw (← h) (read_exact-append xs ys)

mod_u8 : (n : ℕ) → n < 2 ^ 8 → n % 2 ^ 8 ≡ n
mod_u8 n h = omega arith

mod_u16 : (n : ℕ) → n < 2 ^ 16 → n % 2 ^ 16 ≡ n
mod_u16 n h = omega arith

module _ ⦃e : Ed⦄ where
  decode_kv-append :
      (k v rest : Bytes)
      → length k < 2 ^ 8
      → length v < 2 ^ 16
      → decode_kv ((length k % 2 ^ 8) ∷ (k ++ (e.encode_u16 (length v % 2 ^ 16) ++ (v ++ rest))))
        ≡ ok (Op.push (Node.kv k v), rest)
  unfolding decode_kv
  decode_kv-append k v rest hk hv =
      rw (mod_u8 (length k) hk, mod_u16 (length v) hv)
        (rw (e.decode_u8-cons, read_exact-append k)
          (rw (e.decode_u16-encode_u16 (length v) (v ++ rest) hv) (rw read_exact-append)))

  -- Decoding an operator that fits, with any bytes behind it, gives it back and leaves those bytes.
  pub decode-encode :
      (op : Op) (rest : Bytes) → Fits op → decode (encode op ++ rest) ≡ ok (op, rest)
  unfolding decode encode
  decode-encode (Op.push (Node.hash h)) rest fits =
      rw e.decode_u8-cons (rw (read_exact-append_eq 32 h rest fits))
  decode-encode (Op.push (Node.kv_hash h)) rest fits =
      rw e.decode_u8-cons (rw (read_exact-append_eq 32 h rest fits))
  decode-encode (Op.push (Node.kv k v)) rest fits =
      rw (e.decode_u8-cons, append_assoc, append_assoc) (decode_kv-append k v rest fits.0 fits.1)
  decode-encode Op.parent rest fits = rw e.decode_u8-cons
  decode-encode Op.child rest fits = rw e.decode_u8-cons

  -- For an operator whose hash, if it carries one, has 32 bytes, `encoding_length` is the number of
  -- bytes that `encode` writes, whatever the lengths of its key and its value.
  pub length-encode : (op : Op) → HasWidth op → length (encode op) ≡ encoding_length op
  unfolding encode encoding_length
  length-encode (Op.push (Node.hash h)) width = omega arith
  length-encode (Op.push (Node.kv_hash h)) width = omega arith
  length-encode (Op.push (Node.kv k v)) width = omega (
    arith,
    length-append k (e.encode_u16 (length v % 2 ^ 16) ++ v),
    length-append (e.encode_u16 (length v % 2 ^ 16)) v,
    e.length-encode_u16 (length v % 2 ^ 16),
  )
  length-encode Op.parent width = refl
  length-encode Op.child width = refl

  encoding_length_pos : (op : Op) → 0 < encoding_length op
  unfolding encoding_length
  encoding_length_pos (Op.push (Node.hash h)) = omega arith
  encoding_length_pos (Op.push (Node.kv_hash h)) = omega arith
  encoding_length_pos (Op.push (Node.kv k v)) = omega arith
  encoding_length_pos Op.parent = omega arith
  encoding_length_pos Op.child = omega arith

  more_bytes :
      (done : Bytes) (op : Op) (rest : Bytes)
      → Fits op
      → leb (length (done ++ (encode op ++ rest))) (length done) ≡ false
  more_bytes done op rest fits = ground (
    arith,
    length-append done (encode op ++ rest),
    length-append (encode op) rest,
    length-encode op (Fits-HasWidth op fits),
    encoding_length_pos op,
  )

  -- one step of the decoder, at the start of an operator
  next-encode :
      (done : Bytes) (op : Op) (rest : Bytes)
      → Fits op
      → next (record { offset = length done; bytes = done ++ (encode op ++ rest) }) ≡ (
        some (ok op),
        record { offset = length (done ++ encode op); bytes = (done ++ encode op) ++ rest },
      )
  unfolding next
  next-encode done op rest fits =
      rw (more_bytes done op rest fits, drop-length-append, decode-encode op rest fits)
        (rw (append_assoc, length-append, length-encode op (Fits-HasWidth op fits)))

  next_end :
      (done : Bytes)
      → next (record { offset = length done; bytes = done })
        ≡ (none, record { offset = length done; bytes = done })
  unfolding next
  next_end done = ground arith

  items-encode_into :
      (fuel : ℕ) (done : Bytes) (ops : List Op)
      → length ops < fuel
      → All Fits ops
      → items fuel (record { offset = length done; bytes = done ++ encode_into ops }) ≡ map ok ops
  unfolding items encode_into follow
  items-encode_into zero done ops h fits = elim h [ ]
  items-encode_into (suc fuel) done [] h fits =
      rw append-nil (ap (follow (items fuel)) (next_end done))
  items-encode_into (suc fuel) done (op ∷ ops) h fits =
      ap (follow (items fuel)) (next-encode done op (encode_into ops) fits.0)
      ∙ ap (λ l. ok op ∷ l) (items-encode_into fuel (done ++ encode op) ops (omega arith) fits.1)

  length-encode_into : (ops : List Op) → All Fits ops → length ops ≤ length (encode_into ops)
  unfolding encode_into
  length-encode_into [] fits = omega arith
  length-encode_into (op ∷ ops) fits = omega (
    arith,
    length-append (encode op) (encode_into ops),
    length-encode op (Fits-HasWidth op fits.0),
    encoding_length_pos op,
    length-encode_into ops fits.1,
  )

  -- The decoder reads back the operators of an encoded proof, in order and with no error, if each
  -- fits its fields.
  pub decode_all-encode_into :
      (ops : List Op) → All Fits ops → decode_all (encode_into ops) ≡ map ok ops
  unfolding decode_all new
  decode_all-encode_into ops fits =
      items-encode_into (suc (length (encode_into ops))) [] ops
        (omega (arith, length-encode_into ops fits)) fits
