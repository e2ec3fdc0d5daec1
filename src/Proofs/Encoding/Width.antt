-- ===== src/Proofs/Encoding/Width.antt =====
-- Every hash that the decoder reads is 32 bytes long, as the type `Hash` of the source says.
use merk.Prelude.{
  ℕ, zero, suc, ◌≡◌, refl, ap, Bool, true, false, [], ◌∷◌, Option, none, some, All, All-append,
  length, drop, leb, ◌==◌, if◌then◌else◌,
}
use merk.Bytes.{Bytes}
use merk.Outcome.{Result, ok, err, panic, Ensures, Ensures_at, Ensures-bind, Error}
use merk.Model.Cover.{HasHash}
use merk.Proofs.{Op}
use merk.Proofs.Encoding.{
  Ed, Decoder, read_exact, decode_hash, decode_kv_hash, decode_kv, decode_tag, decode_variant,
  decode, next, item_of, follow, items, decode_all, new,
}
use merk.Proofs.Tree.Partial.{pushes, pushed}

read_exact-length : (n : ℕ) (bytes : Bytes) → Ensures (λ r. length r.0 ≡ n) (read_exact n bytes)
unfolding read_exact
read_exact-length zero bytes = refl
read_exact-length (suc n) [] = tt
read_exact-length (suc n) (b ∷ bytes) =
    Ensures-bind _ (read_exact n bytes) _
      (λ r e. ap suc (Ensures_at _ _ r e (read_exact-length n bytes)))

-- the hash that an operator carries
abbrev OpHasHash : Op × Bytes → Type 0
OpHasHash r = All HasHash (pushed r.0)

if_Ensures :
    {A : Type 0} (P : A → Type 0) (b : Bool) (x y : Result A)
    → Ensures P x
    → Ensures P y
    → Ensures P (if b then x else y)
if_Ensures P true x y hx hy = hx
if_Ensures P false x y hx hy = hy

module _ ⦃e : Ed⦄ where
  decode_hash-HasHash : (bytes : Bytes) → Ensures OpHasHash (decode_hash bytes)
  unfolding decode_hash
  decode_hash-HasHash bytes =
      Ensures-bind _ (read_exact 32 bytes) _
        λ r h. (Ensures_at _ _ r h (read_exact-length 32 bytes), tt)

  decode_kv_hash-HasHash : (bytes : Bytes) → Ensures OpHasHash (decode_kv_hash bytes)
  unfolding decode_kv_hash
  decode_kv_hash-HasHash bytes =
      Ensures-bind _ (read_exact 32 bytes) _
        λ r h. (Ensures_at _ _ r h (read_exact-length 32 bytes), tt)

  decode_kv-HasHash : (bytes : Bytes) → Ensures OpHasHash (decode_kv bytes)
  unfolding decode_kv
  decode_kv-HasHash bytes = Ensures-bind _ (e.decode_u8 bytes) _ λ a _.
      Ensures-bind _ (read_exact a.0 a.1) _ λ b _.
        Ensures-bind _ (e.decode_u16 b.1) _
          λ c _. Ensures-bind _ (read_exact c.0 c.1) _ λ d _. (tt, tt)

  decode_tag-HasHash : (v : ℕ) (rest : Bytes) → Ensures OpHasHash (decode_tag v rest)
  unfolding decode_tag
  decode_tag-HasHash v rest =
      if_Ensures OpHasHash (v == 0x10) (ok (Op.parent, rest))
        (if v == 0x11 then ok (Op.child, rest) else err Error.ed) tt
        (if_Ensures OpHasHash (v == 0x11) (ok (Op.child, rest)) (err Error.ed) tt tt)

  decode-HasHash : (bytes : Bytes) → Ensures OpHasHash (decode bytes)
  unfolding decode
  decode-HasHash bytes = Ensures-bind _ (e.decode_u8 bytes) _ λ v _. variant v.0 v.1
    where
      variant : (v : ℕ) (rest : Bytes) → Ensures OpHasHash (decode_variant v rest)
      variant v rest =
          if_Ensures OpHasHash (v == 0x01) (decode_hash rest) _ (decode_hash-HasHash rest) (
            if_Ensures OpHasHash (v == 0x02) (decode_kv_hash rest)
              (if v == 0x03 then decode_kv rest else decode_tag v rest)
              (decode_kv_hash-HasHash rest)
              (if_Ensures OpHasHash (v == 0x03) (decode_kv rest) (decode_tag v rest)
                (decode_kv-HasHash rest) (decode_tag-HasHash v rest)))

  -- what an item of the decoder carries
  abbrev ItemHasHash : Option (Result Op) × Decoder → Type 0
  ItemHasHash (none, d) = Unit
  ItemHasHash (some (ok op), d) = All HasHash (pushed op)
  ItemHasHash (some (err x), d) = Unit
  ItemHasHash (some panic, d) = Unit

  next-HasHash : (d : Decoder) → ItemHasHash (next d)
  unfolding next
  next-HasHash d =
      either (leb (length d.bytes) d.offset) (decode (drop d.offset d.bytes))
        (decode-HasHash (drop d.offset d.bytes))
    where
      either :
          (b : Bool) (r : Result (Op × Bytes))
          → Ensures OpHasHash r
          → ItemHasHash (if b then (none, d) else item_of d r)
      either true r h = tt
      either false (ok x) h = h
      either false (err x) h = tt
      either false panic h = tt

  items-HasHash : (fuel : ℕ) (d : Decoder) → All HasHash (pushes (items fuel d))
  unfolding items
  items-HasHash zero d = tt
  items-HasHash (suc fuel) d = following (items-HasHash fuel) (next d) (next-HasHash d)
    where
      following :
          ((d : Decoder) → All HasHash (pushes (items fuel d)))
          → (r : Option (Result Op) × Decoder) → ItemHasHash r
          → All HasHash (pushes (follow (items fuel) r))
      following ih (none, d') h = tt
      following ih (some (ok op), d') h =
          All-append HasHash (pushed op) (pushes (items fuel d')) h (ih d')
      following ih (some (err x), d') h = tt
      following ih (some panic, d') h = tt

  -- Every hash in a decoded proof is 32 bytes long.
  pub decode_all-HasHash : (bytes : Bytes) → All HasHash (pushes (decode_all bytes))
  unfolding decode_all
  decode_all-HasHash bytes = items-HasHash (suc (length bytes)) (new bytes)
