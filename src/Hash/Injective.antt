-- ===== src/Hash/Injective.antt =====
-- Equal hashes come from equal parts, or show that the hash function is broken.
use merk.Prelude.{ℕ, ◌^◌, ◌<◌, ◌≡◌, refl, ◌⊎◌, inl, inr, ◌++◌, arith, length, append_injective}
use merk.Bytes.{Bytes}
use merk.Bytes.Order.{bytes_cases}
use merk.Outcome.{ok}
use merk.Hash.{Hasher, le32, kv_message, node_message, kv_hash, node_hash, Broken}

pub le32_injective : (m n : ℕ) → m < 2 ^ 32 → n < 2 ^ 32 → le32 m ≡ le32 n → m ≡ n
unfolding le32
le32_injective m n hm hn e = ground arith

pub node_message_injective :
    (kv left right kv' left' right' : Bytes)
    → length left ≡ length left'
    → length kv ≡ length kv'
    → node_message kv left right ≡ node_message kv' left' right'
    → (kv ≡ kv') × (left ≡ left') × (right ≡ right')
unfolding node_message
node_message_injective kv left right kv' left' right' n m e =
    let (p, q) = append_injective left left' (kv ++ right) (kv' ++ right') n (cc) in
    let (r, s) = append_injective kv kv' right right' m q in (r, p, s)

pub kv_message_injective :
    (k v k' v' : Bytes)
    → length k < 2 ^ 32
    → length k' < 2 ^ 32
    → kv_message k v ≡ kv_message k' v'
    → (k ≡ k') × (v ≡ v')
unfolding kv_message le32
kv_message_injective k v k' v' n m e =
    let (p, q) =
      append_injective (le32 (length k)) (le32 (length k')) (k ++ (le32 (length v) ++ v))
        (k' ++ (le32 (length v') ++ v')) refl (cc) in
    let same : length k ≡ length k' = le32_injective (length k) (length k') n m p in
    let (r, s) = append_injective k k' (le32 (length v) ++ v) (le32 (length v') ++ v') same q in
    let (_, t) = append_injective (le32 (length v)) (le32 (length v')) v v' refl s in (r, t)

module _ ⦃hasher : Hasher⦄ where
  pub digest_injective : (a b : Bytes) → hasher.digest a ≡ hasher.digest b → Broken ⊎ (a ≡ b)
  digest_injective a b e = elim (bytes_cases a b) [
    | inl same ↦ inr same
    | inr differ ↦ inl (Broken.collision a b differ e)
  ]

  pub length-node_hash : (kv left right : Bytes) → length (node_hash kv left right) ≡ 32
  unfolding node_hash
  length-node_hash kv left right = hasher.length-digest (node_message kv left right)

  pub length-kv_hash : (k v : Bytes) {h : Bytes} → kv_hash k v ≡ ok h → length h ≡ 32
  unfolding kv_hash
  length-kv_hash k v e = ground (arith, hasher.length-digest (kv_message k v))

  -- Node hashes of parts with equal lengths agree only if the parts agree, or the hash function is
  -- broken.
  pub node_hash_injective :
      (kv left right kv' left' right' : Bytes)
      → length left ≡ length left'
      → length kv ≡ length kv'
      → node_hash kv left right ≡ node_hash kv' left' right'
      → Broken ⊎ ((kv ≡ kv') × (left ≡ left') × (right ≡ right'))
  unfolding node_hash
  node_hash_injective kv left right kv' left' right' n m e = elim (digest_injective _ _ e) [
    | inl broken ↦ inl broken
    | inr same ↦ inr (node_message_injective kv left right kv' left' right' n m same)
  ]

  -- Two pairs that `kv_hash` takes to one hash are the same pair, or the hash function is broken.
  pub kv_hash_injective :
      (k v k' v' : Bytes) {h : Bytes}
      → kv_hash k v ≡ ok h
      → kv_hash k' v' ≡ ok h
      → Broken ⊎ ((k ≡ k') × (v ≡ v'))
  unfolding kv_hash
  kv_hash_injective k v k' v' {h} e e' =
      let n : length k < 2 ^ 32 = ground arith in
      let m : length k' < 2 ^ 32 = ground arith in
      let same : hasher.digest (kv_message k v) ≡ hasher.digest (kv_message k' v') = ground arith in
      elim (digest_injective _ _ same) [
        | inl broken ↦ inl broken
        | inr eq ↦ inr (kv_message_injective k v k' v' n m eq)
      ]
