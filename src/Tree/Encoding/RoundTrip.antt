-- ===== src/Tree/Encoding/RoundTrip.antt =====
-- What a node's encoding gives when it is read back: the same node with its children pruned.
use merk.Prelude.{
  ℕ, ◌+◌, ◌%◌, ◌^◌, ◌<◌, ◌≡◌, refl, ap, ◌∙◌, true, false, [], ◌∷◌, ◌++◌, append_assoc, length,
  length-append, arith,
}
use merk.Bytes.{Bytes}
use merk.Outcome.{ok}
use merk.Hash.{Hasher, kv_message}
use merk.Model.{Model}
use merk.Model.Cover.{length-root_hash}
use merk.Proofs.Encoding.RoundTrip.{read_exact-append, read_exact-append_eq}
use merk.Tree.{Tree, MaybeLink, Link, Kv, Heights}
use merk.Tree.Reps.{RepsTree, RepsLink}
use merk.Tree.Commit.{prune_slot}
use merk.Tree.Encoding.{
  EdOption, encode_kv, decode_kv, kv_encoding_length, parts, encode_parts, encode_link,
  link_encoding_length, read_u8, decode_link, encode_slot, encode_tree, decode_tree,
}

mod_u8 : (n : ℕ) → n < 2 ^ 8 → n % 2 ^ 8 ≡ n
mod_u8 n h = omega arith

decode_link-encode_parts :
    (hash k : Bytes) (hs : Heights) (rest : Bytes)
    → length k < 2 ^ 8
    → length hash ≡ 32
    → decode_link (encode_parts hash k hs ++ rest) ≡ ok (Link.reference hash hs k, rest)
unfolding decode_link read_u8
decode_link-encode_parts hash k hs rest b n =
    rw (mod_u8 (length k) b, append_assoc, append_assoc, read_exact-append k)
      (rw (read_exact-append_eq 32 hash (hs.0 ∷ hs.1 ∷ rest) n) refl)

-- A link that has a hash of 32 bytes and a key of less than 2 ^ 8 is read back, with any bytes
-- behind it, as a reference with the same hash, key and heights; and `encoding_length` is the
-- number of bytes written.
pub decode_link-encode_link :
    (l : Link) (hash k : Bytes) (hs : Heights) (rest : Bytes)
    → parts l ≡ ok (hash, k, hs)
    → length k < 2 ^ 8
    → length hash ≡ 32
    → (bytes : Bytes) × (encode_link l ≡ ok bytes)
      × (decode_link (bytes ++ rest) ≡ ok (Link.reference hash hs k, rest))
      × (link_encoding_length l ≡ ok (length bytes))
unfolding encode_link link_encoding_length
decode_link-encode_link l hash k hs rest e b n =
    let size : 1 + length k + 32 + 2 ≡ length (encode_parts hash k hs) = omega (
      arith,
      length-append k (hash ++ (hs.0 ∷ hs.1 ∷ [])),
      length-append hash (hs.0 ∷ hs.1 ∷ []),
    ) in
    (
      encode_parts hash k hs,
      rw e refl,
      decode_link-encode_parts hash k hs rest b n,
      rw e (ap ok size),
    )

-- A pair with a hash of 32 bytes is read back with an empty key.
pub decode_kv-encode_kv :
    (kv : Kv)
    → length kv.hash ≡ 32
    → (decode_kv (encode_kv kv) ≡ ok (record kv { key = [] }))
      × (length (encode_kv kv) ≡ kv_encoding_length kv)
unfolding decode_kv encode_kv kv_encoding_length
decode_kv-encode_kv kv n = (
  rw (read_exact-append_eq 32 kv.hash kv.value n) refl,
  omega (arith, length-append kv.hash kv.value),
)

-- the root's key fits its length byte
abbrev pub FitsKey : Model → Type 0
FitsKey Model.leaf = Unit
FitsKey (Model.bin k v l r) = length k < 2 ^ 8

abbrev pub FitsKeys : Model → Type 0
FitsKeys Model.leaf = Unit
FitsKeys (Model.bin k v l r) = FitsKey l × FitsKey r

module _ ⦃hasher : Hasher⦄ ⦃o : EdOption⦄ where
  record SlotBack (l : MaybeLink) : Type 0 where
    bytes : Bytes
    back : MaybeLink
    encodes : encode_slot l ≡ ok bytes
    prunes : prune_slot true l ≡ ok back
    decodes : (rest : Bytes) → o.decode_option decode_link (bytes ++ rest) ≡ ok (back, rest)

  -- a slot that was written is read back as a reference
  pub decode_option-encode_parts :
      (hash k : Bytes) (hs : Heights) (rest : Bytes)
      → length k < 2 ^ 8
      → length hash ≡ 32
      → o.decode_option decode_link (o.encode_some (encode_parts hash k hs) ++ rest)
        ≡ ok (MaybeLink.linked (Link.reference hash hs k), rest)
  decode_option-encode_parts hash k hs rest b n =
      o.decode_option-encode_some decode_link (encode_parts hash k hs) rest _
        (decode_link-encode_parts hash k hs rest b n)

  parts-SlotBack :
      (l : Link) (hash k : Bytes) (hs : Heights)
      → parts l ≡ ok (hash, k, hs)
      → prune_slot true (MaybeLink.linked l) ≡ ok (MaybeLink.linked (Link.reference hash hs k))
      → length k < 2 ^ 8
      → length hash ≡ 32
      → SlotBack (MaybeLink.linked l)
  unfolding encode_link
  parts-SlotBack l hash k hs e p b n = record {
    bytes = o.encode_some (encode_parts hash k hs);
    back = MaybeLink.linked (Link.reference hash hs k);
    encodes = rw e refl;
    prunes = p;
    decodes = λ rest. decode_option-encode_parts hash k hs rest b n;
  }

  slot-SlotBack : (l : MaybeLink) (m : Model) → RepsLink false l m → FitsKey m → SlotBack l
  slot-SlotBack MaybeLink.unlinked m e b = record {
    bytes = o.encode_none;
    back = MaybeLink.unlinked;
    encodes = refl;
    prunes = refl;
    decodes = λ rest. o.decode_option-encode_none decode_link rest;
  }
  slot-SlotBack (MaybeLink.linked (Link.reference h hs k)) Model.leaf e b = elim e.2 [ ]
  slot-SlotBack (MaybeLink.linked (Link.reference h hs k)) (Model.bin k' v l r) e b =
      parts-SlotBack (Link.reference h hs k) h k hs refl refl (rw (← e.2) b)
        (ap length e.0 ∙ length-root_hash (Model.bin k' v l r))
  slot-SlotBack (MaybeLink.linked (Link.modified n hs t)) m e b = cc
  slot-SlotBack (MaybeLink.linked (Link.uncommitted h hs t)) m e b = elim e [ ]
  slot-SlotBack (MaybeLink.linked (Link.loaded h hs (Tree.tree kv x y))) Model.leaf e b =
      elim e.2 [ ]
  slot-SlotBack (MaybeLink.linked (Link.loaded h hs (Tree.tree kv x y))) (Model.bin k' v l r) e b =
      parts-SlotBack (Link.loaded h hs (Tree.tree kv x y)) h kv.key hs refl refl (rw e.2.0 b)
        (ap length e.0 ∙ length-root_hash (Model.bin k' v l r))

  -- A node with fresh links, whose children have keys shorter than 2 ^ 8, is encoded without a
  -- panic, and reading the bytes back under its key gives the node with both children pruned.
  pub decode_tree-encode_tree :
      (kv : Kv) (l r : MaybeLink) (m : Model)
      → RepsTree false (Tree.tree kv l r) m
      → FitsKeys m
      → (bytes : Bytes) × (l' : MaybeLink) × (r' : MaybeLink) × (encode_tree (Tree.tree kv l r)
          ≡ ok bytes)
        × (prune_slot true l ≡ ok l')
        × (prune_slot true r ≡ ok r')
        × (decode_tree kv.key bytes ≡ ok (Tree.tree kv l' r'))
  unfolding encode_tree decode_tree
  decode_tree-encode_tree kv l r Model.leaf e b = elim e [ ]
  decode_tree-encode_tree kv l r (Model.bin k v ml mr) e b =
      let x = slot-SlotBack l ml e.3 b.0 in
      let y = slot-SlotBack r mr e.4 b.1 in
      let n = ap length e.2 ∙ hasher.length-digest (kv_message k v) in
      (
        x.bytes ++ (y.bytes ++ encode_kv kv),
        x.back,
        y.back,
        rw (x.encodes, y.encodes) refl,
        x.prunes,
        y.prunes,
        rw (x.decodes (y.bytes ++ encode_kv kv))
            (rw (y.decodes (encode_kv kv)) (rw ((decode_kv-encode_kv kv n).0) refl)),
      )
