-- ===== src/Model/Cover.antt =====
-- The nodes of a proof against the entries of a tree: a key and value stand for one entry, and a
-- hash for entries that are not shown.
use merk.Prelude.{
  ◌≡◌, refl, sym, ap, ◌∙◌, ◌⊎◌, inl, inr, List, [], ◌∷◌, ◌++◌, append_assoc, append-nil, length,
  arith, ◌<◌, ◌^◌,
}
use merk.Bytes.{Bytes}
use merk.Outcome.{ok, >>=-eq-ok}
use merk.Hash.{Hasher, Broken, kv_message, node_message, kv_hash, node_hash, null_hash}
use merk.Hash.Injective.{node_hash_injective, kv_hash_injective, length-node_hash, length-kv_hash}
use merk.Model.{Model, Entry, entries, IsSized, kv_digest, root_hash}
use merk.Proofs.{Node}
use merk.Proofs.Tree.Partial.{Partial, inorder, hash_partial, Leafy}

abbrev pub Covers : List Node → List Entry → Type 0
Covers [] es = es ≡ []
Covers (Node.kv k v ∷ ns) [] = ⊥
Covers (Node.kv k v ∷ ns) ((k', v') ∷ es) = (k ≡ k') × (v ≡ v') × Covers ns es
Covers (Node.hash h ∷ ns) es =
    (skipped : List Entry) × (rest : List Entry) × (es ≡ skipped ++ rest) × Covers ns rest
Covers (Node.kv_hash h ∷ ns) es =
    (skipped : List Entry) × (rest : List Entry) × (es ≡ skipped ++ rest) × Covers ns rest

pub Covers-append :
    (ns ns' : List Node) (es es' : List Entry)
    → Covers ns es
    → Covers ns' es'
    → Covers (ns ++ ns') (es ++ es')
Covers-append [] ns' es es' c c' = rw c c'
Covers-append (Node.kv k v ∷ ns) ns' [] es' c c' = elim c [ ]
Covers-append (Node.kv k v ∷ ns) ns' ((k', v') ∷ es) es' c c' =
    (c.0, c.1, Covers-append ns ns' es es' c.2 c')
Covers-append (Node.hash h ∷ ns) ns' es es' (skipped, rest, e, c) c' =
    (skipped, rest ++ es', rw e (append_assoc skipped rest es'), Covers-append ns ns' rest es' c c')
Covers-append (Node.kv_hash h ∷ ns) ns' es es' (skipped, rest, e, c) c' =
    (skipped, rest ++ es', rw e (append_assoc skipped rest es'), Covers-append ns ns' rest es' c c')

-- Hashes of 32 bytes, as the type `Hash` of the source says.
abbrev pub HasHash : Node → Type 0
HasHash (Node.hash h) = length h ≡ 32
HasHash (Node.kv_hash h) = length h ≡ 32
HasHash (Node.kv k v) = Unit

abbrev pub HasHashes : Partial → Type 0
HasHashes Partial.absent = Unit
HasHashes (Partial.node n l r) = HasHash n × HasHashes l × HasHashes r

module _ ⦃hasher : Hasher⦄ where
  pub length-root_hash : (t : Model) → length (root_hash t) ≡ 32
  length-root_hash Model.leaf = refl
  length-root_hash (Model.bin k v l r) = length-node_hash _ _ _

  -- the hashes that an inner node's hash is made of
  record Parts (kvh : Bytes) (l r : Partial) (h : Bytes) : Type 0 where
    left : Bytes
    right : Bytes
    left_hash : hash_partial l ≡ ok left
    right_hash : hash_partial r ≡ ok right
    whole : node_hash kvh left right ≡ h

  kv_hash-Parts :
      (x : Bytes) (l r : Partial) (h : Bytes)
      → hash_partial (Partial.node (Node.kv_hash x) l r) ≡ ok h
      → Parts x l r h
  kv_hash-Parts x l r h e =
      let (hl, el, e') = >>=-eq-ok (hash_partial l) _ e in
      let (hr, er, e'') = >>=-eq-ok (hash_partial r) _ e' in
      record { left = hl; right = hr; left_hash = el; right_hash = er; whole = cc }

  kv-Parts :
      (k v : Bytes) (l r : Partial) (h : Bytes)
      → hash_partial (Partial.node (Node.kv k v) l r) ≡ ok h
      → (kvh : Bytes) × (kv_hash k v ≡ ok kvh) × Parts kvh l r h
  kv-Parts k v l r h e =
      let (hl, el, e') = >>=-eq-ok (hash_partial l) _ e in
      let (hr, er, e'') = >>=-eq-ok (hash_partial r) _ e' in
      let (kvh, ek, e''') = >>=-eq-ok (kv_hash k v) _ e'' in
      (kvh, ek, record { left = hl; right = hr; left_hash = el; right_hash = er; whole = cc })

  length-hash_partial :
      (p : Partial) (h : Bytes) → HasHashes p → hash_partial p ≡ ok h → length h ≡ 32
  length-hash_partial Partial.absent h s e = let same : null_hash ≡ h = cc in rw (← same) refl
  length-hash_partial (Partial.node (Node.hash x) l r) h s e =
      let same : x ≡ h = cc in rw (← same) s.0
  length-hash_partial (Partial.node (Node.kv_hash x) l r) h s e =
      let p = kv_hash-Parts x l r h e in rw (← p.whole) (length-node_hash x p.left p.right)
  length-hash_partial (Partial.node (Node.kv k v) l r) h s e =
      let (kvh, _, p) = kv-Parts k v l r h e in rw (← p.whole) (length-node_hash kvh p.left p.right)

  -- an inner node whose parts have the hashes of a partial node's parts
  record Inner (kvh : Bytes) (pl pr : Partial) (t : Model) : Type 0 where
    key : Bytes
    value : Bytes
    left : Model
    right : Model
    is_bin : t ≡ Model.bin key value left right
    kv_eq : kvh ≡ kv_digest key value
    left_hash : hash_partial pl ≡ ok (root_hash left)
    right_hash : hash_partial pr ≡ ok (root_hash right)

  Parts-Inner :
      (kvh : Bytes) (pl pr : Partial) (t : Model)
      → Parts kvh pl pr (root_hash t)
      → length kvh ≡ 32
      → HasHashes pl
      → HasHashes pr
      → Broken ⊎ Inner kvh pl pr t
  unfolding node_hash
  Parts-Inner kvh pl pr Model.leaf p n sl sr =
      inl (Broken.null_preimage (node_message kvh p.left p.right) p.whole)
  Parts-Inner kvh pl pr (Model.bin k v l r) p n sl sr =
      let nl = length-hash_partial pl p.left sl p.left_hash ∙ sym (length-root_hash l) in
      let nk = n ∙ sym (hasher.length-digest (kv_message k v)) in
      elim (node_hash_injective kvh p.left p.right (kv_digest k v) (root_hash l) (root_hash r) nl nk
        p.whole) [
          | inl broken ↦ inl broken
          | inr (e, el, er) ↦ inr (record {
            key = k;
            value = v;
            left = l;
            right = r;
            is_bin = refl;
            kv_eq = e;
            left_hash = p.left_hash ∙ ap ok el;
            right_hash = p.right_hash ∙ ap ok er;
          })
        ]

  pub kv_hash-kv_digest :
      (k v : Bytes) → length k < 2 ^ 32 → length v < 2 ^ 32 → kv_hash k v ≡ ok (kv_digest k v)
  unfolding kv_hash
  kv_hash-kv_digest k v hk hv = ground arith

  both : {A B : Type 0} {C : Type 0} → Broken ⊎ A → Broken ⊎ B → (A → B → C) → Broken ⊎ C
  both (inl broken) y f = inl broken
  both (inr a) (inl broken) f = inl broken
  both (inr a) (inr b) f = inr (f a b)

  -- A tree of proof nodes with nothing below a `Hash`, with hashes of 32 bytes and with the root
  -- hash of `t` shows the entries of `t` in order, with gaps where it has hashes; or the hash
  -- function is broken. Keys and values of `t` are shorter than 2 ^ 32.
  pub hash_partial-Covers :
      (p : Partial) (t : Model)
      → Leafy p
      → HasHashes p
      → IsSized t
      → hash_partial p ≡ ok (root_hash t)
      → Broken ⊎ Covers (inorder p) (entries t)
  unfolding node_hash
  hash_partial-Covers Partial.absent Model.leaf lf hs sz e = inr refl
  hash_partial-Covers Partial.absent (Model.bin k v l r) lf hs sz e =
      inl (Broken.null_preimage (node_message (kv_digest k v) (root_hash l) (root_hash r)) (cc))
  hash_partial-Covers (Partial.node (Node.hash x) pl pr) t lf hs sz e =
      rw (lf.0.0, lf.0.1) (inr (entries t, [], sym (append-nil (entries t)), refl))
  hash_partial-Covers (Partial.node (Node.kv_hash x) pl pr) t lf hs sz e =
      elim (Parts-Inner x pl pr t (kv_hash-Parts x pl pr (root_hash t) e) hs.0 hs.1 hs.2) [
        | inl broken ↦ inl broken
        | inr i ↦
            let sized = rw i.is_bin at sz in
            both (hash_partial-Covers pl i.left lf.1 hs.1 sized.2 i.left_hash)
              (hash_partial-Covers pr i.right lf.2 hs.2 sized.3 i.right_hash)
              (λ cl cr. rw i.is_bin (
                Covers-append (inorder pl) (Node.kv_hash x ∷ inorder pr) (entries i.left) _ cl
                  ((i.key, i.value) ∷ [], entries i.right, refl, cr)))
      ]
  hash_partial-Covers (Partial.node (Node.kv a b) pl pr) t lf hs sz e =
      let (kvh, ek, parts) = kv-Parts a b pl pr (root_hash t) e in
      elim (Parts-Inner kvh pl pr t parts (length-kv_hash a b ek) hs.1 hs.2) [
        | inl broken ↦ inl broken
        | inr i ↦
            let sized = rw i.is_bin at sz in
            let same = kv_hash-kv_digest i.key i.value sized.0 sized.1 in
            elim (kv_hash_injective a b i.key i.value (ek ∙ ap ok i.kv_eq) same) [
              | inl broken ↦ inl broken
              | inr (ka, vb) ↦
                  both (hash_partial-Covers pl i.left lf.1 hs.1 sized.2 i.left_hash)
                    (hash_partial-Covers pr i.right lf.2 hs.2 sized.3 i.right_hash)
                    (λ cl cr. rw i.is_bin (
                      Covers-append (inorder pl) (Node.kv a b ∷ inorder pr) (entries i.left) _ cl
                        (ka, vb, cr)))
            ]
      ]
