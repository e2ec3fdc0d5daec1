-- ===== src/Proofs/Chunk/Rows.antt =====
-- `get_next_chunk` on the rows of a subtree: the program of the whole subtree, and the iterator is
-- left behind the row of the end key.
use mathlib.Core.Path.{subst}
use merk.Prelude.{◌≡◌, refl, sym, ap, true, false, List, [], ◌∷◌, ◌++◌}
use merk.Bytes.{Bytes}
use merk.Outcome.{Result, ok, err, panic, >>=-eq-ok}
use merk.Hash.{Hasher}
use merk.Model.{Model}
use merk.Proofs.{Node, Op}
use merk.Proofs.Chunk.{Row, is_linked, parent_if}
use merk.Proofs.Tree.Partial.{Partial}
use merk.Proofs.Tree.Postfix.{mark}
use merk.Tree.{Tree, MaybeLink, Link, Kv, link_key, link, kv_of}
use merk.Tree.Commit.{prune_slot}
use merk.Tree.Encoding.{EdOption, encode_tree, decode_tree, decode_kv, decode_link, unwrap}
use merk.Tree.Encoding.RoundTrip.{FitsKeys, decode_tree-encode_tree}
use merk.Tree.Reps.{RepsTree, RepsLink, HasKey}

-- the whole of a tree, as a partial tree
abbrev pub full : Model → Partial
full Model.leaf = Partial.absent
full (Model.bin k v l r) = Partial.node (Node.kv k v) (full l) (full r)

-- what a link is for a subtree
abbrev pub Shape : MaybeLink → Model → Type 0
Shape MaybeLink.unlinked m = m ≡ Model.leaf
Shape (MaybeLink.linked l) m = HasKey m (link_key l)

pub Shape-mark :
    (l : MaybeLink) (m : Model) (op : Op)
    → Shape l m
    → parent_if (is_linked l) ≡ mark (full m) Op.parent
Shape-mark MaybeLink.unlinked m op s = rw s refl
Shape-mark (MaybeLink.linked l) Model.leaf op s = elim s [ ]
Shape-mark (MaybeLink.linked l) (Model.bin k v x y) op s = refl

module _ ⦃hasher : Hasher⦄ where
  prune_slot-Shape :
      (l l' : MaybeLink) (m : Model) → RepsLink false l m → prune_slot true l ≡ ok l' → Shape l' m
  prune_slot-Shape MaybeLink.unlinked l' m e p =
      let same : MaybeLink.unlinked ≡ l' = cc in subst (λ x. Shape x m) same e
  prune_slot-Shape (MaybeLink.linked (Link.reference h hs k)) l' m e p =
      let same : MaybeLink.linked (Link.reference h hs k) ≡ l' = cc in
      subst (λ x. Shape x m) same e.2
  prune_slot-Shape (MaybeLink.linked (Link.modified n hs t)) l' m e p = cc
  prune_slot-Shape (MaybeLink.linked (Link.uncommitted h hs t)) l' m e p = cc
  prune_slot-Shape (MaybeLink.linked (Link.loaded h hs (Tree.tree kv x y))) l' Model.leaf e p =
      elim e.2 [ ]
  prune_slot-Shape (MaybeLink.linked (Link.loaded h hs (Tree.tree kv x y))) l' (Model.bin k v ml mr)
        e p =
      let same : MaybeLink.linked (Link.reference h hs kv.key) ≡ l' = cc in
      subst (λ x. Shape x (Model.bin k v ml mr)) same (sym e.2.0)

unwrap-ok : {A : Type 0} (r : Result A) (a : A) → unwrap r ≡ ok a → r ≡ ok a
unwrap-ok (ok b) a e = e
unwrap-ok (err x) a e = cc
unwrap-ok panic a e = cc

module _ ⦃o : EdOption⦄ where
  -- the key is put into the node that the bytes give
  decode_tree-key :
      (k k' bytes : Bytes) (kv : Kv) (l r : MaybeLink)
      → decode_tree k bytes ≡ ok (Tree.tree kv l r)
      → decode_tree k' bytes ≡ ok (Tree.tree (record kv { key = k' }) l r)
  unfolding decode_tree
  decode_tree-key k k' bytes kv l r e =
      let (left, el, e₁) = >>=-eq-ok (o.decode_option decode_link bytes) _ (unwrap-ok _ _ e) in
      let (right, er, e₂) = >>=-eq-ok (o.decode_option decode_link left.1) _ e₁ in
      let (pair, ep, e₃) = >>=-eq-ok (decode_kv right.1) _ e₂ in
      let built : Tree.tree (record pair { key = k }) left.0 right.0 ≡ Tree.tree kv l r = cc in
      rw (el, er, ep)
        (ap (λ t. ok (Tree.tree (record (kv_of t) { key = k' }) (link t true) (link t false)))
          built)

module _ ⦃hasher : Hasher⦄ ⦃o : EdOption⦄ where
  -- a row's bytes are the encoding of a node with fresh links
  abbrev pub Encodes : Bytes → Model → Type 0
  Encodes encoded m = (t : Tree) × (encode_tree t ≡ ok encoded) × RepsTree false t m

  -- The rows of a subtree, in the order of the keys.
  abbrev pub Rows : Model → List Row → Type 0
  Rows Model.leaf rows = rows ≡ []
  Rows (Model.bin k v l r) rows =
      (before : List Row) × (after : List Row) × (encoded : Bytes) × (rows
        ≡ before ++ ((k, encoded) ∷ after))
      × Encodes encoded (Model.bin k v l r)
      × Rows l before
      × Rows r after

  -- what a row's bytes are read as
  pub record Decoded (encoded v : Bytes) (ml mr : Model) : Type 0 where
    pub kv : Kv
    pub l : MaybeLink
    pub r : MaybeLink
    pub reads : decode_tree [] encoded ≡ ok (Tree.tree kv l r)
    pub value : kv.value ≡ v
    pub left : Shape l ml
    pub right : Shape r mr

  pub Encodes-Decoded :
      (encoded k v : Bytes) (ml mr : Model)
      → FitsKeys (Model.bin k v ml mr)
      → Encodes encoded (Model.bin k v ml mr)
      → Decoded encoded v ml mr
  Encodes-Decoded encoded k v ml mr f (Tree.tree kv l r, e, reps) =
      let (bytes, l', r', writes, pl, pr, back) =
        decode_tree-encode_tree kv l r (Model.bin k v ml mr) reps f in
      let same : bytes ≡ encoded = cc in
      record {
        kv = record kv { key = [] };
        l = l';
        r = r';
        reads =
            subst (λ b. decode_tree [] b ≡ ok (Tree.tree (record kv { key = [] }) l' r')) same
              (decode_tree-key kv.key [] bytes kv l' r' back);
        value = reps.1;
        left = prune_slot-Shape l l' ml reps.3 pl;
        right = prune_slot-Shape r r' mr reps.4 pr;
      }
