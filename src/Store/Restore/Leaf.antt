-- ===== src/Store/Restore/Leaf.antt =====
-- One leaf chunk: the key in its parent's link is set, and its nodes are written.
use merk.Prelude.{
  ℕ, ◌%◌, ◌==◌, ◌<◌, ◌^◌, ◌≡◌, ◌≢◌, refl, ap, ◌∙◌, Bool, true, false, List, [], ◌∷◌, some, map,
  length, All, All-append_parts, if◌then◌else◌,
}
use merk.Bytes.{Bytes}
use merk.Bytes.Order.{eq_bytes_refl}
use merk.Outcome.{ok}
use merk.Hash.{Hasher}
use merk.Model
use merk.Model.{Model, Entry, entries, IsSorted, root_hash}
use merk.Proofs.Chunk.Complete.{leaf-SameShape}
use merk.Proofs.Chunk.Rows.{full}
use merk.Proofs.Chunk.Verify.{leaf_node}
use merk.Proofs.Encoding.{Ed}
use merk.Proofs.Encoding.RoundTrip.{decode_all-encode_into}
use merk.Proofs.Query.Verify.Accepts.{IsShort}
use merk.Proofs.Query.Verify.Complete.{IsShort-IsSized}
use merk.Proofs.Tree.{ProofTree}
use merk.Proofs.Tree.Postfix.{program}
use merk.Proofs.Tree.Shape.{SameShape}
use merk.Proofs.Tree.WellFormed.{execute-WellFormed}
use merk.Store.{Merk, node_write, root_key_key, fetch_by_key}
use merk.Store.Chunks.Accepted.{trunk_if-Fits}
use merk.Store.Chunks.Windows.{leaf_bytes}
use merk.Store.Disk.{Reads, OnDisk, OnDisk-same, IsFree, reads_of}
use merk.Store.Prove.{IsShort-FitsAll}
use merk.Store.Replay.{changed, changed-other, node_write-internal}
use merk.Store.Restore.{
  Restorer, process_leaf, process_chunk, restore_all, rewrite_parent_link, write_chunk,
  chunk_writes, proof_key,
}
use merk.Store.Restore.Full.{visit-ChunkWrites}
use merk.Store.Restore.Grown.{Label, IsLabel, Row, fork, fork-encode}
use merk.Store.Rocks.{Column, Write, Db, IsLawful}
use merk.Tree.Encoding.{EdOption, encode_tree, decode_tree}

-- one of two, by the side
abbrev pub side : {A : Type 0} → Bool → A → A → A
side true l r = l
side false l r = r

-- the labels of the links to the left and to the right, with the key on one side set
abbrev pub left_label : Bool → Label → Bytes → Label
left_label true x k = (x.0, k)
left_label false x k = x

abbrev pub right_label : Bool → Label → Bytes → Label
right_label true y k = y
right_label false y k = (y.0, k)

labels :
    (left : Bool) (x y : Label) (k : Bytes)
    → IsLabel x
    → IsLabel y
    → length k < 2 ^ 8
    → IsLabel (left_label left x k) × IsLabel (right_label left y k)
labels true x y k bx by' b = (b, by')
labels false x y k bx by' b = (bx, b)

module _ ⦃hasher : Hasher⦄ where
  pub key-full :
      (t : ProofTree) (k v : Bytes) (l r : Model)
      → SameShape t (full (Model.bin k v l r))
      → proof_key t ≡ ok k
  key-full (ProofTree.tree node a b n) k v l r s = rw (s.0) refl

pub everywhere :
    {P : Bytes → Type 0} → ((q : Bytes) → P q) → (es : List Entry) → All (λ e. P e.0) es
everywhere h [] = tt
everywhere h (e ∷ es) = (h e.0, everywhere h es)

module _ {S : Type 0} (db : Db S) ⦃hasher : Hasher⦄ ⦃o : EdOption⦄ where
  -- the parent's row once a leaf is there
  record Linked (leaf : ProofTree) (merk : Merk S) (remaining : ℕ) (left : Bool) (k v : Bytes)
      (l r : Model) (x y : Label) (key : Bytes) (keys : List Bytes) : Type 0 where
    encoded : Bytes
    s : S
    links :
        rewrite_parent_link db leaf merk remaining (k ∷ keys)
        ≡ ok (record merk { state = s }, if left then k ∷ keys else keys)
    main :
        (q : Bytes)
        → db.get Column.main q s
          ≡ changed ((k, some encoded) ∷ []) q (db.get Column.main q merk.state)
    internal :
        db.get Column.internal root_key_key s ≡ db.get Column.internal root_key_key merk.state
    row :
        Row
          (λ q. changed ((k, some encoded) ∷ []) q (db.get Column.main q merk.state))
          k
          v
          l
          r
          (left_label left x key)
          (right_label left y key)

  link-runs :
      (leaf : ProofTree) (merk : Merk S) (remaining : ℕ) (left : Bool)
      (k v encoded encoded' : Bytes) (l r : Model) (x y : Label) (key : Bytes) (keys : List Bytes)
      (s : S)
      → (remaining % 2 == 0) ≡ left
      → proof_key leaf ≡ ok key
      → db.get Column.main k merk.state ≡ ok (some encoded)
      → decode_tree k encoded ≡ ok (fork k v l r x y)
      → encode_tree (fork k v l r (left_label left x key) (right_label left y key)) ≡ ok encoded'
      → db.write (Write.put Column.main k encoded' ∷ []) merk.state ≡ ok s
      → rewrite_parent_link db leaf merk remaining (k ∷ keys)
        ≡ ok (record merk { state = s }, if left then k ∷ keys else keys)
  unfolding rewrite_parent_link fetch_by_key
  link-runs leaf merk remaining true k v encoded encoded' l r x y key keys s parity leaf_key e back
        encodes wrote =
      rw (e, back, leaf_key, parity, encodes, wrote) refl
  link-runs leaf merk remaining false k v encoded encoded' l r x y key keys s parity leaf_key e back
        encodes wrote =
      rw (e, back, leaf_key, parity, encodes, wrote) refl

  link-Linked :
      (lawful : IsLawful db) (leaf : ProofTree) (merk : Merk S) (remaining : ℕ) (left : Bool)
      (k v : Bytes) (l r : Model) (x y : Label) (key : Bytes) (keys : List Bytes)
      → (remaining % 2 == 0) ≡ left
      → proof_key leaf ≡ ok key
      → length key < 2 ^ 8
      → Row (reads_of db merk.state) k v l r x y
      → Linked leaf merk remaining left k v l r x y key keys
  link-Linked lawful leaf merk remaining left k v l r x y key keys parity leaf_key b
        (encoded, e, writes, back, bx, by') =
      let (bx', by'') = labels left x y key bx by' b in
      let (encoded', encodes', back') =
        fork-encode k v l r (left_label left x key) (right_label left y key) bx' by'' in
      let (s, wrote, reads) = lawful.writes (Write.put Column.main k encoded' ∷ []) merk.state in
      record {
        encoded = encoded';
        s = s;
        links =
            link-runs leaf merk remaining left k v encoded encoded' l r x y key keys s parity
              leaf_key e back encodes' wrote;
        main = λ q. reads Column.main q;
        internal = reads Column.internal root_key_key;
        row = (encoded', rw (eq_bytes_refl k) refl, encodes', back', bx', by'');
      }

module _ {S : Type 0} (db : Db S) ⦃hasher : Hasher⦄ ⦃o : EdOption⦄ ⦃codec : Ed⦄ where
  -- a restorer that is given leaf chunks
  abbrev pub filling : Restorer S → List Bytes → List Bytes → S → Restorer S
  filling r hashes keys s = record r {
    leaf_hashes = some hashes;
    parent_keys = some keys;
    merk = record (r.merk) { state = s };
  }

  -- What a leaf chunk changes.
  pub record Leafed (r : Restorer S) (hashes keys : List Bytes) (s : S) (left : Bool) (k v : Bytes)
      (l r' : Model) (x y : Label) (key : Bytes) (w : Model) (more : List Bytes) : Type 0 where
    pub s' : S
    pub runs :
        restore_all db (filling r (root_hash w ∷ hashes) (k ∷ keys) s) (leaf_bytes w ∷ more)
        ≡ restore_all db (filling r hashes (if left then k ∷ keys else keys) s') more
    pub row : Row (reads_of db s') k v l r' (left_label left x key) (right_label left y key)
    pub disk : OnDisk (reads_of db s') w
    pub others :
        (q : Bytes)
        → k ≢ q
        → IsFree q (entries w)
        → db.get Column.main q s' ≡ db.get Column.main q s
    pub pointer : db.get Column.internal root_key_key s' ≡ db.get Column.internal root_key_key s

  pub leaf-Leafed :
      (lawful : IsLawful db) (r : Restorer S) (hashes keys : List Bytes) (s : S) (left : Bool)
      (k v : Bytes) (l r' : Model) (x y : Label) (key value : Bytes) (wl wr : Model)
      (more : List Bytes)
      → (length (key ∷ hashes) % 2 == 0) ≡ left
      → IsSorted (entries (Model.bin key value wl wr))
      → IsShort (entries (Model.bin key value wl wr))
      → Model.height (Model.bin key value wl wr) < 2 ^ 8
      → IsFree k (entries (Model.bin key value wl wr))
      → Row (reads_of db s) k v l r' x y
      → Leafed r hashes keys s left k v l r' x y key (Model.bin key value wl wr) more
  unfolding restore_all process_chunk process_leaf write_chunk chunk_writes
  leaf-Leafed lawful r hashes keys s left k v l r' x y key value wl wr more parity so short b free
        row =
      let w = Model.bin key value wl wr in
      let merk : Merk S = record (r.merk) { state = s } in
      let sized = IsShort-IsSized w short in
      let (leaf, executed, accepted, shape) = leaf-SameShape key value wl wr so sized in
      let wf = execute-WellFormed leaf_node (map ok (program (full w))) tt (leaf, tt) executed in
      let decoded = decode_all-encode_into (program (full w)) (trunk_if-Fits true w short) in
      let c = visit-ChunkWrites leaf w shape wf so sized (IsShort-FitsAll w short) b in
      let (_, (root_short, _)) =
        All-append_parts _ (entries wl) ((key, value) ∷ entries wr) short in
      let a =
        link-Linked db lawful leaf merk (length (key ∷ hashes)) left k v l r' x y key keys parity
          (key-full leaf key value wl wr shape) root_short.0 row in
      let (s₂, wrote, reads) = lawful.writes (map node_write c.changes) a.s in
      let old : Reads = λ q. changed ((k, some a.encoded) ∷ []) q (db.get Column.main q s) in
      let main : (q : Bytes) → db.get Column.main q s₂ ≡ changed c.changes q (old q) =
        λ q. reads Column.main q ∙ ap (changed c.changes q) (a.main q) in
      let (encoded, there, encodes, back, bx, by') = a.row in
      record {
        s' = s₂;
        runs = rw (decoded, accepted, a.links, c.writes [], wrote) refl;
        row = (
          encoded,
          main k ∙ changed-other c.changes k _ (c.keys (λ q. q ≢ k) free) ∙ there,
          encodes,
          back,
          bx,
          by',
        );
        disk = OnDisk-same _ (reads_of db s₂) w (everywhere main (entries w)) (c.stores old);
        others = λ q other free'.
            main q
            ∙ changed-other c.changes q _ (c.keys (λ z. z ≢ q) free')
            ∙ changed-other ((k, some a.encoded) ∷ []) q _ (other, tt);
        pointer =
            reads Column.internal root_key_key
            ∙ node_write-internal c.changes root_key_key _
            ∙ a.internal;
      }
