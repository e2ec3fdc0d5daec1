-- ===== src/Store/Restore/Full.antt =====
-- What `write_chunk` writes of a chunk that shows the whole of a subtree.
use merk.Prelude.{
  ℕ, ◌%◌, ◌<◌, ◌^◌, ◌≡◌, ◌≢◌, refl, sym, ap, ◌∙◌, inl, inr, false, List, [], ◌∷◌, ◌++◌, some, map,
  All, All-append, All-append_parts, All-imp, append_assoc, append-nil, arith,
}
use merk.Bytes.{Bytes}
use merk.Bytes.Order.{eq_bytes_refl}
use merk.Outcome.{Result, ok, ◌>>=◌}
use merk.Hash.{Hasher}
use merk.Model
use merk.Model.{Model, entries, IsSorted, IsSized, root_hash, kv_digest}
use merk.Model.Cover.{kv_hash-kv_digest}
use merk.Model.Find.{IsSorted-left, IsSorted-right}
use merk.Proofs.{Node}
use merk.Proofs.Chunk.Program.{FitsAll, AllAbove-All, left_below}
use merk.Proofs.Chunk.Rows.{Encodes, full}
use merk.Proofs.Tree.{ProofTree, Slot, hash, child_hash, height}
use merk.Proofs.Tree.Shape.{SameShape, SlotShape}
use merk.Proofs.Tree.Visit.{visit_refs, visit_ref_slot}
use merk.Proofs.Tree.WellFormed.{top, WellFormed, WellFormedSlot}
use merk.Store.{Change, node_write}
use merk.Store.Disk.{Reads, OnDisk, OnDisk-same, lt_other}
use merk.Store.Replay.{changed, changed-append, changed-other}
use merk.Store.Restore.{as_link, slot_height, proof_child_heights, node_writes, visit_writes}
use merk.Store.Rocks.{Write}
use merk.Store.Written.{IsFrom, IsFrom-other}
use merk.Tree.{Tree, Kv}
use merk.Tree.Encoding.{EdOption}
use merk.Tree.Encoding.RoundTrip.{decode_tree-encode_tree}
use merk.Tree.Reps.{RepsTree, RepsLink, heights_of}

module _ ⦃hasher : Hasher⦄ where
  mutual
    unfolding hash

    -- a tree of this shape has the hash and the height of the model
    shape-hash :
        (t : ProofTree) (m : Model)
        → SameShape t (full m)
        → WellFormed t
        → IsSized m
        → (hash t ≡ ok (root_hash m)) × (height t ≡ Model.height m)
    shape-hash (ProofTree.tree node l r n) Model.leaf s w z = elim s [ ]
    shape-hash (ProofTree.tree node l r n) (Model.bin k v ml mr) (e, sl, sr) (high, wl, wr) z =
        let (hl, tl) = slot-hash l ml sl wl z.2 in
        let (hr, tr) = slot-hash r mr sr wr z.3 in
        (rw (e, kv_hash-kv_digest k v z.0 z.1, hl, hr) refl, rw (high, tl, tr) refl)

    slot-hash :
        (s : Slot) (m : Model)
        → SlotShape s (full m)
        → WellFormedSlot s
        → IsSized m
        → (child_hash s ≡ root_hash m) × (top s ≡ Model.height m)
    slot-hash Slot.vacant Model.leaf s w z = (refl, refl)
    slot-hash Slot.vacant (Model.bin k v l r) s w z = cc
    slot-hash (Slot.occupied t h) m s (e, w) z = let (eh, et) = shape-hash t m s w z in (cc, et)

  slot_height-top : (s : Slot) → slot_height s ≡ top s % 2 ^ 8
  slot_height-top Slot.vacant = refl
  slot_height-top (Slot.occupied (ProofTree.tree node l r n) h) = refl

  child_heights-shape :
      (t : ProofTree) (m : Model)
      → SameShape t (full m)
      → WellFormed t
      → IsSized m
      → Model.height m < 2 ^ 8
      → proof_child_heights t ≡ heights_of m
  child_heights-shape (ProofTree.tree node l r n) Model.leaf s w z b = elim s [ ]
  child_heights-shape (ProofTree.tree node l r n) (Model.bin k v ml mr) s w z b =
      let (hl, tl) = slot-hash l ml s.1 w.1 z.2 in
      let (hr, tr) = slot-hash r mr s.2 w.2 z.3 in
      let el : top l % 2 ^ 8 ≡ Model.height ml = omega arith in
      let er : top r % 2 ^ 8 ≡ Model.height mr = omega arith in
      rw (slot_height-top l, slot_height-top r, el, er) refl

  -- the link that is written for a child
  as_link-Reps :
      (s : Slot) (m : Model)
      → SlotShape s (full m)
      → WellFormedSlot s
      → IsSized m
      → Model.height m < 2 ^ 8
      → RepsLink false (as_link s) m
  as_link-Reps Slot.vacant Model.leaf s w z b = refl
  as_link-Reps Slot.vacant (Model.bin k v l r) s w z b = cc
  as_link-Reps (Slot.occupied (ProofTree.tree node l r n) h) Model.leaf s w z b = elim s [ ]
  as_link-Reps (Slot.occupied (ProofTree.tree node l r n) h) (Model.bin k v ml mr) s w z b =
      let m = Model.bin k v ml mr in
      let t = ProofTree.tree node l r n in
      ((slot-hash (Slot.occupied t h) m s w z).0, child_heights-shape t m s w.1 z b, rw (s.0) refl)

module _ ⦃hasher : Hasher⦄ ⦃o : EdOption⦄ where
  -- what a chunk writes, in the order of its keys
  pub record ChunkWrites (visited : Result (List Write) → Result (List Write)) (m : Model)
      : Type 1 where
    pub changes : List Change
    pub writes : (ws : List Write) → visited (ok ws) ≡ ok (ws ++ map node_write changes)
    pub keys : (P : Bytes → Type 0) → All (λ e. P e.0) (entries m) → All (λ e. P e.0) changes
    pub stores : (reads : Reads) → OnDisk (λ k. changed changes k (reads k)) m

  node_writes-full :
      (l r : Slot) (n : ℕ) (k v : Bytes) (ml mr : Model)
      → SlotShape l (full ml)
      → SlotShape r (full mr)
      → WellFormedSlot l
      → WellFormedSlot r
      → IsSized (Model.bin k v ml mr)
      → FitsAll (Model.bin k v ml mr)
      → Model.height (Model.bin k v ml mr) < 2 ^ 8
      → (encoded : Bytes) × (node_writes (ProofTree.tree (Node.kv k v) l r n)
          ≡ ok (node_write (k, some encoded) ∷ []))
        × Encodes encoded (Model.bin k v ml mr)
  node_writes-full l r n k v ml mr sl sr wl wr z f b =
      let kv : Kv = record { key = k; value = v; hash = kv_digest k v } in
      let reps : RepsTree false (Tree.tree kv (as_link l) (as_link r)) (Model.bin k v ml mr) = (
        refl,
        refl,
        refl,
        as_link-Reps l ml sl wl z.2 (omega arith),
        as_link-Reps r mr sr wr z.3 (omega arith),
      ) in
      let (encoded, x, y, encodes, _, _, _) =
        decode_tree-encode_tree kv (as_link l) (as_link r) (Model.bin k v ml mr) reps (f.0, f.1) in
      (
        encoded,
        rw (kv_hash-kv_digest k v z.0 z.1, encodes) refl,
        (Tree.tree kv (as_link l) (as_link r), encodes, reps),
      )

  -- What the changes of a node between those of its children leave of each of them.
  pub record Between (k encoded : Bytes) (l r : Model) (xs ys : List Change) (reads : Reads)
      : Type 0 where
    pub here : changed (xs ++ ((k, some encoded) ∷ ys)) k (reads k) ≡ ok (some encoded)
    pub left :
        All
          (λ e.
            changed (xs ++ ((k, some encoded) ∷ ys)) e.0 (reads e.0) ≡ changed xs e.0 (reads e.0))
          (entries l)
    pub right :
        All
          (λ e.
            changed (xs ++ ((k, some encoded) ∷ ys)) e.0 (reads e.0)
            ≡ changed ys e.0 (changed ((k, some encoded) ∷ []) e.0 (changed xs e.0 (reads e.0))))
          (entries r)

  pub between :
      (k v encoded : Bytes) (l r : Model) (xs ys : List Change) (reads : Reads)
      → IsSorted (entries (Model.bin k v l r))
      → ((P : Bytes → Type 0) → All (λ e. P e.0) (entries r) → All (λ e. P e.0) ys)
      → Between k encoded l r xs ys reads
  between k v encoded l r xs ys reads s ky =
      let below = left_below (entries l) (k, v) (entries r) s in
      let above =
        AllAbove-All k (entries r) (IsSorted-right (entries l) ((k, v) ∷ entries r) s).0 in
      let root = (k, some encoded) ∷ [] in
      let later : All (λ e. IsFrom k e.0) (root ++ ys) =
        (inr refl, ky (IsFrom k) (All-imp (λ e h. inl h) (entries r) above)) in
      record {
        here =
            changed-append xs (root ++ ys) k _
            ∙ changed-other ys k _ (
                ky (λ q. q ≢ k)
                  (All-imp (λ e h same. lt_other k e.0 h (sym same)) (entries r) above))
            ∙ (rw (eq_bytes_refl k) refl);
        left =
            All-imp
              (λ e h.
                changed-append xs (root ++ ys) e.0 _
                ∙ changed-other (root ++ ys) e.0 _
                    (All-imp (λ c h'. IsFrom-other k e.0 c.0 h h') (root ++ ys) later))
              (entries l) below;
        right = All-imp (λ e h. changed-append xs (root ++ ys) e.0 _) (entries r) above;
      }

  -- the changes of a node between those of its children put all of them on disk
  between-OnDisk :
      (k v encoded : Bytes) (l r : Model) (xs ys : List Change) (reads : Reads)
      → IsSorted (entries (Model.bin k v l r))
      → ((P : Bytes → Type 0) → All (λ e. P e.0) (entries r) → All (λ e. P e.0) ys)
      → ((reads : Reads) → OnDisk (λ q. changed xs q (reads q)) l)
      → ((reads : Reads) → OnDisk (λ q. changed ys q (reads q)) r)
      → Encodes encoded (Model.bin k v l r)
      → OnDisk (λ q. changed (xs ++ ((k, some encoded) ∷ ys)) q (reads q)) (Model.bin k v l r)
  between-OnDisk k v encoded l r xs ys reads s ky dl dr node =
      let b = between k v encoded l r xs ys reads s ky in
      (
        (encoded, b.here, node),
        OnDisk-same (λ q. changed xs q (reads q)) _ l b.left (dl reads),
        OnDisk-same _ _ r b.right
            (dr (λ q. changed ((k, some encoded) ∷ []) q (changed xs q (reads q)))),
      )

  pub joined :
      (ws xs : List Write) (x : Write) (ys : List Write)
      → ((ws ++ xs) ++ (x ∷ [])) ++ ys ≡ ws ++ (xs ++ (x ∷ ys))
  joined ws xs x ys = append_assoc (ws ++ xs) (x ∷ []) ys ∙ append_assoc ws xs (x ∷ ys)

  pub map-append :
      (xs ys : List Change) → map node_write (xs ++ ys) ≡ map node_write xs ++ map node_write ys
  map-append [] ys = refl
  map-append (x ∷ xs) ys = ap (λ ws. node_write x ∷ ws) (map-append xs ys)

  mutual
    -- a visit of the whole of a subtree
    pub visit-ChunkWrites :
        (t : ProofTree) (m : Model)
        → SameShape t (full m)
        → WellFormed t
        → IsSorted (entries m)
        → IsSized m
        → FitsAll m
        → Model.height m < 2 ^ 8
        → ChunkWrites (visit_refs visit_writes t) m
    visit-ChunkWrites (ProofTree.tree node l r n) Model.leaf s w so z f b = elim s [ ]
    visit-ChunkWrites (ProofTree.tree node l r n) (Model.bin k v ml mr) s w so z f b =
        let a =
          visit_slot-ChunkWrites l ml s.1 w.1 (IsSorted-left (entries ml) ((k, v) ∷ entries mr) so)
            z.2 f.2 (omega arith) in
        let c =
          visit_slot-ChunkWrites r mr s.2 w.2
            (IsSorted-right (entries ml) ((k, v) ∷ entries mr) so).1 z.3 f.3 (omega arith) in
        let (encoded, own, encodes) = node_writes-full l r n k v ml mr s.1 s.2 w.1 w.2 z f b in
        record {
          changes = a.changes ++ ((k, some encoded) ∷ c.changes);
          writes = λ ws.
              ap (λ x. visit_ref_slot visit_writes r (visit_writes x (ProofTree.tree node l r n)))
                (a.writes ws)
              ∙ ap
                  (λ x.
                    visit_ref_slot visit_writes r
                      (x >>= λ ws'. ok ((ws ++ map node_write a.changes) ++ ws')))
                  (ap (λ x. node_writes (ProofTree.tree x l r n)) s.0 ∙ own)
              ∙ c.writes _
              ∙ ap ok (
                  joined ws (map node_write a.changes) (node_write (k, some encoded))
                    (map node_write c.changes)
                  ∙ ap (λ ws'. ws ++ ws')
                      (sym (map-append a.changes ((k, some encoded) ∷ c.changes))));
          keys = λ P h.
              let (hl, hn) = All-append_parts _ (entries ml) ((k, v) ∷ entries mr) h in
              All-append _ a.changes ((k, some encoded) ∷ c.changes) (a.keys P hl)
                (hn.0, c.keys P hn.1);
          stores = λ reads.
              between-OnDisk k v encoded ml mr a.changes c.changes reads so c.keys a.stores c.stores
                encodes;
        }

    visit_slot-ChunkWrites :
        (s : Slot) (m : Model)
        → SlotShape s (full m)
        → WellFormedSlot s
        → IsSorted (entries m)
        → IsSized m
        → FitsAll m
        → Model.height m < 2 ^ 8
        → ChunkWrites (visit_ref_slot visit_writes s) m
    visit_slot-ChunkWrites Slot.vacant Model.leaf s w so z f b = record {
      changes = [];
      writes = λ ws. ap ok (sym (append-nil ws));
      keys = λ P h. tt;
      stores = λ reads. tt;
    }
    visit_slot-ChunkWrites Slot.vacant (Model.bin k v l r) s w so z f b = cc
    visit_slot-ChunkWrites (Slot.occupied t h) m s w so z f b =
        let a = visit-ChunkWrites t m s w.1 so z f b in
        record { changes = a.changes; writes = a.writes; keys = a.keys; stores = a.stores }
