-- ===== src/Store/Restore/Trunk.antt =====
-- What `write_chunk` writes of a trunk: the nodes above its depth.
use merk.Prelude.{
  ℕ, zero, suc, ◌≡◌, refl, sym, ap, ◌∙◌, Bool, true, false, List, [], ◌∷◌, ◌++◌, some, map, All,
  All-append, All-append_parts, append-nil, arith,
}
use merk.Bytes.{Bytes}
use merk.Outcome.{ok, ◌>>=◌}
use merk.Hash.{Hasher}
use merk.Model.{Model, entries, IsSorted, IsSized, root_hash}
use merk.Model.Cover.{kv_hash-kv_digest}
use merk.Model.Find.{IsSorted-left, IsSorted-right}
use merk.Proofs.{Node}
use merk.Proofs.Chunk.Program.{FitsAll}
use merk.Proofs.Chunk.Trunk.{trunk, spine, hashed}
use merk.Proofs.Tree.{ProofTree, Slot, node_of}
use merk.Proofs.Tree.Partial.{Partial}
use merk.Proofs.Tree.Shape.{SameShape, SlotShape}
use merk.Proofs.Tree.Visit.{visit_refs, visit_ref_slot}
use merk.Proofs.Tree.WellFormed.{WellFormed}
use merk.Store.{Change, node_write}
use merk.Store.Disk.{Reads}
use merk.Store.Replay.{changed}
use merk.Store.Restore.{node_key, node_writes, proof_child_heights, visit_writes}
use merk.Store.Restore.Full.{between, joined, map-append}
use merk.Store.Restore.Grown.{Label, IsLabel, IsKeyed, Grown, Grown-same, fork-encode}
use merk.Store.Restore.Shape.{Deep, trunk-Forked}
use merk.Store.Rocks.{Write}
use merk.Tree.Encoding.{EdOption}
use merk.Tree.Encoding.RoundTrip.{FitsKey}

-- no node shows a pair
abbrev Mute : Partial → Type 0
Mute Partial.absent = Unit
Mute (Partial.node (Node.kv k v) l r) = ⊥
Mute (Partial.node (Node.hash h) l r) = Mute l × Mute r
Mute (Partial.node (Node.kv_hash h) l r) = Mute l × Mute r

-- the link that is written for a child
abbrev label_of : ProofTree → Label
label_of a = (proof_child_heights a, node_key (node_of a))

module _ ⦃hasher : Hasher⦄ where
  hashed-Mute : (m : Model) → Mute (hashed m)
  hashed-Mute Model.leaf = tt
  hashed-Mute (Model.bin k v l r) = (tt, tt)

  spine-Mute : (m : Model) → Mute (spine m)
  spine-Mute Model.leaf = tt
  spine-Mute (Model.bin k v l r) = (spine-Mute l, hashed-Mute r)

  trunk-Mute : (leftmost : Bool) (m : Model) → Mute (trunk zero leftmost m)
  trunk-Mute true m = spine-Mute m
  trunk-Mute false m = hashed-Mute m

  label_of-trunk :
      (n : ℕ) (leftmost : Bool) (a : ProofTree) (m : Model)
      → SameShape a (trunk n leftmost m)
      → Deep n m
      → FitsKey m
      → IsLabel (label_of a) × IsKeyed false n m (label_of a)
  label_of-trunk n leftmost a Model.leaf s d f = elim d [ ]
  label_of-trunk zero true (ProofTree.tree node l r size) (Model.bin k v ml mr) s d f =
      (rw (s.0) (omega arith), tt)
  label_of-trunk zero false (ProofTree.tree node l r size) (Model.bin k v ml mr) s d f =
      (rw (s.0) (omega arith), tt)
  label_of-trunk (suc n) leftmost (ProofTree.tree node l r size) (Model.bin k v ml mr) s d f =
      (rw (s.0) f, rw (s.0) refl)

module _ ⦃hasher : Hasher⦄ ⦃o : EdOption⦄ where
  mutual
    visit-Mute :
        (t : ProofTree) (p : Partial) (ws : List Write)
        → SameShape t p
        → Mute p
        → visit_refs visit_writes t (ok ws) ≡ ok ws
    visit-Mute (ProofTree.tree node l r n) Partial.absent ws s q = elim s [ ]
    visit-Mute (ProofTree.tree node l r n) (Partial.node (Node.kv k v) a b) ws s q = elim q [ ]
    visit-Mute (ProofTree.tree node l r n) (Partial.node (Node.hash h) a b) ws s q =
        rw (visit_slot-Mute l a ws s.1 q.0, s.0, append-nil ws) (visit_slot-Mute r b ws s.2 q.1)
    visit-Mute (ProofTree.tree node l r n) (Partial.node (Node.kv_hash h) a b) ws s q =
        rw (visit_slot-Mute l a ws s.1 q.0, s.0, append-nil ws) (visit_slot-Mute r b ws s.2 q.1)

    visit_slot-Mute :
        (s : Slot) (p : Partial) (ws : List Write)
        → SlotShape s p
        → Mute p
        → visit_ref_slot visit_writes s (ok ws) ≡ ok ws
    visit_slot-Mute Slot.vacant p ws s q = refl
    visit_slot-Mute (Slot.occupied t h) p ws s q = visit-Mute t p ws s q

  -- what a trunk writes, in the order of its keys
  pub record TrunkWrites (t : ProofTree) (n : ℕ) (m : Model) : Type 1 where
    pub changes : List Change
    pub writes :
        (ws : List Write) → visit_refs visit_writes t (ok ws) ≡ ok (ws ++ map node_write changes)
    pub keys : (P : Bytes → Type 0) → All (λ e. P e.0) (entries m) → All (λ e. P e.0) changes
    pub stores : (reads : Reads) → Grown false (λ k. changed changes k (reads k)) n m

  pub trunk-TrunkWrites :
      (n : ℕ) (leftmost : Bool) (t : ProofTree) (m : Model)
      → SameShape t (trunk n leftmost m)
      → WellFormed t
      → Deep n m
      → IsSorted (entries m)
      → IsSized m
      → FitsAll m
      → TrunkWrites t n m
  trunk-TrunkWrites zero leftmost t m s w d so z f = record {
    changes = [];
    writes = λ ws.
        visit-Mute t (trunk zero leftmost m) ws s (trunk-Mute leftmost m)
        ∙ ap ok (sym (append-nil ws));
    keys = λ P h. tt;
    stores = λ reads. tt;
  }
  trunk-TrunkWrites (suc n) leftmost t Model.leaf s w d so z f = elim d [ ]
  trunk-TrunkWrites (suc n) leftmost t (Model.bin k v ml mr) s w d so z f =
      let g = trunk-Forked t n leftmost k v ml mr s w z d in
      let sl = IsSorted-left (entries ml) ((k, v) ∷ entries mr) so in
      let sr = (IsSorted-right (entries ml) ((k, v) ∷ entries mr) so).1 in
      let a = trunk-TrunkWrites n leftmost g.a ml g.shape_a g.well_a d.0 sl z.2 f.2 in
      let c = trunk-TrunkWrites n false g.b mr g.shape_b g.well_b d.1 sr z.3 f.3 in
      let (bx, kx) = label_of-trunk n leftmost g.a ml g.shape_a d.0 f.0 in
      let (by', ky) = label_of-trunk n false g.b mr g.shape_b d.1 f.1 in
      let x = label_of g.a in
      let y = label_of g.b in
      let (encoded, encodes, back) = fork-encode k v ml mr x y bx by' in
      let node =
        ProofTree.tree (Node.kv k v) (Slot.occupied g.a (root_hash ml))
          (Slot.occupied g.b (root_hash mr)) g.size in
      let own : node_writes node ≡ ok (node_write (k, some encoded) ∷ []) =
        rw (kv_hash-kv_digest k v z.0 z.1, encodes) refl in
      record {
        changes = a.changes ++ ((k, some encoded) ∷ c.changes);
        writes = λ ws.
            ap (λ t. visit_refs visit_writes t (ok ws)) g.tree
            ∙ ap (λ x. visit_refs visit_writes g.b (visit_writes x node)) (a.writes ws)
            ∙ ap
                (λ x.
                  visit_refs visit_writes g.b
                    (x >>= λ ws'. ok ((ws ++ map node_write a.changes) ++ ws')))
                own
            ∙ c.writes _
            ∙ ap ok (
                joined ws (map node_write a.changes) (node_write (k, some encoded))
                  (map node_write c.changes)
                ∙ ap (λ ws'. ws ++ ws')
                    (sym (map-append a.changes ((k, some encoded) ∷ c.changes))));
        keys = λ P h.
            let (hl, hn) = All-append_parts _ (entries ml) ((k, v) ∷ entries mr) h in
            All-append _ a.changes ((k, some encoded) ∷ c.changes) (a.keys P hl)
              (hn.0, c.keys P hn.1);
        stores = λ reads.
            let b = between k v encoded ml mr a.changes c.changes reads so c.keys in
            (
              (x, y, (encoded, b.here, encodes, back, bx, by'), kx, ky),
              Grown-same false (λ q. changed a.changes q (reads q)) _ n ml b.left (a.stores reads),
              Grown-same false _ _ n mr b.right (c.stores _),
            );
      }
