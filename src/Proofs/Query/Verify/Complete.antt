-- ===== src/Proofs/Query/Verify/Complete.antt =====
-- `verify` against `create_proof`: what is created for a query is accepted, and its map answers
-- every key that the query covers.
use mathlib.Core.Path.{subst, subst₂}
use merk.Prelude.{
  ℕ, ◌≤◌, Bool, ◌≡◌, refl, sym, ap, ◌∙◌, inl, inr, true, false, List, [], ◌∷◌, ◌++◌, Option, none,
  some, map, All, All-append, All-append_parts, ◌^◌, ◌<◌, length, arith, Option-cases,
}
use merk.Bytes.{Bytes}
use merk.Bytes.Order.{eq_bytes_refl}
use merk.Outcome.{ok, ◌>>=◌}
use merk.Hash.{Hasher}
use merk.Btree
use merk.Btree.{get as btree_get}
use merk.Model
use merk.Model.{Model, Entry, entries, find, IsSorted, IsSized, root_hash}
use merk.Model.Cover.{Covers}
use merk.Proofs.{Node, Op}
use merk.Proofs.Encoding.{Ed, encode_into, decode_all}
use merk.Proofs.Encoding.RoundTrip.{Fits, decode_all-encode_into}
use merk.Proofs.Tree.Partial.{Partial, inorder}
use merk.Proofs.Tree.Execute.{visit_all}
use merk.Proofs.Tree.Postfix.{mark, program, execute-program}
use merk.Proofs.Query.Item.{QueryItem}
use merk.Proofs.Query.Map.{Map, new, insert, get}
use merk.Proofs.Query.Map.Absence.{get-absent, get-found}
use merk.Proofs.Query.Create.{Proof, create_proof}
use merk.Proofs.Query.Create.Split.{IsQuery, Covered}
use merk.Proofs.Query.Create.Answers.{Answers, Answers-gap_flag}
use merk.Proofs.Query.Create.Program.{Stored, Proves}
use merk.Proofs.Query.Create.Walk.{create_proof-Created}
use merk.Proofs.Query.Verify.{verify}
use merk.Proofs.Query.Verify.Accepts.{
  IsShort, IsUnder, Covers-check_key, Covers-insert, Covers-Fits,
}
use merk.Proofs.Query.Verify.Built.{visit_all-Appends}
use merk.Proofs.Query.Verify.Soundness.{get-Tells}
use merk.Proofs.Query.Verify.Tells.{Tells, Covers-Tells}
use merk.Tree.{Tree}
use merk.Tree.Reps.{RepsTree}
use merk.Tree.Load.{Fetch}

mark-Fits : (p : Partial) (op : Op) → Fits op → All Fits (mark p op)
mark-Fits Partial.absent op f = tt
mark-Fits (Partial.node n l r) op f = (f, tt)

-- the operators fit if the nodes do
pub program-Fits : (p : Partial) → All (λ n. Fits (Op.push n)) (inorder p) → All Fits (program p)
program-Fits Partial.absent h = tt
program-Fits (Partial.node n l r) h =
    let (hl, hn) = All-append_parts _ (inorder l) (n ∷ inorder r) h in
    All-append Fits (program l) _ (program-Fits l hl) (
      hn.0,
      All-append Fits (mark l Op.parent) _ (mark-Fits l Op.parent tt)
          (All-append Fits (program r) _ (program-Fits r hn.1) (mark-Fits r Op.child tt)),
    )

-- nothing covers the entries of a node but nodes
Covers-nonempty : (es : List Entry) (e : Entry) (es' : List Entry) → Covers [] (es ++ (e ∷ es')) → ⊥
Covers-nonempty [] e es' c = cc
Covers-nonempty (x ∷ es) e es' c = cc

-- what fits an operator fits the input of the hash
pub IsShort-IsSized : (m : Model) → IsShort (entries m) → IsSized m
IsShort-IsSized Model.leaf s = tt
IsShort-IsSized (Model.bin k v l r) s =
    let (sl, sr) = All-append_parts _ (entries l) ((k, v) ∷ entries r) s in
    (
      longer (length k) sr.0.0,
      longer_value (length v) sr.0.1,
      IsShort-IsSized l sl,
      IsShort-IsSized r sr.1,
    )
  where
    longer : (n : ℕ) → n < 2 ^ 8 → n < 2 ^ 32
    longer n h = omega arith

    longer_value : (n : ℕ) → n < 2 ^ 16 → n < 2 ^ 32
    longer_value n h = omega arith

IsUnder-nil : (es : List Entry) → IsUnder [] es
IsUnder-nil [] = tt
IsUnder-nil (e ∷ es) = (tt, IsUnder-nil es)

module _ ⦃hasher : Hasher⦄ where
  -- the map of nodes that answer a covered key
  answer :
      (map : Map) (m : Model) (ns : List Node) (l r : Bool) (k : Bytes)
      → IsSorted (entries m)
      → Covers ns (entries m)
      → visit_all insert new ns ≡ ok map
      → Answers k l r ns
      → get map k ≡ ok (find k (entries m))
  unfolding new
  answer map m ns l r k s c v answers =
      let a = visit_all-Appends new map ns tt v in
      let tells : Tells map.entries map.right_edge (entries m) =
        subst₂ (λ l f. Tells l f (entries m)) (sym a.entries) (sym a.right_edge)
          (Covers-Tells true ns [] (entries m) c (λ _. refl)) in
      let told : (r : Option Bytes) → get map k ≡ ok r → get map k ≡ ok (find k (entries m)) =
        λ r e. e ∙ ap ok (get-Tells map (entries m) k r a.sorted s tells e) in
      elim (Option-cases (btree_get map.entries k)) [
        | inl absent ↦
            let flag =
              Answers-gap_flag k l r ns (subst Btree.IsSorted a.entries a.sorted) answers
                (ap (λ es. btree_get es k) (sym a.entries) ∙ absent) in
            told none (get-absent map k a.sorted absent ∙ (rw (a.entries, a.right_edge, flag) refl))
        | inr ((c, w), found) ↦ told (some w) (get-found map k c w found)
      ]

module _ ⦃hasher : Hasher⦄ ⦃codec : Ed⦄ (source : Fetch) where
  pub Proves-verify :
      (m : Model) (query : List QueryItem) (proof : Proof) (k : Bytes)
      → (m ≡ Model.leaf → ⊥)
      → IsSorted (entries m)
      → IsShort (entries m)
      → Covered k query
      → Proves source m query proof
      → (verify (encode_into proof.0) (root_hash m) >>= λ map. get map k) ≡ ok (find k (entries m))
  unfolding verify new
  Proves-verify Model.leaf query proof k some_node s short c p = absurd (some_node refl)
  Proves-verify (Model.bin key value l r) query proof k some_node s short c p =
      let m = Model.bin key value l r in
      let ns = inorder p.partial in
      let (last, checked) = Covers-check_key none ns (entries m) p.covers s tt in
      let (map', inserted) =
        Covers-insert new ns (entries m) p.covers s (IsUnder-nil (entries m)) in
      let (t, executed, hashed, kept) =
        execute-program true insert p.partial (root_hash m) last new map'
          (λ e.
            Covers-nonempty (entries l) (key, value) (entries r)
              (subst (λ x. Covers (inorder x) (entries m)) e p.covers))
          p.leafy p.hashes checked inserted in
      let fits = program-Fits p.partial (Covers-Fits ns (entries m) p.covers short p.sized) in
      let decoded =
        ap (λ ops. decode_all (encode_into ops)) p.operators
        ∙ decode_all-encode_into (program p.partial) fits in
      let accepted : verify (encode_into proof.0) (root_hash m) ≡ ok map' =
        rw (decoded, executed, hashed, eq_bytes_refl (root_hash m)) refl in
      ap (λ r. r >>= λ map. get map k) accepted
      ∙ answer map' m ns proof.1.0 proof.1.1 k s p.covers inserted (p.answers k c)

  -- For a tree with fresh links, of a model whose keys increase and fit in 2 ^ 8 bytes and whose
  -- values fit in 2 ^ 16, a source that holds its subtrees, the tree's height as fuel, and a query
  -- whose items are proper and in order: the proof that `create_proof` writes is accepted by
  -- `verify` against the root hash, and `get` on its map answers every key that an item contains
  -- as the tree does, with the value or with a proven absence.
  pub verify-create_proof :
      (fuel : ℕ) (t : Tree) (m : Model) (query : List QueryItem) (k : Bytes)
      → Model.height m ≤ fuel
      → IsSorted (entries m)
      → IsShort (entries m)
      → Stored source m
      → RepsTree false t m
      → IsQuery query
      → Covered k query
      → (create_proof source fuel t query >>= λ created.
          verify (encode_into created.1.0) (root_hash m) >>= λ map. get map k)
        ≡ ok (find k (entries m))
  verify-create_proof fuel t m query k b s short stored e q c =
      let (t', proof, made, fresh, proves) =
        create_proof-Created source fuel t m query b (IsShort-IsSized m short) stored e q in
      rw made (Proves-verify m query proof k (no_leaf m t e) s short c proves)
    where
      no_leaf : (m : Model) (t : Tree) → RepsTree false t m → m ≡ Model.leaf → ⊥
      no_leaf Model.leaf (Tree.tree kv l r) e h = elim e [ ]
      no_leaf (Model.bin k v l r) t e h = cc
