-- ===== src/Proofs/Query/Output/Exact.antt =====
-- What `verify_query` puts out is what the query asks for.
use mathlib.Core.Path.{subst}
use merk.Prelude.{
  List, [], ◌∷◌, ◌++◌, ◌≡◌, refl, sym, ap, ◌∙◌, ◌⊎◌, inl, inr, Bool, true, false, Option, none,
  some, All, append_assoc, append-nil, if◌then◌else◌,
}
use merk.Bytes.{Bytes, eq_bytes}
use merk.Bytes.Order.{◌≺◌, eq_of_eq_bytes}
use merk.Outcome.{ok, err, ◌>>=◌, >>=-eq-ok, Error, Ensures, Ensures-bind, Ensures-imp, Ensures_at}
use merk.Hash.{Hasher, Broken}
use merk.Model.{Model, Entry, AllAbove, entries, IsSorted, IsSized, root_hash}
use merk.Model.Cover.{Covers, HasHash, hash_partial-Covers}
use merk.Model.Find.{AllAbove-append, IsSorted-right}
use merk.Proofs.{Node}
use merk.Proofs.Encoding.{Ed, decode_all}
use merk.Proofs.Encoding.Width.{decode_all-HasHash}
use merk.Proofs.Tree.{hash, execute}
use merk.Proofs.Tree.Partial.{graft_free, pushes}
use merk.Proofs.Tree.Execute.{visit_all, execute-Describes}
use merk.Proofs.Query.Create.Split.{IsQuery}
use merk.Proofs.Query.Item.{QueryItem}
use merk.Proofs.Query.Output.{Reading, visit_query, verify_query, edge_proven, scan, start}
use merk.Proofs.Query.Output.Asked.{asked, asked_nothing}
use merk.Proofs.Query.Output.Step.{Knows, Gap, Asks, scan-Asks}
use merk.Proofs.Query.Verify.Soundness.{inorder-HasHashes, if_ok}

-- the entries of a gap are before the key behind it
gap-before :
    (gap : List Entry) (kv : Entry) (es : List Entry)
    → IsSorted (gap ++ (kv ∷ es))
    → All (λ e. e.0 ≺ kv.0) gap
gap-before [] kv es s = tt
gap-before ((k, v) ∷ gap) kv es s = (AllAbove-append k gap kv es s.0, gap-before gap kv es s.1)

-- once the nodes are visited and the right edge is proven, the pairs put out are those asked for
abbrev Reaches : List Entry → List Entry → List QueryItem → Reading → Type 0
Reaches es output query s' =
    edge_proven s'.query s'.last_push ≡ ok tt → output ++ asked query es ≡ s'.output

at_edge :
    (gap : List Entry) (s : Reading)
    → Gap gap s.in_range s.last_push
    → (query : List QueryItem) (last : Option Node) → s.last_push ≡ last
    → edge_proven query last ≡ ok tt
    → asked query gap ≡ []
at_edge gap s g [] last l e = asked_nothing gap
at_edge gap s g (item ∷ items) none l e = cc
at_edge gap s g (item ∷ items) (some (Node.kv k v)) l e = rw (g.known (subst Knows (sym l) tt)) refl
at_edge gap s g (item ∷ items) (some (Node.hash x)) l e = cc
at_edge gap s g (item ∷ items) (some (Node.kv_hash x)) l e = cc

-- a node that hides entries leaves the items and the pairs as they are
record Hides (gap : List Entry) (s s' : Reading) : Type 0 where
  query : s'.query ≡ s.query
  output : s'.output ≡ s.output
  wider : Gap gap s'.in_range s'.last_push

hide :
    (gap : List Entry) (s : Reading) (n : Node)
    → (Knows (some n) → ⊥)
    → (b : Bool) → s.in_range ≡ b
    → Ensures
        (Hides gap s)
        (if b then err Error.missing_data else ok (record s { last_push = some n }))
hide gap s n unknown true e = tt
hide gap s n unknown false e = record {
  query = refl;
  output = refl;
  wider = record {
    entered = λ e'. let same : true ≡ false = sym e' ∙ e in cc;
    known = λ k. elim (unknown k) [ ];
  };
}

visit_all-Reaches :
    (ns : List Node) (gap es : List Entry) (s : Reading)
    → Covers ns es
    → IsSorted (gap ++ es)
    → IsQuery s.query
    → Gap gap s.in_range s.last_push
    → Ensures (Reaches (gap ++ es) s.output s.query) (visit_all visit_query s ns)
unfolding visit_query
visit_all-Reaches [] gap es s c sorted q g = λ e.
    ap (λ r. s.output ++ r) (rw (c, append-nil gap) (at_edge gap s g s.query s.last_push refl e))
    ∙ append-nil s.output
visit_all-Reaches (Node.kv k v ∷ ns) gap [] s c sorted q g = elim c [ ]
visit_all-Reaches (Node.kv k v ∷ ns) gap ((k', v') ∷ es) s (ek, ev, c) sorted q g =
    let sorted' = IsSorted-right gap ((k', v') ∷ es) sorted in
    let before = gap-before gap (k', v') es sorted in
    let asks =
      scan-Asks _ k v s.query s.in_range s gap es q
        (subst (λ j. All (λ e. e.0 ≺ j) gap) (sym ek) before)
        (subst (λ j. AllAbove j es) (sym ek) sorted'.0) g in
    rw (← ek, ← ev)
      (Ensures-bind _ (scan _ k v s.query s.in_range s >>= _) _ λ s' e.
        let h = Ensures_at (Asks gap (k, v) es s.query s) _ s' e (
          Ensures-bind _ (scan _ k v s.query s.in_range s) _ λ r er.
            let h = Ensures_at _ _ r er asks in record { query = h.query; same = h.same }) in
        let g' : Gap [] s'.in_range s'.last_push = record {
          entered = λ _. refl;
          known = λ _. refl;
        } in
        Ensures-imp _ _ (visit_all visit_query s' ns) (λ r reached edge. h.same ∙ reached edge)
          (visit_all-Reaches ns [] es s' c sorted'.1 h.query g'))
visit_all-Reaches (Node.hash x ∷ ns) gap es s (skipped, rest, e, c) sorted q g =
    Ensures-bind _ (visit_query s (Node.hash x)) _ λ s' e'.
      let h =
        Ensures_at _ _ s' e' (hide (gap ++ skipped) s (Node.hash x) (λ k. k) s.in_range refl) in
      let sorted' =
        subst IsSorted (ap (λ r. gap ++ r) e ∙ sym (append_assoc gap skipped rest)) sorted in
      rw (e, ← append_assoc, ← h.query, ← h.output)
        (visit_all-Reaches ns (gap ++ skipped) rest s' c sorted' (subst IsQuery (sym h.query) q)
          h.wider)
visit_all-Reaches (Node.kv_hash x ∷ ns) gap es s (skipped, rest, e, c) sorted q g =
    Ensures-bind _ (visit_query s (Node.kv_hash x)) _ λ s' e'.
      let h =
        Ensures_at _ _ s' e' (hide (gap ++ skipped) s (Node.kv_hash x) (λ k. k) s.in_range refl) in
      let sorted' =
        subst IsSorted (ap (λ r. gap ++ r) e ∙ sym (append_assoc gap skipped rest)) sorted in
      rw (e, ← append_assoc, ← h.query, ← h.output)
        (visit_all-Reaches ns (gap ++ skipped) rest s' c sorted' (subst IsQuery (sym h.query) q)
          h.wider)

module _ ⦃hasher : Hasher⦄ ⦃codec : Ed⦄ where
  -- If `verify_query` accepts bytes against the root hash of a tree, for a query whose items are
  -- proper and in order, and the bytes attach nothing to a node of kind `Hash`, then it puts out
  -- all the pairs of the tree whose keys an item contains, in order, and no others, or the hash
  -- function is broken. The tree's keys increase and its keys and values are shorter than 2 ^ 32.
  pub verify_query-asked :
      (bytes : Bytes) (query : List QueryItem) (t : Model) (output : List Entry)
      → IsSorted (entries t)
      → IsSized t
      → IsQuery query
      → graft_free (decode_all bytes) [] ≡ true
      → verify_query bytes query (root_hash t) ≡ ok output
      → Broken ⊎ (output ≡ asked query (entries t))
  unfolding verify_query
  verify_query-asked bytes query t output sorted z q g e =
      let ops = decode_all bytes in
      let (r, executed, e₁) = >>=-eq-ok (execute true visit_query ops (start query)) _ e in
      let (edge, proven, e₂) = >>=-eq-ok (edge_proven r.1.query r.1.last_push) _ e₁ in
      let (h, hashed, e₃) = >>=-eq-ok (hash r.0) _ e₂ in
      let (p, d) = execute-Describes true visit_query ops (start query) r g executed in
      let hashes =
        inorder-HasHashes p (subst (All HasHash) (sym d.order) (decode_all-HasHash bytes)) in
      let (equal, whole) =
        if_ok (eq_bytes h (root_hash t)) r.1.output output Error.hash_mismatch e₃ in
      let root = d.hashes ∙ hashed ∙ ap ok (eq_of_eq_bytes h (root_hash t) equal) in
      elim (hash_partial-Covers p t d.leafy hashes z root) [
        | inl broken ↦ inl broken
        | inr covers ↦
            let reached = Ensures_at _ _ r.1 d.visits (
              visit_all-Reaches (pushes ops) [] (entries t) (start query)
                (subst (λ ns. Covers ns (entries t)) d.order covers) sorted q
                (record { entered = λ _. refl; known = λ _. refl })) in
            inr (sym (reached proven ∙ whole))
      ]
