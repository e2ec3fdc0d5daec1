-- ===== src/Proofs/Chunk/Program.antt =====
-- The loop of `get_next_chunk`: its stack of right children's keys closes each subtree in time.
use mathlib.Core.Path.{subst}
use merk.Prelude.{
  ◌≡◌, refl, ap, ◌∙◌, ◌⊎◌, inl, inr, true, false, List, [], ◌∷◌, ◌++◌, Option, append_assoc,
  append-nil, All, All-imp, All-append_parts, arith,
}
use merk.Bytes.{Bytes, lt_bytes}
use merk.Bytes.Order.{◌≺◌, lt_trans, lt_bytes-true, lt_bytes-false, cmp_refl}
use merk.Outcome.{Result, ok}
use merk.Hash.{Hasher, kv_hash}
use merk.Model.{Model, Entry, entries, AllAbove, IsSorted}
use merk.Model.Find.{AllAbove-append, IsSorted-left, IsSorted-right}
use merk.Proofs.{Node, Op}
use merk.Proofs.Chunk.{Row, is_end, close, open_or_close, chunk_rows, skip_row, get_next_chunk}
use merk.Proofs.Chunk.Rows.{Rows, full, Decoded, Encodes-Decoded, Shape, Shape-mark}
use merk.Proofs.Tree.Postfix.{mark, program}
use merk.Tree.{MaybeLink}
use merk.Tree.Encoding.{EdOption}
use merk.Tree.Encoding.RoundTrip.{FitsKey}

-- the last key of a subtree with root `k` and right child `r`
final : Bytes → Model → Bytes
final k Model.leaf = k
final k (Model.bin k' v l r) = final k' r

final-All :
    (P : Bytes → Type 0) (k : Bytes) (r : Model)
    → P k
    → All (λ e. P e.0) (entries r)
    → P (final k r)
unfolding final
final-All P k Model.leaf h hs = h
final-All P k (Model.bin k' v l r) h hs =
    let (_, here) = All-append_parts (λ e. P e.0) (entries l) ((k', v) ∷ entries r) hs in
    final-All P k' r here.0 here.1

pub AllAbove-All : (k : Bytes) (es : List Entry) → AllAbove k es → All (λ e. k ≺ e.0) es
AllAbove-All k [] h = tt
AllAbove-All k ((k', v) ∷ es) h = (h.0, AllAbove-All k es h.1)

pub left_below :
    (es : List Entry) (e : Entry) (es' : List Entry)
    → IsSorted (es ++ (e ∷ es'))
    → All (λ x. x.0 ≺ e.0) es
left_below [] e es' s = tt
left_below ((k, v) ∷ es) e es' s = (AllAbove-append k es e es' s.0, left_below es e es' s.1)

-- the top of the stack is not below the key
abbrev Open : Bytes → List Bytes → Type 0
Open k [] = Unit
Open k (top ∷ stack) = (k ≺ top) ⊎ (k ≡ top)

below-Open : (q k : Bytes) (stack : List Bytes) → q ≺ k → Open k stack → Open q stack
below-Open q k [] l h = tt
below-Open q k (top ∷ stack) l (inl h) = inl (lt_trans q k top l h)
below-Open q k (top ∷ stack) l (inr h) = inl (rw (← h) l)

close-Open :
    (q k : Bytes) (stack : List Bytes) (chunk : List Op)
    → q ≺ k
    → Open k stack
    → close q stack chunk ≡ (stack, chunk)
unfolding close
close-Open q k [] chunk l h = refl
close-Open q k (top ∷ stack) chunk l (inl h) = rw (lt_bytes-true q top (lt_trans q k top l h)) refl
close-Open q k (top ∷ stack) chunk l (inr h) = rw (lt_bytes-true q top (rw (← h) l)) refl

close-shut :
    (q top : Bytes) (stack : List Bytes) (chunk : List Op)
    → lt_bytes q top ≡ false
    → close q (top ∷ stack) chunk ≡ close q stack (chunk ++ (Op.child ∷ []))
unfolding close
close-shut q top stack chunk e = rw e refl

not_below : (k : Bytes) → lt_bytes k k ≡ false
not_below k = ground (arith, cmp_refl k)

-- the end key is not among the keys
abbrev pub IsPlain : Option Bytes → List Entry → Type 0
IsPlain end_key es = All (λ e. is_end end_key e.0 ≡ false) es

-- the children's keys fit their length byte, in every node
abbrev pub FitsAll : Model → Type 0
FitsAll Model.leaf = Unit
FitsAll (Model.bin k v l r) = FitsKey l × FitsKey r × FitsAll l × FitsAll r

module _ ⦃hasher : Hasher⦄ ⦃o : EdOption⦄ (end_key : Option Bytes) where
  -- a loop that goes on with a stack and a chunk
  abbrev onward : List Row → List Bytes × List Op → Result (List Op × List Row)
  onward rows s = chunk_rows end_key rows s.0 s.1

  -- one round of the loop
  chunk_rows-row :
      (k v encoded : Bytes) (ml mr : Model) (rows : List Row) (stack : List Bytes) (chunk : List Op)
      → is_end end_key k ≡ false
      → (d : Decoded encoded v ml mr)
      → chunk_rows end_key ((k, encoded) ∷ rows) stack chunk
        ≡ onward rows (
            open_or_close k d.r stack (chunk ++ (Op.push (Node.kv k v) ∷ mark (full ml) Op.parent)))
  unfolding chunk_rows
  chunk_rows-row k v encoded ml mr rows stack chunk plain d =
      rw (plain, d.reads, d.value, Shape-mark d.l ml Op.parent d.left) refl

  -- what the rows of a subtree come to
  abbrev Closes : Model → List Row → Type 0
  Closes Model.leaf rows = Unit
  Closes (Model.bin k v l r) rows =
      (rest : List Row) (stack : List Bytes) (chunk : List Op)
      → Open k stack
      → chunk_rows end_key (rows ++ rest) stack chunk
        ≡ onward rest (close (final k r) stack (chunk ++ program (full (Model.bin k v l r))))

  left_half :
      (l : Model) (k : Bytes) (before rest : List Row) (stack : List Bytes) (chunk : List Op)
      → Rows l before
      → Closes l before
      → All (λ e. e.0 ≺ k) (entries l)
      → Open k stack
      → chunk_rows end_key (before ++ rest) stack chunk
        ≡ onward rest (stack, chunk ++ program (full l))
  left_half Model.leaf k before rest stack chunk rows closes below is_open =
      rw (rows, append-nil chunk) refl
  left_half (Model.bin k' v' x y) k before rest stack chunk rows closes below is_open =
      let (_, here) = All-append_parts (λ e. e.0 ≺ k) (entries x) ((k', v') ∷ entries y) below in
      let last_below = final-All (λ q. q ≺ k) k' y here.0 here.1 in
      closes rest stack chunk (below-Open k' k stack here.0 is_open)
      ∙ ap (onward rest) (close-Open (final k' y) k stack _ last_below is_open)

  right_half :
      (r : Model) (link : MaybeLink) (k : Bytes) (after rest : List Row) (stack : List Bytes)
      (chunk : List Op)
      → Shape link r
      → Rows r after
      → Closes r after
      → IsSorted (entries r)
      → onward (after ++ rest) (open_or_close k link stack chunk)
        ≡ onward rest
            (close (final k r) stack (chunk ++ (program (full r) ++ mark (full r) Op.child)))
  unfolding open_or_close final
  right_half Model.leaf MaybeLink.unlinked k after rest stack chunk shape rows closes s =
      rw (rows, append-nil chunk) refl
  right_half Model.leaf (MaybeLink.linked l) k after rest stack chunk shape rows closes s =
      elim shape [ ]
  right_half (Model.bin k' v' x y) MaybeLink.unlinked k after rest stack chunk shape rows closes s =
      cc
  right_half (Model.bin k' v' x y) (MaybeLink.linked l) k after rest stack chunk shape rows closes
        s =
      let above = (IsSorted-right (entries x) ((k', v') ∷ entries y) s).0 in
      let last =
        final-All (λ q. lt_bytes q k' ≡ false) k' y (not_below k')
          (All-imp (λ e h. lt_bytes-false k' e.0 h) (entries y)
            (AllAbove-All k' (entries y) above)) in
      closes rest (_ ∷ stack) chunk (inr shape)
      ∙ ap (onward rest) (
          close-shut (final k' y) _ stack _
            (subst (λ q. lt_bytes (final k' y) q ≡ false) shape last)
          ∙ ap (close (final k' y) stack) (append_assoc chunk _ (Op.child ∷ [])))

  Rows-Closes :
      (m : Model) (rows : List Row)
      → Rows m rows
      → IsSorted (entries m)
      → FitsAll m
      → IsPlain end_key (entries m)
      → Closes m rows
  Rows-Closes Model.leaf rows h s f p = tt
  Rows-Closes (Model.bin k v l r) rows (before, after, encoded, e, node, hl, hr) s f p =
      λ rest stack chunk is_open.
        let below = left_below (entries l) (k, v) (entries r) s in
        let (pl, pn) = All-append_parts _ (entries l) ((k, v) ∷ entries r) p in
        let sr = (IsSorted-right (entries l) ((k, v) ∷ entries r) s).1 in
        let d = Encodes-Decoded encoded k v l r (f.0, f.1) node in
        let cl = Rows-Closes l before hl (IsSorted-left (entries l) _ s) f.2 pl in
        let cr = Rows-Closes r after hr sr f.3 pn.1 in
        ap (λ rows. chunk_rows end_key rows stack chunk)
          (ap (λ rows. rows ++ rest) e ∙ append_assoc before ((k, encoded) ∷ after) rest)
        ∙ left_half l k before ((k, encoded) ∷ (after ++ rest)) stack chunk hl cl below is_open
        ∙ chunk_rows-row k v encoded l r (after ++ rest) stack (chunk ++ program (full l)) pn.0 d
        ∙ right_half r d.r k after rest stack _ d.right hr cr sr
        ∙ ap (λ c. onward rest (close (final k r) stack c))
            (append_assoc (chunk ++ program (full l)) _ _ ∙ append_assoc chunk (program (full l)) _)

  -- What follows the rows of the chunk: nothing, or the row of the end key.
  abbrev pub Ends : List Row → Type 0
  Ends [] = Unit
  Ends ((key, encoded) ∷ rows) = is_end end_key key ≡ true

  chunk_rows-Ends :
      (rest : List Row) (chunk : List Op)
      → Ends rest
      → chunk_rows end_key rest [] chunk ≡ ok (chunk, rest)
  unfolding chunk_rows
  chunk_rows-Ends [] chunk e = refl
  chunk_rows-Ends ((key, encoded) ∷ rows) chunk e = rw e refl

  chunk_rows-program :
      (m : Model) (rows rest : List Row)
      → Rows m rows
      → Closes m rows
      → Ends rest
      → chunk_rows end_key (rows ++ rest) [] [] ≡ ok (program (full m), rest)
  unfolding close
  chunk_rows-program Model.leaf rows rest h c e = rw h (chunk_rows-Ends rest [] e)
  chunk_rows-program (Model.bin k v l r) rows rest h c e =
      c rest [] [] tt ∙ chunk_rows-Ends rest _ e

  -- On the rows of a subtree whose keys increase and are shorter than 2 ^ 8 below its root, with
  -- nothing or the row of the end key behind them and the end key not among them, `get_next_chunk`
  -- gives the operators of the whole subtree, and leaves what is behind the end key.
  pub get_next_chunk-program :
      (m : Model) (rows rest : List Row)
      → Rows m rows
      → IsSorted (entries m)
      → FitsAll m
      → IsPlain end_key (entries m)
      → Ends rest
      → get_next_chunk (rows ++ rest) end_key ≡ ok (program (full m), skip_row rest)
  unfolding get_next_chunk kv_hash
  get_next_chunk-program m rows rest h s f p e =
      rw (chunk_rows-program m rows rest h (Rows-Closes m rows h s f p) e) refl
