-- ===== src/Store/Chunks/Random.antt =====
-- `ChunkProducer::chunk`: any chunk by its index, against the loop over all of them.
use mathlib.Core.Path.{subst}
use merk.Prelude.{
  ℕ, zero, suc, ◌+◌, ◌≤◌, ◌<◌, ◌≡◌, refl, sym, ap, ◌∙◌, true, false, List, [], ◌∷◌, ◌++◌, none,
  some, map, length, length-append, append_assoc, arith, leb, ltb, inl, inr, Bool-cases,
}
use merk.Bytes.{Bytes, lt_bytes}
use merk.Bytes.Order.{lt_bytes-true, cmp_refl}
use merk.Outcome.{Result, ok, err, ◌>>=◌, >>=-eq-ok, Error}
use merk.Hash.{Hasher}
use merk.Model.{Model, IsSorted}
use merk.Model.Find.{AllAbove-append}
use merk.Proofs.Chunk.{Row}
use merk.Proofs.Encoding.{Ed}
use merk.Store.Chunks.{
  EdVec, ChunkProducer, boundary_at, seek, len, position, next_chunk, chunk, next, take_next, drain,
}
use merk.Store.Chunks.Drain.{at, drain-Split, boundary_at-append}
use merk.Store.Chunks.Windows.{Split, leaf_bytes}
use merk.Tree.Encoding.{EdOption}

-- an element by its index
abbrev pub nth_chunk : List Bytes → ℕ → Result Bytes
nth_chunk [] n = err Error.index_out_of_bounds
nth_chunk (b ∷ bs) zero = ok b
nth_chunk (b ∷ bs) (suc n) = nth_chunk bs n

nth_chunk-out :
    (bs : List Bytes) (n : ℕ) → length bs ≤ n → nth_chunk bs n ≡ err Error.index_out_of_bounds
nth_chunk-out [] n b = refl
nth_chunk-out (x ∷ bs) zero b = absurd (omega arith)
nth_chunk-out (x ∷ bs) (suc n) b = nth_chunk-out bs n (omega arith)

-- a seek of a key that is there
seek-append :
    (xs : List Row) (k encoded : Bytes) (ys : List Row)
    → IsSorted (xs ++ ((k, encoded) ∷ ys))
    → seek k (xs ++ ((k, encoded) ∷ ys)) ≡ (k, encoded) ∷ ys
seek-append [] k encoded ys s =
    let same = cmp_refl k in let here : lt_bytes k k ≡ false = ground arith in rw here refl
seek-append ((j, e) ∷ xs) k encoded ys s =
    let below = AllAbove-append j xs (k, encoded) ys s.0 in
    rw (lt_bytes-true j k below) (seek-append xs k encoded ys s.1)

module _ ⦃hasher : Hasher⦄ ⦃o : EdOption⦄ ⦃codec : Ed⦄ where
  -- the rows behind a boundary, with the subtrees there
  record SplitAt (n : ℕ) (ws : List Model) (ks : List Bytes) (rows : List Row) : Type 0 where
    pre : List Bytes
    key : Bytes
    encoded : Bytes
    xs : List Row
    ys : List Row
    ks' : List Bytes
    ws' : List Model
    keys : ks ≡ pre ++ (key ∷ ks')
    count : length pre ≡ n
    whole : rows ≡ xs ++ ((key, encoded) ∷ ys)
    split : Split none ws' ks' ys
    same : nth_chunk (map leaf_bytes ws) (suc n) ≡ nth_chunk (map leaf_bytes ws') 0

  Split-at :
      (n : ℕ) (ws : List Model) (ks : List Bytes) (rows : List Row)
      → n < length ks
      → Split none ws ks rows
      → SplitAt n ws ks rows
  Split-at n [] ks rows b s = elim s [ ]
  Split-at n (w ∷ ws) [] rows b s = absurd (omega arith)
  Split-at zero (w ∷ ws) (k ∷ ks) rows b (before, encoded, rest, e, h, good, more) = record {
    pre = [];
    key = k;
    encoded = encoded;
    xs = before;
    ys = rest;
    ks' = ks;
    ws' = ws;
    keys = refl;
    count = refl;
    whole = e;
    split = more;
    same = refl;
  }
  Split-at (suc n) (w ∷ ws) (k ∷ ks) rows b (before, encoded, rest, e, h, good, more) =
      let a = Split-at n ws ks rest (omega arith) more in
      record {
        pre = k ∷ a.pre;
        key = a.key;
        encoded = a.encoded;
        xs = before ++ ((k, encoded) ∷ a.xs);
        ys = a.ys;
        ks' = a.ks';
        ws' = a.ws';
        keys = ap (λ l. k ∷ l) a.keys;
        count = ap suc a.count;
        whole =
            e
            ∙ ap (λ l. before ++ ((k, encoded) ∷ l)) a.whole
            ∙ sym (append_assoc before ((k, encoded) ∷ a.xs) ((a.key, a.encoded) ∷ a.ys));
        split = a.split;
        same = a.same;
      }

  Split-length :
      (ws : List Model) (ks : List Bytes) (rows : List Row)
      → Split none ws ks rows
      → length (map leaf_bytes ws) ≡ length ks + 1
  Split-length [] ks rows s = elim s [ ]
  Split-length (w ∷ ws) [] rows (e, h, good) = rw e refl
  Split-length (w ∷ ws) (k ∷ ks) rows (before, encoded, rest, e, h, good, more) =
      let n = Split-length ws ks rest more in omega arith

  module _ ⦃vec : EdVec⦄ where
    -- what the loop gives first is the next chunk
    drain-next_chunk :
        (fuel : ℕ) (p : ChunkProducer) (bs : List Bytes)
        → p.index < len p
        → drain fuel p ≡ ok bs
        → (next_chunk p >>= λ r. ok r.1) ≡ nth_chunk bs 0
    unfolding drain next
    drain-next_chunk zero p bs b e = cc
    drain-next_chunk (suc fuel) p bs b e =
        let more : leb (len p) p.index ≡ false = ground arith in
        let e' : take_next (drain fuel) (some (next_chunk p)) ≡ ok bs = rw more at e in
        let (r, first, e'') = >>=-eq-ok (next_chunk p) _ e' in
        let (rest, left, whole) = >>=-eq-ok (drain fuel r.0) _ e'' in
        let same : r.1 ∷ rest ≡ bs = cc in rw (first, ← same) refl

    -- the chunk at an index, where the iterator is put to the rows of the chunk
    pub chunk-position :
        (p : ChunkProducer) (i : ℕ) (rows : List Row)
        → i < len p
        → position p i ≡ ok rows
        → chunk p i ≡ next_chunk (at p i rows)
    unfolding chunk
    chunk-position p i rows b e =
        let below : leb (len p) i ≡ false = ground arith in rw (below, e) refl

    pub chunk_out :
        (p : ChunkProducer) (i : ℕ) → len p ≤ i → chunk p i ≡ err Error.index_out_of_bounds
    unfolding chunk
    chunk_out p i b = let out : leb (len p) i ≡ true = ground arith in rw out refl

    -- from the rows that a boundary leaves, the loop goes on with the chunk of the index
    Split-chunk :
        (p : ChunkProducer) (n : ℕ) (pre ks : List Bytes) (ws : List Model) (rows : List Row)
        → p.chunk_boundaries ≡ pre ++ ks
        → len p ≡ length pre + length ks + 2
        → length pre ≡ n
        → Split none ws ks rows
        → position p (suc n) ≡ ok rows
        → (chunk p (suc n) >>= λ r. ok r.1) ≡ nth_chunk (map leaf_bytes ws) 0
    Split-chunk p n pre ks ws rows e c i s pos =
        let drained = drain-Split (length ks + 2) p pre ks ws rows e c (omega arith) s in
        let inside : suc n < len p = omega arith in
        ap (λ x. x >>= λ r. ok r.1) (chunk-position p (suc n) rows inside pos)
        ∙ (rw (← i) (
            drain-next_chunk (length ks + 2) (at p (suc (length pre)) rows) _ (omega arith)
              drained))

    -- Any chunk of a subtree, where the boundaries split the rows.
    pub chunk-Split :
        (p : ChunkProducer) (ws : List Model) (n : ℕ)
        → len p ≡ length p.chunk_boundaries + 2
        → IsSorted p.rows
        → Split none ws p.chunk_boundaries p.rows
        → (chunk p (suc n) >>= λ r. ok r.1) ≡ nth_chunk (map leaf_bytes ws) n
    chunk-Split p ws zero c sorted s =
        Split-chunk p 0 [] p.chunk_boundaries ws p.rows refl (omega arith) refl s refl
    chunk-Split p ws (suc n) c sorted s = elim (Bool-cases (ltb n (length p.chunk_boundaries))) [
      | inl below ↦
          let a = Split-at n ws p.chunk_boundaries p.rows (ground arith) s in
          let keys' = sym (append_assoc a.pre (a.key ∷ []) a.ks') in
          let found : boundary_at p.chunk_boundaries n ≡ some a.key =
            ap (λ ks. boundary_at ks n) a.keys
            ∙ (rw (← a.count) (boundary_at-append a.pre a.key a.ks')) in
          let seen : seek a.key p.rows ≡ (a.key, a.encoded) ∷ a.ys =
            ap (seek a.key) a.whole
            ∙ seek-append a.xs a.key a.encoded a.ys (subst IsSorted a.whole sorted) in
          let pos : position p (suc (suc n)) ≡ ok a.ys = rw (found, seen) refl in
          let longer = length-append a.pre (a.key ∷ []) in
          let size = ap length a.keys ∙ length-append a.pre (a.key ∷ a.ks') in
          let count = a.count in
          Split-chunk p (suc n) (a.pre ++ (a.key ∷ [])) a.ks' a.ws' a.ys (a.keys ∙ keys')
            (omega arith) (omega arith) a.split pos
          ∙ sym a.same
      | inr behind ↦
          let size = Split-length ws p.chunk_boundaries p.rows s in
          ap (λ x. x >>= λ r. ok r.1) (chunk_out p (suc (suc n)) (ground arith))
          ∙ sym (nth_chunk-out (map leaf_bytes ws) (suc n) (ground arith))
    ]
