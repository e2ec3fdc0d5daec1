-- ===== src/Store/Chunks/Drain.antt =====
-- The loop over the chunks: the trunk, then one chunk for every subtree below it.
use merk.Prelude.{
  ℕ, zero, suc, ◌+◌, ◌≤◌, ◌<◌, ◌≡◌, refl, sym, ap, ◌∙◌, true, false, List, [], ◌∷◌, ◌++◌, none,
  some, map, length, length-append, append_assoc, append-nil, arith, ltb, leb,
}
use merk.Bytes.{Bytes}
use merk.Bytes.Order.{eq_bytes_refl}
use merk.Outcome.{ok}
use merk.Hash.{Hasher}
use merk.Model.{Model}
use merk.Proofs.{Op}
use merk.Proofs.Chunk.{Row, get_next_chunk}
use merk.Proofs.Chunk.Program.{get_next_chunk-program}
use merk.Proofs.Chunk.Rows.{full}
use merk.Proofs.Encoding.{Ed, encode_into}
use merk.Proofs.Tree.Postfix.{program}
use merk.Store.Chunks.{EdVec, ChunkProducer, boundary_at, len, next, next_chunk, drain}
use merk.Store.Chunks.Windows.{Split, leaf_bytes}
use merk.Tree.Encoding.{EdOption}

boundary_at-end : (ks : List Bytes) → boundary_at ks (length ks) ≡ none
boundary_at-end [] = refl
boundary_at-end (k ∷ ks) = boundary_at-end ks

pub boundary_at-append :
    (pre : List Bytes) (k : Bytes) (ks : List Bytes)
    → boundary_at (pre ++ (k ∷ ks)) (length pre) ≡ some k
boundary_at-append [] k ks = refl
boundary_at-append (k' ∷ pre) k ks = boundary_at-append pre k ks

module _ ⦃hasher : Hasher⦄ ⦃o : EdOption⦄ ⦃codec : Ed⦄ ⦃vec : EdVec⦄ where
  -- a producer at an index
  abbrev pub at : ChunkProducer → ℕ → List Row → ChunkProducer
  at p index rows = record p { index = index; raw_iter = rows }

  pub next-at :
      (p : ChunkProducer) (n : ℕ) (rows rest : List Row) (chunk : List Op)
      → suc n < len p
      → get_next_chunk rows (boundary_at p.chunk_boundaries n) ≡ ok (chunk, rest)
      → next (at p (suc n) rows) ≡ some (ok (at p (suc n + 1) rest, encode_into chunk))
  unfolding next next_chunk
  next-at p n rows rest chunk b e =
      let more : leb (len p) (suc n) ≡ false = ground arith in
      let below : ltb (suc n) (len p) ≡ true = ground arith in
      rw (more, below, e, vec.encode_vec-encode_into chunk) refl

  pub next_end :
      (p : ChunkProducer) (n : ℕ) (rows : List Row) → len p ≤ n → next (at p n rows) ≡ none
  unfolding next
  next_end p n rows b = let over : leb (len p) n ≡ true = ground arith in rw over refl

  -- From an index on, the loop gives the chunks of the subtrees that are left.
  pub drain-Split :
      (fuel : ℕ) (p : ChunkProducer) (pre ks : List Bytes) (ws : List Model) (rows : List Row)
      → p.chunk_boundaries ≡ pre ++ ks
      → len p ≡ length pre + length ks + 2
      → length ks + 2 ≤ fuel
      → Split none ws ks rows
      → drain fuel (at p (suc (length pre)) rows) ≡ ok (map leaf_bytes ws)
  unfolding drain
  drain-Split fuel p pre ks [] rows e b c s = elim s [ ]
  drain-Split zero p pre ks (w ∷ ws) rows e b c s = absurd (omega arith)
  drain-Split (suc zero) p pre ks (w ∷ ws) rows e b c s = absurd (omega arith)
  drain-Split (suc (suc fuel)) p pre [] (w ∷ ws) rows e b c (last, h, good) =
      let over : boundary_at p.chunk_boundaries (length pre) ≡ none =
        ap (λ ks. boundary_at ks (length pre)) (e ∙ append-nil pre) ∙ boundary_at-end pre in
      let read : get_next_chunk rows (boundary_at p.chunk_boundaries (length pre))
          ≡ ok (program (full w), []) =
        ap (get_next_chunk rows) over
        ∙ ap (λ rows. get_next_chunk rows none) (sym (append-nil rows))
        ∙ get_next_chunk-program none w rows [] h good.0 good.1 good.2 tt in
      rw
        (
          next-at p (length pre) rows [] (program (full w)) (omega arith) read,
          next_end p (suc (length pre) + 1) [] (omega arith),
          last,
        )
        refl
  drain-Split (suc fuel) p pre (k ∷ ks) (w ∷ ws) rows e b c
        (before, encoded, rest, er, h, good, more) =
      let here : boundary_at p.chunk_boundaries (length pre) ≡ some k =
        ap (λ ks. boundary_at ks (length pre)) e ∙ boundary_at-append pre k ks in
      let read : get_next_chunk rows (boundary_at p.chunk_boundaries (length pre))
          ≡ ok (program (full w), rest) =
        ap (get_next_chunk rows) here
        ∙ ap (λ rows. get_next_chunk rows (some k)) er
        ∙ get_next_chunk-program (some k) w before ((k, encoded) ∷ rest) h good.0 good.1 good.2
            (eq_bytes_refl k) in
      let longer = length-append pre (k ∷ []) in
      let index : suc (length pre) + 1 ≡ suc (length (pre ++ (k ∷ []))) = omega arith in
      let onward =
        drain-Split fuel p (pre ++ (k ∷ [])) ks ws rest (e ∙ sym (append_assoc pre (k ∷ []) ks))
          (omega arith) (omega arith) more in
      rw (next-at p (length pre) rows rest (program (full w)) (omega arith) read, index, onward)
        refl
