-- ===== src/Store/Replay.antt =====
-- What a batch of writes leaves under a key: the order of writes to other keys does not matter.
use merk.Prelude.{
  ◌≡◌, ◌≢◌, refl, sym, ap, ◌∙◌, inl, inr, true, false, List, [], ◌∷◌, ◌++◌, Option, none, some, map,
  All, Bool-cases,
}
use merk.Bytes.{Bytes, le_bytes, eq_bytes}
use merk.Bytes.Order.{eq_of_eq_bytes, le_bytes_refl}
use merk.Outcome.{Result}
use merk.Tree.Ops.{BatchOp, BatchEntry}
use merk.Store.{Change, node_write, aux_write, insert_change, sort_by_key}
use merk.Store.Rocks.{Column, Write, written, replay}

-- what a list of changes leaves under a key
abbrev pub changed : List Change → Bytes → Result (Option Bytes) → Result (Option Bytes)
changed es k old = replay (map node_write es) Column.main k old

pub changed-append :
    (es es' : List Change) (k : Bytes) (old : Result (Option Bytes))
    → changed (es ++ es') k old ≡ changed es' k (changed es k old)
changed-append [] es' k old = refl
changed-append (e ∷ es) es' k old = changed-append es es' k _

pub eq_bytes-other : (a b : Bytes) → a ≢ b → eq_bytes b a ≡ false
eq_bytes-other a b h = elim (Bool-cases (eq_bytes b a)) [
  | inl same ↦ absurd (h (sym (eq_of_eq_bytes b a same)))
  | inr other ↦ other
]

written-other :
    (e : Change) (k : Bytes) (old : Result (Option Bytes))
    → e.0 ≢ k
    → written (node_write e) Column.main k old ≡ old
written-other (k', some v) k old h = rw (eq_bytes-other k' k h) refl
written-other (k', none) k old h = rw (eq_bytes-other k' k h) refl

-- changes of other keys leave what was there
pub changed-other :
    (es : List Change) (k : Bytes) (old : Result (Option Bytes))
    → All (λ e. e.0 ≢ k) es
    → changed es k old ≡ old
changed-other [] k old h = refl
changed-other (e ∷ es) k old h =
    ap (changed es k) (written-other e k old h.0) ∙ changed-other es k old h.1

-- writes of two keys commute
written_swap :
    (e e' : Change) (k : Bytes) (old : Result (Option Bytes))
    → le_bytes e.0 e'.0 ≡ false
    → written (node_write e) Column.main k (written (node_write e') Column.main k old)
      ≡ written (node_write e') Column.main k (written (node_write e) Column.main k old)
written_swap e e' k old h = elim (Bool-cases (eq_bytes k e.0)) [
  | inr other ↦ here e other
  | inl same ↦ elim (Bool-cases (eq_bytes k e'.0)) [
    | inr other ↦ there e' other
    | inl same' ↦
        let equal : e.0 ≡ e'.0 = sym (eq_of_eq_bytes k e.0 same) ∙ eq_of_eq_bytes k e'.0 same' in
        absurd (differ e.0 e'.0 equal h)
  ]
]
  where
    differ : (a b : Bytes) → a ≡ b → le_bytes a b ≡ false → ⊥
    differ a b equal h = let same : le_bytes a b ≡ true = rw equal (le_bytes_refl b) in cc

    skip :
        (e : Change) (old : Result (Option Bytes))
        → eq_bytes k e.0 ≡ false
        → written (node_write e) Column.main k old ≡ old
    skip (k', some v) old h = rw h refl
    skip (k', none) old h = rw h refl

    here :
        (e : Change)
        → eq_bytes k e.0 ≡ false
        → written (node_write e) Column.main k (written (node_write e') Column.main k old)
          ≡ written (node_write e') Column.main k (written (node_write e) Column.main k old)
    here e h = skip e _ h ∙ ap (written (node_write e') Column.main k) (sym (skip e old h))

    there :
        (e' : Change)
        → eq_bytes k e'.0 ≡ false
        → written (node_write e) Column.main k (written (node_write e') Column.main k old)
          ≡ written (node_write e') Column.main k (written (node_write e) Column.main k old)
    there e' h = ap (written (node_write e) Column.main k) (skip e' old h) ∙ sym (skip e' _ h)

insert_change-changed :
    (e : Change) (es : List Change) (k : Bytes) (old : Result (Option Bytes))
    → changed (insert_change e es) k old ≡ changed (e ∷ es) k old
unfolding insert_change
insert_change-changed e [] k old = refl
insert_change-changed e (e' ∷ es) k old = elim (Bool-cases (le_bytes e.0 e'.0)) [
  | inl le ↦ rw le refl
  | inr gt ↦ rw gt (insert_change-changed e es k _ ∙ ap (changed es k) (written_swap e e' k old gt))
]

-- Sorting the changes does not change what they leave.
pub sort_by_key-changed :
    (es : List Change) (k : Bytes) (old : Result (Option Bytes))
    → changed (sort_by_key es) k old ≡ changed es k old
unfolding sort_by_key
sort_by_key-changed [] k old = refl
sort_by_key-changed (e ∷ es) k old =
    insert_change-changed e (sort_by_key es) k old ∙ sort_by_key-changed es k _

pub replay-append :
    (ws ws' : List Write) (c : Column) (k : Bytes) (old : Result (Option Bytes))
    → replay (ws ++ ws') c k old ≡ replay ws' c k (replay ws c k old)
replay-append [] ws' c k old = refl
replay-append (w ∷ ws) ws' c k old = replay-append ws ws' c k _

-- auxiliary values are in a column family of their own
pub aux_write-main :
    (aux : List BatchEntry) (k : Bytes) (old : Result (Option Bytes))
    → replay (map aux_write aux) Column.main k old ≡ old
aux_write-main [] k old = refl
aux_write-main ((k', BatchOp.put v) ∷ aux) k old = aux_write-main aux k old
aux_write-main ((k', BatchOp.delete) ∷ aux) k old = aux_write-main aux k old

pub aux_write-internal :
    (aux : List BatchEntry) (k : Bytes) (old : Result (Option Bytes))
    → replay (map aux_write aux) Column.internal k old ≡ old
aux_write-internal [] k old = refl
aux_write-internal ((k', BatchOp.put v) ∷ aux) k old = aux_write-internal aux k old
aux_write-internal ((k', BatchOp.delete) ∷ aux) k old = aux_write-internal aux k old

pub node_write-internal :
    (es : List Change) (k : Bytes) (old : Result (Option Bytes))
    → replay (map node_write es) Column.internal k old ≡ old
node_write-internal [] k old = refl
node_write-internal ((k', some v) ∷ es) k old = node_write-internal es k old
node_write-internal ((k', none) ∷ es) k old = node_write-internal es k old
