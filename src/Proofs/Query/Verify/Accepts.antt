-- ===== src/Proofs/Query/Verify/Accepts.antt =====
-- The closures that `execute` calls accept the nodes of a proof that shows sorted entries: the keys
-- increase, and `MapBuilder` takes each of them.
use mathlib.Core.Path.{subst}
use merk.Prelude.{
  ◌≡◌, refl, sym, ap, ◌∙◌, true, false, List, [], ◌∷◌, ◌++◌, Option, none, some, All, All-append,
  All-append_parts, ◌<◌, ◌^◌, length,
}
use merk.Bytes.{Bytes}
use merk.Bytes.Order.{◌≺◌, le_bytes-false}
use merk.Outcome.{ok, ◌>>=◌}
use merk.Btree.{last_key_value}
use merk.Btree.Laws.{insert_last}
use merk.Model.{Entry, AllAbove, IsSorted}
use merk.Model.Cover.{Covers, HasHash}
use merk.Model.Find.{AllAbove-right, IsSorted-right}
use merk.Proofs.{Node, Op}
use merk.Proofs.Encoding.RoundTrip.{Fits}
use merk.Proofs.Tree.{check_key}
use merk.Proofs.Tree.Execute.{visit_all}
use merk.Proofs.Query.Map.{Shown, Map, insert, check_order}
use merk.Proofs.Query.Map.Window.{IsBelow, last-IsBelow}

-- the entries are above the last key
abbrev pub IsAfter : Option Bytes → List Entry → Type 0
IsAfter none es = Unit
IsAfter (some k) es = AllAbove k es

IsAfter-right :
    (last : Option Bytes) (xs ys : List Entry) → IsAfter last (xs ++ ys) → IsAfter last ys
IsAfter-right none xs ys h = tt
IsAfter-right (some k) xs ys h = AllAbove-right k xs ys h

check_key-after :
    (last : Option Bytes) (k v w : Bytes) (es : List Entry)
    → IsAfter last ((k, w) ∷ es)
    → check_key last (Node.kv k v) ≡ ok (some k)
unfolding check_key
check_key-after none k v w es h = refl
check_key-after (some j) k v w es h = rw (le_bytes-false j k h.0) refl

check_key-hash : (last : Option Bytes) (x : Bytes) → check_key last (Node.hash x) ≡ ok last
unfolding check_key
check_key-hash none x = refl
check_key-hash (some k) x = refl

check_key-kv_hash : (last : Option Bytes) (x : Bytes) → check_key last (Node.kv_hash x) ≡ ok last
unfolding check_key
check_key-kv_hash none x = refl
check_key-kv_hash (some k) x = refl

-- `execute` finds the keys of covered, sorted entries in order.
pub Covers-check_key :
    (last : Option Bytes) (ns : List Node) (es : List Entry)
    → Covers ns es
    → IsSorted es
    → IsAfter last es
    → (last' : Option Bytes) × (visit_all check_key last ns ≡ ok last')
Covers-check_key last [] es c s h = (last, refl)
Covers-check_key last (Node.kv k v ∷ ns) [] c s h = elim c [ ]
Covers-check_key last (Node.kv k v ∷ ns) ((k', v') ∷ es) c s h =
    let first = subst (λ j. IsAfter last ((j, v') ∷ es)) (sym c.0) h in
    let (last', e) =
      Covers-check_key (some k) ns es c.2 s.1 (subst (λ j. AllAbove j es) (sym c.0) s.0) in
    (
      last',
      ap (λ r. r >>= λ l. visit_all check_key l ns) (check_key-after last k v v' es first) ∙ e,
    )
Covers-check_key last (Node.hash x ∷ ns) es (skipped, rest, e, c) s h =
    let s' = IsSorted-right skipped rest (subst IsSorted e s) in
    let (last', e') =
      Covers-check_key last ns rest c s'
        (IsAfter-right last skipped rest (subst (IsAfter last) e h)) in
    (last', ap (λ r. r >>= λ l. visit_all check_key l ns) (check_key-hash last x) ∙ e')
Covers-check_key last (Node.kv_hash x ∷ ns) es (skipped, rest, e, c) s h =
    let s' = IsSorted-right skipped rest (subst IsSorted e s) in
    let (last', e') =
      Covers-check_key last ns rest c s'
        (IsAfter-right last skipped rest (subst (IsAfter last) e h)) in
    (last', ap (λ r. r >>= λ l. visit_all check_key l ns) (check_key-kv_hash last x) ∙ e')

-- every key of the map is below every entry
abbrev pub IsUnder : List Shown → List Entry → Type 0
IsUnder m es = All (λ e. All (λ s. s.0 ≺ e.0) m) es

check_order-below :
    (o : Option Shown) (k : Bytes) (m : Map) → IsBelow k o → check_order o k m ≡ ok m
unfolding check_order
check_order-below none k m h = refl
check_order-below (some s) k m h = rw (le_bytes-false s.0 k h) refl

insert-below :
    (m : Map) (k v : Bytes)
    → All (λ s. s.0 ≺ k) m.entries
    → insert m (Node.kv k v)
      ≡ ok (record { entries = m.entries ++ ((k, (m.right_edge, v)) ∷ []); right_edge = true })
unfolding insert
insert-below m k v h =
    check_order-below (last_key_value m.entries) k _ (last-IsBelow k m.entries h)
    ∙ ap (λ es. ok (record { entries = es; right_edge = true }))
        (insert_last m.entries k (m.right_edge, v) h)

IsUnder-snoc :
    (m : List Shown) (s : Shown) (es : List Entry)
    → IsUnder m es
    → AllAbove s.0 es
    → IsUnder (m ++ (s ∷ [])) es
IsUnder-snoc m s [] u h = tt
IsUnder-snoc m s ((k, v) ∷ es) u h =
    (All-append (λ x. x.0 ≺ k) m (s ∷ []) u.0 (h.0, tt), IsUnder-snoc m s es u.1 h.1)

-- `MapBuilder` takes the nodes that cover sorted entries above its keys.
pub Covers-insert :
    (m : Map) (ns : List Node) (es : List Entry)
    → Covers ns es
    → IsSorted es
    → IsUnder m.entries es
    → (m' : Map) × (visit_all insert m ns ≡ ok m')
unfolding insert
Covers-insert m [] es c s u = (m, refl)
Covers-insert m (Node.kv k v ∷ ns) [] c s u = elim c [ ]
Covers-insert m (Node.kv k v ∷ ns) ((k', v') ∷ es) c s u =
    let below = subst (λ j. All (λ x. x.0 ≺ j) m.entries) (sym c.0) u.0 in
    let above = subst (λ j. AllAbove j es) (sym c.0) s.0 in
    let m₁ : Map = record {
      entries = m.entries ++ ((k, (m.right_edge, v)) ∷ []);
      right_edge = true;
    } in
    let (m', e) =
      Covers-insert m₁ ns es c.2 s.1 (IsUnder-snoc m.entries (k, (m.right_edge, v)) es u.1 above) in
    (m', ap (λ r. r >>= λ m. visit_all insert m ns) (insert-below m k v below) ∙ e)
Covers-insert m (Node.hash x ∷ ns) es (skipped, rest, e, c) s u =
    Covers-insert (record m { right_edge = false }) ns rest c
      (IsSorted-right skipped rest (subst IsSorted e s))
      (All-append_parts _ skipped rest (subst (IsUnder m.entries) e u)).1
Covers-insert m (Node.kv_hash x ∷ ns) es (skipped, rest, e, c) s u =
    Covers-insert (record m { right_edge = false }) ns rest c
      (IsSorted-right skipped rest (subst IsSorted e s))
      (All-append_parts _ skipped rest (subst (IsUnder m.entries) e u)).1

-- entries whose keys and values fit the fields of an operator
abbrev pub IsShort : List Entry → Type 0
IsShort es = All (λ e. (length e.0 < 2 ^ 8) × (length e.1 < 2 ^ 16)) es

-- The nodes that show short entries fit the fields of `Op.push`.
pub Covers-Fits :
    (ns : List Node) (es : List Entry)
    → Covers ns es
    → IsShort es
    → All HasHash ns
    → All (λ n. Fits (Op.push n)) ns
Covers-Fits [] es c s h = tt
Covers-Fits (Node.kv k v ∷ ns) [] c s h = elim c [ ]
Covers-Fits (Node.kv k v ∷ ns) ((k', v') ∷ es) c s h =
    (rw (c.0, c.1) s.0, Covers-Fits ns es c.2 s.1 h.1)
Covers-Fits (Node.hash x ∷ ns) es (skipped, rest, e, c) s h =
    (h.0, Covers-Fits ns rest c (All-append_parts _ skipped rest (subst IsShort e s)).1 h.1)
Covers-Fits (Node.kv_hash x ∷ ns) es (skipped, rest, e, c) s h =
    (h.0, Covers-Fits ns rest c (All-append_parts _ skipped rest (subst IsShort e s)).1 h.1)
