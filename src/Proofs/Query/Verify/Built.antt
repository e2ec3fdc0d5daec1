-- ===== src/Proofs/Query/Verify/Built.antt =====
-- The map that `MapBuilder` makes of the nodes of a proof.
use mathlib.Core.Path.{subst, ap₂}
use merk.Prelude.{
  ◌≡◌, refl, sym, ap, ◌∙◌, Bool, true, false, List, [], ◌∷◌, ◌++◌, Option, none, some, Bool-cases,
  inl, inr, snoc_cases, All, All-append, append_assoc, append-nil,
}
use merk.Bytes.{Bytes, le_bytes}
use merk.Bytes.Order.{◌≺◌, lt_trans, lt_of_not_le_bytes}
use merk.Outcome.{ok, Ensures, Ensures-and, Ensures-imp, Ensures-bind, Ensures_at}
use merk.Btree
use merk.Btree.{last_key_value, get as btree_get}
use merk.Btree.Laws.{insert_last, last_key_value-append}
use merk.Proofs.{Node}
use merk.Proofs.Tree.Execute.{visit_all}
use merk.Proofs.Query.Map.{Shown, Map, insert, check_order}

-- The entries that the nodes add, and the last flag.
abbrev pub built : Bool → List Node → List Shown
built c [] = []
built c (Node.kv k v ∷ ns) = (k, (c, v)) ∷ built true ns
built c (Node.hash h ∷ ns) = built false ns
built c (Node.kv_hash h ∷ ns) = built false ns

abbrev pub last_flag : Bool → List Node → Bool
last_flag c [] = c
last_flag c (Node.kv k v ∷ ns) = last_flag true ns
last_flag c (Node.hash h ∷ ns) = last_flag false ns
last_flag c (Node.kv_hash h ∷ ns) = last_flag false ns

pub below_last :
    (m : List Shown) (key : Bytes)
    → Btree.IsSorted m
    → (p : Shown) → last_key_value m ≡ some p
    → p.0 ≺ key
    → All (λ e. e.0 ≺ key) m
unfolding last_key_value
below_last [] key s p e h = tt
below_last (x ∷ []) key s p e h =
    let same : x ≡ p = cc in (subst (λ (y : Shown). y.0 ≺ key) (sym same) h, tt)
below_last (x ∷ y ∷ m) key s p e h =
    let rest = below_last (y ∷ m) key s.1 p e h in (lt_trans x.0 y.0 key s.0.0 rest.0, rest)

IsSorted-append :
    (m : List Shown) (e : Shown)
    → Btree.IsSorted m
    → All (λ (x : Shown). x.0 ≺ e.0) m
    → Btree.IsSorted (m ++ (e ∷ []))
IsSorted-append [] e s h = (tt, tt)
IsSorted-append (x ∷ m) e s h =
    (All-append (λ (y : Shown). x.0 ≺ y.0) m (e ∷ []) s.0 (h.0, tt), IsSorted-append m e s.1 h.1)

-- nothing is left out where the last key is below
below_checked :
    (m : List Shown) (key : Bytes) (m' : Map)
    → Btree.IsSorted m
    → (o : Option Shown) → last_key_value m ≡ o
    → Ensures (λ _. All (λ e. e.0 ≺ key) m) (check_order o key m')
unfolding check_order
below_checked m key m' s none e = elim (snoc_cases m) [
  | inl none_left ↦ rw none_left tt
  | inr (ys, y, h) ↦
      let p : some y ≡ none = sym (last_key_value-append ys y) ∙ ap last_key_value (sym h) ∙ e in cc
]
below_checked m key m' s (some p) e = elim (Bool-cases (le_bytes key p.0)) [
  | inl h ↦ rw (h, check_order) tt
  | inr h ↦ rw (h, check_order) (below_last m key s p e (lt_of_not_le_bytes key p.0 h))
]

-- A step of the builder appends, and keeps the order.
pub record Appends (m : Map) (ns : List Node) (m' : Map) : Type 0 where
  pub entries : m'.entries ≡ m.entries ++ built m.right_edge ns
  pub right_edge : m'.right_edge ≡ last_flag m.right_edge ns
  pub sorted : Btree.IsSorted m'.entries

check_order-same :
    (o : Option Shown) (key : Bytes) (m : Map) → Ensures (λ m'. m' ≡ m) (check_order o key m)
unfolding check_order
check_order-same none key m = refl
check_order-same (some p) key m = elim (Bool-cases (le_bytes key p.0)) [
  | inl h ↦ rw (h, check_order) tt
  | inr h ↦ rw (h, check_order) refl
]

insert-Appends :
    (m : Map) (n : Node) → Btree.IsSorted m.entries → Ensures (Appends m (n ∷ [])) (insert m n)
unfolding insert
insert-Appends m (Node.hash h) s = record {
  entries = sym (append-nil m.entries);
  right_edge = refl;
  sorted = s;
}
insert-Appends m (Node.kv_hash h) s = record {
  entries = sym (append-nil m.entries);
  right_edge = refl;
  sorted = s;
}
insert-Appends m (Node.kv k v) s =
    let m₁ : Map = record {
      entries = Btree.insert m.entries k (m.right_edge, v);
      right_edge = true;
    } in
    let checked = check_order (last_key_value m.entries) k m₁ in
    Ensures-imp _ _ checked
      (λ m' h.
        let at_end = insert_last m.entries k (m.right_edge, v) h.0 in
        rw h.1 (record {
          entries = at_end;
          right_edge = refl;
          sorted = rw at_end (IsSorted-append m.entries (k, (m.right_edge, v)) s h.0);
        }))
      (Ensures-and (λ _. All (λ e. e.0 ≺ k) m.entries) (λ m'. m' ≡ m₁) checked
        (below_checked m.entries k m₁ s (last_key_value m.entries) refl)
        (check_order-same (last_key_value m.entries) k m₁))

built-cons :
    (c : Bool) (n : Node) (ns : List Node)
    → (built c (n ∷ ns) ≡ built c (n ∷ []) ++ built (last_flag c (n ∷ [])) ns)
      × (last_flag c (n ∷ ns) ≡ last_flag (last_flag c (n ∷ [])) ns)
built-cons c (Node.hash h) ns = (refl, refl)
built-cons c (Node.kv_hash h) ns = (refl, refl)
built-cons c (Node.kv k v) ns = (refl, refl)

visit_all-Ensures :
    (m : Map) (ns : List Node)
    → Btree.IsSorted m.entries
    → Ensures (Appends m ns) (visit_all insert m ns)
visit_all-Ensures m [] s = record {
  entries = sym (append-nil m.entries);
  right_edge = refl;
  sorted = s;
}
visit_all-Ensures m (n ∷ ns) s = Ensures-bind _ (insert m n) _ λ m' e.
    let a = Ensures_at _ _ m' e (insert-Appends m n s) in
    Ensures-imp _ _ (visit_all insert m' ns)
      (λ m'' b. record {
        entries =
            b.entries
            ∙ ap₂ (λ l c. l ++ built c ns) a.entries a.right_edge
            ∙ append_assoc m.entries (built m.right_edge (n ∷ [])) _
            ∙ ap (λ l. m.entries ++ l) (sym (built-cons m.right_edge n ns).0);
        right_edge =
            b.right_edge
            ∙ ap (λ c. last_flag c ns) a.right_edge
            ∙ sym (built-cons m.right_edge n ns).1;
        sorted = b.sorted;
      })
      (visit_all-Ensures m' ns a.sorted)

-- Nodes that `insert` accepts one after another leave a map sorted; they append their keys, each
-- with the flag that tells whether the node before it has a key too, and the flag of the last node
-- becomes the right edge.
pub visit_all-Appends :
    (m m' : Map) (ns : List Node)
    → Btree.IsSorted m.entries
    → visit_all insert m ns ≡ ok m'
    → Appends m ns m'
visit_all-Appends m m' ns s e = Ensures_at _ _ m' e (visit_all-Ensures m ns s)
