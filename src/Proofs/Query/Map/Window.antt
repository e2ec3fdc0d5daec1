-- ===== src/Proofs/Query/Map/Window.antt =====
-- What the inner iterator holds for the range of one key that is not in the map: the entries on
-- either side of the key.
use mathlib.Core.Path.{ap₂, subst}
use merk.Prelude.{
  ◌≡◌, refl, ap, ◌∙◌, inl, inr, Bool, true, false, List, [], ◌∷◌, ◌++◌, Option, none, some, ◌&&◌,
  All, All-imp, All-append_parts, snoc_cases, append-nil,
}
use merk.Bytes.{Bytes}
use merk.Bytes.Order.{◌≺◌, lt_trans, lt_bytes-false, le_bytes-true, le_bytes-false, le_bytes_refl}
use merk.Outcome.{ok}
use merk.Btree.{
  Bound, above_start, below_end, is_inverted, last_key_value, first_key_value, within, IsSorted,
}
use merk.Btree.Laws.{
  within-append, within-keep, within-drop, last_key_value-append, IsSorted-last, IsSorted-right,
}
use merk.Proofs.Query.Map.{Shown, bound_at, range}

-- what the inner iterator keeps of the entries on either side of the key
unfoldable pub list_of : Option Shown → List Shown
list_of none = []
list_of (some e) = e ∷ []

-- the bounds beside the key let the entries of the other side through
and_false : (a : Bool) → (a && false) ≡ false
and_false true = refl
and_false false = refl

first_lets :
    (q : Bytes) (above : List Shown) (k : Bytes)
    → All (λ e. q ≺ e.0) above
    → k ≺ q
    → below_end (bound_at (first_key_value above)) k ≡ true
unfolding bound_at
first_lets q [] k h l = refl
first_lets q ((n, _) ∷ above) k h l = le_bytes-true k n (lt_trans k q n l h.0)

last_lets :
    (q : Bytes) (below : List Shown) (k : Bytes)
    → All (λ e. e.0 ≺ q) below
    → q ≺ k
    → above_start (bound_at (last_key_value below)) k ≡ true
unfolding bound_at last_key_value
last_lets q [] k h l = refl
last_lets q (p ∷ []) k h l = le_bytes-true p.0 k (lt_trans p.0 q k h.0 l)
last_lets q (p ∷ p' ∷ below) k h l = last_lets q (p' ∷ below) k h.1 l

module _ (q : Bytes) (below above : List Shown) (all_below : All (λ e. e.0 ≺ q) below)
    (all_above : All (λ e. q ≺ e.0) above) where
  up_to : within Bound.unbounded (Bound.included q) (below ++ above) ≡ below
  up_to =
      within-append Bound.unbounded (Bound.included q) below above
      ∙ ap₂ (λ a b. a ++ b)
          (within-keep Bound.unbounded (Bound.included q) below
            (All-imp {A = Shown} (λ e h. le_bytes-true e.0 q h) below all_below))
          (within-drop Bound.unbounded (Bound.included q) above
            (All-imp {A = Shown} (λ e h. le_bytes-false q e.0 h) above all_above))
      ∙ append-nil below

  from : within (Bound.included q) Bound.unbounded (below ++ above) ≡ above
  from =
      within-append (Bound.included q) Bound.unbounded below above
      ∙ ap₂ (λ a b. a ++ b)
          (within-drop (Bound.included q) Bound.unbounded below (
            All-imp {A = Shown} (λ e h. ap (λ b. b && true) (le_bytes-false e.0 q h)) below
              all_below))
          (within-keep (Bound.included q) Bound.unbounded above (
            All-imp {A = Shown} (λ e h. ap (λ b. b && true) (le_bytes-true q e.0 h)) above
              all_above))

-- What lies between the entries next to the key: these entries.
low_window :
    (hi : Bound) (below : List Shown) (e : Shown) (rest : List Shown)
    → IsSorted ((below ++ (e ∷ [])) ++ rest)
    → below_end hi e.0 ≡ true
    → within (Bound.included e.0) hi (below ++ (e ∷ [])) ≡ e ∷ []
low_window hi below e rest s h =
    within-append (Bound.included e.0) hi below (e ∷ [])
    ∙ ap₂ (λ a b. a ++ b)
        (within-drop (Bound.included e.0) hi below (
          All-imp {A = Shown} (λ x l. ap (λ b. b && below_end hi x.0) (le_bytes-false x.0 e.0 l))
            below (IsSorted-last below e rest s)))
        (within-keep (Bound.included e.0) hi (e ∷ []) (rw (le_bytes_refl e.0) h, tt))

high_window :
    (lo : Bound) (e : Shown) (above : List Shown)
    → IsSorted (e ∷ above)
    → above_start lo e.0 ≡ true
    → within lo (Bound.included e.0) (e ∷ above) ≡ e ∷ []
high_window lo e above s h =
    within-append lo (Bound.included e.0) (e ∷ []) above
    ∙ ap₂ (λ a b. a ++ b)
        (within-keep lo (Bound.included e.0) (e ∷ []) (rw h (le_bytes_refl e.0), tt))
        (within-drop lo (Bound.included e.0) above (
          All-imp {A = Shown}
            (λ x l. ap (λ b. above_start lo x.0 && b) (le_bytes-false e.0 x.0 l) ∙ and_false _)
            above s.0))

below_window :
    (q : Bytes) (hi : Bound) (below rest : List Shown)
    → IsSorted (below ++ rest)
    → All (λ e. e.0 ≺ q) below
    → ((k : Bytes) → k ≺ q → below_end hi k ≡ true)
    → within (bound_at (last_key_value below)) hi below ≡ list_of (last_key_value below)
unfolding within list_of bound_at last_key_value
below_window q hi below rest s h lets = elim (snoc_cases below) [
  | inl e ↦ rw e
  | inr (ys, y, e) ↦
      let s' = subst (λ l. IsSorted (l ++ rest)) e s in
      let h' = subst (All (λ (x : Shown). x.0 ≺ q)) e h in
      rw (e, last_key_value-append ys y)
        (low_window hi ys y rest s'
          (lets y.0 (All-append_parts (λ (x : Shown). x.0 ≺ q) ys (y ∷ []) h').1.0))
]

above_window :
    (lo : Bound) (above : List Shown)
    → IsSorted above
    → All (λ (e : Shown). above_start lo e.0 ≡ true) above
    → within lo (bound_at (first_key_value above)) above ≡ list_of (first_key_value above)
unfolding within list_of bound_at
above_window lo [] s h = refl
above_window lo (e ∷ above) s h = high_window lo e above s h.0

abbrev pub IsBelow : Bytes → Option Shown → Type 0
IsBelow q none = Unit
IsBelow q (some e) = e.0 ≺ q

abbrev pub IsAbove : Bytes → Option Shown → Type 0
IsAbove q none = Unit
IsAbove q (some e) = q ≺ e.0

pub last-IsBelow :
    (q : Bytes) (m : List Shown) → All (λ e. e.0 ≺ q) m → IsBelow q (last_key_value m)
unfolding last_key_value
last-IsBelow q [] h = tt
last-IsBelow q (e ∷ []) h = h.0
last-IsBelow q (e ∷ e' ∷ m) h = last-IsBelow q (e' ∷ m) h.1

pub first-IsAbove :
    (q : Bytes) (m : List Shown) → All (λ e. q ≺ e.0) m → IsAbove q (first_key_value m)
first-IsAbove q [] h = tt
first-IsAbove q (e ∷ m) h = h.0

not_inverted :
    (q : Bytes) (p n : Option Shown)
    → IsBelow q p
    → IsAbove q n
    → is_inverted (bound_at p) (bound_at n) ≡ false
unfolding bound_at
not_inverted q none n hp hn = refl
not_inverted q (some p) none hp hn = refl
not_inverted q (some p) (some n) hp hn = lt_bytes-false p.0 n.0 (lt_trans p.0 q n.0 hp hn)

-- the inner iterator, for the range of one key that is not in the map
pub range-window :
    (q : Bytes) (below above : List Shown) (edge : Bool)
    → IsSorted (below ++ above)
    → All (λ e. e.0 ≺ q) below
    → All (λ e. q ≺ e.0) above
    → range
        (record { entries = below ++ above; right_edge = edge })
        (Bound.included q)
        (Bound.included q)
      ≡ ok (record {
        right_edge = edge;
        lower = Bound.included q;
        upper = Bound.included q;
        done = false;
        iter = list_of (last_key_value below) ++ list_of (first_key_value above);
      })
unfolding range
range-window q below above edge s hb ha =
    let lo = bound_at (last_key_value below) in
    let hi = bound_at (first_key_value above) in
    let parts =
      within-append lo hi below above
      ∙ ap₂ (λ a b. a ++ b) (below_window q hi below above s hb (λ k l. first_lets q above k ha l))
          (above_window lo above (IsSorted-right below above s)
            (All-imp {A = Shown} (λ e l. last_lets q below e.0 hb l) above ha)) in
    rw (up_to q below above hb ha, from q below above hb ha)
      (rw
        (
          not_inverted q (last_key_value below) (first_key_value above) (last-IsBelow q below hb)
              (first-IsAbove q above ha),
          parts,
        )
        refl)
