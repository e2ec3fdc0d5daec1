-- ===== src/Proofs/Query/Output/Asked.antt =====
-- The entries that a query asks for, and the keys before and behind an item.
use mathlib.Core.Path.{subst}
use Prim.Native.Nat.{Ordering}
use merk.Prelude.{
  List, [], ◌∷◌, ◌++◌, ◌≡◌, refl, sym, ◌∙◌, inl, inr, true, false, All, if◌then◌else◌, Bool-cases,
}
use merk.Bytes.{Bytes, le_bytes}
use merk.Bytes.Order.{◌≺◌, cmp_refl, lt_trans, lt_bytes-true, lt_of_not_le_bytes}
use merk.Model.{Entry}
use merk.Proofs.Query.Create.Split.{IsQuery}
use merk.Proofs.Query.Insert.Covers.{covers}
use merk.Proofs.Query.Item.{
  QueryItem, lower_bound, upper_bound, contains, cmp_item, IsProper, cmp_item-contains,
}
use merk.Proofs.Query.Item.Inside.{
  Inside, contains-Inside, lt-before, gt-after, lt_of_le_lt, proper-Inside,
}
use merk.Proofs.Query.Output.{is_above, is_greater}

-- the entries whose keys some item contains, in order
abbrev pub asked : List QueryItem → List Entry → List Entry
asked items [] = []
asked items ((k, v) ∷ es) = if covers k items then (k, v) ∷ asked items es else asked items es

-- no key of the entries is asked for
abbrev pub Clear : List QueryItem → List Entry → Type 0
Clear items es = All (λ e. covers e.0 items ≡ false) es

pub asked-Clear :
    (items : List QueryItem) (xs ys : List Entry)
    → Clear items xs
    → asked items (xs ++ ys) ≡ asked items ys
asked-Clear items [] ys c = refl
asked-Clear items ((k, v) ∷ xs) ys c = rw c.0 (asked-Clear items xs ys c.1)

pub asked_nothing : (es : List Entry) → asked [] es ≡ []
asked_nothing [] = refl
asked_nothing ((k, v) ∷ es) = asked_nothing es

-- an item that contains none of the keys may be left out
pub asked_rest :
    (item : QueryItem) (items : List QueryItem) (es : List Entry)
    → All (λ e. contains item e.0 ≡ false) es
    → asked (item ∷ items) es ≡ asked items es
asked_rest item items [] h = refl
asked_rest item items ((k, v) ∷ es) h = rw (h.0, asked_rest item items es h.1) refl

irrefl : (a : Bytes) → a ≺ a → ⊥
irrefl a h = let e = cmp_refl a in cc

not-Inside : (item : QueryItem) (k : Bytes) → (Inside item k → ⊥) → contains item k ≡ false
not-Inside item k h = elim (Bool-cases (contains item k)) [
  | inl e ↦ elim (h (contains-Inside item k e)) [ ]
  | inr e ↦ e
]

-- a key before an item is not in it
before_item : (item : QueryItem) (j : Bytes) → j ≺ lower_bound item → contains item j ≡ false
before_item item j l =
    not-Inside item j
      λ i. irrefl (lower_bound item) (lt_of_le_lt (lower_bound item) j (lower_bound item) i.above l)

-- A key before the first item of a query is in none.
pub covers-before :
    (item : QueryItem) (items : List QueryItem) (j : Bytes)
    → IsQuery (item ∷ items)
    → j ≺ lower_bound item
    → covers j (item ∷ items) ≡ false
covers-before item [] j q l = rw (before_item item j l) refl
covers-before item (b ∷ items) j (p, (lt, _), q) l =
    let l' : j ≺ lower_bound b =
      lt_trans j (lower_bound item) (lower_bound b) l
        (lt-before item b (lower_bound item) lt (proper-Inside item p)) in
    rw (before_item item j l) (covers-before b items j q l')

-- Behind the upper bound of an item no key is in it.
pub behind_item :
    (item : QueryItem) (k j : Bytes)
    → le_bytes (upper_bound item).0 k ≡ true
    → k ≺ j
    → contains item j ≡ false
behind_item item k j past l =
    let behind = lt_of_le_lt (upper_bound item).0 k j past l in
    not-Inside item j λ i. elim i.below [
      | inl h ↦ irrefl j (lt_trans j (upper_bound item).0 j h behind)
      | inr h ↦ irrefl j (subst (λ u. u ≺ j) (sym h.0) behind)
    ]

-- An item above a key begins after it.
pub is_above-lower :
    (item : QueryItem) (k : Bytes) → IsProper item → is_above item k ≡ true → k ≺ lower_bound item
is_above-lower item k p e = gt-after item k p (greater (cmp_item item (QueryItem.key k)) e)
  where
    greater : (o : Ordering) → is_greater o ≡ true → o ≡ Ordering.gt
    greater Ordering.lt e = cc
    greater Ordering.eq e = cc
    greater Ordering.gt e = refl

-- An item that is not above a key and does not contain it has its upper bound there or before.
pub is_above-past :
    (item : QueryItem) (k : Bytes)
    → IsProper item
    → is_above item k ≡ false
    → contains item k ≡ false
    → le_bytes (upper_bound item).0 k ≡ true
is_above-past item k p reached out = elim (Bool-cases (le_bytes (upper_bound item).0 k)) [
  | inl e ↦ e
  | inr e ↦
      let short =
        lt_bytes-true k (upper_bound item).0 (lt_of_not_le_bytes (upper_bound item).0 k e) in
      elim (Bool-cases (le_bytes (lower_bound item) k)) [
        | inl le ↦ let same : true ≡ false = rw (le, short) at out in cc
        | inr gt ↦
            let low =
              lt_bytes-true k (lower_bound item) (lt_of_not_le_bytes (lower_bound item) k gt) in
            let above : cmp_item item (QueryItem.key k) ≡ Ordering.gt =
              cmp_item-contains item k p ∙ (rw (out, low) refl) in
            let same : true ≡ false = rw above at reached in cc
      ]
]
