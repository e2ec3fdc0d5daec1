-- ===== src/Proofs/Query/Create/Split.antt =====
-- What the split of a query at a node leaves to each side, for sorted items.
use Prim.Native.Nat.{ℕ, zero, suc, Ordering}
use merk.Prelude.{
  ◌≡◌, refl, ◌⊎◌, inl, inr, Bool, true, false, List, [], ◌∷◌, All, All-imp, arith, if◌then◌else◌,
  drop,
}
use merk.Bytes.{Bytes, cmp, lt_bytes}
use merk.Bytes.Order.{◌≺◌, lt_trans, eq_of_cmp, gt_of_lt, cmp_refl, lt_bytes-true}
use merk.Proofs.Query.Item.{QueryItem, lower_bound, upper_bound, contains, cmp_item, IsProper}
use merk.Proofs.Query.Create.{Search, search, shift, split_query, take}
use merk.Proofs.Query.Item.Inside.{
  Inside, lt_of_le_lt, contains-Inside, lt-before, gt-after, eq-Inside, proper-Inside,
}

-- The items of a query: proper, and each less than those behind it, as a `BTreeSet` keeps them.
abbrev pub IsQuery : List QueryItem → Type 0
IsQuery [] = Unit
IsQuery (item ∷ items) =
    IsProper item × All (λ b. cmp_item item b ≡ Ordering.lt) items × IsQuery items

-- some item contains the key
abbrev pub Covered : Bytes → List QueryItem → Type 0
Covered k [] = ⊥
Covered k (item ∷ items) = (contains item k ≡ true) ⊎ Covered k items

-- every item begins after `k`
abbrev Past : Bytes → List QueryItem → Type 0
Past k items = All (λ b. k ≺ lower_bound b) items

Past-covered : (k j : Bytes) (items : List QueryItem) → Past k items → Covered j items → k ≺ j
Past-covered k j [] p c = elim c [ ]
Past-covered k j (b ∷ items) p (inl c) = by_cmp (cmp (lower_bound b) j) refl
  where
    by_cmp : (o : Ordering) → cmp (lower_bound b) j ≡ o → k ≺ j
    by_cmp Ordering.lt e = lt_trans k (lower_bound b) j p.0 e
    by_cmp Ordering.eq e = rw (← eq_of_cmp (lower_bound b) j e) p.0
    by_cmp Ordering.gt e = let above = (contains-Inside b j c).above in absurd (ground arith)
Past-covered k j (b ∷ items) p (inr c) = Past-covered k j items p.1 c

before-Past :
    (a : QueryItem) (k : Bytes) (items : List QueryItem)
    → Inside a k
    → All (λ b. cmp_item a b ≡ Ordering.lt) items
    → Past k items
before-Past a k items i h = All-imp (λ b e. lt-before a b k e i) items h

IsQuery-take : (n : ℕ) (items : List QueryItem) → IsQuery items → IsQuery (take n items)
IsQuery-take zero items q = tt
IsQuery-take (suc n) [] q = tt
IsQuery-take (suc n) (a ∷ items) q = (q.0, All-take n items q.1, IsQuery-take n items q.2)
  where
    All-take :
        (n : ℕ) (items : List QueryItem)
        → All (λ b. cmp_item a b ≡ Ordering.lt) items
        → All (λ b. cmp_item a b ≡ Ordering.lt) (take n items)
    All-take zero items h = tt
    All-take (suc n) [] h = tt
    All-take (suc n) (b ∷ items) h = (h.0, All-take n items h.1)

pub IsQuery-drop : (n : ℕ) (items : List QueryItem) → IsQuery items → IsQuery (drop n items)
IsQuery-drop zero items q = q
IsQuery-drop (suc n) [] q = tt
IsQuery-drop (suc n) (a ∷ items) q = IsQuery-drop n items q.2

if-IsQuery :
    (b : Bool) (xs ys : List QueryItem) → IsQuery xs → IsQuery ys → IsQuery (if b then xs else ys)
if-IsQuery true xs ys p q = p
if-IsQuery false xs ys p q = q

-- Both sides of a split of a query are queries.
pub split_query-IsQuery :
    (s : Search) (x : Bytes) (items : List QueryItem)
    → IsQuery items
    → IsQuery (split_query s x items).0 × IsQuery (split_query s x items).1
unfolding split_query
split_query-IsQuery (Search.hit n item) x items q = (
  if-IsQuery _ (take (suc n) items) (take n items) (IsQuery-take (suc n) items q)
      (IsQuery-take n items q),
  if-IsQuery _ (drop n items) (drop (suc n) items) (IsQuery-drop n items q)
      (IsQuery-drop (suc n) items q),
)
split_query-IsQuery (Search.miss n) x items q = (IsQuery-take n items q, IsQuery-drop n items q)

abbrev pub is_hit : Search → Bool
is_hit (Search.hit n item) = true
is_hit (Search.miss n) = false

-- What a split of the items leaves out of nobody's sight: keys below the node's key are covered by
-- the left items, keys above it by the right items, and the key itself is found.
pub record Splits (s : Search) (x : Bytes) (items : List QueryItem) : Type 0 where
  pub lefts : (k : Bytes) → k ≺ x → Covered k items → Covered k (split_query s x items).0
  pub rights : (k : Bytes) → x ≺ k → Covered k items → Covered k (split_query s x items).1
  pub here : Covered x items → is_hit s ≡ true

if_cons :
    (b : Bool) (a : QueryItem) (xs ys : List QueryItem)
    → (if b then a ∷ xs else a ∷ ys) ≡ a ∷ (if b then xs else ys)
if_cons true a xs ys = refl
if_cons false a xs ys = refl

split_query-shift :
    (s : Search) (x : Bytes) (a : QueryItem) (items : List QueryItem)
    → ((split_query (shift s) x (a ∷ items)).0 ≡ a ∷ (split_query s x items).0)
      × ((split_query (shift s) x (a ∷ items)).1 ≡ (split_query s x items).1)
unfolding split_query
split_query-shift (Search.hit n item) x a items =
    (if_cons _ a (take (suc n) items) (take n items), refl)
split_query-shift (Search.miss n) x a items = (refl, refl)

is_hit-shift : (s : Search) → is_hit (shift s) ≡ is_hit s
is_hit-shift (Search.hit n item) = refl
is_hit-shift (Search.miss n) = refl

not_both : (a b : Bytes) → a ≺ b → b ≺ a → ⊥
not_both a b l r = cc (gt_of_lt a b l)

irreflexive : (a : Bytes) → a ≺ a → ⊥
irreflexive a l = cc (cmp_refl a)

-- the item is before the node's key
Splits-lt :
    (s : Search) (x : Bytes) (a : QueryItem) (items : List QueryItem)
    → cmp_item a (QueryItem.key x) ≡ Ordering.lt
    → Splits s x items
    → Splits (shift s) x (a ∷ items)
Splits-lt s x a items e h =
    let (l, r) = split_query-shift s x a items in
    record {
      lefts = λ k b c. rw l (either (contains a k) c (h.lefts k b));
      rights = λ k b c. rw r (elim c [
        | inl i ↦
            absurd (not_both k x (lt-before a (QueryItem.key x) k e (contains-Inside a k i)) b)
        | inr c' ↦ h.rights k b c'
      ]);
      here = λ c. rw (is_hit-shift s) (elim c [
        | inl i ↦ absurd (irreflexive x (lt-before a (QueryItem.key x) x e (contains-Inside a x i)))
        | inr c' ↦ h.here c'
      ]);
    }
  where
    either : {P Q : Type 0} (b : Bool) → (b ≡ true) ⊎ P → (P → Q) → (b ≡ true) ⊎ Q
    either b (inl i) f = inl i
    either b (inr c) f = inr (f c)

-- the item contains the node's key
Splits-eq :
    (x : Bytes) (a : QueryItem) (items : List QueryItem)
    → Inside a x
    → All (λ b. cmp_item a b ≡ Ordering.lt) items
    → Splits (Search.hit 0 a) x (a ∷ items)
unfolding split_query
Splits-eq x a items i later = record {
  lefts = λ k b c. elim c [
    | inl j ↦
        let starts = lt_of_le_lt (lower_bound a) k x (contains-Inside a k j).above b in
        rw (lt_bytes-true (lower_bound a) x starts) (inl j)
    | inr c' ↦ absurd (not_both k x b (Past-covered x k items (before-Past a x items i later) c'))
  ];
  rights = λ k b c. elim c [
    | inl j ↦
        rw (lt_bytes-true x (upper_bound a).0 (ends k b (contains-Inside a k j).below)) (inl j)
    | inr c' ↦ into (lt_bytes x (upper_bound a).0) k c'
  ];
  here = λ c. refl;
}
  where
    ends :
        (k : Bytes)
        → x ≺ k
        → (k ≺ (upper_bound a).0) ⊎ ((k ≡ (upper_bound a).0) × ((upper_bound a).1 ≡ true))
        → x ≺ (upper_bound a).0
    ends k b (inl l) = lt_trans x k (upper_bound a).0 b l
    ends k b (inr e) = rw (← e.0) b

    into : (b : Bool) (k : Bytes) → Covered k items → Covered k (if b then a ∷ items else items)
    into true k c = inr c
    into false k c = c

-- the item is past the node's key
Splits-gt :
    (x : Bytes) (a : QueryItem) (items : List QueryItem)
    → IsProper a
    → x ≺ lower_bound a
    → All (λ b. cmp_item a b ≡ Ordering.lt) items
    → Splits (Search.miss 0) x (a ∷ items)
unfolding split_query
Splits-gt x a items proper after later =
    let past : Past x (a ∷ items) = (
      after,
      All-imp (λ b l. lt_trans x (lower_bound a) (lower_bound b) after l) items
          (before-Past a (lower_bound a) items (proper-Inside a proper) later),
    ) in
    record {
      lefts = λ k b c. absurd (not_both k x b (Past-covered x k (a ∷ items) past c));
      rights = λ k b c. c;
      here = λ c. absurd (irreflexive x (Past-covered x x (a ∷ items) past c));
    }

-- In a query, the split at a node's key leaves every covered key to the side where it belongs.
pub search-Splits :
    (items : List QueryItem) (x : Bytes) → IsQuery items → Splits (search items x) x items
unfolding search split_query
search-Splits [] x q = record { lefts = λ k b c. c; rights = λ k b c. c; here = λ c. elim c [ ] }
search-Splits (a ∷ items) x q =
    by_cmp (cmp_item a (QueryItem.key x)) refl (search-Splits items x q.2)
  where
    by_cmp :
        (o : Ordering)
        → cmp_item a (QueryItem.key x) ≡ o
        → Splits (search items x) x items
        → Splits
            (elim o [
              | Ordering.lt ↦ shift (search items x)
              | Ordering.eq ↦ Search.hit 0 a
              | Ordering.gt ↦ Search.miss 0
            ])
            x
            (a ∷ items)
    by_cmp Ordering.lt e h = Splits-lt (search items x) x a items e h
    by_cmp Ordering.eq e h = Splits-eq x a items (eq-Inside a x q.0 e) q.1
    by_cmp Ordering.gt e h = Splits-gt x a items q.0 (gt-after a x q.0 e) q.1
