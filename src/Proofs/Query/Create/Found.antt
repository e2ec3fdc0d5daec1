-- ===== src/Proofs/Query/Create/Found.antt =====
-- `search` against what the documentation of `binary_search_by` says of its answer.
use Prim.Native.Nat.{Ordering}
use mathlib.Core.Path.{subst}
use merk.Prelude.{ℕ, zero, suc, ◌≤◌, ◌≡◌, refl, sym, List, [], ◌∷◌, All, length, drop, arith}
use merk.Bytes.{Bytes}
use merk.Bytes.Order.{lt_trans, cmp_refl}
use merk.Proofs.Query.Item.{QueryItem, cmp_item, lower_bound, IsProper}
use merk.Proofs.Query.Item.Inside.{
  Inside, lt_of_le_lt, lt-before, gt-after, eq-Inside, proper-Inside,
}
use merk.Proofs.Query.Create.{Search, search, take}
use merk.Proofs.Query.Create.Split.{IsQuery, IsQuery-drop}

-- An answer that `binary_search_by` may give for a key: a match and its index, or, where nothing
-- matches, the index at which the key could be put in, with all before it less and all from it on
-- greater.
abbrev pub IsFound : Search → List QueryItem → Bytes → Type 0
IsFound (Search.hit i item) items k =
    ((rest : List QueryItem) × (drop i items ≡ item ∷ rest))
    × (cmp_item item (QueryItem.key k) ≡ Ordering.eq)
IsFound (Search.miss i) items k =
    (i ≤ length items)
    × All (λ a. cmp_item a (QueryItem.key k) ≡ Ordering.lt) (take i items)
    × All (λ a. cmp_item a (QueryItem.key k) ≡ Ordering.gt) (drop i items)

-- what is below an item that contains the key is below the key
lt_below :
    (a b : QueryItem) (k : Bytes)
    → IsProper a
    → cmp_item a b ≡ Ordering.lt
    → Inside b k
    → cmp_item a (QueryItem.key k) ≡ Ordering.lt
lt_below a b k q l i = by_cmp (cmp_item a (QueryItem.key k)) refl
  where
    by_cmp :
        (o : Ordering)
        → cmp_item a (QueryItem.key k) ≡ o
        → cmp_item a (QueryItem.key k) ≡ Ordering.lt
    by_cmp Ordering.lt e = e
    by_cmp Ordering.eq e =
        let c =
          lt_of_le_lt (lower_bound b) k (lower_bound b) i.above
            (lt-before a b k l (eq-Inside a k q e)) in
        absurd (cc (cmp_refl (lower_bound b)))
    by_cmp Ordering.gt e =
        let after = gt-after a k q e in
        let between =
          lt_trans k (lower_bound a) (lower_bound b) after
            (lt-before a b (lower_bound a) l (proper-Inside a q)) in
        let c = lt_of_le_lt (lower_bound b) k (lower_bound b) i.above between in
        absurd (cc (cmp_refl (lower_bound b)))

-- an item that comes later is proper, and above those before it
later :
    (i : ℕ) (items : List QueryItem) (item : QueryItem) (rest : List QueryItem)
    (P : QueryItem → Type 0)
    → drop i items ≡ item ∷ rest
    → All P items
    → P item
later zero [] item rest P e h = cc
later (suc i) [] item rest P e h = cc
later zero (x ∷ items) item rest P e h = let same : x ≡ item = cc in subst P same h.0
later (suc i) (x ∷ items) item rest P e h = later i items item rest P e h.1

-- On a query whose items are proper and in order, `search` is the only answer that `binary_search_by`
-- may give for a key.
pub search_unique :
    (items : List QueryItem) (k : Bytes) (found : Search)
    → IsQuery items
    → IsFound found items k
    → search items k ≡ found
unfolding search
search_unique [] k (Search.hit zero item) q f = cc
search_unique [] k (Search.hit (suc i) item) q f = cc
search_unique [] k (Search.miss zero) q f = refl
search_unique [] k (Search.miss (suc i)) q f = absurd (omega (arith, f.0))
search_unique (a ∷ items) k (Search.hit zero item) q ((rest, e), found) =
    let same : a ≡ item = cc in
    let here : search (item ∷ items) k ≡ Search.hit 0 item = rw (search, found) refl in
    subst (λ x. search (x ∷ items) k ≡ Search.hit 0 item) (sym same) here
search_unique (a ∷ items) k (Search.hit (suc i) item) q ((rest, e), found) =
    let proper = (subst IsQuery e (IsQuery-drop i items q.2)).0 in
    let below =
      lt_below a item k q.0 (later i items item rest (λ b. cmp_item a b ≡ Ordering.lt) e q.1)
        (eq-Inside item k proper found) in
    rw (search, below, search_unique items k (Search.hit i item) q.2 ((rest, e), found)) refl
search_unique (a ∷ items) k (Search.miss zero) q (b, before, after) = rw (search, after.0) refl
search_unique (a ∷ items) k (Search.miss (suc i)) q (b, before, after) =
    rw (search, before.0, search_unique items k (Search.miss i) q.2 (omega arith, before.1, after))
      refl
