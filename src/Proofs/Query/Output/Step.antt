-- ===== src/Proofs/Query/Output/Step.antt =====
-- One key against the items of a query: what is put out and what is left to ask for.
use mathlib.Core.Path.{subst}
use merk.Prelude.{
  ℕ, zero, suc, List, [], ◌∷◌, ◌++◌, ◌≡◌, refl, sym, ap, ◌∙◌, Bool, true, false, Option, none, some,
  All, All-imp, if◌then◌else◌, Bool-cases, inl, inr, append_assoc, ◌||◌, All-append,
}
use merk.Bytes.{Bytes, le_bytes, eq_bytes}
use merk.Bytes.Order.{◌≺◌, lt_trans, eq_of_eq_bytes}
use merk.Outcome.{ok, Ensures, Ensures-bind, Ensures-imp}
use merk.Model.{Entry, AllAbove}
use merk.Proofs.{Node}
use merk.Proofs.Query.Create.Split.{IsQuery}
use merk.Proofs.Query.Insert.Covers.{covers}
use merk.Proofs.Query.Item.{QueryItem, lower_bound, upper_bound, contains}
use merk.Proofs.Query.Output.{Reading, scan, is_above, lower_proven, preceding}
use merk.Proofs.Query.Output.Asked.{
  asked, Clear, asked-Clear, asked_nothing, asked_rest, covers-before, behind_item, is_above-lower,
  is_above-past,
}

-- nothing is hidden behind the last node
abbrev pub Knows : Option Node → Type 0
Knows none = Unit
Knows (some (Node.kv k v)) = Unit
Knows (some (Node.hash h)) = ⊥
Knows (some (Node.kv_hash h)) = ⊥

preceding-Knows : (last : Option Node) → preceding last ≡ ok tt → Knows last
preceding-Knows none e = tt
preceding-Knows (some (Node.kv k v)) e = tt
preceding-Knows (some (Node.hash h)) e = cc
preceding-Knows (some (Node.kv_hash h)) e = cc

-- a gap of hidden entries before a key, as far as the state knows
pub record Gap (gap : List Entry) (inside : Bool) (last : Option Node) : Type 0 where
  pub entered : inside ≡ true → gap ≡ []
  pub known : Knows last → gap ≡ []

All-before :
    (item : QueryItem) (items : List QueryItem) (gap : List Entry) (k : Bytes)
    → IsQuery (item ∷ items)
    → All (λ e. e.0 ≺ k) gap
    → k ≡ lower_bound item
    → Clear (item ∷ items) gap
All-before item items gap k q b e =
    All-imp (λ x l. covers-before item items x.0 q (subst (λ j. x.0 ≺ j) e l)) gap b

-- Where the lower bound is proven, no hidden entry is asked for.
lower_proven-Clear :
    (inside : Bool) (k : Bytes) (item : QueryItem) (items : List QueryItem) (last : Option Node)
    (gap : List Entry)
    → IsQuery (item ∷ items)
    → All (λ e. e.0 ≺ k) gap
    → Gap gap inside last
    → lower_proven inside k item last ≡ ok tt
    → Clear (item ∷ items) gap
lower_proven-Clear true k item items last gap q b g e = rw (g.entered refl) tt
lower_proven-Clear false k item items last gap q b g e =
    elim (Bool-cases (eq_bytes k (lower_bound item))) [
      | inl same ↦ All-before item items gap k q b (eq_of_eq_bytes k (lower_bound item) same)
      | inr other ↦
          let e' : preceding last ≡ ok tt = rw other at e in
          rw (g.known (preceding-Knows last e')) tt
    ]

-- The pairs put out and those that the items left ask for are those asked for before.
pub record Asks (gap : List Entry) (kv : Entry) (es : List Entry) (items : List QueryItem)
    (s s' : Reading) : Type 0 where
  pub query : IsQuery s'.query
  pub same : s.output ++ asked items (gap ++ (kv ∷ es)) ≡ s'.output ++ asked s'.query es

All-behind :
    (item : QueryItem) (k : Bytes) (es : List Entry)
    → le_bytes (upper_bound item).0 k ≡ true
    → AllAbove k es
    → All (λ e. contains item e.0 ≡ false) es
All-behind item k [] p a = tt
All-behind item k ((j, v) ∷ es) p a = (behind_item item k j p a.0, All-behind item k es p a.1)

if-IsQuery :
    (b : Bool) (item : QueryItem) (items : List QueryItem)
    → IsQuery (item ∷ items)
    → IsQuery (if b then items else item ∷ items)
if-IsQuery true item items q = q.2
if-IsQuery false item items q = q

-- what is left of the items asks for the same of the entries behind
left-asked :
    (item : QueryItem) (items : List QueryItem) (k : Bytes) (es : List Entry) (past : Bool)
    → le_bytes (upper_bound item).0 k ≡ past
    → AllAbove k es
    → asked (item ∷ items) es ≡ asked (if past then items else item ∷ items) es
left-asked item items k es true e a = asked_rest item items es (All-behind item k es e a)
left-asked item items k es false e a = refl

-- the item contains what `covers` would find in it
covers-contains :
    (item : QueryItem) (items : List QueryItem) (es : List Entry)
    → Clear (item ∷ items) es
    → All (λ e. contains item e.0 ≡ false) es
covers-contains item items es c =
    All-imp (λ e h. first (contains item e.0) (covers e.0 items) h) es c
  where
    first : (a b : Bool) → (a || b) ≡ false → a ≡ false
    first true b h = h
    first false b h = refl

pub scan-Asks :
    (fuel : ℕ) (k v : Bytes) (items : List QueryItem) (inside : Bool) (s : Reading)
    (gap es : List Entry)
    → IsQuery items
    → All (λ e. e.0 ≺ k) gap
    → AllAbove k es
    → Gap gap inside s.last_push
    → Ensures (Asks gap (k, v) es items s) (scan fuel k v items inside s)
unfolding scan
scan-Asks zero k v items inside s gap es q b a g = tt
scan-Asks (suc fuel) k v [] inside s gap es q b a g = record {
  query = tt;
  same = rw (asked_nothing (gap ++ ((k, v) ∷ es)), asked_nothing es) refl;
}
scan-Asks (suc fuel) k v (item ∷ items) inside s gap es q b a g =
    let past = le_bytes (upper_bound item).0 k in
    elim (Bool-cases (is_above item k)) [
      | inl above ↦
          let low = is_above-lower item k q.0 above in
          let hidden =
            All-imp
              (λ x l. covers-before item items x.0 q (lt_trans x.0 k (lower_bound item) l low)) gap
              b in
          rw above (record {
            query = q;
            same =
                ap (λ r. s.output ++ r)
                  (asked-Clear (item ∷ items) gap ((k, v) ∷ es) hidden
                    ∙ asked-Clear (item ∷ items) ((k, v) ∷ []) es
                        (covers-before item items k q low, tt));
          })
      | inr reached ↦ rw reached (
          Ensures-bind _ (lower_proven inside k item s.last_push) _ λ _ e.
            let hidden = lower_proven-Clear inside k item items s.last_push gap q b g e in
            elim (Bool-cases (contains item k)) [
              | inl found ↦ rw found (record {
                query = if-IsQuery past item items q;
                same =
                    ap (λ r. s.output ++ r)
                      (asked-Clear (item ∷ items) gap ((k, v) ∷ es) hidden
                        ∙ (rw found
                            (ap (λ r. (k, v) ∷ r) (left-asked item items k es past refl a))))
                    ∙ sym (append_assoc s.output ((k, v) ∷ []) _);
              })
              | inr out ↦
                  let ended = is_above-past item k q.0 reached out in
                  let none_in =
                    All-append _ gap ((k, v) ∷ es) (covers-contains item items gap hidden)
                      (out, All-behind item k es ended a) in
                  let rest =
                    scan-Asks fuel k v items false s gap es q.2 b a
                      (record { entered = λ e. cc; known = g.known }) in
                  rw (out, ended)
                    (Ensures-imp _ _ (scan fuel k v items false s)
                      (λ s' h. record {
                        query = h.query;
                        same =
                            ap (λ r. s.output ++ r)
                              (asked_rest item items (gap ++ ((k, v) ∷ es)) none_in)
                            ∙ h.same;
                      })
                      rest)
            ])
    ]
