-- ===== src/Proofs/Query/Output/Turns.antt =====
-- The loop over the items of a query ends by itself: a turn for each item and one more are enough.
use merk.Prelude.{
  ℕ, zero, suc, List, [], ◌∷◌, ◌≡◌, ◌≢◌, refl, ◌⊎◌, inl, inr, Bool, true, false, Option, none, some,
  Bool-cases, length, ◌<◌, arith,
}
use merk.Bytes.{Bytes, eq_bytes}
use merk.Outcome.{Result, panic, ok, err, ◌>>=◌, Error}
use merk.Proofs.{Node}
use merk.Proofs.Query.Create.Split.{IsQuery}
use merk.Proofs.Query.Item.{QueryItem, lower_bound, contains}
use merk.Proofs.Query.Output.{Reading, scan, visit_query, is_above, lower_proven, preceding}
use merk.Proofs.Query.Output.Asked.{is_above-past}

preceding_cases :
    (last : Option Node) → (preceding last ≡ ok tt) ⊎ (preceding last ≡ err Error.bound)
preceding_cases none = inl refl
preceding_cases (some (Node.kv k v)) = inl refl
preceding_cases (some (Node.hash h)) = inr refl
preceding_cases (some (Node.kv_hash h)) = inr refl

lower_proven_cases :
    (inside : Bool) (k : Bytes) (item : QueryItem) (last : Option Node)
    → (lower_proven inside k item last ≡ ok tt)
      ⊎ (lower_proven inside k item last ≡ err Error.bound)
lower_proven_cases true k item last = inl refl
lower_proven_cases false k item last = elim (Bool-cases (eq_bytes k (lower_bound item))) [
  | inl e ↦ inl (rw e refl)
  | inr e ↦ rw e (preceding_cases last)
]

scan_turns :
    (fuel : ℕ) (k v : Bytes) (items : List QueryItem) (inside : Bool) (s : Reading)
    → IsQuery items
    → length items < fuel
    → scan fuel k v items inside s ≢ panic
unfolding scan
scan_turns zero k v items inside s q b = absurd (omega arith)
scan_turns (suc fuel) k v [] inside s q b = λ e. cc
scan_turns (suc fuel) k v (item ∷ items) inside s q b = elim (Bool-cases (is_above item k)) [
  | inl above ↦ rw above (λ e. cc)
  | inr reached ↦ rw reached (elim (lower_proven_cases inside k item s.last_push) [
    | inl proven ↦ rw proven (elim (Bool-cases (contains item k)) [
      | inl found ↦ rw found (λ e. cc)
      | inr out ↦
          rw (out, is_above-past item k q.0 reached out)
            (scan_turns fuel k v items false s q.2 (omega arith))
    ])
    | inr refused ↦ rw refused (λ e. cc)
  ])
]

-- On a query in order the closure of `verify_query` returns or reports an error: the turns of its
-- loop do not run out.
pub visit_query-turns : (s : Reading) (n : Node) → IsQuery s.query → visit_query s n ≢ panic
unfolding visit_query
visit_query-turns s (Node.kv k v) q =
    answered (scan _ k v s.query s.in_range s)
      (scan_turns _ k v s.query s.in_range s q (omega arith))
  where
    answered :
        (r : Result Reading)
        → r ≢ panic
        → (r >>= λ s'. ok (record s' { last_push = some (Node.kv k v) })) ≢ panic
    answered (ok s') h = λ e. cc
    answered (err x) h = λ e. cc
    answered panic h = λ e. h refl
visit_query-turns s (Node.hash x) q = elim (Bool-cases s.in_range) [
  | inl e ↦ rw e (λ e'. cc)
  | inr e ↦ rw e (λ e'. cc)
]
visit_query-turns s (Node.kv_hash x) q = elim (Bool-cases s.in_range) [
  | inl e ↦ rw e (λ e'. cc)
  | inr e ↦ rw e (λ e'. cc)
]
