-- ===== src/Proofs/Query/Output.antt =====
-- `verify_query` of src/proofs/query/mod.rs: the deprecated check of a proof, which collects the
-- queried pairs while the proof is executed.
pub mod Asked
pub mod Step
pub mod Turns
pub mod Exact
use Prim.Native.Nat.{Ordering}
use merk.Prelude.{
  ℕ, zero, suc, Bool, true, false, List, [], ◌∷◌, ◌++◌, Option, none, some, length, if◌then◌else◌,
}
use merk.Bytes.{Bytes, eq_bytes, le_bytes}
use merk.Outcome.{Result, panic, ok, err, ◌>>=◌, Error}
use merk.Hash.{Hasher}
use merk.Model.{Entry}
use merk.Proofs.{Node}
use merk.Proofs.Encoding.{Ed, decode_all}
use merk.Proofs.Tree.{hash, execute}
use merk.Proofs.Query.Item.{QueryItem, lower_bound, upper_bound, contains, cmp_item}

-- what the closure changes: the pairs found, the node before, the items that are left, and whether
-- the first of them has been entered
pub record Reading : Type 0 where
  pub output : List Entry
  pub last_push : Option Node
  pub query : List QueryItem
  pub in_range : Bool

abbrev pub is_greater : Ordering → Bool
is_greater Ordering.lt = false
is_greater Ordering.eq = false
is_greater Ordering.gt = true

-- `PartialOrd<&[u8]> for QueryItem`, as the loop asks it
abbrev pub is_above : QueryItem → Bytes → Bool
is_above item k = is_greater (cmp_item item (QueryItem.key k))

abbrev pub preceding : Option Node → Result (Unit {0})
preceding none = ok tt
preceding (some (Node.kv k v)) = ok tt
preceding (some (Node.hash h)) = err Error.bound
preceding (some (Node.kv_hash h)) = err Error.bound

abbrev pub lower_proven : Bool → Bytes → QueryItem → Option Node → Result (Unit {0})
lower_proven true k item last = ok tt
lower_proven false k item last = if eq_bytes k (lower_bound item) then ok tt else preceding last

-- the `while` loop over the items; a turn leaves an item or is the last, so the items and one more
-- are enough turns
unfoldable pub scan : ℕ → Bytes → Bytes → List QueryItem → Bool → Reading → Result Reading
scan zero k v items inside s = panic
scan (suc fuel) k v [] inside s = ok (record s { query = []; in_range = inside })
scan (suc fuel) k v (item ∷ items) inside s =
    let past = le_bytes (upper_bound item).0 k in
    let left = if past then items else item ∷ items in
    let inside' = if past then false else true in
    let next = scan fuel k v left inside' s in
    if is_above item k
    then ok (record s { query = item ∷ items; in_range = inside })
    else lower_proven inside k item s.last_push >>= λ _.
        if contains item k
        then ok (record s { output = s.output ++ ((k, v) ∷ []); query = left; in_range = inside' })
        else next

unfoldable pub visit_query : Reading → Node → Result Reading
visit_query s (Node.kv k v) = do
  s' ← scan (suc (length s.query)) k v s.query s.in_range s
  ok (record s' { last_push = some (Node.kv k v) })
visit_query s (Node.hash h) =
    if s.in_range then err Error.missing_data else ok (record s { last_push = some (Node.hash h) })
visit_query s (Node.kv_hash h) =
    if s.in_range
    then err Error.missing_data
    else ok (record s { last_push = some (Node.kv_hash h) })

-- the items that are left are absent where the last node is shown
abbrev pub edge_proven : List QueryItem → Option Node → Result (Unit {0})
edge_proven [] last = ok tt
edge_proven (item ∷ items) none = err Error.missing_data
edge_proven (item ∷ items) (some (Node.kv k v)) = ok tt
edge_proven (item ∷ items) (some (Node.hash h)) = err Error.missing_data
edge_proven (item ∷ items) (some (Node.kv_hash h)) = err Error.missing_data

abbrev pub start : List QueryItem → Reading
start query = record { output = []; last_push = none; query = query; in_range = false }

module _ ⦃hasher : Hasher⦄ ⦃e : Ed⦄ where
  unfoldable pub verify_query : Bytes → List QueryItem → Bytes → Result (List Entry)
  verify_query bytes query expected_hash = do
    (root, s) ← execute true visit_query (decode_all bytes) (start query)
    edge ← edge_proven s.query s.last_push
    actual ← hash root
    if eq_bytes actual expected_hash then ok s.output else err Error.hash_mismatch
