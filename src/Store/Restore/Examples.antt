-- ===== src/Store/Restore/Examples.antt =====
-- A tree of 67 nodes that is committed to a database in memory and restored from a trunk and
-- the 32 leaf chunks below it.
use Prim.Native.Nat.{Ordering}
use mathlib.Core.Path.{subst}
use merk.Prelude.{
  ℕ, zero, suc, ◌+◌, ◌<◌, ◌≡◌, ◌≢◌, refl, sym, ap, ◌⊎◌, false, true, List, [], ◌∷◌, ◌++◌, some,
  length, All, arith,
}
use merk.Bytes.{cmp}
use merk.Btree.{get as btree_get}
use merk.Hash.{Broken}
use merk.Model
use merk.Model.{Model, Entry, AllAbove, entries, IsSorted, kv_digest}
use merk.Outcome.{ok, ◌>>=◌}
use merk.Proofs.Query.Verify.Accepts.{IsShort}
use merk.Store.{Merk, commit_merk}
use merk.Proofs.Encoding.{encode_into}
use merk.Store.Chunks.{chunks, drain, EdVec}
use merk.Store.Durable.{commit_merk-Holds}
use merk.Store.Disk.{BackedLink, reads_of}
use merk.Store.Holds.{Holds, Pending}
use merk.Store.Memory.{Memory, empty, toy_db, toy_db-IsLawful}
use merk.Store.Prove.{IsShort-FitsAll}
use merk.Store.Restore.{restore, restore_all}
use merk.Store.Restore.High.{restore-all_chunks}
use merk.Store.Restore.Low.{Blank}
use merk.Store.Restore.Shape.{Deep}
use merk.Samples.{toy_hasher, toy_ed, toy_option}
use merk.Tree.{Tree, MaybeLink, Link}
use merk.Tree.Reps.{RepsLink, heights_of}

instance unfoldable toy_vec : EdVec
toy_vec = record { encode_vec = encode_into; encode_vec-encode_into = λ ops. refl }

-- `n` full layers, with `e` more nodes below the first
abbrev size : ℕ → ℕ → ℕ
size zero e = e
size (suc n) e = size n e + suc (size n 0)

abbrev comb : ℕ → ℕ → ℕ → Model
comb zero zero b = Model.leaf
comb zero (suc e) b = Model.bin ((b + e) ∷ []) (7 ∷ []) (comb zero e b) Model.leaf
comb (suc n) e b =
    Model.bin ((b + size n e) ∷ []) (7 ∷ []) (comb n e b) (comb n 0 (suc (b + size n e)))

-- its entries: keys of one byte, in a row
abbrev rows_from : ℕ → ℕ → List Entry
rows_from zero b = []
rows_from (suc n) b = (b ∷ [], 7 ∷ []) ∷ rows_from n (suc b)

rows_from-append :
    (n n' c b : ℕ) → n + n' ≡ c → rows_from n b ++ rows_from n' (b + n) ≡ rows_from c b
rows_from-append zero n' c b e =
    let same : n' ≡ c = omega arith in let first : b + 0 ≡ b = omega arith in rw (first, same) refl
rows_from-append (suc n) n' zero b e = absurd (omega arith)
rows_from-append (suc n) n' (suc c) b e =
    let next : b + suc n ≡ suc b + n = omega arith in
    rw next (ap (λ es. (b ∷ [], 7 ∷ []) ∷ es) (rows_from-append n n' c (suc b) (omega arith)))

entries-comb : (n e b : ℕ) → entries (comb n e b) ≡ rows_from (size n e) b
entries-comb zero zero b = refl
entries-comb zero (suc e) b =
    rw (entries-comb zero e b) (rows_from-append e 1 (suc e) b (omega arith))
entries-comb (suc n) e b =
    rw (entries-comb n e b, entries-comb n 0 (suc (b + size n e)))
      (rows_from-append (size n e) (suc (size n 0)) (size (suc n) e) b (omega arith))

below : (a b : ℕ) → a < b → cmp (a ∷ []) (b ∷ []) ≡ Ordering.lt
unfolding cmp
below a b h = ground arith

rows_from-AllAbove : (a n b : ℕ) → a < b → AllAbove (a ∷ []) (rows_from n b)
rows_from-AllAbove a zero b h = tt
rows_from-AllAbove a (suc n) b h = (below a b h, rows_from-AllAbove a n (suc b) (omega arith))

rows_from-IsSorted : (n b : ℕ) → IsSorted (rows_from n b)
rows_from-IsSorted zero b = tt
rows_from-IsSorted (suc n) b =
    (rows_from-AllAbove b n (suc b) (omega arith), rows_from-IsSorted n (suc b))

rows_from-IsShort : (n b : ℕ) → IsShort (rows_from n b)
rows_from-IsShort zero b = tt
rows_from-IsShort (suc n) b = ((omega arith, omega arith), rows_from-IsShort n (suc b))

comb-Deep : (n e b : ℕ) → Deep n (comb (suc n) e b)
comb-Deep zero e b = tt
comb-Deep (suc n) e b = (comb-Deep n e b, comb-Deep n 0 _)

-- the tree before it is committed
abbrev link_of : Model → MaybeLink
link_of Model.leaf = MaybeLink.unlinked
link_of (Model.bin k v l r) = MaybeLink.linked (
    Link.modified 0 (heights_of (Model.bin k v l r))
      (Tree.tree (record { key = k; value = v; hash = kv_digest k v }) (link_of l) (link_of r)))

link_of-Reps : (m : Model) → RepsLink true (link_of m) m
link_of-Reps Model.leaf = refl
link_of-Reps (Model.bin k v l r) = (refl, refl, (refl, refl, refl, link_of-Reps l, link_of-Reps r))

link_of-Backed : (m : Model) → BackedLink (reads_of toy_db empty) (link_of m) m
link_of-Backed Model.leaf = tt
link_of-Backed (Model.bin k v l r) = (link_of-Backed l, link_of-Backed r)

undeleted : (es : List Entry) → All (λ e. All (λ d. d ≢ e.0) []) es
undeleted [] = tt
undeleted (e ∷ es) = (tt, undeleted es)

abbrev large : Model
large = comb 6 4 0

abbrev pending : Merk Memory
pending = record {
  tree = some (
      Tree.tree (record { key = 35 ∷ []; value = 7 ∷ []; hash = kv_digest (35 ∷ []) (7 ∷ []) })
        (link_of (comb 5 4 0)) (link_of (comb 5 0 36)));
  state = empty;
}

large-IsSorted : IsSorted (entries large)
large-IsSorted = subst IsSorted (sym (entries-comb 6 4 0)) (rows_from-IsSorted (size 6 4) 0)

large-IsShort : IsShort (entries large)
large-IsShort = subst IsShort (sym (entries-comb 6 4 0)) (rows_from-IsShort (size 6 4) 0)

pending-Pending : Pending toy_db [] pending large
unfolding toy_db btree_get
pending-Pending = record {
  tree = (refl, refl, refl, link_of-Reps (comb 5 4 0), link_of-Reps (comb 5 0 36));
  backed = (link_of-Backed (comb 5 4 0), link_of-Backed (comb 5 0 36));
  gone = undeleted (entries large);
  only = λ k free gone. refl;
}

held : (merk : Merk Memory) × (commit_merk toy_db [] [] pending ≡ ok merk) × Holds toy_db merk large
held =
    commit_merk-Holds toy_db toy_db-IsLawful [] [] pending large large-IsSorted
      (IsShort-FitsAll large large-IsShort) pending-Pending

empty-Blank : Blank toy_db empty
unfolding toy_db btree_get
empty-Blank = record { main = λ k. refl; pointer = refl }

restore-all_chunks_example :
    Broken
    ⊎ ((restored : Merk Memory) × ((chunks toy_db 10 held.0 >>= λ (merk', p). drain 34 p >>= λ all.
            restore toy_db false empty (Model.root_hash large) (length all) >>= λ r.
            restore_all toy_db r all)
          ≡ ok restored)
        × Holds toy_db restored large)
restore-all_chunks_example =
    restore-all_chunks toy_db toy_db-IsLawful 10 34 held.0 large empty (λ e. cc) (comb-Deep 5 4 0)
      (omega arith) (omega arith) (omega arith) large-IsSorted large-IsShort held.2 empty-Blank
