-- ===== src/Proofs/Query/Create/Answers.antt =====
-- The nodes of a proof that answer a key: the key is shown, or the gap that it falls in is.
use mathlib.Core.Path.{subst}
use merk.Prelude.{
  ◌≡◌, refl, sym, ap, ◌∙◌, Bool, true, false, ◌||◌, List, [], ◌∷◌, ◌++◌, append_assoc, All, arith,
  none,
}
use merk.Bytes.{Bytes}
use merk.Bytes.Order.{◌≺◌, lt_trans, lt_bytes-true, lt_bytes-false, eq_bytes_refl}
use merk.Btree
use merk.Btree.{get as btree_get}
use merk.Proofs.{Node}
use merk.Proofs.Query.Map.{Shown}
use merk.Proofs.Query.Map.Absence.{gap_flag}
use merk.Proofs.Query.Verify.Built.{built, last_flag}

-- `at_left` and `at_right` are the flags that a key beyond the edge was asked for.
pub data Answers (k : Bytes) (at_left at_right : Bool) (ns : List Node) : Type 0 where
  shown :
      (xs ys : List Node) (v : Bytes)
      → ns ≡ xs ++ (Node.kv k v ∷ ys)
      → Answers k at_left at_right ns
  between :
      (xs ys : List Node) (a v b w : Bytes)
      → ns ≡ xs ++ (Node.kv a v ∷ Node.kv b w ∷ ys)
      → a ≺ k
      → k ≺ b
      → Answers k at_left at_right ns
  before :
      (ys : List Node) (b w : Bytes)
      → ns ≡ Node.kv b w ∷ ys
      → k ≺ b
      → at_left ≡ true
      → Answers k at_left at_right ns
  behind :
      (xs : List Node) (a v : Bytes)
      → ns ≡ xs ++ (Node.kv a v ∷ [])
      → a ≺ k
      → at_right ≡ true
      → Answers k at_left at_right ns
  nothing : ns ≡ [] → at_left ≡ true → at_right ≡ true → Answers k at_left at_right ns

pub or_left : (a b : Bool) → a ≡ true → (a || b) ≡ true
or_left true b e = refl
or_left false b e = cc

pub or_right : (a b : Bool) → b ≡ true → (a || b) ≡ true
or_right true b e = refl
or_right false b e = e

module _ (k x v : Bytes) (l0 l1 r0 r1 : Bool) (ls rs : List Node) (n : Node)
    (kept : (l1 || r0) ≡ true → n ≡ Node.kv x v) where
  -- A key below the node is answered by the nodes of the left child, with the node if need be.
  pub Answers-left : k ≺ x → Answers k l0 l1 ls → Answers k l0 r1 (ls ++ (n ∷ rs))
  Answers-left below (Answers.shown xs ys w e) =
      Answers.shown xs (ys ++ (n ∷ rs)) w (rw e (append_assoc xs (Node.kv k w ∷ ys) (n ∷ rs)))
  Answers-left below (Answers.between xs ys a u b w e p q) =
      Answers.between xs (ys ++ (n ∷ rs)) a u b w
        (rw e (append_assoc xs (Node.kv a u ∷ Node.kv b w ∷ ys) (n ∷ rs))) p q
  Answers-left below (Answers.before ys b w e p f) =
      Answers.before (ys ++ (n ∷ rs)) b w (rw e refl) p f
  Answers-left below (Answers.behind xs a u e p f) =
      Answers.between xs rs a u x v
        (rw (e, kept (or_left l1 r0 f)) (append_assoc xs (Node.kv a u ∷ []) (Node.kv x v ∷ rs))) p
        below
  Answers-left below (Answers.nothing e f g) =
      Answers.before rs x v (rw (e, kept (or_left l1 r0 g)) refl) below f

  -- A key above the node is answered by the nodes of the right child, with the node if need be.
  pub Answers-right : x ≺ k → Answers k r0 r1 rs → Answers k l0 r1 (ls ++ (n ∷ rs))
  Answers-right above (Answers.shown xs ys w e) =
      Answers.shown (ls ++ (n ∷ xs)) ys w (rw e (sym (append_assoc ls (n ∷ xs) (Node.kv k w ∷ ys))))
  Answers-right above (Answers.between xs ys a u b w e p q) =
      Answers.between (ls ++ (n ∷ xs)) ys a u b w
        (rw e (sym (append_assoc ls (n ∷ xs) (Node.kv a u ∷ Node.kv b w ∷ ys)))) p q
  Answers-right above (Answers.before ys b w e p f) =
      Answers.between ls ys x v b w (rw (e, kept (or_right l1 r0 f)) refl) above p
  Answers-right above (Answers.behind xs a u e p f) =
      Answers.behind (ls ++ (n ∷ xs)) a u (rw e (sym (append_assoc ls (n ∷ xs) (Node.kv a u ∷ []))))
        p f
  Answers-right above (Answers.nothing e f g) =
      Answers.behind ls x v (rw (e, kept (or_right l1 r0 f)) refl) above g

-- what is built of two runs of nodes
built-append :
    (c : Bool) (xs ys : List Node)
    → (built c (xs ++ ys) ≡ built c xs ++ built (last_flag c xs) ys)
      × (last_flag c (xs ++ ys) ≡ last_flag (last_flag c xs) ys)
built-append c [] ys = (refl, refl)
built-append c (Node.hash h ∷ xs) ys = built-append false xs ys
built-append c (Node.kv_hash h ∷ xs) ys = built-append false xs ys
built-append c (Node.kv k v ∷ xs) ys =
    let (e, f) = built-append true xs ys in (ap (λ l. (k, (c, v)) ∷ l) e, f)

-- A gap behind an entry below the key: the flag is that of what follows.
gap_flag-skip :
    (q : Bytes) (m : List Shown) (a : Bytes) (c : Bool) (v : Bytes) (m' : List Shown) (edge : Bool)
    → Btree.IsSorted (m ++ ((a, (c, v)) ∷ m'))
    → a ≺ q
    → gap_flag q (m ++ ((a, (c, v)) ∷ m')) edge ≡ gap_flag q m' edge
unfolding gap_flag
gap_flag-skip q [] a c v m' edge s l = rw (lt_bytes-false a q l) refl
gap_flag-skip q ((j, (d, w)) ∷ m) a c v m' edge s l =
    rw (lt_bytes-false j q (lt_trans j a q (member m s.0) l))
      (gap_flag-skip q m a c v m' edge s.1 l)
  where
    member : (m : List Shown) → All (λ e. j ≺ e.0) (m ++ ((a, (c, v)) ∷ m')) → j ≺ a
    member [] h = h.0
    member (e ∷ m) h = member m h.1

get-shown :
    (m : List Shown) (k : Bytes) (x : Bool × Bytes) (m' : List Shown)
    → btree_get (m ++ ((k, x) ∷ m')) k ≡ none
    → ⊥
unfolding btree_get
get-shown [] k x m' e = let same = eq_bytes_refl k in ground arith
get-shown ((j, y) ∷ m) k x m' e = ground (arith, get-shown m k x m')

-- A key that the nodes answer and the map of the nodes does not hold falls in a gap that is known
-- to be empty.
pub Answers-gap_flag :
    (k : Bytes) (l r : Bool) (ns : List Node)
    → Btree.IsSorted (built true ns)
    → Answers k l r ns
    → btree_get (built true ns) k ≡ none
    → gap_flag k (built true ns) (last_flag true ns) ≡ true
unfolding gap_flag
Answers-gap_flag k l r ns s (Answers.shown xs ys v e) g =
    let whole = ap (built true) e ∙ (built-append true xs (Node.kv k v ∷ ys)).0 in
    absurd (get-shown (built true xs) k (last_flag true xs, v) (built true ys) (rw whole at g))
Answers-gap_flag k l r ns s (Answers.between xs ys a v b w e p q) g =
    let (parts, edge) = built-append true xs (Node.kv a v ∷ Node.kv b w ∷ ys) in
    let whole = ap (built true) e ∙ parts in
    let last = ap (last_flag true) e ∙ edge in
    rw (whole, last)
      (gap_flag-skip k (built true xs) a (last_flag true xs) v ((b, (true, w)) ∷ built true ys) _
          (subst Btree.IsSorted whole s) p
        ∙ (rw (lt_bytes-true k b q) refl))
Answers-gap_flag k l r ns s (Answers.before ys b w e p f) g = rw (e, lt_bytes-true k b p) refl
Answers-gap_flag k l r ns s (Answers.behind xs a v e p f) g =
    let (parts, edge) = built-append true xs (Node.kv a v ∷ []) in
    let whole = ap (built true) e ∙ parts in
    let last = ap (last_flag true) e ∙ edge in
    rw (whole, last)
      (gap_flag-skip k (built true xs) a (last_flag true xs) v [] true
        (subst Btree.IsSorted whole s) p)
Answers-gap_flag k l r ns s (Answers.nothing e f h) g = rw e refl
