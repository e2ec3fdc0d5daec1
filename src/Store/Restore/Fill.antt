-- ===== src/Store/Restore/Fill.antt =====
-- The leaf chunks of a trunk, in order: each pair goes below a node at the bottom of the trunk.
use merk.Prelude.{
  ℕ, zero, suc, ◌%◌, ◌==◌, ◌<◌, ◌^◌, ◌≡◌, ◌≢◌, refl, sym, ap, ◌∙◌, true, false, List, [], ◌∷◌, ◌++◌,
  map, length, length-append, append_assoc, All, All-append_parts, All-imp, arith,
}
use merk.Bytes.{Bytes}
use merk.Bytes.Order.{lt_trans}
use merk.Hash.{Hasher}
use merk.Model
use merk.Model.{Model, Entry, AllAbove, entries, IsSorted, root_hash}
use merk.Model.Find.{IsSorted-left, IsSorted-right}
use merk.Proofs.Chunk.Program.{AllAbove-All, left_below}
use merk.Proofs.Encoding.{Ed}
use merk.Proofs.Query.Verify.Accepts.{IsShort}
use merk.Store.{root_key_key}
use merk.Store.Chunks.Windows.{windows, leaf_bytes}
use merk.Store.Disk.{OnDisk-same, IsFree, lt_other, reads_of}
use merk.Store.Restore.{Restorer, restore_all}
use merk.Store.Restore.Grown.{Grown, Grown-same}
use merk.Store.Restore.Layers.{length-windows_at}
use merk.Store.Restore.Leaf.{filling, leaf-Leafed}
use merk.Store.Restore.Shape.{Deep, keys_at}
use merk.Store.Rocks.{Column, Db, IsLawful}
use merk.Tree.Encoding.{EdOption}

-- the keys of a node and of its subtrees are apart
pub record Apart (k : Bytes) (l r : Model) : Type 0 where
  pub left : IsFree k (entries l)
  pub right : IsFree k (entries r)
  pub left_right : All (λ e. (k ≢ e.0) × IsFree e.0 (entries r)) (entries l)
  pub right_left : All (λ e. IsFree e.0 (entries l)) (entries r)

pub sorted-Apart :
    (k v : Bytes) (l r : Model) → IsSorted (entries (Model.bin k v l r)) → Apart k l r
sorted-Apart k v l r s =
    let below = left_below (entries l) (k, v) (entries r) s in
    let above = AllAbove-All k (entries r) (IsSorted-right (entries l) ((k, v) ∷ entries r) s).0 in
    record {
      left = All-imp (λ e h. lt_other e.0 k h) (entries l) below;
      right = All-imp (λ e h same. lt_other k e.0 h (sym same)) (entries r) above;
      left_right =
          All-imp
            (λ e h. (
              λ same. lt_other e.0 k h (sym same),
              All-imp (λ e' h' same. lt_other e.0 e'.0 (lt_trans e.0 k e'.0 h h') (sym same))
                  (entries r) above,
            ))
            (entries l) below;
      right_left =
          All-imp
            (λ e h.
              All-imp (λ e' h'. lt_other e'.0 e.0 (lt_trans e'.0 k e.0 h' h)) (entries l) below)
            (entries r) above;
    }

map-append : {A B : Type 0} (f : A → B) (xs ys : List A) → map f (xs ++ ys) ≡ map f xs ++ map f ys
map-append f [] ys = refl
map-append f (x ∷ xs) ys = ap (λ l. f x ∷ l) (map-append f xs ys)

map-append_rest :
    {A B : Type 0} (f : A → B) (xs ys : List A) (rest : List B)
    → map f (xs ++ ys) ++ rest ≡ map f xs ++ (map f ys ++ rest)
map-append_rest f xs ys rest =
    ap (λ l. l ++ rest) (map-append f xs ys) ∙ append_assoc (map f xs) (map f ys) rest

pub length-map : {A B : Type 0} (f : A → B) (xs : List A) → length (map f xs) ≡ length xs
length-map f [] = refl
length-map f (x ∷ xs) = let n = length-map f xs in omega arith

module _ {S : Type 0} (db : Db S) ⦃hasher : Hasher⦄ ⦃o : EdOption⦄ ⦃codec : Ed⦄ where
  -- What the leaf chunks of a subtree change, whose roots are at a depth.
  pub record Filled (r : Restorer S) (n : ℕ) (m : Model) (hashes keys : List Bytes) (s : S)
      (more : List Bytes) : Type 0 where
    pub s' : S
    pub runs :
        restore_all db
          (filling db r (map root_hash (windows (suc n) m) ++ hashes) (keys_at n m ++ keys) s)
          (map leaf_bytes (windows (suc n) m) ++ more)
        ≡ restore_all db (filling db r hashes keys s') more
    pub grown : Grown true (reads_of db s') (suc n) m
    pub others :
        (q : Bytes) → IsFree q (entries m) → db.get Column.main q s' ≡ db.get Column.main q s
    pub pointer : db.get Column.internal root_key_key s' ≡ db.get Column.internal root_key_key s

  module _ (lawful : IsLawful db) (r : Restorer S) where
    -- two leaves and their parent
    pair-Filled :
        (k v : Bytes) (ml mr : Model) (hashes keys : List Bytes) (s : S) (more : List Bytes)
        → length hashes % 2 ≡ 0
        → Deep 1 (Model.bin k v ml mr)
        → IsSorted (entries (Model.bin k v ml mr))
        → IsShort (entries (Model.bin k v ml mr))
        → Model.height (Model.bin k v ml mr) < 2 ^ 8
        → Grown false (reads_of db s) 1 (Model.bin k v ml mr)
        → Filled r 0 (Model.bin k v ml mr) hashes keys s more
    pair-Filled k v Model.leaf mr hashes keys s more parity d so short b g = elim (d.0) [ ]
    pair-Filled k v (Model.bin k₁ v₁ a₁ b₁) Model.leaf hashes keys s more parity d so short b g =
        elim (d.1) [ ]
    pair-Filled k v (Model.bin k₁ v₁ a₁ b₁) (Model.bin k₂ v₂ a₂ b₂) hashes keys s more parity d so
          short b ((x, y, row, _, _), _, _) =
        let ml = Model.bin k₁ v₁ a₁ b₁ in
        let mr = Model.bin k₂ v₂ a₂ b₂ in
        let p = sorted-Apart k v ml mr so in
        let sl = IsSorted-left (entries ml) ((k, v) ∷ entries mr) so in
        let sr = (IsSorted-right (entries ml) ((k, v) ∷ entries mr) so).1 in
        let (hl, hn) = All-append_parts _ (entries ml) ((k, v) ∷ entries mr) short in
        let even : (length (k₁ ∷ root_hash mr ∷ hashes) % 2 == 0) ≡ true = ground arith in
        let odd : (length (k₂ ∷ hashes) % 2 == 0) ≡ false = ground arith in
        let first =
          leaf-Leafed db lawful r (root_hash mr ∷ hashes) keys s true k v ml mr x y k₁ v₁ a₁ b₁
            (leaf_bytes mr ∷ more) even sl hl (omega arith) p.left row in
        let second =
          leaf-Leafed db lawful r hashes keys first.s' false k v ml mr (x.0, k₁) y k₂ v₂ a₂ b₂ more
            odd sr hn.1 (omega arith) p.right first.row in
        record {
          s' = second.s';
          runs = first.runs ∙ second.runs;
          grown = (
            ((x.0, k₁), (y.0, k₂), second.row, refl, refl),
            OnDisk-same (reads_of db first.s') (reads_of db second.s') ml
                (All-imp (λ e h. second.others e.0 h.0 h.1) (entries ml) p.left_right) first.disk,
            second.disk,
          );
          others = λ q free.
              let (fl, fn) = All-append_parts _ (entries ml) ((k, v) ∷ entries mr) free in
              second.others q fn.0 fn.1 ∙ first.others q fn.0 fl;
          pointer = second.pointer ∙ first.pointer;
        }

    -- All the leaf chunks of a subtree, which is in the trunk and has its leaves at a depth.
    pub fill :
        (n : ℕ) (m : Model) (hashes keys : List Bytes) (s : S) (more : List Bytes)
        → length hashes % 2 ≡ 0
        → Deep (suc n) m
        → IsSorted (entries m)
        → IsShort (entries m)
        → Model.height m < 2 ^ 8
        → Grown false (reads_of db s) (suc n) m
        → Filled r n m hashes keys s more
    fill n Model.leaf hashes keys s more parity d so short b g = elim d [ ]
    fill zero (Model.bin k v ml mr) hashes keys s more parity d so short b g =
        pair-Filled k v ml mr hashes keys s more parity d so short b g
    fill (suc n) (Model.bin k v ml mr) hashes keys s more parity d so short b
          ((x, y, (encoded, e, encodes, back, bx, by'), kx, ky), gl, gr) =
        let p = sorted-Apart k v ml mr so in
        let sl = IsSorted-left (entries ml) ((k, v) ∷ entries mr) so in
        let sr = (IsSorted-right (entries ml) ((k, v) ∷ entries mr) so).1 in
        let (hl, hn) = All-append_parts _ (entries ml) ((k, v) ∷ entries mr) short in
        let right = map root_hash (windows (suc n) mr) in
        let size = length-append right hashes in
        let size' = length-map root_hash (windows (suc n) mr) in
        let count = length-windows_at (suc n) mr d.1 in
        let even : length (right ++ hashes) % 2 ≡ 0 = omega arith in
        let first =
          fill n ml (right ++ hashes) (keys_at n mr ++ keys) s
            (map leaf_bytes (windows (suc n) mr) ++ more) even d.0 sl hl (omega arith) gl in
        let kept =
          Grown-same false (reads_of db s) (reads_of db first.s') (suc n) mr
            (All-imp (λ e h. first.others e.0 h) (entries mr) p.right_left) gr in
        let second = fill n mr hashes keys first.s' more parity d.1 sr hn.1 (omega arith) kept in
        record {
          s' = second.s';
          runs =
              rw
                (
                  map-append_rest root_hash (windows (suc n) ml) (windows (suc n) mr) hashes,
                  append_assoc (keys_at n ml) (keys_at n mr) keys,
                  map-append_rest leaf_bytes (windows (suc n) ml) (windows (suc n) mr) more,
                )
                (first.runs ∙ second.runs);
          grown = (
            (
              x,
              y,
              (
                encoded,
                second.others k p.right ∙ first.others k p.left ∙ e,
                encodes,
                back,
                bx,
                by',
              ),
              kx,
              ky,
            ),
            Grown-same true (reads_of db first.s') (reads_of db second.s') (suc n) ml
                (All-imp (λ e h. second.others e.0 h.1) (entries ml) p.left_right) first.grown,
            second.grown,
          );
          others = λ q free.
              let (fl, fn) = All-append_parts _ (entries ml) ((k, v) ∷ entries mr) free in
              second.others q fn.1 ∙ first.others q fl;
          pointer = second.pointer ∙ first.pointer;
        }
