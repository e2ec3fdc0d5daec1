-- ===== src/Btree/Laws.antt =====
-- Laws of the ordered map: ranges around a key that is not there, and an insertion at the end.
use Prim.Native.Nat.{Ordering}
use merk.Prelude.{
  ◌≡◌, refl, ap, Bool, true, false, List, [], ◌∷◌, ◌++◌, none, some, ◌&&◌, All, All-imp,
  All-append_parts, arith,
}
use merk.Bytes.{Bytes, cmp}
use merk.Bytes.Order.{◌≺◌, gt_of_lt, lt_of_gt, lt_trans}
use merk.Btree.{Bound, above_start, below_end, get, insert, last_key_value, within, IsSorted}

module _ {V : Type 0} where
  abbrev is_within : Bound → Bound → Bytes × V → Bool
  is_within lo hi e = above_start lo e.0 && below_end hi e.0

  pub within-append :
      (lo hi : Bound) (m m' : List (Bytes × V))
      → within lo hi (m ++ m') ≡ within lo hi m ++ within lo hi m'
  unfolding within
  within-append lo hi [] m' = refl
  within-append lo hi ((k, v) ∷ m) m' = ground (arith, within-append lo hi m m')

  pub within-keep :
      (lo hi : Bound) (m : List (Bytes × V))
      → All (λ e. is_within lo hi e ≡ true) m
      → within lo hi m ≡ m
  unfolding within
  within-keep lo hi [] h = refl
  within-keep lo hi ((k, v) ∷ m) h = rw (h.0, within-keep lo hi m h.1)

  pub within-drop :
      (lo hi : Bound) (m : List (Bytes × V))
      → All (λ e. is_within lo hi e ≡ false) m
      → within lo hi m ≡ []
  unfolding within
  within-drop lo hi [] h = refl
  within-drop lo hi ((k, v) ∷ m) h = rw h.0 (within-drop lo hi m h.1)

  pub last_key_value-append :
      (m : List (Bytes × V)) (e : Bytes × V) → last_key_value (m ++ (e ∷ [])) ≡ some e
  unfolding last_key_value
  last_key_value-append [] e = refl
  last_key_value-append (x ∷ []) e = refl
  last_key_value-append (x ∷ y ∷ m) e = last_key_value-append (y ∷ m) e

  -- The entries below and above a key that is not in the map.
  pub record Split (q : Bytes) (m : List (Bytes × V)) : Type 0 where
    pub below : List (Bytes × V)
    pub above : List (Bytes × V)
    pub whole : m ≡ below ++ above
    pub all_below : All (λ e. e.0 ≺ q) below
    pub all_above : All (λ e. q ≺ e.0) above

  pub Split-at : (q : Bytes) (m : List (Bytes × V)) → IsSorted m → get m q ≡ none → Split q m
  unfolding get
  Split-at q [] s h = record {
    below = [];
    above = [];
    whole = refl;
    all_below = tt;
    all_above = tt;
  }
  Split-at q ((k, v) ∷ m) s h = compared (cmp q k) refl (Split-at q m s.1)
    where
      compared : (o : Ordering) → cmp q k ≡ o → (get m q ≡ none → Split q m) → Split q ((k, v) ∷ m)
      compared Ordering.lt e rest = record {
        below = [];
        above = (k, v) ∷ m;
        whole = refl;
        all_below = tt;
        all_above = (e, All-imp (λ x hx. lt_trans q k x.0 e hx) m s.0);
      }
      compared Ordering.eq e rest = absurd (ground arith)
      compared Ordering.gt e rest =
          let r = rest (ground arith) in
          record {
            below = (k, v) ∷ r.below;
            above = r.above;
            whole = ap (λ l. (k, v) ∷ l) r.whole;
            all_below = (lt_of_gt q k e, r.all_below);
            all_above = r.all_above;
          }

  -- in a sorted map the last of a part is above the rest of it
  pub IsSorted-last :
      (m : List (Bytes × V)) (e : Bytes × V) (m' : List (Bytes × V))
      → IsSorted ((m ++ (e ∷ [])) ++ m')
      → All (λ x. x.0 ≺ e.0) m
  IsSorted-last [] e m' s = tt
  IsSorted-last ((k, v) ∷ m) e m' s =
      let (h, _) = All-append_parts (λ x. k ≺ x.0) (m ++ (e ∷ [])) m' s.0 in
      let (_, h') = All-append_parts (λ x. k ≺ x.0) m (e ∷ []) h in (h'.0, IsSorted-last m e m' s.1)

  pub IsSorted-right : (m m' : List (Bytes × V)) → IsSorted (m ++ m') → IsSorted m'
  IsSorted-right [] m' s = s
  IsSorted-right (e ∷ m) m' s = IsSorted-right m m' s.1

  -- A key above all others is inserted at the end.
  pub insert_last :
      (m : List (Bytes × V)) (q : Bytes) (w : V)
      → All (λ e. e.0 ≺ q) m
      → insert m q w ≡ m ++ ((q, w) ∷ [])
  unfolding insert
  insert_last [] q w h = refl
  insert_last ((k, v) ∷ m) q w h =
      rw (gt_of_lt k q h.0, insert) (ap (λ l. (k, v) ∷ l) (insert_last m q w h.1))
