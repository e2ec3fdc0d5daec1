-- ===== src/Tree/Ops/Undone.antt =====
-- A node whose higher child is higher inside, where the grandchild's side next to the root is the
-- lower one: the rotation of the child undoes itself.
use merk.Prelude.{ℕ, suc, ◌<◌, ◌≤◌, ◌≡◌, ◌∙◌, true, false, arith}
use merk.Bytes.{Bytes}
use merk.Hash.{Hasher}
use merk.Model
use merk.Model.{Model, entries}
use merk.Tree.Load.{Fetch}
use merk.Tree.Ops.Side.{turned_entries, leans_left, leans_inner}
use merk.Tree.Ops.Settle.{quiet, single, double}
use merk.Tree.Ops.Turn.{Turns, turn-Turns}
use merk.Tree.Ops.Balance.{Balanced, Joined}

module _ (source : Fetch) ⦃hasher : Hasher⦄ where
  -- the child next to the root is the lower one: the first turn is undone
  undone :
      (n : ℕ) (k2 v2 k3 v3 : Bytes) (a x y : Model)
      → Model.height a < 126
      → Model.height x ≡ Model.height a
      → suc (Model.height y) ≡ Model.height a
      → Turns source
          (suc (suc (suc (suc n))))
          false
          (Model.bin k2 v2 a (Model.bin k3 v3 x y))
          (Model.bin k2 v2 a (Model.bin k3 v3 x y))
  undone n k2 v2 k3 v3 a x y h ex ey =
      let side = Model.bin k2 v2 a x in
      let whole = Model.bin k2 v2 a (Model.bin k3 v3 x y) in
      let again =
        turn-Turns source (suc n) true k3 v3 k2 v2 a x y (Model.bin k3 v3 x y) whole (omega arith)
          (omega arith)
          (quiet source n true k3 v3 x y (omega arith) (omega arith) (omega arith) (omega arith))
          (quiet source n true k2 v2 a (Model.bin k3 v3 x y) (omega arith) (omega arith)
            (omega arith) (omega arith)) in
      turn-Turns source (suc (suc (suc n))) false k2 v2 k3 v3 y x a side whole (omega arith)
        (omega arith)
        (quiet source (suc (suc n)) false k2 v2 x a (omega arith) (omega arith) (omega arith)
          (omega arith))
        (single source (suc (suc n)) true k3 v3 k2 v2 a x y whole (omega arith) (omega arith)
          (leans_left (Model.height a) (Model.height x) (omega arith) (omega arith) (omega arith))
          again)

  -- then the root turns, and what comes out on top settles
  pub back :
      (n : ℕ) (k v k2 v2 k3 v3 : Bytes) (a x y c : Model)
      → Model.height a < 126
      → Model.height x ≡ Model.height a
      → suc (Model.height y) ≡ Model.height a
      → Model.height c ≤ Model.height a
      → (lower : Balanced source (suc (suc (suc n))) (Model.bin k v (Model.bin k3 v3 x y) c))
      → (upper : Balanced source (suc (suc (suc n))) (Model.bin k2 v2 a lower.out))
      → Model.height upper.out ≡ suc (suc (Model.height a))
      → Joined source
          (suc (suc (suc (suc (suc n)))))
          (Model.bin k v (Model.bin k2 v2 a (Model.bin k3 v3 x y)) c)
  back n k v k2 v2 k3 v3 a x y c h ex ey d lower upper high =
      let inner = Model.bin k3 v3 x y in
      let child = Model.bin k2 v2 a inner in
      let p_high = lower.high in
      record {
        balanced = record {
          out = upper.out;
          settles =
              double source (suc (suc (suc (suc n)))) true k v k2 v2 a inner c child upper.out
                (omega arith) (omega arith)
                (leans_inner true (Model.height a) (Model.height inner) (omega arith) (omega arith)
                  (omega arith))
                (omega arith) (undone n k2 v2 k3 v3 a x y h ex ey)
                (turn-Turns source (suc (suc (suc n))) true k v k2 v2 a inner c lower.out upper.out
                  (omega arith) (omega arith) lower.settles upper.settles);
          avl = upper.avl;
          same = upper.same ∙ turned_entries true k v k2 v2 a inner c lower.out lower.same;
          low = omega arith;
          high = omega arith;
        };
        tall = λ e. absurd (omega arith);
      }
