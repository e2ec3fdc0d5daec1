-- ===== src/Store/Prove.antt =====
-- `Merk::prove` against `verify`.
use merk.Prelude.{ℕ, ◌≤◌, ◌≡◌, refl, List, ◌∷◌, Option, none, some, All-append_parts}
use merk.Bytes.{Bytes}
use merk.Outcome.{ok, ◌>>=◌}
use merk.Hash.{Hasher}
use merk.Model
use merk.Model.{Model, Entry, entries, find, IsSorted}
use merk.Proofs.Encoding.{Ed, encode_into}
use merk.Proofs.Chunk.Program.{FitsAll}
use merk.Proofs.Query.Item.{QueryItem}
use merk.Proofs.Query.Map
use merk.Proofs.Query.Create.Split.{IsQuery, Covered}
use merk.Proofs.Query.Create.Walk.{create_proof-Created}
use merk.Proofs.Query.Verify.{verify}
use merk.Proofs.Query.Verify.Accepts.{IsShort}
use merk.Proofs.Query.Verify.Complete.{Proves-verify, IsShort-IsSized}
use merk.Store.{Merk, source, root_hash, prove}
use merk.Store.Disk.{OnDisk-Stored}
use merk.Store.Holds.{Holds, FreshOption}
use merk.Store.Rocks.{Db}
use merk.Tree.{Tree}
use merk.Tree.Encoding.{EdOption}
use merk.Tree.Encoding.RoundTrip.{FitsKey}
use merk.Tree.Reps.{hash-Reps}

-- keys that fit a proof fit a node's links
pub IsShort-FitsAll : (m : Model) → IsShort (entries m) → FitsAll m
IsShort-FitsAll Model.leaf s = tt
IsShort-FitsAll (Model.bin k v l r) s =
    let (sl, sr) = All-append_parts _ (entries l) ((k, v) ∷ entries r) s in
    (fits l sl, fits r sr.1, IsShort-FitsAll l sl, IsShort-FitsAll r sr.1)
  where
    fits : (m : Model) → IsShort (entries m) → FitsKey m
    fits Model.leaf s = tt
    fits (Model.bin k v l r) s = (All-append_parts _ (entries l) ((k, v) ∷ entries r) s).1.0.0

module _ {S : Type 0} (db : Db S) ⦃hasher : Hasher⦄ ⦃o : EdOption⦄ ⦃codec : Ed⦄ where
  -- Where the database holds a tree with a node, its keys increase and are shorter than 2 ^ 8 and its
  -- values shorter than 2 ^ 16, and the fuel is at least its height, for a query whose items are
  -- proper and in order: `prove` succeeds, the database still holds the tree, `verify` accepts the
  -- bytes against the root hash of the `Merk`, and `get` on its map answers every key that an item
  -- contains as the tree does.
  pub verify-prove :
      (fuel : ℕ) (query : List QueryItem) (merk : Merk S) (m : Model) (k : Bytes)
      → (m ≡ Model.leaf → ⊥)
      → Model.height m ≤ fuel
      → IsSorted (entries m)
      → IsShort (entries m)
      → Holds db merk m
      → IsQuery query
      → Covered k query
      → (merk' : Merk S) × (bytes : Bytes) × (prove db fuel query merk ≡ ok (merk', bytes))
        × Holds db merk' m
        × ((root_hash merk.tree >>= λ h. verify bytes h >>= λ map. Map.get map k)
            ≡ ok (find k (entries m)))
  unfolding prove
  verify-prove fuel query merk m k some_node b s short h q c = by_tree merk.tree refl h.tree
    where
      by_tree :
          (t : Option Tree)
          → merk.tree ≡ t
          → FreshOption t m
          → (merk' : Merk S) × (bytes : Bytes) × (prove db fuel query merk ≡ ok (merk', bytes))
            × Holds db merk' m
            × ((root_hash merk.tree >>= λ h. verify bytes h >>= λ map. Map.get map k)
                ≡ ok (find k (entries m)))
      by_tree none e fresh = absurd (some_node fresh)
      by_tree (some t) e fresh =
          let stored = OnDisk-Stored db merk.state m (IsShort-FitsAll m short) h.disk in
          let (t', proof, made, fresh', proves) =
            create_proof-Created (source db merk.state) fuel t m query b (IsShort-IsSized m short)
              stored fresh q in
          (
            record merk { tree = some t' },
            encode_into proof.0,
            rw (e, made) refl,
            record { tree = fresh'; disk = h.disk; only = h.only; pointer = h.pointer },
            rw (e, hash-Reps t m fresh)
                (Proves-verify (source db merk.state) m query proof k some_node s short c proves),
          )
