-- ===== src/Store/Restore.antt =====
-- src/merk/restore.rs: `Restorer`, which writes the chunks that it is given to a new database.
pub mod Full
pub mod Low
pub mod Grown
pub mod Shape
pub mod Layers
pub mod Trunk
pub mod Leaf
pub mod Fill
pub mod Heights
pub mod Start
pub mod High
mod Examples
use merk.Prelude.{
  ℕ, zero, suc, ◌+◌, ◌-◌, ◌/◌, ◌%◌, ◌^◌, Bool, true, false, List, [], ◌∷◌, ◌++◌, Option, none, some,
  max, leb, ◌==◌, if◌then◌else◌, length,
}
use merk.Bytes.{Bytes, eq_bytes}
use merk.Outcome.{Result, ok, err, panic, ◌>>=◌, Error}
use merk.Hash.{Hasher}
use merk.Proofs.{Node, Op}
use merk.Proofs.Chunk.{min_trunk_height}
use merk.Proofs.Chunk.Verify.{verify_leaf, verify_trunk}
use merk.Proofs.Encoding.{Ed, decode_all}
use merk.Proofs.Query.Create.{ref_walk}
use merk.Proofs.Tree.{ProofTree, Slot, node_of, hash as proof_hash}
use merk.Proofs.Tree.Layer.{layer}
use merk.Proofs.Tree.Visit.{visit_refs}
use merk.Store.{Merk, open_merk, source, write, set_root_key, fetch_node, load_root}
use merk.Store.Rocks.{Column, Write, Db}
use merk.Tree.{Tree, MaybeLink, Link, Kv, kv_of, key, link, child_heights, new_kv, expect}
use merk.Tree.Encoding.{EdOption, encode_tree, decode_tree}
use merk.Tree.Load.{set_link}

pub record Restorer (S : Type 0) : Type 0 where
  pub leaf_hashes : Option (List Bytes)
  pub parent_keys : Option (List Bytes)
  pub trunk_height : Option ℕ
  pub merk : Merk S
  pub expected_root_hash : Bytes
  pub stated_length : ℕ

-- `Tree::child_heights` of a partial tree, `as u8`
abbrev pub slot_height : Slot → ℕ
slot_height Slot.vacant = 0
slot_height (Slot.occupied (ProofTree.tree node l r n) h) = n % 2 ^ 8

abbrev pub proof_child_heights : ProofTree → ℕ × ℕ
proof_child_heights (ProofTree.tree node l r n) = (slot_height l, slot_height r)

-- `Child::as_link`: the key of an abridged child is not known yet
abbrev pub node_key : Node → Bytes
node_key (Node.kv k v) = k
node_key _ = []

abbrev pub as_link : Slot → MaybeLink
as_link Slot.vacant = MaybeLink.unlinked
as_link (Slot.occupied t h) =
    MaybeLink.linked (Link.reference h (proof_child_heights t) (node_key (node_of t)))

-- `Tree::key`, which panics on an abridged node
abbrev pub expect_key_of : Node → Result Bytes
expect_key_of (Node.kv k v) = ok k
expect_key_of _ = panic

abbrev pub proof_key : ProofTree → Result Bytes
proof_key t = expect_key_of (node_of t)

abbrev pub map_results {ℓ κ} : {A : Type ℓ} {B : Type κ} → (A → Result B) → List A → Result (List B)
map_results f [] = ok []
map_results f (a ∷ as') = f a >>= λ b. map_results f as' >>= λ bs. ok (b ∷ bs)

abbrev pub tail_of : List Bytes → List Bytes
tail_of [] = []
tail_of (x ∷ xs) = xs

-- `peek().unwrap()`
abbrev pub peek : List Bytes → Result Bytes
peek [] = panic
peek (x ∷ xs) = ok x

module _ ⦃hasher : Hasher⦄ ⦃o : EdOption⦄ where
  -- a node that cannot be hashed is left out
  abbrev pub encode_node : Slot → Slot → Result Kv → Result (List Write)
  encode_node l r (ok kv) = do
    bytes ← encode_tree (Tree.tree kv (as_link l) (as_link r))
    ok (Write.put Column.main kv.key bytes ∷ [])
  encode_node l r (err e) = ok []
  encode_node l r panic = panic

  -- the closure of `write_chunk`, on one node
  abbrev pub node_writes : ProofTree → Result (List Write)
  node_writes (ProofTree.tree (Node.kv k v) l r n) = encode_node l r (new_kv k v)
  node_writes (ProofTree.tree (Node.hash h) l r n) = ok []
  node_writes (ProofTree.tree (Node.kv_hash h) l r n) = ok []

  abbrev pub visit_writes : Result (List Write) → ProofTree → Result (List Write)
  visit_writes batch t = batch >>= λ ws. node_writes t >>= λ ws'. ok (ws ++ ws')

  unfoldable pub chunk_writes : ProofTree → Result (List Write)
  chunk_writes t = visit_refs visit_writes t (ok [])

module _ {S : Type 0} (db : Db S) ⦃hasher : Hasher⦄ ⦃o : EdOption⦄ where
  -- `Restorer::new`, on what the path holds once it is opened
  unfoldable pub restore : Bool → S → Bytes → ℕ → Result (Restorer S)
  unfolding open_merk
  restore exists s expected_root_hash stated_length = if exists then err Error.path else (do
    merk ← open_merk db s
    ok (record {
      leaf_hashes = none;
      parent_keys = none;
      trunk_height = none;
      merk = merk;
      expected_root_hash = expected_root_hash;
      stated_length = stated_length;
    }))

  unfoldable pub write_chunk : ProofTree → Merk S → Result (Merk S)
  unfolding chunk_writes
  write_chunk t merk = do batch ← chunk_writes t; write db batch merk

  abbrev pub assert_layers : ℕ → List Bytes → List Bytes → Result (List Bytes × List Bytes)
  assert_layers trunk_height leaf_hashes parent_keys =
      if length parent_keys == length leaf_hashes / 2
      then (if length leaf_hashes == 2 ^ trunk_height % 2 ^ 64
          then ok (leaf_hashes, parent_keys)
          else panic)
      else panic

  -- the hashes of the leaf chunks and the keys of their parents; the assertions panic
  abbrev pub trunk_layers : ProofTree → ℕ → Result (List Bytes × List Bytes)
  trunk_layers trunk trunk_height =
      if leb min_trunk_height trunk_height
      then (do
        leaves ← layer (2 ^ trunk_height + 1) trunk trunk_height
        leaf_hashes ← map_results proof_hash leaves
        parents ← layer (2 ^ (trunk_height - 1) + 1) trunk (trunk_height - 1)
        parent_keys ← map_results proof_key parents
        assert_layers trunk_height leaf_hashes parent_keys)
      else ok ([], [])

  -- what follows once the trunk is verified
  abbrev pub store_trunk : Restorer S → ProofTree → ℕ → Result (Restorer S × ℕ)
  store_trunk r trunk height = do
    root_key ← proof_key trunk
    (leaf_hashes, parent_keys) ← trunk_layers trunk (height / 2)
    merk ← (if r.stated_length == length leaf_hashes + 1 then write_chunk trunk r.merk else panic)
    merk' ← set_root_key db root_key merk
    ok (
      record r {
        leaf_hashes = some leaf_hashes;
        parent_keys = some parent_keys;
        trunk_height = some (height / 2);
        merk = merk';
      },
      length leaf_hashes,
    )

  unfoldable pub process_trunk : Restorer S → List (Result Op) → Result (Restorer S × ℕ)
  unfolding write_chunk
  process_trunk r ops = verify_trunk ops >>= λ (trunk, height). proof_hash trunk >>= λ actual.
      if eq_bytes actual r.expected_root_hash
      then store_trunk r trunk height
      else err Error.hash_mismatch

  -- the key of a link that is a reference
  abbrev pub rewrite_key : Bytes → MaybeLink → Result MaybeLink
  rewrite_key k (MaybeLink.linked (Link.reference h hs k')) =
      ok (MaybeLink.linked (Link.reference h hs k))
  rewrite_key k _ = panic

  unfoldable pub rewrite_parent_link :
      ProofTree → Merk S → ℕ → List Bytes → Result (Merk S × List Bytes)
  rewrite_parent_link leaf merk remaining parent_keys = do
    parent_key ← peek parent_keys
    found ← fetch_node db merk parent_key
    parent ← expect found
    let is_left_child = remaining % 2 == 0
    leaf_key ← proof_key leaf
    l ← rewrite_key leaf_key (link parent is_left_child)
    bytes ← encode_tree (set_link (source db merk.state) parent is_left_child l)
    merk' ← write db (Write.put Column.main parent_key bytes ∷ []) merk
    ok (merk', if is_left_child then parent_keys else tail_of parent_keys)

  unfoldable pub process_leaf :
      Restorer S → List Bytes → List Bytes → List (Result Op) → Result (Restorer S × ℕ)
  unfolding write_chunk rewrite_parent_link
  process_leaf r leaf_hashes parent_keys ops = do
    leaf_hash ← peek leaf_hashes
    leaf ← verify_leaf ops leaf_hash
    (merk, parent_keys') ← rewrite_parent_link leaf r.merk (length leaf_hashes) parent_keys
    merk' ← write_chunk leaf merk
    ok (
      record r {
        leaf_hashes = some (tail_of leaf_hashes);
        parent_keys = some parent_keys';
        merk = merk';
      },
      length (tail_of leaf_hashes),
    )

  abbrev pub process_ops :
      Restorer S
      → Option (List Bytes)
      → Option (List Bytes)
      → List (Result Op)
      → Result (Restorer S × ℕ)
  process_ops r none parent_keys ops = process_trunk r ops
  process_ops r (some leaf_hashes) none ops = panic
  process_ops r (some leaf_hashes) (some parent_keys) ops =
      process_leaf r leaf_hashes parent_keys ops

  unfoldable pub process_chunk : ⦃codec : Ed⦄ → Restorer S → Bytes → Result (Restorer S × ℕ)
  unfolding process_trunk process_leaf
  process_chunk r chunk_bytes = process_ops r r.leaf_hashes r.parent_keys (decode_all chunk_bytes)

  -- `remaining_chunks`
  abbrev pub remaining : Option (List Bytes) → Option ℕ
  remaining none = none
  remaining (some leaf_hashes) = some (length leaf_hashes)

  abbrev pub set_heights : ℕ × ℕ → MaybeLink → Result MaybeLink
  set_heights hs MaybeLink.unlinked = panic
  set_heights hs (MaybeLink.linked (Link.reference h hs' k)) =
      ok (MaybeLink.linked (Link.reference h hs k))
  set_heights hs (MaybeLink.linked (Link.modified n hs' t)) =
      ok (MaybeLink.linked (Link.modified n hs t))
  set_heights hs (MaybeLink.linked (Link.uncommitted h hs' t)) =
      ok (MaybeLink.linked (Link.uncommitted h hs t))
  set_heights hs (MaybeLink.linked (Link.loaded h hs' t)) =
      ok (MaybeLink.linked (Link.loaded h hs t))

  abbrev pub above : ℕ × ℕ → ℕ
  above hs = (max hs.0 hs.1 + 1) % 2 ^ 8

  -- `recurse` of `rewrite_trunk_child_heights`. The tree that is walked is dropped at the end, so
  -- the loaded children are not put back into it.
  unfoldable pub rewrite_heights : S → ℕ → Tree → Result ((ℕ × ℕ) × List Write)
  unfolding ref_walk
  rewrite_heights s zero t = ok (child_heights t, [])
  rewrite_heights s (suc depth) t = do
    encoded ← encode_tree t
    cloned_node ← decode_tree (key t) encoded
    (t₁, maybe_left) ← ref_walk (source db s) t true
    left_node ← expect maybe_left
    (left_heights, left_writes) ← rewrite_heights s depth left_node
    l ← set_heights left_heights (link cloned_node true)
    (t₂, maybe_right) ← ref_walk (source db s) t₁ false
    right_node ← expect maybe_right
    (right_heights, right_writes) ← rewrite_heights s depth right_node
    r ← set_heights right_heights (link cloned_node false)
    bytes ← encode_tree (Tree.tree (kv_of cloned_node) l r)
    ok (
      (above left_heights, above right_heights),
      left_writes ++ (right_writes ++ (Write.put Column.main (key t) bytes ∷ [])),
    )

  unfoldable pub rewrite_trunk_child_heights : ℕ → Merk S → Result (Merk S)
  unfolding rewrite_heights load_root
  rewrite_trunk_child_heights depth merk = do
    root ← load_root db merk.state
    t ← expect root
    (heights, batch) ← rewrite_heights merk.state depth t
    write db batch (record merk { tree = root })

  abbrev pub finish_heights : ℕ → Merk S → Result (Merk S)
  finish_heights trunk_height merk =
      if leb min_trunk_height trunk_height
      then rewrite_trunk_child_heights trunk_height merk
      else ok merk

  abbrev pub finalize_at : Merk S → Option ℕ → Option ℕ → Result (Merk S)
  finalize_at merk (some zero) trunk_height = do
    height ← expect trunk_height
    merk' ← finish_heights height merk
    root ← load_root db merk'.state
    ok (record merk' { tree = root })
  finalize_at merk _ trunk_height = err Error.chunk_processing

  unfoldable pub finalize : Restorer S → Result (Merk S)
  unfolding rewrite_trunk_child_heights load_root
  finalize r = finalize_at r.merk (remaining r.leaf_hashes) r.trunk_height

  -- all the chunks in order, and then `finalize`
  unfoldable pub restore_all : ⦃codec : Ed⦄ → Restorer S → List Bytes → Result (Merk S)
  unfolding process_chunk finalize
  restore_all r [] = finalize r
  restore_all r (chunk ∷ chunks) = process_chunk r chunk >>= λ (r', count). restore_all r' chunks
