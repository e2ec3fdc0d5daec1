-- ===== src/Store.antt =====
-- src/merk/mod.rs and src/merk/snapshot.rs: a tree over RocksDB, with snapshots. The path, locks,
-- options and caches of the database are left out; a call that fails leaves no state behind.
pub mod Rocks
pub mod Memory
mod Examples
pub mod Replay
pub mod Disk
pub mod Written
pub mod Holds
pub mod Durable
pub mod Answers
pub mod Prove
pub mod Batch
pub mod Rows
pub mod Chunks
pub mod Restore
use Prim.Native.Nat.{Ordering}
use merk.Prelude.{
  ℕ, ◌+◌, ◌-◌, ◌%◌, ◌^◌, Bool, List, [], ◌∷◌, ◌++◌, Option, none, some, map, leb, if◌then◌else◌,
}
use merk.Bytes.{Bytes, cmp, le_bytes}
use merk.Outcome.{Result, ok, err, ◌>>=◌, Error}
use merk.Hash.{Hasher, null_hash}
use merk.Proofs.Encoding.{Ed, encode_into}
use merk.Proofs.Chunk.Verify.{Done}
use merk.Proofs.Query.Item.{QueryItem}
use merk.Proofs.Query.Create.{create_proof}
use merk.Tree.{Tree, kv_of, key, height, hash}
use merk.Tree.Commit.{Commit, commit}
use merk.Tree.Encoding.{EdOption, encode_tree, decode_tree}
use merk.Tree.Load.{Fetch, fetch_by_key_expect}
use merk.Tree.Lookup.{GetResult, get_value}
use merk.Tree.Ops.{BatchOp, BatchEntry}
use merk.Tree.Ops.Apply.{apply_to}
use Rocks.{Column, Write, Db}

-- `ROOT_KEY_KEY`, the bytes of "root"
abbrev pub root_key_key : Bytes
root_key_key = 114 ∷ 111 ∷ 111 ∷ 116 ∷ []

-- `Merk`, and `Snapshot`, which is the same over the state that it was taken from
pub record Merk (S : Type 0) : Type 0 where
  pub tree : Option Tree
  pub state : S

pub record Snapshot (S : Type 0) : Type 0 where
  pub ss : S
  pub tree : Option Tree

-- an entry of the batch that `commit` collects: a key with its node, or a key to delete
abbrev pub Change : Type 0
Change = Bytes × Option Bytes

pub record MerkCommitter : Type 0 where
  pub batch : List Change
  pub height : ℕ
  pub levels : ℕ

abbrev pub new_committer : ℕ → ℕ → MerkCommitter
new_committer height levels = record { batch = []; height = height; levels = levels }

abbrev pub write_node : ⦃o : EdOption⦄ → Tree → MerkCommitter → Result MerkCommitter
write_node t c = do
  buf ← encode_tree t
  ok (record c { batch = c.batch ++ ((key t, some buf) ∷ []) })

-- The heights are `u8`, and their difference wraps.
abbrev pub prune_level : Tree → MerkCommitter → Bool × Bool
prune_level t c = let prune = leb c.levels ((c.height + 2 ^ 8 - height t) % 2 ^ 8) in (prune, prune)

abbrev pub committer : ⦃o : EdOption⦄ → Commit MerkCommitter
committer = record { write = write_node; prune = prune_level }

-- `sort_by` on the keys, which is stable
unfoldable pub insert_change : Change → List Change → List Change
insert_change e [] = e ∷ []
insert_change e (e' ∷ es) =
    let rest = insert_change e es in if le_bytes e.0 e'.0 then e ∷ e' ∷ es else e' ∷ rest

unfoldable pub sort_by_key : List Change → List Change
unfolding insert_change
sort_by_key [] = []
sort_by_key (e ∷ es) = insert_change e (sort_by_key es)

abbrev pub deletion : Bytes → Change
deletion k = (k, none)

abbrev pub node_write : Change → Write
node_write (k, some v) = Write.put Column.main k v
node_write (k, none) = Write.delete Column.main k

abbrev pub aux_write : BatchEntry → Write
aux_write (k, BatchOp.put v) = Write.put Column.aux k v
aux_write (k, BatchOp.delete) = Write.delete Column.aux k

-- the test of `apply` on one key and the key before it
abbrev pub check_order : Ordering → Result Done
check_order Ordering.gt = err Error.batch_key
check_order Ordering.eq = err Error.batch_key
check_order Ordering.lt = ok tt

abbrev pub check_prev : Option Bytes → Bytes → Result Done
check_prev none key = ok tt
check_prev (some prev) key = check_order (cmp prev key)

unfoldable pub check_batch : Option Bytes → List BatchEntry → Result Done
check_batch prev [] = ok tt
check_batch prev (e ∷ batch) = check_prev prev e.0 >>= λ _. check_batch (some e.0) batch

abbrev pub value_of : Option Tree → Option Bytes
value_of none = none
value_of (some t) = some (kv_of t).value

-- `get`: what is pruned is read from the source
abbrev pub get_result : Fetch → Bytes → GetResult → Result (Option Bytes)
get_result source k (GetResult.found v) = ok (some v)
get_result source k GetResult.not_found = ok none
get_result source k GetResult.pruned = do node ← source.fetch_by_key k; ok (value_of node)

abbrev pub get_tree : Fetch → Bytes → Option Tree → Result (Option Bytes)
get_tree source k none = ok none
get_tree source k (some t) = get_result source k (get_value t k)

abbrev pub root_hash : ⦃hasher : Hasher⦄ → Option Tree → Result Bytes
root_hash none = ok null_hash
root_hash (some t) = hash t

-- `prove`, which may load nodes of the tree
abbrev pub prove_tree :
    ⦃hasher : Hasher⦄
    → ⦃codec : Ed⦄ → Fetch
    → ℕ
    → List QueryItem
    → Option Tree
    → Result (Option Tree × Bytes)
prove_tree source fuel query none = err Error.proof
prove_tree source fuel query (some t) = do
  (t', proof) ← create_proof source fuel t query
  ok (some t', encode_into proof.0)

module _ {S : Type 0} (db : Db S) ⦃o : EdOption⦄ where
  abbrev pub decode_row : Bytes → Option Bytes → Result (Option Tree)
  decode_row k none = ok none
  decode_row k (some bytes) = do t ← decode_tree k bytes; ok (some t)

  -- `MerkSource::fetch_by_key`, also that of a snapshot
  unfoldable pub fetch_by_key : S → Bytes → Result (Option Tree)
  fetch_by_key s k = db.get Column.main k s >>= decode_row k

  abbrev pub source : S → Fetch
  source s = record { fetch_by_key = fetch_by_key s }

  abbrev pub fetch_root : S → Option Bytes → Result (Option Tree)
  fetch_root s none = ok none
  fetch_root s (some k) = do t ← fetch_by_key_expect (source s) k; ok (some t)

  unfoldable pub load_root : S → Result (Option Tree)
  unfolding fetch_by_key
  load_root s = db.get Column.internal root_key_key s >>= fetch_root s

  -- `open`, on the state of the database at the path
  unfoldable pub open_merk : S → Result (Merk S)
  unfolding load_root
  open_merk s = do t ← load_root s; ok (record { tree = t; state = s })

  abbrev pub get_aux : Merk S → Bytes → Result (Option Bytes)
  get_aux merk k = db.get Column.aux k merk.state

  unfoldable pub get : Merk S → Bytes → Result (Option Bytes)
  unfolding fetch_by_key
  get merk k = get_tree (source merk.state) k merk.tree

  abbrev pub fetch_node : Merk S → Bytes → Result (Option Tree)
  fetch_node merk k = fetch_by_key merk.state k

  abbrev pub write : List Write → Merk S → Result (Merk S)
  write batch merk = do s ← db.write batch merk.state; ok (record merk { state = s })

  abbrev pub set_root_key : Bytes → Merk S → Result (Merk S)
  set_root_key k merk = write (Write.put Column.internal root_key_key k ∷ []) merk

  unfoldable pub snapshot : Merk S → Result (Snapshot S)
  unfolding load_root
  snapshot merk = do t ← load_root merk.state; ok (record { ss = merk.state; tree = t })

  unfoldable pub snapshot_get : Snapshot S → Bytes → Result (Option Bytes)
  unfolding fetch_by_key
  snapshot_get ss k = get_tree (source ss.ss) k ss.tree

  module _ ⦃hasher : Hasher⦄ where
    -- what `commit` makes of the tree: the tree, the write of the root key, and the nodes
    abbrev pub commit_tree : Option Tree → Result (Option Tree × (List Write × List Change))
    commit_tree none = ok (none, (Write.delete Column.internal root_key_key ∷ [], []))
    commit_tree (some t) = do
      (t', c) ← commit committer t (new_committer (height t) 21)
      ok (some t', (Write.put Column.internal root_key_key (key t') ∷ [], c.batch))

    abbrev pub commit_writes : List Write → List Change → List Bytes → List BatchEntry → List Write
    commit_writes pointer nodes deleted aux =
        pointer
        ++ (map node_write (sort_by_key (nodes ++ map deletion deleted)) ++ map aux_write aux)

    unfoldable pub commit_merk : List Bytes → List BatchEntry → Merk S → Result (Merk S)
    unfolding sort_by_key
    commit_merk deleted aux merk = do
      (t, (pointer, nodes)) ← commit_tree merk.tree
      s ← db.write (commit_writes pointer nodes deleted aux) merk.state
      ok (record { tree = t; state = s })

    unfoldable pub apply_unchecked :
        ℕ → List BatchEntry → List BatchEntry → Merk S → Result (Merk S)
    unfolding apply_to commit_merk fetch_by_key
    apply_unchecked fuel batch aux merk = do
      (t, deleted) ← apply_to fuel (source merk.state) merk.tree batch
      commit_merk deleted aux (record merk { tree = t })

    unfoldable pub apply : ℕ → List BatchEntry → List BatchEntry → Merk S → Result (Merk S)
    unfolding check_batch apply_unchecked
    apply fuel batch aux merk = do _ ← check_batch none batch; apply_unchecked fuel batch aux merk

    -- `repair`: the rows of the store, put into a fresh one
    abbrev pub repair_rows : List (Bytes × Bytes) → Result (List BatchEntry)
    repair_rows [] = ok []
    repair_rows ((k, bytes) ∷ rows) = do
      node ← decode_tree [] bytes
      batch ← repair_rows rows
      ok ((k, BatchOp.put (kv_of node).value) ∷ batch)

    abbrev pub put_row : Bytes × Bytes → BatchEntry
    put_row (k, v) = (k, BatchOp.put v)

    unfoldable pub repair : ℕ → S → Merk S → Result (Merk S)
    unfolding open_merk apply
    repair fuel fresh merk = do
      batch ← repair_rows (db.rows Column.main merk.state)
      tmp ← open_merk fresh
      tmp' ← apply fuel batch (map put_row (db.rows Column.aux merk.state)) tmp
      open_merk tmp'.state

    module _ ⦃codec : Ed⦄ where
      unfoldable pub prove : ℕ → List QueryItem → Merk S → Result (Merk S × Bytes)
      unfolding fetch_by_key create_proof
      prove fuel query merk = do
        (t, bytes) ← prove_tree (source merk.state) fuel query merk.tree
        ok (record merk { tree = t }, bytes)

      unfoldable pub snapshot_prove : ℕ → List QueryItem → Snapshot S → Result (Snapshot S × Bytes)
      unfolding fetch_by_key create_proof
      snapshot_prove fuel query ss = do
        (t, bytes) ← prove_tree (source ss.ss) fuel query ss.tree
        ok (record ss { tree = t }, bytes)
