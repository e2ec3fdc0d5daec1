-- ===== src/Lib.antt =====
-- merk: a Merkle AVL tree over a key/value store, with proofs of queries. This library models the
-- parts that carry the tree's meaning and its proofs, and proves what they promise.
--
-- Prelude holds the shared names, the tests on numbers and the list helpers; Outcome has the
-- errors (src/error.rs) and the outcome of a call, which is a value, an error or a panic; Bytes
-- has byte strings with their order; Btree is the part of the standard library's BTreeMap that is
-- used, as a sorted list of entries; Samples has a hasher and a codec that evaluate, for the
-- tests.
--
-- Hash models src/tree/hash.rs (kv_hash, node_hash). The digest of the sha2 crate is a parameter,
-- the record Hasher, with its 32-byte length as the only law. Nothing is assumed about
-- collisions: a theorem that needs collision resistance concludes that the claim holds or that
-- the hash function is broken, by two inputs with one digest or by an input with a digest of
-- zeros, which it then names (the type Hash.Broken). The elements of a digest are numbers without
-- a bound, so that type is not inhabited for every hasher by counting.
--
-- Proofs models src/proofs/mod.rs (Op, Node); Proofs/Encoding models src/proofs/encoding.rs
-- (encode_into, encoding_length, decode, Decoder), with the integer codecs of the ed crate as a
-- parameter, the record Ed. Proofs/Tree models src/proofs/tree.rs (the partial tree, hash,
-- attach, execute): one function per round of the loop on the record Machine of the loop's
-- variables. Proofs/Query/Map models src/proofs/query/map.rs (MapBuilder, Map, Range; Map/Back
-- has iteration from the end, and Map/Join has join), Proofs/Query/Item, Proofs/Query/Insert and
-- Proofs/Query/Create model QueryItem, Query and create_proof of src/proofs/query/mod.rs with the
-- walker of src/tree/walk/ref_walker.rs, Proofs/Query/Verify models verify, and
-- Proofs/Query/Output the deprecated verify_query. Proofs/Chunk models src/proofs/chunk.rs: the
-- trunk that a walker writes, the chunks read from the rows of the store, and verify_leaf and
-- verify_trunk (Proofs/Chunk/Verify); Proofs/Tree/Visit has the visits of a partial tree.
-- Proofs/Tree/Postfix has the operators of a partial tree, which both create_proof and
-- get_next_chunk write, and what execute makes of them; Proofs/Query/Create/Split and Answers
-- follow the keys that a query covers.
--
-- Tree models src/tree/mod.rs, src/tree/link.rs and src/tree/kv.rs: nodes whose links are
-- references, modified, uncommitted or loaded. Tree/Commit has commit and the trait of
-- src/tree/commit.rs, Tree/Load has load and the trait of src/tree/walk/fetch.rs, Tree/Lookup has
-- get_value, and Tree/Encoding has the encodings of a node, with what the ed crate makes of an
-- Option as a parameter, the record EdOption. A method that changes a tree returns the new one; a
-- panic is an outcome. Tree/Walker models src/tree/walk/mod.rs, and Tree/Ops with Tree/Ops/Apply
-- models src/tree/ops.rs: batches of puts and deletes, and the rotations; Tree/Ops/Turn and
-- Tree/Ops/Settle follow rotate and maybe_balance on a node by its higher side, and
-- Tree/Ops/Heavy goes through the shapes of that side. Tree/Iter models src/tree/iter.rs.
-- Tree/Reps says what a tree in memory stands for.
--
-- Store models src/merk/mod.rs and src/merk/snapshot.rs: a tree in memory over a database.
-- RocksDB is a parameter, the record Db of Store/Rocks with the laws IsLawful; Store/Memory is a
-- database in memory that obeys them. Store/Holds says when the database holds a tree and what is
-- pending before a commit, Store/Disk what its rows say, Store/Rows that an iterator goes through
-- them in order. Store/Chunks models src/merk/chunks.rs, and Store/Chunks/Windows has the
-- subtrees below a trunk. Store/Restore models src/merk/restore.rs, with LayerIter in
-- Proofs/Tree/Layer; Store/Restore/Full has what is written of a whole subtree, Low a tree whose
-- only chunk is the trunk, Shape, Layers and Trunk the partial tree of a trunk, its layers and
-- what is written of it, Start the first chunk, Leaf and Fill the leaf chunks, Heights the
-- heights set at the end, and High all of them; Grown says what the database holds of the trunk
-- until then. Store/Chunks/ByIndex is about access to a chunk by its index.
--
-- Model is the abstract tree that the theorems compare with: keys and values in a binary tree,
-- its list of entries and its root hash. Proofs/Tree/Partial has the ghost state that execute is
-- followed by: the trees with nothing collapsed.
--
-- Fuel: the decoder takes a byte at least for each operator, so the number of bytes and one is
-- enough for Proofs.Encoding.decode_all. The iterator of a range recurses on the entries that are
-- left; commit and get_value recurse on the tree. create_proof changes the tree while it goes
-- down, so it recurses on fuel, for which the height of the tree is enough; the traversals of
-- Proofs/Chunk do the same, and Store passes the fuel on. The loop over the chunks takes one unit
-- for each chunk and one for its end, and so does the loop of verify_query over the items of a
-- query (Proofs/Query/Output/Turns). The functions of Tree/Ops recurse on fuel too, and panic
-- without it; Tree/Ops/Join says how much of it maybe_balance needs where the left side is too
-- high. Batches, removals, and a right side that is too high are only run on concrete trees, and
-- no theorem is about them. The binary search of create_proof is a search from the left;
-- Proofs/Query/Create/Found compares it with what the documentation of binary_search_by allows.
-- On a query whose items are not in order, which Merk::prove takes as it comes, the two may
-- differ.
--
-- Not modelled: of src/merk the paths, options, locks and checkpoints of RocksDB and the
-- StaticSnapshot.
--
-- Error messages are left out, and so is the capacity that create_trunk_proof reserves, which
-- could not be allocated for a tree of a height above a hundred. The debug assertions are not
-- modelled, since the release build has none; `as u8` and `as u16` wrap.
pub mod Prelude
pub mod Outcome
pub mod Bytes
pub mod Hash
pub mod Btree
pub mod Model
pub mod Tree
pub mod Proofs
pub mod Store
pub mod Samples
