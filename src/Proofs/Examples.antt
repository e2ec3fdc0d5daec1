-- ===== src/Proofs/Examples.antt =====
-- The theorems about proofs at concrete proofs, with the toy hasher and codec.
use merk.Prelude.{
  ◌≡◌, refl, ◌⊎◌, true, false, List, [], ◌∷◌, none, some, map, arith, replicate, length,
  if◌then◌else◌,
}
use merk.Bytes.{Bytes, cmp}
use merk.Outcome.{ok, err, ◌>>=◌, Error}
use merk.Hash.{Broken, null_hash, le32, kv_message, node_message, kv_hash, node_hash}
use merk.Hash.Injective.{length-node_hash, node_hash_injective, kv_hash_injective}
use merk.Btree.{get as btree_get}
use merk.Model.{entries, find, root_hash}
use merk.Model.Cover.{Covers, hash_partial-Covers}
use merk.Proofs.{Node, Op}
use merk.Proofs.Encoding.{
  Ed, encode, encode_into, encoding_length, decode, decode_all, next, items, read_exact, Decoder,
}
use merk.Proofs.Encoding
use merk.Proofs.Tree
use merk.Proofs.Tree.Execute.{Describes, execute-Describes}
use merk.Proofs.Encoding.RoundTrip.{length-encode, decode_all-encode_into}
use merk.Proofs.Tree.{ProofTree, Slot, hash, execute}
use merk.Proofs.Tree.Layer.{layer, nodes_at, layer-nodes_at}
use merk.Proofs.Tree.Partial.{graft_free, Partial, inorder}
use merk.Btree.{Bound, within}
use merk.Proofs.Query.Map.Join.{join}
use merk.Proofs.Query.Map.Back.{contiguous_right, next_back}
use merk.Proofs.Query.Map.{Range, Map, new, insert, get}
use merk.Proofs.Query.Map.Absence.{get-absent, gap_flag}
use merk.Proofs.Query.Item.{QueryItem, cmp_item}
use merk.Proofs.Query.Output.{verify_query, visit_query, scan}
use merk.Proofs.Query.Output.Asked.{asked}
use merk.Proofs.Query.Output.Exact.{verify_query-asked}
use merk.Proofs.Query.Verify.{verify}
use merk.Proofs.Query.Verify.Built.{Appends, visit_all-Appends}
use merk.Proofs.Query.Verify.Soundness.{verify_sound}
use merk.Proofs.Query.Verify.Forgery.{graft, verify-graft}
use merk.Samples.{
  right_child, sample, sample-IsSized, toy_hasher, toy_ed, checksum, decode_u8, encode_u16,
  decode_u16,
}

abbrev sample_ops : List Op
sample_ops =
    Op.push (Node.kv (2 ∷ []) (20 ∷ []))
    ∷ Op.push (Node.hash (root_hash right_child))
    ∷ Op.child
    ∷ []

abbrev sample_map : Map
sample_map = record { entries = (2 ∷ [], (true, 20 ∷ [])) ∷ []; right_edge = false }

one_two : kv_hash (1 ∷ []) (2 ∷ []) ≡ ok (toy_hasher.digest (kv_message (1 ∷ []) (2 ∷ [])))
unfolding kv_hash
one_two = refl

sample_verifies : verify (encode_into sample_ops) (root_hash sample) ≡ ok sample_map
unfolding verify decode_all items next decode read_exact encode_into encode encoding_length
    Encoding.new toy_hasher toy_ed checksum decode_u8 encode_u16 decode_u16 execute Tree.run
    Tree.step Tree.attach_child Tree.try_into_hash Tree.attach insert new hash kv_hash node_hash
    node_message kv_message le32 cmp
sample_verifies = refl

sample_free : graft_free (decode_all (encode_into sample_ops)) [] ≡ true
unfolding graft_free decode_all items next decode read_exact encode_into encode encoding_length
    Encoding.new toy_hasher toy_ed checksum decode_u8 encode_u16 decode_u16 node_hash node_message
    kv_message le32
sample_free = refl

-- 1 is before the root and has no gap to its left that is hidden
sample_absent : get sample_map (1 ∷ []) ≡ ok none
unfolding get btree_get cmp
sample_absent = refl

-- 3 is in the part that the proof leaves out
sample_hidden : get sample_map (3 ∷ []) ≡ err Error.missing_data
unfolding get btree_get cmp
sample_hidden = refl

verify_sound_example : Broken ⊎ (none ≡ find (1 ∷ []) (entries sample))
unfolding cmp
verify_sound_example =
    verify_sound (encode_into sample_ops) sample sample_map (1 ∷ []) none ((refl, tt), (tt, tt))
      sample-IsSized sample_free sample_verifies sample_absent

verify-graft_example :
    (verify (encode_into (graft (7 ∷ []) (8 ∷ []) (replicate 32 5))) (replicate 32 5) >>= λ m.
    get m (7 ∷ []))
    ≡ ok (some (8 ∷ []))
verify-graft_example =
    verify-graft (7 ∷ []) (8 ∷ []) (replicate 32 5) (omega arith) (omega arith) refl

-- the two nodes on one stack, before and after the last operator
abbrev sample_partial : Partial
sample_partial =
    Partial.node (Node.kv (2 ∷ []) (20 ∷ [])) Partial.absent
      (Partial.node (Node.hash (root_hash right_child)) Partial.absent Partial.absent)

abbrev sample_tree : ProofTree
sample_tree =
    ProofTree.tree (Node.kv (2 ∷ []) (20 ∷ [])) Slot.vacant
      (Slot.occupied (ProofTree.tree (Node.hash (root_hash right_child)) Slot.vacant Slot.vacant 1)
        (root_hash right_child))
      2

sample_executes : execute true insert (map ok sample_ops) new ≡ ok (sample_tree, sample_map)
unfolding execute Tree.run Tree.step Tree.attach_child Tree.try_into_hash Tree.attach insert new
    hash kv_hash node_hash node_message kv_message le32 cmp toy_hasher checksum
sample_executes = refl

execute-Describes_example :
    (p : Partial) × Describes true insert (map ok sample_ops) new p (sample_tree, sample_map)
unfolding graft_free
execute-Describes_example =
    execute-Describes true insert (map ok sample_ops) new (sample_tree, sample_map) refl
      sample_executes

hash_partial-Covers_example : Broken ⊎ Covers (inorder sample_partial) (entries sample)
unfolding kv_hash
hash_partial-Covers_example =
    hash_partial-Covers sample_partial sample (tt, tt, ((refl, refl), tt, tt))
      (tt, tt, (length-node_hash _ _ _, tt, tt)) sample-IsSized refl

get-absent_example :
    get sample_map (1 ∷ [])
    ≡ (if gap_flag (1 ∷ []) sample_map.entries false then ok none else err Error.missing_data)
unfolding btree_get cmp
get-absent_example = get-absent sample_map (1 ∷ []) (tt, tt) refl

visit_all-Appends_example : Appends new (Node.kv (2 ∷ []) (20 ∷ []) ∷ Node.hash [] ∷ []) sample_map
unfolding insert new cmp
visit_all-Appends_example =
    visit_all-Appends new sample_map (Node.kv (2 ∷ []) (20 ∷ []) ∷ Node.hash [] ∷ []) tt refl

decode_all-encode_into_example : decode_all (encode_into sample_ops) ≡ map ok sample_ops
decode_all-encode_into_example =
    decode_all-encode_into sample_ops
      ((omega arith, omega arith), (length-node_hash _ _ _, (tt, tt)))

length-encode_example :
    length (encode (Op.push (Node.kv_hash null_hash)))
    ≡ encoding_length (Op.push (Node.kv_hash null_hash))
length-encode_example = length-encode (Op.push (Node.kv_hash null_hash)) refl

node_hash_injective_example :
    Broken ⊎ ((null_hash ≡ null_hash) × (null_hash ≡ null_hash) × (null_hash ≡ null_hash))
node_hash_injective_example =
    node_hash_injective null_hash null_hash null_hash null_hash null_hash null_hash refl refl refl

abbrev one : Bytes
one = 1 ∷ []

abbrev two : Bytes
two = 2 ∷ []

kv_hash_injective_example : Broken ⊎ ((one ≡ one) × (two ≡ two))
kv_hash_injective_example = kv_hash_injective (1 ∷ []) (2 ∷ []) (1 ∷ []) (2 ∷ []) one_two one_two

-- from the back, the range from 1 to 2 yields its only entry, and then proves that 1 is absent
abbrev whole_range : Range
whole_range = record {
  right_edge = false;
  lower = Bound.included (1 ∷ []);
  upper = Bound.included (2 ∷ []);
  done = false;
  iter = sample_map.entries;
}

backwards : (next_back sample_map whole_range).0 ≡ some (ok (2 ∷ [], 20 ∷ []))
unfolding next_back cmp
backwards = refl

backwards_end : (next_back sample_map (next_back sample_map whole_range).1).0 ≡ none
unfolding next_back contiguous_right cmp within
backwards_end = refl

-- a map whose entry has a gap to its left takes the flag of the map that it is joined with
abbrev gap_map : Map
gap_map = record {
  entries = (2 ∷ [], (false, 20 ∷ [])) ∷ (3 ∷ [], (true, 30 ∷ [])) ∷ [];
  right_edge = true;
}

joined :
    join sample_map gap_map
    ≡ ok (record {
      entries = (2 ∷ [], (true, 20 ∷ [])) ∷ (3 ∷ [], (true, 30 ∷ [])) ∷ [];
      right_edge = true;
    })
unfolding join cmp
joined = refl

-- a root with two abridged children
abbrev forked : ProofTree
forked =
    ProofTree.tree (Node.kv (2 ∷ []) [])
      (Slot.occupied (ProofTree.tree (Node.hash (1 ∷ [])) Slot.vacant Slot.vacant 1) (1 ∷ []))
      (Slot.occupied (ProofTree.tree (Node.hash (3 ∷ [])) Slot.vacant Slot.vacant 1) (3 ∷ [])) 2

layer-nodes_at_example : layer 3 forked 1 ≡ ok (nodes_at 1 forked)
unfolding hash
layer-nodes_at_example =
    layer-nodes_at 1 forked (((1 ∷ []), (3 ∷ []), refl, refl, (λ e. cc)), tt, tt)

abbrev two_keys : List QueryItem
two_keys = QueryItem.key (1 ∷ []) ∷ QueryItem.key (2 ∷ []) ∷ []

two_keys_found :
    verify_query (encode_into sample_ops) two_keys (root_hash sample) ≡ ok ((2 ∷ [], 20 ∷ []) ∷ [])
unfolding verify_query visit_query scan cmp_item decode_all items next decode read_exact encode_into
    encode encoding_length Encoding.new toy_hasher toy_ed checksum decode_u8 encode_u16 decode_u16
    execute Tree.run Tree.step Tree.attach_child Tree.try_into_hash Tree.attach hash kv_hash
    node_hash node_message kv_message le32 cmp
two_keys_found = refl

verify_query-asked_example : Broken ⊎ ((2 ∷ [], 20 ∷ []) ∷ [] ≡ asked two_keys (entries sample))
unfolding cmp cmp_item
verify_query-asked_example =
    verify_query-asked (encode_into sample_ops) two_keys sample ((2 ∷ [], 20 ∷ []) ∷ [])
      ((refl, tt), (tt, tt)) sample-IsSized (tt, (refl, tt), (tt, tt, tt)) sample_free
      two_keys_found

-- the range is open at the end of what the proof shows
range_refused :
    verify_query
      (encode_into sample_ops)
      (QueryItem.range (2 ∷ []) (4 ∷ []) ∷ [])
      (root_hash sample)
    ≡ err Error.missing_data
unfolding verify_query visit_query scan cmp_item decode_all items next decode read_exact encode_into
    encode encoding_length Encoding.new toy_hasher toy_ed checksum decode_u8 encode_u16 decode_u16
    execute Tree.run Tree.step Tree.attach_child Tree.try_into_hash Tree.attach hash kv_hash
    node_hash node_message kv_message le32 cmp
range_refused = refl
