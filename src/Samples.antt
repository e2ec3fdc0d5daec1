-- ===== src/Samples.antt =====
-- A hasher and a codec that evaluate, for the tests: a checksum that fills the 32 bytes, and
-- integers with their high byte first.
use merk.Prelude.{
  some, if◌then◌else◌, Bool, true, false, ℕ, zero, suc, ◌+◌, ◌*◌, ◌/◌, ◌%◌, ◌≡◌, refl, ap, [], ◌∷◌,
  ◌++◌, arith, replicate, length-replicate,
}
use merk.Bytes.{Bytes, cmp, eq_bytes}
use merk.Outcome.{Result, ok, err, Error, ◌>>=◌}
use merk.Hash.{Hasher}
use merk.Model.{Model, IsSized, kv_digest, root_hash}
use merk.Proofs.Encoding.{Ed}
use merk.Tree.{Tree, MaybeLink, Link}
use merk.Tree.Reps.{RepsTree}
use merk.Tree.Encoding.{EdOption}
use merk.Tree.Load.{Fetch}
use merk.Proofs.Query.Create.Program.{Stored}

unfoldable pub checksum : Bytes → ℕ
checksum [] = 17
checksum (b ∷ bytes) = (31 * checksum bytes + 7 * b + 11) % 251 + 1

instance unfoldable pub toy_hasher : Hasher
toy_hasher = record {
  digest = λ m. replicate 32 (checksum m);
  length-digest = λ m. length-replicate 32 (checksum m);
}

unfoldable pub decode_u8 : Bytes → Result (ℕ × Bytes)
decode_u8 [] = err Error.ed
decode_u8 (b ∷ rest) = ok (b, rest)

unfoldable pub encode_u16 : ℕ → Bytes
encode_u16 n = (n / 256) ∷ (n % 256) ∷ []

unfoldable pub decode_u16 : Bytes → Result (ℕ × Bytes)
decode_u16 [] = err Error.ed
decode_u16 (a ∷ []) = err Error.ed
decode_u16 (a ∷ b ∷ rest) = ok (a * 256 + b, rest)

pub decode_u16-encode_u16 :
    (n : ℕ) (rest : Bytes) → decode_u16 (encode_u16 n ++ rest) ≡ ok (n, rest)
unfolding decode_u16 encode_u16
decode_u16-encode_u16 n rest =
    let same : n / 256 * 256 + n % 256 ≡ n = omega arith in ap (λ n. ok (n, rest)) same

instance unfoldable pub toy_ed : Ed
unfolding decode_u8 encode_u16
toy_ed = record {
  decode_u8 = decode_u8;
  encode_u16 = encode_u16;
  decode_u16 = decode_u16;
  decode_u8-cons = λ b rest. refl;
  length-encode_u16 = λ n. refl;
  decode_u16-encode_u16 = λ n rest _. decode_u16-encode_u16 n rest;
}

unfoldable pub decode_slot : (Bytes → Result (Link × Bytes)) → Bytes → Result (MaybeLink × Bytes)
decode_slot decode [] = err Error.ed
decode_slot decode (zero ∷ rest) = ok (MaybeLink.unlinked, rest)
decode_slot decode (suc n ∷ rest) = do (l, rest') ← decode rest; ok (MaybeLink.linked l, rest')

instance unfoldable pub toy_option : EdOption
unfolding decode_slot
toy_option = record {
  encode_none = 0 ∷ [];
  encode_some = λ bytes. 1 ∷ bytes;
  decode_option = decode_slot;
  decode_option-encode_none = λ decode rest. refl;
  decode_option-encode_some = λ decode bytes rest l e. rw e refl;
}

-- the root 2 with a child 3 on its right
abbrev pub right_child : Model
right_child = Model.bin (3 ∷ []) (30 ∷ []) Model.leaf Model.leaf

abbrev pub sample : Model
sample = Model.bin (2 ∷ []) (20 ∷ []) Model.leaf right_child

pub sample-IsSized : IsSized sample
sample-IsSized = (omega arith, omega arith, tt, (omega arith, omega arith, tt, tt))

-- those trees in memory: the child before and after it is committed
abbrev pub child_tree : Tree
child_tree =
    Tree.tree (record { key = 3 ∷ []; value = 30 ∷ []; hash = kv_digest (3 ∷ []) (30 ∷ []) })
      MaybeLink.unlinked MaybeLink.unlinked

abbrev pub root_with : MaybeLink → Tree
root_with right =
    Tree.tree (record { key = 2 ∷ []; value = 20 ∷ []; hash = kv_digest (2 ∷ []) (20 ∷ []) })
      MaybeLink.unlinked right

abbrev pub stale_tree : Tree
stale_tree = root_with (MaybeLink.linked (Link.modified 1 (0, 0) child_tree))

abbrev pub fresh_tree : Tree
fresh_tree = root_with (MaybeLink.linked (Link.loaded (root_hash right_child) (0, 0) child_tree))

abbrev pub pruned_tree : Tree
pruned_tree = root_with (MaybeLink.linked (Link.reference (root_hash right_child) (0, 0) (3 ∷ [])))

pub child-Reps : (stale : Bool) → RepsTree stale child_tree right_child
child-Reps stale = (refl, refl, refl, refl, refl)

pub stale-Reps : RepsTree true stale_tree sample
stale-Reps = (refl, refl, refl, refl, (refl, refl, child-Reps true))

pub fresh-Reps : RepsTree false fresh_tree sample
fresh-Reps = (refl, refl, refl, refl, (refl, refl, child-Reps false))

pub pruned-Reps : RepsTree false pruned_tree sample
pruned-Reps = (refl, refl, refl, refl, (refl, refl, refl))

-- the store after a commit of the sample
abbrev pub store : Fetch
store = record {
  fetch_by_key = λ k. ok (some (if eq_bytes k (3 ∷ []) then child_tree else fresh_tree));
}

pub store-Stored : Stored store sample
unfolding cmp
store-Stored = ((fresh_tree, refl, fresh-Reps), tt, ((child_tree, refl, child-Reps false), tt, tt))
