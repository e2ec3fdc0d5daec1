-- ===== src/Proofs/Query/Create/Program.antt =====
-- What `create_proof` writes: the program of a partial tree that has the root hash of the tree.
use merk.Prelude.{
  ◌≡◌, refl, sym, ap, ◌∙◌, true, false, List, [], ◌∷◌, ◌++◌, some, length, All, append-nil,
}
use merk.Bytes.{Bytes}
use merk.Outcome.{Result, ok}
use merk.Hash.{Hasher}
use merk.Model.{Model, entries, root_hash}
use merk.Model.Cover.{Covers, HasHash, length-root_hash}
use merk.Proofs.{Node, Op}
use merk.Proofs.Tree.Partial.{Partial, inorder, hash_partial, Leafy}
use merk.Proofs.Tree.Postfix.{mark, program}
use merk.Proofs.Query.Item.{QueryItem}
use merk.Proofs.Query.Create.{Proof, after, hash_proof}
use merk.Proofs.Query.Create.Split.{Covered}
use merk.Proofs.Query.Create.Answers.{Answers}
use merk.Tree.{Tree, MaybeLink, Link}
use merk.Tree.Reps.{RepsTree, RepsLink}
use merk.Tree.Load.{Fetch}

pub after-program : (p : Partial) (op : Op) → after (program p) op ≡ mark p op
after-program Partial.absent op = refl
after-program (Partial.node n l r) op = nonempty (program l) (Op.push n) _ op
  where
    nonempty :
        (xs : List Op) (y : Op) (ys : List Op) (op : Op) → after (xs ++ (y ∷ ys)) op ≡ op ∷ []
    nonempty [] y ys op = refl
    nonempty (x ∷ xs) y ys op = refl

module _ ⦃hasher : Hasher⦄ (source : Fetch) where
  -- The source holds, under its key, a tree with fresh links for every subtree.
  abbrev pub Stored : Model → Type 0
  Stored Model.leaf = Unit
  Stored (Model.bin k v l r) =
      ((c : Tree) × (source.fetch_by_key k ≡ ok (some c)) × RepsTree false c (Model.bin k v l r))
      × Stored l
      × Stored r

  -- A proof is the program of a partial tree with the model's root hash.
  -- Its nodes are entries of the model, with gaps, and they answer every key that is asked for.
  pub record Proves (m : Model) (query : List QueryItem) (proof : Proof) : Type 0 where
    pub partial : Partial
    pub operators : proof.0 ≡ program partial
    pub hashes : hash_partial partial ≡ ok (root_hash m)
    pub leafy : Leafy partial
    pub sized : All HasHash (inorder partial)
    pub covers : Covers (inorder partial) (entries m)
    pub answers : (k : Bytes) → Covered k query → Answers k proof.1.0 proof.1.1 (inorder partial)

  -- a proof was made, and the tree still stands for the model
  abbrev pub Created : Result (Tree × Proof) → Model → List QueryItem → Type 0
  Created r m query =
      (t : Tree) × (proof : Proof) × (r ≡ ok (t, proof)) × RepsTree false t m × Proves m query proof

  -- what a child's proof is, for the link that it is made from
  abbrev pub CreatedChild :
      Result (Tree × Proof) → (MaybeLink → Tree) → Model → List QueryItem → Type 0
  CreatedChild r around m query =
      (l : MaybeLink) × (proof : Proof) × (r ≡ ok (around l, proof))
      × RepsLink false l m
      × Proves m query proof

  hash_node-Proves :
      (h : Bytes) (m : Model)
      → h ≡ root_hash m
      → Proves m [] (Op.push (Node.hash h) ∷ [], (false, false))
  hash_node-Proves h m e = record {
    partial = Partial.node (Node.hash h) Partial.absent Partial.absent;
    operators = refl;
    hashes = ap ok e;
    leafy = ((refl, refl), tt, tt);
    sized = (ap length e ∙ length-root_hash m, tt);
    covers = (entries m, [], sym (append-nil (entries m)), refl);
    answers = λ k c. elim c [ ];
  }

  -- a leaf has no nodes, and its flags say that any key was asked for
  pub leaf-Proves :
      (m : Model) (query : List QueryItem) → m ≡ Model.leaf → Proves m query ([], (true, true))
  leaf-Proves m query e = record {
    partial = Partial.absent;
    operators = refl;
    hashes = rw e refl;
    leafy = tt;
    sized = tt;
    covers = rw e refl;
    answers = λ k c. Answers.nothing refl refl refl;
  }

  pub hash_proof-Proves :
      (l : MaybeLink) (m : Model)
      → RepsLink false l m
      → (proof : Proof) × (hash_proof l ≡ ok proof) × Proves m [] proof
  hash_proof-Proves MaybeLink.unlinked m e = (
    _,
    refl,
    record {
      partial = Partial.absent;
      operators = refl;
      hashes = rw e refl;
      leafy = tt;
      sized = tt;
      covers = rw e refl;
      answers = λ k c. elim c [ ];
    },
  )
  hash_proof-Proves (MaybeLink.linked (Link.reference h hs k)) m e =
      (_, refl, hash_node-Proves h m e.0)
  hash_proof-Proves (MaybeLink.linked (Link.modified n hs t)) m e = cc
  hash_proof-Proves (MaybeLink.linked (Link.uncommitted h hs t)) m e = elim e [ ]
  hash_proof-Proves (MaybeLink.linked (Link.loaded h hs t)) m e =
      (_, refl, hash_node-Proves h m e.0)
