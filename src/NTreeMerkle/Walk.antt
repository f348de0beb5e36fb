-- ===== src/NTreeMerkle/Walk.antt =====
-- Code/MerkleTreeNTree/src/NTreeMerkle.cpp: what `generate_proof` has read when it returns a proof.
use hybrid_blockchain_for_re.Prelude.{
  ℕ, ◌≡◌, refl, ap, sym, ◌∙◌, true, Option, none, some, List, ◌∷◌, Text, length, get_elem?, arith,
  ◌==◌, ◌⊎◌, inl, inr,
}
use hybrid_blockchain_for_re.NTreeMerkle.{ProofStep, Proof}
use hybrid_blockchain_for_re.NTreeMerkle.Generate.{
  Node, ParentLink, NTree, GenerateError, with_parent, parent_at, and_step, with_steps,
  steps_to_root, proof_for, from_ids, hash_of, hash_at, built_root_hash,
}

pub with_parent-inr :
    (l link : ParentLink) (o : Option Node) (parent : Node)
    → with_parent l o ≡ inr (link, parent)
    → (l ≡ link) × (o ≡ some parent)
with_parent-inr l link none parent e = absurd (let bad = e in cc bad)
with_parent-inr l link (some p) parent e =
    let same : ◌≡◌ {A = ParentLink × Node} (l, p) (link, parent) = cc e in
    (ap (λ t. t.0) same, ap (λ t. some t.1) same)

pub parent_at-inr :
    (nodes : List Node) (o : Option ParentLink) (link : ParentLink) (parent : Node)
    → parent_at nodes o ≡ inr (link, parent)
    → (o ≡ some link) × (get_elem? nodes link.parent_id ≡ some parent)
parent_at-inr nodes none link parent e = absurd (let bad = e in cc bad)
parent_at-inr nodes (some l) link parent e =
    let (same, found) = with_parent-inr l link (get_elem? nodes l.parent_id) parent e in
    (ap some same, ap (λ k. get_elem? nodes k.parent_id) (sym same) ∙ found)

pub and_step-inr :
    (level child : ℕ) (o : Option (List Text)) (r : GenerateError ⊎ List ProofStep)
    (steps : List ProofStep)
    → and_step level child o r ≡ inr steps
    → (hashes : List Text) × (rest : List ProofStep) × (o ≡ some hashes)
      × (r ≡ inr rest)
      × (record { level = level; child_index = child; sibling_hashes = hashes } ∷ rest ≡ steps)
and_step-inr level child none r steps e = absurd (let bad = e in cc bad)
and_step-inr level child (some hashes) (inl x) steps e = absurd (let bad = e in cc bad)
and_step-inr level child (some hashes) (inr rest) steps e = (hashes, rest, refl, refl, cc e)

pub one_hash : (o : Option Node) (n m : Node) → o ≡ some n → o ≡ some m → n.hash ≡ m.hash
one_hash o n m e f =
    let both : ◌≡◌ {A = Option Node} (some n) (some m) = sym e ∙ f in
    let same : n ≡ m = cc both in ap (λ x. x.hash) same

pub same_node :
    (nodes : List Node) (i j : ℕ) (n m : Node)
    → (i == j) ≡ true
    → get_elem? nodes i ≡ some n
    → get_elem? nodes j ≡ some m
    → n.hash ≡ m.hash
same_node nodes i j n m here e f =
    let same : i ≡ j = ground (arith, here) in
    one_hash (get_elem? nodes j) n m (ap (get_elem? nodes) (sym same) ∙ e) f

pub sum_cases : {A B : Type 0} → (r : A ⊎ B) → ((a : A) × (r ≡ inl a)) ⊎ ((b : B) × (r ≡ inr b))
sum_cases (inl a) = inl (a, refl)
sum_cases (inr b) = inr (b, refl)

pub proof_for-inr :
    (tree : NTree) (i root : ℕ) (o q : Option Node) (p : Proof)
    → proof_for tree i root o q ≡ inr p
    → (leaf : Node) × (top : Node) × (steps : List ProofStep) × (o ≡ some leaf)
      × (q ≡ some top)
      × (steps_to_root tree root (length tree.nodes) leaf.id ≡ inr steps)
      × (with_steps i leaf top (inr steps) ≡ inr p)
proof_for-inr tree i root none q p e = absurd (let bad = e in cc bad)
proof_for-inr tree i root (some leaf) none p e = absurd (let bad = e in cc bad)
proof_for-inr tree i root (some leaf) (some top) p e =
    elim (sum_cases (steps_to_root tree root (length tree.nodes) leaf.id)) [
      | inl (x, failed) ↦ absurd (let bad = ap (with_steps i leaf top) (sym failed) ∙ e in cc bad)
      | inr (steps, walked) ↦
          (leaf, top, steps, refl, refl, walked, ap (with_steps i leaf top) (sym walked) ∙ e)
    ]

pub from_ids-inr :
    (tree : NTree) (i : ℕ) (o q : Option ℕ) (p : Proof)
    → from_ids tree i o q ≡ inr p
    → (root : ℕ) × (id : ℕ) × (o ≡ some root)
      × (q ≡ some id)
      × (proof_for tree i root (get_elem? tree.nodes id) (get_elem? tree.nodes root) ≡ inr p)
from_ids-inr tree i none q p e = absurd (let bad = e in cc bad)
from_ids-inr tree i (some root) none p e = absurd (let bad = e in cc bad)
from_ids-inr tree i (some root) (some id) p e = (root, id, refl, refl, e)

pub hash_at-some :
    (nodes : List Node) (o : Option ℕ) (root : ℕ) (top : Node)
    → o ≡ some root
    → get_elem? nodes root ≡ some top
    → hash_at nodes o ≡ some top.hash
hash_at-some nodes none root top e f = absurd (let bad = e in cc bad)
hash_at-some nodes (some r) root top e f =
    let same : r ≡ root = cc e in ap (λ i. hash_of (get_elem? nodes i)) same ∙ ap hash_of f

pub built_root_hash-some :
    (tree : NTree) (root : ℕ) (top : Node)
    → tree.root_id ≡ some root
    → get_elem? tree.nodes root ≡ some top
    → built_root_hash tree ≡ some top.hash
unfolding built_root_hash
built_root_hash-some tree root top e f = hash_at-some tree.nodes tree.root_id root top e f
