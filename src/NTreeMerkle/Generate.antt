-- ===== src/NTreeMerkle/Generate.antt =====
-- Code/MerkleTreeNTree/src/NTreeMerkle.cpp: the nodes and links that a built tree keeps, and the
-- proof that `generate_proof` reads from them.
use hybrid_blockchain_for_re.Prelude.{
  ℕ, zero, suc, Bool, Option, none, some, List, [], ◌∷◌, Text, length, get_elem?, ◌==◌,
  if◌then◌else◌, ◌⊎◌, inl, inr,
}
use hybrid_blockchain_for_re.NTreeMerkle.{ProofStep, Proof}

pub record Node : Type 0 where
  pub id : ℕ
  pub level : ℕ
  pub index : ℕ
  pub leaf : Bool
  pub padding : Bool
  pub value : Text
  pub hash : Text
  pub children : List ℕ
  pub duplicate_of : Option ℕ

pub record ParentLink : Type 0 where
  pub parent_id : ℕ
  pub child_index : ℕ

-- The members of the class; a later link of a node stands before an earlier one.
pub record NTree : Type 0 where
  pub nodes : List Node
  pub leaf_ids : List ℕ
  pub root_id : Option ℕ
  pub parent_links : List (ℕ × ParentLink)

-- What generate_proof throws; `no_end` stands for a walk that does not come to the root.
pub data GenerateError : Type 0 where
  unavailable : GenerateError
  missing_link : GenerateError
  outside : GenerateError
  no_end : GenerateError

abbrev pub find_link : ℕ → List (ℕ × ParentLink) → Option ParentLink
find_link id [] = none
find_link id ((child, link) ∷ links) = if child == id then some link else find_link id links

abbrev and_more : Text → Option (List Text) → Option (List Text)
and_more h none = none
and_more h (some hashes) = some (h ∷ hashes)

-- The hash of one node in front of those of the others; nodes_.at throws outside of the nodes.
abbrev pub with_hash : Option Node → Option (List Text) → Option (List Text)
with_hash none hashes = none
with_hash (some node) hashes = and_more node.hash hashes

-- The hashes of the nodes with the ids, as join_hashes reads them.
unfoldable pub hashes_of : List Node → List ℕ → Option (List Text)
hashes_of nodes [] = some []
hashes_of nodes (id ∷ ids) = with_hash (get_elem? nodes id) (hashes_of nodes ids)

-- The hashes of a step: of every child but the one at `child`, from `index` on.
unfoldable pub sibling_hashes_of : List Node → ℕ → ℕ → List ℕ → Option (List Text)
sibling_hashes_of nodes index child [] = some []
sibling_hashes_of nodes index child (id ∷ ids) =
    let rest = sibling_hashes_of nodes (suc index) child ids in
    if index == child then rest else with_hash (get_elem? nodes id) rest

abbrev pub and_step :
    ℕ → ℕ → Option (List Text) → GenerateError ⊎ List ProofStep → GenerateError ⊎ List ProofStep
and_step level child none steps = inl outside
and_step level child (some hashes) (inl e) = inl e
and_step level child (some hashes) (inr steps) =
    inr (record { level = level; child_index = child; sibling_hashes = hashes } ∷ steps)

abbrev pub with_parent : ParentLink → Option Node → GenerateError ⊎ (ParentLink × Node)
with_parent link none = inl outside
with_parent link (some parent) = inr (link, parent)

abbrev pub parent_at : List Node → Option ParentLink → GenerateError ⊎ (ParentLink × Node)
parent_at nodes none = inl missing_link
parent_at nodes (some link) = with_parent link (get_elem? nodes link.parent_id)

-- The link of a node and the node that it names.
unfoldable pub find_parent : NTree → ℕ → GenerateError ⊎ (ParentLink × Node)
find_parent tree id = parent_at tree.nodes (find_link id tree.parent_links)

-- The loop from a node up to the root.
unfoldable pub steps_to_root : NTree → ℕ → ℕ → ℕ → GenerateError ⊎ List ProofStep
steps_to_root tree root zero current = if current == root then inr [] else inl no_end
steps_to_root tree root (suc fuel) current =
    if current == root then inr [] else elim (find_parent tree current) [
      | inl e ↦ inl e
      | inr (link, parent) ↦
          and_step parent.level link.child_index
            (sibling_hashes_of tree.nodes 0 link.child_index parent.children)
            (steps_to_root tree root fuel parent.id)
    ]

abbrev pub parts_of : ℕ → Node → Node → List ProofStep → Proof
parts_of leaf_index leaf root steps = record {
  leaf_index = leaf_index;
  leaf_value = leaf.value;
  leaf_hash = leaf.hash;
  root_hash = root.hash;
  steps = steps;
}

abbrev pub with_steps : ℕ → Node → Node → GenerateError ⊎ List ProofStep → GenerateError ⊎ Proof
with_steps leaf_index leaf root (inl e) = inl e
with_steps leaf_index leaf root (inr steps) = inr (parts_of leaf_index leaf root steps)

abbrev pub proof_for : NTree → ℕ → ℕ → Option Node → Option Node → GenerateError ⊎ Proof
proof_for tree leaf_index root none top = inl outside
proof_for tree leaf_index root (some leaf) none = inl outside
proof_for tree leaf_index root (some leaf) (some top) =
    with_steps leaf_index leaf top (steps_to_root tree root (length tree.nodes) leaf.id)

abbrev pub from_ids : NTree → ℕ → Option ℕ → Option ℕ → GenerateError ⊎ Proof
from_ids tree leaf_index none id? = inl unavailable
from_ids tree leaf_index (some root) none = inl unavailable
from_ids tree leaf_index (some root) (some id) =
    proof_for tree leaf_index root (get_elem? tree.nodes id) (get_elem? tree.nodes root)

-- NTreeMerkle::generate_proof; the tests at its start find a root and a leaf with the index.
unfoldable pub generate_proof : NTree → ℕ → GenerateError ⊎ Proof
generate_proof tree leaf_index =
    from_ids tree leaf_index tree.root_id (get_elem? tree.leaf_ids leaf_index)

abbrev pub hash_of : Option Node → Option Text
hash_of none = none
hash_of (some node) = some node.hash

abbrev pub hash_at : List Node → Option ℕ → Option Text
hash_at nodes none = none
hash_at nodes (some root) = hash_of (get_elem? nodes root)

-- NTreeMerkle::root_hash, where there is a root: the empty text of a tree without one is `none`.
unfoldable pub built_root_hash : NTree → Option Text
built_root_hash tree = hash_at tree.nodes tree.root_id
