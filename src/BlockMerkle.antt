-- ===== src/BlockMerkle.antt =====
-- Code/PrivateChain/Server/block_merkle.cpp: the Merkle tree of one block's fields. The structs are
-- those of block_data.hpp and block_merkle.hpp.
pub mod Checker
pub mod Leaves
pub mod Encoding
mod Tests
use hybrid_blockchain_for_re.Prelude.{
  ℕ, zero, suc, ◌+◌, ◌-◌, ◌*◌, ◌/◌, ◌%◌, Bool, true, false, ◌||◌, ◌&&◌, not, Option, none, some,
  List, [], ◌∷◌, ◌++◌, Text, codes, ℤ, pos, negsuc, decimal, text_eq, is_empty, length, take, drop,
  ltb, ◌==◌, if◌then◌else◌,
}
use hybrid_blockchain_for_re.Sha256.{Digest, sha256}
use hybrid_blockchain_for_re.MerkleTree.{MerkleTree, new_tree, append, get_root_hash}
use hybrid_blockchain_for_re.MerkleTree.Prover.{prover_block}

pub record MerkleField : Type 0 where
  pub name : Text
  pub value : Text

pub record MerkleLeafRecord : Type 0 where
  pub leaf_index : ℤ
  pub field_name : Text
  pub leaf_value : Text
  pub leaf_hash : Text
  pub proof : Text
  pub verified : Bool

pub record BlockMerkleResult : Type 0 where
  pub canonical_record : Text
  pub root_hash : Text
  pub verified : Bool
  pub leaves : List MerkleLeafRecord

abbrev pub colon : ℕ
colon = b':'

abbrev pub newline : ℕ
newline = 10

-- leaf_input: the name, the value's size, the value.
unfoldable pub leaf_input : MerkleField → Text
leaf_input f = f.name ++ colon ∷ (decimal (length f.value) ++ colon ∷ f.value)

-- canonical_record_from_fields
unfoldable pub canonical_record_from_fields : List MerkleField → Text
canonical_record_from_fields [] = []
canonical_record_from_fields (f ∷ fields) =
    f.name
    ++ colon
      ∷ (decimal (length f.value)
          ++ colon ∷ (f.value ++ newline ∷ canonical_record_from_fields fields))

-- HASH_ENTRY_SIZE
abbrev pub hash_entry_size : ℕ
hash_entry_size = 2 + 2 * 32

abbrev is_direction : Text → Bool
is_direction s = text_eq s (codes "L:") || text_eq s (codes "R:")

-- `current == root_hash`; a bad direction has returned false before it.
unfoldable pub same_hash : Option Text → Text → Bool
same_hash none root_hash = false
same_hash (some current) root_hash = text_eq current root_hash

-- The last loop: whether every leaf was verified.
unfoldable pub all_verified : List MerkleLeafRecord → Bool
all_verified [] = true
all_verified (leaf ∷ leaves) = leaf.verified && all_verified leaves

module _ (d : Digest) where
  -- The loop of verify_proof over what is left of the proof, `proof.substr(offset)`; its size is a
  -- multiple of an entry's, so there is one round for each entry left.
  unfoldable pub proof_loop : ℕ → Text → Text → Option Text
  proof_loop zero rest current = some current
  proof_loop (suc entries) rest current =
      let direction = take 2 rest in
      let sibling = take (2 * 32) (drop 2 rest) in
      let next = proof_loop entries (drop hash_entry_size rest) (
        if text_eq direction (codes "L:")
        then sha256 d (sibling ++ current)
        else sha256 d (current ++ sibling)) in
      if is_direction direction then next else none

  -- verify_proof
  unfoldable pub verify_proof : MerkleTree → Text → Bool
  unfolding proof_loop get_root_hash same_hash
  verify_proof tree proof =
      let root_hash = get_root_hash tree in
      let recomputed =
        proof_loop (length proof / hash_entry_size - 1) (drop hash_entry_size proof)
          (take (2 * 32) (drop 2 proof)) in
      if is_empty root_hash
        || (ltb (length proof) hash_entry_size || not (length proof % hash_entry_size == 0))
      then false
      else if is_direction (take 2 proof)
      then same_hash recomputed root_hash
      else false

  -- sha256_value
  unfoldable pub sha256_value : Text → Text
  sha256_value value = sha256 d value

  -- The first loop of build_block_merkle: a field with no name, or one that Append refuses, ends it.
  unfoldable pub append_fields : MerkleTree → List MerkleField → Option MerkleTree
  unfolding leaf_input
  append_fields tree [] = some tree
  append_fields tree (f ∷ fields) =
      let (appended, next) = append d tree (leaf_input f) in
      let rest = append_fields next fields in if is_empty f.name || not appended then none else rest

  -- The second loop: the records of the leaves from `index` on.
  unfoldable pub leaf_records : MerkleTree → ℕ → List MerkleField → List MerkleLeafRecord
  unfolding sha256_value verify_proof
  leaf_records tree index [] = []
  leaf_records tree index (f ∷ fields) =
      let proof = prover_block tree (pos index) in
      record {
        leaf_index = pos index;
        field_name = f.name;
        leaf_value = f.value;
        leaf_hash = sha256_value (leaf_input f);
        proof = proof;
        verified = verify_proof tree proof;
      }
      ∷ leaf_records tree (suc index) fields

  -- build_block_merkle
  unfoldable pub build_block_merkle : List MerkleField → Option BlockMerkleResult
  build_block_merkle fields =
      if is_empty fields then none else elim (append_fields (new_tree (pos 1)) fields) [
        | none ↦ none
        | some tree ↦
            let leaves = leaf_records tree 0 fields in
            some (record {
              canonical_record = canonical_record_from_fields fields;
              root_hash = get_root_hash tree;
              verified = not (is_empty leaves) && all_verified leaves;
              leaves = leaves;
            })
      ]
