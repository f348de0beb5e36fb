-- ===== src/MerkleTree.antt =====
-- Code/PrivateChain/MerkleTree: the class `MerkleTree` of MerkleTree.hpp with MerkleTree_Build.cpp,
-- MerkleTree_Core.cpp and the traversals of MerkleTree_Utils.cpp.
-- A `Node` without children is a `leaf`, one with both children a `fork`: the code makes no other.
-- A fork's blockID is -1 and its value is "", so neither is kept. Parent pointers are the list of
-- frames between a node and the root (Prover); memory is not modelled, so `Free` is not either.
pub mod Prover
pub mod Levels
pub mod Search
pub mod Complete
pub mod Binding
pub mod Roots
pub mod Object
mod Tests
use hybrid_blockchain_for_re.Prelude.{
  ℕ, zero, suc, ◌+◌, ◌-◌, ◌≤◌, ◌<◌, Bool, true, false, Option, none, some, List, [], ◌∷◌, ◌++◌,
  Text, ℤ, pos, negsuc, length, take, drop, replicate, is_empty, ltb, leb, if◌then◌else◌, sub_ℕ,
}
use hybrid_blockchain_for_re.Sha256.{Digest, sha256}

-- struct Node: blockID, value and hashValue of a leaf; hashValue, left and right of a fork.
pub data Node : Type 0 where
  leaf : ℤ → Text → Text → Node
  fork : Text → Node → Node → Node

-- node->hashValue
abbrev pub hash_of : Node → Text
hash_of (leaf id v h) = h
hash_of (fork h l r) = h

-- MerkleTree::CloneHashNode: a leaf that has the hash of the node that it stands for.
unfoldable pub clone_hash_node : Node → Node
clone_hash_node source = leaf (negsuc 0) [] (hash_of source)

-- The object. `blockNo` is the index of the last block, -1 where there is none.
pub record MerkleTree : Type 0 where
  pub root : Option Node
  pub block_size : ℤ
  pub block_no : ℤ
  pub blocks : List Text

-- MerkleTree::MerkleTree(int Tsize)
unfoldable pub new_tree : ℤ → MerkleTree
new_tree t_size = record { root = none; block_size = t_size; block_no = negsuc 0; blocks = [] }

module _ (d : Digest) where
  -- The first loop of BuildFromBlocks: one leaf for each block, numbered from `i`.
  unfoldable pub make_leaves : ℕ → List Text → List Node
  make_leaves i [] = []
  make_leaves i (b ∷ bs) = leaf (pos i) b (sha256 d b) ∷ make_leaves (suc i) bs

  -- The node that the inner loop makes of two neighbours.
  unfoldable pub parent_of : Node → Node → Node
  parent_of l r = fork (sha256 d (hash_of l ++ hash_of r)) l r

  -- One round of the outer loop: neighbours are paired, and an odd last node with its clone.
  unfoldable pub pair_level : List Node → List Node
  unfolding parent_of clone_hash_node
  pair_level [] = []
  pair_level (x ∷ []) = parent_of x (clone_hash_node x) ∷ []
  pair_level (x ∷ y ∷ rest) = parent_of x y ∷ pair_level rest

  -- `while(current.size() > 1)`, on fuel: `none` is a run that ends with no root.
  unfoldable pub build_levels : ℕ → List Node → Option Node
  unfolding pair_level
  build_levels zero current = none
  build_levels (suc f) [] = none
  build_levels (suc f) (x ∷ []) = some x
  build_levels (suc f) (x ∷ y ∷ rest) = build_levels f (pair_level (x ∷ y ∷ rest))

  -- MerkleTree::BuildFromBlocks
  unfoldable pub build_from_blocks : List Text → Option Node
  unfolding build_levels make_leaves
  build_from_blocks source = build_levels (length source) (make_leaves 0 source)

  -- The common end of Build and Append: the new blocks and their tree are stored together.
  unfoldable pub store_blocks : MerkleTree → List Text → Bool × MerkleTree
  unfolding build_from_blocks
  store_blocks t new_blocks = elim (build_from_blocks new_blocks) [
    | none ↦ (false, t)
    | some new_root ↦ (
      true,
      record t {
        root = some new_root;
        block_no = sub_ℕ (length new_blocks) 1;
        blocks = new_blocks;
      },
    )
  ]

  -- MerkleTree::Append
  unfoldable pub append : MerkleTree → Text → Bool × MerkleTree
  unfolding store_blocks
  append t str_block =
      if is_empty str_block then (false, t) else store_blocks t (t.blocks ++ str_block ∷ [])

-- The loop of MerkleTree::Build over the file: chunks of `size` bytes, the last one filled up with
-- 'E'. A read of no bytes, or of fewer than `size`, ends it. The fuel bounds the reads.
unfoldable pub read_chunks : ℕ → ℕ → Text → List Text
read_chunks zero size content = []
read_chunks (suc f) size content =
    let chunk = take size content in
    let count = length chunk in
    let more = chunk ∷ read_chunks f size (drop size content) in
    if leb count 0
    then []
    else if ltb count size
    then (chunk ++ replicate (size - count) b'E') ∷ []
    else more

-- The positive part of `blockSize`, which has been tested before it is used as a size.
abbrev pub size_of : ℤ → ℕ
size_of (pos n) = n
size_of (negsuc n) = 0

-- The blocks that Build reads from a file.
unfoldable pub file_blocks : ℤ → Text → List Text
unfolding read_chunks
file_blocks block_size content = read_chunks (suc (length content)) (size_of block_size) content

-- MerkleTree::Build. `none` is a null file name or a file that does not open.
unfoldable pub build : Digest → MerkleTree → Option Text → Bool × MerkleTree
unfolding file_blocks store_blocks
build d t none = (false, t)
build d t (some content) =
    let new_blocks = file_blocks t.block_size content in
    if leb (size_of t.block_size) 0
    then (false, t)
    else if is_empty new_blocks
    then (false, t)
    else store_blocks d t new_blocks

-- MerkleTree::GetRootHash
abbrev pub root_hash_of : Option Node → Text
root_hash_of none = []
root_hash_of (some n) = hash_of n

unfoldable pub get_root_hash : MerkleTree → Text
get_root_hash t = root_hash_of t.root

-- MerkleTree::GetBlockCount
unfoldable pub get_block_count : MerkleTree → ℕ
get_block_count t = length t.blocks

-- MerkleTree::Traverse: the lines that it prints, a leaf's number and hash.
unfoldable pub traverse : Node → List (ℤ × Text)
traverse (leaf (pos i) v h) = (pos i, h) ∷ []
traverse (leaf (negsuc i) v h) = []
traverse (fork h l r) = traverse l ++ traverse r

-- MerkleTree::Traverse2: the hashes, children before their parent.
unfoldable pub traverse2 : Node → List Text
traverse2 (leaf id v h) = h ∷ []
traverse2 (fork h l r) = traverse2 l ++ (traverse2 r ++ h ∷ [])
