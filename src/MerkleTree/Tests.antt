-- ===== src/MerkleTree/Tests.antt =====
-- Runs of Code/PrivateChain/MerkleTree on small trees, and each theorem at an input.
use hybrid_blockchain_for_re.Prelude.{
  ◌≡◌, refl, Bool, true, false, Option, none, some, List, [], ◌∷◌, ◌++◌, Text, codes, pos, negsuc,
  take, drop, text_eq, arith, ◌⊎◌,
}
use hybrid_blockchain_for_re.Sha256.{Digest, sha256}
use hybrid_blockchain_for_re.Sha256.Hex.{Collision}
use hybrid_blockchain_for_re.Sha256.Sample.{sample_digest, sample_hash}
use hybrid_blockchain_for_re.MerkleTree.{
  Node, leaf, hash_of, MerkleTree, new_tree, append, build, build_from_blocks, get_root_hash,
  get_block_count,
}
use hybrid_blockchain_for_re.MerkleTree.Prover.{prover_block, verify, read_block, hash_size}
use hybrid_blockchain_for_re.MerkleTree.Levels.{IsBuilt}
use hybrid_blockchain_for_re.MerkleTree.Complete.{verify-prover_block}
use hybrid_blockchain_for_re.MerkleTree.Binding.{verified_texts, claimed_hash, verify_binds}
use hybrid_blockchain_for_re.MerkleTree.Roots.{hashed_texts, root_binds, root-duplicate_last}
use hybrid_blockchain_for_re.MerkleTree.Object.{Chunked, build-Chunked}

-- All that a run computes with.
program : Unit {0}
unfolding new_tree append build build_from_blocks prover_block verify read_block sha256 sample_hash
    text_eq get_root_hash get_block_count
program = tt

abbrev three : List Text
three = codes "a" ∷ codes "b" ∷ codes "c" ∷ []

abbrev d : Digest
d = sample_digest

abbrev empty_tree : MerkleTree
empty_tree = record { root = none; block_size = pos 2; block_no = negsuc 0; blocks = [] }

abbrev tree : MerkleTree
tree = (append d (append d (append d empty_tree (codes "a")).1 (codes "b")).1 (codes "c")).1

tree_blocks : tree.blocks ≡ three
unfolding program
tree_blocks = refl

-- "L:" of the leaf, then the clone on the right, then the pair on the left.
proof_of_third :
    prover_block tree (pos 2)
    ≡ codes "L:"
      ++ sha256 d (codes "c")
      ++ codes "R:"
      ++ sha256 d (codes "c")
      ++ codes "L:"
      ++ sha256 d (sha256 d (codes "a") ++ sha256 d (codes "b"))
unfolding program
proof_of_third = refl

proof_accepted : verify d tree (prover_block tree (pos 2)) ≡ true
unfolding program
proof_accepted = refl

forged_refused : verify d tree (prover_block tree (pos 1) ++ codes "L:") ≡ false
unfolding program
forged_refused = refl

read_missing : read_block tree (pos 3) ≡ none
unfolding program
read_missing = refl

tree-IsBuilt : IsBuilt d tree
unfolding program
tree-IsBuilt = record { root_eq = refl; last_eq = refl }

verify-prover_block_example :
    (verify d tree (prover_block tree (pos 1)) ≡ true)
    × (take hash_size (drop 2 (prover_block tree (pos 1))) ≡ sha256 d (codes "b"))
unfolding program
verify-prover_block_example = verify-prover_block d tree 1 (codes "b") tree-IsBuilt refl

-- A run of the test gives a root; this reads it.
abbrev root_or_empty : Option Node → Node
root_or_empty none = leaf (negsuc 0) [] []
root_or_empty (some n) = n

abbrev root_for : List Text → Node
root_for bs = root_or_empty (build_from_blocks d bs)

verify_binds_example :
    (claimed_hash (prover_block tree (pos 0)) ≡ claimed_hash (prover_block tree (pos 0)))
    ⊎ Collision d
        (verified_texts d (prover_block tree (pos 0)))
        (verified_texts d (prover_block tree (pos 0)))
unfolding program
verify_binds_example =
    verify_binds d tree (prover_block tree (pos 0)) (prover_block tree (pos 0)) refl refl refl
      (refl, (refl, (refl, tt)))

root_binds_example : (three ≡ three) ⊎ Collision d (hashed_texts d three) (hashed_texts d three)
unfolding program
root_binds_example = root_binds d three three (root_for three) (root_for three) refl refl refl refl

abbrev four : List Text
four = codes "a" ∷ codes "b" ∷ codes "c" ∷ codes "c" ∷ []

root-duplicate_last_example : hash_of (root_for three) ≡ hash_of (root_for four)
unfolding program
root-duplicate_last_example =
    root-duplicate_last d 0 (codes "a" ∷ codes "b" ∷ []) (codes "c") (root_for three)
      (root_for four) refl refl refl

abbrev read_tree : Bool × MerkleTree
read_tree = build d empty_tree (some (codes "abc"))

build_blocks : read_tree.1.blocks ≡ codes "ab" ∷ codes "cE" ∷ []
unfolding program
build_blocks = refl

build-Chunked_example :
    (read_tree.0 ≡ true) × IsBuilt d read_tree.1 × Chunked 2 (codes "abc") read_tree.1.blocks
build-Chunked_example = build-Chunked d empty_tree b'a' (codes "bc") (omega arith)
