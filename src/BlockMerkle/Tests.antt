-- ===== src/BlockMerkle/Tests.antt =====
-- Runs of Code/PrivateChain/Server/block_merkle.cpp, and each theorem at an input.
use hybrid_blockchain_for_re.Prelude.{
  map, ◌≡◌, refl, true, false, Option, none, some, [], ◌∷◌, codes, pos, arith, ◌⊎◌, decimal,
  text_eq,
}
use hybrid_blockchain_for_re.Sha256.{Digest, sha256}
use hybrid_blockchain_for_re.Sha256.Hex.{Collision}
use hybrid_blockchain_for_re.MerkleTree.Roots.{hashed_texts}
use hybrid_blockchain_for_re.Sha256.Sample.{sample_digest, sample_hash}
use hybrid_blockchain_for_re.MerkleTree.{
  MerkleTree, new_tree, append, get_root_hash, build_from_blocks,
}
use hybrid_blockchain_for_re.MerkleTree.Prover.{prover_block, verify}
use hybrid_blockchain_for_re.MerkleTree.Object.{append-Stored}
use hybrid_blockchain_for_re.BlockMerkle.{
  MerkleField, BlockMerkleResult, leaf_input, canonical_record_from_fields, append_fields,
  leaf_records, all_verified, build_block_merkle, verify_proof,
}
use hybrid_blockchain_for_re.BlockMerkle.Checker.{verify_proof-verify}
use hybrid_blockchain_for_re.BlockMerkle.Leaves.{Describes, build_block_merkle-named}
use hybrid_blockchain_for_re.BlockMerkle.Encoding.{canonical_record_injective, root_hash_binds}

program : Unit {0}
unfolding new_tree append build_from_blocks get_root_hash prover_block verify sha256 sample_hash
    text_eq leaf_input canonical_record_from_fields append_fields leaf_records all_verified
    build_block_merkle verify_proof decimal
program = tt

abbrev d : Digest
d = sample_digest

abbrev batch_field : MerkleField
batch_field = record { name = codes "batchId"; value = codes "BATCH-1" }

abbrev stage_field : MerkleField
stage_field = record { name = codes "stage"; value = codes "supplier" }

abbrev nameless : MerkleField
nameless = record { name = []; value = codes "x" }

stage_input : leaf_input stage_field ≡ codes "stage:8:supplier"
unfolding program
stage_input = refl

two_fields_verified :
    (r : BlockMerkleResult) × (build_block_merkle d (batch_field ∷ stage_field ∷ []) ≡ some r)
    × (r.verified ≡ true)
unfolding program
two_fields_verified = (_, refl, refl)

build_block_merkle-named_example :
    (r : BlockMerkleResult) × (build_block_merkle d (batch_field ∷ stage_field ∷ []) ≡ some r)
    × Describes d (batch_field ∷ stage_field ∷ []) r
build_block_merkle-named_example =
    build_block_merkle-named d batch_field (stage_field ∷ []) (refl, (refl, tt))

canonical_record_injective_example : stage_field ∷ [] ≡ stage_field ∷ []
canonical_record_injective_example =
    canonical_record_injective (stage_field ∷ []) (stage_field ∷ []) (omega arith) (omega arith)
      refl

abbrev result_or_empty : Option BlockMerkleResult → BlockMerkleResult
result_or_empty none = record {
  canonical_record = [];
  root_hash = [];
  verified = false;
  leaves = [];
}
result_or_empty (some r) = r

abbrev stage_result : BlockMerkleResult
stage_result = result_or_empty (build_block_merkle d (stage_field ∷ []))

root_hash_binds_example :
    (stage_field ∷ [] ≡ stage_field ∷ [])
    ⊎ Collision d
        (hashed_texts d (map leaf_input (stage_field ∷ [])))
        (hashed_texts d (map leaf_input (stage_field ∷ [])))
unfolding program
root_hash_binds_example =
    root_hash_binds d stage_field stage_field [] [] stage_result stage_result (refl, tt) (refl, tt)
      (omega arith) (omega arith) refl refl refl refl

abbrev small_tree : MerkleTree
small_tree = (append d (new_tree (pos 1)) (codes "a")).1

verify_proof-verify_example :
    verify_proof d small_tree (prover_block small_tree (pos 0))
    ≡ verify d small_tree (prover_block small_tree (pos 0))
unfolding new_tree
verify_proof-verify_example =
    verify_proof-verify d small_tree (prover_block small_tree (pos 0))
      (append-Stored d (new_tree (pos 1)) b'a' []).is_built
