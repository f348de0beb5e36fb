-- ===== src/Chain/Tests.antt =====
-- Runs of `validate_stored_chain` (Code/PrivateChain/Server/server.cpp), and each theorem at an input.
use hybrid_blockchain_for_re.Prelude.{
  ◌≡◌, refl, true, false, Option, none, some, List, [], ◌∷◌, codes, pos, negsuc, arith, ◌⊎◌,
  decimal, to_string, text_eq, All, IsLine,
}
use hybrid_blockchain_for_re.Sha256.{Digest, sha256}
use hybrid_blockchain_for_re.Sha256.Hex.{Clash, Collision}
use hybrid_blockchain_for_re.Sha256.Sample.{sample_digest, sample_hash}
use hybrid_blockchain_for_re.MerkleTree.{new_tree, append, get_root_hash, build_from_blocks}
use hybrid_blockchain_for_re.MerkleTree.Prover.{prover_block, verify}
use hybrid_blockchain_for_re.BlockMerkle.{
  BlockMerkleResult, leaf_input, canonical_record_from_fields, append_fields, leaf_records,
  all_verified, build_block_merkle, verify_proof,
}
use hybrid_blockchain_for_re.Records.{SupplyChainRecord, BlockEdge}
use hybrid_blockchain_for_re.Chain.{
  block_hash_input, parent_link_mismatch, hash_mismatch, calculate_block_hash, leaves_match,
  find_block, find_batch, merkle_matches, check_merkle, check_links, check_records, count_edges,
  check_record_edges, batch_at, check_edge_table, validate_stored_chain, genesis,
}
use hybrid_blockchain_for_re.Chain.Sound.{AllGood, validate_stored_chain_sound}
use hybrid_blockchain_for_re.Chain.Hashes.{IsSigned, SameBlock, calculate_block_hash-SameBlock}
use hybrid_blockchain_for_re.Chain.Edges.{edges_to, expected_edges}
use hybrid_blockchain_for_re.Chain.History.{
  block_texts, history, newest_first, SameHistory, validated_history_binds,
}

program : Unit {0}
unfolding new_tree append build_from_blocks get_root_hash prover_block verify sha256 sample_hash
    text_eq leaf_input canonical_record_from_fields append_fields leaf_records all_verified
    build_block_merkle verify_proof decimal to_string calculate_block_hash leaves_match find_block
    find_batch merkle_matches check_merkle check_links check_records count_edges check_record_edges
    batch_at check_edge_table validate_stored_chain
program = tt

abbrev d : Digest
d = sample_digest

abbrev blank : SupplyChainRecord
blank = record {
  block_id = pos 0;
  parent_block_id = negsuc 0;
  parent_block_hash = genesis;
  batch_id = codes "B";
  product = codes "Oranges";
  location_summary = [];
  batch_harvest_date = [];
  batch_farm_location = [];
  certificate_id = [];
  stage = codes "supplier";
  confirmed_by = codes "ann";
  uid = [];
  role = codes "supplier";
  organization_id = [];
  event_data = [];
  ipfs_refs = [];
  merkle_fields = record { name = codes "stage"; value = codes "supplier" } ∷ [];
  canonical_record = [];
  root_hash = [];
  verified = false;
  block_hash = [];
  chain_status = codes "in_progress";
  created_at = [];
  merkle_leaves = [];
  confirmation_method = [];
  confirmation_name = [];
  signature_algorithm = codes "ECDSA";
  signature = codes "sig";
  signature_public_key_hash = codes "key";
  signed_payload_hash = codes "payload";
  signature_verified = true;
  route_id = [];
  route_node_id = [];
  route_step_index = negsuc 0;
  transport_shipment_id = [];
  transport_vehicle_container_id = [];
}

abbrev with_merkle : SupplyChainRecord → Option BlockMerkleResult → SupplyChainRecord
with_merkle r none = r
with_merkle r (some m) = record r {
  canonical_record = m.canonical_record;
  root_hash = m.root_hash;
  verified = m.verified;
  merkle_leaves = m.leaves;
}

-- A record with the Merkle data and the hash that its contents give.
abbrev seal : SupplyChainRecord → SupplyChainRecord
seal r =
    let m = with_merkle r (build_block_merkle d r.merkle_fields) in
    record m { block_hash = calculate_block_hash d m }

abbrev first : SupplyChainRecord
first = seal blank

abbrev second : SupplyChainRecord
second = seal (record blank {
  block_id = pos 1;
  parent_block_id = pos 0;
  parent_block_hash = first.block_hash;
})

abbrev chain : List SupplyChainRecord
chain = first ∷ second ∷ []

abbrev edges : List BlockEdge
edges =
    record {
      from_block_id = pos 0;
      to_block_id = pos 1;
      batch_id = codes "B";
      relation = codes "continues";
    }
    ∷ []

chain_accepted : validate_stored_chain d chain edges ≡ none
unfolding program
chain_accepted = refl

relinked_refused :
    validate_stored_chain d
      (first ∷ seal (record second { parent_block_hash = genesis }) ∷ [])
      edges
    ≡ some (parent_link_mismatch (pos 1))
unfolding program
relinked_refused = refl

edited_refused :
    validate_stored_chain d (record first { block_hash = codes "other" } ∷ []) []
    ≡ some (hash_mismatch (pos 0))
unfolding program
edited_refused = refl

validate_stored_chain_sound_example :
    AllGood d [] 0 chain × All (λ r. edges_to r.block_id edges ≡ expected_edges r) chain
validate_stored_chain_sound_example = validate_stored_chain_sound d chain edges chain_accepted

signed :
    (r : SupplyChainRecord)
    → IsLine r.signature_algorithm
    → IsLine r.signature
    → IsLine r.signature_public_key_hash
    → IsLine r.signed_payload_hash
    → IsSigned r
signed r a s k p = record { algorithm = a; signature = s; key = k; payload = p }

chain-IsSigned : All IsSigned chain
unfolding program
chain-IsSigned = (
  signed first (omega arith) (omega arith) (omega arith) (omega arith),
  (signed second (omega arith) (omega arith) (omega arith) (omega arith), tt),
)

validated_history_binds_example :
    SameHistory
      (history (codes "B") (newest_first [] chain))
      (history (codes "B") (newest_first [] chain))
    ⊎ Collision d
        (block_texts d (history (codes "B") (newest_first [] chain)))
        (block_texts d (history (codes "B") (newest_first [] chain)))
validated_history_binds_example =
    validated_history_binds d (codes "B") (codes "B") chain chain edges edges chain_accepted
      chain_accepted chain-IsSigned chain-IsSigned refl

calculate_block_hash-SameBlock_example :
    SameBlock first (record first { batch_id = codes "C" })
    ⊎ Clash d (block_hash_input first) (block_hash_input (record first { batch_id = codes "C" }))
unfolding program
calculate_block_hash-SameBlock_example =
    calculate_block_hash-SameBlock d first (record first { batch_id = codes "C" }) (omega arith)
      (omega arith) refl (signed first (omega arith) (omega arith) (omega arith) (omega arith))
      (signed (record first { batch_id = codes "C" }) (omega arith) (omega arith) (omega arith)
        (omega arith))
      refl
