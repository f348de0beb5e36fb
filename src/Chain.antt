-- ===== src/Chain.antt =====
-- Code/PrivateChain/Server/server.cpp, the stored block chain: `calculate_block_hash`,
-- `same_merkle_leaf` and `validate_stored_chain`. The function's `true` is `none` here, and each
-- error text is a constructor of `ChainError`.
pub mod Sound
pub mod Hashes
pub mod Edges
pub mod History
mod Tests
use hybrid_blockchain_for_re.Prelude.{
  ℕ, zero, suc, ◌+◌, Bool, true, false, ◌||◌, ◌&&◌, not, Option, none, some, List, [], ◌∷◌, ◌++◌,
  Text, codes, ℤ, pos, negsuc, to_string, text_eq, eqb_ℤ, ltb_ℤ, length, get_elem?, ◌==◌,
  if◌then◌else◌,
}
use hybrid_blockchain_for_re.Sha256.{Digest}
use hybrid_blockchain_for_re.BlockMerkle.{
  MerkleLeafRecord, BlockMerkleResult, newline, build_block_merkle, sha256_value,
}
use hybrid_blockchain_for_re.Records.{SupplyChainRecord, BlockEdge}

pub data ChainError : Type 0 where
  ids_not_sequential : ChainError
  merkle_mismatch : ℤ → ChainError
  leaf_mismatch : ℤ → ChainError
  parent_link_mismatch : ℤ → ChainError
  invalid_parent : ℤ → ChainError
  hash_mismatch : ℤ → ChainError
  edge_mismatch : ℤ → ChainError
  edge_count : ℤ → ChainError
  invalid_edge : ChainError

-- The text that calculate_block_hash hashes.
unfoldable pub block_hash_input : SupplyChainRecord → Text
block_hash_input r =
    codes "blockId:"
    ++ (to_string r.block_id
        ++ newline
          ∷ (codes "parentBlockId:"
              ++ (to_string r.parent_block_id
                  ++ newline
                    ∷ (codes "parentHash:"
                        ++ (r.parent_block_hash
                            ++ newline
                              ∷ (codes "merkleRoot:"
                                  ++ (r.root_hash
                                      ++ newline
                                        ∷ (codes "signatureAlgorithm:"
                                            ++ (r.signature_algorithm
                                                ++ newline
                                                  ∷ (codes "signature:"
                                                      ++ (r.signature
                                                          ++ newline
                                                            ∷ (codes "signaturePublicKeyHash:"
                                                            ++ (r.signature_public_key_hash
                                                            ++ newline
                                                            ∷ (codes "signedPayloadHash:"
                                                            ++ (r.signed_payload_hash
                                                            ++ newline
                                                            ∷ (codes "canonical:"
                                                            ++ r.canonical_record))))))))))))))))

-- calculate_block_hash
unfoldable pub calculate_block_hash : Digest → SupplyChainRecord → Text
unfolding sha256_value block_hash_input
calculate_block_hash d r = sha256_value d (block_hash_input r)

abbrev pub bool_eq : Bool → Bool → Bool
bool_eq true b = b
bool_eq false b = not b

-- same_merkle_leaf
unfoldable pub same_merkle_leaf : MerkleLeafRecord → MerkleLeafRecord → Bool
same_merkle_leaf left right =
    eqb_ℤ left.leaf_index right.leaf_index
    && (text_eq left.field_name right.field_name
        && (text_eq left.leaf_value right.leaf_value
            && (text_eq left.leaf_hash right.leaf_hash
                && (text_eq left.proof right.proof && bool_eq left.verified right.verified))))

-- The loop over the leaves; the lists have one length when it runs.
unfoldable pub leaves_match : List MerkleLeafRecord → List MerkleLeafRecord → Bool
unfolding same_merkle_leaf
leaves_match [] stored = true
leaves_match (x ∷ xs) [] = false
leaves_match (x ∷ xs) (y ∷ ys) = same_merkle_leaf x y && leaves_match xs ys

-- The maps by_block_id and latest_by_batch, as lists with the newest entry in front.
unfoldable pub find_block : ℤ → List (ℤ × SupplyChainRecord) → Option SupplyChainRecord
find_block k [] = none
find_block k ((i, r) ∷ m) = if eqb_ℤ i k then some r else find_block k m

unfoldable pub find_batch : Text → List (Text × SupplyChainRecord) → Option SupplyChainRecord
find_batch k [] = none
find_batch k ((b, r) ∷ m) = if text_eq b k then some r else find_batch k m

abbrev pub genesis : Text
genesis = codes "GENESIS"

-- expected_parent_id and expected_parent_hash
abbrev pub expected_parent_id : Option SupplyChainRecord → ℤ
expected_parent_id none = negsuc 0
expected_parent_id (some p) = p.block_id

abbrev pub expected_parent_hash : Option SupplyChainRecord → Text
expected_parent_hash none = genesis
expected_parent_hash (some p) = p.block_hash

-- The parent that by_block_id gives is of the record's batch.
abbrev pub parent_in_batch : Option SupplyChainRecord → SupplyChainRecord → Bool
parent_in_batch none r = false
parent_in_batch (some p) r = text_eq p.batch_id r.batch_id

-- The tests on the rebuilt Merkle data but the last; false is "Merkle data mismatch".
unfoldable pub merkle_matches : BlockMerkleResult → SupplyChainRecord → Bool
merkle_matches m r =
    text_eq m.canonical_record r.canonical_record
    && (text_eq m.root_hash r.root_hash
        && (bool_eq m.verified r.verified && (length m.leaves == length r.merkle_leaves)))

module _ (d : Digest) where
  -- The Merkle part of the loop's body.
  unfoldable pub check_merkle : SupplyChainRecord → Option ChainError
  check_merkle r = elim (build_block_merkle d r.merkle_fields) [
    | none ↦ some (merkle_mismatch r.block_id)
    | some m ↦
        if not (merkle_matches m r)
        then some (merkle_mismatch r.block_id)
        else if not (leaves_match m.leaves r.merkle_leaves)
        then some (leaf_mismatch r.block_id)
        else none
  ]

  -- The link part of the loop's body, on what the two maps hold.
  unfoldable pub check_links :
      Option SupplyChainRecord → Option SupplyChainRecord → SupplyChainRecord → Option ChainError
  check_links previous parent r =
      if not (
        eqb_ℤ r.parent_block_id (expected_parent_id previous)
        && text_eq r.parent_block_hash (expected_parent_hash previous))
      then some (parent_link_mismatch r.block_id)
      else if not (ltb_ℤ r.parent_block_id (pos 0)) && not (parent_in_batch parent r)
      then some (invalid_parent r.block_id)
      else if not (text_eq (calculate_block_hash d r) r.block_hash)
      then some (hash_mismatch r.block_id)
      else none

  -- The first loop, from record `index` on.
  unfoldable pub check_records :
      ℕ
      → List (ℤ × SupplyChainRecord)
      → List (Text × SupplyChainRecord)
      → List SupplyChainRecord
      → Option ChainError
  check_records index by_block_id latest_by_batch [] = none
  check_records index by_block_id latest_by_batch (r ∷ records) =
      let rest =
        check_records (suc index) ((r.block_id, r) ∷ by_block_id)
          ((r.batch_id, r) ∷ latest_by_batch) records in
      let links =
        elim (check_links (find_batch r.batch_id latest_by_batch)
            (find_block r.parent_block_id by_block_id) r)
          as (λ x. Option ChainError) [ some e ↦ some e | none ↦ rest ] in
      if not (eqb_ℤ r.block_id (pos index))
      then some ids_not_sequential
      else elim (check_merkle r) [ some e ↦ some e | none ↦ links ]

-- The inner loop of the second loop: how many edges lead to the record; `none` is an edge that
-- does not match it.
unfoldable pub count_edges : SupplyChainRecord → List BlockEdge → ℕ → Option ℕ
count_edges r [] n = some n
count_edges r (e ∷ edges) n =
    let wrong =
      ltb_ℤ r.parent_block_id (pos 0)
      || (not (eqb_ℤ e.from_block_id r.parent_block_id)
          || (not (text_eq e.batch_id r.batch_id)
              || not (text_eq e.relation (codes "continues")))) in
    let skip = count_edges r edges n in
    let hit = if wrong then none else count_edges r edges (suc n) in
    if not (eqb_ℤ e.to_block_id r.block_id) then skip else hit

-- The second loop.
unfoldable pub check_record_edges : List BlockEdge → List SupplyChainRecord → Option ChainError
check_record_edges edges [] = none
check_record_edges edges (r ∷ records) =
    let rest = check_record_edges edges records in
    let expected : ℕ = if ltb_ℤ r.parent_block_id (pos 0) then 0 else 1 in
    elim (count_edges r edges 0) [
      | none ↦ some (edge_mismatch r.block_id)
      | some n ↦ if not (n == expected) then some (edge_count r.block_id) else rest
    ]

-- records[id].batch_id; the index has been tested before it is read.
unfoldable pub batch_at : List SupplyChainRecord → ℤ → Option Text
batch_at records (negsuc i) = none
batch_at records (pos i) = elim (get_elem? records i) [ none ↦ none | some r ↦ some r.batch_id ]

abbrev is_batch : Option Text → Text → Bool
is_batch none b = false
is_batch (some a) b = text_eq a b

-- The third loop.
unfoldable pub check_edge_table : List SupplyChainRecord → List BlockEdge → Option ChainError
check_edge_table records [] = none
check_edge_table records (e ∷ edges) =
    let rest = check_edge_table records edges in
    let size = pos (length records) in
    if ltb_ℤ e.from_block_id (pos 0)
      || (ltb_ℤ e.to_block_id (pos 0)
          || (not (ltb_ℤ e.from_block_id size)
              || (not (ltb_ℤ e.to_block_id size)
                  || (not (ltb_ℤ e.from_block_id e.to_block_id)
                      || (not (is_batch (batch_at records e.from_block_id) e.batch_id)
                          || not (is_batch (batch_at records e.to_block_id) e.batch_id))))))
    then some invalid_edge
    else rest

abbrev pub or_next : Option ChainError → Option ChainError → Option ChainError
or_next none next = next
or_next (some e) next = some e

-- validate_stored_chain
unfoldable pub validate_stored_chain :
    Digest → List SupplyChainRecord → List BlockEdge → Option ChainError
validate_stored_chain d records edges =
    or_next (check_records d 0 [] [] records)
      (or_next (check_record_edges edges records) (check_edge_table records edges))
