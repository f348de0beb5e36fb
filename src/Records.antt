-- ===== src/Records.antt =====
-- The structs of Code/PrivateChain/Server/block_data.hpp that the server's components share. (Those
-- of a Merkle field and a leaf stand in BlockMerkle.)
use hybrid_blockchain_for_re.Prelude.{Bool, List, Text, ℤ}
use hybrid_blockchain_for_re.BlockMerkle.{MerkleField, MerkleLeafRecord}

pub record IpfsReference : Type 0 where
  pub category : Text
  pub cid : Text
  pub filename : Text
  pub content_type : Text
  pub size : ℤ

pub record SupplyChainBatch : Type 0 where
  pub batch_id : Text
  pub product : Text
  pub harvest_date : Text
  pub farm_location : Text
  pub certificate_id : Text
  pub created_by_uid : Text
  pub current_stage : Text
  pub status : Text
  pub created_at : Text
  pub route_id : Text
  pub route_node_id : Text
  pub route_step_index : ℤ

pub record SupplyRouteNode : Type 0 where
  pub route_id : Text
  pub node_id : Text
  pub node_type : Text
  pub label : Text
  pub role : Text
  pub username : Text
  pub position_x : ℤ
  pub position_y : ℤ
  pub step_index : ℤ

pub record SupplyRouteEdge : Type 0 where
  pub route_id : Text
  pub from_node_id : Text
  pub to_node_id : Text

pub record SupplyChainRecord : Type 0 where
  pub block_id : ℤ
  pub parent_block_id : ℤ
  pub parent_block_hash : Text
  pub batch_id : Text
  pub product : Text
  pub location_summary : Text
  pub batch_harvest_date : Text
  pub batch_farm_location : Text
  pub certificate_id : Text
  pub stage : Text
  pub confirmed_by : Text
  pub uid : Text
  pub role : Text
  pub organization_id : Text
  pub event_data : Text
  pub ipfs_refs : List IpfsReference
  pub merkle_fields : List MerkleField
  pub canonical_record : Text
  pub root_hash : Text
  pub verified : Bool
  pub block_hash : Text
  pub chain_status : Text
  pub created_at : Text
  pub merkle_leaves : List MerkleLeafRecord
  pub confirmation_method : Text
  pub confirmation_name : Text
  pub signature_algorithm : Text
  pub signature : Text
  pub signature_public_key_hash : Text
  pub signed_payload_hash : Text
  pub signature_verified : Bool
  pub route_id : Text
  pub route_node_id : Text
  pub route_step_index : ℤ
  pub transport_shipment_id : Text
  pub transport_vehicle_container_id : Text

pub record BlockEdge : Type 0 where
  pub from_block_id : ℤ
  pub to_block_id : ℤ
  pub batch_id : Text
  pub relation : Text
