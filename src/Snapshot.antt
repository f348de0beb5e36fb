-- ===== src/Snapshot.antt =====
-- Code/Snapshot: the input of a public snapshot (include/snapshot.hpp) and the look-ups in it
-- (src/snapshot.cpp). A std::map is an association list in which an entry hides those behind it; a
-- null pointer is `none`.
pub mod Route
pub mod Eligibility
pub mod Errors
pub mod Checks
pub mod Accepted
pub mod Line
pub mod Visit
pub mod Sorted
pub mod Complete
pub mod Path
pub mod Along
pub mod Evidence
pub mod Offers
pub mod Selected
pub mod Approved
mod Tests
use hybrid_blockchain_for_re.Prelude.{
  ℕ, zero, suc, Bool, true, false, ◌||◌, ◌&&◌, not, Option, none, some, List, [], ◌∷◌, ◌++◌, Text,
  codes, ℤ, text_eq, eqb_ℤ, is_empty, ◌==◌, if◌then◌else◌,
}

pub record RouteNodeInput : Type 0 where
  pub node_id : Text
  pub label : Text
  pub role : Text
  pub username : Text
  pub step_index : ℤ
  pub node_type : Text

pub record RouteEdgeInput : Type 0 where
  pub from_node_id : Text
  pub to_node_id : Text

pub record EvidenceInput : Type 0 where
  pub stage : Text
  pub category : Text
  pub cid : Text

pub record StageInput : Type 0 where
  pub block_id : ℤ
  pub parent_block_id : ℤ
  pub parent_block_hash : Text
  pub stage : Text
  pub event_fields : List (Text × Text)
  pub evidence : List EvidenceInput
  pub block_hash : Text
  pub chain_status : Text
  pub verified : Bool
  pub signature_verified : Bool
  pub route_node_id : Text
  pub route_step_index : ℤ
  pub route_node_label : Text
  pub route_node_username : Text

pub record HistoricalBlockInput : Type 0 where
  pub block_id : ℤ
  pub parent_block_id : ℤ
  pub parent_block_hash : Text
  pub block_hash : Text
  pub route_node_id : Text
  pub route_step_index : ℤ

pub record BatchInput : Type 0 where
  pub batch_id : Text
  pub product : Text
  pub harvest_date : Text
  pub farm_location : Text
  pub certificate_id : Text
  pub status : Text
  pub available_from : Text
  pub available_until : Text
  pub stages : List StageInput
  pub historical_blocks : List HistoricalBlockInput
  pub route_nodes : List RouteNodeInput
  pub route_edges : List RouteEdgeInput
  pub source_errors : List Text

-- std::map::find
unfoldable pub lookup {ℓ} : {V : Type ℓ} → List (Text × V) → Text → Option V
lookup [] k = none
lookup ((j, v) ∷ m) k = if text_eq j k then some v else lookup m k

-- One of " \t\r\n".
abbrev pub blank_byte : ℕ → Bool
blank_byte c = c == 32 || (c == 9 || (c == 13 || c == 10))

-- From the first byte that is not blank on.
unfoldable pub from_first : Text → Text
from_first [] = []
from_first (c ∷ s) = if blank_byte c then from_first s else c ∷ s

-- Up to the last byte that is not blank.
unfoldable pub up_to_last : Text → Text
up_to_last [] = []
up_to_last (c ∷ s) =
    let rest = up_to_last s in if is_empty rest && blank_byte c then [] else c ∷ rest

abbrev pub trim : Text → Text
trim s = up_to_last (from_first s)

abbrev pub value_or_empty : Option Text → Text
value_or_empty none = []
value_or_empty (some v) = trim v

abbrev pub event_value : StageInput → Text → Text
event_value s name = value_or_empty (lookup s.event_fields name)

-- The loop of stage_for_block_id.
unfoldable pub stage_for_block_id : List StageInput → ℤ → Option StageInput
stage_for_block_id [] id = none
stage_for_block_id (s ∷ stages) id =
    if eqb_ℤ s.block_id id then some s else stage_for_block_id stages id

-- The loop of historical_block_for_id.
unfoldable pub historical_block_for_id : List HistoricalBlockInput → ℤ → Option HistoricalBlockInput
historical_block_for_id [] id = none
historical_block_for_id (b ∷ blocks) id =
    if eqb_ℤ b.block_id id then some b else historical_block_for_id blocks id
