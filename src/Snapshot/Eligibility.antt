-- ===== src/Snapshot/Eligibility.antt =====
-- Code/Snapshot/src/snapshot.cpp: `evaluate_eligibility`.
use hybrid_blockchain_for_re.Prelude.{
  ℕ, zero, suc, Bool, true, false, ◌||◌, ◌&&◌, not, Option, none, some, List, [], ◌∷◌, ◌++◌, Text,
  codes, ℤ, pos, negsuc, text_eq, eqb_ℤ, ltb_ℤ, is_empty, length, ltb, ◌==◌, if◌then◌else◌, decimal,
  to_string,
}
use hybrid_blockchain_for_re.Snapshot.{
  RouteNodeInput, StageInput, HistoricalBlockInput, BatchInput, event_value, stage_for_block_id,
  historical_block_for_id,
}
use hybrid_blockchain_for_re.Snapshot.Route.{route_is_complete_linear}

pub record Eligibility : Type 0 where
  pub eligible : Bool
  pub errors : List Text

-- if(condition) errors.push_back(message)
abbrev pub error_if : Bool → Text → List Text
error_if c message = if c then message ∷ [] else []

-- operator< on std::string
unfoldable pub text_lt : Text → Text → Bool
text_lt s [] = false
text_lt [] (d ∷ t) = true
text_lt (c ∷ s) (d ∷ t) = ltb c d || (c == d && text_lt s t)

-- The comparison of the sort.
abbrev pub node_before : RouteNodeInput → RouteNodeInput → Bool
node_before m n =
    if not (eqb_ℤ m.step_index n.step_index)
    then ltb_ℤ m.step_index n.step_index
    else text_lt m.node_id n.node_id

unfoldable pub insert_node : RouteNodeInput → List RouteNodeInput → List RouteNodeInput
insert_node m [] = m ∷ []
insert_node m (n ∷ nodes) =
    let rest = insert_node m nodes in if node_before n m then n ∷ rest else m ∷ n ∷ nodes

-- std::sort by node_before.
unfoldable pub sort_nodes : List RouteNodeInput → List RouteNodeInput
sort_nodes [] = []
sort_nodes (n ∷ nodes) = insert_node n (sort_nodes nodes)

abbrev pub batch_errors : BatchInput → List Text
batch_errors b =
    error_if (is_empty b.batch_id) (codes "Batch ID is missing")
    ++ error_if (is_empty b.product) (codes "Product is missing")
    ++ error_if (is_empty b.harvest_date) (codes "Harvest date is missing")
    ++ error_if (is_empty b.farm_location) (codes "Farm location is missing")
    ++ error_if (is_empty b.certificate_id) (codes "Certificate ID is missing")
    ++ error_if (not (text_eq b.status (codes "completed")))
        (codes "The batch has not completed the route")

-- stages.front().stage and stages.back().stage differ from the role.
abbrev pub front_differs : List StageInput → Text → Bool
front_differs [] role = false
front_differs (s ∷ stages) role = not (text_eq s.stage role)

unfoldable pub back_differs : List StageInput → Text → Bool
back_differs [] role = false
back_differs (s ∷ []) role = not (text_eq s.stage role)
back_differs (s ∷ t ∷ stages) role = back_differs (t ∷ stages) role

abbrev pub end_errors : List StageInput → List Text
end_errors stages =
    error_if (ltb (length stages) 2) (codes "The batch route must contain at least two stages")
    ++ error_if (front_differs stages (codes "supplier"))
        (codes "The route must start with a Supplier stage")
    ++ error_if (back_differs stages (codes "supermarket"))
        (codes "The route must end with a Supermarket stage")

abbrev pub match_errors : Text → RouteNodeInput → StageInput → List Text
match_errors label n s =
    error_if (is_empty s.route_node_id || not (text_eq s.route_node_id n.node_id))
      (label ++ codes " is not linked to its saved route node")
    ++ error_if
        (not (ltb_ℤ s.route_step_index (pos 0)) && not (eqb_ℤ s.route_step_index n.step_index))
        (label ++ codes " has an inconsistent route step")
    ++ error_if (not (text_eq n.role s.stage))
        (label ++ codes " role does not match its saved route role")

-- The loop over the stages and their nodes, which are as many.
unfoldable pub matching_errors : ℕ → List RouteNodeInput → List StageInput → List Text
matching_errors index (n ∷ nodes) (s ∷ stages) =
    match_errors (codes "Route stage " ++ decimal (suc index)) n s
    ++ matching_errors (suc index) nodes stages
matching_errors index [] stages = []
matching_errors index (n ∷ nodes) [] = []

abbrev pub route_errors : BatchInput → List RouteNodeInput → List Text
route_errors b nodes =
    if is_empty nodes
    then codes "The batch has no saved route definition" ∷ []
    else if not (route_is_complete_linear b)
    then codes "The saved route is not one complete linear path" ∷ []
    else if not (length nodes == length b.stages)
    then codes "The saved route and submitted blocks contain different stage counts" ∷ []
    else matching_errors 0 nodes b.stages

abbrev pub supported : Text → Bool
supported stage =
    text_eq stage (codes "supplier")
    || (text_eq stage (codes "logistics")
        || (text_eq stage (codes "warehouse") || text_eq stage (codes "supermarket")))

abbrev pub block_errors : Text → StageInput → List Text
block_errors label s =
    error_if (not (supported s.stage)) (codes "Unsupported route stage: " ++ s.stage)
    ++ error_if (not s.verified) (label ++ codes " Merkle verification failed")
    ++ error_if (not s.signature_verified) (label ++ codes " signature verification failed")
    ++ error_if (is_empty s.block_hash) (label ++ codes " hash is missing")

abbrev pub history_hash : Option HistoricalBlockInput → Text
history_hash none = []
history_hash (some h) = h.block_hash

abbrev pub parent_hash_or : Option StageInput → Text → Text
parent_hash_or none hash = hash
parent_hash_or (some p) hash = p.block_hash

-- The hash of the block with the id among the stages or, failing that, in the history.
abbrev pub known_hash : BatchInput → ℤ → Text
known_hash b id =
    parent_hash_or (stage_for_block_id b.stages id)
      (history_hash (historical_block_for_id b.historical_blocks id))

abbrev pub is_genesis : StageInput → Bool
is_genesis s = eqb_ℤ s.parent_block_id (negsuc 0) && text_eq s.parent_block_hash (codes "GENESIS")

abbrev pub is_linked : BatchInput → StageInput → Bool
is_linked b s =
    not (is_empty (known_hash b s.parent_block_id))
    && (text_eq s.parent_block_hash (known_hash b s.parent_block_id)
        && ltb_ℤ s.parent_block_id s.block_id)

abbrev pub link_errors : BatchInput → ℕ → Text → StageInput → List Text
link_errors b zero label s =
    error_if (not (is_genesis s)) (codes "Supplier stage is not the genesis block")
link_errors b (suc index) label s =
    error_if (not (is_linked b s)) (label ++ codes " does not link to immutable block history")

-- The loop of require_value.
unfoldable pub missing_fields : StageInput → List Text → List Text
missing_fields s [] = []
missing_fields s (name ∷ names) =
    error_if (is_empty (event_value s name)) (s.stage ++ codes " is missing " ++ name)
    ++ missing_fields s names

abbrev pub logistics_fields : List Text
logistics_fields =
    codes "pickupLocation"
    ∷ codes "deliveryLocation"
    ∷ codes "departureTime"
    ∷ codes "arrivalTime"
    ∷ codes "temperature"
    ∷ codes "temperatureUnit"
    ∷ codes "humidity"
    ∷ []

abbrev pub warehouse_fields : List Text
warehouse_fields =
    codes "inboundTime"
    ∷ codes "outboundTime"
    ∷ codes "temperature"
    ∷ codes "temperatureUnit"
    ∷ codes "humidity"
    ∷ []

abbrev pub supermarket_fields : List Text
supermarket_fields =
    codes "shelfPlacementDate" ∷ codes "expirationSellByDate" ∷ codes "storeLocationId" ∷ []

abbrev pub event_errors : StageInput → List Text
event_errors s =
    if text_eq s.stage (codes "logistics")
    then missing_fields s logistics_fields
    else if text_eq s.stage (codes "warehouse")
    then missing_fields s warehouse_fields
    else if text_eq s.stage (codes "supermarket")
    then missing_fields s supermarket_fields
      ++ error_if (not (text_eq s.chain_status (codes "completed")))
          (codes "The Supermarket block is not marked completed")
    else []

abbrev pub label_of : StageInput → Text
label_of s = s.stage ++ codes " block " ++ to_string s.block_id

abbrev pub stage_errors : BatchInput → ℕ → StageInput → List Text
stage_errors b index s =
    block_errors (label_of s) s ++ link_errors b index (label_of s) s ++ event_errors s

-- The loop over the stages.
unfoldable pub all_stage_errors : BatchInput → ℕ → List StageInput → List Text
all_stage_errors b index [] = []
all_stage_errors b index (s ∷ stages) =
    stage_errors b index s ++ all_stage_errors b (suc index) stages

abbrev pub errors_of : BatchInput → List Text
errors_of b =
    b.source_errors
    ++ batch_errors b
    ++ end_errors b.stages
    ++ route_errors b (sort_nodes b.route_nodes)
    ++ all_stage_errors b 0 b.stages

unfoldable pub evaluate_eligibility : BatchInput → Eligibility
evaluate_eligibility b = record { eligible = is_empty (errors_of b); errors = errors_of b }
