-- ===== src/Workflow/Tests.antt =====
-- Runs of the workflow functions (Code/PrivateChain/Server/server.cpp) on a route of three nodes,
-- and each theorem at an input.
use hybrid_blockchain_for_re.Prelude.{
  ℕ, ◌≡◌, refl, true, none, some, List, [], ◌∷◌, Text, codes, ℤ, pos, negsuc, text_eq, ◌≢◌, member,
  decimal, All,
}
use hybrid_blockchain_for_re.Records.{SupplyRouteNode, SupplyRouteEdge, SupplyChainRecord}
use hybrid_blockchain_for_re.Chain.{genesis, find_block}
use hybrid_blockchain_for_re.Workflow.{
  RuntimeWorkflow, find_node, workflow_node, legacy_node, workflow_node_for_record, has_incoming,
  first_node, first_workflow_node, successor_in, workflow_successor, walk, refused, ordered,
  out_of_fuel, not_linear, ordered_workflow_nodes, count_until, four_digits,
  numbered_route_identifier, default_transport_shipment_id,
}
use hybrid_blockchain_for_re.Workflow.Valid.{
  check_nodes, edge_key, check_edges, incoming, outgoing, last_of_role, check_degrees, next_of,
  follow, check_path, workflow_is_valid, bad_step_index,
}
use hybrid_blockchain_for_re.Workflow.Progress.{
  record_of, collect, latest_record, link_error, advance, evaluate_workflow_progress,
}
use hybrid_blockchain_for_re.Workflow.Order.{
  IsOrder, ordered_workflow_nodes-ends, ordered_workflow_nodes-IsOrder,
}
use hybrid_blockchain_for_re.Workflow.Planned.{IsPlanned, workflow_is_valid-IsPlanned}
use hybrid_blockchain_for_re.Workflow.Report.{
  HasBlock, IsLatest, Pending, evaluate-complete, evaluate-next_node,
}

program : Unit {0}
unfolding text_eq member decimal find_block find_node workflow_node legacy_node
    workflow_node_for_record has_incoming first_node first_workflow_node successor_in
    workflow_successor walk ordered_workflow_nodes count_until four_digits numbered_route_identifier
    default_transport_shipment_id check_nodes edge_key check_edges incoming outgoing last_of_role
    check_degrees next_of follow check_path workflow_is_valid record_of collect latest_record
    link_error advance evaluate_workflow_progress
program = tt

abbrev stage : Text → Text → Text → ℕ → SupplyRouteNode
stage id role username step = record {
  route_id = codes "R";
  node_id = id;
  node_type = codes "stage";
  label = id;
  role = role;
  username = username;
  position_x = pos 0;
  position_y = pos 0;
  step_index = pos step;
}

abbrev edge : Text → Text → SupplyRouteEdge
edge from to = record { route_id = codes "R"; from_node_id = from; to_node_id = to }

abbrev farm : SupplyRouteNode
farm = stage (codes "farm") (codes "supplier") (codes "ann") 0

abbrev truck : SupplyRouteNode
truck = stage (codes "truck") (codes "logistics") (codes "bob") 1

abbrev shop : SupplyRouteNode
shop = stage (codes "shop") (codes "supermarket") (codes "cid") 2

-- The nodes are saved in another order than the route's.
abbrev route : RuntimeWorkflow
route = record {
  route_id = codes "R";
  nodes = shop ∷ farm ∷ truck ∷ [];
  edges = edge (codes "truck") (codes "shop") ∷ edge (codes "farm") (codes "truck") ∷ [];
}

route_accepted : workflow_is_valid route.nodes route.edges ≡ none
unfolding program
route_accepted = refl

route_order : ordered_workflow_nodes route ≡ ordered (farm ∷ truck ∷ shop ∷ [])
unfolding program
route_order = refl

wrong_step_refused :
    workflow_is_valid
      (shop ∷ stage (codes "farm") (codes "supplier") (codes "ann") 3 ∷ truck ∷ [])
      route.edges
    ≡ some bad_step_index
unfolding program
wrong_step_refused = refl

broken_route_refused :
    ordered_workflow_nodes (record { route_id = codes "R"; nodes = route.nodes; edges = [] })
    ≡ refused not_linear
unfolding program
broken_route_refused = refl

truck_shipment : default_transport_shipment_id route truck ≡ codes "SHIP-0001"
unfolding program
truck_shipment = refl

abbrev block : ℕ → ℤ → Text → Text → SupplyRouteNode → SupplyChainRecord
block id parent parent_hash hash n = record {
  block_id = pos id;
  parent_block_id = parent;
  parent_block_hash = parent_hash;
  batch_id = codes "B";
  product = codes "Oranges";
  location_summary = [];
  batch_harvest_date = [];
  batch_farm_location = [];
  certificate_id = [];
  stage = n.role;
  confirmed_by = n.username;
  uid = [];
  role = n.role;
  organization_id = [];
  event_data = [];
  ipfs_refs = [];
  merkle_fields = [];
  canonical_record = [];
  root_hash = [];
  verified = true;
  block_hash = hash;
  chain_status = codes "in_progress";
  created_at = [];
  merkle_leaves = [];
  confirmation_method = [];
  confirmation_name = [];
  signature_algorithm = [];
  signature = [];
  signature_public_key_hash = [];
  signed_payload_hash = [];
  signature_verified = true;
  route_id = codes "R";
  route_node_id = n.node_id;
  route_step_index = n.step_index;
  transport_shipment_id = [];
  transport_vehicle_container_id = [];
}

abbrev harvested : SupplyChainRecord
harvested = block 0 (negsuc 0) genesis (codes "h0") farm

abbrev shipped : SupplyChainRecord
shipped = block 1 (pos 0) (codes "h0") (codes "h1") truck

abbrev sold : SupplyChainRecord
sold = block 2 (pos 1) (codes "h1") (codes "h2") shop

abbrev so_far : List SupplyChainRecord
so_far = harvested ∷ shipped ∷ []

abbrev all_blocks : List SupplyChainRecord
all_blocks = harvested ∷ shipped ∷ sold ∷ []

workflow_is_valid-IsPlanned_example : IsPlanned route
workflow_is_valid-IsPlanned_example = workflow_is_valid-IsPlanned route route_accepted

ordered_workflow_nodes-ends_example : ordered_workflow_nodes route ≢ refused out_of_fuel
ordered_workflow_nodes-ends_example = ordered_workflow_nodes-ends route

ordered_workflow_nodes-IsOrder_example : IsOrder route (farm ∷ truck ∷ shop ∷ [])
ordered_workflow_nodes-IsOrder_example =
    ordered_workflow_nodes-IsOrder route (farm ∷ truck ∷ shop ∷ []) route_order

finished_route : (evaluate_workflow_progress route all_blocks (codes "B")).complete ≡ true
unfolding program
finished_route = refl

evaluate-complete_example :
    (nodes : List SupplyRouteNode) × (ordered_workflow_nodes route ≡ ordered nodes)
    × All (HasBlock route all_blocks (codes "B")) nodes
evaluate-complete_example = evaluate-complete route all_blocks (codes "B") finished_route

waits_for_shop : (evaluate_workflow_progress route so_far (codes "B")).next_node ≡ some shop
unfolding program
waits_for_shop = refl

evaluate-next_node_example :
    Pending route so_far (codes "B") shop
    × ((l : SupplyChainRecord)
        → (evaluate_workflow_progress route so_far (codes "B")).parent_record ≡ some l
        → IsLatest route so_far (codes "B") l)
evaluate-next_node_example = evaluate-next_node route so_far (codes "B") shop waits_for_shop
