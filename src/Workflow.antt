-- ===== src/Workflow.antt =====
-- Code/PrivateChain/Server/server.cpp, the saved route of a batch: `RuntimeWorkflow`, the look-ups
-- in it, `ordered_workflow_nodes` and the identifiers that number its stages. A null pointer is
-- `none`.
pub mod Valid
pub mod Progress
pub mod Order
pub mod Checks
pub mod Links
pub mod Walk
pub mod Planned
pub mod Outcome
pub mod Latest
pub mod Advance
pub mod Report
mod Tests
use hybrid_blockchain_for_re.Prelude.{
  ℕ, zero, suc, ◌+◌, ◌-◌, ◌/◌, ◌%◌, Bool, true, false, ◌||◌, ◌&&◌, not, Option, none, some, List,
  [], ◌∷◌, ◌++◌, Text, codes, ℤ, pos, negsuc, text_eq, eqb_ℤ, ltb_ℤ, is_empty, length, ltb, leb,
  ◌==◌, if◌then◌else◌, member, replicate, decimal,
}
use hybrid_blockchain_for_re.Records.{SupplyRouteNode, SupplyRouteEdge, SupplyChainRecord}

pub record RuntimeWorkflow : Type 0 where
  pub route_id : Text
  pub nodes : List SupplyRouteNode
  pub edges : List SupplyRouteEdge

-- The loop of workflow_node.
unfoldable pub find_node : List SupplyRouteNode → Text → Option SupplyRouteNode
find_node [] id = none
find_node (n ∷ nodes) id = if text_eq n.node_id id then some n else find_node nodes id

-- workflow_node
unfoldable pub workflow_node : RuntimeWorkflow → Text → Option SupplyRouteNode
unfolding find_node
workflow_node w id = find_node w.nodes id

-- The test on the node that the record names.
abbrev pub confirmed_node : Option SupplyRouteNode → SupplyChainRecord → Option SupplyRouteNode
confirmed_node none r = none
confirmed_node (some n) r =
    if text_eq n.role r.role && text_eq n.username r.confirmed_by then some n else none

abbrev pub legacy_matches : SupplyRouteNode → SupplyChainRecord → Bool
legacy_matches n r =
    text_eq n.role r.role
    && (not (is_empty n.username)
        && (text_eq n.username r.confirmed_by
            && (ltb_ℤ r.route_step_index (pos 0) || eqb_ℤ n.step_index r.route_step_index)))

-- The loop over the nodes for a record without a route: a second match ends it with none.
unfoldable pub legacy_node :
    SupplyChainRecord → Option SupplyRouteNode → List SupplyRouteNode → Option SupplyRouteNode
legacy_node r found [] = found
legacy_node r found (n ∷ nodes) =
    let next = legacy_node r (some n) nodes in
    let skip = legacy_node r found nodes in
    if legacy_matches n r then elim found [ none ↦ next | some m ↦ none ] else skip

-- workflow_node_for_record
unfoldable pub workflow_node_for_record :
    RuntimeWorkflow → SupplyChainRecord → Option SupplyRouteNode
unfolding legacy_node
workflow_node_for_record w r =
    if not (is_empty r.route_node_id)
    then confirmed_node (workflow_node w r.route_node_id) r
    else if not (is_empty r.route_id)
    then none
    else legacy_node r none w.nodes

-- has_incoming
unfoldable pub has_incoming : List SupplyRouteEdge → Text → Bool
has_incoming [] id = false
has_incoming (e ∷ edges) id = text_eq e.to_node_id id || has_incoming edges id

-- The loop of first_workflow_node.
unfoldable pub first_node : List SupplyRouteEdge → List SupplyRouteNode → Option SupplyRouteNode
first_node edges [] = none
first_node edges (n ∷ nodes) =
    if not (has_incoming edges n.node_id) then some n else first_node edges nodes

-- first_workflow_node
unfoldable pub first_workflow_node : RuntimeWorkflow → Option SupplyRouteNode
first_workflow_node w = first_node w.edges w.nodes

-- The loop of workflow_successor.
unfoldable pub successor_in :
    List SupplyRouteNode → List SupplyRouteEdge → Text → Option SupplyRouteNode
successor_in nodes [] id = none
successor_in nodes (e ∷ edges) id =
    if not (text_eq e.from_node_id id)
    then successor_in nodes edges id
    else find_node nodes e.to_node_id

-- workflow_successor
unfoldable pub workflow_successor : RuntimeWorkflow → Text → Option SupplyRouteNode
workflow_successor w id = successor_in w.nodes w.edges id

-- How the loop of ordered_workflow_nodes ends: by a cycle, or with the nodes in their order;
-- `exhausted` is a run that has used up its fuel.
pub data RouteWalk : Type 0 where
  cycle : RouteWalk
  exhausted : RouteWalk
  walked : List SupplyRouteNode → RouteWalk

-- ordered.push_back(current), before the rest of the walk.
abbrev pub push_node : SupplyRouteNode → RouteWalk → RouteWalk
push_node n cycle = cycle
push_node n exhausted = exhausted
push_node n (walked ns) = walked (n ∷ ns)

-- The loop of ordered_workflow_nodes.
unfoldable pub walk : RuntimeWorkflow → ℕ → List Text → Option SupplyRouteNode → RouteWalk
walk w zero visited current = exhausted
walk w (suc f) visited none = walked []
walk w (suc f) visited (some n) =
    let rest = walk w f (n.node_id ∷ visited) (workflow_successor w n.node_id) in
    if member n.node_id visited then cycle else push_node n rest

-- Why ordered_workflow_nodes returns false; for no nodes it leaves the error text empty.
pub data RouteError : Type 0 where
  route_cycle : RouteError
  not_linear : RouteError
  no_nodes : RouteError
  out_of_fuel : RouteError

pub data Ordered : Type 0 where
  refused : RouteError → Ordered
  ordered : List SupplyRouteNode → Ordered

-- What follows the loop.
abbrev pub close_walk : RuntimeWorkflow → RouteWalk → Ordered
close_walk w cycle = refused route_cycle
close_walk w exhausted = refused out_of_fuel
close_walk w (walked ns) =
    if not (length ns == length w.nodes)
    then refused not_linear
    else if is_empty ns
    then refused no_nodes
    else ordered ns

-- ordered_workflow_nodes, on two more rounds than there are nodes.
unfoldable pub ordered_workflow_nodes : RuntimeWorkflow → Ordered
ordered_workflow_nodes w =
    close_walk w (walk w (suc (suc (length w.nodes))) [] (first_workflow_node w))

-- The loop of numbered_route_identifier: how many nodes of the role there are up to the target;
-- `none` where the target is not found.
unfoldable pub count_until : Text → Text → ℕ → List SupplyRouteNode → Option ℕ
count_until role target n [] = none
count_until role target n (x ∷ nodes) =
    let m : ℕ = if text_eq x.role role then suc n else n in
    let rest = count_until role target m nodes in if text_eq x.node_id target then some m else rest

-- std::setw(4) << std::setfill('0')
unfoldable pub four_digits : ℕ → Text
four_digits n = replicate (4 - length (decimal n)) b'0' ++ decimal n

abbrev pub number_text : Text → Option ℕ → Text
number_text prefix none = []
number_text prefix (some n) = if leb n 0 || ltb 9999 n then [] else prefix ++ four_digits n

-- numbered_route_identifier
unfoldable pub numbered_route_identifier : RuntimeWorkflow → SupplyRouteNode → Text → Text → Text
numbered_route_identifier w target role prefix = elim (ordered_workflow_nodes w) [
  | refused e ↦ []
  | ordered ns ↦
      if not (text_eq target.role role)
      then []
      else number_text prefix (count_until role target.node_id 0 ns)
]

unfoldable pub default_transport_shipment_id : RuntimeWorkflow → SupplyRouteNode → Text
default_transport_shipment_id w n =
    numbered_route_identifier w n (codes "logistics") (codes "SHIP-")

unfoldable pub default_transport_vehicle_id : RuntimeWorkflow → SupplyRouteNode → Text
default_transport_vehicle_id w n =
    numbered_route_identifier w n (codes "logistics") (codes "VEHICLE-")

unfoldable pub default_storage_lot_id : RuntimeWorkflow → SupplyRouteNode → Text
default_storage_lot_id w n = numbered_route_identifier w n (codes "warehouse") (codes "STORAGE-")

unfoldable pub default_storage_zone_id : RuntimeWorkflow → SupplyRouteNode → Text
default_storage_zone_id w n = numbered_route_identifier w n (codes "warehouse") (codes "ZONE-")
