-- ===== src/Workflow/Valid.antt =====
-- `workflow_is_valid` of Code/PrivateChain/Server/server.cpp, the check of a route before it is
-- saved. The function's `true` is `none`, and each error text is a constructor of `WorkflowError`.
-- The first loop makes the ids unique, so `by_id` is looked up in the list of nodes after it.
use hybrid_blockchain_for_re.Prelude.{
  ℕ, zero, suc, ◌+◌, Bool, true, false, ◌||◌, ◌&&◌, not, Option, none, some, List, [], ◌∷◌, ◌++◌,
  Text, codes, pos, text_eq, eqb_ℤ, is_empty, length, ltb, ◌==◌, if◌then◌else◌, member, ◌⊎◌, inl,
  inr,
}
use hybrid_blockchain_for_re.Records.{SupplyRouteNode, SupplyRouteEdge}
use hybrid_blockchain_for_re.Workflow.{find_node}

pub data WorkflowError : Type 0 where
  too_few_nodes : WorkflowError
  bad_node_id : WorkflowError
  no_account : WorkflowError
  unsupported_role : WorkflowError
  ends_not_unique : WorkflowError
  bad_edge : WorkflowError
  repeated_edge : WorkflowError
  ends_not_ends : WorkflowError
  bad_incoming : WorkflowError
  bad_outgoing : WorkflowError
  has_cycle : WorkflowError
  bad_step_index : WorkflowError
  many_outgoing : WorkflowError
  no_outgoing : WorkflowError
  not_connected : WorkflowError
  out_of_fuel : WorkflowError

abbrev pub supplier : Text
supplier = codes "supplier"

abbrev pub supermarket : Text
supermarket = codes "supermarket"

abbrev pub is_some : Option SupplyRouteNode → Bool
is_some none = false
is_some (some n) = true

-- node.role == role ? 1 : 0
abbrev pub one_if : Text → Text → ℕ
one_if role wanted = if text_eq role wanted then 1 else 0

abbrev pub is_role : Text → Bool
is_role role =
    text_eq role supplier
    || (text_eq role (codes "logistics")
        || (text_eq role (codes "warehouse") || text_eq role supermarket))

-- The first loop: the nodes by their ids, the newest in front, and the two counts.
unfoldable pub check_nodes :
    List SupplyRouteNode → ℕ → ℕ → List SupplyRouteNode → WorkflowError ⊎ (ℕ × ℕ)
check_nodes by_id suppliers supermarkets [] = inr (suppliers, supermarkets)
check_nodes by_id suppliers supermarkets (n ∷ nodes) =
    let rest =
      check_nodes (n ∷ by_id) (suppliers + one_if n.role supplier)
        (supermarkets + one_if n.role supermarket) nodes in
    if is_empty n.node_id
      || (is_empty n.label || (is_empty n.role || is_some (find_node by_id n.node_id)))
    then inl bad_node_id
    else if is_empty n.username
    then inl no_account
    else if not (is_role n.role)
    then inl unsupported_role
    else rest

-- edge_key
unfoldable pub edge_key : SupplyRouteEdge → Text
edge_key e = e.from_node_id ++ 31 ∷ e.to_node_id

-- The loop over the edges, but for the two counters.
unfoldable pub check_edges :
    List SupplyRouteNode → List Text → List SupplyRouteEdge → Option WorkflowError
unfolding edge_key
check_edges by_id unique_edges [] = none
check_edges by_id unique_edges (e ∷ edges) =
    let rest = check_edges by_id (edge_key e ∷ unique_edges) edges in
    if not (is_some (find_node by_id e.from_node_id))
      || (not (is_some (find_node by_id e.to_node_id)) || text_eq e.from_node_id e.to_node_id)
    then some bad_edge
    else if member (edge_key e) unique_edges
    then some repeated_edge
    else rest

-- What the loop has counted under a key in `incoming` and in `outgoing`.
unfoldable pub incoming : List SupplyRouteEdge → Text → ℕ
incoming [] id = 0
incoming (e ∷ edges) id =
    if text_eq e.to_node_id id then suc (incoming edges id) else incoming edges id

unfoldable pub outgoing : List SupplyRouteEdge → Text → ℕ
outgoing [] id = 0
outgoing (e ∷ edges) id =
    if text_eq e.from_node_id id then suc (outgoing edges id) else outgoing edges id

-- The loop that finds the supplier and the supermarket: the last node of the role.
unfoldable pub last_of_role :
    Text → Option SupplyRouteNode → List SupplyRouteNode → Option SupplyRouteNode
last_of_role role found [] = found
last_of_role role found (n ∷ nodes) =
    last_of_role role (if text_eq n.role role then some n else found) nodes

-- The loop over the counters.
unfoldable pub check_degrees : List SupplyRouteEdge → List SupplyRouteNode → Option WorkflowError
check_degrees edges [] = none
check_degrees edges (n ∷ nodes) =
    let rest = check_degrees edges nodes in
    if not (text_eq n.role supplier) && not (incoming edges n.node_id == 1)
    then some bad_incoming
    else if not (text_eq n.role supermarket) && not (outgoing edges n.node_id == 1)
    then some bad_outgoing
    else rest

-- The inner loop over the edges: the target of the edge from `current`, the empty text where there
-- is none; `none` is a second edge.
unfoldable pub next_of : List SupplyRouteEdge → Text → Text → Option Text
next_of [] current next = some next
next_of (e ∷ edges) current next =
    let skip = next_of edges current next in
    let hit = next_of edges current e.to_node_id in
    if not (text_eq e.from_node_id current) then skip else if not (is_empty next) then none else hit

abbrev pub step_is : Option SupplyRouteNode → ℕ → Bool
step_is none expected = false
step_is (some n) expected = eqb_ℤ n.step_index (pos expected)

-- `while(true)`: the ids that have been visited when it breaks.
unfoldable pub follow :
    List SupplyRouteNode
    → List SupplyRouteEdge
    → Text
    → ℕ
    → List Text
    → Text
    → ℕ
    → WorkflowError ⊎ List Text
follow by_id edges last zero visited current expected = inl out_of_fuel
follow by_id edges last (suc f) visited current expected =
    let seen = current ∷ visited in
    let onward : WorkflowError ⊎ List Text = elim (next_of edges current []) [
      | none ↦ inl many_outgoing
      | some next ↦
          if is_empty next
          then inl no_outgoing
          else follow by_id edges last f seen next (suc expected)
    ] in
    if member current visited
    then inl has_cycle
    else if not (step_is (find_node by_id current) expected)
    then inl bad_step_index
    else if text_eq current last
    then inr seen
    else onward

-- The test after the walk.
abbrev pub check_visited : List SupplyRouteNode → WorkflowError ⊎ List Text → Option WorkflowError
check_visited nodes (inl e) = some e
check_visited nodes (inr visited) =
    if not (length visited == length nodes) then some not_connected else none

-- From the search for the two ends on.
unfoldable pub check_path :
    List SupplyRouteNode
    → List SupplyRouteEdge
    → Option SupplyRouteNode
    → Option SupplyRouteNode
    → Option WorkflowError
check_path nodes edges none last = some ends_not_ends
check_path nodes edges (some first) none = some ends_not_ends
check_path nodes edges (some first) (some last) =
    let degrees : Option WorkflowError = elim (check_degrees edges nodes) [
      | some e ↦ some e
      | none ↦
          check_visited nodes
            (follow nodes edges last.node_id (suc (length nodes)) [] first.node_id 0)
    ] in
    if not (incoming edges first.node_id == 0) || not (outgoing edges last.node_id == 0)
    then some ends_not_ends
    else degrees

-- workflow_is_valid
unfoldable pub workflow_is_valid :
    List SupplyRouteNode → List SupplyRouteEdge → Option WorkflowError
workflow_is_valid nodes edges =
    let rest : Option WorkflowError = elim (check_edges nodes [] edges) [
      | some e ↦ some e
      | none ↦
          check_path nodes edges (last_of_role supplier none nodes)
            (last_of_role supermarket none nodes)
    ] in
    if ltb (length nodes) 2 then some too_few_nodes else elim (check_nodes [] 0 0 nodes) [
      | inl e ↦ some e
      | inr (suppliers, supermarkets) ↦
          if not (suppliers == 1) || not (supermarkets == 1) then some ends_not_unique else rest
    ]
