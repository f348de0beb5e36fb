-- ===== src/Workflow/Planned.antt =====
-- Code/PrivateChain/Server/server.cpp: a route that `workflow_is_valid` accepts is one that
-- `ordered_workflow_nodes` can order.
use hybrid_blockchain_for_re.Prelude.{
  suc, ◌≡◌, refl, sym, ap, ◌∙◌, Option, none, some, List, [], ◌∷◌, Text, length, arith, inl, inr,
  ◌⊎◌,
}
use hybrid_blockchain_for_re.Records.{SupplyRouteNode, SupplyRouteEdge}
use hybrid_blockchain_for_re.Workflow.{
  RuntimeWorkflow, first_workflow_node, walked, walk, ordered, ordered_workflow_nodes,
}
use hybrid_blockchain_for_re.Workflow.Valid.{
  WorkflowError, supplier, supermarket, check_nodes, check_edges, incoming, outgoing, last_of_role,
  check_degrees, follow, check_visited, check_path, workflow_is_valid,
}
use hybrid_blockchain_for_re.Workflow.Checks.{
  check_nodes-Named, role_count, check_nodes-count, first_node-supplier, first_node-find_node,
}
use hybrid_blockchain_for_re.Workflow.Links.{check_edges-Targets}
use hybrid_blockchain_for_re.Workflow.Walk.{Steps, last_id, follow-Walked}

-- What workflow_is_valid has checked when it accepts.
record Checked (nodes : List SupplyRouteNode) (edges : List SupplyRouteEdge) : Type 0 where
  first : SupplyRouteNode
  last : SupplyRouteNode
  seen : List Text
  nodes_ok : check_nodes [] 0 0 nodes ≡ inr (1, 1)
  edges_ok : check_edges nodes [] edges ≡ none
  first_eq : last_of_role supplier none nodes ≡ some first
  last_eq : last_of_role supermarket none nodes ≡ some last
  first_free : incoming edges first.node_id ≡ 0
  last_free : outgoing edges last.node_id ≡ 0
  degrees_ok : check_degrees edges nodes ≡ none
  follow_eq : follow nodes edges last.node_id (suc (length nodes)) [] first.node_id 0 ≡ inr seen
  size : length seen ≡ length nodes

nodes_passed :
    (nodes : List SupplyRouteNode) (edges : List SupplyRouteEdge)
    → workflow_is_valid nodes edges ≡ none
    → (check_nodes [] 0 0 nodes ≡ inr (1, 1))
      × (check_edges nodes [] edges ≡ none)
      × (check_path nodes edges
            (last_of_role supplier none nodes)
            (last_of_role supermarket none nodes)
          ≡ none)
unfolding workflow_is_valid
nodes_passed nodes edges e = ground arith

visited_passed :
    (nodes : List SupplyRouteNode) (r : WorkflowError ⊎ List Text)
    → check_visited nodes r ≡ none
    → (seen : List Text) × (r ≡ inr seen) × (length seen ≡ length nodes)
visited_passed nodes (inl x) e = absurd (let no = e in cc no)
visited_passed nodes (inr seen) e = (seen, refl, ground arith)

path_passed :
    (nodes : List SupplyRouteNode) (edges : List SupplyRouteEdge) (a b : SupplyRouteNode)
    → check_path nodes edges (some a) (some b) ≡ none
    → (incoming edges a.node_id ≡ 0)
      × (outgoing edges b.node_id ≡ 0)
      × (check_degrees edges nodes ≡ none)
      × (check_visited nodes (follow nodes edges b.node_id (suc (length nodes)) [] a.node_id 0)
          ≡ none)
unfolding check_path
path_passed nodes edges a b e = ground arith

path_ends :
    (nodes : List SupplyRouteNode) (edges : List SupplyRouteEdge) (a b : Option SupplyRouteNode)
    → check_path nodes edges a b ≡ none
    → (x : SupplyRouteNode) × (y : SupplyRouteNode) × (a ≡ some x) × (b ≡ some y)
unfolding check_path
path_ends nodes edges none b e = absurd (let no = e in cc no)
path_ends nodes edges (some x) none e = absurd (let no = e in cc no)
path_ends nodes edges (some x) (some y) e = (x, y, refl, refl)

workflow_is_valid-Checked :
    (nodes : List SupplyRouteNode) (edges : List SupplyRouteEdge)
    → workflow_is_valid nodes edges ≡ none
    → Checked nodes edges
workflow_is_valid-Checked nodes edges e =
    let (counted, joined, path) = nodes_passed nodes edges e in
    let (x, y, ex, ey) = path_ends nodes edges _ _ path in
    let (free, final, degrees, visits) = path_passed nodes edges x y (rw (ex, ey) at path) in
    let (seen, run, size) = visited_passed nodes _ visits in
    record {
      first = x;
      last = y;
      seen = seen;
      nodes_ok = counted;
      edges_ok = joined;
      first_eq = ex;
      last_eq = ey;
      first_free = free;
      last_free = final;
      degrees_ok = degrees;
      follow_eq = run;
      size = size;
    }

-- The order of an accepted route: it starts with the supplier, ends with the id of the supermarket,
-- and the step indexes count its nodes from 0.
pub record IsPlanned (w : RuntimeWorkflow) : Type 0 where
  pub first : SupplyRouteNode
  pub nodes : List SupplyRouteNode
  pub order_eq : ordered_workflow_nodes w ≡ ordered (first ∷ nodes)
  pub starts : last_of_role supplier none w.nodes ≡ some first
  pub steps : Steps 0 (first ∷ nodes)
  pub ends :
      (n : SupplyRouteNode) × (last_of_role supermarket none w.nodes ≡ some n)
      × (last_id (first ∷ nodes) ≡ n.node_id)

ordered_from :
    (w : RuntimeWorkflow) (first : SupplyRouteNode) (ns : List SupplyRouteNode)
    → first_workflow_node w ≡ some first
    → walk w (suc (suc (length w.nodes))) [] (some first) ≡ walked (first ∷ ns)
    → suc (length ns) ≡ length w.nodes
    → ordered_workflow_nodes w ≡ ordered (first ∷ ns)
unfolding ordered_workflow_nodes
ordered_from w first ns start run size = rw (start, run) (ground (arith, size))

-- A route that workflow_is_valid accepts, whatever its id: ordered_workflow_nodes orders it, from
-- the supplier to the supermarket, by the step indexes 0, 1, 2, and so on.
pub workflow_is_valid-IsPlanned :
    (w : RuntimeWorkflow) → workflow_is_valid w.nodes w.edges ≡ none → IsPlanned w
workflow_is_valid-IsPlanned w e =
    let c = workflow_is_valid-Checked w.nodes w.edges e in
    let named = check_nodes-Named [] 0 0 w.nodes (1, 1) c.nodes_ok in
    let targets = check_edges-Targets w.nodes [] w.edges named c.edges_ok in
    let one : role_count supplier w.nodes ≡ 1 =
      omega (arith, check_nodes-count [] 0 0 w.nodes 1 1 c.nodes_ok) in
    let start =
      first_node-supplier w.edges w.nodes c.first one c.degrees_ok c.first_eq c.first_free in
    let v =
      follow-Walked w c.last.node_id targets c.last_free (suc (length w.nodes)) [] c.first.node_id 0
        c.seen c.follow_eq in
    let same : v.start ≡ c.first =
      ground (arith, sym v.start_eq ∙ first_node-find_node w.edges w.nodes c.first start) in
    record {
      first = v.start;
      nodes = v.nodes;
      order_eq =
          ordered_from w v.start v.nodes (unfold first_workflow_node in start ∙ ap some (sym same))
            v.walk_eq (omega (arith, v.size, c.size));
      starts = c.first_eq ∙ ap some (sym same);
      steps = v.steps;
      ends = (c.last, c.last_eq, v.ends);
    }
