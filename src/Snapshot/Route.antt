-- ===== src/Snapshot/Route.antt =====
-- Code/Snapshot/src/snapshot.cpp: `route_is_complete_linear`.
use hybrid_blockchain_for_re.Prelude.{
  ℕ, zero, suc, ◌+◌, Bool, true, false, ◌||◌, ◌&&◌, not, Option, none, some, List, [], ◌∷◌, Text,
  codes, pos, text_eq, eqb_ℤ, is_empty, length, ltb, ◌==◌, if◌then◌else◌, member,
}
use hybrid_blockchain_for_re.Snapshot.{RouteNodeInput, RouteEdgeInput, BatchInput, lookup}

abbrev pub has_key {ℓ} : {V : Type ℓ} → Option V → Bool
has_key none = false
has_key (some v) = true

-- incoming[k], zero for a key that is missing.
abbrev pub count_of : Option ℕ → ℕ
count_of none = 0
count_of (some n) = n

-- The loop over the nodes: their counts of incoming edges, all zero; `none` is `return false`.
unfoldable pub count_nodes : List RouteNodeInput → List (Text × ℕ) → Option (List (Text × ℕ))
count_nodes [] incoming = some incoming
count_nodes (n ∷ nodes) incoming =
    let rest = count_nodes nodes ((n.node_id, 0) ∷ incoming) in
    if is_empty n.node_id || has_key (lookup incoming n.node_id) then none else rest

-- The map incoming and the map outgoing.
pub record Links : Type 0 where
  pub incoming : List (Text × ℕ)
  pub outgoing : List (Text × Text)

abbrev pub add_edge : RouteEdgeInput → Links → Links
add_edge e m = record {
  incoming = (e.to_node_id, suc (count_of (lookup m.incoming e.to_node_id))) ∷ m.incoming;
  outgoing = (e.from_node_id, e.to_node_id) ∷ m.outgoing;
}

-- The tests on an edge before it is entered.
abbrev pub edge_refused : RouteEdgeInput → Links → Bool
edge_refused e m =
    text_eq e.from_node_id e.to_node_id
    || (not (has_key (lookup m.incoming e.from_node_id))
        || (not (has_key (lookup m.incoming e.to_node_id))
            || has_key (lookup m.outgoing e.from_node_id)))

-- The loop over the edges.
unfoldable pub link_edges : List RouteEdgeInput → Links → Option Links
link_edges [] m = some m
link_edges (e ∷ edges) m =
    let rest = link_edges edges (add_edge e m) in
    if edge_refused e m || ltb 1 (suc (count_of (lookup m.incoming e.to_node_id)))
    then none
    else rest

-- The loops that find the first and the last node: the only one that is not skipped.
unfoldable pub the_only :
    (RouteNodeInput → Bool) → Option RouteNodeInput → List RouteNodeInput → Option RouteNodeInput
the_only skip found [] = found
the_only skip found (n ∷ nodes) =
    let next = the_only skip found nodes in
    let take_it = the_only skip (some n) nodes in
    if skip n then next else elim found [ none ↦ take_it | some m ↦ none ]

-- nodes_by_id.find, for nodes of different ids.
unfoldable pub node_by_id : List RouteNodeInput → Text → Option RouteNodeInput
node_by_id [] id = none
node_by_id (n ∷ nodes) id = if text_eq n.node_id id then some n else node_by_id nodes id

-- current = next == outgoing.end() ? "" : next->second
abbrev pub or_end : Option Text → Text
or_end none = []
or_end (some id) = id

-- How the loop along the route ends: by `return false`, by its condition, with the nodes it has
-- visited and the id that is current then, or (`exhausted`) for want of fuel.
pub data RouteEnd : Type 0 where
  broken : RouteEnd
  exhausted : RouteEnd
  ended : List RouteNodeInput → Text → RouteEnd

abbrev pub after_node : RouteNodeInput → RouteEnd → RouteEnd
after_node n broken = broken
after_node n exhausted = exhausted
after_node n (ended path current) = ended (n ∷ path) current

-- nodes_by_id.find(current), the test of its step, and the rest of the loop.
abbrev pub visit_node : Option RouteNodeInput → ℕ → RouteEnd → RouteEnd
visit_node none step rest = broken
visit_node (some n) step rest =
    if not (eqb_ℤ n.step_index (pos step)) then broken else after_node n rest

-- The loop along the route.
unfoldable pub follow :
    List RouteNodeInput → List (Text × Text) → ℕ → List Text → Text → ℕ → RouteEnd
follow nodes outgoing zero visited current step = exhausted
follow nodes outgoing (suc f) visited current step =
    let rest =
      follow nodes outgoing f (current ∷ visited) (or_end (lookup outgoing current)) (suc step) in
    if is_empty current || member current visited
    then ended [] current
    else visit_node (node_by_id nodes current) step rest

abbrev pub role_is : Text → Option RouteNodeInput → Bool
role_is role none = false
role_is role (some n) = text_eq n.role role

-- The tests after the loop along the route.
abbrev pub route_closed : List RouteNodeInput → Links → RouteEnd → Bool
route_closed nodes m broken = false
route_closed nodes m exhausted = false
route_closed nodes m (ended path current) =
    is_empty current
    && (length path == length nodes
        && role_is (codes "supermarket")
            (the_only (λ n. has_key (lookup m.outgoing n.node_id)) none nodes))

abbrev pub first_of : List RouteNodeInput → Links → Option RouteNodeInput
first_of nodes m = the_only (λ n. not (count_of (lookup m.incoming n.node_id) == 0)) none nodes

-- The loop along the route from the first node, on one more round than there are nodes.
abbrev pub follow_from : List RouteNodeInput → Links → Option RouteNodeInput → Bool
follow_from nodes m none = false
follow_from nodes m (some first) =
    text_eq first.role (codes "supplier")
    && route_closed nodes m (follow nodes m.outgoing (suc (length nodes)) [] first.node_id 0)

abbrev pub linked_route : List RouteNodeInput → Option Links → Bool
linked_route nodes none = false
linked_route nodes (some m) = follow_from nodes m (first_of nodes m)

abbrev pub counted_route : BatchInput → Option (List (Text × ℕ)) → Bool
counted_route b none = false
counted_route b (some incoming) =
    linked_route b.route_nodes
      (link_edges b.route_edges (record { incoming = incoming; outgoing = [] }))

unfoldable pub route_is_complete_linear : BatchInput → Bool
route_is_complete_linear b =
    not (ltb (length b.route_nodes) 2 || not (length b.route_edges + 1 == length b.route_nodes))
    && counted_route b (count_nodes b.route_nodes [])
