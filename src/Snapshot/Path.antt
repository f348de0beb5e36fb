-- ===== src/Snapshot/Path.antt =====
-- Code/Snapshot/src/snapshot.cpp: a route that is found complete and linear has a path.
use hybrid_blockchain_for_re.Prelude.{
  ℕ, suc, ◌+◌, ◌≡◌, refl, true, ◌&&◌, ◌||◌, not, Option, none, some, List, [], Text, codes, text_eq,
  is_empty, length, length-map, arith, Among-full, ltb, ◌==◌, ==_iff, &&_parts,
}
use hybrid_blockchain_for_re.Snapshot.{RouteNodeInput, BatchInput, lookup}
use hybrid_blockchain_for_re.Snapshot.Route.{
  Links, count_nodes, link_edges, RouteEnd, broken, exhausted, ended, follow, role_is, the_only,
  has_key, route_closed, first_of, follow_from, linked_route, counted_route,
  route_is_complete_linear,
}
use hybrid_blockchain_for_re.Snapshot.Line.{ids_of, count_nodes-Distinct}
use hybrid_blockchain_for_re.Snapshot.Visit.{follow-Visits}
use hybrid_blockchain_for_re.Snapshot.Complete.{
  RoutePath, nodes_found, path-Among, all_on_path, Linked-Connected,
}

counted_route-true :
    (b : BatchInput) (o : Option (List (Text × ℕ)))
    → counted_route b o ≡ true
    → (incoming : List (Text × ℕ)) × (o ≡ some incoming)
      × (linked_route b.route_nodes
            (link_edges b.route_edges (record { incoming = incoming; outgoing = [] }))
          ≡ true)
counted_route-true b none h = absurd (let no = h in cc no)
counted_route-true b (some incoming) h = (incoming, refl, h)

linked_route-true :
    (nodes : List RouteNodeInput) (o : Option Links)
    → linked_route nodes o ≡ true
    → (m : Links) × (o ≡ some m) × (follow_from nodes m (first_of nodes m) ≡ true)
linked_route-true nodes none h = absurd (let no = h in cc no)
linked_route-true nodes (some m) h = (m, refl, h)

follow_from-true :
    (nodes : List RouteNodeInput) (m : Links) (o : Option RouteNodeInput)
    → follow_from nodes m o ≡ true
    → (first : RouteNodeInput) × (route_closed nodes m
          (follow nodes m.outgoing (suc (length nodes)) [] first.node_id 0)
        ≡ true)
follow_from-true nodes m none h = absurd (let no = h in cc no)
follow_from-true nodes m (some first) h = (
  first,
  (&&_parts (text_eq first.role (codes "supplier"))
      (route_closed nodes m (follow nodes m.outgoing (suc (length nodes)) [] first.node_id 0)) h).1,
)

route_closed-true :
    (nodes : List RouteNodeInput) (m : Links) (r : RouteEnd)
    → route_closed nodes m r ≡ true
    → (path : List RouteNodeInput) × (last : Text) × (r ≡ ended path last)
      × (is_empty last ≡ true)
      × (length path ≡ length nodes)
route_closed-true nodes m broken h = absurd (let no = h in cc no)
route_closed-true nodes m exhausted h = absurd (let no = h in cc no)
route_closed-true nodes m (ended path last) h =
    let sold =
      role_is (codes "supermarket")
        (the_only (λ n. has_key (lookup m.outgoing n.node_id)) none nodes) in
    let (empty, more) = &&_parts (is_empty last) (length path == length nodes && sold) h in
    let (size, _) = &&_parts (length path == length nodes) sold more in
    (path, last, refl, empty, (==_iff (length path) (length nodes)).0 size)

no_link : (id : Text) → lookup {V = Text} [] id ≡ none
unfolding lookup
no_link id = refl

-- A route that is found complete and linear has a path.
pub route_path : (b : BatchInput) → route_is_complete_linear b ≡ true → RoutePath b
unfolding route_is_complete_linear
route_path b h =
    let nodes = b.route_nodes in
    let (_, counted) =
      &&_parts (not (ltb (length nodes) 2 || not (length b.route_edges + 1 == length nodes)))
        (counted_route b (count_nodes nodes [])) h in
    let (incoming, is_counted, linked) = counted_route-true b (count_nodes nodes []) counted in
    let start : Links = record { incoming = incoming; outgoing = [] } in
    let (m, is_linked, followed) =
      linked_route-true nodes (link_edges b.route_edges start) linked in
    let (first, closed) = follow_from-true nodes m (first_of nodes m) followed in
    let (path, last, ran, empty, size) =
      route_closed-true nodes m (follow nodes m.outgoing (suc (length nodes)) [] first.node_id 0)
        closed in
    let v =
      follow-Visits nodes m.outgoing (suc (length nodes)) [] first.node_id 0 path last ran empty in
    let distinct = count_nodes-Distinct nodes incoming is_counted in
    let ids_path = length-map (λ (n : RouteNodeInput). n.node_id) path in
    let ids_nodes = length-map (λ (n : RouteNodeInput). n.node_id) nodes in
    record {
      path = path;
      size = size;
      joined = Linked-Connected b.route_edges start m path is_linked no_link v.linked;
      members =
          all_on_path nodes path nodes v.steps v.found
            (Among-full (ids_of path) (ids_of nodes) v.once (path-Among nodes path v.found)
              (omega (arith, size, ids_path, ids_nodes)))
            (nodes_found nodes distinct);
      distinct = distinct;
    }
