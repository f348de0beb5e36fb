-- ===== src/Workflow/Order.antt =====
-- Code/PrivateChain/Server/server.cpp, `ordered_workflow_nodes`: it ends, and an order that it
-- returns is a path through every node of the route.
use hybrid_blockchain_for_re.Prelude.{
  ℕ, zero, suc, ◌+◌, ◌≤◌, ◌<◌, ◌≡◌, refl, true, Option, none, some, List, [], ◌∷◌, map, Text,
  text_eq, text_eq_refl, length, length-map, arith, Bool-cases, inl, inr, ◌≢◌, member, Distinct,
  Among, Fresh, Fresh-head, Fresh-tail, length-Among, Among-full,
}
use hybrid_blockchain_for_re.Records.{SupplyRouteNode, SupplyRouteEdge}
use hybrid_blockchain_for_re.Workflow.{
  RuntimeWorkflow, find_node, has_incoming, first_node, first_workflow_node, successor_in,
  workflow_successor, RouteWalk, cycle, exhausted, walked, push_node, walk, refused, ordered,
  out_of_fuel, ordered_workflow_nodes, close_walk,
}

-- The ids of nodes.
abbrev pub ids : List SupplyRouteNode → List Text
ids ns = map (λ n. n.node_id) ns

-- A node that may be there is one of the list.
abbrev pub IsAmong : Option SupplyRouteNode → List SupplyRouteNode → Type 0
IsAmong none nodes = Unit {0}
IsAmong (some n) nodes = member n.node_id (ids nodes) ≡ true

IsAmong-cons :
    (o : Option SupplyRouteNode) (n : SupplyRouteNode) (nodes : List SupplyRouteNode)
    → IsAmong o nodes
    → IsAmong o (n ∷ nodes)
unfolding member
IsAmong-cons none n nodes h = tt
IsAmong-cons (some m) n nodes h = ground (arith, h)

pub find_node-IsAmong :
    (nodes : List SupplyRouteNode) (id : Text) → IsAmong (find_node nodes id) nodes
unfolding find_node member
find_node-IsAmong [] id = tt
find_node-IsAmong (n ∷ nodes) id = elim (Bool-cases (text_eq n.node_id id)) [
  | inl hit ↦ rw hit (rw (text_eq_refl n.node_id) refl)
  | inr miss ↦ rw miss (IsAmong-cons (find_node nodes id) n nodes (find_node-IsAmong nodes id))
]

first_node-IsAmong :
    (edges : List SupplyRouteEdge) (nodes : List SupplyRouteNode)
    → IsAmong (first_node edges nodes) nodes
unfolding first_node member
first_node-IsAmong edges [] = tt
first_node-IsAmong edges (n ∷ nodes) = elim (Bool-cases (has_incoming edges n.node_id)) [
  | inl hit ↦
      rw hit (IsAmong-cons (first_node edges nodes) n nodes (first_node-IsAmong edges nodes))
  | inr miss ↦ rw miss (rw (text_eq_refl n.node_id) refl)
]

successor_in-IsAmong :
    (nodes : List SupplyRouteNode) (edges : List SupplyRouteEdge) (id : Text)
    → IsAmong (successor_in nodes edges id) nodes
unfolding successor_in
successor_in-IsAmong nodes [] id = tt
successor_in-IsAmong nodes (e ∷ edges) id = elim (Bool-cases (text_eq e.from_node_id id)) [
  | inl hit ↦ rw hit (find_node-IsAmong nodes e.to_node_id)
  | inr miss ↦ rw miss (successor_in-IsAmong nodes edges id)
]

push_node-ends : (n : SupplyRouteNode) (r : RouteWalk) → r ≢ exhausted → push_node n r ≢ exhausted
push_node-ends n cycle h e = cc
push_node-ends n exhausted h e = h refl
push_node-ends n (walked ns) h e = cc

-- The nodes from one on, each the successor of the one before, until there is none.
abbrev pub Follows : RuntimeWorkflow → Option SupplyRouteNode → List SupplyRouteNode → Type 0
Follows w none [] = Unit {0}
Follows w none (n ∷ ns) = ⊥
Follows w (some m) [] = ⊥
Follows w (some m) (n ∷ ns) = (m ≡ n) × Follows w (workflow_successor w m.node_id) ns

module _ (w : RuntimeWorkflow) where
  successor-IsAmong : (id : Text) → IsAmong (workflow_successor w id) w.nodes
  unfolding workflow_successor
  successor-IsAmong id = successor_in-IsAmong w.nodes w.edges id

  walk-ends :
      (f : ℕ) (visited : List Text) (current : Option SupplyRouteNode)
      → Distinct visited
      → Among visited (ids w.nodes)
      → IsAmong current w.nodes
      → length w.nodes < f + length visited
      → walk w f visited current ≢ exhausted
  unfolding walk
  walk-ends zero visited current d a m l e = absurd (
      omega (
        arith,
        length-Among visited (ids w.nodes) d a,
        length-map (λ (n : SupplyRouteNode). n.node_id) w.nodes,
        l,
      ))
  walk-ends (suc f) visited none d a m l e = cc
  walk-ends (suc f) visited (some n) d a m l e = elim (Bool-cases (member n.node_id visited)) [
    | inl again ↦ absurd (let no = rw again at e in cc no)
    | inr new ↦
        push_node-ends n _
          (walk-ends f (n.node_id ∷ visited) (workflow_successor w n.node_id) (new, d) (m, a)
            (successor-IsAmong n.node_id) (omega (arith, l)))
          (rw new at e)
  ]

  -- What a walk to the end has gone through.
  pub record IsWalk (visited : List Text) (current : Option SupplyRouteNode)
      (ns : List SupplyRouteNode) : Type 0 where
    pub follows : Follows w current ns
    pub distinct : Distinct (ids ns)
    pub fresh : Fresh (ids ns) visited
    pub among : Among (ids ns) (ids w.nodes)

  push_node-walked :
      (n : SupplyRouteNode) (r : RouteWalk) (ns : List SupplyRouteNode)
      → push_node n r ≡ walked ns
      → (ms : List SupplyRouteNode) × (r ≡ walked ms) × (ns ≡ n ∷ ms)
  push_node-walked n cycle ns e = absurd (let no = e in cc no)
  push_node-walked n exhausted ns e = absurd (let no = e in cc no)
  push_node-walked n (walked ms) ns e = (ms, refl, ground (arith, e))

  pub walk-IsWalk :
      (f : ℕ) (visited : List Text) (current : Option SupplyRouteNode) (ns : List SupplyRouteNode)
      → IsAmong current w.nodes
      → walk w f visited current ≡ walked ns
      → IsWalk visited current ns
  unfolding walk
  walk-IsWalk zero visited current ns m e = absurd (let no = e in cc no)
  walk-IsWalk (suc f) visited none ns m e =
      let empty : ns ≡ [] = ground arith in
      rw empty (record { follows = tt; distinct = tt; fresh = tt; among = tt })
  walk-IsWalk (suc f) visited (some n) ns m e = elim (Bool-cases (member n.node_id visited)) [
    | inl again ↦ absurd (let no = rw again at e in cc no)
    | inr new ↦
        let (ms, run, shape) = push_node-walked n _ ns (rw new at e) in
        let ih =
          walk-IsWalk f (n.node_id ∷ visited) (workflow_successor w n.node_id) ms
            (successor-IsAmong n.node_id) run in
        rw shape (record {
          follows = (refl, ih.follows);
          distinct = (Fresh-head n.node_id (ids ms) visited ih.fresh, ih.distinct);
          fresh = (new, Fresh-tail n.node_id (ids ms) visited ih.fresh);
          among = (m, ih.among);
        })
  ]

  -- What an order of the route is: the path from the first node on, along the successors, to a node
  -- that has none, through as many nodes as the route has, no id twice, and every id there.
  pub record IsOrder (ns : List SupplyRouteNode) : Type 0 where
    pub follows : Follows w (first_workflow_node w) ns
    pub distinct : Distinct (ids ns)
    pub size : length ns ≡ length w.nodes
    pub covers : Among (ids w.nodes) (ids ns)

  first-IsAmong : IsAmong (first_workflow_node w) w.nodes
  unfolding first_workflow_node
  first-IsAmong = first_node-IsAmong w.edges w.nodes

  pub close_walk-ordered :
      (r : RouteWalk) (ns : List SupplyRouteNode)
      → close_walk w r ≡ ordered ns
      → (r ≡ walked ns) × (length ns ≡ length w.nodes)
  close_walk-ordered cycle ns e = absurd (let no = e in cc no)
  close_walk-ordered exhausted ns e = absurd (let no = e in cc no)
  close_walk-ordered (walked ms) ns e = ground arith

  close_walk-fuel : (r : RouteWalk) → r ≢ exhausted → close_walk w r ≢ refused out_of_fuel
  close_walk-fuel cycle h e = cc
  close_walk-fuel exhausted h e = h refl
  close_walk-fuel (walked ns) h e = ground arith

  -- The walk through the saved route always ends before its fuel does.
  pub ordered_workflow_nodes-ends : ordered_workflow_nodes w ≢ refused out_of_fuel
  unfolding ordered_workflow_nodes
  ordered_workflow_nodes-ends = close_walk-fuel _ (
      walk-ends (suc (suc (length w.nodes))) [] (first_workflow_node w) tt tt first-IsAmong
        (omega arith))

  -- A list that ordered_workflow_nodes returns is the path from the first node without an edge into
  -- it along the successors to a node that has none; no id is there twice, and every id of the route
  -- is there.
  pub ordered_workflow_nodes-IsOrder :
      (ns : List SupplyRouteNode) → ordered_workflow_nodes w ≡ ordered ns → IsOrder ns
  unfolding ordered_workflow_nodes
  ordered_workflow_nodes-IsOrder ns e =
      let (run, size) = close_walk-ordered _ ns e in
      let v =
        walk-IsWalk (suc (suc (length w.nodes))) [] (first_workflow_node w) ns first-IsAmong run in
      let counts : length (ids w.nodes) ≤ length (ids ns) = omega (
        arith,
        length-map (λ (n : SupplyRouteNode). n.node_id) ns,
        length-map (λ (n : SupplyRouteNode). n.node_id) w.nodes,
        size,
      ) in
      record {
        follows = v.follows;
        distinct = v.distinct;
        size = size;
        covers = Among-full (ids ns) (ids w.nodes) v.distinct v.among counts;
      }
