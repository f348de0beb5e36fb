-- ===== src/Snapshot/Along.antt =====
-- Code/Snapshot/src/snapshot.cpp: the stages of an eligible batch follow its saved route.
use hybrid_blockchain_for_re.Prelude.{
  All-at, some_injective, ℕ, suc, ◌+◌, ◌<◌, ◌≡◌, sym, ap, subst, ◌∙◌, true, false, some, List, [],
  ◌∷◌, pos, text_eq, text_eq_false→ne, length, get_elem?, get_elem?-some_lt, arith, All, member,
  Distinct, ||_parts,
}
use hybrid_blockchain_for_re.Snapshot.{RouteNodeInput, StageInput, BatchInput}
use hybrid_blockchain_for_re.Snapshot.Eligibility.{sort_nodes, evaluate_eligibility}
use hybrid_blockchain_for_re.Snapshot.Line.{ids_of, HasEdge}
use hybrid_blockchain_for_re.Snapshot.Sorted.{
  OffStep, StepsDiffer, sort_nodes-All, length-sort_nodes, sort_nodes-Steps,
}
use hybrid_blockchain_for_re.Snapshot.Complete.{AtStep, RoutePath, Steps-at}
use hybrid_blockchain_for_re.Snapshot.Errors.{route_errors-nil}
use hybrid_blockchain_for_re.Snapshot.Accepted.{errors_of-nil, eligible-IsSound}
use hybrid_blockchain_for_re.Snapshot.Path.{route_path}

pos_injective : (i j : ℕ) → pos i ≡ pos j → i ≡ j
pos_injective i j e = cc e

-- Nodes of the path with one step are one node.
same_node :
    (path : List RouteNodeInput) (m n : RouteNodeInput)
    → AtStep path m
    → AtStep path n
    → m.step_index ≡ n.step_index
    → m ≡ n
same_node path m n (i, at_i, step_i) (j, at_j, step_j) e =
    let same : i ≡ j = pos_injective i j (sym step_i ∙ e ∙ step_j) in
    some_injective m n (sym at_i ∙ ap (get_elem? path) same ∙ at_j)

new_step :
    (path : List RouteNodeInput) (n : RouteNodeInput) (ys : List RouteNodeInput)
    → AtStep path n
    → All (AtStep path) ys
    → member n.node_id (ids_of ys) ≡ false
    → OffStep n.step_index ys
unfolding member
new_step path n [] p a new = tt
new_step path n (y ∷ ys) p a new =
    let (ne, rest) = ||_parts (text_eq y.node_id n.node_id) (member n.node_id (ids_of ys)) new in
    (
      λ e.
          text_eq_false→ne y.node_id n.node_id ne
            (ap (λ x. x.node_id) (same_node path y n a.0 p e)),
      new_step path n ys p a.1 rest,
    )

members-StepsDiffer :
    (path nodes : List RouteNodeInput)
    → All (AtStep path) nodes
    → Distinct (ids_of nodes)
    → StepsDiffer nodes
members-StepsDiffer path [] a d = tt
members-StepsDiffer path (n ∷ nodes) a d =
    (new_step path n nodes a.0 a.1 d.0, members-StepsDiffer path nodes a.1 d.1)

members-bounded :
    (path nodes : List RouteNodeInput) (bound : ℕ)
    → length path ≡ bound
    → All (AtStep path) nodes
    → All (λ n. (i : ℕ) × (n.step_index ≡ pos i) × (i < bound)) nodes
members-bounded path [] bound e a = tt
members-bounded path (n ∷ nodes) bound e a =
    let (i, at, step) = a.0 in
    let low = get_elem?-some_lt path i n at in
    ((i, step, omega (arith, low, e)), members-bounded path nodes bound e a.1)

-- The sorted nodes are those of the path, in its order.
sorted_on_path :
    (b : BatchInput) (r : RoutePath b) (i : ℕ) (n : RouteNodeInput)
    → get_elem? (sort_nodes b.route_nodes) i ≡ some n
    → get_elem? r.path i ≡ some n
sorted_on_path b r i n at =
    let steps =
      sort_nodes-Steps b.route_nodes
        (members-bounded r.path b.route_nodes (length b.route_nodes) r.size r.members)
        (members-StepsDiffer r.path b.route_nodes r.members r.distinct) in
    let (j, at_j, step_j) =
      All-at (AtStep r.path) (sort_nodes b.route_nodes) i n
        (sort_nodes-All (AtStep r.path) b.route_nodes r.members) at in
    let plain : 0 + i ≡ i = omega arith in
    let same : j ≡ i =
      pos_injective j i
        (sym step_j ∙ Steps-at 0 (sort_nodes b.route_nodes) i n steps at ∙ ap pos plain) in
    subst (λ k. get_elem? r.path k ≡ some n) same at_j

-- A batch that evaluate_eligibility finds eligible has as many stages as its saved route has nodes,
-- and the route has an edge from the node of each stage to the node of the next one.
pub eligible-follows_route :
    (b : BatchInput)
    → (evaluate_eligibility b).eligible ≡ true
    → (length b.stages ≡ length b.route_nodes)
      × ((i : ℕ) (s t : StageInput)
          → get_elem? b.stages i ≡ some s
          → get_elem? b.stages (suc i) ≡ some t
          → HasEdge b.route_edges s.route_node_id t.route_node_id)
eligible-follows_route b h =
    let (_, routed, _) = errors_of-nil b h in
    let (linear, size, _) = route_errors-nil b (sort_nodes b.route_nodes) routed in
    let r = route_path b linear in
    (
      sym size ∙ length-sort_nodes b.route_nodes,
      λ i s t at_s at_t.
          let (_, _, _, _, (m, at_m, id_m, _)) = eligible-IsSound b i s h at_s in
          let (_, _, _, _, (n, at_n, id_n, _)) = eligible-IsSound b (suc i) t h at_t in
          let edge =
            r.joined i m n (sorted_on_path b r i m at_m) (sorted_on_path b r (suc i) n at_n) in
          subst (λ x. HasEdge b.route_edges x t.route_node_id) (sym id_m)
            (subst (HasEdge b.route_edges m.node_id) (sym id_n) edge),
    )
