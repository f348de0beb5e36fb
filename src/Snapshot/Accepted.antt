-- ===== src/Snapshot/Accepted.antt =====
-- Code/Snapshot/src/snapshot.cpp: what a batch has that `evaluate_eligibility` finds eligible.
use hybrid_blockchain_for_re.Prelude.{
  ℕ, suc, ◌+◌, ◌≡◌, subst, true, some, [], ◌++◌, codes, get_elem?, arith, decimal,
}
use hybrid_blockchain_for_re.Snapshot.{StageInput, BatchInput}
use hybrid_blockchain_for_re.Snapshot.Route.{route_is_complete_linear}
use hybrid_blockchain_for_re.Snapshot.Eligibility.{
  sort_nodes, batch_errors, end_errors, route_errors, block_errors, link_errors, event_errors,
  label_of, stage_errors, all_stage_errors, evaluate_eligibility, errors_of,
}
use hybrid_blockchain_for_re.Snapshot.Errors.{
  is_empty-nil, append_nil, all_stage_errors-nil, matching_errors-nil, route_errors-nil,
}
use hybrid_blockchain_for_re.Snapshot.Checks.{
  BlockSound, LinkSound, EventSound, MatchSound, block_errors-nil, link_errors-nil,
  event_errors-nil, match_errors-nil,
}

zero_add : (i : ℕ) → 0 + i ≡ i
zero_add i = omega arith

stage_errors-nil :
    (b : BatchInput) (i : ℕ) (s : StageInput)
    → stage_errors b i s ≡ []
    → BlockSound s × LinkSound b i s × EventSound s
stage_errors-nil b i s h =
    let (h1, events) =
      append_nil (block_errors (label_of s) s ++ link_errors b i (label_of s) s) (event_errors s)
        h in
    let (own, links) =
      append_nil (block_errors (label_of s) s) (link_errors b i (label_of s) s) h1 in
    (
      block_errors-nil (label_of s) s own,
      link_errors-nil b i (label_of s) s links,
      event_errors-nil s events,
    )

-- The parts of an empty list of errors that say something of the route and of the stages.
pub errors_of-nil :
    (b : BatchInput)
    → (evaluate_eligibility b).eligible ≡ true
    → (end_errors b.stages ≡ [])
      × (route_errors b (sort_nodes b.route_nodes) ≡ [])
      × (all_stage_errors b 0 b.stages ≡ [])
unfolding evaluate_eligibility
errors_of-nil b h =
    let first = b.source_errors ++ batch_errors b in
    let route = route_errors b (sort_nodes b.route_nodes) in
    let (h1, stages) =
      append_nil (first ++ end_errors b.stages ++ route) (all_stage_errors b 0 b.stages)
        (is_empty-nil (errors_of b) h) in
    let (h2, routed) = append_nil (first ++ end_errors b.stages) route h1 in
    let (_, ends) = append_nil first (end_errors b.stages) h2 in (ends, routed, stages)

pub eligible-IsSound :
    (b : BatchInput) (i : ℕ) (s : StageInput)
    → (evaluate_eligibility b).eligible ≡ true
    → get_elem? b.stages i ≡ some s
    → (route_is_complete_linear b ≡ true)
      × BlockSound s
      × LinkSound b i s
      × EventSound s
      × MatchSound b i s
eligible-IsSound b i s h at =
    let (_, routed, stages) = errors_of-nil b h in
    let (linear, size, matched) = route_errors-nil b (sort_nodes b.route_nodes) routed in
    let (n, at_i, same) =
      matching_errors-nil 0 (sort_nodes b.route_nodes) b.stages i s matched size at in
    let (own, links, events) = stage_errors-nil b i s (
      subst (λ j. stage_errors b j s ≡ []) (zero_add i)
        (all_stage_errors-nil b 0 b.stages i s stages at)) in
    let (id, role) = match_errors-nil (codes "Route stage " ++ decimal (suc (0 + i))) n s same in
    (linear, own, links, events, (n, at_i, id, role))
