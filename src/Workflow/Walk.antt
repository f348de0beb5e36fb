-- ===== src/Workflow/Walk.antt =====
-- The walk of `workflow_is_valid` (Code/PrivateChain/Server/server.cpp) against that of
-- `ordered_workflow_nodes`.
use hybrid_blockchain_for_re.Prelude.{
  ℕ, zero, suc, ◌+◌, ◌≡◌, refl, ap, ◌∙◌, false, some, List, [], ◌∷◌, Text, pos, text_eq, text_eq→eq,
  length, arith, Bool-cases, Option-cases, inl, inr, member, is_empty,
}
use hybrid_blockchain_for_re.Records.{SupplyRouteNode}
use hybrid_blockchain_for_re.Workflow.{
  RuntimeWorkflow, find_node, successor_in, workflow_successor, walked, push_node, walk,
}
use hybrid_blockchain_for_re.Workflow.Valid.{outgoing, next_of, step_is, follow}
use hybrid_blockchain_for_re.Workflow.Checks.{find_node-id}
use hybrid_blockchain_for_re.Workflow.Links.{
  Targets, next_of-successor, outgoing-successor, step_is-some,
}

-- Step indexes that count up.
abbrev pub Steps : ℕ → List SupplyRouteNode → Type 0
Steps k [] = Unit {0}
Steps k (n ∷ ns) = (n.step_index ≡ pos k) × Steps (suc k) ns

-- The id of the last node.
abbrev pub last_id : List SupplyRouteNode → Text
last_id [] = []
last_id (n ∷ []) = n.node_id
last_id (n ∷ m ∷ ns) = last_id (m ∷ ns)

-- The walk of ordered_workflow_nodes that goes with a run of the loop of workflow_is_valid.
pub record Walked (w : RuntimeWorkflow) (last : Text) (f k : ℕ) (visited : List Text)
    (current : Text) (seen : List Text) : Type 0 where
  pub start : SupplyRouteNode
  pub nodes : List SupplyRouteNode
  pub start_eq : find_node w.nodes current ≡ some start
  pub walk_eq : walk w (suc f) visited (some start) ≡ walked (start ∷ nodes)
  pub size : length seen ≡ length visited + suc (length nodes)
  pub steps : Steps k (start ∷ nodes)
  pub ends : last_id (start ∷ nodes) ≡ last

module _ (w : RuntimeWorkflow) (last : Text) (targets : Targets w.edges)
    (final : outgoing w.edges last ≡ 0) where
  -- The walk's last round and its end.
  walk-last :
      (f : ℕ) (visited : List Text) (n : SupplyRouteNode)
      → member n.node_id visited ≡ false
      → n.node_id ≡ last
      → walk w (suc (suc f)) visited (some n) ≡ walked (n ∷ [])
  unfolding walk workflow_successor
  walk-last f visited n new e = rw (new, e, outgoing-successor w.nodes w.edges last final) refl

  walk-on :
      (f : ℕ) (visited : List Text) (n m : SupplyRouteNode) (ns : List SupplyRouteNode)
      → member n.node_id visited ≡ false
      → successor_in w.nodes w.edges n.node_id ≡ some m
      → walk w (suc f) (n.node_id ∷ visited) (some m) ≡ walked ns
      → walk w (suc (suc f)) visited (some n) ≡ walked (n ∷ ns)
  unfolding walk workflow_successor
  walk-on f visited n m ns new next rest = rw (new, next) (ap (push_node n) rest)

  extend :
      (f : ℕ) (visited : List Text) (current next : Text) (k : ℕ) (seen : List Text)
      (n : SupplyRouteNode)
      → find_node w.nodes current ≡ some n
      → n.step_index ≡ pos k
      → member current visited ≡ false
      → next_of w.edges current [] ≡ some next
      → is_empty next ≡ false
      → Walked w last f (suc k) (current ∷ visited) next seen
      → Walked w last (suc f) k visited current seen
  extend f visited current next k seen n found step new hit named v =
      let id = find_node-id w.nodes current n found in
      let onto : successor_in w.nodes w.edges n.node_id ≡ some v.start =
        rw id (next_of-successor w.nodes w.edges current next targets hit named ∙ v.start_eq) in
      record {
        start = n;
        nodes = v.start ∷ v.nodes;
        start_eq = found;
        walk_eq =
            walk-on f visited n v.start (v.start ∷ v.nodes) (rw id new) onto (rw id (v.walk_eq));
        size = omega (arith, v.size);
        steps = (step, v.steps);
        ends = v.ends;
      }

  pub follow-Walked :
      (f : ℕ) (visited : List Text) (current : Text) (k : ℕ) (seen : List Text)
      → follow w.nodes w.edges last f visited current k ≡ inr seen
      → Walked w last f k visited current seen
  unfolding follow
  follow-Walked zero visited current k seen e = absurd (let no = e in cc no)
  follow-Walked (suc f) visited current k seen e = elim (Bool-cases (member current visited)) [
    | inl again ↦ absurd (let no = rw again at e in cc no)
    | inr new ↦ elim (Bool-cases (step_is (find_node w.nodes current) k)) [
      | inr off ↦ absurd (let no = rw (new, off) at e in cc no)
      | inl on ↦
          let (n, found, step) = step_is-some (find_node w.nodes current) k on in
          let id = find_node-id w.nodes current n found in
          elim (Bool-cases (text_eq current last)) [
            | inl stop ↦
                let done : current ∷ visited ≡ seen = ground (arith, rw (new, on, stop) at e) in
                record {
                  start = n;
                  nodes = [];
                  start_eq = found;
                  walk_eq = walk-last f visited n (rw id new) (id ∙ text_eq→eq current last stop);
                  size = omega (arith, ap (length {A = Text}) done);
                  steps = (step, tt);
                  ends = id ∙ text_eq→eq current last stop;
                }
            | inr onward ↦ elim (Option-cases (next_of w.edges current [])) [
              | inl two ↦ absurd (let no = rw (new, on, onward, two) at e in cc no)
              | inr (next, hit) ↦ elim (Bool-cases (is_empty next)) [
                | inl no_name ↦ absurd (let no = rw (new, on, onward, hit, no_name) at e in cc no)
                | inr named ↦ extend f visited current next k seen n found step new hit named (
                    follow-Walked f (current ∷ visited) next (suc k) seen
                      (rw (new, on, onward, hit, named) at e))
              ]
            ]
          ]
    ]
  ]
