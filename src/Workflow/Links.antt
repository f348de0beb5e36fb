-- ===== src/Workflow/Links.antt =====
-- The checks of `workflow_is_valid` on edges (Code/PrivateChain/Server/server.cpp): the next node of
-- its walk is the one that `workflow_successor` gives.
use hybrid_blockchain_for_re.Prelude.{
  ℕ, ◌≡◌, refl, true, false, Option, none, some, List, [], ◌∷◌, Text, pos, text_eq, eqb_ℤ_iff,
  arith, Bool-cases, inl, inr, is_empty, All,
}
use hybrid_blockchain_for_re.Records.{SupplyRouteNode, SupplyRouteEdge}
use hybrid_blockchain_for_re.Workflow.{find_node, successor_in}
use hybrid_blockchain_for_re.Workflow.Valid.{
  is_some, edge_key, check_edges, outgoing, next_of, step_is,
}
use hybrid_blockchain_for_re.Workflow.Checks.{find_node-nil, Named}

-- Every edge leads to an id that is not empty.
abbrev pub Targets : List SupplyRouteEdge → Type 0
Targets edges = All (λ e. is_empty e.to_node_id ≡ false) edges

pub is_some-find_node :
    (nodes : List SupplyRouteNode) (id : Text)
    → Named nodes
    → is_some (find_node nodes id) ≡ true
    → is_empty id ≡ false
is_some-find_node nodes [] h e = absurd (let no = rw (find_node-nil nodes h) at e in cc no)
is_some-find_node nodes (c ∷ id) h e = refl

pub check_edges-Targets :
    (nodes : List SupplyRouteNode) (unique : List Text) (edges : List SupplyRouteEdge)
    → Named nodes
    → check_edges nodes unique edges ≡ none
    → Targets edges
unfolding check_edges
check_edges-Targets nodes unique [] h e = tt
check_edges-Targets nodes unique (x ∷ edges) h e =
    let there : is_some (find_node nodes x.to_node_id) ≡ true = ground (arith, e) in
    (
      is_some-find_node nodes x.to_node_id h there,
      check_edges-Targets nodes (edge_key x ∷ unique) edges h (ground (arith, e)),
    )

-- Once an edge has been found, no other may be.
pub next_of-found :
    (edges : List SupplyRouteEdge) (current next r : Text)
    → is_empty next ≡ false
    → next_of edges current next ≡ some r
    → next ≡ r
unfolding next_of
next_of-found [] current next r h e = ground (arith, e)
next_of-found (x ∷ edges) current next r h e = elim (Bool-cases (text_eq x.from_node_id current)) [
  | inl hit ↦ absurd (let no = rw (hit, h) at e in cc no)
  | inr miss ↦ next_of-found edges current next r h (rw miss at e)
]

-- The validated next node is the successor.
pub next_of-successor :
    (nodes : List SupplyRouteNode) (edges : List SupplyRouteEdge) (current r : Text)
    → Targets edges
    → next_of edges current [] ≡ some r
    → is_empty r ≡ false
    → successor_in nodes edges current ≡ find_node nodes r
unfolding next_of successor_in
next_of-successor nodes [] current r t e h =
    absurd (let none_found : [] ≡ r = ground (arith, e) in let no = rw (← none_found) at h in cc no)
next_of-successor nodes (x ∷ edges) current r t e h =
    elim (Bool-cases (text_eq x.from_node_id current)) [
      | inl hit ↦ rw (hit, next_of-found edges current x.to_node_id r t.0 (rw hit at e)) refl
      | inr miss ↦ rw miss (next_of-successor nodes edges current r t.1 (rw miss at e) h)
    ]

pub outgoing-successor :
    (nodes : List SupplyRouteNode) (edges : List SupplyRouteEdge) (id : Text)
    → outgoing edges id ≡ 0
    → successor_in nodes edges id ≡ none
unfolding outgoing successor_in
outgoing-successor nodes [] id h = refl
outgoing-successor nodes (x ∷ edges) id h = elim (Bool-cases (text_eq x.from_node_id id)) [
  | inl hit ↦ absurd (let no = rw hit at h in omega (arith, no))
  | inr miss ↦ rw miss (outgoing-successor nodes edges id (rw miss at h))
]

pub step_is-some :
    (o : Option SupplyRouteNode) (k : ℕ)
    → step_is o k ≡ true
    → (n : SupplyRouteNode) × (o ≡ some n) × (n.step_index ≡ pos k)
step_is-some none k e = absurd (let no = e in cc no)
step_is-some (some n) k e = (n, refl, (eqb_ℤ_iff n.step_index (pos k)).0 e)
