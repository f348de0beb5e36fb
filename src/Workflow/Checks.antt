-- ===== src/Workflow/Checks.antt =====
-- The checks of `workflow_is_valid` on nodes (Code/PrivateChain/Server/server.cpp): what they show of
-- the look-ups in the route.
use hybrid_blockchain_for_re.Prelude.{
  ℕ, ◌+◌, ◌≡◌, refl, sym, ap, ◌∙◌, false, not, Option, none, some, List, [], ◌∷◌, Text, text_eq,
  text_eq→eq, text_eq_refl, arith, Bool-cases, inl, inr, is_empty, All, ◌==◌,
}
use hybrid_blockchain_for_re.Records.{SupplyRouteNode, SupplyRouteEdge}
use hybrid_blockchain_for_re.Workflow.{find_node, has_incoming, first_node}
use hybrid_blockchain_for_re.Workflow.Valid.{
  supplier, supermarket, one_if, check_nodes, incoming, last_of_role, check_degrees,
}

pub find_node-id :
    (nodes : List SupplyRouteNode) (id : Text) (n : SupplyRouteNode)
    → find_node nodes id ≡ some n
    → n.node_id ≡ id
unfolding find_node
find_node-id [] id n e = absurd (let no = e in cc no)
find_node-id (m ∷ nodes) id n e = elim (Bool-cases (text_eq m.node_id id)) [
  | inl hit ↦
      let same : m ≡ n = ground (arith, rw hit at e) in
      ap (λ k. k.node_id) (sym same) ∙ text_eq→eq m.node_id id hit
  | inr miss ↦ find_node-id nodes id n (rw miss at e)
]

-- Every node has an id.
abbrev pub Named : List SupplyRouteNode → Type 0
Named nodes = All (λ n. is_empty n.node_id ≡ false) nodes

pub check_nodes-step :
    (by_id : List SupplyRouteNode) (a b : ℕ) (n : SupplyRouteNode) (nodes : List SupplyRouteNode)
    (r : ℕ × ℕ)
    → check_nodes by_id a b (n ∷ nodes) ≡ inr r
    → (is_empty n.node_id ≡ false)
      × (check_nodes (n ∷ by_id) (a + one_if n.role supplier) (b + one_if n.role supermarket) nodes
          ≡ inr r)
unfolding check_nodes
check_nodes-step by_id a b n nodes r e = ground arith

pub check_nodes-Named :
    (by_id : List SupplyRouteNode) (a b : ℕ) (nodes : List SupplyRouteNode) (r : ℕ × ℕ)
    → check_nodes by_id a b nodes ≡ inr r
    → Named nodes
check_nodes-Named by_id a b [] r e = tt
check_nodes-Named by_id a b (n ∷ nodes) r e =
    let (named, rest) = check_nodes-step by_id a b n nodes r e in
    (
      named,
      check_nodes-Named (n ∷ by_id) (a + one_if n.role supplier) (b + one_if n.role supermarket)
          nodes r rest,
    )

pub find_node-nil : (nodes : List SupplyRouteNode) → Named nodes → find_node nodes [] ≡ none
unfolding find_node text_eq
find_node-nil [] h = refl
find_node-nil (n ∷ nodes) h = elim (Bool-cases (text_eq n.node_id [])) [
  | inl hit ↦ absurd (let no = rw (text_eq→eq n.node_id [] hit) at h.0 in cc no)
  | inr miss ↦ rw miss (find_node-nil nodes h.1)
]

-- How many nodes have the role.
unfoldable pub role_count : Text → List SupplyRouteNode → ℕ
role_count role [] = 0
role_count role (n ∷ nodes) = one_if n.role role + role_count role nodes

pub check_nodes-count :
    (by_id : List SupplyRouteNode) (a b : ℕ) (nodes : List SupplyRouteNode) (s t : ℕ)
    → check_nodes by_id a b nodes ≡ inr (s, t)
    → s ≡ a + role_count supplier nodes
unfolding check_nodes role_count
check_nodes-count by_id a b [] s t e = let same : s ≡ a = ground (arith, e) in omega arith
check_nodes-count by_id a b (n ∷ nodes) s t e =
    let (_, rest) = check_nodes-step by_id a b n nodes (s, t) e in
    omega (
      arith,
      check_nodes-count (n ∷ by_id) (a + one_if n.role supplier) (b + one_if n.role supermarket)
          nodes s t rest,
    )

pub last_of_role-none :
    (role : Text) (found : Option SupplyRouteNode) (nodes : List SupplyRouteNode)
    → role_count role nodes ≡ 0
    → last_of_role role found nodes ≡ found
unfolding role_count last_of_role
last_of_role-none role found [] h = refl
last_of_role-none role found (n ∷ nodes) h = elim (Bool-cases (text_eq n.role role)) [
  | inl hit ↦ absurd (let no = rw hit at h in omega (arith, no))
  | inr miss ↦
      rw miss (last_of_role-none role found nodes (let left = rw miss at h in omega (arith, left)))
]

pub has_incoming-incoming :
    (edges : List SupplyRouteEdge) (id : Text)
    → has_incoming edges id ≡ not (incoming edges id == 0)
unfolding has_incoming incoming
has_incoming-incoming [] id = refl
has_incoming-incoming (e ∷ edges) id = elim (Bool-cases (text_eq e.to_node_id id)) [
  | inl hit ↦ rw hit (ground arith)
  | inr miss ↦ rw miss (has_incoming-incoming edges id)
]

pub check_degrees-step :
    (edges : List SupplyRouteEdge) (n : SupplyRouteNode) (nodes : List SupplyRouteNode)
    → check_degrees edges (n ∷ nodes) ≡ none
    → ((text_eq n.role supplier ≡ false) → incoming edges n.node_id ≡ 1)
      × (check_degrees edges nodes ≡ none)
unfolding check_degrees
check_degrees-step edges n nodes e = (λ h. ground arith, ground arith)

-- The one supplier is the first node without an edge into it.
pub first_node-supplier :
    (edges : List SupplyRouteEdge) (nodes : List SupplyRouteNode) (s : SupplyRouteNode)
    → role_count supplier nodes ≡ 1
    → check_degrees edges nodes ≡ none
    → last_of_role supplier none nodes ≡ some s
    → incoming edges s.node_id ≡ 0
    → first_node edges nodes ≡ some s
unfolding role_count last_of_role first_node
first_node-supplier edges [] s c g l i = absurd (omega arith)
first_node-supplier edges (n ∷ nodes) s c g l i = elim (Bool-cases (text_eq n.role supplier)) [
  | inl hit ↦
      let others : role_count supplier nodes ≡ 0 = omega (arith, rw hit at c) in
      let same : n ≡ s =
        ground (arith, sym (last_of_role-none supplier (some n) nodes others) ∙ (rw hit at l)) in
      rw (has_incoming-incoming edges n.node_id, same, i) refl
  | inr miss ↦
      let (one, rest) = check_degrees-step edges n nodes g in
      rw (has_incoming-incoming edges n.node_id, one miss)
        (first_node-supplier edges nodes s (let left = rw miss at c in omega (arith, left)) rest
          (rw miss at l) i)
]

pub first_node-free :
    (edges : List SupplyRouteEdge) (nodes : List SupplyRouteNode) (s : SupplyRouteNode)
    → first_node edges nodes ≡ some s
    → has_incoming edges s.node_id ≡ false
unfolding first_node
first_node-free edges [] s e = absurd (let no = e in cc no)
first_node-free edges (n ∷ nodes) s e = elim (Bool-cases (has_incoming edges n.node_id)) [
  | inl hit ↦ first_node-free edges nodes s (rw hit at e)
  | inr miss ↦ let same : n ≡ s = ground (arith, rw miss at e) in rw (← same) miss
]

-- The first node without an edge into it is the first one of its id.
pub first_node-find_node :
    (edges : List SupplyRouteEdge) (nodes : List SupplyRouteNode) (s : SupplyRouteNode)
    → first_node edges nodes ≡ some s
    → find_node nodes s.node_id ≡ some s
unfolding first_node find_node
first_node-find_node edges [] s e = absurd (let no = e in cc no)
first_node-find_node edges (n ∷ nodes) s e = elim (Bool-cases (has_incoming edges n.node_id)) [
  | inr miss ↦
      let same : n ≡ s = ground (arith, rw miss at e) in rw (same, text_eq_refl s.node_id) refl
  | inl hit ↦
      let rest = rw hit at e in
      elim (Bool-cases (text_eq n.node_id s.node_id)) [
        | inl again ↦ absurd (
            let no =
              rw (text_eq→eq n.node_id s.node_id again, first_node-free edges nodes s rest) at
                hit in
            cc no)
        | inr other ↦ rw other (first_node-find_node edges nodes s rest)
      ]
]
