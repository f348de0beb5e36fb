-- ===== src/Snapshot/Sorted.antt =====
-- The sort of the route nodes in `evaluate_eligibility` (Code/Snapshot/src/snapshot.cpp), for nodes
-- with different step indexes from zero on.
use hybrid_blockchain_for_re.Prelude.{
  ℕ, suc, ◌+◌, ◌<◌, ◌≤◌, ◌≡◌, ◌≢◌, refl, sym, ap, subst, ◌∙◌, Bool, false, not, inl, inr, List, [],
  ◌∷◌, ℤ, pos, eqb_ℤ, ltb_ℤ, ltb, length, Bool-cases, arith, All, if◌then◌else◌,
}
use hybrid_blockchain_for_re.Snapshot.{RouteNodeInput}
use hybrid_blockchain_for_re.Snapshot.Eligibility.{text_lt, node_before, insert_node, sort_nodes}
use hybrid_blockchain_for_re.Snapshot.Line.{Steps}

-- The steps rise strictly, from at least k on.
abbrev Rising : ℕ → List RouteNodeInput → Type 0
Rising k [] = Unit {0}
Rising k (n ∷ nodes) = (i : ℕ) × (n.step_index ≡ pos i) × (k ≤ i) × Rising (suc i) nodes

-- No node has the step.
abbrev pub OffStep : ℤ → List RouteNodeInput → Type 0
OffStep z nodes = All (λ n. n.step_index ≢ z) nodes

abbrev pub StepsDiffer : List RouteNodeInput → Type 0
StepsDiffer [] = Unit {0}
StepsDiffer (n ∷ nodes) = OffStep n.step_index nodes × StepsDiffer nodes

pub insert_node-All {κ} :
    (P : RouteNodeInput → Type κ) (m : RouteNodeInput) (nodes : List RouteNodeInput)
    → P m
    → All P nodes
    → All P (insert_node m nodes)
unfolding insert_node
insert_node-All P m [] p h = (p, tt)
insert_node-All P m (n ∷ nodes) p h = elim (Bool-cases (node_before n m)) [
  | inl before ↦ rw before (h.0, insert_node-All P m nodes p h.1)
  | inr after ↦ rw after (p, h)
]

pub sort_nodes-All {κ} :
    (P : RouteNodeInput → Type κ) (nodes : List RouteNodeInput)
    → All P nodes
    → All P (sort_nodes nodes)
unfolding sort_nodes
sort_nodes-All P [] h = tt
sort_nodes-All P (n ∷ nodes) h =
    insert_node-All P n (sort_nodes nodes) h.0 (sort_nodes-All P nodes h.1)

length-insert_node :
    (m : RouteNodeInput) (nodes : List RouteNodeInput)
    → length (insert_node m nodes) ≡ suc (length nodes)
unfolding insert_node
length-insert_node m [] = refl
length-insert_node m (n ∷ nodes) = elim (Bool-cases (node_before n m)) [
  | inl before ↦ rw before (ap suc (length-insert_node m nodes))
  | inr after ↦ rw after refl
]

pub length-sort_nodes : (nodes : List RouteNodeInput) → length (sort_nodes nodes) ≡ length nodes
unfolding sort_nodes
length-sort_nodes [] = refl
length-sort_nodes (n ∷ nodes) =
    length-insert_node n (sort_nodes nodes) ∙ ap suc (length-sort_nodes nodes)

pos_injective : (i j : ℕ) → pos i ≡ pos j → i ≡ j
pos_injective i j e = cc e

pick-unequal :
    (i j : ℕ) (c : Bool)
    → i ≢ j
    → (if not (eqb_ℤ (pos i) (pos j)) then ltb_ℤ (pos i) (pos j) else c) ≡ ltb i j
pick-unequal i j ne = ground arith

above : (i j : ℕ) → i ≢ j → ltb i j ≡ false → suc j ≤ i
above i j ne h = ground arith

-- For different steps the comparison is that of the steps.
node_before-step :
    (m n : RouteNodeInput) (i j : ℕ)
    → m.step_index ≡ pos i
    → n.step_index ≡ pos j
    → i ≢ j
    → node_before m n ≡ ltb i j
node_before-step m n i j a b ne = rw (a, b) (pick-unequal i j (text_lt m.node_id n.node_id) ne)

insert_node-Rising :
    (k j : ℕ) (m : RouteNodeInput) (nodes : List RouteNodeInput)
    → m.step_index ≡ pos j
    → k ≤ j
    → Rising k nodes
    → OffStep m.step_index nodes
    → Rising k (insert_node m nodes)
unfolding insert_node
insert_node-Rising k j m [] at l r off = (j, at, l, tt)
insert_node-Rising k j m (n ∷ nodes) at l r off =
    let (i, at_i, low, rest) = r in
    let ne : i ≢ j = λ e. off.0 (at_i ∙ ap pos e ∙ sym at) in
    elim (Bool-cases (ltb i j)) [
      | inl less ↦
          rw (node_before-step n m i j at_i at ne ∙ less)
            (i, at_i, low, insert_node-Rising (suc i) j m nodes at (ground arith) rest off.1)
      | inr more ↦
          rw (node_before-step n m i j at_i at ne ∙ more)
            (j, at, l, (i, at_i, above i j ne more, rest))
    ]

sort_nodes-Rising :
    (nodes : List RouteNodeInput)
    → All (λ n. (i : ℕ) × (n.step_index ≡ pos i)) nodes
    → StepsDiffer nodes
    → Rising 0 (sort_nodes nodes)
unfolding sort_nodes
sort_nodes-Rising [] h d = tt
sort_nodes-Rising (n ∷ nodes) h d =
    let (i, at) = h.0 in
    insert_node-Rising 0 i n (sort_nodes nodes) at (omega arith) (sort_nodes-Rising nodes h.1 d.1)
      (sort_nodes-All (λ m. m.step_index ≢ n.step_index) nodes d.0)

-- Every step is below the bound.
abbrev Below : ℕ → List RouteNodeInput → Type 0
Below bound nodes = All (λ n. (i : ℕ) × (n.step_index ≡ pos i) × (i < bound)) nodes

Rising-room :
    (bound k : ℕ) (nodes : List RouteNodeInput)
    → k ≤ bound
    → Rising k nodes
    → Below bound nodes
    → k + length nodes ≤ bound
Rising-room bound k [] l r h = omega arith
Rising-room bound k (n ∷ nodes) l r h =
    let (i, at, low, rest) = r in
    let (j, at_j, high) = h.0 in
    let same : i ≡ j = pos_injective i j (sym at ∙ at_j) in
    omega (arith, low, Rising-room bound (suc i) nodes (omega (arith, same, high)) rest h.1)

-- Steps that rise strictly and fill the room below the bound count up.
Rising-Steps :
    (bound k : ℕ) (nodes : List RouteNodeInput)
    → k + length nodes ≡ bound
    → Rising k nodes
    → Below bound nodes
    → Steps k nodes
Rising-Steps bound k [] e r h = tt
Rising-Steps bound k (n ∷ nodes) e r h =
    let (i, at, low, rest) = r in
    let (j, at_j, high) = h.0 in
    let same : i ≡ j = pos_injective i j (sym at ∙ at_j) in
    let room = Rising-room bound (suc i) nodes (omega (arith, same, high)) rest h.1 in
    let first : i ≡ k = omega (arith, low, room, e) in
    (
      at ∙ ap pos first,
      Rising-Steps bound (suc k) nodes (omega (arith, e))
          (subst (λ x. Rising (suc x) nodes) first rest) h.1,
    )

stepped :
    (bound : ℕ) (nodes : List RouteNodeInput)
    → Below bound nodes
    → All (λ n. (i : ℕ) × (n.step_index ≡ pos i)) nodes
stepped bound [] h = tt
stepped bound (n ∷ nodes) h = let (i, at, _) = h.0 in ((i, at), stepped bound nodes h.1)

-- The sort of nodes with different steps, all less than their number, puts each at its step.
pub sort_nodes-Steps :
    (nodes : List RouteNodeInput)
    → All (λ n. (i : ℕ) × (n.step_index ≡ pos i) × (i < length nodes)) nodes
    → StepsDiffer nodes
    → Steps 0 (sort_nodes nodes)
sort_nodes-Steps nodes h d =
    Rising-Steps (length nodes) 0 (sort_nodes nodes)
      (let size = length-sort_nodes nodes in omega (arith, size))
      (sort_nodes-Rising nodes (stepped (length nodes) nodes h) d)
      (sort_nodes-All (λ n. (i : ℕ) × (n.step_index ≡ pos i) × (i < length nodes)) nodes h)
