-- ===== src/Snapshot/Complete.antt =====
-- Code/Snapshot/src/snapshot.cpp: the path that `route_is_complete_linear` finds goes along the
-- edges and through all the nodes, and the sort of `evaluate_eligibility` puts them in its order.
use hybrid_blockchain_for_re.Prelude.{
  some_injective, ℕ, zero, suc, ◌+◌, ◌≡◌, refl, sym, ap, subst, ◌∙◌, true, false, inl, inr, Option,
  none, some, List, [], ◌∷◌, Text, pos, text_eq, text_eq→eq, text_eq_refl, text_eq-ne,
  text_eq_false→ne, is_empty, length, get_elem?, Bool-cases, arith, All, member, Distinct, Among,
  ||_parts,
}
use hybrid_blockchain_for_re.Snapshot.{RouteNodeInput, RouteEdgeInput, BatchInput, lookup}
use hybrid_blockchain_for_re.Snapshot.Route.{Links, link_edges, node_by_id, or_end}
use hybrid_blockchain_for_re.Snapshot.Line.{ids_of, HasEdge, link_edges-HasEdge, Steps, Linked}
use hybrid_blockchain_for_re.Snapshot.Visit.{node_by_id-member}

-- The node is on the path, at its step.
abbrev pub AtStep : List RouteNodeInput → RouteNodeInput → Type 0
AtStep path n = (i : ℕ) × (get_elem? path i ≡ some n) × (n.step_index ≡ pos i)

-- Two nodes in a row on the path are joined by an edge.
abbrev pub Connected : List RouteEdgeInput → List RouteNodeInput → Type 0
Connected edges path =
    (i : ℕ) (m n : RouteNodeInput)
    → get_elem? path i ≡ some m
    → get_elem? path (suc i) ≡ some n
    → HasEdge edges m.node_id n.node_id

-- The path of a route that is one complete line.
pub record RoutePath (b : BatchInput) : Type 0 where
  pub path : List RouteNodeInput
  pub size : length path ≡ length b.route_nodes
  pub joined : Connected b.route_edges path
  pub members : All (AtStep path) b.route_nodes
  pub distinct : Distinct (ids_of b.route_nodes)

pub Steps-at :
    (k : ℕ) (path : List RouteNodeInput) (i : ℕ) (n : RouteNodeInput)
    → Steps k path
    → get_elem? path i ≡ some n
    → n.step_index ≡ pos (k + i)
Steps-at k [] i n s at = absurd (let no = at in cc no)
Steps-at k (m ∷ path) zero n s at =
    let same : k ≡ k + 0 = omega arith in
    ap (λ x. x.step_index) (sym (some_injective m n at)) ∙ s.0 ∙ ap pos same
Steps-at k (m ∷ path) (suc i) n s at =
    let same : suc k + i ≡ k + suc i = omega arith in Steps-at (suc k) path i n s.1 at ∙ ap pos same

or_end-named :
    (o : Option Text) → is_empty (or_end o) ≡ false → (t : Text) × (o ≡ some t) × (or_end o ≡ t)
or_end-named none h = absurd (let no = h in cc no)
or_end-named (some t) h = (t, refl, refl)

found_behind :
    (h : RouteNodeInput) (nodes ys : List RouteNodeInput)
    → member h.node_id (ids_of ys) ≡ false
    → All (λ n. node_by_id nodes n.node_id ≡ some n) ys
    → All (λ n. node_by_id (h ∷ nodes) n.node_id ≡ some n) ys
unfolding node_by_id member
found_behind h nodes [] new a = tt
found_behind h nodes (y ∷ ys) new a =
    let (ne, rest) = ||_parts (text_eq y.node_id h.node_id) (member h.node_id (ids_of ys)) new in
    let other =
      text_eq-ne h.node_id y.node_id (λ e. text_eq_false→ne y.node_id h.node_id ne (sym e)) in
    (rw other a.0, found_behind h nodes ys rest a.1)

-- Nodes with different ids are found by them.
pub nodes_found :
    (nodes : List RouteNodeInput)
    → Distinct (ids_of nodes)
    → All (λ n. node_by_id nodes n.node_id ≡ some n) nodes
unfolding node_by_id
nodes_found [] d = tt
nodes_found (n ∷ nodes) d =
    (rw (text_eq_refl n.node_id) refl, found_behind n nodes nodes d.0 (nodes_found nodes d.1))

-- A node that is found by an id of the path is on the path.
on_path :
    (nodes path : List RouteNodeInput) (n : RouteNodeInput)
    → All (λ p. node_by_id nodes p.node_id ≡ some p) path
    → member n.node_id (ids_of path) ≡ true
    → node_by_id nodes n.node_id ≡ some n
    → (i : ℕ) × (get_elem? path i ≡ some n)
unfolding member
on_path nodes [] n a h found = absurd (let no = h in cc no)
on_path nodes (p ∷ path) n a h found = elim (Bool-cases (text_eq p.node_id n.node_id)) [
  | inl hit ↦
      let same = text_eq→eq p.node_id n.node_id hit in
      let at_n = subst (λ i. node_by_id nodes i ≡ some p) same a.0 in
      (0, ap some (some_injective p n (sym at_n ∙ found)))
  | inr miss ↦ let (i, at) = on_path nodes path n a.1 (rw miss at h) found in (suc i, at)
]

pub all_on_path :
    (nodes path ys : List RouteNodeInput)
    → Steps 0 path
    → All (λ p. node_by_id nodes p.node_id ≡ some p) path
    → Among (ids_of ys) (ids_of path)
    → All (λ n. node_by_id nodes n.node_id ≡ some n) ys
    → All (AtStep path) ys
all_on_path nodes path [] s a h found = tt
all_on_path nodes path (y ∷ ys) s a h found =
    let (i, at) = on_path nodes path y a h.0 found.0 in
    let plain : 0 + i ≡ i = omega arith in
    ((i, at, Steps-at 0 path i y s at ∙ ap pos plain), all_on_path nodes path ys s a h.1 found.1)

pub path-Among :
    (nodes path : List RouteNodeInput)
    → All (λ p. node_by_id nodes p.node_id ≡ some p) path
    → Among (ids_of path) (ids_of nodes)
path-Among nodes [] a = tt
path-Among nodes (p ∷ path) a = (node_by_id-member nodes p.node_id p a.0, path-Among nodes path a.1)

-- A next node has an edge into it.
next_HasEdge :
    (edges : List RouteEdgeInput) (m0 m : Links) (from to : Text)
    → link_edges edges m0 ≡ some m
    → lookup m0.outgoing from ≡ none
    → to ≡ or_end (lookup m.outgoing from)
    → is_empty (or_end (lookup m.outgoing from)) ≡ false
    → HasEdge edges from to
next_HasEdge edges m0 m from to linked new e named =
    let (next, at, same) = or_end-named (lookup m.outgoing from) named in
    elim (link_edges-HasEdge edges m0 m from next linked at) [
      | inl old ↦ absurd (let no = sym new ∙ old in cc no)
      | inr edge ↦ subst (HasEdge edges from) (sym (e ∙ same)) edge
    ]

pub Linked-Connected :
    (edges : List RouteEdgeInput) (m0 m : Links) (path : List RouteNodeInput)
    → link_edges edges m0 ≡ some m
    → ((id : Text) → lookup m0.outgoing id ≡ none)
    → Linked m.outgoing path
    → Connected edges path
Linked-Connected edges m0 m [] linked new l i a c at next = absurd (let no = at in cc no)
Linked-Connected edges m0 m (x ∷ []) linked new l i a c at next = absurd (let no = next in cc no)
Linked-Connected edges m0 m (x ∷ y ∷ path) linked new l zero a c at next =
    let first = some_injective x a at in
    let second = some_injective y c next in
    subst (λ p. HasEdge edges p.node_id c.node_id) first
      (subst (λ q. HasEdge edges x.node_id q.node_id) second
        (next_HasEdge edges m0 m x.node_id y.node_id linked (new x.node_id) l.0.0 l.0.1))
Linked-Connected edges m0 m (x ∷ y ∷ path) linked new l (suc i) a c at next =
    Linked-Connected edges m0 m (y ∷ path) linked new l.1 i a c at next
