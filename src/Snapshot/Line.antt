-- ===== src/Snapshot/Line.antt =====
-- The loops of `route_is_complete_linear` (Code/Snapshot/src/snapshot.cpp): the ids of the nodes and
-- the nodes that the loop along the route visits.
use hybrid_blockchain_for_re.Prelude.{
  some_injective, ℕ, suc, ◌≡◌, refl, sym, subst, Bool, true, false, ◌||◌, ◌⊎◌, inl, inr, Option,
  none, some, List, [], ◌∷◌, map, Text, pos, text_eq, text_eq→eq, text_eq-ne, text_eq_false→ne,
  is_empty, get_elem?, Bool-cases, All, ||_parts, ltb, if◌then◌else◌, member, Distinct, Fresh,
}
use hybrid_blockchain_for_re.Snapshot.{RouteNodeInput, RouteEdgeInput, lookup}
use hybrid_blockchain_for_re.Snapshot.Route.{
  has_key, count_of, edge_refused, count_nodes, Links, add_edge, link_edges, node_by_id, or_end,
}

abbrev pub ids_of : List RouteNodeInput → List Text
ids_of nodes = map (λ n. n.node_id) nodes

text_eq_flip : (s t : Text) → text_eq s t ≡ false → text_eq t s ≡ false
text_eq_flip s t h = text_eq-ne t s (λ e. text_eq_false→ne s t h (sym e))

key_behind :
    {V : Type 0} (j : Text) (v : V) (m : List (Text × V)) (k : Text)
    → has_key (lookup ((j, v) ∷ m) k) ≡ false
    → (text_eq j k ≡ false) × (has_key (lookup m k) ≡ false)
unfolding lookup
key_behind j v m k h = elim (Bool-cases (text_eq j k)) [
  | inl hit ↦ absurd (let no = rw hit at h in cc no)
  | inr miss ↦ (miss, rw miss at h)
]

-- A step that is refused by a test, or goes on.
refused_or :
    {A : Type 0} (c : Bool) (o : Option A) {a : A}
    → (if c then none else o) ≡ some a
    → (c ≡ false) × (o ≡ some a)
refused_or true o h = absurd (let no = h in cc no)
refused_or false o h = (refl, h)

lookup-cons :
    (j v : Text) (m : List (Text × Text)) (k w : Text)
    → lookup ((j, v) ∷ m) k ≡ some w
    → ((j ≡ k) × (v ≡ w)) ⊎ (lookup m k ≡ some w)
unfolding lookup
lookup-cons j v m k w h = elim (Bool-cases (text_eq j k)) [
  | inl hit ↦ inl (text_eq→eq j k hit, some_injective v w (rw hit at h))
  | inr miss ↦ inr (rw miss at h)
]

-- The nodes are new to the map.
abbrev NewTo : List (Text × ℕ) → List RouteNodeInput → Type 0
NewTo m nodes = All (λ n. has_key (lookup m n.node_id) ≡ false) nodes

NewTo-cons :
    (k : Text) (v : ℕ) (m : List (Text × ℕ)) (nodes : List RouteNodeInput)
    → NewTo ((k, v) ∷ m) nodes
    → (member k (ids_of nodes) ≡ false) × NewTo m nodes
unfolding member
NewTo-cons k v m [] h = (refl, tt)
NewTo-cons k v m (n ∷ nodes) h =
    let (other, old) = key_behind k v m n.node_id h.0 in
    let (rest, new) = NewTo-cons k v m nodes h.1 in
    (rw (text_eq_flip k n.node_id other) rest, (old, new))

count_nodes-NewTo :
    (nodes : List RouteNodeInput) (m r : List (Text × ℕ))
    → count_nodes nodes m ≡ some r
    → NewTo m nodes × Distinct (ids_of nodes)
unfolding count_nodes
count_nodes-NewTo [] m r h = (tt, tt)
count_nodes-NewTo (n ∷ nodes) m r h =
    elim (Bool-cases (is_empty n.node_id || has_key (lookup m n.node_id))) [
      | inl bad ↦ absurd (let no = rw bad at h in cc no)
      | inr good ↦
          let (new, distinct) = count_nodes-NewTo nodes ((n.node_id, 0) ∷ m) r (rw good at h) in
          let (fresh, old) = NewTo-cons n.node_id 0 m nodes new in
          (
            ((||_parts (is_empty n.node_id) (has_key (lookup m n.node_id)) good).1, old),
            (fresh, distinct),
          )
    ]

pub count_nodes-Distinct :
    (nodes : List RouteNodeInput) (r : List (Text × ℕ))
    → count_nodes nodes [] ≡ some r
    → Distinct (ids_of nodes)
count_nodes-Distinct nodes r h = (count_nodes-NewTo nodes [] r h).1

-- The list holds the edge from the one id to the other.
abbrev pub HasEdge : List RouteEdgeInput → Text → Text → Type 0
HasEdge edges from to =
    (j : ℕ) × (e : RouteEdgeInput) × (get_elem? edges j ≡ some e)
    × (e.from_node_id ≡ from)
    × (e.to_node_id ≡ to)

-- What the map outgoing leads to comes from an edge or was there before.
pub link_edges-HasEdge :
    (edges : List RouteEdgeInput) (m r : Links) (from to : Text)
    → link_edges edges m ≡ some r
    → lookup r.outgoing from ≡ some to
    → (lookup m.outgoing from ≡ some to) ⊎ HasEdge edges from to
unfolding link_edges
link_edges-HasEdge [] m r from to h at =
    inl (subst (λ q. lookup q.outgoing from ≡ some to) (sym (some_injective m r h)) at)
link_edges-HasEdge (e ∷ edges) m r from to h at =
    let (_, next) =
      refused_or (edge_refused e m || ltb 1 (suc (count_of (lookup m.incoming e.to_node_id))))
        (link_edges edges (add_edge e m)) h in
    elim (link_edges-HasEdge edges (add_edge e m) r from to next at) [
      | inr (j, x, at_j, a, c) ↦ inr (suc j, x, at_j, a, c)
      | inl here ↦ elim (lookup-cons e.from_node_id e.to_node_id m.outgoing from to here) [
        | inl (a, c) ↦ inr (0, e, refl, a, c)
        | inr before ↦ inl before
      ]
    ]

-- Step indexes that count up.
abbrev pub Steps : ℕ → List RouteNodeInput → Type 0
Steps k [] = Unit {0}
Steps k (n ∷ nodes) = (n.step_index ≡ pos k) × Steps (suc k) nodes

-- The first node has the id; there is none where the id is empty.
abbrev pub StartsAt : Text → List RouteNodeInput → Type 0
StartsAt id [] = Unit {0}
StartsAt id (n ∷ nodes) = (n.node_id ≡ id) × (is_empty id ≡ false)

-- Each node's entry in the map outgoing is the id of the next node.
abbrev pub Linked : List (Text × Text) → List RouteNodeInput → Type 0
Linked outgoing [] = Unit {0}
Linked outgoing (n ∷ nodes) =
    StartsAt (or_end (lookup outgoing n.node_id)) nodes × Linked outgoing nodes

-- The nodes that the loop visits.
pub record Visits (nodes : List RouteNodeInput) (outgoing : List (Text × Text))
    (visited : List Text) (current : Text) (k : ℕ) (path : List RouteNodeInput) : Type 0 where
  pub steps : Steps k path
  pub found : All (λ n. node_by_id nodes n.node_id ≡ some n) path
  pub new : Fresh (ids_of path) visited
  pub once : Distinct (ids_of path)
  pub starts : StartsAt current path
  pub linked : Linked outgoing path
