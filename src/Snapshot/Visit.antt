-- ===== src/Snapshot/Visit.antt =====
-- The loop along the route in `route_is_complete_linear` (Code/Snapshot/src/snapshot.cpp): what it
-- visits, and that it ends.
use hybrid_blockchain_for_re.Prelude.{
  ℕ, zero, suc, ◌+◌, ◌<◌, ◌≡◌, ◌≢◌, refl, sym, ap, subst, ◌∙◌, true, false, ◌||◌, inl, inr, Option,
  none, some, List, [], ◌∷◌, Text, pos, text_eq, text_eq→eq, eqb_ℤ, eqb_ℤ_iff, is_empty, length,
  Bool-cases, arith, ||_parts, member, Distinct, Among, Fresh-head, Fresh-tail, length-Among,
  length-map, some_injective,
}
use hybrid_blockchain_for_re.Snapshot.{RouteNodeInput, lookup}
use hybrid_blockchain_for_re.Snapshot.Route.{
  node_by_id, or_end, RouteEnd, broken, exhausted, ended, after_node, visit_node, follow,
}
use hybrid_blockchain_for_re.Snapshot.Line.{ids_of, StartsAt, Visits}

pub node_by_id-id :
    (nodes : List RouteNodeInput) (id : Text) (n : RouteNodeInput)
    → node_by_id nodes id ≡ some n
    → n.node_id ≡ id
unfolding node_by_id
node_by_id-id [] id n h = absurd (let no = h in cc no)
node_by_id-id (m ∷ nodes) id n h = elim (Bool-cases (text_eq m.node_id id)) [
  | inl hit ↦
      ap (λ x. x.node_id) (sym (some_injective m n (rw hit at h))) ∙ text_eq→eq m.node_id id hit
  | inr miss ↦ node_by_id-id nodes id n (rw miss at h)
]

pub node_by_id-member :
    (nodes : List RouteNodeInput) (id : Text) (n : RouteNodeInput)
    → node_by_id nodes id ≡ some n
    → member id (ids_of nodes) ≡ true
unfolding node_by_id member
node_by_id-member [] id n h = absurd (let no = h in cc no)
node_by_id-member (m ∷ nodes) id n h = elim (Bool-cases (text_eq m.node_id id)) [
  | inl hit ↦ rw hit refl
  | inr miss ↦ rw miss (node_by_id-member nodes id n (rw miss at h))
]

ended_parts :
    (p : List RouteNodeInput) (t : Text) (q : List RouteNodeInput) (u : Text)
    → ended p t ≡ ended q u
    → (p ≡ q) × (t ≡ u)
ended_parts p t q u h = (cc h, cc h)

after_node-ended :
    (n : RouteNodeInput) (rest : RouteEnd) (path : List RouteNodeInput) (last : Text)
    → after_node n rest ≡ ended path last
    → (more : List RouteNodeInput) × (rest ≡ ended more last) × (path ≡ n ∷ more)
after_node-ended n broken path last h = absurd (let no = h in cc no)
after_node-ended n exhausted path last h = absurd (let no = h in cc no)
after_node-ended n (ended more t) path last h =
    let (a, b) = ended_parts (n ∷ more) t path last h in (more, ap (ended more) b, sym a)

after_node-exhausted :
    (n : RouteNodeInput) (rest : RouteEnd) → after_node n rest ≡ exhausted → rest ≡ exhausted
after_node-exhausted n broken h = absurd (let no = h in cc no)
after_node-exhausted n exhausted h = refl
after_node-exhausted n (ended more t) h = absurd (let no = h in cc no)

visit_node-exhausted :
    (o : Option RouteNodeInput) (k : ℕ) (rest : RouteEnd)
    → visit_node o k rest ≡ exhausted
    → (n : RouteNodeInput) × (o ≡ some n) × (rest ≡ exhausted)
visit_node-exhausted none k rest h = absurd (let no = h in cc no)
visit_node-exhausted (some n) k rest h = elim (Bool-cases (eqb_ℤ n.step_index (pos k))) [
  | inr off ↦ absurd (let no = rw off at h in cc no)
  | inl on ↦ (n, refl, after_node-exhausted n rest (rw on at h))
]

-- A node before the rest of the path.
visit_first :
    (nodes : List RouteNodeInput) (outgoing : List (Text × Text)) (visited : List Text)
    (current : Text) (k : ℕ) (n : RouteNodeInput) (more : List RouteNodeInput)
    → node_by_id nodes current ≡ some n
    → n.step_index ≡ pos k
    → is_empty current ≡ false
    → member current visited ≡ false
    → Visits nodes outgoing (current ∷ visited) (or_end (lookup outgoing current)) (suc k) more
    → Visits nodes outgoing visited current k (n ∷ more)
visit_first nodes outgoing visited current k n more at_id step named new v =
    let id = node_by_id-id nodes current n at_id in
    record {
      steps = (step, v.steps);
      found = (subst (λ i. node_by_id nodes i ≡ some n) (sym id) at_id, v.found);
      new = (
        subst (λ i. member i visited ≡ false) (sym id) new,
        Fresh-tail current (ids_of more) visited v.new,
      );
      once = (
        subst (λ i. member i (ids_of more) ≡ false) (sym id)
            (Fresh-head current (ids_of more) visited v.new),
        v.once,
      );
      starts = (id, named);
      linked =
          (subst (λ i. StartsAt (or_end (lookup outgoing i)) more) (sym id) v.starts, v.linked);
    }

-- A round of the loop that does not end it.
visit_node-ended :
    (o : Option RouteNodeInput) (k : ℕ) (rest : RouteEnd) (path : List RouteNodeInput) (last : Text)
    → visit_node o k rest ≡ ended path last
    → (n : RouteNodeInput) × (more : List RouteNodeInput) × (o ≡ some n)
      × (n.step_index ≡ pos k)
      × (rest ≡ ended more last)
      × (path ≡ n ∷ more)
visit_node-ended none k rest path last h = absurd (let no = h in cc no)
visit_node-ended (some n) k rest path last h = elim (Bool-cases (eqb_ℤ n.step_index (pos k))) [
  | inr off ↦ absurd (let no = rw off at h in cc no)
  | inl on ↦
      let (more, a, b) = after_node-ended n rest path last (rw on at h) in
      (n, more, refl, (eqb_ℤ_iff n.step_index (pos k)).0 on, a, b)
]

pub follow-Visits :
    (nodes : List RouteNodeInput) (outgoing : List (Text × Text)) (f : ℕ) (visited : List Text)
    (current : Text) (k : ℕ) (path : List RouteNodeInput) (last : Text)
    → follow nodes outgoing f visited current k ≡ ended path last
    → is_empty last ≡ true
    → Visits nodes outgoing visited current k path
unfolding follow
follow-Visits nodes outgoing zero visited current k path last h e = absurd (let no = h in cc no)
follow-Visits nodes outgoing (suc f) visited current k path last h e =
    elim (Bool-cases (is_empty current || member current visited)) [
      | inl stop ↦
          let (nothing, _) = ended_parts [] current path last (rw stop at h) in
          subst (λ p. Visits nodes outgoing visited current k p) nothing
            (record { steps = tt; found = tt; new = tt; once = tt; starts = tt; linked = tt })
      | inr on ↦
          let (n, more, at_id, step, rest, whole) =
            visit_node-ended (node_by_id nodes current) k
              (follow nodes outgoing f (current ∷ visited) (or_end (lookup outgoing current))
                (suc k))
              path last (rw on at h) in
          let v =
            follow-Visits nodes outgoing f (current ∷ visited) (or_end (lookup outgoing current))
              (suc k) more last rest e in
          subst (λ p. Visits nodes outgoing visited current k p) (sym whole)
            (visit_first nodes outgoing visited current k n more at_id step
              ((||_parts (is_empty current) (member current visited) on).0)
              ((||_parts (is_empty current) (member current visited) on).1) v)
    ]

-- How many rounds are left when the ids that are visited are all among the nodes.
follow-ends :
    (nodes : List RouteNodeInput) (outgoing : List (Text × Text)) (f : ℕ) (visited : List Text)
    (current : Text) (k : ℕ)
    → Distinct visited
    → Among visited (ids_of nodes)
    → length nodes < f + length visited
    → follow nodes outgoing f visited current k ≢ exhausted
unfolding follow
follow-ends nodes outgoing zero visited current k d a l h = absurd (
    omega (
      arith,
      l,
      length-Among visited (ids_of nodes) d a,
      length-map (λ (n : RouteNodeInput). n.node_id) nodes,
    ))
follow-ends nodes outgoing (suc f) visited current k d a l h =
    elim (Bool-cases (is_empty current || member current visited)) [
      | inl stop ↦ let no = rw stop at h in cc no
      | inr on ↦
          let (n, at_id, rest) =
            visit_node-exhausted (node_by_id nodes current) k
              (follow nodes outgoing f (current ∷ visited) (or_end (lookup outgoing current))
                (suc k))
              (rw on at h) in
          follow-ends nodes outgoing f (current ∷ visited) (or_end (lookup outgoing current))
            (suc k) ((||_parts (is_empty current) (member current visited) on).1, d)
            (node_by_id-member nodes current n at_id, a) (omega (arith, l)) rest
    ]

-- One round more than there are nodes is enough for the loop along the route: it ends by its
-- condition or by `return false`, whatever the maps hold.
pub follow_ends :
    (nodes : List RouteNodeInput) (outgoing : List (Text × Text)) (id : Text)
    → follow nodes outgoing (suc (length nodes)) [] id 0 ≢ exhausted
follow_ends nodes outgoing id =
    follow-ends nodes outgoing (suc (length nodes)) [] id 0 tt tt (omega arith)
