-- ===== src/Snapshot/Checks.antt =====
-- Code/Snapshot/src/snapshot.cpp: a check of `evaluate_eligibility` that adds no error, and what it shows.
use hybrid_blockchain_for_re.Prelude.{
  some_injective, ◌⊎◌, inl, inr, ap, ℤ, Bool-cases, Option-cases, ℕ, zero, suc, ◌≡◌, refl, sym,
  subst, Bool, true, false, ◌||◌, ◌&&◌, not, some, List, [], ◌∷◌, ◌++◌, Text, codes, negsuc,
  text_eq, text_eq→eq, is_empty, get_elem?, if◌then◌else◌, arith, All, eqb_ℤ, eqb_ℤ_iff, ltb_ℤ,
  &&_parts, pos,
}
use hybrid_blockchain_for_re.Snapshot.{
  HistoricalBlockInput, stage_for_block_id, historical_block_for_id, RouteNodeInput, StageInput,
  BatchInput, event_value,
}
use hybrid_blockchain_for_re.Snapshot.Eligibility.{
  sort_nodes, match_errors, supported, block_errors, known_hash, is_genesis, is_linked, link_errors,
  logistics_fields, warehouse_fields, supermarket_fields, event_errors, error_if, missing_fields,
}
use hybrid_blockchain_for_re.Snapshot.Errors.{
  append_nil, error_if-nil, unless-nil, if-nil, missing_fields-nil,
}

-- Every field has a value that is more than blanks.
abbrev pub Recorded : StageInput → List Text → Type 0
Recorded s names = All (λ name. is_empty (event_value s name) ≡ false) names

-- The block's own checks.
abbrev pub BlockSound : StageInput → Type 0
BlockSound s =
    (supported s.stage ≡ true)
    × (s.verified ≡ true)
    × (s.signature_verified ≡ true)
    × (is_empty s.block_hash ≡ false)

-- The batch has a stage, or its history a block, with the id and with the hash.
abbrev pub IsKnown : BatchInput → ℤ → Text → Type 0
IsKnown b id hash =
    ((j : ℕ) × (p : StageInput) × (get_elem? b.stages j ≡ some p)
      × (p.block_id ≡ id)
      × (p.block_hash ≡ hash))
    ⊎ ((j : ℕ) × (h : HistoricalBlockInput) × (get_elem? b.historical_blocks j ≡ some h)
        × (h.block_id ≡ id)
        × (h.block_hash ≡ hash))

-- The first block is a genesis block; each later one names the hash, which is not empty, of a block
-- that is known, with a smaller id.
abbrev pub LinkSound : BatchInput → ℕ → StageInput → Type 0
LinkSound b zero s = (s.parent_block_id ≡ negsuc 0) × (s.parent_block_hash ≡ codes "GENESIS")
LinkSound b (suc i) s =
    (is_empty s.parent_block_hash ≡ false)
    × IsKnown b s.parent_block_id s.parent_block_hash
    × (ltb_ℤ s.parent_block_id s.block_id ≡ true)

-- What the role of the stage asks for is recorded.
abbrev pub EventSound : StageInput → Type 0
EventSound s =
    ((s.stage ≡ codes "logistics") → Recorded s logistics_fields)
    × ((s.stage ≡ codes "warehouse") → Recorded s warehouse_fields)
    × ((s.stage ≡ codes "supermarket")
        → Recorded s supermarket_fields × (s.chain_status ≡ codes "completed"))

-- The stage stands for the node at its place in the saved route.
abbrev pub MatchSound : BatchInput → ℕ → StageInput → Type 0
MatchSound b i s =
    (n : RouteNodeInput) × (get_elem? (sort_nodes b.route_nodes) i ≡ some n)
    × (s.route_node_id ≡ n.node_id)
    × (n.role ≡ s.stage)

not-true : (c : Bool) → not c ≡ true → c ≡ false
not-true true h = absurd (let no = h in cc no)
not-true false h = refl

or-not-false : (a c : Bool) → (a || not c) ≡ false → c ≡ true
or-not-false a c h = ground arith

pub block_errors-nil : (label : Text) (s : StageInput) → block_errors label s ≡ [] → BlockSound s
block_errors-nil label s h =
    let unsupported =
      error_if (not (supported s.stage)) (codes "Unsupported route stage: " ++ s.stage) in
    let unverified = error_if (not s.verified) (label ++ codes " Merkle verification failed") in
    let unsigned =
      error_if (not s.signature_verified) (label ++ codes " signature verification failed") in
    let unhashed = error_if (is_empty s.block_hash) (label ++ codes " hash is missing") in
    let (h1, d) = append_nil (unsupported ++ unverified ++ unsigned) unhashed h in
    let (h2, c) = append_nil (unsupported ++ unverified) unsigned h1 in
    let (a, b) = append_nil unsupported unverified h2 in
    (
      unless-nil (supported s.stage) (codes "Unsupported route stage: " ++ s.stage) a,
      unless-nil s.verified (label ++ codes " Merkle verification failed") b,
      unless-nil s.signature_verified (label ++ codes " signature verification failed") c,
      error_if-nil (is_empty s.block_hash) (label ++ codes " hash is missing") d,
    )

stage_at :
    (stages : List StageInput) (id : ℤ) (p : StageInput)
    → stage_for_block_id stages id ≡ some p
    → (j : ℕ) × (get_elem? stages j ≡ some p) × (p.block_id ≡ id)
unfolding stage_for_block_id
stage_at [] id p e = absurd (let no = e in cc no)
stage_at (s ∷ stages) id p e = elim (Bool-cases (eqb_ℤ s.block_id id)) [
  | inl hit ↦
      let same = some_injective s p (rw hit at e) in
      (0, ap some same, subst (λ x. x.block_id ≡ id) same ((eqb_ℤ_iff s.block_id id).0 hit))
  | inr miss ↦ let (j, at, own) = stage_at stages id p (rw miss at e) in (suc j, at, own)
]

block_at :
    (blocks : List HistoricalBlockInput) (id : ℤ) (h : HistoricalBlockInput)
    → historical_block_for_id blocks id ≡ some h
    → (j : ℕ) × (get_elem? blocks j ≡ some h) × (h.block_id ≡ id)
unfolding historical_block_for_id
block_at [] id h e = absurd (let no = e in cc no)
block_at (b ∷ blocks) id h e = elim (Bool-cases (eqb_ℤ b.block_id id)) [
  | inl hit ↦
      let same = some_injective b h (rw hit at e) in
      (0, ap some same, subst (λ x. x.block_id ≡ id) same ((eqb_ℤ_iff b.block_id id).0 hit))
  | inr miss ↦ let (j, at, own) = block_at blocks id h (rw miss at e) in (suc j, at, own)
]

-- A hash that is found, and not empty, is that of a block with the id.
found-IsKnown :
    (b : BatchInput) (id : ℤ) (hash : Text)
    → known_hash b id ≡ hash
    → is_empty hash ≡ false
    → IsKnown b id hash
found-IsKnown b id hash e full = elim (Option-cases (stage_for_block_id b.stages id)) [
  | inr (p, found) ↦
      let (j, at, own) = stage_at b.stages id p found in inl (j, p, at, own, rw found at e)
  | inl missing ↦ elim (Option-cases (historical_block_for_id b.historical_blocks id)) [
    | inr (h, found) ↦
        let (j, at, own) = block_at b.historical_blocks id h found in
        inr (j, h, at, own, rw (missing, found) at e)
    | inl unknown ↦ absurd (
        let nothing : [] ≡ hash = rw (missing, unknown) at e in
        let no = subst (λ t. is_empty t ≡ false) (sym nothing) full in cc no)
  ]
]

pub link_errors-nil :
    (b : BatchInput) (i : ℕ) (label : Text) (s : StageInput)
    → link_errors b i label s ≡ []
    → LinkSound b i s
link_errors-nil b zero label s h =
    let good = unless-nil (is_genesis s) (codes "Supplier stage is not the genesis block") h in
    let (id, hash) =
      &&_parts (eqb_ℤ s.parent_block_id (negsuc 0)) (text_eq s.parent_block_hash (codes "GENESIS"))
        good in
    (
      (eqb_ℤ_iff s.parent_block_id (negsuc 0)).0 id,
      text_eq→eq s.parent_block_hash (codes "GENESIS") hash,
    )
link_errors-nil b (suc i) label s h =
    let known = known_hash b s.parent_block_id in
    let good =
      unless-nil (is_linked b s) (label ++ codes " does not link to immutable block history") h in
    let (there, more) =
      &&_parts (not (is_empty known))
        (text_eq s.parent_block_hash known && ltb_ℤ s.parent_block_id s.block_id) good in
    let (hash, less) =
      &&_parts (text_eq s.parent_block_hash known) (ltb_ℤ s.parent_block_id s.block_id) more in
    let same = text_eq→eq s.parent_block_hash known hash in
    (
      subst (λ t. is_empty t ≡ false) (sym same) (not-true (is_empty known) there),
      found-IsKnown b s.parent_block_id s.parent_block_hash (sym same)
          (subst (λ t. is_empty t ≡ false) (sym same) (not-true (is_empty known) there)),
      less,
    )

pub event_errors-nil : (s : StageInput) → event_errors s ≡ [] → EventSound s
unfolding text_eq
event_errors-nil s h =
    let is : Text → Bool = λ role. text_eq s.stage role in
    let named : (role : Text) → s.stage ≡ role → text_eq role role ≡ true → is role ≡ true =
      λ role e t. subst (λ x. text_eq x role ≡ true) (sym e) t in
    let other : (r role : Text) → s.stage ≡ r → text_eq r role ≡ false → is role ≡ false =
      λ r role e t. subst (λ x. text_eq x role ≡ false) (sym e) t in
    let fields = missing_fields s supermarket_fields in
    let open_end =
      error_if (not (text_eq s.chain_status (codes "completed")))
        (codes "The Supermarket block is not marked completed") in
    let sold = if is (codes "supermarket") then fields ++ open_end else [] in
    let stored = if is (codes "warehouse") then missing_fields s warehouse_fields else sold in
    let (moved, not_moved) =
      if-nil (is (codes "logistics")) (missing_fields s logistics_fields) stored h in
    let not_kept = λ (e : is (codes "logistics") ≡ false).
      if-nil (is (codes "warehouse")) (missing_fields s warehouse_fields) sold (not_moved e) in
    (
      λ e. missing_fields-nil s logistics_fields (moved (named (codes "logistics") e refl)),
      λ e. missing_fields-nil s warehouse_fields (
          (not_kept (other (codes "warehouse") (codes "logistics") e refl)).0
            (named (codes "warehouse") e refl)),
      λ e.
          let left =
            (not_kept (other (codes "supermarket") (codes "logistics") e refl)).1
              (other (codes "supermarket") (codes "warehouse") e refl) in
          let (a, b) = append_nil fields open_end (
            (if-nil (is (codes "supermarket")) (fields ++ open_end) [] left).0
              (named (codes "supermarket") e refl)) in
          (
            missing_fields-nil s supermarket_fields a,
            text_eq→eq s.chain_status (codes "completed") (
                unless-nil (text_eq s.chain_status (codes "completed"))
                  (codes "The Supermarket block is not marked completed") b),
          ),
    )

pub match_errors-nil :
    (label : Text) (n : RouteNodeInput) (s : StageInput)
    → match_errors label n s ≡ []
    → (s.route_node_id ≡ n.node_id) × (n.role ≡ s.stage)
match_errors-nil label n s h =
    let unlinked =
      error_if (is_empty s.route_node_id || not (text_eq s.route_node_id n.node_id))
        (label ++ codes " is not linked to its saved route node") in
    let off =
      error_if
        (not (ltb_ℤ s.route_step_index (pos 0)) && not (eqb_ℤ s.route_step_index n.step_index))
        (label ++ codes " has an inconsistent route step") in
    let misplaced =
      error_if (not (text_eq n.role s.stage))
        (label ++ codes " role does not match its saved route role") in
    let (h1, c) = append_nil (unlinked ++ off) misplaced h in
    let (a, _) = append_nil unlinked off h1 in
    let linked =
      error_if-nil (is_empty s.route_node_id || not (text_eq s.route_node_id n.node_id))
        (label ++ codes " is not linked to its saved route node") a in
    (
      text_eq→eq s.route_node_id n.node_id
          (or-not-false (is_empty s.route_node_id) (text_eq s.route_node_id n.node_id) linked),
      text_eq→eq n.role s.stage (
          unless-nil (text_eq n.role s.stage)
            (label ++ codes " role does not match its saved route role") c),
    )
