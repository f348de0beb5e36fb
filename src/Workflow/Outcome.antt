-- ===== src/Workflow/Outcome.antt =====
-- `evaluate_workflow_progress` of Code/PrivateChain/Server/server.cpp: what its result says of the
-- blocks of the batch.
use hybrid_blockchain_for_re.Prelude.{
  ℕ, suc, ◌≡◌, refl, sym, ap, subst, ◌∙◌, Bool, true, false, ◌||◌, ◌&&◌, not, none, some, List, [],
  ◌∷◌, Text, ℤ, text_eq, text_eq→eq, text_eq_false→ne, arith, Bool-cases, Option-cases, inl, inr,
  ◌⊎◌, get_elem?, All, if◌then◌else◌,
}
use hybrid_blockchain_for_re.Records.{SupplyRouteNode, SupplyChainRecord}
use hybrid_blockchain_for_re.Workflow.{RuntimeWorkflow, workflow_node_for_record}
use hybrid_blockchain_for_re.Workflow.Progress.{record_of, collect}

-- A record of the list.
abbrev pub In : SupplyChainRecord → List SupplyChainRecord → Type 0
In r records = (i : ℕ) × (get_elem? records i ≡ some r)

pub In-cons :
    (r x : SupplyChainRecord) (records : List SupplyChainRecord) → In r records → In r (x ∷ records)
In-cons r x records (i, e) = (suc i, e)

-- The two tests that pass over a record, when it is counted.
pub passed_on :
    {A : Type 0} (a b c : Bool) (x y : A)
    → (a && (b && c)) ≡ true
    → (if not a then x else if not b || not c then x else y) ≡ y
passed_on true true true x y h = refl
passed_on true true false x y h = absurd (let no = h in cc no)
passed_on true false c x y h = absurd (let no = h in cc no)
passed_on false b c x y h = absurd (let no = h in cc no)

other_node :
    (n m : SupplyRouteNode) (id : Text)
    → text_eq n.node_id id ≡ false
    → some n ≡ some m
    → m.node_id ≡ id
    → ⊥
other_node n m id h e same =
    let one : n ≡ m = ground (arith, e) in
    text_eq_false→ne n.node_id id h (ap (λ k. k.node_id) one ∙ same)

module _ (w : RuntimeWorkflow) (batch : Text) where
  -- A verified and signed block of the batch.
  abbrev pub counts : SupplyChainRecord → Bool
  counts r = text_eq r.batch_id batch && (r.verified && r.signature_verified)

  -- One that stands for the node of this id.
  abbrev pub Commits : Text → SupplyChainRecord → Type 0
  Commits id r =
      (counts r ≡ true)
      × ((n : SupplyRouteNode) × (workflow_node_for_record w r ≡ some n) × (n.node_id ≡ id))

  -- One round of the loop over the records, where it goes on.
  data Round (by_node : List (Text × SupplyChainRecord)) (by_block : List (ℤ × SupplyChainRecord))
      (r : SupplyChainRecord) (records : List SupplyChainRecord)
      (m : List (Text × SupplyChainRecord) × List (ℤ × SupplyChainRecord)) : Type 0 where
    skipped :
        counts r ≡ false
        → collect w batch by_node by_block records ≡ inr m
        → Round by_node by_block r records m
    off_route :
        counts r ≡ true
        → workflow_node_for_record w r ≡ none
        → collect w batch by_node ((r.block_id, r) ∷ by_block) records ≡ inr m
        → Round by_node by_block r records m
    on_route :
        (n : SupplyRouteNode)
        → counts r ≡ true
        → workflow_node_for_record w r ≡ some n
        → record_of n.node_id by_node ≡ none
        → collect w batch ((n.node_id, r) ∷ by_node) ((r.block_id, r) ∷ by_block) records ≡ inr m
        → Round by_node by_block r records m

  collect-Round :
      (by_node : List (Text × SupplyChainRecord)) (by_block : List (ℤ × SupplyChainRecord))
      (r : SupplyChainRecord) (records : List SupplyChainRecord)
      (m : List (Text × SupplyChainRecord) × List (ℤ × SupplyChainRecord))
      → collect w batch by_node by_block (r ∷ records) ≡ inr m
      → Round by_node by_block r records m
  unfolding collect
  collect-Round by_node by_block r records m e = elim (Bool-cases (counts r)) [
    | inr out ↦ skipped out (ground (arith, e, out))
    | inl counted ↦
        let e1 =
          sym (passed_on (text_eq r.batch_id batch) r.verified r.signature_verified _ _ counted)
          ∙ e in
        elim (Option-cases (workflow_node_for_record w r)) [
          | inl off ↦ off_route counted off (rw off at e1)
          | inr (n, on) ↦ elim (Option-cases (record_of n.node_id by_node)) [
            | inl new ↦ on_route n counted on new (rw (on, new) at e1)
            | inr (other, twice) ↦ absurd (let no = rw (on, twice) at e1 in cc no)
          ]
        ]
  ]

  In-later :
      (id : Text) (r x : SupplyChainRecord) (records : List SupplyChainRecord) {P : Type 0}
      → P ⊎ (In r records × Commits id r)
      → P ⊎ (In r (x ∷ records) × Commits id r)
  In-later id r x records (inl p) = inl p
  In-later id r x records (inr (there, c)) = inr (In-cons r x records there, c)

  -- A block that the maps give for a node is a record that stands for it.
  pub collect_sound :
      (by_node : List (Text × SupplyChainRecord)) (by_block : List (ℤ × SupplyChainRecord))
      (records : List SupplyChainRecord)
      (m : List (Text × SupplyChainRecord) × List (ℤ × SupplyChainRecord))
      → collect w batch by_node by_block records ≡ inr m
      → (id : Text) (r : SupplyChainRecord) → record_of id m.0 ≡ some r
      → (record_of id by_node ≡ some r) ⊎ (In r records × Commits id r)
  unfolding collect record_of
  collect_sound by_node by_block [] m e id r found =
      let same : (by_node, by_block) ≡ m = ground (arith, e) in
      inl (ap (λ n. record_of id n.0) same ∙ found)
  collect_sound by_node by_block (x ∷ records) m e id r found =
      elim (collect-Round by_node by_block x records m e) [
        | skipped out rest ↦
            In-later id r x records (collect_sound by_node by_block records m rest id r found)
        | off_route counted off rest ↦
            In-later id r x records
              (collect_sound by_node ((x.block_id, x) ∷ by_block) records m rest id r found)
        | on_route n counted on new rest ↦
            elim (collect_sound ((n.node_id, x) ∷ by_node) ((x.block_id, x) ∷ by_block) records m
              rest id r found) [
                | inr (there, c) ↦ inr (In-cons r x records there, c)
                | inl here ↦ elim (Bool-cases (text_eq n.node_id id)) [
                  | inr other ↦ inl (rw other at here)
                  | inl hit ↦
                      let same : x ≡ r = ground (arith, rw hit at here) in
                      inr (
                        (0, ap some same),
                        rw (← same) (counted, (n, on, text_eq→eq n.node_id id hit)),
                      )
                ]
              ]
      ]

  -- No block for a node: no record stands for it.
  pub collect-none :
      (by_node : List (Text × SupplyChainRecord)) (by_block : List (ℤ × SupplyChainRecord))
      (records : List SupplyChainRecord)
      (m : List (Text × SupplyChainRecord) × List (ℤ × SupplyChainRecord))
      → collect w batch by_node by_block records ≡ inr m
      → (id : Text) → record_of id m.0 ≡ none
      → (record_of id by_node ≡ none) × All (λ r. Commits id r → ⊥) records
  unfolding collect record_of
  collect-none by_node by_block [] m e id h =
      let same : (by_node, by_block) ≡ m = ground (arith, e) in
      (ap (λ n. record_of id n.0) same ∙ h, tt)
  collect-none by_node by_block (x ∷ records) m e id h =
      elim (collect-Round by_node by_block x records m e) [
        | skipped out rest ↦
            let (before, later) = collect-none by_node by_block records m rest id h in
            (before, (λ c. absurd (let no = sym out ∙ c.0 in cc no), later))
        | off_route counted off rest ↦
            let (before, later) =
              collect-none by_node ((x.block_id, x) ∷ by_block) records m rest id h in
            (before, (λ c. absurd (let no = sym off ∙ c.1.1 in cc no), later))
        | on_route n counted on new rest ↦
            let (before, later) =
              collect-none ((n.node_id, x) ∷ by_node) ((x.block_id, x) ∷ by_block) records m rest id
                h in
            elim (Bool-cases (text_eq n.node_id id)) [
              | inl hit ↦ absurd (let no = rw hit at before in cc no)
              | inr other ↦ (
                rw other at before,
                (λ c. other_node n c.1.0 id other (sym on ∙ c.1.1) c.1.2, later),
              )
            ]
      ]

  -- Every block of the batch is in the map by block number, and what all entries satisfy it does.
  pub collect-All :
      (P : SupplyChainRecord → Type 0) (by_node : List (Text × SupplyChainRecord))
      (by_block : List (ℤ × SupplyChainRecord)) (records : List SupplyChainRecord)
      (m : List (Text × SupplyChainRecord) × List (ℤ × SupplyChainRecord))
      → collect w batch by_node by_block records ≡ inr m
      → All (λ e. P e.1) m.1
      → All (λ e. P e.1) by_block × All (λ r. counts r ≡ true → P r) records
  unfolding collect
  collect-All P by_node by_block [] m e h =
      let same : (by_node, by_block) ≡ m = ground (arith, e) in
      (subst (λ n. All (λ e. P e.1) n.1) (sym same) h, tt)
  collect-All P by_node by_block (x ∷ records) m e h =
      elim (collect-Round by_node by_block x records m e) [
        | skipped out rest ↦
            let (before, later) = collect-All P by_node by_block records m rest h in
            (before, (λ c. absurd (let no = sym out ∙ c in cc no), later))
        | off_route counted off rest ↦
            let (before, later) =
              collect-All P by_node ((x.block_id, x) ∷ by_block) records m rest h in
            (before.1, (λ c. before.0, later))
        | on_route n counted on new rest ↦
            let (before, later) =
              collect-All P ((n.node_id, x) ∷ by_node) ((x.block_id, x) ∷ by_block) records m rest
                h in
            (before.1, (λ c. before.0, later))
      ]

  -- The entries of the map by block number are blocks of the batch.
  pub collect-Entries :
      (P : SupplyChainRecord → Type 0) (by_node : List (Text × SupplyChainRecord))
      (by_block : List (ℤ × SupplyChainRecord)) (records : List SupplyChainRecord)
      (m : List (Text × SupplyChainRecord) × List (ℤ × SupplyChainRecord))
      → collect w batch by_node by_block records ≡ inr m
      → All (λ e. P e.1) by_block
      → All (λ r. counts r ≡ true → P r) records
      → All (λ e. P e.1) m.1
  unfolding collect
  collect-Entries P by_node by_block [] m e h all =
      let same : (by_node, by_block) ≡ m = ground (arith, e) in
      subst (λ n. All (λ e. P e.1) n.1) same h
  collect-Entries P by_node by_block (x ∷ records) m e h all =
      elim (collect-Round by_node by_block x records m e) [
        | skipped out rest ↦ collect-Entries P by_node by_block records m rest h all.1
        | off_route counted off rest ↦
            collect-Entries P by_node ((x.block_id, x) ∷ by_block) records m rest (all.0 counted, h)
              all.1
        | on_route n counted on new rest ↦
            collect-Entries P ((n.node_id, x) ∷ by_node) ((x.block_id, x) ∷ by_block) records m rest
              (all.0 counted, h) all.1
      ]
