-- ===== src/Workflow/Report.antt =====
-- `evaluate_workflow_progress` of Code/PrivateChain/Server/server.cpp: when it is complete, which
-- node it waits for, and the parent that it proposes for the next block.
use hybrid_blockchain_for_re.Prelude.{
  ◌≡◌, refl, sym, ap, subst, ◌∙◌, true, Option, none, some, List, [], ◌∷◌, ◌++◌, Text, ℤ, arith,
  Option-cases, inl, inr, ◌⊎◌, ◌≢◌, All,
}
use hybrid_blockchain_for_re.Records.{SupplyRouteNode, SupplyChainRecord}
use hybrid_blockchain_for_re.Workflow.{RuntimeWorkflow, ordered_workflow_nodes, ordered}
use hybrid_blockchain_for_re.Workflow.Progress.{
  ProgressError, route_error, no_predecessor, WorkflowProgress, failed, record_of, collect,
  latest_record, or_record, evaluate_workflow_progress,
}
use hybrid_blockchain_for_re.Workflow.Outcome.{
  In, counts, Commits, collect_sound, collect-none, collect-All, collect-Entries,
}
use hybrid_blockchain_for_re.Workflow.Latest.{
  UpTo, latest_record-max, latest_record-none, latest_record-All,
}
use hybrid_blockchain_for_re.Workflow.Advance.{
  HasEntry, Report, all_done, stops, fails, advance-Report, All-map, In-All, Ordered-cases,
  sum-cases, collect-error,
}

module _ (w : RuntimeWorkflow) (records : List SupplyChainRecord) (batch : Text) where
  -- A record of the list is a verified and signed block of the batch for the node of this id.
  abbrev pub HasBlock : SupplyRouteNode → Type 0
  HasBlock n = (r : SupplyChainRecord) × In r records × Commits w batch n.node_id r

  -- A verified and signed block of the batch, of the largest number among them.
  pub record IsLatest (l : SupplyChainRecord) : Type 0 where
    pub there : In l records
    pub counted : counts w batch l ≡ true
    pub largest : All (λ r. counts w batch r ≡ true → UpTo l r) records

  -- What the maps hold, and how the loop over the nodes ended.
  record Ran (p : WorkflowProgress) : Type 0 where
    nodes : List SupplyRouteNode
    order_eq : ordered_workflow_nodes w ≡ ordered nodes
    maps : List (Text × SupplyChainRecord) × List (ℤ × SupplyChainRecord)
    maps_eq : collect w batch [] [] records ≡ inr maps
    report : Report maps.0 maps.1 none nodes p

  evaluate-Ran :
      Ran (evaluate_workflow_progress w records batch)
      ⊎ ((e : ProgressError) × ((l : Text) → e ≢ no_predecessor l)
          × (evaluate_workflow_progress w records batch ≡ failed e))
  unfolding evaluate_workflow_progress
  evaluate-Ran = elim (Ordered-cases (ordered_workflow_nodes w)) [
    | inl (e, bad) ↦ inr (route_error e, λ l same. cc, rw (bad, evaluate_workflow_progress) refl)
    | inr (nodes, good) ↦ elim (sum-cases (collect w batch [] [] records)) [
      | inl (e, bad) ↦ inr (
        e,
        collect-error w batch [] [] records e bad,
        rw (good, bad, evaluate_workflow_progress) refl,
      )
      | inr (maps, run) ↦ inl (record {
        nodes = nodes;
        order_eq = good;
        maps = maps;
        maps_eq = run;
        report =
            rw (good, run, evaluate_workflow_progress)
              (advance-Report maps.0 maps.1 0 none nodes refl);
      })
    ]
  ]

  -- The error "has no committed direct predecessor" is never given.
  pub evaluate-no_predecessor :
      (l : Text) → (evaluate_workflow_progress w records batch).error ≢ some (no_predecessor l)
  evaluate-no_predecessor l h = elim evaluate-Ran [
    | inr (e, other, shape) ↦ other l (ground (arith, sym (ap (λ p. p.error) shape) ∙ h))
    | inl ran ↦ elim ran.report [
      | all_done a shape ↦ absurd (let no = sym (ap (λ p. p.error) shape) ∙ h in cc no)
      | stops done n todo last split a new before shape ↦
          absurd (let no = sym (ap (λ p. p.error) shape) ∙ h in cc no)
      | fails e other shape ↦ other l (ground (arith, sym (ap (λ p. p.error) shape) ∙ h))
    ]
  ]

  HasEntry-HasBlock :
      (maps : List (Text × SupplyChainRecord) × List (ℤ × SupplyChainRecord))
      → collect w batch [] [] records ≡ inr maps
      → (nodes : List SupplyRouteNode) → All (HasEntry maps.0 maps.1) nodes
      → All HasBlock nodes
  unfolding record_of
  HasEntry-HasBlock maps run [] a = tt
  HasEntry-HasBlock maps run (n ∷ nodes) a = (
    elim (collect_sound w batch [] [] records maps run n.node_id a.0.0 a.0.1) [
      | inl none_before ↦ absurd (cc none_before)
      | inr (there, c) ↦ (a.0.0, there, c)
    ],
    HasEntry-HasBlock maps run nodes a.1,
  )

  -- A complete progress: the route has an order, and each of its nodes has a verified and signed
  -- block of the batch.
  pub evaluate-complete :
      (evaluate_workflow_progress w records batch).complete ≡ true
      → (nodes : List SupplyRouteNode) × (ordered_workflow_nodes w ≡ ordered nodes)
        × All HasBlock nodes
  evaluate-complete h = elim evaluate-Ran [
    | inr (e, other, shape) ↦ absurd (let no = sym (ap (λ p. p.complete) shape) ∙ h in cc no)
    | inl ran ↦ elim ran.report [
      | all_done a shape ↦
          (ran.nodes, ran.order_eq, HasEntry-HasBlock ran.maps ran.maps_eq ran.nodes a)
      | stops done n todo last split a new before shape ↦
          absurd (let no = sym (ap (λ p. p.complete) shape) ∙ h in cc no)
      | fails e other shape ↦ absurd (let no = sym (ap (λ p. p.complete) shape) ∙ h in cc no)
    ]
  ]

  -- The parent that is proposed for the next block.
  parent-IsLatest :
      (maps : List (Text × SupplyChainRecord) × List (ℤ × SupplyChainRecord))
      (last : Option SupplyChainRecord) (l : SupplyChainRecord)
      → collect w batch [] [] records ≡ inr maps
      → (last ≡ none) ⊎ ((id : Text) × (record_of id maps.0 ≡ last))
      → or_record (latest_record none maps.1) last ≡ some l
      → IsLatest l
  unfolding record_of
  parent-IsLatest maps last l run before e =
      let counted_all =
        All-map {P = λ r. In r records}
          {Q = λ r. counts w batch r ≡ true → In r records × (counts w batch r ≡ true)} records
          (λ r h c. (h, c)) (In-All records) in
      let entries =
        collect-Entries w batch (λ r. In r records × (counts w batch r ≡ true)) [] [] records maps
          run tt counted_all in
      elim (Option-cases (latest_record none maps.1)) [
        | inr (k, newest) ↦
            let same : k ≡ l = ground (arith, rw newest at e) in
            let (_, bound) = latest_record-max none maps.1 k newest in
            let (_, largest) = collect-All w batch (UpTo k) [] [] records maps run bound in
            elim (latest_record-All (λ r. In r records × (counts w batch r ≡ true)) none maps.1 k
              newest entries) [
                | inl bad ↦ absurd (cc bad)
                | inr (there, counted) ↦
                    subst IsLatest same
                      (record { there = there; counted = counted; largest = largest })
              ]
        | inl empty ↦
            let (_, gone) = latest_record-none none maps.1 empty in
            let here : last ≡ some l = rw empty at e in
            let bound : All (λ x. UpTo l x.1) maps.1 =
              subst (λ m. All (λ x. UpTo l x.1) m) (sym gone) tt in
            let (_, largest) = collect-All w batch (UpTo l) [] [] records maps run bound in
            elim before [
              | inl nothing ↦ absurd (let no = sym nothing ∙ here in cc no)
              | inr (id, found) ↦
                  elim (collect_sound w batch [] [] records maps run id l (found ∙ here)) [
                    | inl none_before ↦ absurd (cc none_before)
                    | inr (there, c) ↦ record { there = there; counted = c.0; largest = largest }
                  ]
            ]
      ]

  -- What a progress that waits for a node says.
  pub record Pending (n : SupplyRouteNode) : Type 0 where
    pub done : List SupplyRouteNode
    pub todo : List SupplyRouteNode
    pub order_eq : ordered_workflow_nodes w ≡ ordered (done ++ n ∷ todo)
    pub before : All HasBlock done
    pub none_yet : All (λ r. Commits w batch n.node_id r → ⊥) records

  -- A progress with a next node: this is the first node of the route's order without a verified and
  -- signed block of the batch; and the parent that is proposed, if any, is the batch's latest one.
  pub evaluate-next_node :
      (n : SupplyRouteNode)
      → (evaluate_workflow_progress w records batch).next_node ≡ some n
      → Pending n
        × ((l : SupplyChainRecord)
            → (evaluate_workflow_progress w records batch).parent_record ≡ some l
            → IsLatest l)
  evaluate-next_node n h = elim evaluate-Ran [
    | inr (e, other, shape) ↦ absurd (let no = sym (ap (λ p. p.next_node) shape) ∙ h in cc no)
    | inl ran ↦ elim ran.report [
      | all_done a shape ↦ absurd (let no = sym (ap (λ p. p.next_node) shape) ∙ h in cc no)
      | fails e other shape ↦ absurd (let no = sym (ap (λ p. p.next_node) shape) ∙ h in cc no)
      | stops done m todo last split a new before shape ↦
          let same : m ≡ n = ground (arith, sym (ap (λ p. p.next_node) shape) ∙ h) in
          let (_, none_yet) =
            collect-none w batch [] [] records ran.maps ran.maps_eq m.node_id new in
          (
            subst Pending same (record {
              done = done;
              todo = todo;
              order_eq = ran.order_eq ∙ ap ordered split;
              before = HasEntry-HasBlock ran.maps ran.maps_eq done a;
              none_yet = none_yet;
            }),
            λ l e.
                parent-IsLatest ran.maps last l ran.maps_eq before
                  (sym (ap (λ p. p.parent_record) shape) ∙ e),
          )
    ]
  ]
