-- ===== src/Workflow/Advance.antt =====
-- The two loops of `evaluate_workflow_progress` (Code/PrivateChain/Server/server.cpp): how each of them
-- ends.
use hybrid_blockchain_for_re.Prelude.{
  ℕ, suc, ◌≡◌, refl, sym, ap, ◌∙◌, false, ◌&&◌, Option, none, some, List, [], ◌∷◌, ◌++◌, Text, ℤ,
  text_eq, arith, Bool-cases, Option-cases, inl, inr, ◌⊎◌, ◌≢◌, All, ltb,
}
use hybrid_blockchain_for_re.Records.{SupplyRouteNode, SupplyChainRecord}
use hybrid_blockchain_for_re.Workflow.{
  RuntimeWorkflow, RouteError, Ordered, workflow_node_for_record, ordered, refused,
}
use hybrid_blockchain_for_re.Workflow.Progress.{
  ProgressError, duplicate_block, no_predecessor, WorkflowProgress, failed, waiting, finished,
  record_of, collect, latest_record, advance, link_error, or_record, is_none,
}
use hybrid_blockchain_for_re.Workflow.Outcome.{In, In-cons, counts, passed_on}

module _ (by_node : List (Text × SupplyChainRecord)) (by_block : List (ℤ × SupplyChainRecord)) where
  -- The map has a block for the node.
  abbrev pub HasEntry : SupplyRouteNode → Type 0
  HasEntry n = (r : SupplyChainRecord) × (record_of n.node_id by_node ≡ some r)

  -- How the loop over the nodes ends, when `previous` is the block before the first of them.
  pub data Report (previous : Option SupplyChainRecord) (nodes : List SupplyRouteNode)
      (p : WorkflowProgress) : Type 0 where
    all_done : All HasEntry nodes → p ≡ finished → Report previous nodes p
    stops :
        (done : List SupplyRouteNode) (n : SupplyRouteNode) (todo : List SupplyRouteNode)
        (last : Option SupplyChainRecord)
        → nodes ≡ done ++ n ∷ todo
        → All HasEntry done
        → record_of n.node_id by_node ≡ none
        → (last ≡ previous) ⊎ ((id : Text) × (record_of id by_node ≡ last))
        → p ≡ waiting n (or_record (latest_record none by_block) last)
        → Report previous nodes p
    fails :
        (e : ProgressError)
        → ((l : Text) → e ≢ no_predecessor l)
        → p ≡ failed e
        → Report previous nodes p

  link_error-predecessor :
      (index : ℕ) (previous : Option SupplyChainRecord) (r : SupplyChainRecord) (e : ProgressError)
      → link_error by_block index previous r ≡ some e
      → (l : Text) → e ≢ no_predecessor l
  unfolding link_error
  link_error-predecessor index previous r e h l = λ same. ground (arith, h, same)

  Report-cons :
      (previous : Option SupplyChainRecord) (n : SupplyRouteNode) (r : SupplyChainRecord)
      (nodes : List SupplyRouteNode) (p : WorkflowProgress)
      → record_of n.node_id by_node ≡ some r
      → Report (some r) nodes p
      → Report previous (n ∷ nodes) p
  Report-cons previous n r nodes p h (all_done a e) = all_done ((r, h), a) e
  Report-cons previous n r nodes p h (stops done m todo last split a new before e) =
      stops (n ∷ done) m todo last (ap (◌∷◌ n) split) ((r, h), a) new
        (inr (elim before [ inl same ↦ (n.node_id, h ∙ sym same) | inr b ↦ b ])) e
  Report-cons previous n r nodes p h (fails e ok eq) = fails e ok eq

  pub advance-Report :
      (index : ℕ) (previous : Option SupplyChainRecord) (nodes : List SupplyRouteNode)
      → (ltb 0 index && is_none previous) ≡ false
      → Report previous nodes (advance by_node by_block index previous nodes)
  unfolding advance
  advance-Report index previous [] h = all_done tt refl
  advance-Report index previous (n ∷ nodes) h = elim (Option-cases (record_of n.node_id by_node)) [
    | inl new ↦ rw (new, h, advance) (stops [] n nodes previous refl tt new (inl refl) refl)
    | inr (r, found) ↦ elim (Option-cases (link_error by_block index previous r)) [
      | inr (e, broken) ↦
          rw (found, broken, advance)
            (fails e (link_error-predecessor index previous r e broken) refl)
      | inl linked ↦
          rw (found, linked, advance)
            (Report-cons previous n r nodes _ found
              (advance-Report (suc index) (some r) nodes (ground arith)))
    ]
  ]

pub All-map :
    {A : Type 0} {P Q : A → Type 0} (xs : List A) → ((x : A) → P x → Q x) → All P xs → All Q xs
All-map [] f h = tt
All-map {P = P} {Q = Q} (x ∷ xs) f h = (f x h.0, All-map {P = P} {Q = Q} xs f h.1)

pub In-All : (records : List SupplyChainRecord) → All (λ r. In r records) records
In-All [] = tt
In-All (x ∷ records) = (
  (0, refl),
  All-map {P = λ r. In r records} records (λ r h. In-cons r x records h) (In-All records),
)

pub Ordered-cases :
    (o : Ordered)
    → ((e : RouteError) × (o ≡ refused e)) ⊎ ((ns : List SupplyRouteNode) × (o ≡ ordered ns))
Ordered-cases (refused e) = inl (e, refl)
Ordered-cases (ordered ns) = inr (ns, refl)

pub sum-cases : {A B : Type 0} (s : A ⊎ B) → ((a : A) × (s ≡ inl a)) ⊎ ((b : B) × (s ≡ inr b))
sum-cases (inl a) = inl (a, refl)
sum-cases (inr b) = inr (b, refl)

-- The loop over the records has one error alone.
pub collect-error :
    (w : RuntimeWorkflow) (batch : Text) (by_node : List (Text × SupplyChainRecord))
    (by_block : List (ℤ × SupplyChainRecord)) (records : List SupplyChainRecord) (e : ProgressError)
    → collect w batch by_node by_block records ≡ inl e
    → (l : Text) → e ≢ no_predecessor l
unfolding collect
collect-error w batch by_node by_block [] e h l same = cc
collect-error w batch by_node by_block (r ∷ records) e h l same =
    elim (Bool-cases (counts w batch r)) [
      | inr out ↦ collect-error w batch by_node by_block records e (ground (arith, h, out)) l same
      | inl counted ↦
          let h1 =
            sym (passed_on (text_eq r.batch_id batch) r.verified r.signature_verified _ _ counted)
            ∙ h in
          elim (Option-cases (workflow_node_for_record w r)) [
            | inl off ↦
                collect-error w batch by_node ((r.block_id, r) ∷ by_block) records e (rw off at h1)
                  l same
            | inr (n, on) ↦ elim (Option-cases (record_of n.node_id by_node)) [
              | inl new ↦
                  collect-error w batch ((n.node_id, r) ∷ by_node) ((r.block_id, r) ∷ by_block)
                    records e (rw (on, new) at h1) l same
              | inr (other, twice) ↦
                  let found : duplicate_block n.label ≡ e = ground (arith, rw (on, twice) at h1) in
                  absurd (let both = found ∙ same in cc both)
            ]
          ]
    ]
