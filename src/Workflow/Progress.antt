-- ===== src/Workflow/Progress.antt =====
-- `evaluate_workflow_progress` of Code/PrivateChain/Server/server.cpp: how far the blocks of a batch
-- have come along the saved route. The maps are lists with the newest entry in front.
use hybrid_blockchain_for_re.Prelude.{
  ℕ, suc, Bool, true, false, ◌||◌, ◌&&◌, not, Option, none, some, List, [], ◌∷◌, Text, ℤ, negsuc,
  text_eq, eqb_ℤ, ltb_ℤ, ltb, ◌==◌, if◌then◌else◌, ◌⊎◌, inl, inr,
}
use hybrid_blockchain_for_re.Records.{SupplyRouteNode, SupplyChainRecord}
use hybrid_blockchain_for_re.Chain.{find_block, genesis}
use hybrid_blockchain_for_re.Workflow.{
  RuntimeWorkflow, RouteError, refused, ordered, workflow_node_for_record, ordered_workflow_nodes,
}

pub data ProgressError : Type 0 where
  route_error : RouteError → ProgressError
  duplicate_block : Text → ProgressError
  no_predecessor : Text → ProgressError
  not_genesis : ProgressError
  broken_link : ℤ → ProgressError

pub record WorkflowProgress : Type 0 where
  pub next_node : Option SupplyRouteNode
  pub parent_record : Option SupplyChainRecord
  pub complete : Bool
  pub error : Option ProgressError

-- A progress with an error, one that waits for a node, and one that is complete.
abbrev pub failed : ProgressError → WorkflowProgress
failed e = record { next_node = none; parent_record = none; complete = false; error = some e }

abbrev pub waiting : SupplyRouteNode → Option SupplyChainRecord → WorkflowProgress
waiting n p = record { next_node = some n; parent_record = p; complete = false; error = none }

abbrev pub finished : WorkflowProgress
finished = record { next_node = none; parent_record = none; complete = true; error = none }

-- records_by_node.find
unfoldable pub record_of : Text → List (Text × SupplyChainRecord) → Option SupplyChainRecord
record_of id [] = none
record_of id ((k, r) ∷ m) = if text_eq k id then some r else record_of id m

-- The loop over the records: both maps, or the error of a node with two blocks.
unfoldable pub collect :
    RuntimeWorkflow
    → Text
    → List (Text × SupplyChainRecord)
    → List (ℤ × SupplyChainRecord)
    → List SupplyChainRecord
    → ProgressError ⊎ (List (Text × SupplyChainRecord) × List (ℤ × SupplyChainRecord))
collect w batch by_node by_block [] = inr (by_node, by_block)
collect w batch by_node by_block (r ∷ records) =
    let skip = collect w batch by_node by_block records in
    let historical = collect w batch by_node ((r.block_id, r) ∷ by_block) records in
    let counted =
      elim (workflow_node_for_record w r)
        as (λ x. ProgressError ⊎ (List (Text × SupplyChainRecord) × List (ℤ × SupplyChainRecord))) [
          | none ↦ historical
          | some n ↦ elim (record_of n.node_id by_node) [
            | some other ↦ inl (duplicate_block n.label)
            | none ↦ collect w batch ((n.node_id, r) ∷ by_node) ((r.block_id, r) ∷ by_block) records
          ]
        ] in
    if not (text_eq r.batch_id batch)
    then skip
    else if not r.verified || not r.signature_verified
    then skip
    else counted

abbrev pub is_newer : SupplyChainRecord → Option SupplyChainRecord → Bool
is_newer r none = true
is_newer r (some best) = ltb_ℤ best.block_id r.block_id

-- The loop for latest_record.
unfoldable pub latest_record :
    Option SupplyChainRecord → List (ℤ × SupplyChainRecord) → Option SupplyChainRecord
latest_record best [] = best
latest_record best ((k, r) ∷ m) = latest_record (if is_newer r best then some r else best) m

abbrev pub direct_parent : Option SupplyChainRecord → SupplyChainRecord → Bool
direct_parent none r = false
direct_parent (some p) r =
    eqb_ℤ r.parent_block_id p.block_id && text_eq r.parent_block_hash p.block_hash

abbrev pub historical_parent : Option SupplyChainRecord → SupplyChainRecord → Bool
historical_parent none r = false
historical_parent (some p) r =
    ltb_ℤ p.block_id r.block_id && text_eq p.block_hash r.parent_block_hash

abbrev pub or_record :
    Option SupplyChainRecord → Option SupplyChainRecord → Option SupplyChainRecord
or_record none other = other
or_record (some r) other = some r

abbrev pub is_none : Option SupplyChainRecord → Bool
is_none none = true
is_none (some r) = false

-- The test on the block of the node at `index`, against the block of the node before it.
unfoldable pub link_error :
    List (ℤ × SupplyChainRecord)
    → ℕ
    → Option SupplyChainRecord
    → SupplyChainRecord
    → Option ProgressError
link_error by_block index previous r =
    if index == 0
    then if not (eqb_ℤ r.parent_block_id (negsuc 0)) || not (text_eq r.parent_block_hash genesis)
      then some not_genesis
      else none
    else if not
        (direct_parent previous r || historical_parent (find_block r.parent_block_id by_block) r)
    then some (broken_link r.block_id)
    else none

-- The loop over the nodes, from the node at `index` on.
unfoldable pub advance :
    List (Text × SupplyChainRecord)
    → List (ℤ × SupplyChainRecord)
    → ℕ
    → Option SupplyChainRecord
    → List SupplyRouteNode
    → WorkflowProgress
advance by_node by_block index previous [] = finished
advance by_node by_block index previous (n ∷ nodes) = elim (record_of n.node_id by_node) [
  | none ↦
      if ltb 0 index && is_none previous
      then failed (no_predecessor n.label)
      else waiting n (or_record (latest_record none by_block) previous)
  | some r ↦
      let rest = advance by_node by_block (suc index) (some r) nodes in
      elim (link_error by_block index previous r) as (λ x. WorkflowProgress) [
        | some e ↦ failed e
        | none ↦ rest
      ]
]

-- evaluate_workflow_progress
unfoldable pub evaluate_workflow_progress :
    RuntimeWorkflow → List SupplyChainRecord → Text → WorkflowProgress
evaluate_workflow_progress w records batch = elim (ordered_workflow_nodes w) [
  | refused e ↦ failed (route_error e)
  | ordered nodes ↦ elim (collect w batch [] [] records) [
    | inl e ↦ failed e
    | inr (by_node, by_block) ↦ advance by_node by_block 0 none nodes
  ]
]

-- next_pending_workflow_node
unfoldable pub next_pending_workflow_node :
    RuntimeWorkflow → List SupplyChainRecord → Text → Option SupplyRouteNode
next_pending_workflow_node w records batch = (evaluate_workflow_progress w records batch).next_node
