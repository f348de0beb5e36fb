-- ===== src/Snapshot/Tests.antt =====
-- Runs of `evaluate_eligibility` (Code/Snapshot/src/snapshot.cpp) at fixed inputs, and the theorems
-- at them.
use hybrid_blockchain_for_re.Prelude.{
  arith, none, ℕ, suc, ◌≡◌, ◌≢◌, refl, true, false, some, List, [], ◌∷◌, Text, codes, ℤ, pos,
  negsuc, text_eq, length, get_elem?, member, decimal, to_string,
}
use hybrid_blockchain_for_re.Snapshot.{
  EvidenceInput, RouteNodeInput, StageInput, BatchInput, lookup, trim, from_first, up_to_last,
  stage_for_block_id, historical_block_for_id,
}
use hybrid_blockchain_for_re.Snapshot.Route.{
  count_nodes, link_edges, the_only, node_by_id, follow, exhausted, route_is_complete_linear,
}
use hybrid_blockchain_for_re.Snapshot.Eligibility.{
  text_lt, insert_node, sort_nodes, back_differs, matching_errors, missing_fields, all_stage_errors,
  evaluate_eligibility,
}
use hybrid_blockchain_for_re.Snapshot.Evidence.{
  PublicEvidence, find_policy, evidence_key, offer_stage, available_evidence, incomplete,
  select_evidence, insert_evidence, sort_evidence, chosen_evidence,
}
use hybrid_blockchain_for_re.Snapshot.Approved.{Chosen, chosen_evidence-Chosen}
use hybrid_blockchain_for_re.Snapshot.Offers.{Has}
use hybrid_blockchain_for_re.Snapshot.Line.{HasEdge}
use hybrid_blockchain_for_re.Snapshot.Visit.{follow_ends}
use hybrid_blockchain_for_re.Snapshot.Along.{eligible-follows_route}

program : Unit {0}
unfolding text_eq member decimal to_string lookup from_first up_to_last stage_for_block_id
    historical_block_for_id count_nodes link_edges the_only node_by_id follow
    route_is_complete_linear text_lt insert_node sort_nodes back_differs matching_errors
    missing_fields all_stage_errors evaluate_eligibility find_policy offer_stage available_evidence
    select_evidence insert_evidence sort_evidence chosen_evidence
program = tt

abbrev node : Text → Text → ℤ → RouteNodeInput
node id role step = record {
  node_id = id;
  label = [];
  role = role;
  username = [];
  step_index = step;
  node_type = [];
}

abbrev farm : RouteNodeInput
farm = node (codes "n1") (codes "supplier") (pos 0)

abbrev shop : RouteNodeInput
shop = node (codes "n2") (codes "supermarket") (pos 1)

abbrev stage : ℤ → ℤ → Text → Text → List (Text × Text) → Text → Text → Text → StageInput
stage id parent parent_hash role fields hash status node_id = record {
  block_id = id;
  parent_block_id = parent;
  parent_block_hash = parent_hash;
  stage = role;
  event_fields = fields;
  evidence = [];
  block_hash = hash;
  chain_status = status;
  verified = true;
  signature_verified = true;
  route_node_id = node_id;
  route_step_index = negsuc 0;
  route_node_label = [];
  route_node_username = [];
}

abbrev harvest : StageInput
harvest =
    stage (pos 3) (negsuc 0) (codes "GENESIS") (codes "supplier") [] (codes "h3") (codes "active")
      (codes "n1")

abbrev sale : StageInput
sale =
    stage (pos 5) (pos 3) (codes "h3") (codes "supermarket")
      ((codes "shelfPlacementDate", codes " 2024-05-01")
        ∷ (codes "expirationSellByDate", codes "2024-06-01")
        ∷ (codes "storeLocationId", codes "S1\t")
        ∷ [])
      (codes "h5") (codes "completed") (codes "n2")

abbrev batch : List RouteNodeInput → List StageInput → BatchInput
batch nodes stages = record {
  batch_id = codes "B1";
  product = codes "Apples";
  harvest_date = codes "2024-04-28";
  farm_location = codes "Farm";
  certificate_id = codes "C1";
  status = codes "completed";
  available_from = [];
  available_until = [];
  stages = stages;
  historical_blocks = [];
  route_nodes = nodes;
  route_edges = record { from_node_id = codes "n1"; to_node_id = codes "n2" } ∷ [];
  source_errors = [];
}

-- The nodes of the saved route need not be stored in its order.
abbrev whole : BatchInput
whole = batch (shop ∷ farm ∷ []) (harvest ∷ sale ∷ [])

whole_eligible : (evaluate_eligibility whole).eligible ≡ true
unfolding program
whole_eligible = refl

blanks_trimmed : trim (codes " \ta b\n ") ≡ codes "a b"
unfolding program
blanks_trimmed = refl

-- A stage whose parent is not the genesis block and whose hash is missing.
cut_batch :
    (evaluate_eligibility (
      batch
        (farm ∷ shop ∷ [])
        (harvest ∷ (record sale { parent_block_id = pos 4; verified = false }) ∷ []))).errors
    ≡ codes "supermarket block 5 Merkle verification failed"
      ∷ codes "supermarket block 5 does not link to immutable block history"
      ∷ []
unfolding program
cut_batch = refl

-- Two nodes with one step are no line.
two_first_steps :
    route_is_complete_linear
      (batch (farm ∷ node (codes "n2") (codes "supermarket") (pos 0) ∷ []) [])
    ≡ false
unfolding program
two_first_steps = refl

-- A loop in the map ends the walk.
abbrev loop : List (Text × Text)
loop = (codes "n1", codes "n2") ∷ (codes "n2", codes "n1") ∷ []

follow_ends_example : follow (farm ∷ shop ∷ []) loop 3 [] (codes "n1") 0 ≢ exhausted
follow_ends_example = follow_ends (farm ∷ shop ∷ []) loop (codes "n1")

eligible-follows_route_example :
    (length whole.stages ≡ length whole.route_nodes)
    × ((i : ℕ) (s t : StageInput)
        → get_elem? whole.stages i ≡ some s
        → get_elem? whole.stages (suc i) ≡ some t
        → HasEdge whole.route_edges s.route_node_id t.route_node_id)
eligible-follows_route_example = eligible-follows_route whole whole_eligible

abbrev piece : Text → Text → Text → EvidenceInput
piece stage category cid = record { stage = stage; category = category; cid = cid }

abbrev shown : StageInput
shown = record sale {
  evidence =
      piece [] (codes "receipts") (codes "Q1")
      ∷ piece [] (codes "recallNotices") (codes "Q2")
      ∷ piece [] (codes "harvestPhotos") (codes "Q3")
      ∷ [];
}

abbrev notice : PublicEvidence
notice = record { stage = codes "supermarket"; type = codes "recall_notice"; cid = codes "Q2" }

abbrev wanted : List EvidenceInput
wanted =
    piece (codes " supermarket") (codes "recallNotices") (codes "Q2")
    ∷ piece [] (codes "recallNotices") (codes "Q2")
    ∷ piece (codes "supermarket") (codes "recallNotices") (codes "Q2 ")
    ∷ []

key_parts : evidence_key (codes "a") (codes "b") (codes "c") ≡ 97 ∷ 31 ∷ 98 ∷ 31 ∷ 99 ∷ []
key_parts = refl

-- An incomplete selection and one made twice are passed over.
notice_chosen : chosen_evidence (harvest ∷ shown ∷ []) wanted ≡ some (notice ∷ [])
unfolding program
notice_chosen = refl

sorted_by_type :
    chosen_evidence (shown ∷ []) (
      piece (codes "supermarket") (codes "recallNotices") (codes "Q2")
      ∷ piece (codes "supermarket") (codes "harvestPhotos") (codes "Q3")
      ∷ [])
    ≡ some (
        (record { stage = codes "supermarket"; type = codes "harvest_photo"; cid = codes "Q3" })
        ∷ notice
        ∷ [])
unfolding program
sorted_by_type = refl

private_refused :
    chosen_evidence (shown ∷ []) (piece (codes "supermarket") (codes "receipts") (codes "Q1") ∷ [])
    ≡ none
unfolding program
private_refused = refl

chosen_evidence-Chosen_example :
    ((p : PublicEvidence)
      → Has p (notice ∷ [])
      → (i : ℕ) × (e : EvidenceInput) × (get_elem? wanted i ≡ some e)
        × Chosen (harvest ∷ shown ∷ []) e p)
    × ((i : ℕ) (e : EvidenceInput)
        → get_elem? wanted i ≡ some e
        → incomplete e ≡ false
        → (p : PublicEvidence) × Has p (notice ∷ []) × Chosen (harvest ∷ shown ∷ []) e p)
unfolding program
chosen_evidence-Chosen_example =
    chosen_evidence-Chosen (harvest ∷ shown ∷ []) wanted (notice ∷ [])
      (omega arith, (omega arith, tt))
      ((omega arith, omega arith), ((omega arith, omega arith), ((omega arith, omega arith), tt)))
      notice_chosen
