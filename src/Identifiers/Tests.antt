-- ===== src/Identifiers/Tests.antt =====
-- Runs of Code/PrivateChain/Server/identifier_utils.cpp, and each theorem at an input.
use hybrid_blockchain_for_re.Prelude.{
  ℕ, suc, ◌<◌, ◌⊎◌, get_elem?, ◌≡◌, ◌≢◌, refl, none, some, List, [], ◌∷◌, Text, codes, text_eq,
  decimal, decimal_value, All, negsuc, arith,
}
use hybrid_blockchain_for_re.Records.{SupplyChainBatch}
use hybrid_blockchain_for_re.Workflow.{four_digits}
use hybrid_blockchain_for_re.Identifiers.{
  trim_front, trim_back, trim_copy, all_digits, is_four_digit_suffix, starts_with, matches_prefix,
  matches_any_prefix, code_loop, product_code, batch_prefix, format_batch_id, batch_sequence,
  normalize_product_code, highest_sequence, next_batch_id_for_product, expected_formats,
  format_error, identifier_format_error,
}
use hybrid_blockchain_for_re.Identifiers.Batches.{
  batch_sequence-format_batch_id, next_batch_id_for_product-fresh,
}

program : Unit {0}
unfolding text_eq decimal decimal_value four_digits trim_front trim_back trim_copy all_digits
    is_four_digit_suffix starts_with matches_prefix matches_any_prefix code_loop product_code
    format_batch_id batch_sequence normalize_product_code highest_sequence next_batch_id_for_product
    expected_formats format_error identifier_format_error
program = tt

abbrev batch : Text → SupplyChainBatch
batch id = record {
  batch_id = id;
  product = codes "Red apples";
  harvest_date = [];
  farm_location = [];
  certificate_id = [];
  created_by_uid = [];
  current_stage = [];
  status = codes "in_progress";
  created_at = [];
  route_id = [];
  route_node_id = [];
  route_step_index = negsuc 0;
}

abbrev batches : List SupplyChainBatch
batches = batch (codes "BATCH-RED-APPLES-0007") ∷ batch (codes "BATCH-PEARS-0100") ∷ []

code_read : product_code (codes "  red -- apples ") ≡ codes "RED-APPLES"
unfolding program
code_read = refl

next_given :
    next_batch_id_for_product batches (codes "red apples") ≡ some (codes "BATCH-RED-APPLES-0008")
unfolding program
next_given = refl

no_code : next_batch_id_for_product batches (codes " - ") ≡ none
unfolding program
no_code = refl

rack_accepted : identifier_format_error (codes "storageZoneRackId") (codes "RACK-0042") ≡ []
unfolding program
rack_accepted = refl

rack_refused :
    identifier_format_error (codes "storageZoneRackId") (codes "RACK-42")
    ≡ codes "storageZoneRackId must use format ZONE-0001 or RACK-0001"
unfolding program
rack_refused = refl

batch_sequence-format_batch_id_example :
    batch_sequence (format_batch_id (codes "A") 42) (batch_prefix (codes "A")) ≡ 42
batch_sequence-format_batch_id_example = batch_sequence-format_batch_id (codes "A") 42 (omega arith)

next_batch_id_for_product-fresh_example :
    All (λ b. b.batch_id ≢ codes "BATCH-RED-APPLES-0008") batches
    × ((code : Text) × (normalize_product_code (codes "red apples") ≡ some code)
        × All
            (λ b.
              batch_sequence b.batch_id (batch_prefix code)
              < batch_sequence (codes "BATCH-RED-APPLES-0008") (batch_prefix code))
            batches
        × ((batch_sequence (codes "BATCH-RED-APPLES-0008") (batch_prefix code) ≡ 1)
            ⊎ ((i : ℕ) × (b : SupplyChainBatch) × (get_elem? batches i ≡ some b)
                × (batch_sequence (codes "BATCH-RED-APPLES-0008") (batch_prefix code)
                    ≡ suc (batch_sequence b.batch_id (batch_prefix code))))))
next_batch_id_for_product-fresh_example =
    next_batch_id_for_product-fresh batches (codes "red apples") (codes "BATCH-RED-APPLES-0008")
      next_given
