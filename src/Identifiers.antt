-- ===== src/Identifiers.antt =====
-- Code/PrivateChain/Server/identifier_utils.cpp: product codes, batch numbers and the formats of
-- identifiers. The character classes are those of the "C" locale.
pub mod Digits
pub mod Batches
pub mod Codes
mod Tests
use hybrid_blockchain_for_re.Prelude.{
  ℕ, zero, suc, ◌+◌, ◌-◌, Bool, true, false, ◌||◌, ◌&&◌, not, Option, none, some, List, [], ◌∷◌,
  ◌++◌, Text, codes, text_eq, is_empty, decimal_value, length, take, drop, ltb, leb, ◌==◌,
  if◌then◌else◌,
}
use hybrid_blockchain_for_re.Records.{SupplyChainBatch}
use hybrid_blockchain_for_re.Workflow.{four_digits}

-- std::isspace, std::isdigit, std::isalnum, std::toupper
abbrev pub is_space : ℕ → Bool
is_space c = c == 32 || (leb 9 c && leb c 13)

abbrev pub is_digit : ℕ → Bool
is_digit c = leb 48 c && leb c 57

abbrev pub is_upper : ℕ → Bool
is_upper c = leb 65 c && leb c 90

abbrev pub is_lower : ℕ → Bool
is_lower c = leb 97 c && leb c 122

abbrev pub is_alnum : ℕ → Bool
is_alnum c = is_digit c || (is_upper c || is_lower c)

abbrev pub to_upper : ℕ → ℕ
to_upper c = if is_lower c then c - 32 else c

-- trim_copy: the spaces in front, and those behind.
unfoldable pub trim_front : Text → Text
trim_front [] = []
trim_front (c ∷ s) = if is_space c then trim_front s else c ∷ s

unfoldable pub trim_back : Text → Text
trim_back [] = []
trim_back (c ∷ s) = let rest = trim_back s in if is_space c && is_empty rest then [] else c ∷ rest

unfoldable pub trim_copy : Text → Text
trim_copy s = trim_back (trim_front s)

unfoldable pub all_digits : Text → Bool
all_digits [] = true
all_digits (c ∷ s) = is_digit c && all_digits s

-- is_four_digit_suffix
unfoldable pub is_four_digit_suffix : Text → ℕ → Bool
is_four_digit_suffix value offset =
    if not (length value == offset + 4) then false else all_digits (drop offset value)

-- value.rfind(prefix, 0) == 0
unfoldable pub starts_with : Text → Text → Bool
starts_with value [] = true
starts_with [] (c ∷ prefix) = false
starts_with (x ∷ value) (c ∷ prefix) = x == c && starts_with value prefix

-- matches_prefix
unfoldable pub matches_prefix : Text → Text → Bool
matches_prefix value prefix = starts_with value prefix && is_four_digit_suffix value (length prefix)

-- matches_any_prefix
unfoldable pub matches_any_prefix : Text → List Text → Bool
matches_any_prefix value [] = false
matches_any_prefix value (p ∷ prefixes) =
    if matches_prefix value p then true else matches_any_prefix value prefixes

abbrev pub dash : ℕ
dash = 45

-- The loop of product_code.
unfoldable pub code_loop : Text → Bool → Text → Text
code_loop code pending [] = code
code_loop code pending (c ∷ s) =
    let opened = if pending && not (is_empty code) then code ++ dash ∷ [] else code in
    let kept = code_loop (opened ++ to_upper c ∷ []) false s in
    let skipped = code_loop code (not (is_empty code)) s in if is_alnum c then kept else skipped

-- product_code
unfoldable pub product_code : Text → Text
product_code product = code_loop [] false (trim_copy product)

abbrev pub batch_prefix : Text → Text
batch_prefix code = codes "BATCH-" ++ (code ++ dash ∷ [])

-- format_batch_id
unfoldable pub format_batch_id : Text → ℕ → Text
format_batch_id code sequence = batch_prefix code ++ four_digits sequence

-- batch_sequence
unfoldable pub batch_sequence : Text → Text → ℕ
batch_sequence batch_id prefix =
    if not (matches_prefix batch_id prefix)
    then 0
    else decimal_value (drop (length prefix) batch_id)

-- normalize_product_code
unfoldable pub normalize_product_code : Text → Option Text
normalize_product_code product =
    let code = product_code product in if is_empty code then none else some code

-- The loop of next_batch_id_for_product.
unfoldable pub highest_sequence : Text → ℕ → List SupplyChainBatch → ℕ
highest_sequence prefix highest [] = highest
highest_sequence prefix highest (b ∷ batches) =
    let n = batch_sequence b.batch_id prefix in
    highest_sequence prefix (if ltb highest n then n else highest) batches

-- next_batch_id_for_product
unfoldable pub next_batch_id_for_product : List SupplyChainBatch → Text → Option Text
next_batch_id_for_product batches product = elim (normalize_product_code product) [
  | none ↦ none
  | some code ↦
      let highest = highest_sequence (batch_prefix code) 0 batches in
      if leb 9999 highest then none else some (format_batch_id code (highest + 1))
]

-- The table of identifier_format_error.
abbrev pub rules : List (Text × List Text)
rules =
    (codes "certificateId", codes "CERT-" ∷ [])
    ∷ (codes "shipmentId", codes "SHIP-" ∷ [])
    ∷ (codes "vehicleContainerId", codes "VEHICLE-" ∷ codes "CONTAINER-" ∷ [])
    ∷ (codes "storageLotId", codes "STORAGE-" ∷ [])
    ∷ (codes "storageZoneRackId", codes "ZONE-" ∷ codes "RACK-" ∷ [])
    ∷ (codes "storeLocationId", codes "STORE-" ∷ [])
    ∷ []

-- The text of the prefixes from the first or a later one on.
unfoldable pub expected_formats : Bool → List Text → Text
expected_formats first [] = []
expected_formats first (p ∷ prefixes) =
    (if first then [] else codes " or ") ++ (p ++ (codes "0001" ++ expected_formats false prefixes))

-- identifier_format_error; the empty text is no error.
unfoldable pub format_error : List (Text × List Text) → Text → Text → Text
format_error [] field_name value = []
format_error ((name, prefixes) ∷ more) field_name value =
    let later = format_error more field_name value in
    if not (text_eq name field_name)
    then later
    else if matches_any_prefix value prefixes
    then []
    else field_name ++ (codes " must use format " ++ expected_formats true prefixes)

unfoldable pub identifier_format_error : Text → Text → Text
identifier_format_error field_name value = format_error rules field_name value
