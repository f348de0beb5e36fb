-- ===== src/Identifiers/Batches.antt =====
-- The batch numbers of Code/PrivateChain/Server/identifier_utils.cpp: they are read back, and a new
-- one is not in use.
use hybrid_blockchain_for_re.Prelude.{
  ℕ, ◌+◌, ◌≤◌, ◌<◌, ◌≡◌, refl, ap, sym, subst, ◌∙◌, ◌≢◌, some, List, [], ◌∷◌, Text, All, length,
  drop-append_length, arith, ltb, if◌then◌else◌, Option-cases, Bool-cases, inl, inr, ◌⊎◌, suc,
  get_elem?,
}
use hybrid_blockchain_for_re.Records.{SupplyChainBatch}
use hybrid_blockchain_for_re.Workflow.{four_digits}
use hybrid_blockchain_for_re.Identifiers.{
  batch_prefix, format_batch_id, batch_sequence, normalize_product_code, highest_sequence,
  next_batch_id_for_product,
}
use hybrid_blockchain_for_re.Identifiers.Digits.{
  decimal_value-four_digits, matches_prefix-four_digits,
}

-- The number of a batch id below ten thousand is read back from the id.
pub batch_sequence-format_batch_id :
    (code : Text) (n : ℕ)
    → n < 10000
    → batch_sequence (format_batch_id code n) (batch_prefix code) ≡ n
unfolding batch_sequence format_batch_id
batch_sequence-format_batch_id code n h =
    rw
      (
        matches_prefix-four_digits (batch_prefix code) n h,
        drop-append_length (length (batch_prefix code)) (batch_prefix code) (four_digits n) refl,
      )
      (decimal_value-four_digits n)

-- The loop's result is at least what it starts from and every number that it meets.
highest_sequence-bounds :
    (prefix : Text) (highest : ℕ) (batches : List SupplyChainBatch)
    → (highest ≤ highest_sequence prefix highest batches)
      × All
          (λ b. batch_sequence b.batch_id prefix ≤ highest_sequence prefix highest batches)
          batches
unfolding highest_sequence
highest_sequence-bounds prefix highest [] = (omega arith, tt)
highest_sequence-bounds prefix highest (b ∷ batches) =
    let n = batch_sequence b.batch_id prefix in
    let (above, all) =
      highest_sequence-bounds prefix (if ltb highest n then n else highest) batches in
    (ground (arith, above), (ground (arith, above), all))

-- The loop's result is what it starts from or a number that it meets.
highest_sequence-attained :
    (prefix : Text) (highest : ℕ) (batches : List SupplyChainBatch)
    → (highest_sequence prefix highest batches ≡ highest)
      ⊎ ((i : ℕ) × (b : SupplyChainBatch) × (get_elem? batches i ≡ some b)
          × (highest_sequence prefix highest batches ≡ batch_sequence b.batch_id prefix))
unfolding highest_sequence
highest_sequence-attained prefix highest [] = inl refl
highest_sequence-attained prefix highest (b ∷ batches) =
    let n = batch_sequence b.batch_id prefix in
    let best : ℕ = if ltb highest n then n else highest in
    elim (highest_sequence-attained prefix best batches) [
      | inr (i, c, at, same) ↦ inr (suc i, c, at, same)
      | inl kept ↦ elim (Bool-cases (ltb highest n)) [
        | inl more ↦ inr (0, b, refl, kept ∙ ground (arith, more))
        | inr less ↦ inl (kept ∙ ground (arith, less))
      ]
    ]

fresh :
    (code : Text) (h : ℕ) (batches : List SupplyChainBatch)
    → h + 1 < 10000
    → All (λ b. batch_sequence b.batch_id (batch_prefix code) ≤ h) batches
    → All (λ b. b.batch_id ≢ format_batch_id code (h + 1)) batches
fresh code h [] small all = tt
fresh code h (b ∷ batches) small all = (
  λ same. omega (
    arith,
    all.0,
    ap (λ id. batch_sequence id (batch_prefix code)) same,
    batch_sequence-format_batch_id code (h + 1) small,
  ),
  fresh code h batches small all.1,
)

All-below :
    (prefix : Text) (h n : ℕ) (batches : List SupplyChainBatch)
    → h < n
    → All (λ b. batch_sequence b.batch_id prefix ≤ h) batches
    → All (λ b. batch_sequence b.batch_id prefix < n) batches
All-below prefix h n [] less all = tt
All-below prefix h n (b ∷ batches) less all =
    (omega (arith, less, all.0), All-below prefix h n batches less all.1)

-- A batch id that next_batch_id_for_product gives is no batch's; its number is above the number of
-- every batch of the product's code (zero for an id that is not one of that code), and it is one or
-- comes right after the number of one of the batches.
pub next_batch_id_for_product-fresh :
    (batches : List SupplyChainBatch) (product id : Text)
    → next_batch_id_for_product batches product ≡ some id
    → All (λ b. b.batch_id ≢ id) batches
      × ((code : Text) × (normalize_product_code product ≡ some code)
          × All
              (λ b.
                batch_sequence b.batch_id (batch_prefix code)
                < batch_sequence id (batch_prefix code))
              batches
          × ((batch_sequence id (batch_prefix code) ≡ 1)
              ⊎ ((i : ℕ) × (b : SupplyChainBatch) × (get_elem? batches i ≡ some b)
                  × (batch_sequence id (batch_prefix code)
                      ≡ suc (batch_sequence b.batch_id (batch_prefix code))))))
unfolding next_batch_id_for_product
next_batch_id_for_product-fresh batches product id e =
    elim (Option-cases (normalize_product_code product)) [
      | inl missing ↦ absurd (let no = rw (missing, next_batch_id_for_product) at e in cc no)
      | inr (code, found) ↦
          let e1 = rw (found, next_batch_id_for_product) at e in
          let highest = highest_sequence (batch_prefix code) 0 batches in
          let small : highest + 1 < 10000 = ground (arith, e1) in
          let same : format_batch_id code (highest + 1) ≡ id = ground (arith, e1) in
          let number : batch_sequence id (batch_prefix code) ≡ highest + 1 =
            ap (λ x. batch_sequence x (batch_prefix code)) (sym same)
            ∙ batch_sequence-format_batch_id code (highest + 1) small in
          let (_, all) = highest_sequence-bounds (batch_prefix code) 0 batches in
          (
            subst (λ x. All (λ b. b.batch_id ≢ x) batches) same
                (fresh code highest batches small all),
            (
              code,
              found,
              All-below (batch_prefix code) highest (batch_sequence id (batch_prefix code)) batches
                  (omega (arith, number)) all,
              elim (highest_sequence-attained (batch_prefix code) 0 batches) [
                | inl nothing ↦ inl (omega (arith, number, nothing))
                | inr (i, b, at, attained) ↦ inr (i, b, at, omega (arith, number, attained))
              ],
            ),
          )
    ]
