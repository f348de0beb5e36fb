-- ===== src/Workflow/Latest.antt =====
-- The loop for latest_record of `evaluate_workflow_progress` (Code/PrivateChain/Server/server.cpp): it
-- finds the block of the largest number.
use hybrid_blockchain_for_re.Prelude.{
  ◌≡◌, refl, sym, subst, true, false, Option, none, some, List, [], ◌∷◌, ℤ, ltb_ℤ, arith,
  Bool-cases, inl, inr, ◌⊎◌, All, if◌then◌else◌,
}
use hybrid_blockchain_for_re.Records.{SupplyChainRecord}
use hybrid_blockchain_for_re.Workflow.Progress.{latest_record, is_newer}

-- At most as large a block number.
abbrev pub UpTo : SupplyChainRecord → SupplyChainRecord → Type 0
UpTo l r = ltb_ℤ l.block_id r.block_id ≡ false

abbrev AtMost : SupplyChainRecord → Option SupplyChainRecord → Type 0
AtMost l none = Unit {0}
AtMost l (some b) = UpTo l b

not_less_itself : (a : ℤ) → ltb_ℤ a a ≡ false
not_less_itself a = ground arith

not_less_than_less : (a b c : ℤ) → ltb_ℤ a c ≡ false → ltb_ℤ b c ≡ true → ltb_ℤ a b ≡ false
not_less_than_less a b c h k = ground (arith, h, k)

not_less_trans : (a b c : ℤ) → ltb_ℤ a b ≡ false → ltb_ℤ b c ≡ false → ltb_ℤ a c ≡ false
not_less_trans a b c h k = ground (arith, h, k)

-- The record that the loop for latest_record ends with has the largest number.
pub latest_record-max :
    (best : Option SupplyChainRecord) (m : List (ℤ × SupplyChainRecord)) (l : SupplyChainRecord)
    → latest_record best m ≡ some l
    → AtMost l best × All (λ e. UpTo l e.1) m
unfolding latest_record
latest_record-max none [] l e = absurd (let no = e in cc no)
latest_record-max (some b) [] l e =
    let same : b ≡ l = ground (arith, e) in
    (subst (λ x. UpTo l x) (sym same) (not_less_itself l.block_id), tt)
latest_record-max none ((k, r) ∷ m) l e =
    let (here, rest) = latest_record-max (some r) m l e in (tt, (here, rest))
latest_record-max (some b) ((k, r) ∷ m) l e = elim (Bool-cases (ltb_ℤ b.block_id r.block_id)) [
  | inl newer ↦
      let (here, rest) = latest_record-max (some r) m l (rw newer at e) in
      (not_less_than_less l.block_id b.block_id r.block_id here newer, (here, rest))
  | inr older ↦
      let (here, rest) = latest_record-max (some b) m l (rw older at e) in
      (here, (not_less_trans l.block_id b.block_id r.block_id here older, rest))
]

pub latest_record-none :
    (best : Option SupplyChainRecord) (m : List (ℤ × SupplyChainRecord))
    → latest_record best m ≡ none
    → (best ≡ none) × (m ≡ [])
unfolding latest_record
latest_record-none best [] e = (e, refl)
latest_record-none none ((k, r) ∷ m) e =
    let (one, rest) = latest_record-none (some r) m e in absurd (cc one)
latest_record-none (some b) ((k, r) ∷ m) e =
    let (one, rest) =
      latest_record-none (if ltb_ℤ b.block_id r.block_id then some r else some b) m e in
    absurd (ground (arith, one))

pub latest_record-All :
    (P : SupplyChainRecord → Type 0) (best : Option SupplyChainRecord)
    (m : List (ℤ × SupplyChainRecord)) (l : SupplyChainRecord)
    → latest_record best m ≡ some l
    → All (λ e. P e.1) m
    → (best ≡ some l) ⊎ P l
unfolding latest_record
latest_record-All P best [] l e h = inl e
latest_record-All P best ((k, r) ∷ m) l e h = elim (Bool-cases (is_newer r best)) [
  | inl newer ↦ elim (latest_record-All P (some r) m l (rw newer at e) h.1) [
    | inl here ↦ let same : r ≡ l = ground (arith, here) in inr (subst P same h.0)
    | inr there ↦ inr there
  ]
  | inr older ↦ latest_record-All P best m l (rw older at e) h.1
]
