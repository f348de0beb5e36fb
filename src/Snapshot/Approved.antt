-- ===== src/Snapshot/Approved.antt =====
-- Code/Snapshot/src/snapshot.cpp: the evidence that build_preview makes public is approved, and it is
-- what was selected.
use hybrid_blockchain_for_re.Prelude.{
  Text, is_empty, All, All-at, ◌≢◌, split_injective, text_eq, text_eq→eq, arith, ℕ, ◌≡◌, sym, subst,
  false, ◌⊎◌, inl, inr, some, some_injective, List, [], ◌∷◌, get_elem?, member, Bool-cases,
  >>=-some,
}
use hybrid_blockchain_for_re.Snapshot.{trim, EvidenceInput, StageInput, lookup}
use hybrid_blockchain_for_re.Snapshot.Evidence.{
  EvidencePolicy, find_evidence_policy, find_policy, public_evidence_policy, public_of,
  PublicEvidence, available_evidence, selection_key, incomplete, select_evidence, evidence_before,
  insert_evidence, sort_evidence, chosen_evidence,
}
use hybrid_blockchain_for_re.Snapshot.Offers.{Approved, Has, available-Approved}
use hybrid_blockchain_for_re.Snapshot.Selected.{select_sound, select-Served}

-- The sort keeps the evidence.
insert-Has :
    (p q : PublicEvidence) (qs : List PublicEvidence)
    → (Has p (insert_evidence q qs) → (q ≡ p) ⊎ Has p qs)
      × ((q ≡ p) ⊎ Has p qs → Has p (insert_evidence q qs))
unfolding insert_evidence
insert-Has p q [] = (λ h. h, λ h. h)
insert-Has p q (r ∷ qs) = elim (Bool-cases (evidence_before r q)) [
  | inl before ↦
      let (from, into) = insert-Has p q qs in
      rw before (
        λ h. elim h [
          | inl here ↦ inr (inl here)
          | inr there ↦ elim (from there) [ inl new ↦ inl new | inr old ↦ inr (inr old) ]
        ],
        λ h. elim h [
          | inl new ↦ inr (into (inl new))
          | inr old ↦ elim old [ inl here ↦ inl here | inr there ↦ inr (into (inr there)) ]
        ],
      )
  | inr after ↦ rw after (λ h. h, λ h. h)
]

sort-Has :
    (p : PublicEvidence) (ps : List PublicEvidence)
    → (Has p (sort_evidence ps) → Has p ps) × (Has p ps → Has p (sort_evidence ps))
unfolding sort_evidence
sort-Has p [] = (λ h. h, λ h. h)
sort-Has p (q ∷ ps) =
    let (from, into) = insert-Has p q (sort_evidence ps) in
    let (back, forth) = sort-Has p ps in
    (
      λ h. elim (from h) [ inl here ↦ inl here | inr there ↦ inr (back there) ],
      λ h. elim h [ inl here ↦ into (inl here) | inr there ↦ into (inr (forth there)) ],
    )

-- A part of a key, which the separator does not occur in.
abbrev pub IsPart : Text → Type 0
IsPart t = All (λ x. x ≢ 31) t

-- The evidence that a selection asks for: that of a stage with its stage name, category and CID, not
-- empty, in a category of the policy, whose type it gets.
abbrev pub Chosen : List StageInput → EvidenceInput → PublicEvidence → Type 0
Chosen stages e p =
    (i : ℕ) × (s : StageInput) × (j : ℕ) × (x : EvidenceInput) × (q : EvidencePolicy) × (get_elem?
        stages i
      ≡ some s)
    × (get_elem? s.evidence j ≡ some x)
    × (find_evidence_policy x.category ≡ some q)
    × (is_empty x.cid ≡ false)
    × (s.stage ≡ trim e.stage)
    × (x.category ≡ trim e.category)
    × (x.cid ≡ trim e.cid)
    × (public_of s q x ≡ p)

find_policy-IsPart :
    (policies : List EvidencePolicy) (category : Text) (q : EvidencePolicy)
    → All (λ r. IsPart r.category) policies
    → find_policy policies category ≡ some q
    → IsPart category
unfolding find_policy
find_policy-IsPart [] category q h e = absurd (let no = e in cc no)
find_policy-IsPart (r ∷ policies) category q h e = elim (Bool-cases (text_eq r.category category)) [
  | inl hit ↦ subst IsPart (text_eq→eq r.category category hit) h.0
  | inr miss ↦ find_policy-IsPart policies category q h.1 (rw miss at e)
]

policies-IsPart : All (λ r. IsPart r.category) public_evidence_policy
policies-IsPart = (omega arith, (omega arith, (omega arith, (omega arith, (omega arith, tt)))))

-- What is offered under the key of a selection is what the selection asks for.
Approved-Chosen :
    (stages : List StageInput) (e : EvidenceInput) (p : PublicEvidence)
    → All (λ s. IsPart s.stage) stages
    → IsPart (trim e.stage)
    → IsPart (trim e.category)
    → Approved stages (selection_key e) p
    → Chosen stages e p
Approved-Chosen stages e p parts stage category
      (i, s, at, (j, x, q, at_j, found, full, key, same)) =
    let (stages_eq, rest) =
      split_injective 31 s.stage (trim e.stage) _ _
        (All-at (λ (s : StageInput). IsPart s.stage) stages i s parts at) stage key in
    let (categories_eq, cids_eq) =
      split_injective 31 x.category (trim e.category) x.cid (trim e.cid)
        (find_policy-IsPart public_evidence_policy x.category q policies-IsPart found) category
        rest in
    (i, s, j, x, q, at, at_j, found, full, stages_eq, categories_eq, cids_eq, same)

-- Where the selection is not refused, and the separator of keys, 0x1f, is in no name of a stage and
-- in no stage or category of the selection: all evidence that becomes public is what one of the
-- selections asks for (a stage of that name holds it, in that category, which the policy has, with
-- that CID; it is published under the policy's type), and for every selection without an empty part
-- such evidence becomes public.
pub chosen_evidence-Chosen :
    (stages : List StageInput) (selected : List EvidenceInput) (published : List PublicEvidence)
    → All (λ s. IsPart s.stage) stages
    → All (λ e. IsPart (trim e.stage) × IsPart (trim e.category)) selected
    → chosen_evidence stages selected ≡ some published
    → ((p : PublicEvidence)
        → Has p published
        → (i : ℕ) × (e : EvidenceInput) × (get_elem? selected i ≡ some e) × Chosen stages e p)
      × ((i : ℕ) (e : EvidenceInput)
          → get_elem? selected i ≡ some e
          → incomplete e ≡ false
          → (p : PublicEvidence) × Has p published × Chosen stages e p)
unfolding chosen_evidence member
chosen_evidence-Chosen stages selected published parts selected_parts h =
    let m = available_evidence stages [] in
    let (ps, chosen, sorted) =
      >>=-some (select_evidence m [] selected) (λ ps. some (sort_evidence ps)) h in
    let whole = some_injective (sort_evidence ps) published sorted in
    let asked : (i : ℕ) (e : EvidenceInput) (p : PublicEvidence)
        → get_elem? selected i ≡ some e
        → lookup m (selection_key e) ≡ some p
        → Chosen stages e p =
      λ i e p at found.
        let parts_at =
          All-at (λ (e : EvidenceInput). IsPart (trim e.stage) × IsPart (trim e.category)) selected
            i e selected_parts at in
        Approved-Chosen stages e p parts parts_at.0 parts_at.1
          (available-Approved stages (selection_key e) p found) in
    (
      λ p has.
          let (i, e, at, found) =
            select_sound m [] selected ps chosen p
              ((sort-Has p ps).0 (subst (Has p) (sym whole) has)) in
          (i, e, at, asked i e p at found),
      λ i e at full. elim (select-Served m [] selected ps i e chosen at full) [
        | inl old ↦ absurd (let no = old in cc no)
        | inr (p, found, has) ↦
            (p, subst (Has p) whole ((sort-Has p ps).1 has), asked i e p at found)
      ],
    )
