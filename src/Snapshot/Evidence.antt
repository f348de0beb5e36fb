-- ===== src/Snapshot/Evidence.antt =====
-- Code/Snapshot: the policy of public evidence (src/snapshot_policy.cpp) and how build_preview
-- (src/snapshot.cpp) chooses the evidence that a snapshot makes public. `none` is the refusal of a
-- selected CID.
use hybrid_blockchain_for_re.Prelude.{
  Bool, true, false, ◌||◌, not, Option, none, some, List, [], ◌∷◌, ◌++◌, Text, codes, text_eq,
  is_empty, if◌then◌else◌, member, ◌>>=◌,
}
use hybrid_blockchain_for_re.Snapshot.{EvidenceInput, StageInput, lookup, trim}
use hybrid_blockchain_for_re.Snapshot.Route.{has_key}
use hybrid_blockchain_for_re.Snapshot.Eligibility.{text_lt}

pub record PublicEvidence : Type 0 where
  pub stage : Text
  pub type : Text
  pub cid : Text

pub record EvidencePolicy : Type 0 where
  pub category : Text
  pub public_type : Text
  pub label : Text
  pub selected_by_default : Bool

abbrev policy : Text → Text → Text → Bool → EvidencePolicy
policy category public_type label by_default = record {
  category = category;
  public_type = public_type;
  label = label;
  selected_by_default = by_default;
}

abbrev pub public_evidence_policy : List EvidencePolicy
public_evidence_policy =
    policy (codes "harvestPhotos") (codes "harvest_photo") (codes "Harvest photos") true
    ∷ policy (codes "inspectionReports") (codes "inspection_report") (codes "Inspection reports")
        false
    ∷ policy (codes "sealVerificationImages") (codes "seal_verification_image")
        (codes "Seal verification images") false
    ∷ policy (codes "productPhotosLabels") (codes "product_photo_or_label")
        (codes "Product photos and labels") true
    ∷ policy (codes "recallNotices") (codes "recall_notice") (codes "Recall notices") true
    ∷ []

-- The loop of find_evidence_policy.
unfoldable pub find_policy : List EvidencePolicy → Text → Option EvidencePolicy
find_policy [] category = none
find_policy (q ∷ policies) category =
    if text_eq q.category category then some q else find_policy policies category

abbrev pub find_evidence_policy : Text → Option EvidencePolicy
find_evidence_policy category = find_policy public_evidence_policy category

-- The parts with '\x1f' between them.
abbrev pub evidence_key : Text → Text → Text → Text
evidence_key stage category cid = stage ++ 31 ∷ (category ++ 31 ∷ cid)

-- std::map::emplace, which leaves an entry that is there.
abbrev pub emplace :
    Text → PublicEvidence → List (Text × PublicEvidence) → List (Text × PublicEvidence)
emplace k v m = if has_key (lookup m k) then m else (k, v) ∷ m

abbrev pub public_of : StageInput → EvidencePolicy → EvidenceInput → PublicEvidence
public_of s q e = record { stage = s.stage; type = q.public_type; cid = e.cid }

-- The entry for a piece of evidence, where a policy has its category and its CID is not empty.
abbrev pub offer :
    StageInput
    → EvidenceInput
    → Option EvidencePolicy
    → List (Text × PublicEvidence)
    → List (Text × PublicEvidence)
offer s e none m = m
offer s e (some q) m =
    if not (is_empty e.cid)
    then emplace (evidence_key s.stage e.category e.cid) (public_of s q e) m
    else m

-- The loop over the evidence of a stage.
unfoldable pub offer_stage :
    StageInput → List EvidenceInput → List (Text × PublicEvidence) → List (Text × PublicEvidence)
offer_stage s [] m = m
offer_stage s (e ∷ evidence) m =
    offer_stage s evidence (offer s e (find_evidence_policy e.category) m)

-- The loop over the stages.
unfoldable pub available_evidence :
    List StageInput → List (Text × PublicEvidence) → List (Text × PublicEvidence)
available_evidence [] m = m
available_evidence (s ∷ stages) m = available_evidence stages (offer_stage s s.evidence m)

abbrev pub selection_key : EvidenceInput → Text
selection_key e = evidence_key (trim e.stage) (trim e.category) (trim e.cid)

-- A part of the selection is empty.
abbrev pub incomplete : EvidenceInput → Bool
incomplete e = is_empty (trim e.stage) || (is_empty (trim e.category) || is_empty (trim e.cid))

abbrev pub push_evidence :
    Option PublicEvidence → Option (List PublicEvidence) → Option (List PublicEvidence)
push_evidence none rest = none
push_evidence (some p) none = none
push_evidence (some p) (some ps) = some (p ∷ ps)

-- The loop over the selection; `seen` is unique_selected.
unfoldable pub select_evidence :
    List (Text × PublicEvidence) → List Text → List EvidenceInput → Option (List PublicEvidence)
select_evidence m seen [] = some []
select_evidence m seen (e ∷ selected) =
    let skipped = select_evidence m seen selected in
    let rest = select_evidence m (selection_key e ∷ seen) selected in
    if incomplete e || member (selection_key e) seen
    then skipped
    else push_evidence (lookup m (selection_key e)) rest

-- The comparison of the sort.
abbrev pub evidence_before : PublicEvidence → PublicEvidence → Bool
evidence_before p q =
    if not (text_eq p.stage q.stage)
    then text_lt p.stage q.stage
    else if not (text_eq p.type q.type)
    then text_lt p.type q.type
    else text_lt p.cid q.cid

unfoldable pub insert_evidence : PublicEvidence → List PublicEvidence → List PublicEvidence
insert_evidence p [] = p ∷ []
insert_evidence p (q ∷ qs) =
    let rest = insert_evidence p qs in if evidence_before q p then q ∷ rest else p ∷ q ∷ qs

-- std::sort by evidence_before.
unfoldable pub sort_evidence : List PublicEvidence → List PublicEvidence
sort_evidence [] = []
sort_evidence (p ∷ ps) = insert_evidence p (sort_evidence ps)

-- The evidence of the preview for a selection.
unfoldable pub chosen_evidence : List StageInput → List EvidenceInput → Option (List PublicEvidence)
chosen_evidence stages selected =
    select_evidence (available_evidence stages []) [] selected >>= λ ps. some (sort_evidence ps)
