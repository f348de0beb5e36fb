-- ===== src/Snapshot/Offers.antt =====
-- Code/Snapshot/src/snapshot.cpp: the map of the evidence that build_preview may make public.
use hybrid_blockchain_for_re.Prelude.{
  text_eq→eq, ℕ, suc, ◌≡◌, refl, subst, false, ◌⊎◌, inl, inr, Option, none, some, some_injective,
  List, [], ◌∷◌, Text, text_eq, is_empty, get_elem?, Bool-cases,
}
use hybrid_blockchain_for_re.Snapshot.{EvidenceInput, StageInput, lookup}
use hybrid_blockchain_for_re.Snapshot.Route.{has_key}
use hybrid_blockchain_for_re.Snapshot.Evidence.{
  PublicEvidence, EvidencePolicy, find_evidence_policy, evidence_key, emplace, public_of, offer,
  offer_stage, available_evidence,
}

-- What a stage has to offer under a key: evidence with a CID, in a category that a policy has, under
-- the type of that policy.
abbrev pub Offered : StageInput → Text → PublicEvidence → Type 0
Offered s k p =
    (j : ℕ) × (e : EvidenceInput) × (q : EvidencePolicy) × (get_elem? s.evidence j ≡ some e)
    × (find_evidence_policy e.category ≡ some q)
    × (is_empty e.cid ≡ false)
    × (evidence_key s.stage e.category e.cid ≡ k)
    × (public_of s q e ≡ p)

abbrev pub Approved : List StageInput → Text → PublicEvidence → Type 0
Approved stages k p = (i : ℕ) × (s : StageInput) × (get_elem? stages i ≡ some s) × Offered s k p

-- A piece of evidence is in the list.
abbrev pub Has : PublicEvidence → List PublicEvidence → Type 0
Has p [] = ⊥
Has p (q ∷ qs) = (q ≡ p) ⊎ Has p qs

abbrev pub Map : Type 0
Map = List (Text × PublicEvidence)

-- Every entry of the map has the property.
abbrev Holds : (Text → PublicEvidence → Type 0) → Map → Type 0
Holds P m = (k : Text) (p : PublicEvidence) → lookup m k ≡ some p → P k p

emplace-Holds :
    (P : Text → PublicEvidence → Type 0) (k : Text) (v : PublicEvidence) (m : Map)
    → P k v
    → Holds P m
    → Holds P (emplace k v m)
unfolding lookup
emplace-Holds P k v m pv h j p at = elim (Bool-cases (has_key (lookup m k))) [
  | inl old ↦ h j p (rw old at at)
  | inr new ↦
      let inside = rw new at at in
      elim (Bool-cases (text_eq k j)) [
        | inl hit ↦
            subst (λ i. P i p) (text_eq→eq k j hit)
              (subst (P k) (some_injective v p (rw hit at inside)) pv)
        | inr miss ↦ h j p (rw miss at inside)
      ]
]

offer-Holds :
    (P : Text → PublicEvidence → Type 0) (s : StageInput) (e : EvidenceInput)
    (o : Option EvidencePolicy) (m : Map)
    → ((q : EvidencePolicy)
        → o ≡ some q
        → is_empty e.cid ≡ false
        → P (evidence_key s.stage e.category e.cid) (public_of s q e))
    → Holds P m
    → Holds P (offer s e o m)
offer-Holds P s e none m new h = h
offer-Holds P s e (some q) m new h = elim (Bool-cases (is_empty e.cid)) [
  | inl empty ↦ rw empty h
  | inr full ↦ rw full (
      emplace-Holds P (evidence_key s.stage e.category e.cid) (public_of s q e) m (new q refl full)
        h)
]

offer_stage-Holds :
    (P : Text → PublicEvidence → Type 0) (s : StageInput) (evidence : List EvidenceInput) (m : Map)
    → ((j : ℕ) (e : EvidenceInput) (q : EvidencePolicy)
        → get_elem? evidence j ≡ some e
        → find_evidence_policy e.category ≡ some q
        → is_empty e.cid ≡ false
        → P (evidence_key s.stage e.category e.cid) (public_of s q e))
    → Holds P m
    → Holds P (offer_stage s evidence m)
unfolding offer_stage
offer_stage-Holds P s [] m new h = h
offer_stage-Holds P s (e ∷ evidence) m new h =
    offer_stage-Holds P s evidence (offer s e (find_evidence_policy e.category) m)
      (λ j x q at. new (suc j) x q at)
      (offer-Holds P s e (find_evidence_policy e.category) m (λ q at full. new 0 e q refl at full)
        h)

available-Holds :
    (P : Text → PublicEvidence → Type 0) (stages : List StageInput) (m : Map)
    → ((i : ℕ) (s : StageInput) (k : Text) (p : PublicEvidence)
        → get_elem? stages i ≡ some s
        → Offered s k p
        → P k p)
    → Holds P m
    → Holds P (available_evidence stages m)
unfolding available_evidence
available-Holds P [] m new h = h
available-Holds P (s ∷ stages) m new h =
    available-Holds P stages (offer_stage s s.evidence m) (λ i t k p at. new (suc i) t k p at)
      (offer_stage-Holds P s s.evidence m
        (λ j e q at found full.
          new 0 s (evidence_key s.stage e.category e.cid) (public_of s q e) refl
            (j, e, q, at, found, full, refl, refl))
        h)

-- The map offers nothing but evidence that is approved.
pub available-Approved :
    (stages : List StageInput) → Holds (Approved stages) (available_evidence stages [])
unfolding lookup
available-Approved stages =
    available-Holds (Approved stages) stages [] (λ i s k p at o. (i, s, at, o))
      (λ k p at. absurd (let no = at in cc no))
