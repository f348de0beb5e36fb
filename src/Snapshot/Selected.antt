-- ===== src/Snapshot/Selected.antt =====
-- Code/Snapshot/src/snapshot.cpp: the loop of build_preview over the selected evidence.
use hybrid_blockchain_for_re.Prelude.{
  ℕ, zero, suc, ◌≡◌, refl, sym, ap, subst, ◌∙◌, Bool, true, false, ◌||◌, ◌⊎◌, inl, inr, Option,
  none, some, some_injective, List, [], ◌∷◌, Text, text_eq, text_eq→eq, get_elem?, member,
  Bool-cases, if◌then◌else◌,
}
use hybrid_blockchain_for_re.Snapshot.{EvidenceInput, lookup}
use hybrid_blockchain_for_re.Snapshot.Evidence.{
  PublicEvidence, selection_key, incomplete, push_evidence, select_evidence,
}
use hybrid_blockchain_for_re.Snapshot.Offers.{Has, Map}

not_skipped :
    {A : Type 0} (a c : Bool) (x y : A) {z : A}
    → a ≡ false
    → c ≡ false
    → (if a || c then x else y) ≡ z
    → y ≡ z
not_skipped a c x y no_a no_c h = rw (no_a, no_c) at h

push_evidence-some :
    (o : Option PublicEvidence) (rest : Option (List PublicEvidence)) (ps : List PublicEvidence)
    → push_evidence o rest ≡ some ps
    → (p : PublicEvidence) × (more : List PublicEvidence) × (o ≡ some p)
      × (rest ≡ some more)
      × (p ∷ more ≡ ps)
push_evidence-some none rest ps h = absurd (let no = h in cc no)
push_evidence-some (some p) none ps h = absurd (let no = h in cc no)
push_evidence-some (some p) (some more) ps h = (p, more, refl, refl, some_injective (p ∷ more) ps h)

-- What is published comes from the map, for a selection.
pub select_sound :
    (m : Map) (seen : List Text) (selected : List EvidenceInput) (ps : List PublicEvidence)
    → select_evidence m seen selected ≡ some ps
    → (p : PublicEvidence) → Has p ps
    → (i : ℕ) × (e : EvidenceInput) × (get_elem? selected i ≡ some e)
      × (lookup m (selection_key e) ≡ some p)
unfolding select_evidence
select_sound m seen [] ps h p has = absurd (subst (Has p) (sym (some_injective [] ps h)) has)
select_sound m seen (e ∷ selected) ps h p has =
    elim (Bool-cases (incomplete e || member (selection_key e) seen)) [
      | inl skip ↦
          let (i, x, at, found) = select_sound m seen selected ps (rw skip at h) p has in
          (suc i, x, at, found)
      | inr new ↦
          let (q, more, found, rest, whole) =
            push_evidence-some (lookup m (selection_key e))
              (select_evidence m (selection_key e ∷ seen) selected) ps (rw new at h) in
          let has_q : Has p (q ∷ more) = subst (Has p) (sym whole) has in
          elim has_q [
            | inl same ↦ (0, e, refl, found ∙ ap some same)
            | inr later ↦
                let (i, x, at, found_x) =
                  select_sound m (selection_key e ∷ seen) selected more rest p later in
                (suc i, x, at, found_x)
          ]
    ]

-- A selection has been seen, or what the map has for it is published.
abbrev Served : Map → List Text → List PublicEvidence → EvidenceInput → Type 0
Served m seen ps e =
    (member (selection_key e) seen ≡ true)
    ⊎ ((p : PublicEvidence) × (lookup m (selection_key e) ≡ some p) × Has p ps)

-- After an entry is published, those that were served are still.
Served-push :
    (m : Map) (seen : List Text) (k : Text) (q : PublicEvidence) (more ps : List PublicEvidence)
    (e : EvidenceInput)
    → lookup m k ≡ some q
    → q ∷ more ≡ ps
    → Served m (k ∷ seen) more e
    → Served m seen ps e
unfolding member
Served-push m seen k q more ps e found whole (inr (p, at, has)) =
    inr (p, at, subst (Has p) whole (inr has))
Served-push m seen k q more ps e found whole (inl old) =
    elim (Bool-cases (text_eq k (selection_key e))) [
      | inl hit ↦
          let same = text_eq→eq k (selection_key e) hit in
          inr (q, subst (λ t. lookup m t ≡ some q) same found, subst (Has q) whole (inl refl))
      | inr miss ↦ inl (rw miss at old)
    ]

-- Every selection that is complete and not yet seen is published.
pub select-Served :
    (m : Map) (seen : List Text) (selected : List EvidenceInput) (ps : List PublicEvidence) (i : ℕ)
    (e : EvidenceInput)
    → select_evidence m seen selected ≡ some ps
    → get_elem? selected i ≡ some e
    → incomplete e ≡ false
    → Served m seen ps e
unfolding select_evidence
select-Served m seen [] ps i e h at full = absurd (let no = at in cc no)
select-Served m seen (x ∷ selected) ps zero e h at full =
    let same = some_injective x e at in
    let whole_x : incomplete x ≡ false = subst (λ y. incomplete y ≡ false) (sym same) full in
    subst (Served m seen ps) same (elim (Bool-cases (member (selection_key x) seen)) [
      | inl old ↦ inl old
      | inr new ↦
          let (q, more, found, _, whole) =
            push_evidence-some (lookup m (selection_key x))
              (select_evidence m (selection_key x ∷ seen) selected) ps
              (not_skipped (incomplete x) (member (selection_key x) seen)
                (select_evidence m seen selected)
                (push_evidence (lookup m (selection_key x))
                  (select_evidence m (selection_key x ∷ seen) selected))
                whole_x new h) in
          inr (q, found, subst (Has q) whole (inl refl))
    ])
select-Served m seen (x ∷ selected) ps (suc i) e h at full =
    elim (Bool-cases (incomplete x || member (selection_key x) seen)) [
      | inl skip ↦ select-Served m seen selected ps i e (rw skip at h) at full
      | inr new ↦
          let (q, more, found, rest, whole) =
            push_evidence-some (lookup m (selection_key x))
              (select_evidence m (selection_key x ∷ seen) selected) ps (rw new at h) in
          Served-push m seen (selection_key x) q more ps e found whole
            (select-Served m (selection_key x ∷ seen) selected more i e rest at full)
    ]
