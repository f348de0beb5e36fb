-- ===== src/Snapshot/Errors.antt =====
-- Lists of error messages that are empty: what that says of the tests of `evaluate_eligibility`
-- (Code/Snapshot/src/snapshot.cpp).
use hybrid_blockchain_for_re.Prelude.{
  some_injective, ℕ, zero, suc, ◌+◌, ◌≡◌, refl, sym, subst, Bool, true, false, not, some, List, [],
  ◌∷◌, ◌++◌, Text, is_empty, length, get_elem?, if◌then◌else◌, ◌==◌, arith, All, decimal, codes,
  ==_iff,
}
use hybrid_blockchain_for_re.Snapshot.{RouteNodeInput, StageInput, BatchInput, event_value}
use hybrid_blockchain_for_re.Snapshot.Route.{route_is_complete_linear}
use hybrid_blockchain_for_re.Snapshot.Eligibility.{
  error_if, missing_fields, stage_errors, all_stage_errors, match_errors, matching_errors,
  route_errors,
}

pub is_empty-nil : (xs : List Text) → is_empty xs ≡ true → xs ≡ []
is_empty-nil [] h = refl
is_empty-nil (x ∷ xs) h = absurd (let no = h in cc no)

pub append_nil : (xs ys : List Text) → (xs ++ ys) ≡ [] → (xs ≡ []) × (ys ≡ [])
append_nil [] ys h = (refl, h)
append_nil (x ∷ xs) ys h = absurd (let no = h in cc no)

pub error_if-nil : (c : Bool) (message : Text) → error_if c message ≡ [] → c ≡ false
error_if-nil true message h = absurd (let no = h in cc no)
error_if-nil false message h = refl

-- The same where the condition is a negation.
pub unless-nil : (c : Bool) (message : Text) → error_if (not c) message ≡ [] → c ≡ true
unless-nil true message h = refl
unless-nil false message h = absurd (let no = h in cc no)

-- The messages of an alternative, each with its condition.
pub if-nil :
    (c : Bool) (xs ys : List Text)
    → (if c then xs else ys) ≡ []
    → ((c ≡ true) → xs ≡ []) × ((c ≡ false) → ys ≡ [])
if-nil true xs ys h = (λ e. h, λ e. absurd (let no = e in cc no))
if-nil false xs ys h = (λ e. absurd (let no = e in cc no), λ e. h)

-- A refusal by one message, or what is tested next.
pub refusal-nil :
    (c : Bool) (message : Text) (ys : List Text)
    → (if c then message ∷ [] else ys) ≡ []
    → (c ≡ false) × (ys ≡ [])
refusal-nil true message ys h = absurd (let no = h in cc no)
refusal-nil false message ys h = (refl, h)

not-false : (c : Bool) → not c ≡ false → c ≡ true
not-false true h = refl
not-false false h = absurd (let no = h in cc no)

pub missing_fields-nil :
    (s : StageInput) (names : List Text)
    → missing_fields s names ≡ []
    → All (λ name. is_empty (event_value s name) ≡ false) names
unfolding missing_fields
missing_fields-nil s [] h = tt
missing_fields-nil s (name ∷ names) h =
    let (one, rest) =
      append_nil
        (error_if (is_empty (event_value s name)) (s.stage ++ codes " is missing " ++ name))
        (missing_fields s names) h in
    (
      error_if-nil (is_empty (event_value s name)) (s.stage ++ codes " is missing " ++ name) one,
      missing_fields-nil s names rest,
    )

pub all_stage_errors-nil :
    (b : BatchInput) (k : ℕ) (stages : List StageInput) (i : ℕ) (s : StageInput)
    → all_stage_errors b k stages ≡ []
    → get_elem? stages i ≡ some s
    → stage_errors b (k + i) s ≡ []
unfolding all_stage_errors
all_stage_errors-nil b k [] i s h at = absurd (let no = at in cc no)
all_stage_errors-nil b k (t ∷ stages) zero s h at =
    let (one, _) = append_nil (stage_errors b k t) (all_stage_errors b (suc k) stages) h in
    let same : k + 0 ≡ k = omega arith in
    subst (λ j. stage_errors b j s ≡ []) (sym same)
      (subst (λ u. stage_errors b k u ≡ []) (some_injective t s at) one)
all_stage_errors-nil b k (t ∷ stages) (suc i) s h at =
    let (_, rest) = append_nil (stage_errors b k t) (all_stage_errors b (suc k) stages) h in
    let same : suc k + i ≡ k + suc i = omega arith in
    subst (λ j. stage_errors b j s ≡ []) same (all_stage_errors-nil b (suc k) stages i s rest at)

-- A stage that matches has the id and the role of the node at its place.
pub matching_errors-nil :
    (k : ℕ) (nodes : List RouteNodeInput) (stages : List StageInput) (i : ℕ) (s : StageInput)
    → matching_errors k nodes stages ≡ []
    → length nodes ≡ length stages
    → get_elem? stages i ≡ some s
    → (n : RouteNodeInput) × (get_elem? nodes i ≡ some n)
      × (match_errors (codes "Route stage " ++ decimal (suc (k + i))) n s ≡ [])
unfolding matching_errors
matching_errors-nil k nodes [] i s h size at = absurd (let no = at in cc no)
matching_errors-nil k [] (t ∷ stages) i s h size at = absurd (omega (arith, size))
matching_errors-nil k (n ∷ nodes) (t ∷ stages) zero s h size at =
    let (one, _) =
      append_nil (match_errors (codes "Route stage " ++ decimal (suc k)) n t)
        (matching_errors (suc k) nodes stages) h in
    let same : k ≡ k + 0 = omega arith in
    (
      n,
      refl,
      subst (λ j. match_errors (codes "Route stage " ++ decimal (suc j)) n s ≡ []) same
          (subst (λ u. match_errors (codes "Route stage " ++ decimal (suc k)) n u ≡ [])
            (some_injective t s at) one),
    )
matching_errors-nil k (n ∷ nodes) (t ∷ stages) (suc i) s h size at =
    let (_, rest) =
      append_nil (match_errors (codes "Route stage " ++ decimal (suc k)) n t)
        (matching_errors (suc k) nodes stages) h in
    let same : suc k + i ≡ k + suc i = omega arith in
    let (m, at_i, none_here) =
      matching_errors-nil (suc k) nodes stages i s rest (omega (arith, size)) at in
    (
      m,
      at_i,
      subst (λ j. match_errors (codes "Route stage " ++ decimal (suc j)) m s ≡ []) same none_here,
    )

-- Without an error of the route it is one line with as many nodes as there are stages.
pub route_errors-nil :
    (b : BatchInput) (nodes : List RouteNodeInput)
    → route_errors b nodes ≡ []
    → (route_is_complete_linear b ≡ true)
      × (length nodes ≡ length b.stages)
      × (matching_errors 0 nodes b.stages ≡ [])
route_errors-nil b nodes h =
    let message = codes "The saved route is not one complete linear path" in
    let counts = codes "The saved route and submitted blocks contain different stage counts" in
    let (_, more) =
      refusal-nil (is_empty nodes) (codes "The batch has no saved route definition")
        (if not (route_is_complete_linear b)
          then message ∷ []
          else if not (length nodes == length b.stages)
          then counts ∷ []
          else matching_errors 0 nodes b.stages)
        h in
    let (linear, sized) =
      refusal-nil (not (route_is_complete_linear b)) message
        (if not (length nodes == length b.stages)
          then counts ∷ []
          else matching_errors 0 nodes b.stages)
        more in
    let (same, matched) =
      refusal-nil (not (length nodes == length b.stages)) counts (matching_errors 0 nodes b.stages)
        sized in
    (
      not-false (route_is_complete_linear b) linear,
      (==_iff (length nodes) (length b.stages)).0
          (not-false (length nodes == length b.stages) same),
      matched,
    )
