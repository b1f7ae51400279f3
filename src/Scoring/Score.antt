-- ===== src/Scoring/Score.antt =====
-- matching/scoring.py: DeterministicMatchScorer.score. The wording of an explanation is left out:
-- an entry is its kind with the count it prints.
use job_searching_assistant.Prelude.{
  ℕ, ◌+◌, ◌-◌, min, max, Bool, true, false, ◌&&◌, ◌||◌, not, Option, some, none, List, [], ◌∷◌,
  ◌++◌, String, elem, ◌==◌, if◌then◌else◌, filter_by, any, count_by, length, map,
}
use job_searching_assistant.Scoring.Levels.{
  MatchLevel, insufficient_evidence, evaluation_error, missing, blocker, unresolved_blocker,
  match_level_eq, EligibilityStatus, eligible, review, ineligible, needs_confirmation,
}
use job_searching_assistant.Scoring.Requirements.{
  hard_skill, role, seniority, experience, work_format, location, domain, language,
  work_authorization, required, preferred, optional, requirement_type_eq, importance_eq,
}
use job_searching_assistant.Scoring.Entailment.{EntailmentRelation, entailment_relation_eq}
use job_searching_assistant.Scoring.Arithmetic.{Arithmetic}
use job_searching_assistant.Scoring.Assessment.{RequirementAssessment}
use job_searching_assistant.Scoring.Sums.{
  Levels, effective_levels, level_of, Recommendation, generate_recommendations, Assessments,
  weighted_score, category_score, component_score,
}

pub data Explanation : Type 0 where
  hard_blockers_confirmed hard_blockers_unverified blockers_not_satisfied requirements_missing
        requirements_not_evaluated :
      ℕ → Explanation
  authorization_missing all_supported : Explanation

pub record DeterministicScore (F : Type 0) : Type 0 where
  pub eligibility_status : EligibilityStatus
  pub final_score : ℕ
  pub hard_skill_score : ℕ
  pub preferred_skill_score : ℕ
  pub role_score : ℕ
  pub seniority_score : ℕ
  pub experience_score : ℕ
  pub work_format_score : ℕ
  pub location_score : ℕ
  pub domain_score : ℕ
  pub language_score : ℕ
  pub blocker_count : ℕ
  pub matched_required_count : ℕ
  pub missing_required_count : ℕ
  pub scoring_version : String
  pub explanation : List Explanation
  pub required_score : ℕ
  pub preferred_score : ℕ
  pub bonus_score : ℕ
  pub hard_blockers : List String
  pub hard_blockers_unresolved : List String
  pub confidence : F
  pub raw_score_before_blockers : ℕ
  pub blocker_penalty : ℕ
  pub calibration_version : String
  pub recommendations : List Recommendation

-- The truth of a Python list, and of a count.
abbrev pub nonempty {ℓ} : {A : Type ℓ} → List A → Bool
nonempty [] = false
nonempty (x ∷ xs) = true

abbrev pub positive : ℕ → Bool
positive ℕ.zero = false
positive (ℕ.suc n) = true

abbrev entry_if : Bool → Explanation → List Explanation
entry_if test entry = if test then entry ∷ [] else []

abbrev pub is_unmet : MatchLevel → Bool
is_unmet level = elem level (missing ∷ blocker ∷ [])

abbrev pub is_uncertain : MatchLevel → Bool
is_uncertain level = elem level (insufficient_evidence ∷ evaluation_error ∷ unresolved_blocker ∷ [])

-- What `score` finds before it caps the score: the local variables of its first half.
pub record Findings (F : Type 0) : Type 0 where
  pub confirmed_hard_blockers : List (RequirementAssessment F)
  pub unresolved_hard_blockers : List (RequirementAssessment F)
  pub blocker_assessments : List (RequirementAssessment F)
  pub missing_authorization : Bool
  pub required_assessments : List (RequirementAssessment F)
  pub evaluation_error_assessments : List (RequirementAssessment F)

module _ {F : Type 0} where
  unfoldable pub find_all : Levels → List (RequirementAssessment F) → Findings F
  unfolding level_of
  find_all levels xs =
      let required_ones = filter_by (λ a. a.importance == required && not a.is_hard_blocker) xs in
      record {
        confirmed_hard_blockers =
            filter_by (λ a. a.is_hard_blocker && is_unmet (level_of levels a)) xs;
        unresolved_hard_blockers =
            filter_by
              (λ a.
                (a.is_hard_blocker || a.is_unresolved_blocker) && is_uncertain (level_of levels a))
              xs;
        blocker_assessments =
            filter_by (λ a. a.is_blocker && not a.is_hard_blocker && is_unmet (level_of levels a))
              xs;
        missing_authorization =
            any
              (λ a.
                a.requirement_type == work_authorization
                && a.importance == required
                && is_unmet (level_of levels a))
              xs;
        required_assessments = required_ones;
        evaluation_error_assessments =
            filter_by (λ a. level_of levels a == evaluation_error) required_ones;
      }

  unfoldable pub matched_required : Levels → List (RequirementAssessment F) → ℕ
  unfolding level_of
  matched_required levels = count_by λ a.
      not (
        elem (level_of levels a)
          (missing ∷ blocker ∷ insufficient_evidence ∷ evaluation_error ∷ []))

  unfoldable pub missing_required : Levels → List (RequirementAssessment F) → ℕ
  unfolding level_of
  missing_required levels = count_by λ a. is_unmet (level_of levels a)

  abbrev pub has_confirmed_hard_blockers : Findings F → Bool
  has_confirmed_hard_blockers f = nonempty f.confirmed_hard_blockers || f.missing_authorization

  unfoldable pub eligibility : Findings F → ℕ → EligibilityStatus
  eligibility f missing_count =
      if has_confirmed_hard_blockers f
      then ineligible
      else if nonempty f.unresolved_hard_blockers
      then needs_confirmation
      else if nonempty f.blocker_assessments
          || positive missing_count
          || nonempty f.evaluation_error_assessments
      then review
      else eligible

  unfoldable pub explain : Findings F → ℕ → List Explanation
  explain f missing_count =
      let entries =
        entry_if (nonempty f.confirmed_hard_blockers)
          (hard_blockers_confirmed (length f.confirmed_hard_blockers))
        ++ entry_if (nonempty f.unresolved_hard_blockers)
            (hard_blockers_unverified (length f.unresolved_hard_blockers))
        ++ entry_if (nonempty f.blocker_assessments)
            (blockers_not_satisfied (length f.blocker_assessments))
        ++ entry_if f.missing_authorization authorization_missing
        ++ entry_if (positive missing_count) (requirements_missing missing_count)
        ++ entry_if (nonempty f.evaluation_error_assessments)
            (requirements_not_evaluated (length f.evaluation_error_assessments)) in
      if nonempty entries then entries else all_supported ∷ []

-- A capped score: what is left of it, and what the cap took.
pub record Capped : Type 0 where
  pub left : ℕ
  pub penalty : ℕ

abbrev pub cap_at : ℕ → ℕ → Capped
cap_at cap raw = record { left = min raw cap; penalty = max 0 (raw - cap) }

module _ (ar : Arithmetic) where
  -- round(80 * (1 - missing_ratio))
  unfoldable pub missing_cap : ℕ → ℕ → ℕ
  missing_cap missing_count required_count = max 20 (
      ar.rounded (
        ar.mul (ar.of_nat 80)
          (ar.sub (ar.of_nat 1) (ar.div (ar.of_nat missing_count) (ar.of_nat required_count)))))

  unfoldable pub apply_caps : Findings ar.Float → ℕ → ℕ → Capped
  unfolding missing_cap
  apply_caps f missing_count raw =
      if has_confirmed_hard_blockers f
      then record { left = 0; penalty = raw }
      else if nonempty f.blocker_assessments
      then cap_at 20 raw
      else if positive missing_count
      then (if nonempty f.required_assessments
          then cap_at (missing_cap missing_count (length f.required_assessments)) raw
          else cap_at 49 raw)
      else record { left = raw; penalty = 0 }

  strengths : Assessments ar → List ar.Float
  strengths [] = []
  strengths (a ∷ xs) = elim a.evidence_strength [
    | none ↦ strengths xs
    | some strength ↦ strength ∷ strengths xs
  ]

  total_of : ar.Float → List ar.Float → ar.Float
  total_of total [] = total
  total_of total (x ∷ xs) = total_of (ar.add total x) xs

  abbrev is_failed : Option EntailmentRelation → Bool
  is_failed none = false
  is_failed (some r) =
      elem r (EntailmentRelation.evaluation_error ∷ EntailmentRelation.unknown ∷ [])

  unfoldable pub confidence_of : Assessments ar → ar.Float
  unfolding strengths total_of
  confidence_of xs =
      let found = strengths xs in
      let base =
        if nonempty found
        then ar.div (total_of (ar.of_nat 0) found) (ar.of_nat (length found))
        else ar.of_nat 0 in
      let error_count = count_by (λ a. is_failed a.entailment_relation) xs in
      let error_penalty =
        ar.minimum (ar.decimal 30) (ar.mul (ar.of_nat error_count) (ar.decimal 5)) in
      ar.rounded_3 (ar.maximum (ar.of_nat 0) (ar.sub base error_penalty))

  unfoldable pub score_with :
      Assessments ar → Levels → Findings ar.Float → DeterministicScore ar.Float
  score_with xs levels f =
      let missing_count = missing_required levels f.required_assessments in
      let raw_score = ar.rounded (weighted_score ar xs levels) in
      let capped = apply_caps f missing_count raw_score in
      record {
        eligibility_status = eligibility f missing_count;
        final_score = max 0 (min 100 capped.left);
        hard_skill_score = component_score ar xs levels hard_skill (some required);
        preferred_skill_score = component_score ar xs levels hard_skill (some preferred);
        role_score = component_score ar xs levels role none;
        seniority_score = component_score ar xs levels seniority none;
        experience_score = component_score ar xs levels experience none;
        work_format_score = component_score ar xs levels work_format none;
        location_score = component_score ar xs levels location none;
        domain_score = component_score ar xs levels domain none;
        language_score = component_score ar xs levels language none;
        blocker_count = length f.blocker_assessments + length f.confirmed_hard_blockers;
        matched_required_count = matched_required levels f.required_assessments;
        missing_required_count = missing_count;
        scoring_version = "matching-v3.0";
        explanation = explain f missing_count;
        required_score = category_score ar xs levels required;
        preferred_score = category_score ar xs levels preferred;
        bonus_score = category_score ar xs levels optional;
        hard_blockers = map (λ a. a.requirement_id) f.confirmed_hard_blockers;
        hard_blockers_unresolved = map (λ a. a.requirement_id) f.unresolved_hard_blockers;
        confidence = confidence_of xs;
        raw_score_before_blockers = max 0 (min 100 raw_score);
        blocker_penalty = max 0 capped.penalty;
        calibration_version = "identity";
        recommendations = generate_recommendations levels xs;
      }

  unfoldable pub score : Assessments ar → DeterministicScore ar.Float
  unfolding score_with
  score xs = let levels = effective_levels xs in score_with xs levels (find_all levels xs)
