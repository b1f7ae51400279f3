-- ===== src/Scoring/Sums.antt =====
-- matching/scoring.py: the effective levels by requirement, the weighted sums over them
-- (_weighted_score, _category_score, _component_score) and the recommendations.
use job_searching_assistant.Prelude.{
  ℕ, Bool, true, ◌&&◌, not, Option, some, none, List, [], ◌∷◌, String, elem, ◌==◌, if◌then◌else◌,
  filter_by, take, map, string_eq, ◌++◌,
}
use job_searching_assistant.Prelude.Dict.{Dict, lookup, assign_all}
use job_searching_assistant.Scoring.Levels.{
  MatchLevel, related, theoretical_only, missing, match_level_eq,
}
use job_searching_assistant.Scoring.Requirements.{
  RequirementType, RequirementImportance, hard_skill, requirement_type_eq, importance_eq,
}
use job_searching_assistant.Scoring.Arithmetic.{Arithmetic}
use job_searching_assistant.Scoring.Assessment.{
  RequirementAssessment, effective_match_level, match_factor, importance_factor,
}

abbrev pub Levels : Type 0
Levels = Dict String MatchLevel

module _ {F : Type 0} where
  -- effective_level_by_requirement
  unfoldable pub effective_levels : List (RequirementAssessment F) → Levels
  unfolding assign_all effective_match_level
  effective_levels xs = assign_all (map (λ a. (a.requirement_id, effective_match_level a)) xs) []

  -- An entry of the dictionary, which has one for each assessment (Levels.effective_levels-found).
  unfoldable pub level_of : Levels → RequirementAssessment F → MatchLevel
  unfolding lookup
  level_of levels a = elim (lookup a.requirement_id levels) [ none ↦ missing | some l ↦ l ]

pub data Recommendation : Type 0 where
  gain_experience clarify_experience apply_practically : String → Recommendation

module _ {F : Type 0} where
  unfoldable pub recommendation : MatchLevel → RequirementAssessment F → List Recommendation
  recommendation level a =
      if elem level (missing ∷ related ∷ theoretical_only ∷ []) && a.requirement_type == hard_skill
      then (if level == missing
          then gain_experience a.requirement_id
          else if level == related
          then clarify_experience a.requirement_id
          else apply_practically a.requirement_id)
        ∷ []
      else []

  -- The loop of _generate_recommendations.
  recommendations_from :
      Levels → List (RequirementAssessment F) → List Recommendation → List Recommendation
  unfolding recommendation level_of
  recommendations_from levels [] found = found
  recommendations_from levels (a ∷ xs) found =
      recommendations_from levels xs (found ++ recommendation (level_of levels a) a)

  unfoldable pub generate_recommendations :
      Levels → List (RequirementAssessment F) → List Recommendation
  unfolding recommendations_from
  generate_recommendations levels xs = take 10 (recommendations_from levels xs [])

module _ (ar : Arithmetic) where
  abbrev pub Assessments : Type 0
  Assessments = List (RequirementAssessment ar.Float)

  -- `sum(f(x) for x in xs)`, which starts at the integer 0
  unfoldable pub sum_from :
      (RequirementAssessment ar.Float → ar.Float) → ar.Float → Assessments → ar.Float
  sum_from f total [] = total
  sum_from f total (a ∷ xs) = sum_from f (ar.add total (f a)) xs

  abbrev pub sum : (RequirementAssessment ar.Float → ar.Float) → Assessments → ar.Float
  sum f xs = sum_from f (ar.of_nat 0) xs

  abbrev pub matched : Levels → RequirementAssessment ar.Float → ar.Float → ar.Float
  matched levels a w = ar.mul w (ar.decimal (match_factor (level_of levels a)))

  abbrev pub important : RequirementAssessment ar.Float → ar.Float
  important a = ar.mul a.weight (ar.decimal (importance_factor a.importance))

  -- 100 * earned / total
  abbrev pub percentage : ar.Float → ar.Float → ar.Float
  percentage earned total = ar.div (ar.mul (ar.of_nat 100) earned) total

  unfoldable pub weighted_score : Assessments → Levels → ar.Float
  unfolding sum_from level_of match_factor importance_factor
  weighted_score xs levels =
      let total = sum important xs in
      if ar.is_zero total
      then ar.of_nat 0
      else percentage (sum (λ a. matched levels a (important a)) xs) total

  -- The end of _category_score and of _component_score.
  unfoldable pub selected_score : Assessments → Levels → ℕ
  unfolding sum_from level_of match_factor
  selected_score xs levels =
      let total = sum (λ a. a.weight) xs in
      if ar.is_zero total
      then 0
      else ar.rounded (percentage (sum (λ a. matched levels a a.weight) xs) total)

  unfoldable pub category_score : Assessments → Levels → RequirementImportance → ℕ
  unfolding selected_score
  category_score xs levels importance =
      selected_score (filter_by (λ a. a.importance == importance && not a.is_hard_blocker) xs)
        levels

  abbrev pub is_importance : Option RequirementImportance → RequirementImportance → Bool
  is_importance none i = true
  is_importance (some importance) i = i == importance

  unfoldable pub component_score :
      Assessments → Levels → RequirementType → Option RequirementImportance → ℕ
  unfolding selected_score
  component_score xs levels type importance =
      selected_score
        (filter_by (λ a. a.requirement_type == type && is_importance importance a.importance) xs)
        levels
