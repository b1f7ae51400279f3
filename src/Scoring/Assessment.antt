-- ===== src/Scoring/Assessment.antt =====
-- matching/scoring.py: the assessment of one requirement, its effective level, and the factors of
-- a level and of an importance (in hundredths).
use job_searching_assistant.Prelude.{
  ℕ, Bool, false, ◌&&◌, Option, some, none, [], ◌∷◌, String, elem, if◌then◌else◌,
}
use job_searching_assistant.Scoring.Levels.{
  MatchLevel, exact, strong, partial, theoretical_only, match_level_eq,
}
use job_searching_assistant.Scoring.Requirements.{
  RequirementType, RequirementImportance, hard_skill, experience, requirement_type_eq,
}
use job_searching_assistant.Scoring.Evidence.{
  ExperienceLevel, theoretical, conceptual, experience_level_eq,
}
use job_searching_assistant.Scoring.Entailment.{EntailmentRelation}

-- _MATCH_FACTOR
unfoldable pub match_factor : MatchLevel → ℕ
match_factor MatchLevel.exact = 100
match_factor MatchLevel.strong = 90
match_factor MatchLevel.partial = 65
match_factor MatchLevel.related = 35
match_factor MatchLevel.theoretical_only = 15
match_factor MatchLevel.insufficient_evidence = 15
match_factor MatchLevel.evaluation_error = 10
match_factor MatchLevel.missing = 0
match_factor MatchLevel.blocker = 0
match_factor MatchLevel.unresolved_blocker = 0

-- _IMPORTANCE_FACTOR
unfoldable pub importance_factor : RequirementImportance → ℕ
importance_factor RequirementImportance.required = 100
importance_factor RequirementImportance.preferred = 50
importance_factor RequirementImportance.optional = 20
importance_factor RequirementImportance.unknown = 40

-- A weight and an evidence strength are floats of the type `F`.
pub record RequirementAssessment (F : Type 0) : Type 0 where
  pub requirement_id : String
  pub requirement_type : RequirementType
  pub importance : RequirementImportance
  pub weight : F
  pub is_blocker : Bool
  pub match_level : MatchLevel
  pub evidence_experience_level : Option ExperienceLevel
  pub entailment_relation : Option EntailmentRelation
  pub evidence_strength : Option F
  pub is_hard_blocker : Bool
  pub is_unresolved_blocker : Bool
  pub claim_coverage : Option F

-- The chain of tests on the relation.
unfoldable pub entailed_level : EntailmentRelation → MatchLevel
entailed_level EntailmentRelation.entailed = MatchLevel.exact
entailed_level EntailmentRelation.partial = MatchLevel.partial
entailed_level EntailmentRelation.related_but_insufficient = MatchLevel.related
entailed_level EntailmentRelation.insufficient_evidence = MatchLevel.insufficient_evidence
entailed_level EntailmentRelation.evaluation_error = MatchLevel.evaluation_error
entailed_level EntailmentRelation.contradicted = MatchLevel.missing
entailed_level EntailmentRelation.unknown = MatchLevel.missing

unfoldable pub is_theoretical : Option ExperienceLevel → Bool
is_theoretical none = false
is_theoretical (some l) = elem l (theoretical ∷ conceptual ∷ [])

module _ {F : Type 0} where
  -- Theoretical knowledge of a skill is no practice of it.
  unfoldable pub downgraded : RequirementAssessment F → MatchLevel → MatchLevel
  unfolding is_theoretical
  downgraded a level =
      if elem a.requirement_type (hard_skill ∷ experience ∷ [])
        && is_theoretical a.evidence_experience_level
        && elem level (exact ∷ strong ∷ partial ∷ [])
      then theoretical_only
      else level

  unfoldable pub effective_match_level : RequirementAssessment F → MatchLevel
  unfolding downgraded entailed_level
  effective_match_level a = elim a.entailment_relation [
    | some relation ↦ downgraded a (entailed_level relation)
    | none ↦ downgraded a a.match_level
  ]
