-- ===== src/Scoring/Examples.antt =====
-- A concrete arithmetic for the scorer, in hundredths rounded down, and a scored vacancy.
use job_searching_assistant.Scoring.Score.{confidence_of}
use job_searching_assistant.Scoring.Sums.{category_score}
use job_searching_assistant.Scoring.Sums.{weighted_score}
use job_searching_assistant.Scoring.Score.{apply_caps}
use job_searching_assistant.Prelude.Dict.{assign}
use job_searching_assistant.Scoring.Sums.{effective_levels}
use job_searching_assistant.Scoring.Score.{missing_required}
use job_searching_assistant.Scoring.Score.{find_all}
use job_searching_assistant.Scoring.Score.{eligibility}
use native.Mathlib.Nat.{le-div_iff_mul-le, mul-div-le, mul-div_left}
use job_searching_assistant.Prelude.{
  ◌<◌, ℕ, ◌+◌, ◌-◌, ◌*◌, ◌/◌, ◌≤◌, ◌≡◌, refl, ap, ◌∙◌, true, false, some, none, [], ◌∷◌, ◌++◌,
  String, arith, min, max, nat_beq, elem, string_eq,
}
use job_searching_assistant.Scoring.Levels.{MatchLevel, exact, ineligible, EligibilityStatus}
use job_searching_assistant.Scoring.Requirements.{
  RequirementImportance, hard_skill, language, required, preferred,
}
use job_searching_assistant.Scoring.Evidence.{theoretical}
use job_searching_assistant.Scoring.Entailment.{EntailmentRelation}
use job_searching_assistant.Scoring.Arithmetic.{Arithmetic, IsRounding}
use job_searching_assistant.Scoring.Assessment.{RequirementAssessment, effective_match_level}
use job_searching_assistant.Scoring.Sums.{Assessments}
use job_searching_assistant.Scoring.Score.{score}
use job_searching_assistant.Scoring.Verdict.{IsVerdict, score-IsVerdict}
use job_searching_assistant.Scoring.Bounds.{score-IsPercentage}
use job_searching_assistant.Scoring.Unknown.{score-unknown_blocks}

abbrev pub hundredths : Arithmetic
hundredths = record {
  Float = ℕ;
  of_nat = λ n. 100 * n;
  decimal = λ n. n;
  add = λ x y. x + y;
  mul = λ x y. x * y / 100;
  sub = λ x y. x - y;
  div = λ x y. 100 * x / y;
  minimum = λ x y. min x y;
  maximum = λ x y. max x y;
  is_zero = λ x. nat_beq x 0;
  rounded = λ x. (x + 50) / 100;
  rounded_3 = λ x. x;
}

product-le : (x n : ℕ) → n ≤ 100 → x * n / 100 ≤ x
product-le x n h = grind arith

div_le : (x y w : ℕ) → x ≤ y → 0 < w → x / w ≤ y / w
div_le x y w h pos = (le-div_iff_mul-le pos).1 (grind (arith, mul-div-le x w))

hundred_back : (w : ℕ) → nat_beq w 0 ≡ false → 100 * (100 * 100 * w / 100) / w ≡ 10_000
hundred_back w e =
    let pos : 0 < w = ground arith in
    let product : 100 * (100 * 100 * w / 100) ≡ 10_000 * w = omega arith in
    ap (λ n. n / w) product ∙ mul-div_left 10_000 pos

hundredths-IsRounding : IsRounding hundredths
hundredths-IsRounding = record {
  Le = λ x y. x ≤ y;
  le_trans = λ x y z h k. omega arith;
  nat_le = λ m n h k. omega arith;
  add_nat = λ m n h. omega arith;
  add_mono = λ x y z w l h m k. omega arith;
  mul_factor = λ x n l h k. product-le x n k;
  mul_nonneg = λ x n l h k. omega arith;
  hundred_nonneg = λ x l h. omega arith;
  hundred_mono = λ x y l h k. omega arith;
  div_nonneg = λ x w l m k e. omega arith;
  div_mono = λ x y w l h m k e. div_le (100 * x) (100 * y) w (omega arith) (ground arith);
  div_back = λ w l h e. (omega (arith, hundred_back w e), omega (arith, hundred_back w e));
  rounded_nat = λ n h. omega arith;
  rounded_mono = λ x y l h k. omega arith;
}

abbrev skill : String → RequirementImportance → RequirementAssessment ℕ
skill id importance = record {
  requirement_id = id;
  requirement_type = hard_skill;
  importance = importance;
  weight = 100;
  is_blocker = false;
  match_level = exact;
  evidence_experience_level = none;
  entailment_relation = none;
  evidence_strength = some 80;
  is_hard_blocker = false;
  is_unresolved_blocker = false;
  claim_coverage = none;
}

abbrev english : RequirementAssessment ℕ
english = record (skill "english" required) {
  requirement_type = language;
  entailment_relation = some EntailmentRelation.unknown;
  is_hard_blocker = true;
}

abbrev read_about : RequirementAssessment ℕ
read_about = record (skill "rust" preferred) { evidence_experience_level = some theoretical }

abbrev good_vacancy : Assessments hundredths
good_vacancy = skill "python" required ∷ read_about ∷ []

theoretical_knowledge : effective_match_level read_about ≡ MatchLevel.theoretical_only
unfolding effective_match_level
theoretical_knowledge = refl

good_score :
    let s = score hundredths good_vacancy in
    (s.eligibility_status ≡ EligibilityStatus.eligible)
    × (s.final_score ≡ 71)
    × (s.preferred_score ≡ 15)
    × (s.confidence ≡ 80)
unfolding score eligibility find_all missing_required effective_levels assign apply_caps
    weighted_score category_score confidence_of
good_score = (refl, refl, refl, refl)

score-IsVerdict_example :
    let s = score hundredths good_vacancy in
    IsVerdict s.eligibility_status s
    × (s.final_score ≤ s.raw_score_before_blockers)
    × (s.raw_score_before_blockers ≤ 100)
score-IsVerdict_example = score-IsVerdict hundredths good_vacancy

score-IsPercentage_example :
    let s = score hundredths good_vacancy in
    (s.final_score + s.blocker_penalty ≡ s.raw_score_before_blockers)
    × (s.required_score ≤ 100)
    × (s.preferred_score ≤ 100)
    × (s.bonus_score ≤ 100)
    × (s.hard_skill_score ≤ 100)
    × (s.preferred_skill_score ≤ 100)
    × (s.role_score ≤ 100)
    × (s.seniority_score ≤ 100)
    × (s.experience_score ≤ 100)
    × (s.work_format_score ≤ 100)
    × (s.location_score ≤ 100)
    × (s.domain_score ≤ 100)
    × (s.language_score ≤ 100)
unfolding hundredths-IsRounding
score-IsPercentage_example =
    score-IsPercentage hundredths hundredths-IsRounding good_vacancy
      ((omega arith, omega arith), ((omega arith, omega arith), tt)) (omega arith)

score-unknown_blocks_example :
    let s = score hundredths (good_vacancy ++ english ∷ []) in
    (elem "english" s.hard_blockers ≡ true)
    × (s.eligibility_status ≡ ineligible)
    × (s.final_score ≡ 0)
score-unknown_blocks_example =
    score-unknown_blocks hundredths good_vacancy [] english EntailmentRelation.unknown tt refl refl
      refl
