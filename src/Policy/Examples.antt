-- ===== src/Policy/Examples.antt =====
-- A profile with two verified facts, and the questions of an application.
use job_searching_assistant.Prelude.Dict.{assign}
use job_searching_assistant.Prelude.{
  ◌≡◌, refl, true, false, List, [], ◌∷◌, String, Pairwise, if◌then◌else◌, ◌==◌, string_eq,
}
use job_searching_assistant.Scoring.Examples.{hundredths}
use job_searching_assistant.Policy.{
  automatic, ProfileFact, Vacancy, ApplicationQuestion, prepare_answers, can_submit, assess_vacancy,
}
use job_searching_assistant.Policy.Submission.{IsAnswered, can_submit-IsAnswered}

abbrev as_is : String → String
as_is s = s

abbrev fact : String → String → String → ProfileFact
fact category name value = record {
  category = category;
  name = name;
  value = value;
  is_verified = true;
}

abbrev profile : List ProfileFact
profile =
    fact "skill" "python" "5 years"
    ∷ fact "contact" "email" "me@example.com"
    ∷ fact "legal" "work_authorization" "yes"
    ∷ []

abbrev question : String → ApplicationQuestion
question category = record {
  field_id = category;
  label = category;
  semantic_category = category;
  is_required = true;
}

abbrev backend_job : Vacancy
backend_job = record {
  source_url = "https://jobs.example.com/1";
  title = "Backend";
  company = "Example";
  required_skills = "python" ∷ "sql" ∷ [];
  preferred_skills = [];
}

sensitive_needs_review :
    can_submit automatic
      (prepare_answers as_is (question "email" ∷ question "work_authorization" ∷ []) profile)
      true
    ≡ false
unfolding can_submit prepare_answers assign
sensitive_needs_review = refl

-- A `casefold` of this one word.
abbrev folds : String → String
folds s = if s == "Work_Authorization" then "work_authorization" else s

-- The category of a sensitive question is compared as it is written, the name of a fact is not.
sensitive_in_capitals :
    can_submit automatic (prepare_answers folds (question "Work_Authorization" ∷ []) profile) true
    ≡ true
unfolding can_submit prepare_answers assign
sensitive_in_capitals = refl

half_matched :
    let a = assess_vacancy as_is hundredths backend_job profile in
    (a.score ≡ 35) × (a.missing_required_skills ≡ "sql" ∷ []) × (a.recommendation ≡ "skip")
unfolding assess_vacancy
half_matched = (refl, refl, refl)

can_submit-IsAnswered_example :
    (automatic ≡ automatic)
    × (true ≡ true)
    × Pairwise
        (IsAnswered as_is profile)
        (question "email" ∷ question "python" ∷ [])
        (prepare_answers as_is (question "email" ∷ question "python" ∷ []) profile)
unfolding can_submit prepare_answers assign
can_submit-IsAnswered_example =
    can_submit-IsAnswered as_is automatic (question "email" ∷ question "python" ∷ []) profile true
      refl
