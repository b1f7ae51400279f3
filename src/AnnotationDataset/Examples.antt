-- ===== src/AnnotationDataset/Examples.antt =====
-- Three vacancies, two of them of one company.
use job_searching_assistant.Prelude.{
  ◌≡◌, ◌≢◌, refl, true, false, some, [], ◌∷◌, String, ◌==◌, string_eq, ok, not,
}
use job_searching_assistant.Prelude.Dict.{Dict, IsDict, lookup, bools_differ}
use job_searching_assistant.AnnotationDataset.{is_eval, Position, assign_folds, eval_vacancies}
use job_searching_assistant.AnnotationDataset.Pins.{IsPinnedTo}
use job_searching_assistant.AnnotationDataset.Frozen.{assign_folds-frozen}
use job_searching_assistant.AnnotationDataset.Refrozen.{assign_folds-eval_vacancies}

-- The group "c" is in the validation share.
abbrev first_hash : Position
first_hash = record { in_train = λ g. not (g == "c"); before_test = λ g. true }

abbrev other_hash : Position
other_hash = record { in_train = λ g. true; before_test = λ g. true }

abbrev groups : Dict String String
groups = ("a", "a") ∷ ("b", "a") ∷ ("c", "c") ∷ []

abbrev frozen : Dict String String
frozen = ("b", "test") ∷ []

abbrev folds : Dict String String
folds = ("a", "test") ∷ ("b", "test") ∷ ("c", "validation") ∷ []

differ : (x y : String) → (x == y) ≡ false → x ≢ y
differ x y h e = bools_differ (cc ((string_eq.agrees x y).1 e))

groups-IsDict : IsDict groups
groups-IsDict =
    ((differ "b" "a" refl, (differ "c" "a" refl, tt)), ((differ "c" "b" refl, tt), (tt, tt)))

assigned : assign_folds first_hash groups frozen ≡ ok folds
unfolding assign_folds
assigned = refl

assign_folds-frozen_example : (is_eval "test" ≡ true) × IsPinnedTo "test" (lookup "a" folds)
unfolding lookup
assign_folds-frozen_example =
    assign_folds-frozen first_hash groups frozen folds groups-IsDict assigned "b" "a" "a" "test"
      refl refl refl

assign_folds-eval_vacancies_example :
    (folds' : Dict String String) × (assign_folds other_hash groups (eval_vacancies folds)
      ≡ ok folds')
    × (lookup "c" folds' ≡ some "validation")
unfolding lookup
assign_folds-eval_vacancies_example =
    assign_folds-eval_vacancies first_hash other_hash groups frozen folds "c" "validation"
      groups-IsDict assigned refl refl
