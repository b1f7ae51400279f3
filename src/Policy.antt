-- ===== src/Policy.antt =====
-- domain/policy.py: the first assessment of a vacancy, the answers prepared for its questions, and
-- whether an application may be submitted without a person.
pub mod Submission
mod Examples
use job_searching_assistant.Prelude.{
  ℕ, ◌*◌, max, ◌≡◌, Bool, true, false, ◌&&◌, ◌||◌, not, Option, some, none, List, [], ◌∷◌, String,
  leb, elem, ◌==◌, string_eq, if◌then◌else◌, filter_by, map, all, length, set_of, is_some,
}
use job_searching_assistant.Prelude.Dict.{Dict, lookup, assign_all}
use job_searching_assistant.Scoring.Arithmetic.{Arithmetic}

pub data SubmissionMode : Type 0 where
  draft review automatic : SubmissionMode

pub record ProfileFact : Type 0 where
  pub category : String
  pub name : String
  pub value : String
  pub is_verified : Bool

pub record Vacancy : Type 0 where
  pub source_url : String
  pub title : String
  pub company : String
  pub required_skills : List String
  pub preferred_skills : List String

pub record MatchAssessment : Type 0 where
  pub score : ℕ
  pub matched_required_skills : List String
  pub missing_required_skills : List String
  pub matched_preferred_skills : List String
  pub recommendation : String

pub record ApplicationQuestion : Type 0 where
  pub field_id : String
  pub label : String
  pub semantic_category : String
  pub is_required : Bool

pub record PreparedAnswer : Type 0 where
  pub field_id : String
  pub answer : Option String
  pub source_fact_name : Option String
  pub requires_review : Bool
  pub warning : Option String

abbrev pub sensitive_categories : List String
sensitive_categories =
    "background_check" ∷ "criminal_history" ∷ "data_processing_consent" ∷ "disability"
    ∷ "export_control" ∷ "legal_declaration" ∷ "medical_information" ∷ "military_status"
    ∷ "protected_demographic" ∷ "work_authorization" ∷ []

abbrev pub is_sensitive : ApplicationQuestion → Bool
is_sensitive q = elem q.semantic_category sensitive_categories

-- `str.casefold` is a parameter. A set is kept in order, which is how it is returned.
module _ (casefold : String → String) where
  unfoldable pub verified_skills : List ProfileFact → List String
  verified_skills facts =
      set_of
        (map (λ f. casefold f.name) (filter_by (λ f. f.is_verified && f.category == "skill") facts))

  abbrev folded_set : List String → List String
  folded_set skills = set_of (map casefold skills)

  abbrev recommend : List String → ℕ → String
  recommend [] score = if leb 70 score then "apply" else "review"
  recommend (skill ∷ missing) score = if leb 50 score then "review" else "skip"

  -- round(70 * matched / max(required, 1) + 30 * preferred / max(preferred, 1))
  unfoldable pub skill_score : Arithmetic → (matched required liked preferred : ℕ) → ℕ
  skill_score ar matched required liked preferred = ar.rounded (
      ar.add (ar.div (ar.of_nat (70 * matched)) (ar.of_nat (max required 1)))
        (ar.div (ar.of_nat (30 * liked)) (ar.of_nat (max preferred 1))))

  unfoldable pub assess_vacancy : Arithmetic → Vacancy → List ProfileFact → MatchAssessment
  unfolding verified_skills skill_score
  assess_vacancy ar vacancy facts =
      let known_skills = verified_skills facts in
      let required = folded_set vacancy.required_skills in
      let preferred = folded_set vacancy.preferred_skills in
      let matched = filter_by (λ s. elem s known_skills) required in
      let missing = filter_by (λ s. not (elem s known_skills)) required in
      let liked = filter_by (λ s. elem s known_skills) preferred in
      let score =
        skill_score ar (length matched) (length required) (length liked) (length preferred) in
      record {
        score = score;
        matched_required_skills = matched;
        missing_required_skills = missing;
        matched_preferred_skills = liked;
        recommendation = recommend missing score;
      }

  unfoldable pub verified_fact_by_name : List ProfileFact → Dict String ProfileFact
  unfolding assign_all
  verified_fact_by_name facts =
      assign_all (map (λ f. (casefold f.name, f)) (filter_by (λ f. f.is_verified) facts)) []

  -- The body of the loop over the questions.
  unfoldable pub answer_with : Option ProfileFact → ApplicationQuestion → PreparedAnswer
  answer_with none q = record {
    field_id = q.field_id;
    answer = none;
    source_fact_name = none;
    requires_review = q.is_required;
    warning = if q.is_required then some "Missing verified profile fact" else none;
  }
  answer_with (some fact) q = record {
    field_id = q.field_id;
    answer = some fact.value;
    source_fact_name = some fact.name;
    requires_review = is_sensitive q;
    warning = if is_sensitive q then some "Sensitive declaration requires human review" else none;
  }

  unfoldable pub prepare_answers : List ApplicationQuestion → List ProfileFact → List PreparedAnswer
  unfolding answer_with verified_fact_by_name lookup
  prepare_answers questions facts =
      let known_facts = verified_fact_by_name facts in
      map (λ q. answer_with (lookup (casefold q.semantic_category) known_facts) q) questions

abbrev is_automatic : SubmissionMode → Bool
is_automatic automatic = true
is_automatic _ = false

unfoldable pub can_submit : SubmissionMode → List PreparedAnswer → Bool → Bool
can_submit mode answers source_is_authorized =
    is_automatic mode
    && source_is_authorized
    && all (λ a. is_some a.answer && not a.requires_review) answers
