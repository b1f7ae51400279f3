-- ===== src/EffectiveValues/Precedence.antt =====
-- domain/effective_values.py: the first source in the order of precedence that knows a value
-- decides, also when its value is refused.
use job_searching_assistant.Prelude.{
  ◌≡◌, refl, Bool, true, false, ◌&&◌, ◌||◌, not, Option, some, none, ◌∷◌, String, Result, ok, raise,
  inl, inr, Bool-cases, arith, raise_if, ◌>>◌,
}
use job_searching_assistant.EffectiveValues.{
  EffectiveValueSource, application_override, site_field_override, site_override, resume, global,
  generated, EffectiveValueError, invalid_key, credential_blocked, sensitive_blocked, not_found,
  EffectiveValueCandidate, ResolvedEffectiveValue, TextLibrary, Candidates, Known, candidates_of,
  first_candidate, is_generated, is_blank, is_credential, resolve_effective_autofill_value,
}

-- The value that a source knows.
abbrev pub known_from : Known → EffectiveValueSource → Option EffectiveValueCandidate
known_from k application_override = k.application_override
known_from k site_field_override = k.site_field_override
known_from k site_override = k.site_override
known_from k resume = k.resume_value
known_from k global = k.global_value
known_from k generated = k.generated_value

-- No source that precedes this one knows a value: what the user gave for the application comes
-- first, then for a field of the site, then for the site, then the resume, then what holds
-- everywhere, and what was generated comes last.
abbrev pub AbsentBefore : Known → EffectiveValueSource → Type 0
AbsentBefore k application_override = Unit
AbsentBefore k site_field_override = k.application_override ≡ none
AbsentBefore k site_override = (k.site_field_override ≡ none) × (k.application_override ≡ none)
AbsentBefore k resume =
    (k.site_override ≡ none) × (k.site_field_override ≡ none) × (k.application_override ≡ none)
AbsentBefore k global =
    (k.resume_value ≡ none)
    × (k.site_override ≡ none)
    × (k.site_field_override ≡ none)
    × (k.application_override ≡ none)
AbsentBefore k generated =
    (k.global_value ≡ none)
    × (k.resume_value ≡ none)
    × (k.site_override ≡ none)
    × (k.site_field_override ≡ none)
    × (k.application_override ≡ none)

abbrev pub is_last_resort : EffectiveValueSource → Bool
is_last_resort generated = true
is_last_resort _ = false

-- The value of a source as it is filled in. A person reviews a value that asks for it, a sensitive
-- one, and every generated one.
pub record IsResolution (source : EffectiveValueSource) (c : EffectiveValueCandidate)
    (v : ResolvedEffectiveValue) : Type 0 where
  pub is_value : v.value ≡ c.value
  pub is_source : v.source ≡ source
  pub same_record : v.source_record_id ≡ c.source_record_id
  pub same_sensitivity : v.is_sensitive ≡ c.is_sensitive
  pub is_reviewed :
      v.requires_review ≡ (c.requires_review || c.is_sensitive || is_last_resort source)

-- How the known values decide: the first in the order of precedence is returned, or is sensitive
-- without permission and blocks; none is known.
pub data Decided (k : Known) (allow_sensitive : Bool)
    : Result EffectiveValueError ResolvedEffectiveValue → Type 0 where
  all_absent :
      AbsentBefore k generated
      → k.generated_value ≡ none
      → Decided k allow_sensitive (raise not_found)
  first_blocks :
      (source : EffectiveValueSource) (c : EffectiveValueCandidate)
      → known_from k source ≡ some c
      → AbsentBefore k source
      → c.is_sensitive ≡ true
      → allow_sensitive ≡ false
      → Decided k allow_sensitive (raise sensitive_blocked)
  first_wins :
      (source : EffectiveValueSource) (c : EffectiveValueCandidate) (v : ResolvedEffectiveValue)
      → known_from k source ≡ some c
      → AbsentBefore k source
      → (c.is_sensitive && not allow_sensitive) ≡ false
      → IsResolution source c v
      → Decided k allow_sensitive (ok v)

blocked-parts : (p q : Bool) → (p && not q) ≡ true → (p ≡ true) × (q ≡ false)
blocked-parts p q h = ground arith

review_flag :
    (source : EffectiveValueSource) (asked sensitive : Bool)
    → (asked || sensitive || is_generated source) ≡ (asked || sensitive || is_last_resort source)
review_flag generated p q = refl
review_flag source p q = ground arith

-- One round of the loop: the source's value decides, or the later sources do.
first_candidate-Decided :
    (k : Known) (a : Bool) (source : EffectiveValueSource) (o : Option EffectiveValueCandidate)
    (later : Candidates)
    → known_from k source ≡ o
    → AbsentBefore k source
    → (o ≡ none → Decided k a (first_candidate a later))
    → Decided k a (first_candidate a ((source, o) ∷ later))
unfolding first_candidate
first_candidate-Decided k a source none later e before next = next refl
first_candidate-Decided k a source (some c) later e before next =
    elim (Bool-cases (c.is_sensitive && not a)) [
      | inl blocked ↦
          let (sensitive, refused) = blocked-parts c.is_sensitive a blocked in
          rw blocked (Decided.first_blocks source c e before sensitive refused)
      | inr free ↦ rw free (
          Decided.first_wins source c _ e before free (record {
            is_value = refl;
            is_source = refl;
            same_record = refl;
            same_sensitivity = refl;
            is_reviewed = review_flag source c.requires_review c.is_sensitive;
          }))
    ]

candidates-Decided : (k : Known) (a : Bool) → Decided k a (first_candidate a (candidates_of k))
unfolding first_candidate
candidates-Decided k a =
    first_candidate-Decided k a application_override _ _ refl tt λ no_application.
      first_candidate-Decided k a site_field_override _ _ refl no_application λ no_field.
        first_candidate-Decided k a site_override _ _ refl (no_field, no_application)
          λ no_site.
            first_candidate-Decided k a resume _ _ refl (no_site, no_field, no_application)
              λ no_resume.
                first_candidate-Decided k a global _ _ refl
                  (no_resume, no_site, no_field, no_application)
                  λ no_global.
                    first_candidate-Decided k a generated _ _ refl
                      (no_global, no_resume, no_site, no_field, no_application)
                      λ no_generated.
                        Decided.all_absent (no_global, no_resume, no_site, no_field, no_application)
                          no_generated

-- What a resolution answers: of a key that is blank or a credential nothing is ever resolved.
abbrev pub IsAnswer :
    (blank credential allow_sensitive : Bool)
    → Known
    → Result EffectiveValueError ResolvedEffectiveValue
    → Type 0
IsAnswer true credential allow_sensitive k r = r ≡ raise invalid_key
IsAnswer false true allow_sensitive k r = r ≡ raise credential_blocked
IsAnswer false false allow_sensitive k r = Decided k allow_sensitive r

guarded-IsAnswer :
    (blank credential allow_sensitive : Bool) (k : Known)
    (r : Result EffectiveValueError ResolvedEffectiveValue)
    → Decided k allow_sensitive r
    → IsAnswer blank credential allow_sensitive k
        (raise_if blank invalid_key >> (raise_if credential credential_blocked >> r))
guarded-IsAnswer true credential a k r h = refl
guarded-IsAnswer false true a k r h = refl
guarded-IsAnswer false false a k r h = h

module _ (text : TextLibrary) where
  -- A resolution of any key and candidates: a blank key raises ValueError, a credential's key
  -- EffectiveValueBlocked, whatever is known. For another key the first source that knows a value
  -- decides, in the order application, field of the site, site, resume, global, generated: its
  -- value is returned with its source, to be reviewed if it asks for it, is sensitive or was
  -- generated; or, if it is sensitive without permission, EffectiveValueBlocked is raised and no
  -- later source is asked. EffectiveValueNotFound is raised only if no source knows a value.
  pub resolve_effective_autofill_value-IsAnswer :
      (value_key : String) (k : Known) (allow_sensitive : Bool)
      → IsAnswer
          (is_blank text value_key)
          (is_credential text value_key)
          allow_sensitive
          k
          (resolve_effective_autofill_value text value_key k allow_sensitive)
  unfolding resolve_effective_autofill_value
  resolve_effective_autofill_value-IsAnswer value_key k a =
      guarded-IsAnswer (is_blank text value_key) (is_credential text value_key) a k _
        (candidates-Decided k a)
