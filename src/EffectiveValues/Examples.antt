-- ===== src/EffectiveValues/Examples.antt =====
-- A salary that the user gave for one site, behind a sensitive value of the application.
use job_searching_assistant.Prelude.{◌≡◌, refl, Bool, true, false, some, none, String, ok, raise}
use job_searching_assistant.EffectiveValues.{
  EffectiveValueSource, credential_blocked, sensitive_blocked, EffectiveValueCandidate, TextLibrary,
  Known, resolved, is_blank, is_credential, resolve_effective_autofill_value,
}
use job_searching_assistant.EffectiveValues.Precedence.{
  IsAnswer, resolve_effective_autofill_value-IsAnswer,
}

abbrev plain_text : TextLibrary
plain_text = record { strip = λ s. s; casefold = λ s. s; lower = λ s. s; upper = λ s. s }

abbrev candidate : String → Bool → EffectiveValueCandidate
candidate value sensitive = record {
  value = value;
  source_record_id = none;
  is_sensitive = sensitive;
  requires_review = false;
}

abbrev salary : Known
salary = record {
  application_override = none;
  site_field_override = some (candidate "5000" true);
  site_override = none;
  resume_value = none;
  global_value = some (candidate "4000" false);
  generated_value = none;
}

blocks : resolve_effective_autofill_value plain_text "salary" salary false ≡ raise sensitive_blocked
unfolding resolve_effective_autofill_value
blocks = refl

resolves :
    resolve_effective_autofill_value plain_text "salary" salary true
    ≡ ok (resolved EffectiveValueSource.site_field_override (candidate "5000" true))
unfolding resolve_effective_autofill_value
resolves = refl

no_credentials :
    resolve_effective_autofill_value plain_text "site_password" salary true
    ≡ raise credential_blocked
unfolding resolve_effective_autofill_value
no_credentials = refl

resolve_effective_autofill_value-IsAnswer_example :
    IsAnswer
      (is_blank plain_text "salary")
      (is_credential plain_text "salary")
      false
      salary
      (resolve_effective_autofill_value plain_text "salary" salary false)
resolve_effective_autofill_value-IsAnswer_example =
    resolve_effective_autofill_value-IsAnswer plain_text "salary" salary false
