-- ===== src/EffectiveValues.antt =====
-- domain/effective_values.py: which of the values that are known for a field of a form is filled in.
pub mod Precedence
mod Examples
use Prim.Native.Char.{Char, code}
use Prim.Native.String.{[], ◌∷◌}
use mathlib.Core.List.{List}
use job_searching_assistant.Prelude.{
  ◌≡◌, Bool, true, false, ◌&&◌, ◌||◌, not, Option, some, none, String, nat_beq, ◌==◌, string_eq,
  if◌then◌else◌, Result, ok, raise, ◌>>◌, raise_if,
}

pub data EffectiveValueSource : Type 0 where
  application_override site_field_override site_override resume global generated :
      EffectiveValueSource

pub data EffectiveValueError : Type 0 where
  invalid_key : EffectiveValueError  -- ValueError
  invalid_transformation : EffectiveValueError  -- ValueError
  credential_blocked : EffectiveValueError  -- EffectiveValueBlocked, of a key
  sensitive_blocked : EffectiveValueError  -- EffectiveValueBlocked, of a value
  not_found : EffectiveValueError  -- EffectiveValueNotFound

pub record EffectiveValueCandidate : Type 0 where
  pub value : String
  pub source_record_id : Option String
  pub is_sensitive : Bool
  pub requires_review : Bool

pub record ResolvedEffectiveValue : Type 0 where
  pub value : String
  pub source : EffectiveValueSource
  pub source_record_id : Option String
  pub is_sensitive : Bool
  pub requires_review : Bool

-- Python's `strip`, `casefold`, `lower` and `upper`.
pub record TextLibrary : Type 0 where
  pub strip : String → String
  pub casefold : String → String
  pub lower : String → String
  pub upper : String → String

-- `s.startswith(prefix)`
abbrev pub starts_with : String → String → Bool
starts_with s [] = true
starts_with [] (d ∷ prefix) = false
starts_with (c ∷ s) (d ∷ prefix) = nat_beq (code c) (code d) && starts_with s prefix

-- `part in s`
abbrev pub contains : String → String → Bool
contains part [] = starts_with [] part
contains part (c ∷ s) = starts_with (c ∷ s) part || contains part s

abbrev pub Candidates : Type 0
Candidates = List (EffectiveValueSource × Option EffectiveValueCandidate)

abbrev pub is_generated : EffectiveValueSource → Bool
is_generated EffectiveValueSource.generated = true
is_generated _ = false

abbrev pub resolved : EffectiveValueSource → EffectiveValueCandidate → ResolvedEffectiveValue
resolved source candidate = record {
  value = candidate.value;
  source = source;
  source_record_id = candidate.source_record_id;
  is_sensitive = candidate.is_sensitive;
  requires_review = candidate.requires_review || candidate.is_sensitive || is_generated source;
}

-- The loop over the candidates.
unfoldable pub first_candidate :
    Bool → Candidates → Result EffectiveValueError ResolvedEffectiveValue
first_candidate allow_sensitive List.[] = raise not_found
first_candidate allow_sensitive (List.◌∷◌ (source, none) candidates) =
    first_candidate allow_sensitive candidates
first_candidate allow_sensitive (List.◌∷◌ (source, some candidate) candidates) =
    raise_if (candidate.is_sensitive && not allow_sensitive) sensitive_blocked
    >> ok (resolved source candidate)

-- The candidates of one key, the named arguments of the call.
pub record Known : Type 0 where
  pub application_override : Option EffectiveValueCandidate
  pub site_field_override : Option EffectiveValueCandidate
  pub site_override : Option EffectiveValueCandidate
  pub resume_value : Option EffectiveValueCandidate
  pub global_value : Option EffectiveValueCandidate
  pub generated_value : Option EffectiveValueCandidate

abbrev pub candidates_of : Known → Candidates
candidates_of k =
    List.◌∷◌ (EffectiveValueSource.application_override, k.application_override)
      (List.◌∷◌ (EffectiveValueSource.site_field_override, k.site_field_override)
        (List.◌∷◌ (EffectiveValueSource.site_override, k.site_override)
          (List.◌∷◌ (EffectiveValueSource.resume, k.resume_value)
            (List.◌∷◌ (EffectiveValueSource.global, k.global_value)
              (List.◌∷◌ (EffectiveValueSource.generated, k.generated_value) List.[])))))

abbrev has_text : String → Bool
has_text [] = false
has_text (c ∷ s) = true

module _ (text : TextLibrary) where
  abbrev pub is_blank : String → Bool
  is_blank key = not (has_text (text.strip key))

  abbrev pub is_credential : String → Bool
  is_credential key =
      let normalized = text.casefold (text.strip key) in
      contains "password" normalized || starts_with normalized "credentials."

  unfoldable pub resolve_effective_autofill_value :
      String → Known → Bool → Result EffectiveValueError ResolvedEffectiveValue
  unfolding first_candidate
  resolve_effective_autofill_value value_key k allow_sensitive =
      raise_if (is_blank value_key) invalid_key
      >> (raise_if (is_credential value_key) credential_blocked
          >> first_candidate allow_sensitive (candidates_of k))

  -- `kind` is what the transformation holds under "kind", if anything.
  unfoldable pub apply_effective_value_transformation :
      String → Option String → Result EffectiveValueError String
  apply_effective_value_transformation value none = ok value
  apply_effective_value_transformation value (some kind) =
      if kind == "identity"
      then ok value
      else if kind == "trim"
      then ok (text.strip value)
      else if kind == "lowercase"
      then ok (text.lower value)
      else if kind == "uppercase"
      then ok (text.upper value)
      else raise invalid_transformation
