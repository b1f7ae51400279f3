-- ===== src/Policy/Submission.antt =====
-- domain/policy.py: what an automatic submission of prepared answers rests on.
use mathlib.Core.List.{Memᴰ}
use job_searching_assistant.Prelude.{
  ◌≡◌, refl, Bool, true, false, ◌&&◌, not, Option, some, none, List, [], ◌∷◌, String, all,
  filter_by, Pairwise, elem, All-map, All-of_Mem, mem-of_filter_by, both-true, arith, is_some,
  string_eq,
}
use job_searching_assistant.Prelude.Dict.{lookup, lookup-AllItems, assign_all-AllItems}
use job_searching_assistant.Policy.{
  SubmissionMode, automatic, ProfileFact, ApplicationQuestion, PreparedAnswer, sensitive_categories,
  verified_fact_by_name, answer_with, prepare_answers, can_submit,
}

module _ (casefold : String → String) where
  -- A prepared answer that no person need look at: it fills in the question's field with the value
  -- of a verified fact of the profile that is named like the question's category, and names that
  -- fact. The category, as it is written, is not one of the sensitive ones.
  pub record IsAnswered (facts : List ProfileFact) (q : ApplicationQuestion) (a : PreparedAnswer)
      : Type 0 where
    pub fact : ProfileFact
    pub is_fact : Memᴰ fact facts
    pub is_verified : fact.is_verified ≡ true
    pub is_named : casefold fact.name ≡ casefold q.semantic_category
    pub not_sensitive : elem q.semantic_category sensitive_categories ≡ false
    pub of_field : a.field_id ≡ q.field_id
    pub is_value : a.answer ≡ some fact.value
    pub is_source : a.source_fact_name ≡ some fact.name
    pub no_review : a.requires_review ≡ false

  IsKnown : List ProfileFact → String → ProfileFact → Type 0
  IsKnown facts k f = Memᴰ f facts × (f.is_verified ≡ true) × (casefold f.name ≡ k)

  found-IsKnown :
      (facts : List ProfileFact) (k : String) (f : ProfileFact)
      → lookup k (verified_fact_by_name casefold facts) ≡ some f
      → IsKnown facts k f
  unfolding verified_fact_by_name IsKnown
  found-IsKnown facts k f h =
      lookup-AllItems (IsKnown facts) k f _
        (assign_all-AllItems (IsKnown facts) _ []
          (All-map (λ p. IsKnown facts p.0 p.1) (λ f'. (casefold f'.name, f'))
            (filter_by (λ f'. f'.is_verified) facts)
            (All-of_Mem _ (filter_by (λ f'. f'.is_verified) facts) λ f' m.
              let (m', t) = mem-of_filter_by (λ g. g.is_verified) facts f' m in (m', t, refl)))
          tt)
        h

  answered :
      (facts : List ProfileFact) (q : ApplicationQuestion) (o : Option ProfileFact)
      → lookup (casefold q.semantic_category) (verified_fact_by_name casefold facts) ≡ o
      → (let a = answer_with casefold o q in is_some a.answer && not a.requires_review) ≡ true
      → IsAnswered facts q (answer_with casefold o q)
  unfolding answer_with IsKnown
  answered facts q none e h = cc
  answered facts q (some fact) e h =
      let (is_fact, verified, named) = found-IsKnown facts (casefold q.semantic_category) fact e in
      record {
        fact = fact;
        is_fact = is_fact;
        is_verified = verified;
        is_named = named;
        not_sensitive = ground arith;
        of_field = refl;
        is_value = refl;
        is_source = refl;
        no_review = ground arith;
      }

  all-IsAnswered :
      (facts : List ProfileFact) (questions : List ApplicationQuestion)
      → all
          (λ a. is_some a.answer && not a.requires_review)
          (prepare_answers casefold questions facts)
        ≡ true
      → Pairwise (IsAnswered facts) questions (prepare_answers casefold questions facts)
  unfolding prepare_answers
  all-IsAnswered facts [] h = tt
  all-IsAnswered facts (q ∷ questions) h =
      let (first, rest) = both-true _ _ h in
      (answered facts q _ refl first, all-IsAnswered facts questions rest)

  -- If the answers that were prepared for the questions of an application may be submitted, then
  -- the mode is automatic, the source is authorized, and every question, required or not, has in
  -- its place the prepared answer of its field, which is the value of a verified fact of the
  -- profile and names this fact. The fact's name is the question's category but for case, and the
  -- category, as it is written, is not in the list of sensitive ones.
  pub can_submit-IsAnswered :
      (mode : SubmissionMode) (questions : List ApplicationQuestion) (facts : List ProfileFact)
      (authorized : Bool)
      → can_submit mode (prepare_answers casefold questions facts) authorized ≡ true
      → (mode ≡ automatic)
        × (authorized ≡ true)
        × Pairwise (IsAnswered facts) questions (prepare_answers casefold questions facts)
  unfolding can_submit
  can_submit-IsAnswered automatic questions facts authorized h =
      let (allowed, rest) = both-true authorized _ h in
      (refl, allowed, all-IsAnswered facts questions rest)
  can_submit-IsAnswered _ questions facts authorized h = cc
