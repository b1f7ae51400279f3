-- ===== src/Scoring/Unknown.antt =====
-- matching/scoring.py: a hard blocker whose evidence is contradicted, or was judged UNKNOWN.
use job_searching_assistant.Prelude.{
  ◌≡◌, ◌≢◌, refl, ap, ◌∙◌, Bool, true, ◌&&◌, some, List, [], ◌∷◌, ◌++◌, String, string_eq, elem,
  filter_by, map, map-append, All, All-map, arith, beq_refl,
}
use job_searching_assistant.Prelude.Dict.{lookup, assign_all, lookup-assign_all_last}
use job_searching_assistant.Scoring.Levels.{MatchLevel, missing, ineligible}
use job_searching_assistant.Scoring.Entailment.{
  EntailmentRelation, contradicted, unknown, entailment_relation_eq,
}
use job_searching_assistant.Scoring.Arithmetic.{Arithmetic}
use job_searching_assistant.Scoring.Assessment.{
  RequirementAssessment, effective_match_level, entailed_level, downgraded,
}
use job_searching_assistant.Scoring.Sums.{Levels, Assessments, effective_levels, level_of}
use job_searching_assistant.Scoring.Score.{
  Findings, find_all, eligibility, apply_caps, score_with, score, nonempty, is_unmet,
}

entailed_level-missing :
    (relation : EntailmentRelation)
    → elem relation (contradicted ∷ unknown ∷ []) ≡ true
    → entailed_level relation ≡ missing
unfolding entailed_level
entailed_level-missing relation h = ground arith

confirmed-test :
    (hard : Bool) (level : MatchLevel)
    → hard ≡ true
    → level ≡ missing
    → (hard && is_unmet level) ≡ true
confirmed-test hard level h e = rw (h, e) refl

module _ {F : Type 0} where
  level_of-lookup :
      (levels : Levels) (a : RequirementAssessment F) (l : MatchLevel)
      → lookup a.requirement_id levels ≡ some l
      → level_of levels a ≡ l
  unfolding level_of
  level_of-lookup levels a l h = rw (h, level_of) refl

  level_of-effective :
      (ys zs : List (RequirementAssessment F)) (a : RequirementAssessment F)
      → All (λ b. b.requirement_id ≢ a.requirement_id) zs
      → level_of (effective_levels (ys ++ a ∷ zs)) a ≡ effective_match_level a
  unfolding effective_levels
  level_of-effective ys zs a h =
      let pair : RequirementAssessment F → String × MatchLevel =
        λ b. (b.requirement_id, effective_match_level b) in
      level_of-lookup (effective_levels (ys ++ a ∷ zs)) a (effective_match_level a) (
        ap (λ pairs. lookup a.requirement_id (assign_all pairs [])) (map-append pair ys (a ∷ zs))
        ∙ lookup-assign_all_last a.requirement_id (effective_match_level a) (map pair ys)
            (map pair zs) [] (All-map (λ p. p.0 ≢ a.requirement_id) pair zs h))

  downgraded-missing : (a : RequirementAssessment F) → downgraded a missing ≡ missing
  unfolding downgraded
  downgraded-missing a = ground arith

  effective-missing :
      (a : RequirementAssessment F) (relation : EntailmentRelation)
      → a.entailment_relation ≡ some relation
      → elem relation (contradicted ∷ unknown ∷ []) ≡ true
      → effective_match_level a ≡ missing
  unfolding effective_match_level
  effective-missing a relation e h =
      rw (e, entailed_level-missing relation h) (downgraded-missing a)

  -- Of the assessments that pass a test, the ids.
  elem-ids :
      (p : RequirementAssessment F → Bool) (ys zs : List (RequirementAssessment F))
      (a : RequirementAssessment F)
      → p a ≡ true
      → elem a.requirement_id (map (λ b. b.requirement_id) (filter_by p (ys ++ a ∷ zs))) ≡ true
  elem-ids p [] zs a h = rw h (rw (beq_refl a.requirement_id) refl)
  elem-ids p (y ∷ ys) zs a h = ground (arith, elem-ids p ys zs a h)

  nonempty-ids :
      (id : String) (xs : List (RequirementAssessment F))
      → elem id (map (λ b. b.requirement_id) xs) ≡ true
      → nonempty xs ≡ true
  nonempty-ids id [] h = cc
  nonempty-ids id (x ∷ xs) h = refl

module _ (ar : Arithmetic) where
  score_with-blocked :
      (xs : Assessments ar) (levels : Levels) (f : Findings ar.Float)
      → nonempty f.confirmed_hard_blockers ≡ true
      → let s = score_with ar xs levels f in
        (s.eligibility_status ≡ ineligible) × (s.final_score ≡ 0)
  unfolding score_with eligibility apply_caps
  score_with-blocked xs levels f h = ground arith

  -- If an assessment is a hard blocker, its evidence was judged CONTRADICTED or UNKNOWN, and no
  -- later assessment has its id, then it is reported as a confirmed hard blocker, the vacancy is
  -- INELIGIBLE and the score is 0. So UNKNOWN is no neutral judgement.
  pub score-unknown_blocks :
      (ys zs : Assessments ar) (a : RequirementAssessment ar.Float) (relation : EntailmentRelation)
      → All (λ b. b.requirement_id ≢ a.requirement_id) zs
      → a.is_hard_blocker ≡ true
      → a.entailment_relation ≡ some relation
      → elem relation (contradicted ∷ unknown ∷ []) ≡ true
      → let s = score ar (ys ++ a ∷ zs) in
        (elem a.requirement_id s.hard_blockers ≡ true)
        × (s.eligibility_status ≡ ineligible)
        × (s.final_score ≡ 0)
  unfolding score find_all
  score-unknown_blocks ys zs a relation later hard e h =
      let levels = effective_levels (ys ++ a ∷ zs) in
      let unmet : level_of levels a ≡ missing =
        level_of-effective ys zs a later ∙ effective-missing a relation e h in
      let found =
        elem-ids (λ b. b.is_hard_blocker && is_unmet (level_of levels b)) ys zs a
          (confirmed-test _ _ hard unmet) in
      let (status, nought) =
        score_with-blocked _ levels _ (nonempty-ids a.requirement_id _ found) in
      (found, status, nought)
