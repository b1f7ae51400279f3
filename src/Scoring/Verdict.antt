-- ===== src/Scoring/Verdict.antt =====
-- matching/scoring.py: the status, the score and the explanation that `score` gives agree.
use job_searching_assistant.Prelude.{◌≤◌, ◌<◌, ◌≡◌, ◌⊎◌, [], ◌∷◌, arith, length}
use job_searching_assistant.Scoring.Levels.{
  EligibilityStatus, eligible, review, ineligible, needs_confirmation,
}
use job_searching_assistant.Scoring.Arithmetic.{Arithmetic}
use job_searching_assistant.Scoring.Sums.{Levels, Assessments}
use job_searching_assistant.Scoring.Score.{
  DeterministicScore, Findings, all_supported, eligibility, apply_caps, explain, score_with, score,
}

abbrev pub IsVerdict : {F : Type 0} → EligibilityStatus → DeterministicScore F → Type 0
IsVerdict ineligible s = s.final_score ≡ 0
IsVerdict needs_confirmation s = (s.hard_blockers ≡ []) × (0 < length s.hard_blockers_unresolved)
IsVerdict review s =
    (s.hard_blockers ≡ [])
    × (s.hard_blockers_unresolved ≡ [])
    × ((s.blocker_count ≡ 0) ⊎ (s.final_score ≤ 20))
IsVerdict eligible s =
    (s.hard_blockers ≡ [])
    × (s.hard_blockers_unresolved ≡ [])
    × (s.blocker_count ≡ 0)
    × (s.missing_required_count ≡ 0)
    × (s.final_score ≡ s.raw_score_before_blockers)
    × (s.blocker_penalty ≡ 0)
    × (s.explanation ≡ all_supported ∷ [])

module _ (ar : Arithmetic) where
  score_with-IsVerdict :
      (xs : Assessments ar) (levels : Levels) (f : Findings ar.Float)
      → let s = score_with ar xs levels f in
        IsVerdict s.eligibility_status s
        × (s.final_score ≤ s.raw_score_before_blockers)
        × (s.raw_score_before_blockers ≤ 100)
  unfolding score_with eligibility apply_caps explain
  score_with-IsVerdict xs levels f = ground arith

  -- The score of any assessments, with any arithmetic: it is at most the score before blockers,
  -- which is at most 100. If the status is INELIGIBLE, the score is 0; if it is
  -- NEEDS_CONFIRMATION, no hard blocker is confirmed and one is unresolved; if it is REVIEW, there
  -- is no hard blocker, and with a blocker the score is at most 20; if it is ELIGIBLE, there is no
  -- blocker and no missing required requirement, nothing is taken off the score, and the
  -- explanation says that all is supported.
  pub score-IsVerdict :
      (xs : Assessments ar)
      → let s = score ar xs in
        IsVerdict s.eligibility_status s
        × (s.final_score ≤ s.raw_score_before_blockers)
        × (s.raw_score_before_blockers ≤ 100)
  unfolding score
  score-IsVerdict xs = score_with-IsVerdict xs _ _
