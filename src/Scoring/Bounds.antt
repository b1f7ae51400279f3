-- ===== src/Scoring/Bounds.antt =====
-- matching/scoring.py: the sizes of the scores.
use job_searching_assistant.Prelude.{
  ℕ, ◌+◌, ◌*◌, ◌≤◌, ◌≡◌, Bool, false, subst, length, length-filter_by, count_by-le-length,
  filter_by, inl, inr, [], ◌∷◌, arith, Bool-cases, All, All-filter_by, Option,
}
use job_searching_assistant.Scoring.Levels.{MatchLevel}
use job_searching_assistant.Scoring.Requirements.{RequirementType, RequirementImportance}
use job_searching_assistant.Scoring.Arithmetic.{Arithmetic, IsRounding, exact_limit}
use job_searching_assistant.Scoring.Assessment.{
  RequirementAssessment, match_factor, importance_factor,
}
use job_searching_assistant.Scoring.Sums.{
  Levels, Assessments, level_of, sum, sum_from, matched, important, weighted_score, selected_score,
  percentage, category_score, component_score,
}
use job_searching_assistant.Scoring.Score.{Findings, apply_caps, score_with, score}

match_factor-le : (l : MatchLevel) → match_factor l ≤ 100
unfolding match_factor
match_factor-le MatchLevel.exact = omega arith
match_factor-le MatchLevel.strong = omega arith
match_factor-le MatchLevel.partial = omega arith
match_factor-le MatchLevel.related = omega arith
match_factor-le _ = omega arith

importance_factor-le : (i : RequirementImportance) → importance_factor i ≤ 100
unfolding importance_factor
importance_factor-le RequirementImportance.required = omega arith
importance_factor-le RequirementImportance.preferred = omega arith
importance_factor-le _ = omega arith

module _ (ar : Arithmetic) (r : IsRounding ar) where
  open r use {
    Le, le_trans, nat_le, add_nat, add_mono, mul_factor, mul_nonneg, hundred_nonneg, hundred_mono,
    div_nonneg, div_mono, div_back, rounded_nat, rounded_mono,
  }

  -- From 0 to n.
  abbrev pub IsWithin : ℕ → ar.Float → Type 0
  IsWithin n x = Le (ar.of_nat 0) x × Le x (ar.of_nat n)

  -- What __post_init__ of an assessment and the schema of a requirement check: from 0 to 100.
  abbrev pub IsWeighted : RequirementAssessment ar.Float → Type 0
  IsWeighted a = IsWithin 100 a.weight

  IsWithin-limit : (n : ℕ) (x : ar.Float) → n ≤ exact_limit → IsWithin n x → IsWithin exact_limit x
  IsWithin-limit n x h (low, high) =
      (low, le_trans x _ _ high (nat_le n exact_limit h (omega arith)))

  add_nonneg :
      (x y : ar.Float) → Le (ar.of_nat 0) x → Le (ar.of_nat 0) y → Le (ar.of_nat 0) (ar.add x y)
  add_nonneg x y h k =
      let zero_le = nat_le 0 0 (omega arith) (omega arith) in
      subst (λ z. Le z (ar.add x y)) (add_nat 0 0 (omega arith))
        (add_mono (ar.of_nat 0) x (ar.of_nat 0) y zero_le h zero_le k)

  -- A part of a whole is at most 100 percent of it, also as rounded.
  percent :
      (part whole : ar.Float)
      → Le (ar.of_nat 0) part
      → Le part whole
      → IsWithin exact_limit whole
      → ar.is_zero whole ≡ false
      → ar.rounded (ar.div (ar.mul (ar.of_nat 100) part) whole) ≤ 100
  percent part whole low h (whole_low, whole_high) some_left =
      let part_high = le_trans part whole _ h whole_high in
      let hundred_low = hundred_nonneg part low part_high in
      let (close, exactly) = div_back whole whole_low whole_high some_left in
      let le =
        rounded_mono _ _ (div_nonneg _ whole hundred_low whole_low whole_high some_left)
          (div_mono _ _ whole hundred_low (hundred_mono part whole low h whole_high) whole_low
            whole_high some_left)
          (le_trans _ _ _ close (nat_le 101 exact_limit (omega arith) (omega arith))) in
      omega (arith, le, exactly)

  sum_from-mono :
      (f g : RequirementAssessment ar.Float → ar.Float) (xs : Assessments ar) (t u : ar.Float)
      → All (λ a. Le (ar.of_nat 0) (f a) × Le (f a) (g a)) xs
      → Le (ar.of_nat 0) t
      → Le t u
      → Le (ar.of_nat 0) (sum_from ar f t xs) × Le (sum_from ar f t xs) (sum_from ar g u xs)
  unfolding sum_from
  sum_from-mono f g [] t u h low le = (low, le)
  sum_from-mono f g (a ∷ xs) t u ((f_low, f_le), h) low le =
      sum_from-mono f g xs (ar.add t (f a)) (ar.add u (g a)) h (add_nonneg t (f a) low f_low)
        (add_mono t u (f a) (g a) low le f_low f_le)

  sum_from-IsWithin :
      (f : RequirementAssessment ar.Float → ar.Float) (xs : Assessments ar) (t : ar.Float) (n : ℕ)
      → All (λ a. IsWithin 100 (f a)) xs
      → IsWithin n t
      → n + 100 * length xs ≤ exact_limit
      → IsWithin exact_limit (sum_from ar f t xs)
  unfolding sum_from
  sum_from-IsWithin f [] t n h within few = IsWithin-limit n t (omega arith) within
  sum_from-IsWithin f (a ∷ xs) t n ((low, high), h) (t_low, t_high) few =
      sum_from-IsWithin f xs (ar.add t (f a)) (n + 100) h
        (
          add_nonneg t (f a) t_low low,
          subst (Le (ar.add t (f a))) (add_nat n 100 (omega arith))
              (add_mono t (ar.of_nat n) (f a) (ar.of_nat 100) t_low t_high low high),
        )
        (omega arith)

  matched-le :
      (levels : Levels) (w : RequirementAssessment ar.Float → ar.Float) (xs : Assessments ar)
      → All (λ a. IsWithin 100 (w a)) xs
      → All
          (λ a. Le (ar.of_nat 0) (matched ar levels a (w a)) × Le (matched ar levels a (w a)) (w a))
          xs
  matched-le levels w [] h = tt
  matched-le levels w (a ∷ xs) (within, h) =
      let (low, high) = IsWithin-limit 100 (w a) (omega arith) within in
      let few = match_factor-le (level_of levels a) in
      ((mul_nonneg (w a) _ low high few, mul_factor (w a) _ low high few), matched-le levels w xs h)

  -- The percentage that the matched part of some weights is of their sum.
  matched-percent :
      (levels : Levels) (w : RequirementAssessment ar.Float → ar.Float) (xs : Assessments ar)
      → All (λ a. IsWithin 100 (w a)) xs
      → 100 * length xs ≤ exact_limit
      → ar.is_zero (sum ar w xs) ≡ false
      → ar.rounded (percentage ar (sum ar (λ a. matched ar levels a (w a)) xs) (sum ar w xs)) ≤ 100
  matched-percent levels w xs h few some_left =
      let zero_le = nat_le 0 0 (omega arith) (omega arith) in
      let (low, le) =
        sum_from-mono (λ a. matched ar levels a (w a)) w xs (ar.of_nat 0) (ar.of_nat 0)
          (matched-le levels w xs h) zero_le zero_le in
      percent _ _ low le (sum_from-IsWithin w xs (ar.of_nat 0) 0 h (zero_le, zero_le) (omega arith))
        some_left

  important-IsWithin :
      (xs : Assessments ar) → All IsWeighted xs → All (λ a. IsWithin 100 (important ar a)) xs
  important-IsWithin [] h = tt
  important-IsWithin (a ∷ xs) (within, h) =
      let (low, high) = IsWithin-limit 100 a.weight (omega arith) within in
      let few = importance_factor-le a.importance in
      (
        (
          mul_nonneg a.weight _ low high few,
          le_trans _ _ _ (mul_factor a.weight _ low high few) within.1,
        ),
        important-IsWithin xs h,
      )

  selected_score-le :
      (xs : Assessments ar) (levels : Levels)
      → All IsWeighted xs
      → 100 * length xs ≤ exact_limit
      → selected_score ar xs levels ≤ 100
  unfolding selected_score
  selected_score-le xs levels h few = elim (Bool-cases (ar.is_zero (sum ar (λ a. a.weight) xs))) [
    | inl none_left ↦ rw none_left (omega arith)
    | inr some_left ↦ rw some_left (matched-percent levels (λ a. a.weight) xs h few some_left)
  ]

  weighted_score-le :
      (xs : Assessments ar) (levels : Levels)
      → All IsWeighted xs
      → 100 * length xs ≤ exact_limit
      → ar.rounded (weighted_score ar xs levels) ≤ 100
  unfolding weighted_score
  weighted_score-le xs levels h few = elim (Bool-cases (ar.is_zero (sum ar (important ar) xs))) [
    | inl none_left ↦ rw none_left (omega (arith, rounded_nat 0 (omega arith)))
    | inr some_left ↦
        rw some_left
          (matched-percent levels (important ar) xs (important-IsWithin xs h) few some_left)
  ]

  few-filter_by :
      (p : RequirementAssessment ar.Float → Bool) (xs : Assessments ar)
      → 100 * length xs ≤ exact_limit
      → 100 * length (filter_by p xs) ≤ exact_limit
  few-filter_by p xs few = omega (arith, length-filter_by p xs, count_by-le-length p xs, few)

  category_score-le :
      (xs : Assessments ar) (levels : Levels) (i : RequirementImportance)
      → All IsWeighted xs
      → 100 * length xs ≤ exact_limit
      → category_score ar xs levels i ≤ 100
  unfolding category_score
  category_score-le xs levels i h few =
      selected_score-le _ levels (All-filter_by IsWeighted _ xs h) (few-filter_by _ xs few)

  component_score-le :
      (xs : Assessments ar) (levels : Levels) (t : RequirementType)
      (i : Option RequirementImportance)
      → All IsWeighted xs
      → 100 * length xs ≤ exact_limit
      → component_score ar xs levels t i ≤ 100
  unfolding component_score
  component_score-le xs levels t i h few =
      selected_score-le _ levels (All-filter_by IsWeighted _ xs h) (few-filter_by _ xs few)

  apply_caps-total :
      (f : Findings ar.Float) (missing_count raw : ℕ)
      → let c = apply_caps ar f missing_count raw in c.left + c.penalty ≡ raw
  unfolding apply_caps
  apply_caps-total f missing_count raw = ground arith

  -- If every weight is from 0 to 100, there are at most 2 ^ 53 / 100 requirements and the arithmetic
  -- rounds as floats do, then every partial score is at most 100, and the final score and the
  -- penalty of the blockers add up to the score before blockers: the clamps to 0..100 take nothing
  -- off.
  pub score-IsPercentage :
      (xs : Assessments ar)
      → All IsWeighted xs
      → 100 * length xs ≤ exact_limit
      → let s = score ar xs in
        (s.final_score + s.blocker_penalty ≡ s.raw_score_before_blockers)
        × (s.required_score ≤ 100)
        × (s.preferred_score ≤ 100)
        × (s.bonus_score ≤ 100)
        × (s.hard_skill_score ≤ 100)
        × (s.preferred_skill_score ≤ 100)
        × (s.role_score ≤ 100)
        × (s.seniority_score ≤ 100)
        × (s.experience_score ≤ 100)
        × (s.work_format_score ≤ 100)
        × (s.location_score ≤ 100)
        × (s.domain_score ≤ 100)
        × (s.language_score ≤ 100)
  unfolding score score_with
  score-IsPercentage xs h few = (
    omega (arith, apply_caps-total _ _ _, weighted_score-le xs _ h few),
    category_score-le xs _ _ h few,
    category_score-le xs _ _ h few,
    category_score-le xs _ _ h few,
    component_score-le xs _ _ _ h few,
    component_score-le xs _ _ _ h few,
    component_score-le xs _ _ _ h few,
    component_score-le xs _ _ _ h few,
    component_score-le xs _ _ _ h few,
    component_score-le xs _ _ _ h few,
    component_score-le xs _ _ _ h few,
    component_score-le xs _ _ _ h few,
    component_score-le xs _ _ _ h few,
  )
