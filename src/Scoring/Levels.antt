-- ===== src/Scoring/Levels.antt =====
-- matching/scoring.py: the levels of a match and of eligibility.
use job_searching_assistant.Prelude.{
  ℕ, ◌≡◌, refl, ◌↔◌, Bool, true, PyEq, nat_beq, index_beq_iff, if◌then◌else◌,
}

pub data MatchLevel : Type 0 where
  exact strong partial related theoretical_only insufficient_evidence evaluation_error missing
        blocker unresolved_blocker :
      MatchLevel

abbrev match_level_index : MatchLevel → ℕ
match_level_index exact = 0
match_level_index strong = 1
match_level_index partial = 2
match_level_index related = 3
match_level_index theoretical_only = 4
match_level_index insufficient_evidence = 5
match_level_index evaluation_error = 6
match_level_index missing = 7
match_level_index blocker = 8
match_level_index unresolved_blocker = 9

abbrev match_level_of_index : ℕ → MatchLevel
match_level_of_index n =
    if nat_beq n 0
    then exact
    else if nat_beq n 1
    then strong
    else if nat_beq n 2
    then partial
    else if nat_beq n 3
    then related
    else if nat_beq n 4
    then theoretical_only
    else if nat_beq n 5
    then insufficient_evidence
    else if nat_beq n 6
    then evaluation_error
    else if nat_beq n 7
    then missing
    else if nat_beq n 8
    then blocker
    else unresolved_blocker

match_level_of_index-match_level_index :
    (x : MatchLevel) → match_level_of_index (match_level_index x) ≡ x
match_level_of_index-match_level_index exact = refl
match_level_of_index-match_level_index _ = refl

abbrev pub match_level_beq : MatchLevel → MatchLevel → Bool
match_level_beq a b = nat_beq (match_level_index a) (match_level_index b)

pub match_level_beq_iff : (a b : MatchLevel) → (match_level_beq a b ≡ true) ↔ (a ≡ b)
match_level_beq_iff =
    index_beq_iff match_level_index match_level_of_index match_level_of_index-match_level_index

instance abbrev pub match_level_eq : PyEq MatchLevel
match_level_eq = record { test = match_level_beq; agrees = match_level_beq_iff }

pub data EligibilityStatus : Type 0 where
  eligible review ineligible needs_confirmation : EligibilityStatus
