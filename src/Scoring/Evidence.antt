-- ===== src/Scoring/Evidence.antt =====
-- matching/extraction.py and matching/entailment.py: what the evidence for a requirement shows.
use job_searching_assistant.Prelude.{
  ℕ, ◌≡◌, refl, ◌↔◌, Bool, true, PyEq, nat_beq, index_beq_iff, if◌then◌else◌,
}

pub data ExperienceLevel : Type 0 where
  hands_on production project theoretical conceptual related unknown : ExperienceLevel

abbrev experience_level_index : ExperienceLevel → ℕ
experience_level_index hands_on = 0
experience_level_index production = 1
experience_level_index project = 2
experience_level_index theoretical = 3
experience_level_index conceptual = 4
experience_level_index related = 5
experience_level_index unknown = 6

abbrev experience_level_of_index : ℕ → ExperienceLevel
experience_level_of_index n =
    if nat_beq n 0
    then hands_on
    else if nat_beq n 1
    then production
    else if nat_beq n 2
    then project
    else if nat_beq n 3
    then theoretical
    else if nat_beq n 4
    then conceptual
    else if nat_beq n 5
    then related
    else unknown

experience_level_of_index-experience_level_index :
    (x : ExperienceLevel) → experience_level_of_index (experience_level_index x) ≡ x
experience_level_of_index-experience_level_index hands_on = refl
experience_level_of_index-experience_level_index _ = refl

abbrev pub experience_level_beq : ExperienceLevel → ExperienceLevel → Bool
experience_level_beq a b = nat_beq (experience_level_index a) (experience_level_index b)

pub experience_level_beq_iff : (a b : ExperienceLevel) → (experience_level_beq a b ≡ true) ↔ (a ≡ b)
experience_level_beq_iff =
    index_beq_iff experience_level_index experience_level_of_index
      experience_level_of_index-experience_level_index

instance abbrev pub experience_level_eq : PyEq ExperienceLevel
experience_level_eq = record { test = experience_level_beq; agrees = experience_level_beq_iff }
