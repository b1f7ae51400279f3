-- ===== src/Scoring/Requirements.antt =====
-- matching/extraction.py: what a vacancy requires, and how important it is.
use job_searching_assistant.Prelude.{
  ℕ, ◌≡◌, refl, ◌↔◌, Bool, true, PyEq, nat_beq, index_beq_iff, if◌then◌else◌,
}

pub data RequirementType : Type 0 where
  hard_skill soft_skill role seniority experience language education location work_format
        work_authorization compensation domain responsibility other :
      RequirementType

abbrev requirement_type_index : RequirementType → ℕ
requirement_type_index hard_skill = 0
requirement_type_index soft_skill = 1
requirement_type_index role = 2
requirement_type_index seniority = 3
requirement_type_index experience = 4
requirement_type_index language = 5
requirement_type_index education = 6
requirement_type_index location = 7
requirement_type_index work_format = 8
requirement_type_index work_authorization = 9
requirement_type_index compensation = 10
requirement_type_index domain = 11
requirement_type_index responsibility = 12
requirement_type_index other = 13

abbrev requirement_type_of_index : ℕ → RequirementType
requirement_type_of_index n =
    if nat_beq n 0
    then hard_skill
    else if nat_beq n 1
    then soft_skill
    else if nat_beq n 2
    then role
    else if nat_beq n 3
    then seniority
    else if nat_beq n 4
    then experience
    else if nat_beq n 5
    then language
    else if nat_beq n 6
    then education
    else if nat_beq n 7
    then location
    else if nat_beq n 8
    then work_format
    else if nat_beq n 9
    then work_authorization
    else if nat_beq n 10
    then compensation
    else if nat_beq n 11
    then domain
    else if nat_beq n 12
    then responsibility
    else other

requirement_type_of_index-requirement_type_index :
    (x : RequirementType) → requirement_type_of_index (requirement_type_index x) ≡ x
requirement_type_of_index-requirement_type_index hard_skill = refl
requirement_type_of_index-requirement_type_index _ = refl

abbrev pub requirement_type_beq : RequirementType → RequirementType → Bool
requirement_type_beq a b = nat_beq (requirement_type_index a) (requirement_type_index b)

pub requirement_type_beq_iff : (a b : RequirementType) → (requirement_type_beq a b ≡ true) ↔ (a ≡ b)
requirement_type_beq_iff =
    index_beq_iff requirement_type_index requirement_type_of_index
      requirement_type_of_index-requirement_type_index

instance abbrev pub requirement_type_eq : PyEq RequirementType
requirement_type_eq = record { test = requirement_type_beq; agrees = requirement_type_beq_iff }

pub data RequirementImportance : Type 0 where
  required preferred optional unknown : RequirementImportance

abbrev importance_index : RequirementImportance → ℕ
importance_index required = 0
importance_index preferred = 1
importance_index optional = 2
importance_index unknown = 3

abbrev importance_of_index : ℕ → RequirementImportance
importance_of_index n =
    if nat_beq n 0
    then required
    else if nat_beq n 1
    then preferred
    else if nat_beq n 2
    then optional
    else unknown

importance_of_index-importance_index :
    (x : RequirementImportance) → importance_of_index (importance_index x) ≡ x
importance_of_index-importance_index required = refl
importance_of_index-importance_index _ = refl

abbrev pub importance_beq : RequirementImportance → RequirementImportance → Bool
importance_beq a b = nat_beq (importance_index a) (importance_index b)

pub importance_beq_iff : (a b : RequirementImportance) → (importance_beq a b ≡ true) ↔ (a ≡ b)
importance_beq_iff =
    index_beq_iff importance_index importance_of_index importance_of_index-importance_index

instance abbrev pub importance_eq : PyEq RequirementImportance
importance_eq = record { test = importance_beq; agrees = importance_beq_iff }
