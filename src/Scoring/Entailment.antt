-- ===== src/Scoring/Entailment.antt =====
-- matching/entailment.py: whether the evidence entails a claim.
use job_searching_assistant.Prelude.{
  ℕ, ◌≡◌, refl, ◌↔◌, Bool, true, PyEq, nat_beq, index_beq_iff, if◌then◌else◌,
}

pub data EntailmentRelation : Type 0 where
  entailed partial related_but_insufficient insufficient_evidence contradicted evaluation_error
        unknown :
      EntailmentRelation

abbrev entailment_relation_index : EntailmentRelation → ℕ
entailment_relation_index entailed = 0
entailment_relation_index partial = 1
entailment_relation_index related_but_insufficient = 2
entailment_relation_index insufficient_evidence = 3
entailment_relation_index contradicted = 4
entailment_relation_index evaluation_error = 5
entailment_relation_index unknown = 6

abbrev entailment_relation_of_index : ℕ → EntailmentRelation
entailment_relation_of_index n =
    if nat_beq n 0
    then entailed
    else if nat_beq n 1
    then partial
    else if nat_beq n 2
    then related_but_insufficient
    else if nat_beq n 3
    then insufficient_evidence
    else if nat_beq n 4
    then contradicted
    else if nat_beq n 5
    then evaluation_error
    else unknown

entailment_relation_of_index-entailment_relation_index :
    (x : EntailmentRelation) → entailment_relation_of_index (entailment_relation_index x) ≡ x
entailment_relation_of_index-entailment_relation_index entailed = refl
entailment_relation_of_index-entailment_relation_index _ = refl

abbrev pub entailment_relation_beq : EntailmentRelation → EntailmentRelation → Bool
entailment_relation_beq a b = nat_beq (entailment_relation_index a) (entailment_relation_index b)

pub entailment_relation_beq_iff :
    (a b : EntailmentRelation) → (entailment_relation_beq a b ≡ true) ↔ (a ≡ b)
entailment_relation_beq_iff =
    index_beq_iff entailment_relation_index entailment_relation_of_index
      entailment_relation_of_index-entailment_relation_index

instance abbrev pub entailment_relation_eq : PyEq EntailmentRelation
entailment_relation_eq = record {
  test = entailment_relation_beq;
  agrees = entailment_relation_beq_iff;
}
