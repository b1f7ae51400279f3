-- ===== src/Scoring.antt =====
-- matching/scoring.py: the deterministic score of a vacancy's requirements. Levels, Requirements,
-- Evidence and Entailment hold the enumerations, Arithmetic the numbers, Assessment what is known
-- of one requirement, Sums and Score the scorer.
pub mod Levels
pub mod Requirements
pub mod Evidence
pub mod Entailment
pub mod Arithmetic
pub mod Assessment
pub mod Sums
pub mod Score
pub mod Verdict
pub mod Bounds
pub mod Unknown
pub mod Examples
