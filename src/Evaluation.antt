-- ===== src/Evaluation.antt =====
-- The package evaluation (evaluation/): local policies over constraints.
pub mod Status
pub mod Operation
pub mod Eligibility
