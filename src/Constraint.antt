-- ===== src/Constraint.antt =====
-- The package constraint (constraint/): evaluators, their registry and the built-in evaluators.
pub mod Types
pub mod Registry
pub mod Builtin
pub mod Default
