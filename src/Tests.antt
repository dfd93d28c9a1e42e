-- ===== src/Tests.antt =====
-- Runs of the definitions on concrete values, and examples of the theorems.
pub mod Discount
pub mod Core
pub mod Evaluation
pub mod Constraint
pub mod Driver
pub mod Drivertest
pub mod Conformance
pub mod Sync
pub mod Registries
pub mod Shared
pub mod Pointers
