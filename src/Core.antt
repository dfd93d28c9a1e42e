-- ===== src/Core.antt =====
-- The root package benefit: normalized data, requests and results, and their validation.
pub mod Identifier
pub mod Diagnostic
pub mod Status
pub mod Money
pub mod Outcome
pub mod Constraint
pub mod Operation
pub mod Info
pub mod Results
pub mod Correlation
pub mod Config
pub mod Driver
