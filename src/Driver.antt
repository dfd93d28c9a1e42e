-- ===== src/Driver.antt =====
-- The package driver (driver/).
pub mod Registry
pub mod Default
