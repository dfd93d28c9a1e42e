-- ===== src/Discount.antt =====
-- The package discount (discount/): monetary outcomes in integer minor units.
pub mod Calculate
pub mod Resolve
pub mod Failures
