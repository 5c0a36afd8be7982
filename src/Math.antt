-- ===== src/Math.antt =====
-- The pure arithmetic of `src/math` and of the integer parts of `src/analytics`.
pub mod Fees
pub mod Price
pub mod Il
pub mod Metrics
pub mod Amounts
pub mod Greeks
