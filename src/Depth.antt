-- ===== src/Depth.antt =====
-- The liquidity around the current tick: `src/analytics/depth.rs`.
pub mod Distribution
