-- ===== src/Risk.antt =====
-- The risk limits of a watched pool: `src/strategy/risk_monitor.rs` and its use in the watch loop of
-- `src/main.rs`.
pub mod Monitor
pub mod Store
pub mod Session
