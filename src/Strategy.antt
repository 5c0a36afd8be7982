-- ===== src/Strategy.antt =====
-- The rebalance decision (`src/strategy/signal.rs`) and the dry-run plan of a new range
-- (`src/execution/rebalance.rs`).
pub mod Signal
pub mod Plan
