-- ===== src/Chain.antt =====
-- What the program reads from the chain: the RPC client (`src/rpc.rs`) and the margin of a Drift account
-- (`src/strategy/risk_monitor.rs`). What the node answers is a parameter.
pub mod Rpc
pub mod Metadata
pub mod Drift
