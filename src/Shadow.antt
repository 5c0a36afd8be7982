-- ===== src/Shadow.antt =====
-- The shadow mode: `src/execution/shadow_guard.rs`, the table `shadow_rebalances` of
-- `src/storage/writer.rs`, and the gate before the live mode in `src/main.rs`.
pub mod Gate
