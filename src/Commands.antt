-- ===== src/Commands.antt =====
-- The commands of `src/main.rs`, as functions of their arguments and of what the program is given from
-- outside.
pub mod Backfill
