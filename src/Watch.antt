-- ===== src/Watch.antt =====
-- The command `watch` of `src/main.rs`: what one notification of the pool makes the program do, from the
-- position that it reads again to the rows that it writes. Each file is one part of the loop body.
pub mod Text
pub mod Price
pub mod Figures
pub mod Tables
pub mod Feeds
pub mod State
pub mod Gate
pub mod Decide
pub mod Tick
