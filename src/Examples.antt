-- ===== src/Examples.antt =====
-- Runs of the definitions on concrete inputs, and the theorems at inputs that meet their hypotheses.
mod Math
mod Strategy
mod Risk
mod Bot
mod Borsh
mod Accounts
mod Raydium
mod Backtest
mod Simulation
mod Chain
mod Feeds
mod Research
mod Exchange
mod Shadow
mod Depth
mod Orca
mod Storage
mod Watch
