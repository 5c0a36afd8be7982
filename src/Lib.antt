-- ===== src/Lib.antt =====
-- Verification of tick-liq, a manager of concentrated-liquidity positions on Solana.
--
-- The program watches a pool over a WebSocket. On each notification it computes fees, impermanent loss
-- and the position's value, lets the risk monitor judge the snapshot, asks the strategy whether to
-- rebalance, plans the new range, and puts a proposal before an operator on Telegram. The flags of the
-- risk monitor are stored in a table, so that a halt outlives the process.
--
-- The parts and their files:
--   * Math.Fees: `src/math/fees.rs`, and `fee_growth_delta` of `src/backtest/db_replay.rs`.
--   * Strategy.Signal: `should_rebalance` of `src/strategy/signal.rs`.
--   * Strategy.Plan: `build_rebalance_plan` of `src/execution/rebalance.rs`.
--   * Risk.Monitor: `RiskMonitor::evaluate` of `src/strategy/risk_monitor.rs`, one function for each of
--     its numbered steps. Risk.Store: the statements on the table `risk_state` (`load_or_init`,
--     `reset_session`, `persist_state`, and `set_operator_pause` of `src/bot/queries.rs`).
--     Risk.Session: the start of a session and the risk gate of a tick in `src/main.rs`, and `/pause`
--     and `/resume` of `src/bot/commands.rs`, as steps that interleave where the code releases the lock.
--   * Bot.Auth, Bot.Text: `check_auth` of `src/bot/commands.rs`, `load_allowed_user_ids` of
--     `src/bot/mod.rs`. Bot.Protocol: the life of a proposal, from `src/bot/proposal.rs`,
--     `handle_approve` and the approval gate of `src/main.rs`, as a step relation over the contract of
--     `tokio::sync::oneshot` (Bot.Oneshot).
--   * Chain.Rpc, Chain.Metadata: `src/rpc.rs`. Chain.Drift: `fetch_drift_margin_ratio_for` of
--     `src/strategy/risk_monitor.rs`.
--   * Shadow.Gate: `check_shadow_gate` and `write_shadow_rebalance` of `src/storage/writer.rs`,
--     `src/execution/shadow_guard.rs`, and the check before a live session in `src/main.rs`.
--   * Depth.Distribution: `build_distribution` of `src/analytics/depth.rs`.
--   * Orca: `tick_array_start_index` and the starts of `fetch_tick_arrays` in `src/protocols/orca.rs`.
--     Orca.Layout, Orca.Accounts: the structs of its accounts, their parse, and `fetch_tick_arrays`.
--   * Raydium: `src/protocols/raydium.rs`.
--   * Feeds.Account: `watch_account`, `run_session` and `handle_text` of `src/data/ws.rs`.
--   * Feeds.Quote, Feeds.Binance, Feeds.Coinbase, Feeds.Reconnect: the price feeds of two exchanges,
--     `src/data/cex_ws.rs` and `src/data/coinbase_ws.rs`: quotes, sessions, and the loops that reconnect.
--   * Feeds.Candles: the candles of `src/data/geckoterminal.rs`, their parse, retries and pages.
--   * Math.Price, Math.Il: `src/math/sqrt_price.rs`, `compute_il` of `src/math/il.rs`, and `price_to_tick`.
--   * Backtest.Replay: `run_db_backtest` of `src/backtest/db_replay.rs`. Backtest.Gbm: `run` of
--     `src/backtest/mod.rs`. Backtest.Backfill: `synthesize_ticks` of `src/backtest/backfill.rs`.
--   * Math.Metrics: `src/math/metrics.rs`. Math.Greeks: `src/math/greeks.rs`, `src/analytics/greeks.rs`,
--     `src/math/impact.rs`. Math.Amounts: `src/analytics/amounts.rs`.
--   * Research: `run` of `src/research.rs`, which fetches candles, makes ticks of them, and replays them
--     for each cell of its configuration.
--   * Storage: `write_pool_tick`, `write_pool_ticks` and `write_pnl_snapshot` of
--     `src/storage/writer.rs`, and `read_ticks` of `src/storage/tick_reader.rs`.
--   * Commands.Backfill: the commands `backfill` and `backtest --pool` of `src/main.rs`, which compose the
--     fetch of candles, the rows made of them, the table and the replay.
--   * Gauges: `src/metrics/mod.rs`, with `Source` of `src/data/mod.rs`.
--   * Watch: the processor task of the command `watch` in `src/main.rs`. Watch.Tick is the loop body from
--     the position that is read again to the row that is written; Watch.Price, Watch.Figures,
--     Watch.Tables, Watch.Gate, Watch.Feeds and Watch.Decide are its parts in the order of the code. It
--     uses the accounts of Orca, the risk gate of Risk.Session, Strategy, Shadow.Gate, Gauges and Storage.
--   * Prelude: integers over the native numbers, words with their wrap-around, bytes, floats as an
--     interface. Examples: runs of the definitions, and the theorems at concrete inputs.
--
-- The state of each part is a record with the code's fields, and an operation is a function from state to
-- state. A statement of the database takes a flag that says whether it succeeds. `f64` is the interface
-- Prelude.Float, with roots, logarithms and casts in Prelude.Libm: the definitions hold for any type
-- with the operations, and a theorem that needs the order of numbers names the laws of IEEE 754 that it
-- uses. `i32`, `i64` and `i128` wrap or saturate as
-- a release build does. An index or a slice out of range is `none`, the panic of the code. The answers
-- of the RPC node and of the web services, the readers of Borsh, the channel of tokio and the equality of
-- public keys are parameters. Telegram
-- handles the updates of one chat one at a time, so one handler is under way at most.
--
-- Fuel and bounds: the retry loops have as many attempts, and the fetch of a history as many pages, as in
-- the code. The digits of a number
-- are printed on fuel, its value and one, which is enough since each step divides by ten. All other loops
-- recur on the list or the number that they run over.
--
-- A notification of the watch loop is a record of what the program is given while it handles it: the
-- bytes of the accounts, the prices of the feeds, the time, and whether each write and the message to
-- Telegram succeed. `f64::MAX` is a parameter.
--
-- Not modelled: the flags of the command line and the display, the queue before the watch loop and its
-- shutdown, the recorder of the gauges, the commands that print a position or a depth, `/status` and `/report`
-- of the bot, the redaction of addresses in logs, the cache, and the calls of the Solana SDK. They print,
-- parse flags or call libraries.
pub mod Prelude
pub mod Math
pub mod Shadow
pub mod Strategy
pub mod Risk
pub mod Bot
pub mod Chain
pub mod Feeds
pub mod Depth
pub mod Gauges
pub mod Orca
pub mod Raydium
pub mod Backtest
pub mod Storage
pub mod Research
pub mod Commands
pub mod Watch
mod Examples
