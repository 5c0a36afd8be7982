-- ===== src/Feeds.antt =====
-- The live feeds: the account subscription of `src/data/ws.rs`, and the price feeds of two exchanges,
-- `src/data/cex_ws.rs` and `src/data/coinbase_ws.rs`, and price histories, `src/data/geckoterminal.rs`.
pub mod Account
pub mod Quote
pub mod Binance
pub mod Coinbase
pub mod Reconnect
pub mod Candles
