-- ===== src/Watch/Feeds.antt =====
-- The gauges of a tick in `src/main.rs`: the price of the pool, the health of the feeds, the deviations
-- from the reference, and the position.
use tick_liq.Prelude.{false, ℕ, Bool, List, [], ◌++◌, Option, none, some, ◌-◌, if◌then◌else◌}
use tick_liq.Prelude.Float.{◌≺◌, Float, lit}
use tick_liq.Prelude.Libm.{Libm}
use tick_liq.Feeds.Quote.{CexPrice}
use tick_liq.Gauges.{
  Gauge, Source, binance, coinbase, orca, record_price, record_feed, record_deviation,
  deviation_bps,
}

module _ {ℓ} {F : Type ℓ} ⦃f : Float F⦄ ⦃m : Libm F⦄ (f64_max : F) where
  -- The price of a feed and its age in seconds.
  abbrev pub feed_snap : Option (CexPrice F) → ℕ → Option (F × F)
  feed_snap none now = none
  feed_snap (some cp) now = some (cp.price, lit (now - cp.updated_at))

  -- `FEED_STALE_SECS` is 60; a feed without a price is down, and as stale as can be.
  health : Option (F × F) → Bool × F
  health none = (false, f64_max)
  health (some (price, staleness)) = (staleness ≺ lit 60, staleness)

  feed_gauges : Source → Option (F × F) → List (Gauge F)
  unfolding health record_feed
  feed_gauges source snap = let (up, staleness) = health snap in record_feed source up staleness

  deviation_gauge : Source → Option F → List (Gauge F)
  unfolding record_deviation
  deviation_gauge source none = []
  deviation_gauge source (some bps) = record_deviation source bps

  coinbase_deviation : Option (F × F) → F → List (Gauge F)
  unfolding deviation_gauge deviation_bps
  coinbase_deviation none binance_mid = []
  coinbase_deviation (some (mid, staleness)) binance_mid =
      deviation_gauge coinbase (deviation_bps mid binance_mid)

  deviations : F → Option (F × F) → Option (F × F) → List (Gauge F)
  unfolding coinbase_deviation
  deviations onchain_price none coinbase_snap = []
  deviations onchain_price (some (binance_mid, staleness)) coinbase_snap =
      deviation_gauge orca (deviation_bps onchain_price binance_mid)
      ++ coinbase_deviation coinbase_snap binance_mid

  -- What the tick emits of the prices. Without a Coinbase feed its state is not read.
  unfoldable pub feed_report :
      F → Option (CexPrice F) → Bool → Option (CexPrice F) → ℕ → List (Gauge F)
  unfolding feed_gauges deviations record_price
  feed_report onchain_price cex coinbase_enabled coinbase_price now =
      let binance_snap = feed_snap cex now in
      let coinbase_snap = if coinbase_enabled then feed_snap coinbase_price now else none in
      record_price orca onchain_price
      ++ (feed_gauges binance binance_snap
          ++ ((if coinbase_enabled then feed_gauges coinbase coinbase_snap else [])
              ++ deviations onchain_price binance_snap coinbase_snap))
