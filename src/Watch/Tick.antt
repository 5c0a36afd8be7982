-- ===== src/Watch/Tick.antt =====
-- A notification in the processor task of `src/main.rs`: the loop body from the position that is read
-- again to the row that is written, with its early returns in their order. The commands of the bot that
-- run between two passes are steps of Risk.Session.
pub mod Cases
pub mod Total
pub mod Submitted
pub mod Halted
pub mod Clean
use tick_liq.Prelude.Float.{◌⊕◌, Float}
use Prim.Native.String.{String}
use tick_liq.Prelude.Borsh.{Borsh}
use tick_liq.Watch.State.{
  risk_stop, operator_stop, held, is_paused, stops, no_pool, on_tables, End, Pass, ok_of, or_last,
  Watcher, Notification, WatchConfig,
}
use tick_liq.Orca.Accounts.{parse_pool, parse_position}
use tick_liq.Prelude.Libm.{Libm}
use tick_liq.Orca.Layout.{WhirlpoolPosition, WhirlpoolPool}
use tick_liq.Math.Amounts.{WhirlpoolsCore}
use tick_liq.Prelude.{◌>>=◌, ◌++◌, Bool, if◌then◌else◌, none, [], ◌∷◌, some, List, Option, ℕ}
use tick_liq.Watch.Figures.{is_in_range, figures_of, Figures}
use tick_liq.Prelude.Result.{err, ok, Result}
use tick_liq.Prelude.Int.{pos, ℤ}
use tick_liq.Risk.Monitor.{RiskAction, PnlSnapshot}
use tick_liq.Watch.Price.{price_now}
use tick_liq.Strategy.Signal.{
  rebalance, is_rebalance, hold, default_config, RebalanceDecision, should_rebalance,
}
use tick_liq.Watch.Tables.{write_tick}
use tick_liq.Watch.Decide.{sent_proposal, on_rebalance, net_pnl}
use tick_liq.Backtest.Backfill.{PoolTick}
use tick_liq.Watch.Feeds.{feed_report}
use tick_liq.Watch.Gate.{risk_gate}
use tick_liq.Math.Price.{sqrt_q64_to_ui_price}
use tick_liq.Gauges.{record_position, Gauge}
use tick_liq.Math.Greeks.{compute_greeks}

module _ {ℓ} {F : Type ℓ} ⦃f : Float F⦄ where
  -- The snapshot of the P&L; `storage::writer::PnlSnapshot`.
  abbrev pub snapshot_of : WatchConfig F → Figures F → ℕ → PnlSnapshot F
  snapshot_of cfg fig now = record {
    mint = cfg.mint;
    pool_address = cfg.pool_addr;
    fees_earned = fig.fees_earned;
    il_usd = fig.il_usd;
    net_pnl = net_pnl fig;
    position_value = fig.position_value;
    price = fig.price;
    observed_at = now;
  }

module _ {ℓ} {F : Type ℓ} ⦃f : Float F⦄ {Key : Type 0} where
  -- `should_rebalance` with the sum of the fees and the (negative) impermanent loss.
  abbrev pub decision : WhirlpoolPool Key → WhirlpoolPosition Key → Figures F → RebalanceDecision
  decision pool position fig =
      should_rebalance pool.tick_current_index position.tick_lower_index position.tick_upper_index
        (fig.fees_earned ⊕ fig.il_usd) default_config

abbrev pool_tick_of : {Key : Type 0} → String → WhirlpoolPool Key → ℕ → ℤ → PoolTick
pool_tick_of pool_addr pool now slot = record {
  pool_address = pool_addr;
  slot = slot;
  tick_current = pool.tick_current_index;
  sqrt_price = pool.sqrt_price;
  liquidity = pool.liquidity;
  fee_growth_global_a = pool.fee_growth_global_a;
  fee_growth_global_b = pool.fee_growth_global_b;
  observed_at = pos now;
}

module _ {Key : Type 0} (borsh : Borsh Key) where
  -- The position of this pass: the one read, or the last one known.
  unfoldable pub refreshed :
      Result (Unit {0}) (List ℕ) → WhirlpoolPosition Key → WhirlpoolPosition Key
  unfolding parse_position
  refreshed (ok bytes) last = or_last last (parse_position borsh bytes)
  refreshed (err e) last = last

  fetched_pool : Result (Unit {0}) (List ℕ) → Option (WhirlpoolPool Key)
  unfolding parse_pool
  fetched_pool (ok bytes) = ok_of (parse_pool borsh bytes)
  fetched_pool (err e) = none

  -- The bytes of the notification come first; the fetch is for a notification without them.
  unfoldable pub pool_of : Option (List ℕ) → Result (Unit {0}) (List ℕ) → Option (WhirlpoolPool Key)
  unfolding parse_pool fetched_pool
  pool_of (some bytes) fetched = ok_of (parse_pool borsh bytes)
  pool_of none fetched = fetched_pool fetched

module _ {ℓ} {F : Type ℓ} ⦃f : Float F⦄ ⦃m : Libm F⦄ {Key : Type 0} (core : WhirlpoolsCore)
    (f64_max : F) (cfg : WatchConfig F) (n : Notification F) (pool : WhirlpoolPool Key) where
  -- The gauges of a tick that reaches its decision.
  position_gauges : Figures F → WhirlpoolPosition Key → Bool → List (Gauge F)
  unfolding record_position compute_greeks
  position_gauges fig position signal =
      let greeks =
        compute_greeks {F = F} core position.liquidity pool.sqrt_price position.tick_lower_index
          position.tick_upper_index in
      record_position (record {
        mint = cfg.mint;
        value_usd = fig.position_value;
        pnl_usd = net_pnl fig;
        fees_usd = fig.fees_earned;
        il_usd = fig.il_usd;
        delta = greeks.delta;
        gamma = greeks.gamma;
        in_range = is_in_range pool position;
        rebalance_signal = signal;
      })

  -- What a tick does with its decision.
  unfoldable pub decided :
      Watcher F Key → Figures F → List (Gauge F) → RebalanceDecision → Pass F Key
  unfolding on_rebalance sent_proposal
  decided w fig gauges (hold reason) = record {
    watcher = w;
    gauges = gauges;
    proposal = none;
    end = held reason;
  }
  decided w fig gauges (rebalance reason) =
      let (w', end) = on_rebalance cfg n fig pool w.position w reason in
      record {
        watcher = w';
        gauges = gauges;
        proposal = sent_proposal cfg n fig pool w.position reason;
        end = end;
      }

  abbrev pub quiet_end : Watcher F Key → End F → Pass F Key
  quiet_end w end = record { watcher = w; gauges = []; proposal = none; end = end }

  -- Past the risk gate: the operator's pause, the decision, the gauges.
  unfoldable pub ungated : Watcher F Key → Figures F → Pass F Key
  unfolding decided should_rebalance feed_report position_gauges sqrt_q64_to_ui_price
  ungated w fig =
      if is_paused w.monitor
      then quiet_end w operator_stop
      else let d = decision pool w.position fig in
        let onchain_price =
          sqrt_q64_to_ui_price pool.sqrt_price cfg.session.decimals_a cfg.session.decimals_b in
        decided w fig
          (feed_report f64_max onchain_price n.cex cfg.coinbase_enabled n.coinbase n.instant
            ++ position_gauges fig w.position (is_rebalance d))
          d

  unfoldable pub after_risk : Watcher F Key × Option (RiskAction F) → Figures F → Pass F Key
  unfolding ungated
  after_risk (w, none) fig = ungated w fig
  after_risk (w, some action) fig =
      if stops action then quiet_end w (risk_stop action) else ungated w fig

  -- The two writes.
  unfoldable pub after_writes : Watcher F Key → Figures F → Watcher F Key
  unfolding write_tick
  after_writes w fig = record w {
    tables =
        on_tables
          (λ t.
            write_tick n.tick_written n.pnl_written t n.slot (pool_tick_of cfg.pool_addr pool n.now)
              (snapshot_of cfg fig n.now))
          w.tables;
  }

  -- From the figures on: the writes, then the gates.
  unfoldable pub with_figures : Watcher F Key → Figures F → Pass F Key
  unfolding after_writes risk_gate after_risk
  with_figures w fig = after_risk (risk_gate (after_writes w fig) (snapshot_of cfg fig n.now) n) fig

  -- A tick with its pool; `none` is the panic of `clamp`.
  unfoldable pub with_pool : Watcher F Key → Option (Pass F Key)
  unfolding price_now figures_of with_figures sqrt_q64_to_ui_price
  with_pool w =
      let (price, stale) =
        price_now n.cex n.instant
          (sqrt_q64_to_ui_price pool.sqrt_price cfg.session.decimals_a cfg.session.decimals_b)
          w.cex_was_stale in
      do
        fig ← figures_of core cfg.session pool w.position price
        some (with_figures (record w { cex_was_stale = stale }) fig)

module _ {ℓ} {F : Type ℓ} ⦃f : Float F⦄ ⦃m : Libm F⦄ {Key : Type 0} (borsh : Borsh Key)
    (core : WhirlpoolsCore) (f64_max : F) (cfg : WatchConfig F) where
  unfoldable pub on_pool :
      Notification F → Watcher F Key → Option (WhirlpoolPool Key) → Option (Pass F Key)
  unfolding with_pool
  on_pool n w none = some (record { watcher = w; gauges = []; proposal = none; end = no_pool })
  on_pool n w (some pool) = with_pool core f64_max cfg n pool w

  -- One notification.
  unfoldable pub process : Notification F → Watcher F Key → Option (Pass F Key)
  unfolding refreshed pool_of on_pool
  process n w =
      on_pool n (record w { position = refreshed borsh n.position w.position })
        (pool_of borsh n.account n.fetched)

  -- The `while let` over the channel, with the passes that it makes.
  unfoldable pub run_watch : List (Notification F) → Watcher F Key → Option (List (Pass F Key))
  unfolding process
  run_watch [] w = some []
  run_watch (n ∷ ns) w = do
    pass ← process n w
    passes ← run_watch ns pass.watcher
    some (pass ∷ passes)
