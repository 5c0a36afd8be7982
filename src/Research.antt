-- ===== src/Research.antt =====
-- The research sweep of `src/research.rs`: every pool, range width and rebalance variant is replayed over one
-- fetched history. `none` is a panic. The answers of the price service are the argument `get`, of the pool's
-- address and the timeframe; `date_naive` gives the day of a timestamp.

pub mod Input
pub mod Cell
pub mod Sweeps
pub mod Widths
pub mod Covers
pub mod Cells
use tick_liq.Research.Input.{
  near_edge_off_ticks, Settings, PoolCfg, Config, RunResult, ResearchError, invalid_date,
  to_before_from, liquidity_not_u128, amounts_failed, backtest_failed, Sweep, and_sweep, or_panic,
  or_error, replay_error, each,
}
use tick_liq.Prelude.{
  ℕ, ◌==◌, ◌*◌, leb, not, ◌&&◌, if◌then◌else◌, Bool, true, false, Option, none, some, List, [], ◌∷◌,
  ◌++◌, map, length, max,
}
use Prim.Native.String.{String}
use text.Mathlib.Text.{◌==◌ as str_eq}
use tick_liq.Prelude.Int.{ℤ, pos, negsuc, ◌-ℤ◌, leb_ℤ}
use tick_liq.Prelude.Result.{Result, ok, err}
use tick_liq.Prelude.Float.{Float, ◌⊕◌, ◌⊖◌, ◌⊗◌, ◌⊘◌, ◌≼◌, lit}
use tick_liq.Prelude.Libm.{Libm}
use tick_liq.Math.Price.{price_to_tick, price_to_sqrt_q64, ten_to}
use tick_liq.Math.Metrics.{RiskMetrics, from_backtest, annualized_volatility, daily_returns}
use tick_liq.Math.Amounts.{WhirlpoolsCore, TokenAmounts, compute_token_amounts}
use tick_liq.Feeds.Candles.{OhlcvCandle, Response, FetchError, fetch_range}
use tick_liq.Strategy.Signal.{RebalanceConfig}
use tick_liq.Backtest.{BacktestResult}
use tick_liq.Backtest.Backfill.{PoolSynthParams, PoolTick, synthesize_ticks}
use tick_liq.Backtest.Replay.{DbBacktestInput, PoolTickRow, ReplayError, run_db_backtest}

-- `rebalance_variants`
pub variants_of : List Bool → List Bool
variants_of [] = false ∷ []
variants_of (b ∷ bs) = b ∷ bs

pub to_rows : (ℤ → ℕ) → List PoolTick → List PoolTickRow
to_rows date_naive ticks =
    map
      (λ t. record {
        date = date_naive t.observed_at;
        tick_current = t.tick_current;
        sqrt_price = t.sqrt_price;
        liquidity = t.liquidity;
        fee_growth_global_a = t.fee_growth_global_a;
        fee_growth_global_b = t.fee_growth_global_b;
      })
      ticks

module _ {ℓ} {F : Type ℓ} ⦃f : Float F⦄ ⦃m : Libm F⦄ where
  -- One cell: the input of its replay.
  cell_input : Settings F → PoolCfg F → F → F → ℕ → Bool → DbBacktestInput F
  cell_input settings pool entry width pos_l rebalance = record {
    initial_value_usd = settings.capital_usd;
    entry_price = entry;
    price_lower = entry ⊗ (lit 1 ⊖ width);
    price_upper = entry ⊗ (lit 1 ⊕ width);
    fee_rate_bps = pool.fee_bps;
    tick_spacing = pool.tick_spacing;
    position_liquidity = pos_l;
    decimals_a = pool.decimals_a;
    decimals_b = pool.decimals_b;
    rebalance_cfg = record {
      rebalance_out_of_range = rebalance;
      near_edge_ticks = near_edge_off_ticks;
      min_net_pnl_usd = lit 0;
    };
    range_factor_lower = lit 1 ⊖ width;
    range_factor_upper = lit 1 ⊕ width;
  }

  row_of : Settings F → PoolCfg F → ℕ → F → F → ℕ → Bool → BacktestResult F → RunResult F
  row_of settings pool pool_l realized_vol width pos_l rebalance res =
      let risk = from_backtest settings.capital_usd (map (λ d. d.net_pnl_usd) res.days) in
      record {
        label = pool.label;
        address = pool.address;
        range_width = width;
        rebalance = rebalance;
        capital_usd = settings.capital_usd;
        pool_share = lit pos_l ⊘ lit pool_l;
        days = length res.days;
        total_rebalances = res.total_rebalances;
        total_fees_usd = res.total_fees_usd;
        il_usd = res.total_il_usd;
        net_pnl_usd = res.net_pnl_usd;
        net_pct = res.net_pnl_usd ⊘ settings.capital_usd ⊗ lit 100;
        fee_apy_pct = res.fee_apy_pct;
        days_in_range_pct = lit res.days_in_range ⊘ lit (max (length res.days) 1) ⊗ lit 100;
        realized_vol = realized_vol;
        sharpe = risk.sharpe;
        sortino = risk.sortino;
        max_drawdown = risk.max_drawdown;
      }

  run_cell :
      Settings F
      → PoolCfg F
      → List PoolTickRow
      → ℕ
      → F
      → F
      → F
      → ℕ
      → Bool
      → Sweep (List (RunResult F))
  unfolding cell_input row_of
  run_cell settings pool rows pool_l entry realized_vol width pos_l rebalance =
      and_sweep
        (replay_error (run_db_backtest (cell_input settings pool entry width pos_l rebalance) rows))
        (λ res. some (ok (row_of settings pool pool_l realized_vol width pos_l rebalance res ∷ [])))

  -- The value of a position of the pool's whole liquidity.
  value_at_pool_l : PoolCfg F → F → TokenAmounts → F
  value_at_pool_l pool entry amt =
      lit amt.amount_a ⊘ ten_to (pos pool.decimals_a) ⊗ entry
      ⊕ lit amt.amount_b ⊘ ten_to (pos pool.decimals_b)

  -- One width: a position of no value is left out.
  pub run_width :
      WhirlpoolsCore
      → Settings F
      → PoolCfg F
      → List PoolTickRow
      → ℕ
      → F
      → F
      → F
      → Sweep (List (RunResult F))
  unfolding run_cell variants_of value_at_pool_l
  run_width core settings pool rows pool_l entry realized_vol width =
      let ui_factor = ten_to (pos pool.decimals_a -ℤ pos pool.decimals_b) in
      let lower = entry ⊗ (lit 1 ⊖ width) in
      let upper = entry ⊗ (lit 1 ⊕ width) in
      let sqrt_entry = price_to_sqrt_q64 (entry ⊘ ui_factor) in
      and_sweep (or_panic (price_to_tick (lower ⊘ ui_factor) pool.tick_spacing)) (λ tick_lower.
        and_sweep (or_panic (price_to_tick (upper ⊘ ui_factor) pool.tick_spacing)) (λ tick_upper.
          and_sweep
            (or_error amounts_failed
              (compute_token_amounts core pool_l sqrt_entry tick_lower tick_upper))
            (λ amt.
              let value = value_at_pool_l pool entry amt in
              let pos_l = m.to_u128 (lit pool_l ⊗ settings.capital_usd ⊘ value) in
              if value ≼ lit 0
              then some (ok [])
              else each (run_cell settings pool rows pool_l entry realized_vol width pos_l)
                  (variants_of settings.rebalance))))

  pub periods_per_year : String → F
  periods_per_year timeframe =
      if str_eq timeframe "hour"
      then lit 365 ⊗ lit 24
      else if str_eq timeframe "minute"
      then lit 365 ⊗ lit 24 ⊗ lit 60
      else lit 365

  pub realized_vol_of : String → List (OhlcvCandle F) → F
  unfolding periods_per_year
  realized_vol_of timeframe candles =
      annualized_volatility (daily_returns (map (λ c. c.close) candles))
      ⊗ m.sqrt (periods_per_year timeframe ⊘ lit 365)

  synth_of : PoolCfg F → ℕ → PoolSynthParams F
  synth_of pool pool_l = record {
    pool_address = pool.address;
    fee_rate_bps = pool.fee_bps;
    pool_liquidity = pool_l;
    decimals_a = pool.decimals_a;
    decimals_b = pool.decimals_b;
    tick_spacing = pool.tick_spacing;
  }

  -- One fetched history: fewer than three candles are left out.
  run_history :
      WhirlpoolsCore
      → (ℤ → ℕ)
      → Settings F
      → PoolCfg F
      → ℕ
      → List (OhlcvCandle F)
      → Sweep (List (RunResult F))
  unfolding run_width realized_vol_of synth_of to_rows
  run_history core date_naive settings pool pool_l (c₀ ∷ c₁ ∷ c₂ ∷ cs) =
      let candles = c₀ ∷ c₁ ∷ c₂ ∷ cs in
      and_sweep (or_panic (synthesize_ticks candles (synth_of pool pool_l))) (λ ticks.
        each
          (run_width core settings pool (to_rows date_naive ticks) pool_l c₀.close
            (realized_vol_of settings.timeframe candles))
          settings.range_widths)
  run_history core date_naive settings pool pool_l candles = some (ok [])

  -- A failed fetch is left out.
  run_fetched :
      WhirlpoolsCore
      → (ℤ → ℕ)
      → Settings F
      → PoolCfg F
      → ℕ
      → Result FetchError (List (OhlcvCandle F))
      → Sweep (List (RunResult F))
  unfolding run_history
  run_fetched core date_naive settings pool pool_l (ok candles) =
      run_history core date_naive settings pool pool_l candles
  run_fetched core date_naive settings pool pool_l (err e) = some (ok [])

  -- One pool: without liquidity it is left out.
  run_pool :
      WhirlpoolsCore
      → (ℤ → ℕ)
      → (String → String → ℤ → ℕ → Response F)
      → Settings F
      → ℤ
      → ℤ
      → PoolCfg F
      → Sweep (List (RunResult F))
  unfolding run_fetched
  run_pool core date_naive get settings from_ts to_ts pool =
      and_sweep (or_error (liquidity_not_u128 pool.label) pool.pool_liquidity) (λ pool_l.
        if pool_l == 0
        then some (ok [])
        else run_fetched core date_naive settings pool pool_l
            (fetch_range (get pool.address settings.timeframe) from_ts to_ts))

  unfoldable pub run_sweep :
      WhirlpoolsCore
      → (ℤ → ℕ)
      → (String → String → ℤ → ℕ → Response F)
      → Config F
      → Sweep (List (RunResult F))
  unfolding run_pool
  run_sweep core date_naive get cfg =
      and_sweep (or_error invalid_date cfg.settings.from_ts) (λ from_ts.
        and_sweep (or_error invalid_date cfg.settings.to_ts) (λ to_ts.
          if leb_ℤ to_ts from_ts
          then some (err to_before_from)
          else each (run_pool core date_naive get cfg.settings from_ts to_ts) cfg.pools))
