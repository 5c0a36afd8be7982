-- ===== src/Research/Cell.antt =====
-- What a row of the sweep of `src/research.rs` reports, described without the loops that make it.
use tick_liq.Prelude.Libm.{Libm}
use tick_liq.Research.{to_rows, variants_of, periods_per_year}
use tick_liq.Prelude.Float.{◌≼◌, ◌⊕◌, ◌⊘◌, ◌⊖◌, lit, ◌⊗◌, Float}
use tick_liq.Research.Input.{RunResult, Config, PoolCfg, Settings}
use tick_liq.Math.Amounts.{compute_token_amounts, TokenAmounts, WhirlpoolsCore}
use tick_liq.Prelude.Int.{negsuc, ◌-ℤ◌, pos, leb_ℤ, ℤ}
use tick_liq.Prelude.{Bool, map, ◌==◌, max, false, ◌∷◌, length, ◌≤◌, some, ◌≡◌, Member, ℕ, List}
use Prim.Native.String.{String}
use tick_liq.Feeds.Candles.{fetch_range, Response, OhlcvCandle}
use tick_liq.Math.Price.{price_to_sqrt_q64, ten_to, price_to_tick}
use tick_liq.Backtest.{BacktestResult}
use tick_liq.Backtest.Replay.{DbBacktestInput, run_db_backtest, PoolTickRow}
use tick_liq.Backtest.Backfill.{synthesize_ticks, PoolTick}
use tick_liq.Math.Metrics.{daily_returns, annualized_volatility, from_backtest}
use tick_liq.Prelude.Result.{ok}

module _ {ℓ} {F : Type ℓ} ⦃f : Float F⦄ ⦃m : Libm F⦄ where
  -- The rows that a pool's cells replay: made of the history that was fetched for the window of the
  -- configuration, with the pool's configured liquidity.
  pub record IsHistory (date_naive : ℤ → ℕ) (get : String → String → ℤ → ℕ → Response F)
      (settings : Settings F) (pool : PoolCfg F) (pool_l : ℕ) (candles : List (OhlcvCandle F))
      (rows : List PoolTickRow) : Type ℓ where
    pub from_ts : ℤ
    pub to_ts : ℤ
    pub ticks : List PoolTick
    pub starts : settings.from_ts ≡ some from_ts
    pub ends : settings.to_ts ≡ some to_ts
    pub ordered : leb_ℤ to_ts from_ts ≡ false
    pub liquidity : pool.pool_liquidity ≡ some pool_l
    pub liquid : (pool_l == 0) ≡ false
    pub fetched : fetch_range (get pool.address settings.timeframe) from_ts to_ts ≡ ok candles
    pub made :
        synthesize_ticks candles (record {
          pool_address = pool.address;
          fee_rate_bps = pool.fee_bps;
          pool_liquidity = pool_l;
          decimals_a = pool.decimals_a;
          decimals_b = pool.decimals_b;
          tick_spacing = pool.tick_spacing;
        })
        ≡ some ticks
    pub read : rows ≡ to_rows date_naive ticks

  -- The liquidity of a position that holds the capital: that of the pool, scaled by what a position of
  -- the pool's liquidity on the same range is worth at the entry price, which is positive.
  pub record IsSized (core : WhirlpoolsCore) (settings : Settings F) (pool : PoolCfg F) (pool_l : ℕ)
      (entry width : F) (pos_l : ℕ) : Type ℓ where
    pub tick_lower : ℤ
    pub tick_upper : ℤ
    pub amounts : TokenAmounts
    pub value : F
    pub lower :
        price_to_tick
          (entry ⊗ (lit 1 ⊖ width) ⊘ ten_to (pos pool.decimals_a -ℤ pos pool.decimals_b))
          pool.tick_spacing
        ≡ some tick_lower
    pub upper :
        price_to_tick
          (entry ⊗ (lit 1 ⊕ width) ⊘ ten_to (pos pool.decimals_a -ℤ pos pool.decimals_b))
          pool.tick_spacing
        ≡ some tick_upper
    pub held :
        compute_token_amounts core pool_l
          (price_to_sqrt_q64 (entry ⊘ ten_to (pos pool.decimals_a -ℤ pos pool.decimals_b)))
          tick_lower
          tick_upper
        ≡ some amounts
    pub valued :
        value
        ≡ lit amounts.amount_a ⊘ ten_to (pos pool.decimals_a) ⊗ entry
          ⊕ lit amounts.amount_b ⊘ ten_to (pos pool.decimals_b)
    pub worth : (value ≼ lit 0) ≡ false
    pub scaled : pos_l ≡ m.to_u128 (lit pool_l ⊗ settings.capital_usd ⊘ value)

  -- The columns of a row that are computed of a replay.
  pub record IsReport (settings : Settings F) (candles : List (OhlcvCandle F)) (pool_l pos_l : ℕ)
      (result : BacktestResult F) (row : RunResult F) : Type ℓ where
    pub capital : row.capital_usd ≡ settings.capital_usd
    pub share : row.pool_share ≡ lit pos_l ⊘ lit pool_l
    pub days : row.days ≡ length result.days
    pub rebalances : row.total_rebalances ≡ result.total_rebalances
    pub fees : row.total_fees_usd ≡ result.total_fees_usd
    pub loss : row.il_usd ≡ result.total_il_usd
    pub net : row.net_pnl_usd ≡ result.net_pnl_usd
    pub net_pct : row.net_pct ≡ result.net_pnl_usd ⊘ settings.capital_usd ⊗ lit 100
    pub apy : row.fee_apy_pct ≡ result.fee_apy_pct
    pub in_range :
        row.days_in_range_pct
        ≡ lit result.days_in_range ⊘ lit (max (length result.days) 1) ⊗ lit 100
    pub volatility :
        row.realized_vol
        ≡ annualized_volatility (daily_returns (map (λ c. c.close) candles))
          ⊗ m.sqrt (periods_per_year settings.timeframe ⊘ lit 365)
    pub risk :
        let metrics = from_backtest settings.capital_usd (map (λ d. d.net_pnl_usd) result.days) in
        (row.sharpe ≡ metrics.sharpe)
        × (row.sortino ≡ metrics.sortino)
        × (row.max_drawdown ≡ metrics.max_drawdown)

  -- What a cell replays: the capital, on the range of the row's width around the entry price, which is
  -- recentred out of range if the row says so, and never near an edge.
  abbrev pub input_of : Settings F → PoolCfg F → F → RunResult F → ℕ → DbBacktestInput F
  input_of settings pool entry row pos_l = record {
    initial_value_usd = settings.capital_usd;
    entry_price = entry;
    price_lower = entry ⊗ (lit 1 ⊖ row.range_width);
    price_upper = entry ⊗ (lit 1 ⊕ row.range_width);
    fee_rate_bps = pool.fee_bps;
    tick_spacing = pool.tick_spacing;
    position_liquidity = pos_l;
    decimals_a = pool.decimals_a;
    decimals_b = pool.decimals_b;
    rebalance_cfg = record {
      rebalance_out_of_range = row.rebalance;
      near_edge_ticks = negsuc 999_999;
      min_net_pnl_usd = lit 0;
    };
    range_factor_lower = lit 1 ⊖ row.range_width;
    range_factor_upper = lit 1 ⊕ row.range_width;
  }

  -- A row of the sweep: the replay of one cell, entered at the close of the first candle.
  pub record IsCell (core : WhirlpoolsCore) (date_naive : ℤ → ℕ)
      (get : String → String → ℤ → ℕ → Response F) (cfg : Config F) (row : RunResult F)
      : Type ℓ where
    pub pool : PoolCfg F
    pub pool_l : ℕ
    pub pos_l : ℕ
    pub first : OhlcvCandle F
    pub rest : List (OhlcvCandle F)
    pub rows : List PoolTickRow
    pub result : BacktestResult F
    pub of_pool : Member pool cfg.pools
    pub of_width : Member row.range_width cfg.settings.range_widths
    pub of_variant : Member row.rebalance (variants_of cfg.settings.rebalance)
    pub named : (row.label ≡ pool.label) × (row.address ≡ pool.address)
    pub long : 3 ≤ length (first ∷ rest)
    pub history : IsHistory date_naive get cfg.settings pool pool_l (first ∷ rest) rows
    pub sized : IsSized core cfg.settings pool pool_l first.close row.range_width pos_l
    pub replayed :
        run_db_backtest (input_of cfg.settings pool first.close row pos_l) rows ≡ some (ok result)
    pub report : IsReport cfg.settings (first ∷ rest) pool_l pos_l result row

  -- A cell of the configuration that has a row: of a pool of that label and address whose history is
  -- fetched and has at least three candles, and a position of the pool's liquidity on its range is worth
  -- something at the first close.
  pub record IsPlanned (core : WhirlpoolsCore) (date_naive : ℤ → ℕ)
      (get : String → String → ℤ → ℕ → Response F) (cfg : Config F) (label address : String)
      (width : F) (rebalance : Bool) : Type ℓ where
    pub pool : PoolCfg F
    pub pool_l : ℕ
    pub pos_l : ℕ
    pub first : OhlcvCandle F
    pub rest : List (OhlcvCandle F)
    pub rows : List PoolTickRow
    pub of_pool : Member pool cfg.pools
    pub of_width : Member width cfg.settings.range_widths
    pub of_variant : Member rebalance (variants_of cfg.settings.rebalance)
    pub named : (label ≡ pool.label) × (address ≡ pool.address)
    pub long : 3 ≤ length (first ∷ rest)
    pub history : IsHistory date_naive get cfg.settings pool pool_l (first ∷ rest) rows
    pub sized : IsSized core cfg.settings pool pool_l first.close width pos_l
