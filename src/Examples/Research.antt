-- ===== src/Examples/Research.antt =====
-- The research sweep, the fetch of its histories, the hold and the drawdown at concrete inputs.
use tick_liq.Prelude.{
  ◌↔◌, Bool, ◌/◌, ℕ, ◌*◌, ◌-◌, ◌^◌, ◌≡◌, refl, true, false, List, [], ◌∷◌, some, none, All, arith,
  ◌==◌, if◌then◌else◌,
}
use Prim.Native.String.{String}
use tick_liq.Prelude.Int.{div_euclid, ◌*ℕ◌, ◌-ℤ◌, ℤ, pos, negsuc, pos_part, ◌≤ℤ◌, ◌<ℤ◌, leb_ℤ}
use tick_liq.Prelude.Result.{ok}
use tick_liq.Prelude.Float.{◌⊘◌, ◌⊕◌, ◌≼◌, lit}
use tick_liq.Prelude.Milli.{Milli, milli_float, milli_libm, Milli-IsOrdered}
use tick_liq.Prelude.Sort.{dedup_by_key, sort_by_key, retain, IsAscending}
use tick_liq.Math.Metrics.{daily_returns, annualized_volatility, from_backtest, max_drawdown}
use tick_liq.Prelude.{◌⊎◌}
use tick_liq.Math.Metrics.Drawdown.{IsBounded, IsAttained, max_drawdown-IsLargest}
use tick_liq.Math.Amounts.{compute_token_amounts, WhirlpoolsCore}
use tick_liq.Backtest.{fee_apy, BacktestResult}
use tick_liq.Backtest.Replay.{ui_factor, DbBacktestInput, PoolTickRow, run_db_backtest}
use tick_liq.Backtest.Replay.Runs.{run_db_backtest-Returns}
use tick_liq.Backtest.Replay.Hold.{IsLossAt, run_db_backtest-IsLossAt}
use tick_liq.Feeds.Candles.{
  parse_ohlcv_list, fetch_ohlcv, Entry, OhlcvCandle, Response, status, body, fetch_range,
}
use tick_liq.Feeds.Candles.Series.{IsServed, fetch_range-IsAscending}
use tick_liq.Research.{run_sweep}
use tick_liq.Research.Input.{Config, RunResult}
use tick_liq.Research.Cell.{IsPlanned, IsCell}
use tick_liq.Research.Cells.{run_sweep-IsCell}
use tick_liq.Math.Price.{sqrt_q64_to_price, price_to_sqrt_q64, round_down, price_to_tick}
use tick_liq.Prelude.Word.{wrapping_sub, wrap}
use tick_liq.Backtest.Backfill.{saturating_add, synthesize_ticks}
use tick_liq.Strategy.Signal.{should_rebalance}
use tick_liq.Math.Il.{compute_il}
use tick_liq.Math.Fees.{fee_growth_delta}
use tick_liq.Research.Covers.{IsShown}

abbrev num : ℕ → Milli
num n = some (pos n)

abbrev curve : List Milli
curve = num 100_000 ∷ num 120_000 ∷ num 90_000 ∷ none ∷ num 110_000 ∷ []

drawdown : max_drawdown curve ≡ some (negsuc 249)
unfolding max_drawdown
drawdown = refl

max_drawdown-IsLargest_example :
    ((max_drawdown curve ≼ lit 0) ≡ true)
    × IsBounded (max_drawdown curve) [] curve
    × ((max_drawdown curve ≡ lit 0) ⊎ IsAttained (max_drawdown curve) [] curve)
max_drawdown-IsLargest_example = max_drawdown-IsLargest Milli-IsOrdered refl curve

abbrev entry : ℕ → ℕ → Entry Milli
entry at price = some (
    some (num (at * 1000))
    ∷ some (num price)
    ∷ some (num price)
    ∷ some (num price)
    ∷ some (num price)
    ∷ some (num 50_000)
    ∷ [])

-- Two pages, newest first; the first request of each is turned away, and the pages share a candle.
abbrev pub pages : ℤ → ℕ → Response Milli
pages cursor attempt =
    if attempt == 0
    then status 429
    else if leb_ℤ (pos 400) cursor
    then body (some (some (entry 400 2100 ∷ entry 300 2300 ∷ entry 200 1900 ∷ [])))
    else body (some (some (entry 200 1900 ∷ entry 100 2000 ∷ entry 50 2000 ∷ [])))

abbrev candle : ℕ → ℕ → OhlcvCandle Milli
candle at price = record {
  timestamp = pos at;
  open_price = num price;
  high = num price;
  low = num price;
  close = num price;
  volume_usd = num 50_000;
}

abbrev history : List (OhlcvCandle Milli)
history = candle 100 2000 ∷ candle 200 1900 ∷ candle 300 2300 ∷ []

fetched : fetch_range pages (pos 100) (pos 400) ≡ ok history
unfolding fetch_range fetch_ohlcv parse_ohlcv_list retain sort_by_key dedup_by_key wrap ◌-ℤ◌
fetched = refl

fetch_range-IsAscending_example :
    IsAscending (λ c. c.timestamp) history
    × All (λ c. (pos 100 ≤ℤ c.timestamp) × (c.timestamp <ℤ pos 400) × IsServed pages c) history
fetch_range-IsAscending_example = fetch_range-IsAscending pages (pos 100) (pos 400) history fetched

abbrev held : DbBacktestInput Milli
held = record {
  initial_value_usd = num 1_000_000;
  entry_price = num 4000;
  price_lower = num 1000;
  price_upper = num 64_000;
  fee_rate_bps = num 5000;
  tick_spacing = pos 8;
  position_liquidity = 3;
  decimals_a = 0;
  decimals_b = 0;
  rebalance_cfg = record {
    rebalance_out_of_range = false;
    near_edge_ticks = negsuc 999_999;
    min_net_pnl_usd = num 0;
  };
  range_factor_lower = num 500;
  range_factor_upper = num 2000;
}

abbrev tick_at : ℕ → ℕ → PoolTickRow
tick_at date root = record {
  date = date;
  tick_current = pos (root * root * 1000 - 999);
  sqrt_price = root * 2 ^ 64;
  liquidity = 100;
  fee_growth_global_a = 0;
  fee_growth_global_b = 0;
}

-- The price leaves the range and stays outside.
abbrev leaving : List PoolTickRow
leaving = tick_at 5 9 ∷ tick_at 6 10 ∷ []

abbrev held_run :
    (r : BacktestResult Milli) × (run_db_backtest held (tick_at 5 2 ∷ leaving) ≡ some (ok r))
held_run = run_db_backtest-Returns Milli-IsOrdered held 7 (tick_at 5 2) leaving refl

bounds :
    (price_to_tick (num 1000 ⊘ ui_factor held) (pos 8) ≡ some (pos 0))
    × (price_to_tick (num 64_000 ⊘ ui_factor held) (pos 8) ≡ some (pos 63_000))
unfolding price_to_tick round_down wrap ◌-ℤ◌ ◌*ℕ◌ div_euclid
bounds = (refl, refl)

run_db_backtest-IsLossAt_example :
    (held_run.0.total_rebalances ≡ 0)
    × ((loss_usd : Milli) × IsLossAt held (tick_at 6 10) loss_usd
        × (held_run.0.total_il_usd ≡ num 0 ⊕ loss_usd))
run_db_backtest-IsLossAt_example =
    run_db_backtest-IsLossAt held (pos 0) (pos 63_000) (tick_at 5 2) leaving held_run.0
      (record { out_of_range = refl; near_edge = refl }) bounds.0 bounds.1 (omega arith)
      (omega arith) ((omega arith), ((omega arith), ((omega arith), tt))) held_run.1

abbrev pub core : WhirlpoolsCore
core = record {
  tick_index_to_sqrt_price = λ t. pos_part t * 2 ^ 54;
  try_get_amount_delta_a = λ lower upper liquidity up. some liquidity;
  try_get_amount_delta_b = λ lower upper liquidity up. some liquidity;
}

abbrev config : Config Milli
config = record {
  settings = record {
    from_ts = some (pos 100);
    to_ts = some (pos 400);
    timeframe = "day";
    capital_usd = num 1_000_000;
    range_widths = num 500 ∷ [];
    rebalance = false ∷ [];
  };
  pools =
      record {
        label = "SOL/USDC";
        address = "POOL";
        fee_bps = num 1_000_000;
        decimals_a = 0;
        decimals_b = 0;
        tick_spacing = pos 1;
        pool_liquidity = some 100;
      }
      ∷ [];
}

abbrev get : String → String → ℤ → ℕ → Response Milli
get address timeframe = pages

abbrev day_of : ℤ → ℕ
day_of at = pos_part at / 100

abbrev sweep : List (RunResult Milli)
sweep =
    record {
      label = "SOL/USDC";
      address = "POOL";
      range_width = some (pos 500);
      rebalance = false;
      capital_usd = some (pos 1000000);
      pool_share = some (pos 3330);
      days = 3;
      total_rebalances = 0;
      total_fees_usd = some (pos 48951);
      il_usd = some (negsuc 11999);
      net_pnl_usd = some (pos 36951);
      net_pct = some (pos 3600);
      fee_apy_pct = some (pos 583900);
      days_in_range_pct = some (pos 100000);
      realized_vol = some (pos 3400);
      sharpe = none;
      sortino = none;
      max_drawdown = some (pos 0);
    }
    ∷ []

sweep_test : run_sweep core day_of get config ≡ some (ok sweep)
unfolding run_sweep fetch_range fetch_ohlcv parse_ohlcv_list retain sort_by_key dedup_by_key
    synthesize_ticks price_to_sqrt_q64 saturating_add compute_token_amounts run_db_backtest
    should_rebalance sqrt_q64_to_price fee_apy round_down price_to_tick compute_il from_backtest
    max_drawdown annualized_volatility daily_returns wrap ◌-ℤ◌ ◌*ℕ◌ div_euclid fee_growth_delta
    wrapping_sub
sweep_test = refl

run_sweep-IsCell_example :
    All (IsCell core day_of get config) sweep
    × ((label address : String) (width : Milli) (rebalance : Bool)
        → IsShown label address width rebalance sweep
          ↔ IsPlanned core day_of get config label address width rebalance)
run_sweep-IsCell_example = run_sweep-IsCell core day_of get config sweep sweep_test
