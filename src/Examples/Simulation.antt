-- ===== src/Examples/Simulation.antt =====
-- The simulation and the backfill at concrete inputs.
use tick_liq.Prelude.{◌<◌, ℕ, ◌^◌, ◌≡◌, refl, true, false, List, [], ◌∷◌, some, map, arith}
use tick_liq.Prelude.Int.{div_euclid, ◌*ℕ◌, pos, negsuc, ◌-ℤ◌}
use tick_liq.Prelude.Milli.{Milli, milli_float, milli_libm, Milli-IsOrdered}
use tick_liq.Math.Il.{compute_il}
use tick_liq.Math.Price.{price_to_sqrt_q64, round_down, price_to_tick}
use tick_liq.Strategy.Signal.{should_rebalance}
use tick_liq.Backtest.{fee_apy, BacktestResult}
use tick_liq.Prelude.Word.{u128_mod, wrap}
use tick_liq.Backtest.Gbm.{BacktestParams, run, seeded, daily_fees}
use tick_liq.Backtest.Gbm.Rows.{run-rows, days_from, running}
use tick_liq.Backtest.Gbm.Runs.{run-Returns}
use tick_liq.Feeds.Candles.{OhlcvCandle}
use tick_liq.Backtest.Backfill.{PoolSynthParams, PoolTick, synthesize_ticks, saturating_add}
use tick_liq.Backtest.Backfill.Growth.{total, deltas, increment, synthesize_ticks-deltas}

abbrev pub num : ℕ → Milli
num n = some (pos n)

abbrev params : BacktestParams Milli
params = record {
  entry_price = num 100_000;
  price_lower = num 95_000;
  price_upper = num 105_000;
  fee_rate_bps = num 50_000;
  initial_value_usd = num 1_000_000;
  days = 2;
  annual_volatility = num 100;
  daily_volume_usd = num 10_000_000;
  position_volume_share = num 500;
  tick_spacing = pos 1;
  strategy_rebalance = true;
}

abbrev simulated : BacktestResult Milli
simulated = record {
  params_snapshot = record {
    entry_price = some (pos 100000);
    price_lower = some (pos 95000);
    price_upper = some (pos 105000);
    fee_rate_bps = some (pos 50000);
    annual_vol_pct = some (pos 10000);
    daily_volume_usd = some (pos 10000000);
    initial_value_usd = some (pos 1000000);
  };
  days =
      record {
        day = 1;
        price = some (pos 102800);
        in_range = true;
        cumulative_fees_usd = some (pos 25000);
        il_usd = some (negsuc 119999);
        net_pnl_usd = some (negsuc 94999);
      }
      ∷ record {
        day = 2;
        price = some (pos 105061);
        in_range = false;
        cumulative_fees_usd = some (pos 25000);
        il_usd = some (negsuc 121999);
        net_pnl_usd = some (negsuc 96999);
      }
      ∷ [];
  total_fees_usd = some (pos 25000);
  total_il_usd = some (negsuc 121999);
  net_pnl_usd = some (negsuc 96999);
  total_rebalances = 1;
  days_in_range = 1;
  fee_apy_pct = some (pos 456200);
}

run_test : run params 42 ≡ some simulated
unfolding run seeded should_rebalance fee_apy round_down price_to_tick compute_il wrap ◌-ℤ◌ ◌*ℕ◌
    div_euclid
run_test = refl

run-rows_example :
    (map (λ row. row.day) simulated.days ≡ days_from 1 2)
    × (map (λ row. row.cumulative_fees_usd) simulated.days
        ≡ running (daily_fees params) (num 0) (true ∷ false ∷ []))
run-rows_example = run-rows params 42 simulated run_test

simulation_returns : (r : BacktestResult Milli) × (run params 7 ≡ some r)
simulation_returns = run-Returns Milli-IsOrdered params 0 7 refl

abbrev candle : ℕ → ℕ → ℕ → OhlcvCandle Milli
candle at price volume = record {
  timestamp = pos at;
  open_price = num price;
  high = num price;
  low = num price;
  close = num price;
  volume_usd = num volume;
}

-- A price of 2, and a volume of 50 and then of none.
abbrev candles : List (OhlcvCandle Milli)
candles = candle 1000 2000 50_000 ∷ candle 1300 2100 0 ∷ []

abbrev pub pool : PoolSynthParams Milli
pool = record {
  pool_address = "POOL";
  fee_rate_bps = num 1_000_000;
  pool_liquidity = 5;
  decimals_a = 0;
  decimals_b = 0;
  tick_spacing = pos 1;
}

abbrev pub made_up : List PoolTick
made_up =
    record {
      pool_address = "POOL";
      slot = pos 999;
      tick_current = pos 1001;
      sqrt_price = 26083696120225305985;
      liquidity = 5;
      fee_growth_global_a = 0;
      fee_growth_global_b = 0;
      observed_at = pos 1000;
    }
    ∷ record {
      pool_address = "POOL";
      slot = pos 1000;
      tick_current = pos 1001;
      sqrt_price = 26083696120225305985;
      liquidity = 5;
      fee_growth_global_a = 0;
      fee_growth_global_b = 2 ^ 64;
      observed_at = pos 1000;
    }
    ∷ record {
      pool_address = "POOL";
      slot = pos 1300;
      tick_current = pos 1101;
      sqrt_price = 26729332162805140291;
      liquidity = 5;
      fee_growth_global_a = 0;
      fee_growth_global_b = 2 ^ 64;
      observed_at = pos 1300;
    }
    ∷ []

synthesize_test : synthesize_ticks candles pool ≡ some made_up
unfolding synthesize_ticks price_to_sqrt_q64 saturating_add round_down price_to_tick wrap ◌-ℤ◌ ◌*ℕ◌
    div_euclid
synthesize_test = refl

bounded : total (map (increment pool) candles) < u128_mod
unfolding increment
bounded = omega arith

synthesize_ticks-deltas_example : deltas made_up ≡ map (increment pool) candles
synthesize_ticks-deltas_example =
    synthesize_ticks-deltas candles pool made_up synthesize_test bounded
