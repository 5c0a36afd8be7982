-- ===== src/Examples/Backtest.antt =====
-- The backtests at concrete inputs: three ticks on two days, two simulated days, and two candles.
use tick_liq.Prelude.{
  ◌%◌, ◌++◌, All, ℕ, ◌*◌, ◌-◌, ◌^◌, ◌≡◌, refl, true, false, List, [], ◌∷◌, some, map,
}
use tick_liq.Prelude.Int.{div_euclid, ◌*ℕ◌, pos, negsuc, ◌-ℤ◌}
use tick_liq.Prelude.Result.{ok}
use tick_liq.Prelude.Milli.{Milli, milli_float, milli_libm, Milli-IsOrdered}
use tick_liq.Math.Il.{compute_il, compute_il-IsLoss}
use tick_liq.Math.Price.{round_down, price_to_tick, sqrt_q64_to_price}
use tick_liq.Strategy.Signal.{should_rebalance}
use tick_liq.Backtest.{fee_apy, BacktestResult, DayResult}
use tick_liq.Backtest.Replay.{DbBacktestInput, PoolTickRow, run_db_backtest}
use tick_liq.Prelude.Word.{u32_mod, wrapping_sub, wrap}
use tick_liq.Math.Fees.{fee_growth_delta}
use tick_liq.Backtest.Totals.{count_in_range, IsNet, IsTotal}
use tick_liq.Backtest.Replay.Rows.{run_db_backtest-rows, key, numbered, last_of_days, ledger}
use tick_liq.Backtest.Replay.Sums.{run_db_backtest-IsTotal}
use tick_liq.Backtest.Replay.Runs.{run_db_backtest-Returns}
use tick_liq.Prelude.Float.{◌≼◌}

abbrev num : ℕ → Milli
num n = some (pos n)

compute_il_test :
    compute_il {F = Milli} (num 1000) (num 4000) (num 250) (num 2250) ≡ some (some (negsuc 455))
unfolding compute_il
compute_il_test = refl

abbrev input : DbBacktestInput Milli
input = record {
  initial_value_usd = num 1_000_000;
  entry_price = num 1000;
  price_lower = num 1000;
  price_upper = num 64_000;
  fee_rate_bps = num 5000;
  tick_spacing = pos 8;
  position_liquidity = 3;
  decimals_a = 0;
  decimals_b = 0;
  rebalance_cfg = record {
    rebalance_out_of_range = true;
    near_edge_ticks = negsuc 0;
    min_net_pnl_usd = num 0;
  };
  range_factor_lower = num 500;
  range_factor_upper = num 2000;
}

-- A tick at the price `root * root`.
abbrev tick_at : ℕ → ℕ → ℕ → ℕ → PoolTickRow
tick_at date root liquidity growth = record {
  date = date;
  tick_current = pos (root * root * 1000 - 999);
  sqrt_price = root * 2 ^ 64;
  liquidity = liquidity;
  fee_growth_global_a = growth * 2 ^ 64;
  fee_growth_global_b = 0;
}

abbrev first_tick : PoolTickRow
first_tick = tick_at 5 2 100 7

abbrev later_ticks : List PoolTickRow
later_ticks = tick_at 5 3 100 9 ∷ tick_at 6 9 0 20 ∷ tick_at 7 9 100 21 ∷ []

abbrev replay_result : BacktestResult Milli
replay_result = record {
  params_snapshot = record {
    entry_price = some (pos 1000);
    price_lower = some (pos 1000);
    price_upper = some (pos 64000);
    fee_rate_bps = some (pos 5000);
    annual_vol_pct = some (pos 0);
    daily_volume_usd = some (pos 0);
    initial_value_usd = some (pos 1000000);
  };
  days =
      record {
        day = 1;
        price = some (pos 9000);
        in_range = true;
        cumulative_fees_usd = some (pos 54000);
        il_usd = some (negsuc 508999);
        net_pnl_usd = some (negsuc 454999);
      }
      ∷ record {
        day = 2;
        price = some (pos 81000);
        in_range = false;
        cumulative_fees_usd = some (pos 54000);
        il_usd = some (negsuc 901999);
        net_pnl_usd = some (negsuc 847999);
      }
      ∷ record {
        day = 3;
        price = some (pos 81000);
        in_range = true;
        cumulative_fees_usd = some (pos 297000);
        il_usd = some (negsuc 901999);
        net_pnl_usd = some (negsuc 604999);
      }
      ∷ [];
  total_fees_usd = some (pos 297000);
  total_il_usd = some (negsuc 901999);
  net_pnl_usd = some (negsuc 604999);
  total_rebalances = 1;
  days_in_range = 2;
  fee_apy_pct = some (pos 3613400);
}

replay_test : run_db_backtest input (first_tick ∷ later_ticks) ≡ some (ok replay_result)
unfolding run_db_backtest should_rebalance sqrt_q64_to_price fee_apy round_down price_to_tick
    compute_il wrap ◌-ℤ◌ ◌*ℕ◌ div_euclid fee_growth_delta wrapping_sub
replay_test = refl

run_db_backtest-rows_example :
    map key replay_result.days
    ≡ numbered input 0
        (last_of_days (first_tick, num 0) (ledger input first_tick (num 0) later_ticks))
run_db_backtest-rows_example =
    run_db_backtest-rows input first_tick later_ticks replay_result replay_test

run_db_backtest-IsTotal_example :
    ((rows : List (DayResult Milli)) × (row : DayResult Milli) × (replay_result.days
        ≡ rows ++ row ∷ [])
      × IsTotal replay_result row)
    × All IsNet replay_result.days
    × (2 ≡ count_in_range replay_result.days % u32_mod)
run_db_backtest-IsTotal_example =
    run_db_backtest-IsTotal input (first_tick ∷ later_ticks) replay_result replay_test

run_db_backtest-Returns_example :
    (r : BacktestResult Milli) × (run_db_backtest input (first_tick ∷ later_ticks) ≡ some (ok r))
run_db_backtest-Returns_example =
    run_db_backtest-Returns Milli-IsOrdered input 7 first_tick later_ticks refl

compute_il-IsLoss_example :
    (v : Milli) × (compute_il (num 1000) (num 4000) (num 250) (num 2250) ≡ some v)
    × ((v ≼ num 0) ≡ true)
compute_il-IsLoss_example =
    compute_il-IsLoss Milli-IsOrdered (num 1000) (num 4000) (num 250) (num 2250)
