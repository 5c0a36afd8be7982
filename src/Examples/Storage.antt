-- ===== src/Examples/Storage.antt =====
-- Batches of rows, and a backfill that is replayed, at concrete inputs.
use tick_liq.Examples.Simulation.{pool, made_up}
use tick_liq.Prelude.Milli.{milli_float, milli_libm}
use tick_liq.Examples.Research.{pages}
use tick_liq.Prelude.Result.{ok, err}
use tick_liq.Backtest.Backfill.{saturating_add, synthesize_ticks, PoolTick}
use tick_liq.Prelude.Int.{div_euclid, ◌*ℕ◌, ◌-ℤ◌, ℤ, pos}
use tick_liq.Prelude.{ℕ, length, some, false, arith, refl, ◌⊎◌, [], ◌≡◌, ◌==◌, true, ◌∷◌, List, All}
use tick_liq.Storage.{write_pool_ticks, read_ticks}
use tick_liq.Storage.ReadBack.{read_ticks-write_pool_ticks, IsOwn}
use tick_liq.Storage.Laws.{write_pool_ticks-IsExtended, IsExtended}
use tick_liq.Feeds.Candles.{parse_ohlcv_list, fetch_ohlcv, fetch_range, OhlcvCandle}
use tick_liq.Commands.Backfill.{wrote, replay_result, backtest_db, backfill, BackfillArgs}
use tick_liq.Prelude.Milli.{milli_float, Milli-IsCast, Milli}
use tick_liq.Prelude.Sort.{dedup_by_key, sort_by_key, retain}
use tick_liq.Math.Price.{price_to_tick, round_down, price_to_sqrt_q64}
use tick_liq.Backtest.Replay.{run_db_backtest, DbBacktestInput}
use tick_liq.Research.{to_rows}
use tick_liq.Prelude.Word.{wrap}
use tick_liq.Commands.Backfill.Replayed.{backfill-backtest_db}

abbrev other_row : PoolTick
other_row = record {
  pool_address = "OTHER";
  slot = pos 7;
  tick_current = pos 0;
  sqrt_price = 1;
  liquidity = 1;
  fee_growth_global_a = 0;
  fee_growth_global_b = 0;
  observed_at = pos 1100;
}

abbrev table : List PoolTick
table = other_row ∷ []

-- The second statement fails: nothing is left of the first.
rolled_back : write_pool_ticks true (λ i. i == 0) true table made_up ≡ (table, err tt)
unfolding write_pool_ticks
rolled_back = refl

write_pool_ticks-IsExtended_example :
    let (table', r) = write_pool_ticks true (λ i. true) true table made_up in
    IsExtended table table' × ((r ≡ ok 3) ⊎ ((r ≡ err tt) × (table' ≡ table)))
write_pool_ticks-IsExtended_example =
    write_pool_ticks-IsExtended true (λ i. true) true table made_up

committed :
    (table' : List PoolTick) × (write_pool_ticks true (λ i. true) true table made_up
      ≡ (table', ok 3))
unfolding write_pool_ticks
committed = (_, refl)

made_up-IsOwn : All (IsOwn "POOL" (pos 1000) (pos 1301)) made_up
made_up-IsOwn = (
  record { address = refl; after = omega arith; before = omega arith; words = refl },
  (
    record { address = refl; after = omega arith; before = omega arith; words = refl },
    (record { address = refl; after = omega arith; before = omega arith; words = refl }, tt),
  ),
)

read_ticks-write_pool_ticks_example :
    read_ticks true committed.0 "POOL" (pos 1000) (pos 1301) ≡ ok made_up
read_ticks-write_pool_ticks_example =
    read_ticks-write_pool_ticks "POOL" (pos 1000) (pos 1301) true (λ i. true) true table made_up
      committed.0 committed.1 (refl, tt) (omega arith, (omega arith, tt))
      (omega arith, (omega arith, tt)) made_up-IsOwn

abbrev args : BackfillArgs Milli
args = record { from_ts = pos 100; to_ts = pos 400; params = pool; dry_run = false }

-- Three candles are fetched, and their rows written.
filled :
    (table' : List PoolTick) × (n : ℕ) × (backfill true (λ i. true) true pages args (some table)
      ≡ some (some table', ok (wrote n)))
unfolding backfill write_pool_ticks fetch_range fetch_ohlcv parse_ohlcv_list retain sort_by_key
    dedup_by_key synthesize_ticks price_to_sqrt_q64 saturating_add round_down price_to_tick wrap
    ◌-ℤ◌ ◌*ℕ◌ div_euclid
filled = (_, _, refl)

backfill-backtest_db_example :
    (candles : List (OhlcvCandle Milli)) × (ticks : List PoolTick) × (fetch_range pages
        (pos 100)
        (pos 400)
      ≡ ok candles)
    × (synthesize_ticks candles pool ≡ some ticks)
    × (filled.1 ≡ length ticks)
    × ((date_naive : ℤ → ℕ) (input : DbBacktestInput Milli)
        → backtest_db true date_naive filled.0 "POOL" (pos 100) (pos 400) input
          ≡ replay_result (run_db_backtest input (to_rows date_naive ticks)))
unfolding ◌-ℤ◌
backfill-backtest_db_example =
    backfill-backtest_db true (λ i. true) true Milli-IsCast pages args table filled.0 filled.1
      (omega arith, omega arith) (omega arith, omega arith) (omega arith) (refl, tt) filled.2
