-- ===== src/Commands/Backfill.antt =====
-- The command `backfill` of `src/main.rs`, and the command `backtest` over the rows that it writes. The
-- dates are given as the seconds of their midnights.
pub mod Replayed
use tick_liq.Prelude.{
  ◌>>=◌, false, true, ℕ, Bool, List, [], ◌∷◌, Option, some, none, length, ◌==◌, if◌then◌else◌,
}
use tick_liq.Prelude.Result.{Result, ok, err}
use tick_liq.Prelude.Int.{ℤ, leb_ℤ}
use tick_liq.Feeds.Candles.{OhlcvCandle, Response, FetchError, fetch_range}
use tick_liq.Backtest.Backfill.{PoolTick, PoolSynthParams, synthesize_ticks}
use tick_liq.Storage.{write_pool_ticks, read_ticks, ReadError}
use tick_liq.Backtest.Replay.{DbBacktestInput, run_db_backtest, ReplayError}
use tick_liq.Prelude.Float.{Float}
use tick_liq.Prelude.Libm.{Libm}
use tick_liq.Backtest.{BacktestResult}
use Prim.Native.String.{String}
use tick_liq.Research.{to_rows}

pub record BackfillArgs {ℓ} (F : Type ℓ) : Type ℓ where
  pub from_ts : ℤ
  pub to_ts : ℤ
  pub params : PoolSynthParams F
  pub dry_run : Bool

pub data BackfillError : Type 0 where
  empty_window : BackfillError
  no_liquidity : BackfillError
  fetch_failed : FetchError → BackfillError
  no_candles : BackfillError
  no_database : BackfillError
  write_failed : BackfillError

pub data Done : Type 0 where
  dry : ℕ → Done
  wrote : ℕ → Done

abbrev pub written :
    List PoolTick × Result (Unit {0}) ℕ → Option (List PoolTick) × Result BackfillError Done
written (table, ok n) = (some table, ok (wrote n))
written (table, err e) = (some table, err write_failed)

module _ (begins : Bool) (works : ℕ → Bool) (commits : Bool) where
  -- The rows are made; the table is there if DATABASE_URL is set.
  unfoldable store_rows :
      Bool
      → Option (List PoolTick)
      → List PoolTick
      → Option (List PoolTick) × Result BackfillError Done
  store_rows true db ticks = (db, ok (dry (length ticks)))
  store_rows false none ticks = (none, err no_database)
  store_rows false (some table) ticks = written (write_pool_ticks begins works commits table ticks)

module _ {ℓ} {F : Type ℓ} ⦃f : Float F⦄ ⦃m : Libm F⦄ (begins : Bool) (works : ℕ → Bool)
    (commits : Bool) where
  -- `none` is the panic of the price.
  unfoldable of_candles :
      BackfillArgs F
      → Option (List PoolTick)
      → Result FetchError (List (OhlcvCandle F))
      → Option (Option (List PoolTick) × Result BackfillError Done)
  unfolding store_rows
  of_candles args db (err e) = some (db, err (fetch_failed e))
  of_candles args db (ok []) = some (db, err no_candles)
  of_candles args db (ok (c ∷ cs)) = do
    ticks ← synthesize_ticks (c ∷ cs) args.params
    some (store_rows begins works commits args.dry_run db ticks)

  unfoldable pub backfill :
      (ℤ → ℕ → Response F)
      → BackfillArgs F
      → Option (List PoolTick)
      → Option (Option (List PoolTick) × Result BackfillError Done)
  unfolding of_candles
  backfill get args db =
      if leb_ℤ args.to_ts args.from_ts
      then some (db, err empty_window)
      else if args.params.pool_liquidity == 0
      then some (db, err no_liquidity)
      else of_candles args db (fetch_range get args.from_ts args.to_ts)

pub data BacktestError : Type 0 where
  no_window : BacktestError
  unread : ReadError → BacktestError
  no_ticks : BacktestError
  not_replayed : ReplayError → BacktestError

module _ {ℓ} {F : Type ℓ} ⦃f : Float F⦄ ⦃m : Libm F⦄ where
  unfoldable pub replay_result :
      Option (Result ReplayError (BacktestResult F))
      → Option (Result BacktestError (BacktestResult F))
  replay_result none = none
  replay_result (some (err e)) = some (err (not_replayed e))
  replay_result (some (ok r)) = some (ok r)

  unfoldable of_ticks :
      (ℤ → ℕ)
      → DbBacktestInput F
      → Result ReadError (List PoolTick)
      → Option (Result BacktestError (BacktestResult F))
  unfolding replay_result
  of_ticks date_naive input (err e) = some (err (unread e))
  of_ticks date_naive input (ok []) = some (err no_ticks)
  of_ticks date_naive input (ok (t ∷ ts)) =
      replay_result (run_db_backtest input (to_rows date_naive (t ∷ ts)))

  -- `backtest --pool`.
  unfoldable pub backtest_db :
      Bool
      → (ℤ → ℕ)
      → List PoolTick
      → String
      → ℤ
      → ℤ
      → DbBacktestInput F
      → Option (Result BacktestError (BacktestResult F))
  unfolding of_ticks
  backtest_db selects date_naive table pool_addr from_ts to_ts input =
      if leb_ℤ to_ts from_ts
      then some (err no_window)
      else of_ticks date_naive input (read_ticks selects table pool_addr from_ts to_ts)
