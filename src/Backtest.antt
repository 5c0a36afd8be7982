-- ===== src/Backtest.antt =====
-- The backtests: what `src/backtest/mod.rs` and `src/backtest/db_replay.rs` report, one row for each day
-- and the totals. The counters are `u32`, which wrap.
pub mod Totals
pub mod Replay
pub mod Gbm
pub mod Backfill
use tick_liq.Prelude.{ℕ, ◌+◌, ◌%◌, ◌&&◌, Bool, List, ltb, if◌then◌else◌}
use tick_liq.Prelude.Word.{u32_mod}
use tick_liq.Prelude.Float.{Float, ◌⊗◌, ◌⊘◌, ◌≺◌, lit}

pub record DayResult {ℓ} (F : Type ℓ) : Type ℓ where
  pub day : ℕ
  pub price : F
  pub in_range : Bool
  pub cumulative_fees_usd : F
  pub il_usd : F
  pub net_pnl_usd : F

pub record ParamsSnapshot {ℓ} (F : Type ℓ) : Type ℓ where
  pub entry_price : F
  pub price_lower : F
  pub price_upper : F
  pub fee_rate_bps : F
  pub annual_vol_pct : F
  pub daily_volume_usd : F
  pub initial_value_usd : F

pub record BacktestResult {ℓ} (F : Type ℓ) : Type ℓ where
  pub params_snapshot : ParamsSnapshot F
  pub days : List (DayResult F)
  pub total_fees_usd : F
  pub total_il_usd : F
  pub net_pnl_usd : F
  pub total_rebalances : ℕ
  pub days_in_range : ℕ
  pub fee_apy_pct : F

-- `n += 1` on `u32`.
abbrev pub next_u32 : ℕ → ℕ
next_u32 n = (n + 1) % u32_mod

module _ {ℓ} {F : Type ℓ} ⦃f : Float F⦄ where
  unfoldable pub fee_apy : F → F → ℕ → F
  fee_apy total_fees initial_value_usd days =
      if ltb 0 days && (lit 0 ≺ initial_value_usd)
      then total_fees ⊘ initial_value_usd ⊗ (lit 365 ⊘ lit days) ⊗ lit 100
      else lit 0
