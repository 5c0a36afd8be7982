-- ===== src/Research/Input.antt =====
-- The configuration and the rows of `src/research.rs`, and how a sweep ends.
use tick_liq.Prelude.{ℕ, Bool, Option, none, some, List, [], ◌∷◌, ◌++◌}
use Prim.Native.String.{String}
use tick_liq.Prelude.Int.{ℤ, negsuc}
use tick_liq.Prelude.Result.{Result, ok, err}
use tick_liq.Backtest.Replay.{ReplayError}

abbrev pub near_edge_off_ticks : ℤ
near_edge_off_ticks = negsuc 999_999

-- The dates as timestamps, if they parse.
pub record Settings {ℓ} (F : Type ℓ) : Type ℓ where
  pub from_ts : Option ℤ
  pub to_ts : Option ℤ
  pub timeframe : String
  pub capital_usd : F
  pub range_widths : List F
  pub rebalance : List Bool

-- The liquidity as an `u128`, if it parses.
pub record PoolCfg {ℓ} (F : Type ℓ) : Type ℓ where
  pub label : String
  pub address : String
  pub fee_bps : F
  pub decimals_a : ℕ
  pub decimals_b : ℕ
  pub tick_spacing : ℤ
  pub pool_liquidity : Option ℕ

pub record Config {ℓ} (F : Type ℓ) : Type ℓ where
  pub settings : Settings F
  pub pools : List (PoolCfg F)

pub record RunResult {ℓ} (F : Type ℓ) : Type ℓ where
  pub label : String
  pub address : String
  pub range_width : F
  pub rebalance : Bool
  pub capital_usd : F
  pub pool_share : F
  pub days : ℕ
  pub total_rebalances : ℕ
  pub total_fees_usd : F
  pub il_usd : F
  pub net_pnl_usd : F
  pub net_pct : F
  pub fee_apy_pct : F
  pub days_in_range_pct : F
  pub realized_vol : F
  pub sharpe : Option F
  pub sortino : Option F
  pub max_drawdown : F

pub data ResearchError : Type 0 where
  invalid_date : ResearchError
  to_before_from : ResearchError
  liquidity_not_u128 : String → ResearchError
  amounts_failed : ResearchError
  backtest_failed : ReplayError → ResearchError

-- A panic, an error or a value.
abbrev pub Sweep {ℓ} : Type ℓ → Type ℓ
Sweep A = Option (Result ResearchError A)

abbrev pub and_sweep {ℓ κ} : {A : Type ℓ} {B : Type κ} → Sweep A → (A → Sweep B) → Sweep B
and_sweep none next = none
and_sweep (some (err e)) next = some (err e)
and_sweep (some (ok a)) next = next a

-- A call that may panic, and one that may fail.
abbrev pub or_panic {ℓ} : {A : Type ℓ} → Option A → Sweep A
or_panic none = none
or_panic (some a) = some (ok a)

abbrev pub or_error {ℓ} : {A : Type ℓ} → ResearchError → Option A → Sweep A
or_error e none = some (err e)
or_error e (some a) = some (ok a)

abbrev pub replay_error {ℓ} : {A : Type ℓ} → Option (Result ReplayError A) → Sweep A
replay_error none = none
replay_error (some (err e)) = some (err (backtest_failed e))
replay_error (some (ok a)) = some (ok a)

-- The results of a loop, one after the other.
abbrev pub each {ℓ κ} : {A : Type ℓ} {B : Type κ} → (A → Sweep (List B)) → List A → Sweep (List B)
each body [] = some (ok [])
each body (x ∷ xs) =
    and_sweep (body x) (λ out. and_sweep (each body xs) (λ rest. some (ok (out ++ rest))))
