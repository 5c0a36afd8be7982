-- ===== src/Math/Metrics.antt =====
-- The risk metrics of an equity curve: `src/math/metrics.rs`.
pub mod Drawdown
use Prim.Native.Nat.{ℕ}
use tick_liq.Prelude.{
  ◌-◌, ltb, ◌&&◌, not, if◌then◌else◌, Bool, true, false, Option, none, some, List, [], ◌∷◌, map,
  length,
}
use tick_liq.Prelude.Int.{pos}
use tick_liq.Prelude.Float.{Float, ◌⊕◌, ◌⊖◌, ◌⊗◌, ◌⊘◌, ◌≺◌, lit, fabs}
use tick_liq.Prelude.Libm.{Libm, fmin}

pub record RiskMetrics {ℓ} (F : Type ℓ) : Type ℓ where
  pub annual_volatility : F
  pub sharpe : Option F
  pub sortino : Option F
  pub max_drawdown : F
  pub calmar : Option F
  pub total_return : F

pub last? {ℓ} : {A : Type ℓ} → List A → Option A
last? [] = none
last? (x ∷ []) = some x
last? (x ∷ y ∷ xs) = last? (y ∷ xs)

pub first? {ℓ} : {A : Type ℓ} → List A → Option A
first? [] = none
first? (x ∷ xs) = some x

module _ {ℓ} {F : Type ℓ} ⦃f : Float F⦄ where
  pub equity_curve : F → List F → List F
  equity_curve initial_value_usd daily =
      initial_value_usd ∷ map (λ net. initial_value_usd ⊕ net) daily

  -- One window of two points: nothing after a point that is 0.
  return_of : F → F → List F → List F
  return_of prev cur rest = if f.eq prev (lit 0) then rest else (cur ⊖ prev) ⊘ prev ∷ rest

  unfoldable pub daily_returns : List F → List F
  unfolding return_of
  daily_returns [] = []
  daily_returns (prev ∷ []) = []
  daily_returns (prev ∷ cur ∷ rest) = return_of prev cur (daily_returns (cur ∷ rest))

  sum_from : F → List F → F
  sum_from acc [] = acc
  sum_from acc (x ∷ xs) = sum_from (acc ⊕ x) xs

  pub mean : List F → F
  unfolding sum_from
  mean [] = lit 0
  mean (x ∷ xs) = sum_from (lit 0) (x ∷ xs) ⊘ lit (length (x ∷ xs))

  -- The running peak, and the largest drawdown so far.
  dd_step : F → F → F → F
  dd_step peak max_dd v =
      if lit 0 ≺ peak
      then if (v ⊖ peak) ⊘ peak ≺ max_dd then (v ⊖ peak) ⊘ peak else max_dd
      else max_dd

  drawdown_from : F → F → List F → F
  unfolding dd_step
  drawdown_from peak max_dd [] = max_dd
  drawdown_from peak max_dd (v ∷ vs) =
      let peak' = if peak ≺ v then v else peak in drawdown_from peak' (dd_step peak' max_dd v) vs

  -- `f64::NEG_INFINITY`, as the quotient of -1 by 0.
  abbrev pub neg_infinity : F
  neg_infinity = (lit 0 ⊖ lit 1) ⊘ lit 0

  unfoldable pub max_drawdown : List F → F
  unfolding drawdown_from
  max_drawdown equity = drawdown_from neg_infinity (lit 0) equity

  calmar_of : Bool → F → F → Option F
  calmar_of true annual_return max_dd = none
  calmar_of false annual_return max_dd = some (annual_return ⊘ fabs max_dd)

  pub calmar : F → F → Option F
  unfolding calmar_of
  calmar annual_return max_dd = calmar_of (f.eq max_dd (lit 0)) annual_return max_dd

  total_return_of : Option F → Option F → F
  total_return_of none end = lit 0
  total_return_of (some start) none = lit 0
  total_return_of (some start) (some end) =
      if not (f.eq start (lit 0)) then (end ⊖ start) ⊘ start else lit 0

module _ {ℓ} {F : Type ℓ} ⦃f : Float F⦄ ⦃m : Libm F⦄ where
  -- `PERIODS_PER_YEAR.sqrt()`
  sqrt_periods : F
  sqrt_periods = m.sqrt (lit 365)

  pub sample_std : List F → F
  unfolding mean sum_from
  sample_std xs =
      if ltb (length xs) 2
      then lit 0
      else m.sqrt (
          sum_from (lit 0) (map (λ x. m.powi (x ⊖ mean xs) (pos 2)) xs) ⊘ (lit (length xs) ⊖ lit 1))

  unfoldable pub annualized_volatility : List F → F
  unfolding sample_std sqrt_periods
  annualized_volatility returns = sample_std returns ⊗ sqrt_periods

  pub annualized_sharpe : List F → Option F
  unfolding sample_std mean sqrt_periods
  annualized_sharpe returns =
      let sd = sample_std returns in
      if f.eq sd (lit 0) then none else some (mean returns ⊘ sd ⊗ sqrt_periods)

  downside_sq : List F → F
  unfolding sum_from
  downside_sq returns = sum_from (lit 0) (map (λ r. m.powi (fmin r (lit 0)) (pos 2)) returns)

  pub annualized_sortino : List F → Option F
  unfolding sqrt_periods downside_sq mean
  annualized_sortino [] = none
  annualized_sortino (r ∷ rs) =
      let returns = r ∷ rs in
      if f.eq (downside_sq returns) (lit 0)
      then none
      else some (mean returns ⊘ m.sqrt (downside_sq returns ⊘ lit (length returns)) ⊗ sqrt_periods)

  annual_of : ℕ → Option F → Option F → F
  annual_of n_periods none end = lit 0
  annual_of n_periods (some start) none = lit 0
  annual_of n_periods (some start) (some end) =
      if (lit 0 ≺ start) && ((lit 0 ≺ end) && ltb 0 n_periods)
      then m.powf (end ⊘ start) (lit 365 ⊘ lit n_periods) ⊖ lit 1
      else lit 0

  pub annualized_return : List F → F
  unfolding annual_of first? last?
  annualized_return equity = annual_of (length equity - 1) (first? equity) (last? equity)

  pub from_equity : List F → RiskMetrics F
  unfolding total_return_of daily_returns annualized_volatility annualized_sharpe annualized_sortino
      max_drawdown calmar annualized_return first? last?
  from_equity equity =
      let returns = daily_returns equity in
      record {
        annual_volatility = annualized_volatility returns;
        sharpe = annualized_sharpe returns;
        sortino = annualized_sortino returns;
        max_drawdown = max_drawdown equity;
        calmar = calmar (annualized_return equity) (max_drawdown equity);
        total_return = total_return_of (first? equity) (last? equity);
      }

  unfoldable pub from_backtest : F → List F → RiskMetrics F
  unfolding from_equity equity_curve
  from_backtest initial_value_usd daily = from_equity (equity_curve initial_value_usd daily)
