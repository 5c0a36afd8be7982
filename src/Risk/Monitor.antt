-- ===== src/Risk/Monitor.antt =====
-- `src/strategy/risk_monitor.rs`: the risk state of a pool and `RiskMonitor::evaluate`. A time is a
-- number of seconds, and `Utc::now()` an argument.
pub mod Decision
pub mod Latch
pub mod Peak
use Prim.Native.String.{String}
use tick_liq.Prelude.{ℕ, Bool, true, false, Option, none, some, List, if◌then◌else◌}
use tick_liq.Prelude.Float.{Float, ◌⊖◌, ◌⊗◌, ◌⊘◌, ◌≺◌, ◌≼◌, fabs, lit}

-- `storage::writer::PnlSnapshot`
pub record PnlSnapshot {ℓ} (F : Type ℓ) : Type ℓ where
  pub mint : String
  pub pool_address : String
  pub fees_earned : F
  pub il_usd : F
  pub net_pnl : F
  pub position_value : F
  pub price : F
  pub observed_at : ℕ

pub record RiskState {ℓ} (F : Type ℓ) : Type ℓ where
  pub pool_address : String
  pub peak_pnl : F
  pub current_drawdown_pct : F
  pub pause_flag : Bool
  pub halt_flag : Bool
  pub operator_pause : Bool
  pub updated_at : ℕ

pub data RiskAction {ℓ} (F : Type ℓ) : Type ℓ where
  continue : RiskAction F
  pause_rebalancing : F → RiskAction F
  resume_rebalancing : F → RiskAction F
  halt_all : F → RiskAction F
  close_drift_hedge : F → RiskAction F

-- The 32 bytes of a `Pubkey`.
abbrev pub Pubkey : Type 0
Pubkey = List ℕ

pub record RiskMonitor {ℓ} (F : Type ℓ) : Type ℓ where
  pub state : RiskState F
  pub max_drawdown_pct : Option F
  pub max_il_pct : Option F
  pub drift_min_margin_ratio : Option F
  pub drift_user_pubkey : Option Pubkey
  pub rpc_url : String

module _ {ℓ} {F : Type ℓ} where
  -- `RiskMonitor::new`
  unfoldable pub new :
      RiskState F → Option F → Option F → Option F → Option Pubkey → String → RiskMonitor F
  new state max_drawdown_pct max_il_pct drift_min_margin_ratio drift_user_pubkey rpc_url = record {
    state = state;
    max_drawdown_pct = max_drawdown_pct;
    max_il_pct = max_il_pct;
    drift_min_margin_ratio = drift_min_margin_ratio;
    drift_user_pubkey = drift_user_pubkey;
    rpc_url = rpc_url;
  }

  abbrev pub with_state : RiskMonitor F → RiskState F → RiskMonitor F
  with_state m s = record m { state = s }

  -- `self.state.updated_at = Utc::now()`
  abbrev pub touch : RiskMonitor F → ℕ → RiskMonitor F
  touch m now = with_state m (record (m.state) { updated_at = now })

module _ {ℓ} {F : Type ℓ} ⦃f : Float F⦄ where
  -- `MIN_PEAK_USD`
  abbrev pub min_peak_usd : F
  min_peak_usd = lit 1

  -- Step 2 of `evaluate`: the high-water mark.
  abbrev pub raised_peak : F → F → F
  raised_peak peak net = if peak ≺ net then net else peak

  abbrev pub drawdown_pct : F → F → F
  drawdown_pct peak net = (peak ⊖ net) ⊘ peak ⊗ lit 100

  abbrev pub il_pct : PnlSnapshot F → F
  il_pct snap =
      if lit 0 ≺ snap.position_value
      then fabs snap.il_usd ⊘ snap.position_value ⊗ lit 100
      else lit 0

  -- Steps 5 and 6: the Drift margin, then `Continue`.
  check_margin : RiskMonitor F → Option F → ℕ → RiskMonitor F × RiskAction F
  check_margin m margin now = elim m.drift_min_margin_ratio [
    | none ↦ (touch m now, continue)
    | some min_ratio ↦ elim margin [
      | none ↦ (touch m now, continue)
      | some ratio ↦
          if ratio ≺ min_ratio
          then (touch m now, close_drift_hedge ratio)
          else (touch m now, continue)
    ]
  ]

  -- Step 4: the impermanent loss.
  check_il : RiskMonitor F → PnlSnapshot F → Option F → ℕ → RiskMonitor F × RiskAction F
  unfolding check_margin
  check_il m snap margin now = elim m.max_il_pct [
    | none ↦ check_margin m margin now
    | some max_il ↦
        if max_il ≺ il_pct snap
        then (
          with_state m (record (m.state) { pause_flag = true; updated_at = now }),
          pause_rebalancing (il_pct snap),
        )
        else if m.state.pause_flag
        then (
          with_state m (record (m.state) { pause_flag = false; updated_at = now }),
          resume_rebalancing (il_pct snap),
        )
        else check_margin m margin now
  ]

  -- Step 3: the drawdown, which is skipped while no peak is established.
  check_drawdown : RiskMonitor F → PnlSnapshot F → Option F → ℕ → RiskMonitor F × RiskAction F
  unfolding check_il
  check_drawdown m snap margin now = elim m.max_drawdown_pct [
    | none ↦ check_il m snap margin now
    | some max_dd ↦
        let drawdown = drawdown_pct m.state.peak_pnl snap.net_pnl in
        let m' = with_state m (record (m.state) { current_drawdown_pct = drawdown }) in
        if min_peak_usd ≼ m.state.peak_pnl
        then (if max_dd ≺ drawdown
            then (
              with_state m (record (m.state) {
                current_drawdown_pct = drawdown;
                halt_flag = true;
                updated_at = now;
              }),
              halt_all drawdown,
            )
            else check_il m' snap margin now)
        else check_il m snap margin now
  ]

  unfoldable pub evaluate :
      RiskMonitor F → PnlSnapshot F → Option F → ℕ → RiskMonitor F × RiskAction F
  unfolding check_drawdown
  evaluate m snap margin now =
      if m.state.halt_flag
      then (touch m now, halt_all m.state.current_drawdown_pct)
      else check_drawdown
          (with_state m (record (m.state) { peak_pnl = raised_peak m.state.peak_pnl snap.net_pnl }))
          snap margin now
