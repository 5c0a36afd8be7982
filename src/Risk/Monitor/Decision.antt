-- ===== src/Risk/Monitor/Decision.antt =====
-- What `evaluate` returns and which fields it changes, against a description that does not follow its
-- control flow.
use tick_liq.Risk.Monitor.{
  resume_rebalancing, il_pct, min_peak_usd, close_drift_hedge, drawdown_pct, pause_rebalancing,
  halt_all, continue, raised_peak, RiskMonitor, PnlSnapshot, RiskAction, evaluate,
}
use tick_liq.Prelude.{
  true, ◌&&◌, [], false, none, ◌||◌, some, ◌∷◌, ◌≡◌, arith, ℕ, Option, if◌then◌else◌, List, Bool,
}
use tick_liq.Prelude.Float.{◌≼◌, ◌≺◌, Float}

-- The first verdict of a list, in the order of the limits.
abbrev first {ℓ} : {A : Type ℓ} → A → List (Option A) → A
first default [] = default
first default (none ∷ vs) = first default vs
first default (some v ∷ vs) = v

abbrev when {ℓ} : {A : Type ℓ} → Bool → A → Option A
when b a = if b then some a else none

module _ {ℓ} {F : Type ℓ} ⦃f : Float F⦄ where
  -- The high-water mark that a tick is judged by.
  abbrev pub peak_at : RiskMonitor F → PnlSnapshot F → F
  peak_at m snap = raised_peak m.state.peak_pnl snap.net_pnl

  -- Does the tick breach the drawdown limit?
  abbrev pub breach : RiskMonitor F → PnlSnapshot F → Bool
  breach m snap = elim m.max_drawdown_pct [
    | none ↦ false
    | some limit ↦
        (min_peak_usd ≼ peak_at m snap) && (limit ≺ drawdown_pct (peak_at m snap) snap.net_pnl)
  ]

  -- Does the tick exceed the limit of impermanent loss? `none` if there is no limit.
  abbrev pub il_breach : RiskMonitor F → PnlSnapshot F → Option Bool
  il_breach m snap = elim m.max_il_pct [ none ↦ none | some limit ↦ some (limit ≺ il_pct snap) ]

  abbrev il_verdict : RiskMonitor F → PnlSnapshot F → Option (RiskAction F)
  il_verdict m snap = elim (il_breach m snap) [
    | none ↦ none
    | some true ↦ some (pause_rebalancing (il_pct snap))
    | some false ↦ when m.state.pause_flag (resume_rebalancing (il_pct snap))
  ]

  abbrev margin_verdict : RiskMonitor F → Option F → Option (RiskAction F)
  margin_verdict m margin = elim m.drift_min_margin_ratio [
    | none ↦ none
    | some limit ↦ elim margin [ none ↦ none | some r ↦ when (r ≺ limit) (close_drift_hedge r) ]
  ]

  abbrev pub verdict : RiskMonitor F → PnlSnapshot F → Option F → RiskAction F
  verdict m snap margin = first continue (
      when m.state.halt_flag (halt_all m.state.current_drawdown_pct)
      ∷ when (breach m snap) (halt_all (drawdown_pct (peak_at m snap) snap.net_pnl))
      ∷ il_verdict m snap
      ∷ margin_verdict m margin
      ∷ [])

  -- `evaluate` returns the first verdict in the order halt flag, drawdown, impermanent loss, Drift
  -- margin, and `Continue` if none of them has one.
  pub evaluate-verdict :
      (m : RiskMonitor F) (snap : PnlSnapshot F) (margin : Option F) (now : ℕ)
      → (evaluate m snap margin now).1 ≡ verdict m snap margin
  unfolding evaluate
  evaluate-verdict m snap margin now = ground arith

  -- The pause flag after a tick: the verdict on the impermanent loss where there is a limit and the
  -- tick gets that far, else as before.
  abbrev pub pause_after : RiskMonitor F → PnlSnapshot F → Bool
  pause_after m snap =
      if m.state.halt_flag || breach m snap
      then m.state.pause_flag
      else elim (il_breach m snap) [ none ↦ m.state.pause_flag | some b ↦ b ]

  -- The stored drawdown after a tick: that of the tick where there is a limit and an established peak,
  -- else as before; a monitor that was halted before keeps it.
  abbrev pub drawdown_after : RiskMonitor F → PnlSnapshot F → F
  drawdown_after m snap =
      if m.state.halt_flag then m.state.current_drawdown_pct else elim m.max_drawdown_pct [
        | none ↦ m.state.current_drawdown_pct
        | some limit ↦
            if min_peak_usd ≼ peak_at m snap
            then drawdown_pct (peak_at m snap) snap.net_pnl
            else m.state.current_drawdown_pct
      ]

  pub record IsEffect (m : RiskMonitor F) (snap : PnlSnapshot F) (now : ℕ) (m' : RiskMonitor F)
      : Type ℓ where
    pub halt : m'.state.halt_flag ≡ (m.state.halt_flag || breach m snap)
    pub pause : m'.state.pause_flag ≡ pause_after m snap
    pub peak : m'.state.peak_pnl ≡ (if m.state.halt_flag then m.state.peak_pnl else peak_at m snap)
    pub drawdown : m'.state.current_drawdown_pct ≡ drawdown_after m snap
    pub operator : m'.state.operator_pause ≡ m.state.operator_pause
    pub pool : m'.state.pool_address ≡ m.state.pool_address
    pub stamp : m'.state.updated_at ≡ now
    pub drawdown_limit : m'.max_drawdown_pct ≡ m.max_drawdown_pct
    pub il_limit : m'.max_il_pct ≡ m.max_il_pct
    pub margin_limit : m'.drift_min_margin_ratio ≡ m.drift_min_margin_ratio
    pub drift_user : m'.drift_user_pubkey ≡ m.drift_user_pubkey
    pub url : m'.rpc_url ≡ m.rpc_url

  -- The fields that the limits write, of `IsEffect`.
  record IsJudged (m : RiskMonitor F) (snap : PnlSnapshot F) (m' : RiskMonitor F) : Type ℓ where
    halt : m'.state.halt_flag ≡ (m.state.halt_flag || breach m snap)
    pause : m'.state.pause_flag ≡ pause_after m snap
    peak : m'.state.peak_pnl ≡ (if m.state.halt_flag then m.state.peak_pnl else peak_at m snap)
    drawdown : m'.state.current_drawdown_pct ≡ drawdown_after m snap

  -- The other fields, of `IsEffect`.
  record IsKept (m : RiskMonitor F) (now : ℕ) (m' : RiskMonitor F) : Type ℓ where
    operator : m'.state.operator_pause ≡ m.state.operator_pause
    pool : m'.state.pool_address ≡ m.state.pool_address
    stamp : m'.state.updated_at ≡ now
    drawdown_limit : m'.max_drawdown_pct ≡ m.max_drawdown_pct
    il_limit : m'.max_il_pct ≡ m.max_il_pct
    margin_limit : m'.drift_min_margin_ratio ≡ m.drift_min_margin_ratio
    drift_user : m'.drift_user_pubkey ≡ m.drift_user_pubkey
    url : m'.rpc_url ≡ m.rpc_url

  evaluate-IsJudged :
      (m : RiskMonitor F) (snap : PnlSnapshot F) (margin : Option F) (now : ℕ)
      → IsJudged m snap (evaluate m snap margin now).0
  unfolding evaluate
  evaluate-IsJudged m snap margin now = ground arith

  evaluate-IsKept :
      (m : RiskMonitor F) (snap : PnlSnapshot F) (margin : Option F) (now : ℕ)
      → IsKept m now (evaluate m snap margin now).0
  unfolding evaluate
  evaluate-IsKept m snap margin now = ground arith

  -- Every field of the monitor after a tick. `evaluate` sets the halt flag exactly on a breach of the
  -- drawdown limit and never clears it; the pause flag follows the impermanent loss of the ticks that are
  -- not halted; the peak rises to the net P&L, and the drawdown from it is stored where there is a limit
  -- and an established peak, unless the monitor was halted before; the time is that of the tick; the
  -- operator's pause, the pool, the limits, the account and the URL stay.
  pub evaluate-IsEffect :
      (m : RiskMonitor F) (snap : PnlSnapshot F) (margin : Option F) (now : ℕ)
      → IsEffect m snap now (evaluate m snap margin now).0
  evaluate-IsEffect m snap margin now =
      let judged = evaluate-IsJudged m snap margin now in
      let kept = evaluate-IsKept m snap margin now in
      record {
        halt = judged.halt;
        pause = judged.pause;
        peak = judged.peak;
        drawdown = judged.drawdown;
        operator = kept.operator;
        pool = kept.pool;
        stamp = kept.stamp;
        drawdown_limit = kept.drawdown_limit;
        il_limit = kept.il_limit;
        margin_limit = kept.margin_limit;
        drift_user = kept.drift_user;
        url = kept.url;
      }
