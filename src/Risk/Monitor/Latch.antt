-- ===== src/Risk/Monitor/Latch.antt =====
-- `evaluate` over a whole session of ticks: a drawdown halt is a latch.
use tick_liq.Risk.Monitor.{
  halt_all, touch, RiskState, RiskMonitor, PnlSnapshot, RiskAction, evaluate,
}
use tick_liq.Risk.Monitor.Decision.{evaluate-IsEffect, breach}
use tick_liq.Prelude.{
  arith, refl, length, false, replicate, [], ◌∷◌, ◌||◌, true, Bool, ◌≡◌, List, ℕ, Option,
}
use tick_liq.Prelude.Float.{Float}

pub record Tick {ℓ} (F : Type ℓ) : Type ℓ where
  pub snap : PnlSnapshot F
  pub margin : Option F
  pub now : ℕ

module _ {ℓ} {F : Type ℓ} ⦃f : Float F⦄ where
  -- The monitor after the ticks of a session, and the actions it returned.
  unfoldable pub evaluate_all : RiskMonitor F → List (Tick F) → RiskMonitor F × List (RiskAction F)
  evaluate_all m [] = (m, [])
  evaluate_all m (t ∷ ts) =
      let (m', action) = evaluate m t.snap t.margin t.now in
      let (m'', actions) = evaluate_all m' ts in (m'', action ∷ actions)

  -- A state up to its time stamp.
  abbrev pub SameButStamp : RiskState F → RiskState F → Type ℓ
  SameButStamp s t = record s { updated_at = t.updated_at } ≡ t

  evaluate_halted :
      (m : RiskMonitor F) (t : Tick F)
      → m.state.halt_flag ≡ true
      → (evaluate m t.snap t.margin t.now ≡ (touch m t.now, halt_all m.state.current_drawdown_pct))
  unfolding evaluate
  evaluate_halted m t h = rw h

  -- Once the halt flag is set, every later tick of the session returns `HaltAll` with the drawdown
  -- stored, and nothing of the monitor's state but its time stamp changes.
  halt_latched :
      (m : RiskMonitor F) (ts : List (Tick F))
      → m.state.halt_flag ≡ true
      → let (m', actions) = evaluate_all m ts in
        SameButStamp m.state m'.state
        × (actions ≡ replicate (length ts) (halt_all m.state.current_drawdown_pct))
  unfolding evaluate_all
  halt_latched m [] h = (refl, refl)
  halt_latched m (t ∷ ts) h =
      let (same, acts) = halt_latched (touch m t.now) ts h in
      rw (evaluate_halted m t h) (same, rw acts refl)

  -- Does some tick of the session breach the drawdown limit, judged by the state it meets?
  unfoldable pub breached : RiskMonitor F → List (Tick F) → Bool
  breached m [] = false
  breached m (t ∷ ts) =
      let rest = breached (evaluate m t.snap t.margin t.now).0 ts in breach m t.snap || rest

  -- A session ends halted exactly when it began halted or one of its ticks breached the drawdown
  -- limit: no other limit halts, and no tick clears a halt.
  pub halted_iff_breached :
      (m : RiskMonitor F) (ts : List (Tick F))
      → (evaluate_all m ts).0.state.halt_flag ≡ (m.state.halt_flag || breached m ts)
  unfolding evaluate_all breached
  halted_iff_breached m [] = ground arith
  halted_iff_breached m (t ∷ ts) =
      let m' = (evaluate m t.snap t.margin t.now).0 in
      ground (arith, halted_iff_breached m' ts, evaluate-IsEffect m t.snap t.margin t.now)
