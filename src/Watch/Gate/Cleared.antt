-- ===== src/Watch/Gate/Cleared.antt =====
-- What the risk gate of a tick leaves of its watcher where it lets the tick go on.
use tick_liq.Watch.State.{Notification, Watcher, stops, on_tables}
use tick_liq.Prelude.Float.{Float}
use tick_liq.Risk.Monitor.{RiskAction, evaluate, PnlSnapshot, RiskMonitor}
use tick_liq.Prelude.{refl, arith, false, none, ◌≡◌, ℕ, some, Option}
use tick_liq.Watch.Tables.{Tables}
use tick_liq.Risk.Monitor.Decision.{evaluate-IsEffect, evaluate-verdict}
use tick_liq.Watch.Gate.{gate_world, margin_of, gated}
use tick_liq.Watch.Gate.Steps.{run_gate-monitor}

module _ {ℓ} {F : Type ℓ} ⦃f : Float F⦄ where
  -- Neither limit of the monitor stands in the way: it is not halted, and where there is a limit of the
  -- impermanent loss it is not paused. Without tables there is no gate.
  abbrev pub IsCleared : Option (RiskMonitor F) → Option (Tables F) → Type ℓ
  IsCleared none tables = Unit
  IsCleared (some m) none = Unit
  IsCleared (some m) (some tables) =
      (m.state.halt_flag ≡ false)
      × ((limit : F) → m.max_il_pct ≡ some limit → m.state.pause_flag ≡ false)

  pub on_tables-IsCleared :
      (monitor : Option (RiskMonitor F)) (change : Tables F → Tables F) (tables : Option (Tables F))
      → IsCleared monitor tables
      → IsCleared monitor (on_tables change tables)
  on_tables-IsCleared none change tables h = tt
  on_tables-IsCleared (some m) change none h = tt
  on_tables-IsCleared (some m) change (some t) h = h

  evaluate-stops :
      (m : RiskMonitor F) (snap : PnlSnapshot F) (margin : Option F) (now : ℕ) (t : Tables F)
      → stops (evaluate m snap margin now).1 ≡ false
      → IsCleared (some ((evaluate m snap margin now).0)) (some t)
  evaluate-stops m snap margin now t h =
      ground (arith, evaluate-verdict m snap margin now, evaluate-IsEffect m snap margin now)

module _ {ℓ} {F : Type ℓ} ⦃f : Float F⦄ (snap : PnlSnapshot F) (n : Notification F) where
  -- The gate has let this snapshot pass: where there is a monitor and a database, `evaluate` judged it
  -- with an action that does not stop the tick, and left the monitor of after. Else the monitor is as
  -- it was.
  abbrev pub IsPassed : Option (RiskMonitor F) → Option (Tables F) → Option (RiskMonitor F) → Type ℓ
  IsPassed none tables after = after ≡ none
  IsPassed (some m) none after = after ≡ some m
  IsPassed (some m) (some tables) after =
      (stops (evaluate m snap (margin_of m n.drift_margin) n.now).1 ≡ false)
      × (after ≡ some ((evaluate m snap (margin_of m n.drift_margin) n.now).0))

  pub IsPassed-on_tables :
      (monitor : Option (RiskMonitor F)) (change : Tables F → Tables F) (tables : Option (Tables F))
      (after : Option (RiskMonitor F))
      → IsPassed monitor (on_tables change tables) after
      → IsPassed monitor tables after
  IsPassed-on_tables none change tables after h = h
  IsPassed-on_tables (some m) change none after h = h
  IsPassed-on_tables (some m) change (some t) after h = h

  -- If the gate lets the tick go on, the monitor is cleared, and this snapshot has passed.
  abbrev pub IsGated :
      {Key : Type 0}
      → Option (RiskMonitor F)
      → Option (Tables F)
      → Watcher F Key × Option (RiskAction F)
      → Type ℓ
  IsGated monitor tables (w, none) =
      IsCleared w.monitor w.tables × IsPassed monitor tables w.monitor
  IsGated monitor tables (w, some action) =
      stops action ≡ false → IsCleared w.monitor w.tables × IsPassed monitor tables w.monitor

  pub gated-IsGated :
      {Key : Type 0} (w : Watcher F Key) (monitor : Option (RiskMonitor F))
      (tables : Option (Tables F))
      → w.monitor ≡ monitor
      → w.tables ≡ tables
      → IsGated monitor tables (gated w snap n monitor tables)
  unfolding gated
  gated-IsGated w none tables h k = rw h (tt, refl)
  gated-IsGated w (some m) none h k = rw (h, k) (tt, refl)
  gated-IsGated w (some m) (some t) h k =
      let margin = margin_of m n.drift_margin in
      λ e.
        rw (run_gate-monitor (gate_world m t) snap margin n.risk_written n.now)
          (evaluate-stops m snap margin n.now t e, (e, refl))

  pub gated-position :
      {Key : Type 0} (w : Watcher F Key) (monitor : Option (RiskMonitor F))
      (tables : Option (Tables F))
      → (gated w snap n monitor tables).0.position ≡ w.position
  unfolding gated
  gated-position w none tables = refl
  gated-position w (some m) none = refl
  gated-position w (some m) (some t) = refl
