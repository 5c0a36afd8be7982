-- ===== src/Watch/Tick/Submitted.antt =====
-- What a pass of the watch loop that submits a rebalance has been through.
use tick_liq.Watch.State.{
  on_tables, is_paused, Pass, no_pool, risk_stop, operator_stop, held, End, submitted, Notification,
  WatchConfig, Watcher, stops,
}
use tick_liq.Prelude.Float.{◌⊕◌, fabs, ◌⊖◌, Float}
use tick_liq.Risk.Monitor.{RiskMonitor, PnlSnapshot, RiskAction}
use tick_liq.Prelude.{
  ◌∙◌, ap, inr, inl, Bool-cases, List, ◌≢◌, ◌&&◌, true, refl, false, none, ◌≡◌, some, Option,
}
use tick_liq.Watch.Decide.{on_rebalance, approval}
use tick_liq.Watch.Gate.{risk_gate}
use tick_liq.Shadow.Gate.{Submission, submit}
use tick_liq.Watch.Figures.{figures_of, Figures}
use tick_liq.Orca.Layout.{WhirlpoolPosition, WhirlpoolPool}
use Prim.Native.String.{String}
use tick_liq.Prelude.Libm.{Libm}
use tick_liq.Math.Amounts.{WhirlpoolsCore}
use tick_liq.Watch.Tick.{
  refreshed, pool_of, snapshot_of, after_writes, process, decision, ungated, with_figures,
  after_risk, decided,
}
use tick_liq.Strategy.Signal.{
  default_config, should_rebalance, hold, RebalanceDecision, is_rebalance,
}
use tick_liq.Gauges.{Gauge}
use tick_liq.Strategy.Signal.{rebalance}
use tick_liq.Prelude.Borsh.{Borsh}
use mathlib.Core.Path.{subst}
use tick_liq.Watch.Gate.Cleared.{
  IsPassed-on_tables, gated-position, IsPassed, IsCleared, IsGated, gated-IsGated,
}
use tick_liq.Watch.Tick.Cases.{price_at, at_price, process-cases}
use tick_liq.Watch.Price.{price_now}
use tick_liq.Watch.Tables.{Tables}
use tick_liq.Math.Price.{sqrt_q64_to_ui_price}
use tick_liq.Watch.Decide.Approved.{approval-approved, on_approval_lem, on_approval-watcher}

held_ne {ℓ} : {F : Type ℓ} → {r : String} {s : Submission} → ◌≢◌ {A = End F} (held r) (submitted s)
held_ne h = cc

operator_ne {ℓ} : {F : Type ℓ} → {s : Submission} → ◌≢◌ {A = End F} operator_stop (submitted s)
operator_ne h = cc

risk_ne {ℓ} :
    {F : Type ℓ} → {a : RiskAction F} {s : Submission} → ◌≢◌ {A = End F} (risk_stop a) (submitted s)
risk_ne h = cc

no_pool_ne {ℓ} : {F : Type ℓ} → {s : Submission} → ◌≢◌ {A = End F} no_pool (submitted s)
no_pool_ne h = cc

module _ {ℓ} {F : Type ℓ} ⦃f : Float F⦄ ⦃m : Libm F⦄ {Key : Type 0} (cfg : WatchConfig F)
    (n : Notification F) where
  -- Where the gates begin, and what a tick that is let through by the risk gate has.
  record IsReady (position : WhirlpoolPosition Key) (fig : Figures F) (before : Watcher F Key)
      (w : Watcher F Key) : Type ℓ where
    current : w.position ≡ position
    cleared : IsCleared w.monitor w.tables
    judged : IsPassed (snapshot_of cfg fig n.now) n before.monitor before.tables w.monitor

  -- What holds where a pass with this pool, position and figures, before which the monitor and the
  -- tables were these, has
  -- submitted a rebalance.
  pub record IsPermitted (pool : WhirlpoolPool Key) (position : WhirlpoolPosition Key)
      (fig : Figures F) (s : Submission) (monitor : Option (RiskMonitor F))
      (tables : Option (Tables F)) (w : Watcher F Key) : Type ℓ where
    pub guarded : submit cfg.guard ≡ s
    pub approved : cfg.telegram ≡ true → n.sent && n.approved ≡ true
    pub current : w.position ≡ position
    pub cleared : IsCleared w.monitor w.tables
    pub judged :
        IsPassed
          (record {
            mint = cfg.mint;
            pool_address = cfg.pool_addr;
            fees_earned = fig.fees_earned;
            il_usd = fig.il_usd;
            net_pnl = fig.fees_earned ⊖ fabs fig.il_usd;
            position_value = fig.position_value;
            price = fig.price;
            observed_at = n.now;
          })
          n
          monitor
          tables
          w.monitor
    pub unpaused : is_paused w.monitor ≡ false
    pub asked :
        is_rebalance (
          should_rebalance pool.tick_current_index position.tick_lower_index
            position.tick_upper_index
            (fig.fees_earned ⊕ fig.il_usd)
            default_config)
        ≡ true

  abbrev IsSubmitted :
      WhirlpoolPool Key → WhirlpoolPosition Key → Figures F → Watcher F Key → Pass F Key → Type ℓ
  IsSubmitted pool position fig before p =
      (s : Submission)
      → p.end ≡ submitted s
      → IsPermitted pool position fig s before.monitor before.tables p.watcher

  module _ (core : WhirlpoolsCore) (f64_max : F) (pool : WhirlpoolPool Key)
      (position : WhirlpoolPosition Key) (fig : Figures F) (before : Watcher F Key) where
    decided-IsSubmitted :
        (w : Watcher F Key) (gauges : List (Gauge F)) (d : RebalanceDecision)
        → decision pool w.position fig ≡ d
        → is_paused w.monitor ≡ false
        → IsReady position fig before w
        → IsSubmitted pool position fig before (decided core f64_max cfg n pool w fig gauges d)
    unfolding decided on_rebalance
    decided-IsSubmitted w gauges (hold reason) d u ready = λ s e. absurd (held_ne e)
    decided-IsSubmitted w gauges (rebalance reason) d u ready = λ s e.
        let answer = approval cfg n fig pool w.position in
        let (same_monitor, same_position, keeps) =
          on_approval-watcher cfg n fig pool w.position answer w reason in
        let (yes_said, guarded) = on_approval_lem cfg n fig pool w.position answer w reason s e in
        record {
          guarded = guarded;
          approved = approval-approved cfg n fig pool w.position yes_said;
          current = same_position ∙ ready.current;
          cleared = rw same_monitor (keeps ready.cleared);
          judged = rw same_monitor ready.judged;
          unpaused = rw same_monitor u;
          asked =
              subst (λ x. is_rebalance (decision pool x fig) ≡ true) ready.current
                (ap (λ x. is_rebalance x) d);
        }

    ungated-IsSubmitted :
        (w : Watcher F Key)
        → IsReady position fig before w
        → IsSubmitted pool position fig before (ungated core f64_max cfg n pool w fig)
    unfolding ungated
    ungated-IsSubmitted w ready = elim (Bool-cases (is_paused w.monitor)) [
      | inl p ↦ rw p (λ s e. absurd (operator_ne e))
      | inr u ↦ rw u (decided-IsSubmitted w _ _ refl u ready)
    ]

    after_risk-IsSubmitted :
        (r : Watcher F Key × Option (RiskAction F))
        → r.0.position ≡ position
        → IsGated (snapshot_of cfg fig n.now) n before.monitor before.tables r
        → IsSubmitted pool position fig before (after_risk core f64_max cfg n pool r fig)
    unfolding after_risk
    after_risk-IsSubmitted (w, none) same g =
        ungated-IsSubmitted w (record { current = same; cleared = g.0; judged = g.1 })
    after_risk-IsSubmitted (w, some action) same g = elim (Bool-cases (stops action)) [
      | inl p ↦ rw p (λ s e. absurd (risk_ne e))
      | inr u ↦
          let (cleared, judged) = g u in
          rw u
            (ungated-IsSubmitted w (record { current = same; cleared = cleared; judged = judged }))
    ]

  -- The writes before the gate leave the monitor, and a database where there was one.
  written-IsGated :
      (snap : PnlSnapshot F) (monitor : Option (RiskMonitor F)) (change : Tables F → Tables F)
      (tables : Option (Tables F)) (r : Watcher F Key × Option (RiskAction F))
      → IsGated snap n monitor (on_tables change tables) r
      → IsGated snap n monitor tables r
  written-IsGated snap monitor change tables (w, none) g =
      (g.0, IsPassed-on_tables snap n monitor change tables w.monitor g.1)
  written-IsGated snap monitor change tables (w, some action) g = λ e.
      let (cleared, judged) = g e in
      (cleared, IsPassed-on_tables snap n monitor change tables w.monitor judged)

  with_figures-IsSubmitted :
      (core : WhirlpoolsCore) (f64_max : F) (pool : WhirlpoolPool Key) (w : Watcher F Key)
      (fig : Figures F)
      → IsSubmitted pool w.position fig w (with_figures core f64_max cfg n pool w fig)
  unfolding with_figures risk_gate after_writes
  with_figures-IsSubmitted core f64_max pool w fig =
      let v = after_writes core f64_max cfg n pool w fig in
      let snap = snapshot_of cfg fig n.now in
      after_risk-IsSubmitted core f64_max pool w.position fig w (risk_gate v snap n)
        (gated-position snap n v v.monitor v.tables)
        (written-IsGated snap w.monitor _ w.tables (risk_gate v snap n)
          (gated-IsGated snap n v v.monitor v.tables refl refl))

  -- A pass that submits a rebalance to the guard has the pool of its notification, the position read again
  -- or the last one known, and the figures of these two at the price of the exchange while it is fresh,
  -- else of the pool. Where there is a monitor and a database, `evaluate` judged the snapshot of these
  -- figures with an action that does not stop the tick, the monitor is the one it left, not halted and,
  -- under a limit of the impermanent loss, not paused. The operator has not paused it;
  -- `should_rebalance` asks for the rebalance at the fees and the impermanent loss of these figures; with
  -- Telegram the proposal was sent and approved. What the guard answers depends on the mode alone.
  pub process-IsPermitted :
      (borsh : Borsh Key) (core : WhirlpoolsCore) (f64_max : F) (w : Watcher F Key) (p : Pass F Key)
      (s : Submission)
      → process borsh core f64_max cfg n w ≡ some p
      → p.end ≡ submitted s
      → let position = refreshed borsh n.position w.position in
        (pool : WhirlpoolPool Key) × (fig : Figures F) × (pool_of borsh n.account n.fetched
          ≡ some pool)
        × (figures_of core cfg.session pool position
              (price_now n.cex n.instant
                (sqrt_q64_to_ui_price pool.sqrt_price cfg.session.decimals_a cfg.session.decimals_b)
                w.cex_was_stale).0
            ≡ some fig)
        × IsPermitted pool position fig s w.monitor w.tables p.watcher
  process-IsPermitted borsh core f64_max w p s h e =
      elim (process-cases borsh core f64_max cfg n w p h) [
        | inl same ↦ absurd (no_pool_ne (ap (λ q. q.end) same ∙ e))
        | inr (pool, fig, k, figured, same) ↦
            let stale = (price_at borsh core f64_max cfg n w pool).1 in
            let v = at_price borsh core f64_max cfg n w stale in
            let permitted =
              subst (λ q. IsSubmitted pool v.position fig v q) same
                (with_figures-IsSubmitted core f64_max pool v fig) in
            (pool, fig, k, figured, permitted s e)
      ]
