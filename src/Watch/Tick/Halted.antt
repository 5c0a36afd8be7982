-- ===== src/Watch/Tick/Halted.antt =====
-- A halted monitor in the watch loop: no later pass asks for anything.
use tick_liq.Risk.Monitor.{evaluate, PnlSnapshot, RiskAction, RiskMonitor, halt_all}
use tick_liq.Watch.State.{on_tables, WatchConfig, Notification, Watcher, Pass, no_pool, risk_stop}
use tick_liq.Prelude.Float.{IsOrdered, Float}
use Prim.Native.String.{String}
use tick_liq.Prelude.Libm.{Libm}
use tick_liq.Watch.Tables.{Tables, write_tick, write_slot}
use tick_liq.Prelude.{
  inl, [], suc, ap, ◌∷◌, All, inr, length, List, arith, refl, none, true, some, ◌⊎◌, ℕ, ◌≡◌, Bool,
  Option,
}
use tick_liq.Watch.Gate.{risk_gate, gate_world, margin_of, gated}
use tick_liq.Prelude.Borsh.{Borsh}
use tick_liq.Math.Amounts.{WhirlpoolsCore}
use tick_liq.Prelude.Int.{ℤ}
use tick_liq.Backtest.Backfill.{PoolTick}
use tick_liq.Watch.Tick.{snapshot_of, after_writes, after_risk, run_watch, process, with_figures}
use tick_liq.Risk.Session.Halt.{halt_durable, IsHaltStored, IsHalted}
use tick_liq.Orca.Layout.{WhirlpoolPool}
use tick_liq.Watch.Figures.{Figures}
use tick_liq.Risk.Monitor.Decision.{evaluate-verdict}
use tick_liq.Watch.Gate.Steps.{run_gate-Reach}
use tick_liq.Watch.Tick.Total.{process-Returns}
use tick_liq.Watch.Tick.Cases.{price_at, at_price, process-cases}
use mathlib.Core.Path.{subst}

module _ {ℓ} {F : Type ℓ} ⦃f : Float F⦄ (pool_addr : String) where
  -- The monitor is halted, and so is the row of the pool.
  abbrev pub IsHaltedAt : Option (RiskMonitor F) → Option (Tables F) → Type 0
  IsHaltedAt none tables = ⊥
  IsHaltedAt (some m) none = ⊥
  IsHaltedAt (some m) (some t) = (m.state.halt_flag ≡ true) × IsHaltStored pool_addr t.risk_state

  abbrev IsHaltAction : Option (RiskAction F) → Type ℓ
  IsHaltAction action = (pct : F) × (action ≡ some (halt_all pct))

  evaluate-halt_all :
      (m : RiskMonitor F) (snap : PnlSnapshot F) (margin : Option F) (now : ℕ)
      → m.state.halt_flag ≡ true
      → (evaluate m snap margin now).1 ≡ halt_all m.state.current_drawdown_pct
  evaluate-halt_all m snap margin now h = ground (arith, evaluate-verdict m snap margin now)

  gated-IsHaltedAt :
      {Key : Type 0} (w : Watcher F Key) (snap : PnlSnapshot F) (n : Notification F)
      (monitor : Option (RiskMonitor F)) (tables : Option (Tables F))
      → IsHaltedAt monitor tables
      → IsHaltAction (gated w snap n monitor tables).1
        × IsHaltedAt
            (gated w snap n monitor tables).0.monitor
            (gated w snap n monitor tables).0.tables
  unfolding gated
  gated-IsHaltedAt w snap n none tables h = absurd h
  gated-IsHaltedAt w snap n (some m) none h = absurd h
  gated-IsHaltedAt w snap n (some m) (some t) (memory, stored) =
      let margin = margin_of m n.drift_margin in
      let start : IsHalted pool_addr (gate_world m t) = record {
        stored = stored;
        memory = memory;
        pending = tt;
      } in
      let after =
        halt_durable pool_addr start
          (run_gate-Reach pool_addr (gate_world m t) snap margin n.risk_written n.now refl) in
      (
        (m.state.current_drawdown_pct, ap some (evaluate-halt_all m snap margin n.now memory)),
        (after.memory, after.stored),
      )

  write_slot-risk_state :
      (works : Bool) (t : Tables F) (slot : Option ℤ) (tick : ℤ → PoolTick)
      → (write_slot works t slot tick).risk_state ≡ t.risk_state
  unfolding write_slot
  write_slot-risk_state works t none tick = refl
  write_slot-risk_state works t (some slot) tick = refl

  writes-IsHaltedAt :
      (monitor : Option (RiskMonitor F)) (tables : Option (Tables F)) (works pnl_works : Bool)
      (slot : Option ℤ) (tick : ℤ → PoolTick) (snap : PnlSnapshot F)
      → IsHaltedAt monitor tables
      → IsHaltedAt monitor (on_tables (λ t. write_tick works pnl_works t slot tick snap) tables)
  unfolding write_tick
  writes-IsHaltedAt none tables works pnl_works slot tick snap h = h
  writes-IsHaltedAt (some m) none works pnl_works slot tick snap h = h
  writes-IsHaltedAt (some m) (some t) works pnl_works slot tick snap (memory, stored) =
      (memory, rw (write_slot-risk_state works t slot tick) stored)

module _ {ℓ} {F : Type ℓ} ⦃f : Float F⦄ {Key : Type 0} (pool_addr : String) where
  -- The pass ends without a decision or a message, for want of a pool or on the halt, and leaves the
  -- halt where it is.
  pub record IsHaltedPass (p : Pass F Key) : Type ℓ where
    pub ends : (p.end ≡ no_pool) ⊎ ((pct : F) × (p.end ≡ risk_stop (halt_all pct)))
    pub unsent : p.proposal ≡ none
    pub halted : IsHaltedAt pool_addr p.watcher.monitor p.watcher.tables

module _ {ℓ} {F : Type ℓ} ⦃f : Float F⦄ ⦃m : Libm F⦄ {Key : Type 0} (laws : IsOrdered F)
    (borsh : Borsh Key) (core : WhirlpoolsCore) (f64_max : F) (cfg : WatchConfig F)
    (pool_addr : String) where
  after_risk-IsHaltedPass :
      (n : Notification F) (pool : WhirlpoolPool Key) (r : Watcher F Key × Option (RiskAction F))
      (fig : Figures F)
      → IsHaltAction pool_addr r.1
      → IsHaltedAt pool_addr r.0.monitor r.0.tables
      → IsHaltedPass pool_addr (after_risk core f64_max cfg n pool r fig)
  unfolding after_risk
  after_risk-IsHaltedPass n pool r fig (pct, e) h =
      rw e (record { ends = inr (pct, refl); unsent = refl; halted = h })

  with_figures-IsHaltedPass :
      (n : Notification F) (pool : WhirlpoolPool Key) (w : Watcher F Key) (fig : Figures F)
      → IsHaltedAt pool_addr w.monitor w.tables
      → IsHaltedPass pool_addr (with_figures core f64_max cfg n pool w fig)
  unfolding with_figures after_writes risk_gate
  with_figures-IsHaltedPass n pool w fig h =
      let v = after_writes core f64_max cfg n pool w fig in
      let snap = snapshot_of cfg fig n.now in
      let (action, halted) =
        gated-IsHaltedAt pool_addr v snap n v.monitor v.tables
          (writes-IsHaltedAt pool_addr w.monitor w.tables _ _ n.slot _ snap h) in
      after_risk-IsHaltedPass n pool (risk_gate v snap n) fig action halted

  process-IsHaltedPass :
      (n : Notification F) (w : Watcher F Key) (p : Pass F Key)
      → IsHaltedAt pool_addr w.monitor w.tables
      → process borsh core f64_max cfg n w ≡ some p
      → IsHaltedPass pool_addr p
  process-IsHaltedPass n w p h e = elim (process-cases borsh core f64_max cfg n w p e) [
    | inl same ↦
        subst (λ q. IsHaltedPass pool_addr q) same
          (record { ends = inl refl; unsent = refl; halted = h })
    | inr (pool, fig, k, figured, same) ↦
        subst (λ q. IsHaltedPass pool_addr q) same
          (with_figures-IsHaltedPass n pool
            (at_price borsh core f64_max cfg n w (price_at borsh core f64_max cfg n w pool).1) fig
            h)
  ]

  -- Over numbers with the order of IEEE 754: once the monitor and the pool's row are halted, the loop
  -- still answers every notification, and no pass submits a rebalance or asks the operator for one. Each
  -- ends on the halt or for want of a pool, whatever the accounts, the prices and the writes are, and the
  -- halt stays.
  pub run_watch-IsHaltedPass :
      (ns : List (Notification F)) (w : Watcher F Key)
      → IsHaltedAt pool_addr w.monitor w.tables
      → (ps : List (Pass F Key)) × (run_watch borsh core f64_max cfg ns w ≡ some ps)
        × (length ps ≡ length ns)
        × All (IsHaltedPass pool_addr) ps
  unfolding run_watch
  run_watch-IsHaltedPass [] w h = ([], refl, refl, tt)
  run_watch-IsHaltedPass (n ∷ ns) w h =
      let (p, e) = process-Returns laws core cfg borsh f64_max n w in
      let halted = process-IsHaltedPass n w p h e in
      let (ps, k, l, rest) = run_watch-IsHaltedPass ns p.watcher halted.halted in
      (p ∷ ps, rw (e, k) refl, ap suc l, (halted, rest))
