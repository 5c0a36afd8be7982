-- ===== src/Watch/Tick/Clean.antt =====
-- The rows of `shadow_rebalances` that the watch loop leaves for the gate of the live mode.
use tick_liq.Watch.State.{is_paused, stops, Watcher, Pass, Notification, WatchConfig, on_tables}
use tick_liq.Strategy.Signal.{RebalanceDecision, rebalance, hold}
use tick_liq.Watch.Tables.{
  skip_row, write_approval_skip, ShadowRebalanceRow, write_slot, write_tick, Tables, insert_shadow,
}
use tick_liq.Prelude.Float.{Float}
use tick_liq.Prelude.{
  bind-some, some_same, refl, ◌↔◌, inr, [], inl, ◌∷◌, Bool-cases, map, true, List, false, ◌≡◌, ℕ,
  none, All, some, Bool, Option,
}
use tick_liq.Prelude.Libm.{Libm}
use tick_liq.Math.Amounts.{WhirlpoolsCore}
use tick_liq.Prelude.Int.{ℤ}
use tick_liq.Prelude.Borsh.{Borsh}
use tick_liq.Backtest.Backfill.{PoolTick}
use tick_liq.Risk.Monitor.{RiskAction, RiskMonitor, PnlSnapshot}
use tick_liq.Watch.Tick.{
  decision, snapshot_of, after_writes, after_risk, decided, process, ungated, with_figures,
  run_watch,
}
use tick_liq.Orca.Layout.{WhirlpoolPosition, WhirlpoolPool}
use Prim.Native.String.{String}
use mathlib.Core.Path.{subst}
use tick_liq.Shadow.Gate.Status.{IsOldRow, check_shadow_gate_iff, IsClean}
use tick_liq.Watch.Gate.{risk_gate, gated}
use tick_liq.Watch.Decide.{shadow_row, approval, on_rebalance, on_approval}
use tick_liq.Shadow.Gate.{pass, check_shadow_gate}
use tick_liq.Watch.Figures.{Figures}
use tick_liq.Watch.Tick.Cases.{price_at, at_price, process-cases}
use tick_liq.Gauges.{Gauge}
use tick_liq.Prelude.Result.{ok}

module _ {ℓ} {F : Type ℓ} where
  -- No row has its error flag set.
  abbrev pub HasNoError : Option (Tables F) → Type 0
  HasNoError none = Unit
  HasNoError (some t) = All (λ r. r.row.error_flag ≡ false) t.shadow_rebalances

  on_tables-HasNoError :
      (change : Tables F → Tables F) (tables : Option (Tables F))
      → ((t : Tables F) → HasNoError (some t) → HasNoError (some (change t)))
      → HasNoError tables
      → HasNoError (on_tables change tables)
  on_tables-HasNoError change none keeps h = tt
  on_tables-HasNoError change (some t) keeps h = keeps t h

  insert_shadow-HasNoError :
      (works : Bool) (t : Tables F) (r : ShadowRebalanceRow F) (now : ℕ)
      → r.row.error_flag ≡ false
      → HasNoError (some t)
      → HasNoError (some (insert_shadow works t r now))
  unfolding insert_shadow
  insert_shadow-HasNoError true t r now e h = (e, h)
  insert_shadow-HasNoError false t r now e h = h

  write_tick-HasNoError :
      (works pnl_works : Bool) (t : Tables F) (slot : Option ℤ) (tick : ℤ → PoolTick)
      (snap : PnlSnapshot F)
      → HasNoError (some t)
      → HasNoError (some (write_tick works pnl_works t slot tick snap))
  unfolding write_tick write_slot
  write_tick-HasNoError works pnl_works t none tick snap h = h
  write_tick-HasNoError works pnl_works t (some slot) tick snap h = h

module _ {ℓ} {F : Type ℓ} ⦃f : Float F⦄ ⦃m : Libm F⦄ {Key : Type 0} (core : WhirlpoolsCore)
    (f64_max : F) (cfg : WatchConfig F) (n : Notification F) (pool : WhirlpoolPool Key) where
  gated-HasNoError :
      (w : Watcher F Key) (snap : PnlSnapshot F) (monitor : Option (RiskMonitor F))
      (tables : Option (Tables F))
      → w.tables ≡ tables
      → HasNoError tables
      → HasNoError (gated w snap n monitor tables).0.tables
  unfolding gated
  gated-HasNoError w snap none tables e h = rw e h
  gated-HasNoError w snap (some m) none e h = rw e tt
  gated-HasNoError w snap (some m) (some t) e h = h

  on_approval-HasNoError :
      (fig : Figures F) (position : WhirlpoolPosition Key) (answer : Bool × String)
      (w : Watcher F Key) (reason : String)
      → HasNoError w.tables
      → HasNoError (on_approval cfg n fig pool position answer w reason).0.tables
  unfolding on_approval write_approval_skip shadow_row
  on_approval-HasNoError fig position (true, r) w reason h =
      on_tables-HasNoError _ w.tables
        (λ t.
          insert_shadow-HasNoError n.shadow_written t (shadow_row cfg n fig pool position reason)
            n.now refl)
        h
  on_approval-HasNoError fig position (false, r) w reason h =
      on_tables-HasNoError _ w.tables
        (λ t.
          insert_shadow-HasNoError n.skip_written t (skip_row cfg.pool_addr r fig.price n.now) n.now
            refl)
        h

  decided-HasNoError :
      (w : Watcher F Key) (fig : Figures F) (gauges : List (Gauge F)) (d : RebalanceDecision)
      → HasNoError w.tables
      → HasNoError (decided core f64_max cfg n pool w fig gauges d).watcher.tables
  unfolding decided on_rebalance
  decided-HasNoError w fig gauges (hold reason) h = h
  decided-HasNoError w fig gauges (rebalance reason) h =
      on_approval-HasNoError fig w.position (approval cfg n fig pool w.position) w reason h

  ungated-HasNoError :
      (w : Watcher F Key) (fig : Figures F)
      → HasNoError w.tables
      → HasNoError (ungated core f64_max cfg n pool w fig).watcher.tables
  unfolding ungated
  ungated-HasNoError w fig h = elim (Bool-cases (is_paused w.monitor)) [
    | inl e ↦ rw e h
    | inr e ↦ rw e (decided-HasNoError w fig _ (decision pool w.position fig) h)
  ]

  after_risk-HasNoError :
      (r : Watcher F Key × Option (RiskAction F)) (fig : Figures F)
      → HasNoError r.0.tables
      → HasNoError (after_risk core f64_max cfg n pool r fig).watcher.tables
  unfolding after_risk
  after_risk-HasNoError (w, none) fig h = ungated-HasNoError w fig h
  after_risk-HasNoError (w, some action) fig h = elim (Bool-cases (stops action)) [
    | inl e ↦ rw e h
    | inr e ↦ rw e (ungated-HasNoError w fig h)
  ]

  with_figures-HasNoError :
      (w : Watcher F Key) (fig : Figures F)
      → HasNoError w.tables
      → HasNoError (with_figures core f64_max cfg n pool w fig).watcher.tables
  unfolding with_figures after_writes risk_gate
  with_figures-HasNoError w fig h =
      let v = after_writes core f64_max cfg n pool w fig in
      let snap = snapshot_of cfg fig n.now in
      after_risk-HasNoError (risk_gate v snap n) fig (
        gated-HasNoError v snap v.monitor v.tables refl (
          on_tables-HasNoError _ w.tables
            (λ t. write_tick-HasNoError n.tick_written n.pnl_written t n.slot _ snap) h))

module _ {ℓ} {F : Type ℓ} where
  rows-IsClean :
      (rows : List (ShadowRebalanceRow F)) (pool_address : String)
      → All (λ r. r.row.error_flag ≡ false) rows
      → IsClean (map (λ r. r.row) rows) pool_address
  rows-IsClean [] pool_address h = tt
  rows-IsClean (r ∷ rows) pool_address (e, h) = (λ k. e, rows-IsClean rows pool_address h)

module _ {ℓ} {F : Type ℓ} {Key : Type 0} where
  -- What the live gate reads after a pass: its last condition, on the error flags, cannot fail.
  abbrev pub IsAgeOnly : Pass F Key → Type ℓ
  IsAgeOnly p =
      (t : Tables F) (selects counts : Bool) (pool_address : String) (now : ℕ)
      → p.watcher.tables ≡ some t
      → (check_shadow_gate selects counts (map (λ r. r.row) t.shadow_rebalances) pool_address now
          ≡ ok pass)
        ↔ ((selects ≡ true)
            × (counts ≡ true)
            × IsOldRow (map (λ r. r.row) t.shadow_rebalances) pool_address now)

  HasNoError-IsAgeOnly : (p : Pass F Key) → HasNoError p.watcher.tables → IsAgeOnly p
  HasNoError-IsAgeOnly p h t selects counts pool_address now e =
      let clean = rows-IsClean t.shadow_rebalances pool_address (subst (λ x. HasNoError x) e h) in
      let gate =
        check_shadow_gate_iff selects counts (map (λ r. r.row) t.shadow_rebalances) pool_address
          now in
      (λ k. let r = gate.0 k in (r.0, r.1, r.2), λ k. gate.1 (k.0, k.1, k.2, clean))

module _ {ℓ} {F : Type ℓ} ⦃f : Float F⦄ ⦃m : Libm F⦄ {Key : Type 0} (borsh : Borsh Key)
    (core : WhirlpoolsCore) (f64_max : F) (cfg : WatchConfig F) where
  process-HasNoError :
      (n : Notification F) (w : Watcher F Key) (p : Pass F Key)
      → HasNoError w.tables
      → process borsh core f64_max cfg n w ≡ some p
      → HasNoError p.watcher.tables
  process-HasNoError n w p h e = elim (process-cases borsh core f64_max cfg n w p e) [
    | inl same ↦ subst (λ q. HasNoError q.watcher.tables) same h
    | inr (pool, fig, k, figured, same) ↦
        subst (λ q. HasNoError q.watcher.tables) same
          (with_figures-HasNoError core f64_max cfg n pool
            (at_price borsh core f64_max cfg n w (price_at borsh core f64_max cfg n w pool).1) fig
            h)
  ]

  -- No pass writes a row with its error flag set, whatever happens in it. So where the table starts
  -- without one, after every pass of the loop the gate of the live mode passes exactly when its queries
  -- succeed and the pool has a row that is at least 14 days old.
  pub run_watch-IsAgeOnly :
      (ns : List (Notification F)) (w : Watcher F Key) (ps : List (Pass F Key))
      → HasNoError w.tables
      → run_watch borsh core f64_max cfg ns w ≡ some ps
      → All IsAgeOnly ps
  unfolding run_watch
  run_watch-IsAgeOnly [] w ps h e = subst (λ q. All IsAgeOnly q) (some_same e) tt
  run_watch-IsAgeOnly (n ∷ ns) w ps h e =
      let (p, first_pass, rest) = bind-some (process borsh core f64_max cfg n w) e in
      let (qs, later_passes, same) =
        bind-some (run_watch borsh core f64_max cfg ns p.watcher) rest in
      let clean = process-HasNoError n w p h first_pass in
      subst (λ q. All IsAgeOnly q) (some_same same)
        (HasNoError-IsAgeOnly p clean, run_watch-IsAgeOnly ns p.watcher qs clean later_passes)
