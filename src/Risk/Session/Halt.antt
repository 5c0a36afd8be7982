-- ===== src/Risk/Session/Halt.antt =====
-- A stored drawdown halt survives every interleaving of ticks, commands, failed writes and restarts.
use tick_liq.Risk.Session.{
  here, pause_memory, idle, pause_table, durable, store_state, changed, compare_after,
  evaluate_tick, finish_start, Durable, next, note_before, Limits, start_watch, restart,
  command_memory, command, store, compare, storing, tick, Phase, note, World, Step, Reach,
}
use tick_liq.Risk.Monitor.Decision.{evaluate-IsEffect}
use tick_liq.Prelude.Float.{Float}
use Prim.Native.String.{String}
use tick_liq.Risk.Store.{
  load_or_init, update-eq-put, persist_state, put, set_operator_pause, update, reset_session, Db,
}
use tick_liq.Prelude.{
  ap, if◌then◌else◌, Option, ◌∙◌, refl, inr, inl, Bool-cases, Option-cases, ℕ, Bool, arith, some,
  none, true, ◌≡◌,
}
use tick_liq.Risk.Monitor.{evaluate, PnlSnapshot, RiskMonitor, RiskState}
use mathlib.Core.Path.{subst}

module _ {ℓ} {F : Type ℓ} ⦃f : Float F⦄ (pool_addr : String) where
  -- The row of the pool is there and has its halt flag set.
  abbrev pub IsHaltStored : Db F → Type 0
  IsHaltStored db = elim (db pool_addr) [ none ↦ ⊥ | some row ↦ row.halt_flag ≡ true ]

  abbrev IsPendingHalted : Phase F → Type 0
  IsPendingHalted (storing s) = s.halt_flag ≡ true
  IsPendingHalted _ = Unit

  -- The table, the memory and the write under way all hold the halt, for the pool's row.
  pub record IsHalted (w : World F) : Type ℓ where
    pub stored : IsHaltStored w.db
    pub memory : w.monitor.state.halt_flag ≡ true
    pub pending : IsPendingHalted w.phase

  put-IsHaltStored :
      (db : Db F) (key : String) (row : RiskState F)
      → IsHaltStored db
      → row.halt_flag ≡ true
      → IsHaltStored (put db key row)
  put-IsHaltStored db key row h r = ground arith

  update-IsHaltStored :
      (db : Db F) (change : RiskState F → RiskState F)
      → ((row : RiskState F) → (change row).halt_flag ≡ row.halt_flag)
      → IsHaltStored db
      → IsHaltStored (update db pool_addr change)
  update-IsHaltStored db change keeps h = elim (Option-cases (db pool_addr)) [
    | inl e ↦ absurd (rw (e, IsHaltStored) at h)
    | inr (row, e) ↦
        rw (update-eq-put db pool_addr change row e)
          (put-IsHaltStored db pool_addr (change row) h (keeps row ∙ (rw (e, IsHaltStored) at h)))
  ]

  -- The statements on the table keep a stored halt, whether they succeed or not; a write of the whole
  -- state does if that state is halted.
  pub statements-IsHaltStored :
      (works : Bool) (db : Db F) (now : ℕ)
      → IsHaltStored db
      → IsHaltStored (reset_session works db pool_addr now).0
        × ((paused : Bool) → IsHaltStored (set_operator_pause works db pool_addr paused now).0)
        × ((s : RiskState F) → s.halt_flag ≡ true → IsHaltStored (persist_state works db s now).0)
  unfolding reset_session set_operator_pause persist_state
  statements-IsHaltStored works db now h = elim (Bool-cases works) [
    | inl e ↦ rw e (
      update-IsHaltStored db _ (λ row. refl) h,
      λ paused. update-IsHaltStored db _ (λ row. refl) h,
      λ s r. put-IsHaltStored db s.pool_address _ h r,
    )
    | inr e ↦ rw e (h, λ paused. h, λ s r. h)
  ]

  -- The load finds the row, and leaves the table alone.
  load-halted :
      (selects inserts : Bool) (db : Db F) (now : ℕ)
      → IsHaltStored db
      → ((load_or_init selects inserts db pool_addr now).0 ≡ db)
        × ((s : RiskState F)
            → (load_or_init selects inserts db pool_addr now).1 ≡ some s
            → s.halt_flag ≡ true)
  unfolding load_or_init
  load-halted selects inserts db now h = ground arith

  finish_start-halted :
      (limits : Limits F) (loaded : Db F × Option (RiskState F))
      (cleared : Db F × Option (Unit {0}))
      → IsHaltStored loaded.0
      → IsHaltStored cleared.0
      → ((s : RiskState F) → loaded.1 ≡ some s → s.halt_flag ≡ true)
      → IsHaltStored (finish_start limits loaded cleared).0
        × ((m : RiskMonitor F)
            → (finish_start limits loaded cleared).1 ≡ some m
            → m.state.halt_flag ≡ true)
  unfolding finish_start
  finish_start-halted limits (l, none) c hl hc hs = (hl, λ m e. cc)
  finish_start-halted limits (l, some s) (c, none) hl hc hs = (hc, λ m e. cc)
  finish_start-halted limits (l, some s) (c, some _) hl hc hs =
      (hc, λ m e. ground (arith, hs s refl))

  -- The start of a session keeps a stored halt on every path, also where a statement fails, and the
  -- monitor that it makes is halted.
  pub start-halted :
      (limits : Limits F) (selects inserts resets : Bool) (db : Db F) (now : ℕ)
      → IsHaltStored db
      → IsHaltStored (start_watch selects inserts resets limits db pool_addr now).0
        × ((m : RiskMonitor F)
            → (start_watch selects inserts resets limits db pool_addr now).1 ≡ some m
            → m.state.halt_flag ≡ true)
  unfolding start_watch
  start-halted limits selects inserts resets db now h =
      let loaded = load_or_init selects inserts db pool_addr now in
      let (same, state) = load-halted selects inserts db now h in
      let still : IsHaltStored loaded.0 = rw same h in
      finish_start-halted limits loaded (reset_session resets loaded.0 pool_addr now) still
        (statements-IsHaltStored resets loaded.0 now still).0 state

  evaluate-halted :
      (m : RiskMonitor F) (snap : PnlSnapshot F) (margin : Option F) (now : ℕ)
      → m.state.halt_flag ≡ true
      → (evaluate m snap margin now).0.state.halt_flag ≡ true
  evaluate-halted m snap margin now h = ground (arith, evaluate-IsEffect m snap margin now)

  compare-pending :
      (before : Durable F) (s : RiskState F)
      → s.halt_flag ≡ true
      → IsPendingHalted (if changed before (durable s) then storing s else idle)
  compare-pending before s h = elim (Bool-cases (changed before (durable s))) [
    | inl e ↦ rw e h
    | inr e ↦ rw e tt
  ]

  Step-IsHalted : {w w' : World F} → Step pool_addr w w' → IsHalted w → IsHalted w'
  unfolding note_before evaluate_tick compare_after store_state pause_table pause_memory
  Step-IsHalted (note p e) h = rw e (record { stored = h.stored; memory = h.memory; pending = tt })
  Step-IsHalted {w} (tick b snap margin now p e) h = rw e (record {
    stored = h.stored;
    memory = evaluate-halted w.monitor snap margin now h.memory;
    pending = tt;
  })
  Step-IsHalted {w} (compare b p e) h = rw e (record {
    stored = h.stored;
    memory = h.memory;
    pending = compare-pending b w.monitor.state h.memory;
  })
  Step-IsHalted {w} (store works s now p e) h = rw e (record {
    stored = (statements-IsHaltStored works w.db now h.stored).2 s (rw p at h.pending);
    memory = h.memory;
    pending = tt;
  })
  Step-IsHalted {w} (command works paused now p e) h = rw e (record {
    stored = (statements-IsHaltStored works w.db now h.stored).1 paused;
    memory = h.memory;
    pending = h.pending;
  })
  Step-IsHalted (command_memory paused p e) h =
      rw e (record { stored = h.stored; memory = h.memory; pending = h.pending })
  Step-IsHalted {w} (restart limits selects inserts now db m p e) h =
      let (stored, memory) = start-halted limits selects inserts true w.db now h.stored in
      rw e (record {
        stored = subst (λ r. IsHaltStored r.0) p stored;
        memory = memory m (ap (λ r. r.1) p);
        pending = tt;
      })

  -- A stored halt is durable: once the pool's row, the monitor and the write under way are halted, so
  -- they are after any steps of ticks, commands, writes that may fail, and restarts.
  pub halt_durable : {w w' : World F} → IsHalted w → Reach pool_addr w w' → IsHalted w'
  halt_durable h here = h
  halt_durable h (next r st) = Step-IsHalted st (halt_durable h r)
