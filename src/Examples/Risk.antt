-- ===== src/Examples/Risk.antt =====
-- The risk monitor at concrete inputs: a peak of $100, a limit of 15 % on the drawdown.
use tick_liq.Risk.Monitor.{
  continue, pause_rebalancing, halt_all, with_state, RiskState, RiskMonitor, PnlSnapshot, evaluate,
}
use tick_liq.Risk.Session.{
  command, here, next, quiet, idle, storing, Reach, pause_table, note, Limits, note_before, World,
}
use tick_liq.Risk.Monitor.Latch.{halted_iff_breached, breached, Tick, evaluate_all}
use tick_liq.Risk.Monitor.Decision.{evaluate-verdict, verdict, evaluate-IsEffect, IsEffect}
use tick_liq.Prelude.{refl, ◌*◌, ◌||◌, [], false, ◌≡◌, some, ◌∷◌, true, none, ℕ, Bool}
use tick_liq.Prelude.Milli.{milli_float, Milli}
use tick_liq.Risk.Session.Halt.{halt_durable, IsHalted}
use tick_liq.Risk.Store.{put, Db}
use tick_liq.Prelude.Int.{pos}
use tick_liq.Risk.Session.Pause.{pause_lost}

abbrev usd : ℕ → Milli
usd n = some (pos (n * 1000))

abbrev state : RiskState Milli
state = record {
  pool_address = "POOL";
  peak_pnl = usd 100;
  current_drawdown_pct = usd 0;
  pause_flag = false;
  halt_flag = false;
  operator_pause = false;
  updated_at = 0;
}

abbrev pub monitor : RiskMonitor Milli
monitor = record {
  state = state;
  max_drawdown_pct = some (usd 15);
  max_il_pct = some (usd 4);
  drift_min_margin_ratio = none;
  drift_user_pubkey = none;
  rpc_url = "";
}

abbrev pub halted : RiskMonitor Milli
halted = with_state monitor (record state { halt_flag = true })

abbrev snap : ℕ → ℕ → PnlSnapshot Milli
snap net il = record {
  mint = "MINT";
  pool_address = "POOL";
  fees_earned = usd 0;
  il_usd = usd il;
  net_pnl = usd net;
  position_value = usd 1000;
  price = usd 100;
  observed_at = 0;
}

abbrev tick : ℕ → ℕ → Tick Milli
tick net il = record { snap = snap net il; margin = none; now = 7 }

actions :
    ((evaluate monitor (snap 80 0) none 7).1 ≡ halt_all (usd 20))
    × ((evaluate monitor (snap 90 50) none 7).1 ≡ pause_rebalancing (usd 5))
    × ((evaluate monitor (snap 90 0) none 7).1 ≡ continue)
    × ((evaluate halted (snap 120 0) none 7).1 ≡ halt_all (usd 0))
unfolding evaluate
actions = (refl, refl, refl, refl)

evaluate-verdict_example :
    (evaluate monitor (snap 80 50) none 7).1 ≡ verdict monitor (snap 80 50) none
evaluate-verdict_example = evaluate-verdict monitor (snap 80 50) none 7

evaluate-IsEffect_example : IsEffect monitor (snap 80 50) 7 (evaluate monitor (snap 80 50) none 7).0
evaluate-IsEffect_example = evaluate-IsEffect monitor (snap 80 50) none 7

halted_iff_breached_example :
    (evaluate_all monitor (tick 120 0 ∷ tick 90 0 ∷ [])).0.state.halt_flag
    ≡ (false || breached monitor (tick 120 0 ∷ tick 90 0 ∷ []))
halted_iff_breached_example = halted_iff_breached monitor (tick 120 0 ∷ tick 90 0 ∷ [])

-- A world whose pool is halted in the table and in memory.
abbrev pub db : Bool → Db Milli
db halt = put (λ _. none) "POOL" (record state { halt_flag = halt })

abbrev world : World Milli
world = record { db = db true; monitor = halted; phase = idle; bot = quiet }

world-IsHalted : IsHalted "POOL" world
world-IsHalted = record { stored = refl; memory = refl; pending = tt }

halt_durable_example : IsHalted "POOL" (pause_table (note_before world) "POOL" true false 9)
unfolding note_before pause_table
halt_durable_example =
    halt_durable "POOL" world-IsHalted
      (next (next here (note refl refl)) (command true false 9 refl refl))

abbrev limits : Limits Milli
limits = record {
  max_drawdown_pct = some (usd 15);
  max_il_pct = none;
  drift_min_margin_ratio = none;
  drift_user_pubkey = none;
  rpc_url = "";
}

abbrev in_flight : World Milli
in_flight = record { db = db false; monitor = monitor; phase = storing state; bot = quiet }

pause_lost_example :
    (w' : World Milli) × Reach "POOL" in_flight w'
    × (w'.bot ≡ quiet)
    × (w'.monitor.state.operator_pause ≡ true)
    × (w'.db "POOL" ≡ some (record state { updated_at = 9 }))
pause_lost_example = pause_lost "POOL" in_flight state 9 refl refl refl refl
