-- ===== src/Watch/Gate.antt =====
-- The risk gate of a tick in `src/main.rs`, as the steps of Risk.Session without a command of the bot
-- between them.
pub mod Steps
pub mod Cleared
use tick_liq.Prelude.{ℕ, Bool, Option, none, some}
use tick_liq.Prelude.Float.{Float}
use tick_liq.Risk.Monitor.{RiskMonitor, RiskAction, PnlSnapshot, evaluate}
use tick_liq.Risk.Session.{
  World, Phase, idle, noted, evaluated, storing, quiet, durable, note_before, evaluate_tick,
  compare_after, store_state,
}
use tick_liq.Watch.State.{Watcher, Notification}
use tick_liq.Watch.Tables.{Tables}

module _ {ℓ} {F : Type ℓ} ⦃f : Float F⦄ where
  -- The write, if the state has changed.
  unfoldable pub store_if : World F → Phase F → Bool → ℕ → World F
  unfolding store_state
  store_if w idle works now = w
  store_if w (noted before) works now = w
  store_if w (evaluated before) works now = w
  store_if w (storing s) works now = store_state w works s now

  unfoldable pub run_gate : World F → PnlSnapshot F → Option F → Bool → ℕ → World F
  unfolding store_if note_before evaluate_tick compare_after
  run_gate w snap margin works now =
      let before = durable w.monitor.state in
      let compared = compare_after (evaluate_tick (note_before w) before snap margin now) before in
      store_if compared compared.phase works now

  abbrev pub gate_world : RiskMonitor F → Tables F → World F
  gate_world monitor tables = record {
    db = tables.risk_state;
    monitor = monitor;
    phase = idle;
    bot = quiet;
  }

  -- The margin is fetched only where there is an account to read.
  abbrev pub margin_of : RiskMonitor F → Option F → Option F
  margin_of monitor drift_margin = elim monitor.drift_user_pubkey [
    | none ↦ none
    | some pubkey ↦ drift_margin
  ]

  unfoldable pub gated :
      {Key : Type 0}
      → Watcher F Key
      → PnlSnapshot F
      → Notification F
      → Option (RiskMonitor F)
      → Option (Tables F)
      → Watcher F Key × Option (RiskAction F)
  unfolding run_gate
  gated w snap n none tables = (w, none)
  gated w snap n (some monitor) none = (w, none)
  gated w snap n (some monitor) (some tables) =
      let margin = margin_of monitor n.drift_margin in
      let w' = run_gate (gate_world monitor tables) snap margin n.risk_written n.now in
      (
        record w {
          monitor = some (w'.monitor);
          tables = some (record tables { risk_state = w'.db });
        },
        some (evaluate monitor snap margin n.now).1,
      )

  -- Without a table there is no snapshot, and the gate is passed over.
  unfoldable pub risk_gate :
      {Key : Type 0}
      → Watcher F Key
      → PnlSnapshot F
      → Notification F
      → Watcher F Key × Option (RiskAction F)
  unfolding gated
  risk_gate w snap n = gated w snap n w.monitor w.tables
