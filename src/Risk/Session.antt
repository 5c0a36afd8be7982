-- ===== src/Risk/Session.antt =====
-- The watch process around the risk monitor: the start of a session, the risk gate of a tick and the
-- commands /pause and /resume, as the steps of `src/main.rs` and `src/bot/commands.rs`. The monitor is
-- behind a mutex that each step takes once, so the steps of the gate and of the bot interleave.
pub mod Halt
pub mod Pause
use tick_liq.Risk.Monitor.{RiskState, RiskMonitor, PnlSnapshot, evaluate, new, Pubkey, with_state}
use tick_liq.Risk.Store.{Db, load_or_init, reset_session, persist_state, set_operator_pause}
use tick_liq.Prelude.{none, false, some, true, ◌≡◌, ◌&&◌, not, if◌then◌else◌, ℕ, Bool, Option}
use tick_liq.Prelude.Float.{lit, Float}
use Prim.Native.String.{String}

-- The fields that are compared to debounce the write: `current_drawdown_pct` is left out.
pub record Durable {ℓ} (F : Type ℓ) : Type ℓ where
  pub peak_pnl : F
  pub pause_flag : Bool
  pub halt_flag : Bool
  pub operator_pause : Bool

-- Where the risk gate stands in its tick.
pub data Phase {ℓ} (F : Type ℓ) : Type ℓ where
  idle : Phase F
  noted : Durable F → Phase F  -- `before` is read
  evaluated : Durable F → Phase F  -- `evaluate` has run
  storing : RiskState F → Phase F  -- the clone of the state waits for its write

-- Where a handler of the bot stands: it writes the table first, then the memory.
pub data Bot : Type 0 where
  quiet : Bot
  wrote : Bool → Bot

pub record World {ℓ} (F : Type ℓ) : Type ℓ where
  pub db : Db F
  pub monitor : RiskMonitor F
  pub phase : Phase F
  pub bot : Bot

-- The limits of the command line.
pub record Limits {ℓ} (F : Type ℓ) : Type ℓ where
  pub max_drawdown_pct : Option F
  pub max_il_pct : Option F
  pub drift_min_margin_ratio : Option F
  pub drift_user_pubkey : Option Pubkey
  pub rpc_url : String

abbrev pub same_flag : Bool → Bool → Bool
same_flag true b = b
same_flag false b = not b

module _ {ℓ} {F : Type ℓ} ⦃f : Float F⦄ where
  abbrev pub durable : RiskState F → Durable F
  durable s = record {
    peak_pnl = s.peak_pnl;
    pause_flag = s.pause_flag;
    halt_flag = s.halt_flag;
    operator_pause = s.operator_pause;
  }

  -- `after != before`
  abbrev pub changed : Durable F → Durable F → Bool
  changed before after = not (
      f.eq after.peak_pnl before.peak_pnl
      && same_flag after.pause_flag before.pause_flag
      && same_flag after.halt_flag before.halt_flag
      && same_flag after.operator_pause before.operator_pause)

  -- What the start of a session makes of the results of its two calls.
  finish_start :
      Limits F
      → Db F × Option (RiskState F)
      → Db F × Option (Unit {0})
      → Db F × Option (RiskMonitor F)
  unfolding new
  finish_start limits (loaded, none) cleared = (loaded, none)
  finish_start limits (loaded, some state) (cleared, none) = (cleared, none)
  finish_start limits (loaded, some state) (cleared, some _) = (
    cleared,
    some (
        new (record state { peak_pnl = lit 0; current_drawdown_pct = lit 0 })
          limits.max_drawdown_pct limits.max_il_pct limits.drift_min_margin_ratio
          limits.drift_user_pubkey limits.rpc_url),
  )

  -- The start of a session: load the row or make one, clear what belongs to the last session in the
  -- table and in memory. The flags say which statements succeed; `none` is the error that ends the
  -- process.
  unfoldable pub start_watch :
      Bool → Bool → Bool → Limits F → Db F → String → ℕ → Db F × Option (RiskMonitor F)
  unfolding finish_start
  start_watch selects inserts resets limits db pool_addr now =
      let loaded = load_or_init selects inserts db pool_addr now in
      finish_start limits loaded (reset_session resets loaded.0 pool_addr now)

  -- The steps of the risk gate.
  unfoldable pub note_before : World F → World F
  note_before w = record w { phase = noted (durable w.monitor.state) }

  unfoldable pub evaluate_tick : World F → Durable F → PnlSnapshot F → Option F → ℕ → World F
  evaluate_tick w before snap margin now = record w {
    monitor = (evaluate w.monitor snap margin now).0;
    phase = evaluated before;
  }

  unfoldable pub compare_after : World F → Durable F → World F
  compare_after w before = record w {
    phase = if changed before (durable w.monitor.state) then storing w.monitor.state else idle;
  }

  unfoldable pub store_state : World F → Bool → RiskState F → ℕ → World F
  unfolding persist_state
  store_state w works s now = record w { db = (persist_state works w.db s now).0; phase = idle }

  -- The steps of `handle_pause` (`true`) and `handle_resume` (`false`).
  unfoldable pub pause_table : World F → String → Bool → Bool → ℕ → World F
  unfolding set_operator_pause
  pause_table w pool_addr works paused now = record w {
    db = (set_operator_pause works w.db pool_addr paused now).0;
    bot = if works then wrote paused else quiet;
  }

  unfoldable pub pause_memory : World F → Bool → World F
  pause_memory w paused = record w {
    monitor = with_state w.monitor (record (w.monitor.state) { operator_pause = paused });
    bot = quiet;
  }

  -- One step of the system for one pool; a restart drops whatever was under way.
  pub data Step (pool_addr : String) (w : World F) (w' : World F) : Type ℓ where
    note : w.phase ≡ idle → w' ≡ note_before w → Step pool_addr w w'
    tick :
        (before : Durable F) (snap : PnlSnapshot F) (margin : Option F) (now : ℕ)
        → w.phase ≡ noted before
        → w' ≡ evaluate_tick w before snap margin now
        → Step pool_addr w w'
    compare :
        (before : Durable F)
        → w.phase ≡ evaluated before
        → w' ≡ compare_after w before
        → Step pool_addr w w'
    store :
        (works : Bool) (s : RiskState F) (now : ℕ)
        → w.phase ≡ storing s
        → w' ≡ store_state w works s now
        → Step pool_addr w w'
    command :
        (works paused : Bool) (now : ℕ)
        → w.bot ≡ quiet
        → w' ≡ pause_table w pool_addr works paused now
        → Step pool_addr w w'
    command_memory :
        (paused : Bool) → w.bot ≡ wrote paused → w' ≡ pause_memory w paused → Step pool_addr w w'
    restart :
        (limits : Limits F) (selects inserts : Bool) (now : ℕ) (db : Db F) (m : RiskMonitor F)
        → start_watch selects inserts true limits w.db pool_addr now ≡ (db, some m)
        → w' ≡ record { db = db; monitor = m; phase = idle; bot = quiet }
        → Step pool_addr w w'

  pub data Reach (pool_addr : String) (w : World F) : World F → Type ℓ where
    here : Reach pool_addr w w
    next : {u v : World F} → Reach pool_addr w u → Step pool_addr u v → Reach pool_addr w v
