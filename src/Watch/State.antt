-- ===== src/Watch/State.antt =====
-- What the processor task of `watch` in `src/main.rs` works on. A notification is a record of what the
-- program is given from outside while it handles it, the outcomes of the writes included.
use Prim.Native.String.{String}
use tick_liq.Prelude.{ℕ, Bool, true, false, List, Option, none, some}
use tick_liq.Prelude.Int.{ℤ}
use tick_liq.Prelude.Result.{Result, ok, err}
use tick_liq.Feeds.Quote.{CexPrice}
use tick_liq.Gauges.{Gauge}
use tick_liq.Orca.Layout.{WhirlpoolPosition}
use tick_liq.Orca.Accounts.{AccountError}
use tick_liq.Risk.Monitor.{
  close_drift_hedge, resume_rebalancing, RiskMonitor, RiskAction, halt_all, pause_rebalancing,
  continue,
}
use tick_liq.Shadow.Gate.{ShadowGuard, Submission}
use tick_liq.Watch.Figures.{Session}
use tick_liq.Watch.Tables.{Tables}

pub record WatchConfig {ℓ} (F : Type ℓ) : Type ℓ where
  pub mint : String
  pub pool_addr : String
  pub guard : ShadowGuard
  pub telegram : Bool
  pub coinbase_enabled : Bool
  pub session : Session F

pub record Notification {ℓ} (F : Type ℓ) : Type ℓ where
  pub position : Result (Unit {0}) (List ℕ)  -- the account of the position, read again
  pub account : Option (List ℕ)  -- the account in the notification
  pub fetched : Result (Unit {0}) (List ℕ)  -- the account of the pool over HTTP
  pub slot : Option ℤ
  pub now : ℕ
  pub instant : ℕ
  pub cex : Option (CexPrice F)
  pub coinbase : Option (CexPrice F)
  pub drift_margin : Option F
  pub tick_written : Bool
  pub pnl_written : Bool
  pub risk_written : Bool
  pub skip_written : Bool
  pub shadow_written : Bool
  pub sent : Bool  -- the proposal reached Telegram
  pub approved : Bool  -- what `await_approval` returns

-- What the task keeps from one notification to the next.
pub record Watcher {ℓ} (F : Type ℓ) (Key : Type 0) : Type ℓ where
  pub position : WhirlpoolPosition Key
  pub cex_was_stale : Bool
  pub monitor : Option (RiskMonitor F)
  pub tables : Option (Tables F)

-- How the pass ends.
pub data End {ℓ} (F : Type ℓ) : Type ℓ where
  no_pool : End F
  risk_stop : RiskAction F → End F
  operator_stop : End F
  held : String → End F
  unapproved : String → End F
  submitted : Submission → End F

-- What the message to the operator says.
pub record ProposalData {ℓ} (F : Type ℓ) : Type ℓ where
  pub pool_address : String
  pub trigger_reason : String
  pub price : F
  pub simulated_fees_earned : F
  pub simulated_il_usd : F
  pub simulated_net_pnl : F
  pub range_width : F

pub record Pass {ℓ} (F : Type ℓ) (Key : Type 0) : Type ℓ where
  pub watcher : Watcher F Key
  pub gauges : List (Gauge F)
  pub proposal : Option (ProposalData F)
  pub end : End F

abbrev pub or_last : {A : Type 0} → A → Result AccountError A → A
or_last last (ok a) = a
or_last last (err e) = last

abbrev pub ok_of : {E A : Type 0} → Result E A → Option A
ok_of (ok a) = some a
ok_of (err e) = none

-- `matches!` on the two actions that end the tick.
abbrev pub stops {ℓ} : {F : Type ℓ} → RiskAction F → Bool
stops (halt_all pct) = true
stops (pause_rebalancing pct) = true
stops continue = false
stops (resume_rebalancing pct) = false
stops (close_drift_hedge ratio) = false

abbrev pub on_tables {ℓ} :
    {F : Type ℓ} → (Tables F → Tables F) → Option (Tables F) → Option (Tables F)
on_tables change none = none
on_tables change (some tables) = some (change tables)

abbrev pub is_paused {ℓ} : {F : Type ℓ} → Option (RiskMonitor F) → Bool
is_paused none = false
is_paused (some monitor) = monitor.state.operator_pause
