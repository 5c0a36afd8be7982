-- ===== src/Examples/Watch.antt =====
-- Passes of the watch loop at concrete inputs: a live session whose pool has left the range of the
-- position.
use tick_liq.Prelude.Milli.{Milli-IsOrdered, Milli, milli_float, milli_libm}
use tick_liq.Examples.Research.{core}
use tick_liq.Examples.Borsh.{write_le, bytewise}
use tick_liq.Examples.Accounts.{position}
use tick_liq.Examples.Risk.{monitor, halted, db}
use tick_liq.Prelude.Result.{err}
use tick_liq.Shadow.Gate.{allowed, live}
use tick_liq.Prelude.{
  length, All, ◌^◌, refl, ◌++◌, none, ◌≡◌, false, ◌∷◌, [], true, some, ℕ, List, Option, Bool,
}
use tick_liq.Watch.State.{submitted, Watcher, Notification, Pass, WatchConfig}
use tick_liq.Risk.Monitor.{evaluate, with_state, RiskMonitor}
use tick_liq.Watch.Tick.{refreshed, pool_of, run_watch, process}
use tick_liq.Watch.Tables.{Tables}
use tick_liq.Orca.Accounts.{whirlpool_type, discriminator}
use tick_liq.Prelude.Float.{lit}
use tick_liq.Prelude.Int.{◌-ℤ◌, pos}
use tick_liq.Orca.Layout.{WhirlpoolPool}
use tick_liq.Math.Il.{compute_il}
use tick_liq.Watch.Tick.Clean.{run_watch-IsAgeOnly, IsAgeOnly}
use tick_liq.Watch.Figures.{figures_of, Figures}
use tick_liq.Watch.Tick.Halted.{run_watch-IsHaltedPass, IsHaltedPass}
use tick_liq.Watch.Tick.Total.{run_watch-Returns}
use tick_liq.Math.Fees.{compute_accrued_fees}
use tick_liq.Watch.Tick.Submitted.{process-IsPermitted, IsPermitted}
use tick_liq.Prelude.Word.{wrapping_sub}
use tick_liq.Watch.Price.{price_now}
use tick_liq.Math.Price.{sqrt_q64_to_ui_price}

abbrev cfg : WatchConfig Milli
cfg = record {
  mint = "MINT";
  pool_addr = "POOL";
  guard = live;
  telegram = true;
  coinbase_enabled = false;
  session = record {
    fee_growth_baseline_a = 5;
    fee_growth_baseline_b = 8;
    decimals_a = 0;
    decimals_b = 0;
    entry_price = lit 1;
  };
}

-- The tick is 200, and the range ends at 128.
abbrev left_range : List ℕ
left_range =
    discriminator whirlpool_type
    ++ 1
      ∷ 255
      ∷ 64
      ∷ 0
      ∷ 64
      ∷ 0
      ∷ 184
      ∷ 11
      ∷ 44
      ∷ 1
      ∷ (write_le 16 (2 ^ 70)
          ++ write_le 16 (2 ^ 64)
          ++ write_le 4 200
          ++ write_le 8 0
          ++ write_le 8 1
          ++ 2 ∷ 3 ∷ (write_le 16 5 ++ 6 ∷ 7 ∷ (write_le 16 8 ++ write_le 8 9)))

abbrev update : Option (List ℕ) → Notification Milli
update account = record {
  position = err tt;
  account = account;
  fetched = err tt;
  slot = some (pos 9);
  now = 7;
  instant = 7;
  cex = none;
  coinbase = none;
  drift_margin = none;
  tick_written = true;
  pnl_written = true;
  risk_written = true;
  skip_written = true;
  shadow_written = true;
  sent = true;
  approved = true;
}

abbrev tables : Bool → Tables Milli
tables halt = record {
  pool_ticks = [];
  pnl_history = [];
  risk_state = db halt;
  shadow_rebalances = [];
}

abbrev watcher : RiskMonitor Milli → Bool → Watcher Milli ℕ
watcher m halt = record {
  position = position;
  cex_was_stale = false;
  monitor = some m;
  tables = some (tables halt);
}

abbrev updates : List (Notification Milli)
updates = update (some left_range) ∷ update none ∷ []

abbrev calm : RiskMonitor Milli
calm = with_state monitor (record (monitor.state) { peak_pnl = lit 0 })

-- The rebalance is approved, and the guard lets it through.
ran :
    (p : Pass Milli ℕ) × (process bytewise core
        (lit 0)
        cfg
        (update (some left_range))
        (watcher calm false)
      ≡ some p)
    × (p.end ≡ submitted allowed)
unfolding process compute_il ◌-ℤ◌ evaluate compute_accrued_fees wrapping_sub
ran = (_, refl, refl)

process-IsPermitted_example :
    (pool : WhirlpoolPool ℕ) × (fig : Figures Milli) × (pool_of bytewise (some left_range) (err tt)
      ≡ some pool)
    × (figures_of core cfg.session pool position (sqrt_q64_to_ui_price pool.sqrt_price 0 0)
        ≡ some fig)
    × IsPermitted cfg
        (update (some left_range))
        pool
        position
        fig
        allowed
        (some calm)
        (some (tables false))
        ran.0.watcher
unfolding price_now refreshed
process-IsPermitted_example =
    process-IsPermitted cfg (update (some left_range)) bytewise core (lit 0) (watcher calm false)
      ran.0 allowed ran.1 ran.2

run_watch-Returns_example :
    (ps : List (Pass Milli ℕ)) × (run_watch bytewise core (lit 0) cfg updates (watcher calm false)
      ≡ some ps)
    × (length ps ≡ 2)
run_watch-Returns_example =
    run_watch-Returns Milli-IsOrdered core cfg bytewise (lit 0) updates (watcher calm false)

run_watch-IsHaltedPass_example :
    (ps : List (Pass Milli ℕ)) × (run_watch bytewise core (lit 0) cfg updates (watcher halted true)
      ≡ some ps)
    × (length ps ≡ 2)
    × All (IsHaltedPass "POOL") ps
run_watch-IsHaltedPass_example =
    run_watch-IsHaltedPass Milli-IsOrdered bytewise core (lit 0) cfg "POOL" updates
      (watcher halted true) (refl, refl)

abbrev watched :
    (ps : List (Pass Milli ℕ)) × (run_watch bytewise core (lit 0) cfg updates (watcher calm false)
      ≡ some ps)
    × (length ps ≡ 2)
watched = run_watch-Returns Milli-IsOrdered core cfg bytewise (lit 0) updates (watcher calm false)

run_watch-IsAgeOnly_example : All IsAgeOnly watched.0
run_watch-IsAgeOnly_example =
    run_watch-IsAgeOnly bytewise core (lit 0) cfg updates (watcher calm false) watched.0 tt
      watched.1
