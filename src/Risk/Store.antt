-- ===== src/Risk/Store.antt =====
-- The table `risk_state`, one row for each pool, and the statements that `src/strategy/risk_monitor.rs`
-- and `src/bot/queries.rs` run on it. A statement that fails leaves the table as it is; `none` stands
-- for the error that is returned.
use text.Mathlib.Text.{◌==◌ as str_eq}
use text.Mathlib.TextPositions.{eq_refl}
use tick_liq.Risk.Monitor.{RiskState}
use tick_liq.Prelude.{none, false, some, ◌≡◌, if◌then◌else◌, ℕ, Option, Bool}
use Prim.Native.String.{String}
use tick_liq.Prelude.Float.{lit, Float}

abbrev pub Db {ℓ} : Type ℓ → Type ℓ
Db F = String → Option (RiskState F)

module _ {ℓ} {F : Type ℓ} where
  abbrev pub put : Db F → String → RiskState F → Db F
  put db key row = λ k. if str_eq k key then some row else db k

  -- `UPDATE risk_state SET … WHERE pool_address = …`
  abbrev pub update : Db F → String → (RiskState F → RiskState F) → Db F
  update db key change = elim (db key) [ none ↦ db | some row ↦ put db key (change row) ]

  pub put_self : (db : Db F) (key : String) (row : RiskState F) → put db key row key ≡ some row
  put_self db key row = rw (eq_refl key)

  pub update-eq-put :
      (db : Db F) (key : String) (change : RiskState F → RiskState F) (row : RiskState F)
      → db key ≡ some row
      → update db key change ≡ put db key (change row)
  update-eq-put db key change row e = rw (e, update)

  -- `UPDATE … SET operator_pause = …`
  unfoldable pub set_operator_pause : Bool → Db F → String → Bool → ℕ → Db F × Option (Unit {0})
  set_operator_pause works db pool_address paused now =
      if works
      then (
        update db pool_address (λ row. record row { operator_pause = paused; updated_at = now }),
        some tt,
      )
      else (db, none)

  -- `INSERT … ON CONFLICT (pool_address) DO UPDATE`
  unfoldable pub persist_state : Bool → Db F → RiskState F → ℕ → Db F × Option (Unit {0})
  persist_state works db state now =
      if works
      then (put db state.pool_address (record state { updated_at = now }), some tt)
      else (db, none)

module _ {ℓ} {F : Type ℓ} ⦃f : Float F⦄ where
  abbrev pub fresh : String → ℕ → RiskState F
  fresh pool_address now = record {
    pool_address = pool_address;
    peak_pnl = lit 0;
    current_drawdown_pct = lit 0;
    pause_flag = false;
    halt_flag = false;
    operator_pause = false;
    updated_at = now;
  }

  -- SELECT, then INSERT … ON CONFLICT DO NOTHING where there is no row. The two flags say whether the
  -- statements succeed.
  unfoldable pub load_or_init : Bool → Bool → Db F → String → ℕ → Db F × Option (RiskState F)
  load_or_init selects inserts db pool_address now =
      if selects
      then elim (db pool_address) [
        | some row ↦ (db, some (record row { pool_address = pool_address }))
        | none ↦
            if inserts
            then (put db pool_address (fresh pool_address now), some (fresh pool_address now))
            else (db, none)
      ]
      else (db, none)

  -- `UPDATE … SET peak_pnl = 0.0, current_drawdown_pct = 0.0`
  unfoldable pub reset_session : Bool → Db F → String → ℕ → Db F × Option (Unit {0})
  reset_session works db pool_address now =
      if works
      then (
        update db pool_address (λ row. record row {
          peak_pnl = lit 0;
          current_drawdown_pct = lit 0;
          updated_at = now;
        }),
        some tt,
      )
      else (db, none)
