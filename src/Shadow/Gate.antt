-- ===== src/Shadow/Gate.antt =====
-- The gate that the live mode has to pass: `check_shadow_gate` of `src/storage/writer.rs`, the writes of
-- the table that it reads, `ShadowGuard`, and the check at the start of `src/main.rs`. Times are seconds.
pub mod Status
pub mod Laws
use text.Mathlib.Text.{◌==◌ as str_eq}
use tick_liq.Prelude.{
  suc, ◌*◌, min, ◌+◌, false, [], ◌&&◌, none, some, ◌∷◌, ltb, true, Bool, if◌then◌else◌, List,
  Option, ℕ,
}
use tick_liq.Prelude.Result.{Result, ok, err}
use Prim.Native.String.{String}

-- The columns of `shadow_rebalances` that decide; the others are the simulated figures of the row.
pub record Row : Type 0 where
  pub pool_address : String
  pub trigger_reason : String
  pub created_at : ℕ
  pub error_flag : Bool

pub data GateStatus : Type 0 where
  pass : GateStatus
  no_data : String → GateStatus
  too_recent : ℕ → ℕ → GateStatus
  errors_present : ℕ → GateStatus

unfoldable pub is_pass : GateStatus → Bool
is_pass pass = true
is_pass (no_data pool_address) = false
is_pass (too_recent earliest_at required_age_days) = false
is_pass (errors_present count) = false

abbrev pub shadow_gate_required_days : ℕ
shadow_gate_required_days = 14

abbrev pub day_secs : ℕ
day_secs = 86400

-- `write_shadow_rebalance`; the server sets the time. The flag says whether the statement succeeds.
unfoldable pub write_shadow_rebalance :
    Bool → List Row → Row → ℕ → List Row × Result (Unit {0}) (Unit {0})
write_shadow_rebalance works table row now =
    if works then (record row { created_at = now } ∷ table, ok tt) else (table, err tt)

-- `SELECT MIN(created_at) ... WHERE pool_address = $1`
earlier : ℕ → Option ℕ → Option ℕ
earlier t none = some t
earlier t (some u) = some (min t u)

earliest : String → List Row → Option ℕ
unfolding earlier
earliest pool_address [] = none
earliest pool_address (row ∷ rows) =
    let rest = earliest pool_address rows in
    if str_eq row.pool_address pool_address then earlier row.created_at rest else rest

-- `SELECT COUNT(*) ... WHERE pool_address = $1 AND error_flag = true`
error_count : String → List Row → ℕ
error_count pool_address [] = 0
error_count pool_address (row ∷ rows) =
    let rest = error_count pool_address rows in
    if str_eq row.pool_address pool_address && row.error_flag then suc rest else rest

count_step : Bool → ℕ → Result (Unit {0}) GateStatus
count_step counts n =
    if counts then (if ltb 0 n then ok (errors_present n) else ok pass) else err tt

age_step : Bool → String → List Row → ℕ → Option ℕ → Result (Unit {0}) GateStatus
unfolding count_step error_count
age_step counts pool_address table now none = ok (no_data pool_address)
age_step counts pool_address table now (some ts) =
    if ltb now (ts + shadow_gate_required_days * day_secs)
    then ok (too_recent ts shadow_gate_required_days)
    else count_step counts (error_count pool_address table)

-- The flags say whether the two queries succeed.
unfoldable pub check_shadow_gate :
    Bool → Bool → List Row → String → ℕ → Result (Unit {0}) GateStatus
unfolding age_step earliest
check_shadow_gate selects counts table pool_address now =
    if selects then age_step counts pool_address table now (earliest pool_address table) else err tt

pub data ShadowGuard : Type 0 where
  shadow : ShadowGuard
  live : ShadowGuard

pub data Submission : Type 0 where
  blocked : Submission
  allowed : Submission

unfoldable pub submit : ShadowGuard → Submission
submit shadow = blocked
submit live = allowed

-- How the check at the start of a session ends.
pub data Start : Type 0 where
  enter : Start
  exit_2 : Start  -- `std::process::exit(2)`
  fail : Start  -- the error of a query, passed on by `?`

after_gate : Result (Unit {0}) GateStatus → Start
unfolding is_pass
after_gate (err e) = fail
after_gate (ok status) = if is_pass status then enter else exit_2

-- The check before the session; the table is there if DATABASE_URL is set.
unfoldable pub gate_start : ShadowGuard → Option (List Row) → Bool → Bool → String → ℕ → Start
unfolding after_gate
gate_start shadow db selects counts pool_address now = enter
gate_start live none selects counts pool_address now = exit_2
gate_start live (some table) selects counts pool_address now =
    after_gate (check_shadow_gate selects counts table pool_address now)
