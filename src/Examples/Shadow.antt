-- ===== src/Examples/Shadow.antt =====
-- The gate of the live mode on a small table.
use tick_liq.Shadow.Gate.{
  shadow, too_recent, is_pass, Row, check_shadow_gate, pass, gate_start, submit, live, enter,
  allowed, write_shadow_rebalance,
}
use tick_liq.Shadow.Gate.Laws.{IsAdmitted, live_session_gated}
use tick_liq.Prelude.{◌⊎◌, ◌↔◌, [], ◌∷◌, some, List, true, false, ◌≡◌, refl}
use tick_liq.Prelude.Result.{ok}

abbrev row : Row
row = record {
  pool_address = "POOL";
  trigger_reason = "out_of_range";
  created_at = 0;
  error_flag = false;
}

-- One row of day 1, and one of day 15.
abbrev table : List Row
table = record row { created_at = 1296000 } ∷ record row { created_at = 86400 } ∷ []

written : (write_shadow_rebalance true [] row 86400).0 ≡ record row { created_at = 86400 } ∷ []
unfolding write_shadow_rebalance
written = refl

-- On day 15 the gate passes, a second before it does not.
passes : check_shadow_gate true true table "POOL" 1296000 ≡ ok pass
unfolding check_shadow_gate
passes = refl

too_early : check_shadow_gate true true table "POOL" 1295999 ≡ ok (too_recent 86400 14)
unfolding check_shadow_gate
too_early = refl

live_starts : gate_start live (some table) true true "POOL" 1296000 ≡ enter
unfolding gate_start check_shadow_gate is_pass
live_starts = refl

live_submits : submit live ≡ allowed
unfolding submit
live_submits = refl

live_session_gated_example :
    ((gate_start live (some table) true true "POOL" 1296000 ≡ enter)
      ↔ ((live ≡ shadow) ⊎ ((live ≡ live) × IsAdmitted (some table) true true "POOL" 1296000)))
    × ((submit live ≡ allowed) ↔ (live ≡ live))
live_session_gated_example = live_session_gated live (some table) true true "POOL" 1296000
