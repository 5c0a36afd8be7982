-- ===== src/Shadow/Gate/Laws.antt =====
-- Which sessions start, and which of them submit.
use tick_liq.Shadow.Gate.{
  live, shadow, ShadowGuard, errors_present, too_recent, no_data, submit, GateStatus, is_pass,
  enter, after_gate, allowed, blocked, gate_start, fail, exit_2, Row, check_shadow_gate, pass,
}
use tick_liq.Prelude.{
  Option, sym, inl, inr, ◌⊎◌, ◌↔◌, true, Bool, some, ◌≡◌, ◌≢◌, List, none, ℕ, refl,
}
use Prim.Native.String.{String}
use tick_liq.Prelude.Result.{err, Result, ok}
use tick_liq.Shadow.Gate.Status.{IsOldRow, IsClean, check_shadow_gate_iff}

shadow_ne : shadow ≢ live
shadow_ne h = cc

no_table_ne : {t : List Row} → ◌≢◌ {A = Option (List Row)} none (some t)
no_table_ne h = cc

some_table : {t u : List Row} → ◌≡◌ {A = Option (List Row)} (some t) (some u) → t ≡ u
some_table h = cc

blocked_ne : blocked ≢ allowed
blocked_ne h = cc

exit_ne : exit_2 ≢ enter
exit_ne h = cc

fail_ne : fail ≢ enter
fail_ne h = cc

by_status : (r : Result (Unit {0}) GateStatus) → after_gate r ≡ enter → r ≡ ok pass
unfolding after_gate is_pass
by_status (ok pass) k = refl
by_status (ok (no_data a)) k = absurd (exit_ne k)
by_status (ok (too_recent a b)) k = absurd (exit_ne k)
by_status (ok (errors_present n)) k = absurd (exit_ne k)
by_status (err e) k = absurd (fail_ne k)

-- What the live mode requires: a database whose queries succeed, a row of the pool that is at least 14
-- days old, and no row of the pool with its error flag set.
pub record IsAdmitted (db : Option (List Row)) (selects counts : Bool) (pool_address : String)
    (now : ℕ) : Type 0 where
  pub table : List Row
  pub connected : db ≡ some table
  pub selected : selects ≡ true
  pub counted : counts ≡ true
  pub old : IsOldRow table pool_address now
  pub clean : IsClean table pool_address

-- A session starts exactly if it is a shadow one, whatever the database holds, or a live one for which
-- DATABASE_URL is set, both queries succeed, some row of the pool is at least 14 days old and none has
-- its error flag set. The guard lets a rebalance through exactly in a live session.
pub live_session_gated :
    (guard : ShadowGuard) (db : Option (List Row)) (selects counts : Bool) (pool_address : String)
    (now : ℕ)
    → ((gate_start guard db selects counts pool_address now ≡ enter)
        ↔ ((guard ≡ shadow) ⊎ ((guard ≡ live) × IsAdmitted db selects counts pool_address now)))
      × ((submit guard ≡ allowed) ↔ (guard ≡ live))
unfolding gate_start after_gate is_pass submit
live_session_gated shadow db selects counts pool_address now =
    ((λ h. inl refl, λ h. refl), (λ s. absurd (blocked_ne s), λ s. absurd (shadow_ne s)))
live_session_gated live none selects counts pool_address now = (
  (
    λ h. absurd (exit_ne h),
    λ h. elim h [
      | inl s ↦ absurd (shadow_ne (sym s))
      | inr (_, a) ↦ absurd (no_table_ne a.connected)
    ],
  ),
  (λ s. refl, λ s. refl),
)
live_session_gated live (some table) selects counts pool_address now =
    let gate = check_shadow_gate_iff selects counts table pool_address now in
    (
      (
        λ h.
            let passed =
              gate.0 (by_status (check_shadow_gate selects counts table pool_address now) h) in
            inr (
              refl,
              record {
                table = table;
                connected = refl;
                selected = passed.0;
                counted = passed.1;
                old = passed.2;
                clean = passed.3;
              },
            ),
        λ h. elim h [
          | inl s ↦ absurd (shadow_ne (sym s))
          | inr (_, a) ↦ rw (gate.1 (admitted_pass table a)) refl
        ],
      ),
      (λ s. refl, λ s. refl),
    )
  where
    admitted_pass :
        (t : List Row)
        → IsAdmitted (some t) selects counts pool_address now
        → (selects ≡ true) × (counts ≡ true) × IsOldRow t pool_address now × IsClean t pool_address
    admitted_pass t a =
        let same : t ≡ a.table = some_table a.connected in
        (a.selected, a.counted, rw same (a.old), rw same (a.clean))
