-- ===== src/Shadow/Gate/Status.antt =====
-- When the queries of the gate let a pool pass: `check_shadow_gate` in `src/storage/writer.rs`.
use text.Mathlib.Text.{◌==◌ as str_eq}
use tick_liq.Shadow.Gate.{
  errors_present, too_recent, no_data, GateStatus, Row, earliest, earlier, error_count, age_step,
  count_step, check_shadow_gate, pass,
}
use tick_liq.Prelude.{
  Member-cases, Member-nil, ◌∙◌, sym, zero, [], Option-cases, ◌*◌, inl, ltb, inr, ◌⊎◌, Bool-cases,
  ◌+◌, ◌∷◌, ◌≤◌, min, ◌↔◌, arith, All, true, false, Bool, suc, some, ◌≡◌, ◌≢◌, List, none, ◌&&◌, ℕ,
  refl, Member, first, later,
}
use Prim.Native.String.{String}
use tick_liq.Prelude.Result.{err_ne_ok, Result, ok}

-- A row of the pool that is at least 14 days old.
pub record IsOldRow (table : List Row) (pool_address : String) (now : ℕ) : Type 0 where
  pub row : Row
  pub entry : Member row table
  pub of_pool : str_eq row.pool_address pool_address ≡ true
  pub old : row.created_at + 14 * 86400 ≤ now

-- No row of the pool has its error flag set.
abbrev pub IsClean : List Row → String → Type 0
IsClean table pool_address =
    All (λ row. str_eq row.pool_address pool_address ≡ true → row.error_flag ≡ false) table

none_ne_some : {t : ℕ} → none ≢ some t
none_ne_some h = cc

some_same : {t u : ℕ} → some t ≡ some u → t ≡ u
some_same h = cc

suc_ne_zero : {n : ℕ} → suc n ≢ 0
suc_ne_zero h = omega (arith, h)

false_ne_true : false ≢ true
false_ne_true h = cc

no_data_ne : {s : String} → ◌≢◌ {A = Result (Unit {0}) GateStatus} (ok (no_data s)) (ok pass)
no_data_ne h = cc

too_recent_ne : {t d : ℕ} → ◌≢◌ {A = Result (Unit {0}) GateStatus} (ok (too_recent t d)) (ok pass)
too_recent_ne h = cc

errors_ne : {n : ℕ} → ◌≢◌ {A = Result (Unit {0}) GateStatus} (ok (errors_present n)) (ok pass)
errors_ne h = cc

min_cases : (a b : ℕ) → (a ≡ min a b) ⊎ (b ≡ min a b)
min_cases a b = ground arith

both_ne :
    (row : Row) (pool_address : String)
    → str_eq row.pool_address pool_address && row.error_flag ≡ true
    → ¬ (str_eq row.pool_address pool_address ≡ true → row.error_flag ≡ false)
both_ne row pool_address e h = elim (Bool-cases row.error_flag) [
  | inl f ↦ ground (arith, e, f, h (ground (arith, e)))
  | inr f ↦ ground (arith, e, f)
]

-- The earliest time of the pool is that of one of its rows, and no row of the pool is earlier.
earliest_row :
    (table : List Row) (pool_address : String) (t : ℕ)
    → earliest pool_address table ≡ some t
    → (row : Row) × Member row table
      × (str_eq row.pool_address pool_address ≡ true)
      × (row.created_at ≡ t)
unfolding earliest earlier
earliest_row [] pool_address t h = absurd (none_ne_some h)
earliest_row (row ∷ rows) pool_address t h =
    elim (Bool-cases (str_eq row.pool_address pool_address)) [
      | inr other ↦
          let found = earliest_row rows pool_address t (rw other at h) in
          (found.0, later found.1, found.2, found.3)
      | inl mine ↦ elim (Option-cases (earliest pool_address rows)) [
        | inl e ↦ (row, first, mine, some_same (rw (mine, e) at h))
        | inr (u, e) ↦ elim (min_cases row.created_at u) [
          | inl is_row ↦ (row, first, mine, is_row ∙ some_same (rw (mine, e) at h))
          | inr is_rest ↦
              let found = earliest_row rows pool_address u e in
              (found.0, later found.1, found.2, found.3 ∙ is_rest ∙ some_same (rw (mine, e) at h))
        ]
      ]
    ]

earliest_le :
    (table : List Row) (pool_address : String) (row : Row)
    → Member row table
    → str_eq row.pool_address pool_address ≡ true
    → (t : ℕ) × (earliest pool_address table ≡ some t) × (t ≤ row.created_at)
unfolding earliest earlier
earliest_le [] pool_address row m mine = absurd (Member-nil m)
earliest_le (other ∷ rows) pool_address row m mine = elim (Member-cases m) [
  | inl same ↦ at_head (sym same)
  | inr old ↦
      let found = earliest_le rows pool_address row old mine in
      elim (Bool-cases (str_eq other.pool_address pool_address)) [
        | inl e ↦ (min other.created_at found.0, rw (e, found.1) refl, omega (arith, found.2))
        | inr e ↦ (found.0, rw e found.1, found.2)
      ]
]
  where
    at_head :
        other ≡ row
        → (t : ℕ) × (earliest pool_address (other ∷ rows) ≡ some t) × (t ≤ row.created_at)
    at_head same = elim (Option-cases (earliest pool_address rows)) [
      | inl e ↦ (row.created_at, rw (same, mine, e) refl, omega arith)
      | inr (u, e) ↦ (min row.created_at u, rw (same, mine, e) refl, omega arith)
    ]

error_count_zero :
    (table : List Row) (pool_address : String)
    → (error_count pool_address table ≡ 0) ↔ IsClean table pool_address
unfolding error_count
error_count_zero [] pool_address = (λ h. tt, λ h. refl)
error_count_zero (row ∷ rows) pool_address =
    elim (Bool-cases (str_eq row.pool_address pool_address && row.error_flag)) [
      | inl e ↦
          (λ h. absurd (suc_ne_zero (rw e at h)), λ h. absurd (both_ne row pool_address e h.0))
      | inr e ↦ (
        λ h. (λ mine. ground (arith, e, mine), (error_count_zero rows pool_address).0 (rw e at h)),
        λ h. rw e ((error_count_zero rows pool_address).1 h.1),
      )
    ]

count_step_iff :
    (counts : Bool) (n : ℕ) → (count_step counts n ≡ ok pass) ↔ ((counts ≡ true) × (n ≡ 0))
unfolding count_step
count_step_iff false n = (λ h. absurd (err_ne_ok h), λ h. absurd (false_ne_true h.0))
count_step_iff true zero = (λ h. (refl, refl), λ h. refl)
count_step_iff true (suc n) = elim (Bool-cases (ltb 0 (suc n))) [
  | inl e ↦ (λ h. absurd (errors_ne (rw e at h)), λ h. absurd (suc_ne_zero h.1))
  | inr e ↦ absurd (ground (arith, e))
]

age_step_iff :
    (counts : Bool) (pool_address : String) (table : List Row) (now t : ℕ)
    → (age_step counts pool_address table now (some t) ≡ ok pass)
      ↔ ((t + 14 * 86400 ≤ now) × (counts ≡ true) × IsClean table pool_address)
unfolding age_step
age_step_iff counts pool_address table now t = elim (Bool-cases (ltb now (t + 14 * 86400))) [
  | inl young ↦
      (λ h. absurd (too_recent_ne (rw young at h)), λ h. absurd (ground (arith, young, h.0)))
  | inr old ↦ (
    λ h.
        let c = (count_step_iff counts (error_count pool_address table)).0 (rw old at h) in
        (ground (arith, old), c.0, (error_count_zero table pool_address).0 c.1),
    λ h. rw old (
        (count_step_iff counts (error_count pool_address table)).1
          (h.1, (error_count_zero table pool_address).1 h.2)),
  )
]

-- The gate passes exactly when both queries succeed, some row of the pool is at least 14 days old, and
-- no row of the pool has its error flag set.
pub check_shadow_gate_iff :
    (selects counts : Bool) (table : List Row) (pool_address : String) (now : ℕ)
    → (check_shadow_gate selects counts table pool_address now ≡ ok pass) ↔ (
        (selects ≡ true)
        × (counts ≡ true)
        × IsOldRow table pool_address now
        × IsClean table pool_address)
unfolding check_shadow_gate
check_shadow_gate_iff false counts table pool_address now =
    (λ h. absurd (err_ne_ok h), λ h. absurd (false_ne_true h.0))
check_shadow_gate_iff true counts table pool_address now = (passes, required)
  where
    passes :
        age_step counts pool_address table now (earliest pool_address table) ≡ ok pass
        → (true ≡ true)
          × (counts ≡ true)
          × IsOldRow table pool_address now
          × IsClean table pool_address
    passes h = elim (Option-cases (earliest pool_address table)) [
      | inl e ↦ absurd (no_data_ne (rw e at h))
      | inr (t, e) ↦
          let a = (age_step_iff counts pool_address table now t).0 (rw e at h) in
          let r = earliest_row table pool_address t e in
          (
            refl,
            a.1,
            record { row = r.0; entry = r.1; of_pool = r.2; old = omega (arith, a.0, r.3) },
            a.2,
          )
    ]

    required :
        (true ≡ true)
          × (counts ≡ true)
          × IsOldRow table pool_address now
          × IsClean table pool_address
        → age_step counts pool_address table now (earliest pool_address table) ≡ ok pass
    required h =
        let found = earliest_le table pool_address h.2.row h.2.entry h.2.of_pool in
        rw (found.1) (
          (age_step_iff counts pool_address table now found.0).1
            (omega (arith, found.2, h.2.old), h.1, h.3))
