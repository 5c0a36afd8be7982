-- ===== src/Chain/Drift/Bounds.antt =====
-- The parse of a Drift account does not read out of range.
use tick_liq.Chain.Drift.{
  margin_of_account, after_answer, fetch_drift_margin_ratio_for, fetch, of_ℤ, add_i64, i64_at,
  read_bytes, then_position, add_position, add_amounts, sum_positions, margin_of_data, proxy_ratio,
  pos_start,
}
use tick_liq.Prelude.{
  true, ◌⊎◌, Bool, drop, ltb, ◌-◌, inr, none, take, refl, inl, leb, zero, suc, Bool-cases, arith,
  some, ◌*◌, length, ◌≡◌, ◌<◌, ◌+◌, ◌≤◌, Option, List, ℕ,
}
use tick_liq.Prelude.Float.{lit, ◌⊕◌, ◌⊘◌, Float}
use tick_liq.Prelude.Int.{pos, ℤ}
use tick_liq.Prelude.Word.{wrapping_abs, i64_half, signed}
use tick_liq.Prelude.Bytes.{slice-some, from_le_bytes}
use tick_liq.Chain.Rpc.Owner.{IsEquality}
use tick_liq.Prelude.Result.{Result-cases, ok, Result}
use tick_liq.Chain.Rpc.{Account}

i64_at-some :
    (payload : List ℕ) (start : ℕ)
    → start + 8 ≤ length payload
    → (a : ℤ) × (i64_at payload start ≡ some a)
unfolding i64_at read_bytes
i64_at-some payload start h = (
  signed i64_half (from_le_bytes (take (start + 8 - start) (drop start payload))),
  rw (slice-some payload start (start + 8) (omega arith) h) refl,
)

-- The amounts that the loop reads at position `i`.
pub record Amounts (payload : List ℕ) (i : ℕ) : Type 0 where
  pub base : ℤ
  pub quote : ℤ
  pub base_read : i64_at payload (pos_start i + 8) ≡ some base
  pub quote_read : i64_at payload (pos_start i + 16) ≡ some quote

pub read-Amounts :
    (payload : List ℕ) (i : ℕ) → i < 8 → 4400 + 8 * 136 ≤ length payload → Amounts payload i
read-Amounts payload i h bound =
    let b = i64_at-some payload (pos_start i + 8) (omega arith) in
    let q = i64_at-some payload (pos_start i + 16) (omega arith) in
    record { base = b.0; quote = q.0; base_read = b.1; quote_read = q.1 }

pub sum_positions_step :
    (payload : List ℕ) (i : ℕ) (totals : ℤ × ℤ) (a : Amounts payload i)
    → sum_positions payload i ≡ some totals
    → sum_positions payload (suc i)
      ≡ some (
        add_i64 totals.0 (wrapping_abs i64_half a.base),
        add_i64 totals.1 (wrapping_abs i64_half a.quote),
      )
unfolding sum_positions then_position add_position add_amounts
sum_positions_step payload i totals a h = rw (h, a.base_read, a.quote_read) refl

sum_positions-some :
    (payload : List ℕ) (n : ℕ)
    → n ≤ 8
    → 4400 + 8 * 136 ≤ length payload
    → (totals : ℤ × ℤ) × (sum_positions payload n ≡ some totals)
unfolding sum_positions
sum_positions-some payload zero h bound = ((pos 0, pos 0), refl)
sum_positions-some payload (suc n) h bound =
    let before = sum_positions-some payload n (omega arith) bound in
    (_, sum_positions_step payload n before.0 (read-Amounts payload n (omega arith) bound) before.1)

module _ {ℓ} {F : Type ℓ} ⦃f : Float F⦄ where
  -- Whatever bytes an account has, its parse reads only within them: it ends without a panic.
  pub margin_of_data-some : (bytes : List ℕ) → (r : Option F) × (margin_of_data bytes ≡ some r)
  unfolding margin_of_data proxy_ratio
  margin_of_data-some bytes = elim (Bool-cases (leb (length bytes) 8)) [
    | inl short ↦ (none, rw short refl)
    | inr long ↦ elim (Bool-cases (ltb (length (drop 8 bytes)) (4400 + 8 * 136))) [
      | inl short ↦ (none, rw (long, short) refl)
      | inr enough ↦
          let found = sum_positions-some (drop 8 bytes) 8 (omega arith) (ground arith) in
          (some (of_ℤ found.0.1 ⊘ (of_ℤ found.0.0 ⊕ lit 1)), rw (long, enough, found.1) refl)
    ]
  ]

module _ {κ μ} {Pubkey : Type κ} {E : Type μ} where
  fetch_three :
      (get_account : ℕ → Result E (Account Pubkey))
      → (fetch get_account 3 0 ≡ none)
        ⊎ ((attempt : ℕ) × (account : Account Pubkey) × (attempt < 3)
            × (get_account attempt ≡ ok account)
            × (fetch get_account 3 0 ≡ some account))
  unfolding fetch after_answer
  fetch_three get_account = elim (Result-cases (get_account 0)) [
    | inl (a, e0) ↦ inr (0, a, omega arith, e0, rw e0 refl)
    | inr (_, e0) ↦ elim (Result-cases (get_account 1)) [
      | inl (a, e1) ↦ inr (1, a, omega arith, e1, rw (e0, e1) refl)
      | inr (_, e1) ↦ elim (Result-cases (get_account 2)) [
        | inl (a, e2) ↦ inr (2, a, omega arith, e2, rw (e0, e1, e2) refl)
        | inr (_, e2) ↦ inl (rw (e0, e1, e2) refl)
      ]
    ]
  ]

module _ {ℓ κ μ} {F : Type ℓ} ⦃f : Float F⦄ {Pubkey : Type κ} {E : Type μ}
    (same : Pubkey → Pubkey → Bool) (laws : IsEquality same) (drift_program_id : Pubkey) where
  -- The fetch of a margin never panics: it gives no ratio, or a ratio that was read from one of at most
  -- three answers of the node, an account that the Drift program owns.
  pub fetch_drift_margin_ratio_for_cases :
      (get_account : Pubkey → ℕ → Result E (Account Pubkey)) (pubkey : Pubkey)
      → (fetch_drift_margin_ratio_for {F = F} same drift_program_id get_account pubkey ≡ some none)
        ⊎ ((attempt : ℕ) × (account : Account Pubkey) × (ratio : F) × (attempt < 3)
            × (get_account pubkey attempt ≡ ok account)
            × (account.owner ≡ drift_program_id)
            × (margin_of_data account.bytes ≡ some (some ratio))
            × (fetch_drift_margin_ratio_for same drift_program_id get_account pubkey
                ≡ some (some ratio)))
  unfolding fetch_drift_margin_ratio_for margin_of_account
  fetch_drift_margin_ratio_for_cases get_account pubkey = elim (fetch_three (get_account pubkey)) [
    | inl e ↦ inl (rw e refl)
    | inr (k, account, early, answer, e) ↦ elim (Bool-cases (same account.owner drift_program_id)) [
      | inr other ↦ inl (rw (e, other) refl)
      | inl own ↦ by_ratio k account early answer e own (margin_of_data-some account.bytes)
    ]
  ]
    where
      by_ratio :
          (k : ℕ) (account : Account Pubkey)
          → k < 3
          → get_account pubkey k ≡ ok account
          → fetch (get_account pubkey) 3 0 ≡ some account
          → same account.owner drift_program_id ≡ true
          → (r : Option F) × (margin_of_data account.bytes ≡ some r)
          → (fetch_drift_margin_ratio_for {F = F} same drift_program_id get_account pubkey
              ≡ some none)
            ⊎ ((attempt : ℕ) × (account : Account Pubkey) × (ratio : F) × (attempt < 3)
                × (get_account pubkey attempt ≡ ok account)
                × (account.owner ≡ drift_program_id)
                × (margin_of_data account.bytes ≡ some (some ratio))
                × (fetch_drift_margin_ratio_for same drift_program_id get_account pubkey
                    ≡ some (some ratio)))
      by_ratio k account early answer e own (none, m) = inl (rw (e, own, m) refl)
      by_ratio k account early answer e own (some ratio, m) =
          inr (k, account, ratio, early, answer, laws.sound _ _ own, m, rw (e, own, m) refl)
