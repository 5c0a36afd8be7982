-- ===== src/Chain/Drift.antt =====
-- The margin of a Drift account: `fetch_drift_margin_ratio` and `fetch_drift_margin_ratio_for` of
-- `src/strategy/risk_monitor.rs`.
pub mod Bounds
pub mod Total
use tick_liq.Chain.Rpc.{Account}
use tick_liq.Prelude.{
  ltb, length, zero, leb, not, if◌then◌else◌, suc, none, drop, ◌*◌, some, List, Bool, Option, ◌+◌,
  ℕ,
}
use tick_liq.Prelude.Int.{ℤ, pos, negsuc, ◌+ℤ◌}
use tick_liq.Prelude.Word.{i64_half, saturate, signed, wrapping_abs}
use tick_liq.Prelude.Bytes.{slice, from_le_bytes}
use tick_liq.Prelude.Result.{Result, ok, err}
use tick_liq.Prelude.Float.{◌⊕◌, ◌⊘◌, ◌⊖◌, lit, Float}

abbrev pub margin_fetch_attempts : ℕ
margin_fetch_attempts = 3

abbrev pub perp_position_size : ℕ
perp_position_size = 136

abbrev pub perp_position_base_offset : ℕ
perp_position_base_offset = 8

abbrev pub perp_position_quote_offset : ℕ
perp_position_quote_offset = 16

abbrev pub perp_array_offset : ℕ
perp_array_offset = 4400

abbrev pub max_perp_positions : ℕ
max_perp_positions = 8

-- `a.saturating_add(b)` on `i64`.
abbrev pub add_i64 : ℤ → ℤ → ℤ
add_i64 a b = saturate i64_half (a +ℤ b)

read_bytes : Option (List ℕ) → Option ℤ
read_bytes none = none
read_bytes (some bytes) = some (signed i64_half (from_le_bytes bytes))

-- `i64::from_le_bytes(payload[start..start + 8])`, which panics where this is `none`.
unfoldable pub i64_at : List ℕ → ℕ → Option ℤ
unfolding read_bytes
i64_at payload start = read_bytes (slice payload start (start + 8))

-- The start of position `i`.
abbrev pub pos_start : ℕ → ℕ
pos_start i = perp_array_offset + i * perp_position_size

add_amounts : Option ℤ → Option ℤ → ℤ × ℤ → Option (ℤ × ℤ)
add_amounts none quote totals = none
add_amounts (some base) none totals = none
add_amounts (some base) (some quote) (total_base_abs, total_quote_abs) = some (
  add_i64 total_base_abs (wrapping_abs i64_half base),
  add_i64 total_quote_abs (wrapping_abs i64_half quote),
)

-- The body of the loop at position `i`.
add_position : List ℕ → ℕ → ℤ × ℤ → Option (ℤ × ℤ)
unfolding add_amounts
add_position payload i totals =
    add_amounts (i64_at payload (pos_start i + perp_position_base_offset))
      (i64_at payload (pos_start i + perp_position_quote_offset)) totals

then_position : List ℕ → ℕ → Option (ℤ × ℤ) → Option (ℤ × ℤ)
unfolding add_position
then_position payload i none = none
then_position payload i (some totals) = add_position payload i totals

-- The loop over the positions below `n`.
unfoldable pub sum_positions : List ℕ → ℕ → Option (ℤ × ℤ)
unfolding then_position
sum_positions payload zero = some (pos 0, pos 0)
sum_positions payload (suc i) = then_position payload i (sum_positions payload i)

module _ {ℓ} {F : Type ℓ} ⦃f : Float F⦄ where
  -- `as f64` of an `i64`.
  abbrev pub of_ℤ : ℤ → F
  of_ℤ (pos n) = lit n
  of_ℤ (negsuc n) = lit 0 ⊖ lit (suc n)

  proxy_ratio : Option (ℤ × ℤ) → Option (Option F)
  proxy_ratio none = none
  proxy_ratio (some (total_base_abs, total_quote_abs)) =
      some (some (of_ℤ total_quote_abs ⊘ (of_ℤ total_base_abs ⊕ lit 1)))

  -- The parse of the data of the account; the outer `none` is a panic.
  unfoldable pub margin_of_data : List ℕ → Option (Option F)
  unfolding proxy_ratio
  margin_of_data data_bytes =
      let payload = drop 8 data_bytes in
      if leb (length data_bytes) 8
      then some none
      else if ltb (length payload) (perp_array_offset + max_perp_positions * perp_position_size)
      then some none
      else proxy_ratio (sum_positions payload max_perp_positions)

module _ {κ μ} {Pubkey : Type κ} {E : Type μ} where
  after_answer : Result E (Account Pubkey) → Option (Account Pubkey) → Option (Account Pubkey)
  after_answer (ok account) again = some account
  after_answer (err e) again = again

  -- The loop over the attempts: the account of the first answer that is one. `get_account i` is the
  -- answer to attempt `i`.
  fetch : (ℕ → Result E (Account Pubkey)) → ℕ → ℕ → Option (Account Pubkey)
  unfolding after_answer
  fetch get_account zero attempt = none
  fetch get_account (suc fuel) attempt =
      after_answer (get_account attempt) (fetch get_account fuel (suc attempt))

module _ {ℓ κ} {F : Type ℓ} ⦃f : Float F⦄ {Pubkey : Type κ} (same : Pubkey → Pubkey → Bool)
    (drift_program_id : Pubkey) where
  margin_of_account : Option (Account Pubkey) → Option (Option F)
  margin_of_account none = some none
  margin_of_account (some account) =
      if not (same account.owner drift_program_id) then some none else margin_of_data account.bytes

  unfoldable pub fetch_drift_margin_ratio_for {μ} :
      {E : Type μ} → (Pubkey → ℕ → Result E (Account Pubkey)) → Pubkey → Option (Option F)
  unfolding margin_of_account fetch
  fetch_drift_margin_ratio_for get_account pubkey =
      margin_of_account (fetch (get_account pubkey) margin_fetch_attempts 0)

  -- With the two settings of the monitor, each of which may be missing.
  unfoldable pub fetch_drift_margin_ratio {μ} :
      {E : Type μ}
      → Option Pubkey
      → Option F
      → (Pubkey → ℕ → Result E (Account Pubkey))
      → Option (Option F)
  unfolding fetch_drift_margin_ratio_for
  fetch_drift_margin_ratio none limit get_account = some none
  fetch_drift_margin_ratio (some pubkey) none get_account = some none
  fetch_drift_margin_ratio (some pubkey) (some limit) get_account =
      fetch_drift_margin_ratio_for get_account pubkey
