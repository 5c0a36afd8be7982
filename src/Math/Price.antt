-- ===== src/Math/Price.antt =====
-- Prices and ticks: `src/math/sqrt_price.rs`, and `price_to_tick` of `src/backtest/mod.rs`. A quotient of
-- two exact literals is the nearest `f64`, hence the decimal literal of the code.
use tick_liq.Prelude.{
  refl, ◌-◌, ℕ, zero, suc, ◌/◌, ◌%◌, ◌≡◌, ◌||◌, ◌&&◌, ◌==◌, not, if◌then◌else◌, Option, none, some,
}
use tick_liq.Prelude.Int.{ℤ, pos, negsuc, ◌-ℤ◌, ◌*ℕ◌, div_euclid, leb_ℤ}
use tick_liq.Prelude.Word.{u64_mod, u128_mod, i32_half, wrap}
use tick_liq.Prelude.Float.{Float, ◌⊕◌, ◌⊗◌, ◌⊘◌, ◌≼◌, lit}
use tick_liq.Prelude.Libm.{Libm, is_nan}

-- `raw.div_euclid(spacing) * spacing` on `i32`: `none` is the panic on a spacing of 0, and on the overflow
-- of the least `i32` divided by -1. The quotient by a negative number is the negated quotient by its
-- absolute value, so the product is the same.
unfoldable pub round_down : ℤ → ℤ → Option ℤ
round_down raw (pos zero) = none
round_down raw (pos (suc n)) = some (wrap i32_half (div_euclid raw (suc n) *ℕ suc n))
round_down raw (negsuc n) =
    if n == 0 && leb_ℤ raw (negsuc (i32_half - 1))
    then none
    else some (wrap i32_half (div_euclid raw (suc n) *ℕ suc n))

module _ {ℓ} {F : Type ℓ} ⦃f : Float F⦄ ⦃m : Libm F⦄ where
  unfoldable pub price_to_tick : F → ℤ → Option ℤ
  price_to_tick price tick_spacing =
      round_down (m.floor_i32 (m.ln price ⊘ m.ln (lit 10_001 ⊘ lit 10_000))) tick_spacing

  unfoldable pub sqrt_q64_to_price : ℕ → F
  sqrt_q64_to_price sqrt_price_q64 =
      let int_part = sqrt_price_q64 / u64_mod % u64_mod in
      let frac_part = sqrt_price_q64 % u64_mod in
      let sqrt_p = lit int_part ⊕ lit frac_part ⊘ lit u64_mod in sqrt_p ⊗ sqrt_p

  unfoldable pub price_to_sqrt_q64 : F → ℕ
  price_to_sqrt_q64 raw_price =
      if is_nan raw_price || (raw_price ≼ lit 0)
      then 0
      else (let v = m.sqrt raw_price ⊗ lit u64_mod in
          if not (m.is_finite v) || (lit (u128_mod - 1) ≼ v) then u128_mod - 1 else m.to_u128 v)

  -- `10f64.powi(a as i32 - b as i32)` for two `u8`.
  abbrev pub ten_to : ℤ → F
  ten_to = m.powi (lit 10)

  unfoldable pub sqrt_q64_to_ui_price : ℕ → ℕ → ℕ → F
  sqrt_q64_to_ui_price sqrt_price_q64 decimals_a decimals_b =
      sqrt_q64_to_price sqrt_price_q64 ⊗ ten_to (pos decimals_a -ℤ pos decimals_b)

  -- A positive spacing never panics.
  pub price_to_tick-some :
      (price : F) (n : ℕ) → (t : ℤ) × (price_to_tick price (pos (suc n)) ≡ some t)
  unfolding price_to_tick round_down
  price_to_tick-some price n = (_, refl)
