-- ===== src/Math/Greeks.antt =====
-- The greeks of a position and the price impact of a trade: `src/math/greeks.rs`,
-- `src/analytics/greeks.rs` and `estimate_impact` of `src/math/impact.rs`.
use tick_liq.Prelude.{ℕ, Bool, ◌||◌, if◌then◌else◌}
use tick_liq.Prelude.Float.{Float, ◌⊕◌, ◌⊖◌, ◌⊗◌, ◌⊘◌, ◌≺◌, lit, fabs}
use tick_liq.Prelude.Libm.{Libm}
use tick_liq.Prelude.Int.{ℤ}
use tick_liq.Math.Price.{sqrt_q64_to_price}
use tick_liq.Math.Amounts.{WhirlpoolsCore}

pub record Greeks {ℓ} (F : Type ℓ) : Type ℓ where
  pub delta : F
  pub gamma : F

pub record PriceImpact {ℓ} (F : Type ℓ) : Type ℓ where
  pub target_pct : F
  pub target_price : F
  pub usd_needed : F

module _ {ℓ} {F : Type ℓ} ⦃f : Float F⦄ ⦃m : Libm F⦄ where
  -- `-l`, whose sign is flipped exactly.
  abbrev negated : F → F
  negated l = (lit 0 ⊖ lit 1) ⊗ l

  unfoldable pub compute_greeks_from_prices : ℕ → F → F → F → Greeks F
  compute_greeks_from_prices liquidity price price_lower price_upper =
      if (price ≺ price_lower) || (price_upper ≺ price)
      then record { delta = lit 0; gamma = lit 0 }
      else let sqrt_p = m.sqrt price in
        let l = f.of_ℕ liquidity in
        record {
          delta = negated l ⊘ (lit 2 ⊗ sqrt_p ⊗ price);
          gamma = lit 3 ⊗ l ⊘ (lit 4 ⊗ price ⊗ price ⊗ sqrt_p);
        }

  unfoldable pub compute_greeks : WhirlpoolsCore → ℕ → ℕ → ℤ → ℤ → Greeks F
  unfolding compute_greeks_from_prices sqrt_q64_to_price
  compute_greeks core liquidity sqrt_price_q64 tick_lower tick_upper =
      compute_greeks_from_prices liquidity (sqrt_q64_to_price sqrt_price_q64)
        (sqrt_q64_to_price (core.tick_index_to_sqrt_price tick_lower))
        (sqrt_q64_to_price (core.tick_index_to_sqrt_price tick_upper))

  unfoldable pub estimate_impact : F → ℕ → F → Bool → PriceImpact F
  estimate_impact current_price liquidity target_pct is_buy =
      let l = f.of_ℕ liquidity in
      let target_price =
        if is_buy
        then current_price ⊗ (lit 1 ⊕ target_pct ⊘ lit 100)
        else current_price ⊗ (lit 1 ⊖ target_pct ⊘ lit 100) in
      let sqrt_p = m.sqrt current_price in
      let sqrt_target = m.sqrt target_price in
      let amount_a = l ⊗ fabs (lit 1 ⊘ sqrt_p ⊖ lit 1 ⊘ sqrt_target) in
      record {
        target_pct = target_pct;
        target_price = target_price;
        usd_needed = amount_a ⊗ current_price;
      }
