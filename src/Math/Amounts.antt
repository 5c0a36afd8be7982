-- ===== src/Math/Amounts.antt =====
-- `compute_token_amounts` of `src/analytics/amounts.rs`: the tokens of a position, over the three functions of
-- `orca_whirlpools_core` that it calls.
use tick_liq.Prelude.{ℕ, ltb, leb, if◌then◌else◌, Bool, false, Option, some, ◌>>=◌}
use tick_liq.Prelude.Int.{ℤ}

-- `none` is the error of the library.
pub record WhirlpoolsCore : Type 0 where
  pub tick_index_to_sqrt_price : ℤ → ℕ
  pub try_get_amount_delta_a : ℕ → ℕ → ℕ → Bool → Option ℕ
  pub try_get_amount_delta_b : ℕ → ℕ → ℕ → Bool → Option ℕ

pub record TokenAmounts : Type 0 where
  pub amount_a : ℕ
  pub amount_b : ℕ

below_range : WhirlpoolsCore → ℕ → ℕ → ℕ → Option TokenAmounts
below_range core liquidity sqrt_lower sqrt_upper = do
  a ← core.try_get_amount_delta_a sqrt_lower sqrt_upper liquidity false
  some (record { amount_a = a; amount_b = 0 })

above_range : WhirlpoolsCore → ℕ → ℕ → ℕ → Option TokenAmounts
above_range core liquidity sqrt_lower sqrt_upper = do
  b ← core.try_get_amount_delta_b sqrt_lower sqrt_upper liquidity false
  some (record { amount_a = 0; amount_b = b })

within_range : WhirlpoolsCore → ℕ → ℕ → ℕ → ℕ → Option TokenAmounts
within_range core liquidity sqrt_price sqrt_lower sqrt_upper = do
  a ← core.try_get_amount_delta_a sqrt_price sqrt_upper liquidity false
  b ← core.try_get_amount_delta_b sqrt_lower sqrt_price liquidity false
  some (record { amount_a = a; amount_b = b })

unfoldable pub compute_token_amounts : WhirlpoolsCore → ℕ → ℕ → ℤ → ℤ → Option TokenAmounts
unfolding below_range above_range within_range
compute_token_amounts core liquidity sqrt_price tick_lower tick_upper =
    let sqrt_lower = core.tick_index_to_sqrt_price tick_lower in
    let sqrt_upper = core.tick_index_to_sqrt_price tick_upper in
    if ltb sqrt_price sqrt_lower
    then below_range core liquidity sqrt_lower sqrt_upper
    else if leb sqrt_upper sqrt_price
    then above_range core liquidity sqrt_lower sqrt_upper
    else within_range core liquidity sqrt_price sqrt_lower sqrt_upper
