-- ===== src/Examples/Math.antt =====
-- `src/math` at concrete inputs.
use tick_liq.Prelude.{◌-◌, ◌+◌, ◌*◌, ◌^◌, ◌/◌, ◌%◌, ◌≡◌, refl, arith}
use tick_liq.Prelude.Word.{wrapping_sub, u64_mod, u128_mod}
use tick_liq.Math.Fees.{compute_accrued_fees, fee_growth_delta, compute_accrued_fees_exact}

-- The unit tests of `fees.rs`.
fees_tests :
    (compute_accrued_fees 1000 1000 1_000_000 ≡ 0)
    × (compute_accrued_fees (2 ^ 64) 0 1_000_000 ≡ 1_000_000)
    × (fee_growth_delta (2 ^ 128 - 1) 5 ≡ 6)
unfolding compute_accrued_fees fee_growth_delta wrapping_sub
fees_tests = (refl, refl, refl)

compute_accrued_fees_exact_example :
    compute_accrued_fees ((2 ^ 128 - 1 + 5 * 2 ^ 64) % u128_mod) (2 ^ 128 - 1) (2 ^ 70 + 3)
    ≡ 5 * 2 ^ 64 * (2 ^ 70 + 3) / u64_mod % u64_mod
compute_accrued_fees_exact_example =
    compute_accrued_fees_exact (2 ^ 128 - 1) (5 * 2 ^ 64) (2 ^ 70 + 3) (omega arith) (omega arith)
      (omega arith)
