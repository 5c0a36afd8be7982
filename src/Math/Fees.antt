-- ===== src/Math/Fees.antt =====
-- Fee accrual from the Q64.64 growth counters: `src/math/fees.rs`, and the delta of
-- `src/backtest/db_replay.rs`. Words are native numbers below their modulus.
use native.Mathlib.Nat.{mul-le-mul}
use tick_liq.Prelude.{ℕ, ◌+◌, ◌-◌, ◌*◌, ◌/◌, ◌%◌, ◌≤◌, ◌<◌, ◌≡◌, arith}
use tick_liq.Prelude.Word.{u64_mod, u128_mod, wrapping_sub}

-- The low 64 bits of (a * b) >> 64, from the four 64-bit halves, in u128 arithmetic.
halves_shift : (a_hi a_lo b_hi b_lo : ℕ) → ℕ
halves_shift a_hi a_lo b_hi b_lo =
    let cross = (a_hi * b_lo % u128_mod + a_lo * b_hi % u128_mod) % u128_mod in
    let mid = (cross + a_lo * b_lo % u128_mod / u64_mod) % u128_mod in mid % u64_mod

-- Fees since the last checkpoint; the cast `mid as u64` keeps the low half.
unfoldable pub compute_accrued_fees : ℕ → ℕ → ℕ → ℕ
unfolding halves_shift
compute_accrued_fees fee_growth_global fee_growth_checkpoint liquidity =
    let growth_delta = wrapping_sub u128_mod fee_growth_global fee_growth_checkpoint in
    halves_shift (growth_delta / u64_mod) (growth_delta % u64_mod) (liquidity / u64_mod)
      (liquidity % u64_mod)

unfoldable pub fee_growth_delta : ℕ → ℕ → ℕ
fee_growth_delta prev curr = wrapping_sub u128_mod curr prev

-- A counter that grew by `d`, and perhaps wrapped, shows a delta of `d`.
pub wrapping_sub_grown :
    (base d : ℕ)
    → base < u128_mod
    → d < u128_mod
    → wrapping_sub u128_mod ((base + d) % u128_mod) base ≡ d
unfolding wrapping_sub
wrapping_sub_grown base d hb hd = omega arith

halves_product :
    (a_hi a_lo b_hi b_lo : ℕ)
    → (a_hi * u64_mod + a_lo) * (b_hi * u64_mod + b_lo)
      ≡ (a_hi * b_hi * u64_mod + (a_hi * b_lo + a_lo * b_hi)) * u64_mod + a_lo * b_lo
halves_product a_hi a_lo b_hi b_lo = omega arith

product_le : (a b : ℕ) → a < u64_mod → b < u64_mod → a * b ≤ (u64_mod - 1) * (u64_mod - 1)
product_le a b ha hb =
    mul-le-mul {n₁ = a} {m₁ = b} {n₂ = u64_mod - 1} {m₂ = u64_mod - 1} (omega arith) (omega arith)

halves_shift-eq :
    (a_hi a_lo b_hi b_lo : ℕ)
    → a_hi < u64_mod
    → a_lo < u64_mod
    → b_hi < u64_mod
    → b_lo < u64_mod
    → halves_shift a_hi a_lo b_hi b_lo
      ≡ (a_hi * u64_mod + a_lo) * (b_hi * u64_mod + b_lo) / u64_mod % u64_mod
unfolding halves_shift
halves_shift-eq a_hi a_lo b_hi b_lo h1 h2 h3 h4 = omega (
  arith,
  halves_product a_hi a_lo b_hi b_lo,
  product_le a_hi b_lo h1 h4,
  product_le a_lo b_hi h2 h3,
  product_le a_lo b_lo h2 h4,
)

-- `compute_accrued_fees` of two u128 counters and an u128 liquidity is the low 64 bits of the exact
-- product growth * liquidity, shifted right by 64: the halves that the code leaves out and the
-- wrapping of its sums change nothing. `d` is the growth since the checkpoint, across a wrap of the
-- counter as well.
pub compute_accrued_fees_exact :
    (checkpoint d liquidity : ℕ)
    → checkpoint < u128_mod
    → d < u128_mod
    → liquidity < u128_mod
    → compute_accrued_fees ((checkpoint + d) % u128_mod) checkpoint liquidity
      ≡ d * liquidity / u64_mod % u64_mod
unfolding compute_accrued_fees
compute_accrued_fees_exact checkpoint d liquidity hc hd hl =
    rw (wrapping_sub_grown checkpoint d hc hd) (
      rw
        (halves_shift-eq (d / u64_mod) (d % u64_mod) (liquidity / u64_mod) (liquidity % u64_mod)
          (omega arith) (omega arith) (omega arith) (omega arith))
        (rw (halves d, halves liquidity)))
  where
    halves : (n : ℕ) → n / u64_mod * u64_mod + n % u64_mod ≡ n
    halves n = omega arith
