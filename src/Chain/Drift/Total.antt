-- ===== src/Chain/Drift/Total.antt =====
-- The two totals of a Drift account are the saturated sums of the magnitudes.
use tick_liq.Chain.Drift.{i64_at, sum_positions, pos_start, add_i64}
use tick_liq.Chain.Drift.Bounds.{read-Amounts, sum_positions_step}
use tick_liq.Prelude.{
  refl, ◌∙◌, arith, length, ◌-◌, ◌≤◌, none, ◌≡◌, min, zero, ◌*◌, ◌<◌, ◌+◌, suc, some, List, Option,
  ℕ,
}
use tick_liq.Prelude.Int.{negsuc, ◌+ℤ◌, abs_ℕ, pos, ℤ}
use tick_liq.Prelude.Word.{low_bits, i64_half, signed, wrap, wrapping_abs, saturate}
use native.Mathlib.Nat.{mod-eq_of_lt}

magnitude : Option ℤ → ℕ
magnitude none = 0
magnitude (some a) = abs_ℕ a

-- The exact sum of the magnitudes of the numbers at one offset of the positions below `n`.
pub exact_total : List ℕ → ℕ → ℕ → ℕ
unfolding magnitude
exact_total payload offset zero = 0
exact_total payload offset (suc i) =
    exact_total payload offset i + magnitude (i64_at payload (pos_start i + offset))

abbrev pub saturated : ℕ → ℤ
saturated n = pos (min n (i64_half - 1))

-- No number at that offset is the least `i64`, whose `abs` overflows.
abbrev pub IsTame : List ℕ → ℕ → Type 0
IsTame payload offset =
    (i : ℕ) (a : ℤ) → i < 8 → i64_at payload (pos_start i + offset) ≡ some a → abs_ℕ a < i64_half

add_saturated :
    (n : ℕ) (a : ℤ)
    → abs_ℕ a < i64_half
    → add_i64 (saturated n) (wrapping_abs i64_half a) ≡ saturated (n + abs_ℕ a)
unfolding saturate wrapping_abs wrap signed low_bits ◌+ℤ◌
add_saturated n (pos a) h = ground arith
add_saturated n (negsuc a) h =
    ground (arith, mod-eq_of_lt (let h : suc a < 2 * i64_half = omega arith in h))

-- When no amount is the least `i64`, the loop gives the exact sums of the magnitudes of the base amounts
-- and of the quote amounts, each cut to the largest `i64`; they are not negative.
sum_positions_exact :
    (payload : List ℕ)
    → 4400 + 8 * 136 ≤ length payload
    → IsTame payload 8
    → IsTame payload 16
    → sum_positions payload 8
      ≡ some (saturated (exact_total payload 8 8), saturated (exact_total payload 16 8))
unfolding sum_positions exact_total
sum_positions_exact payload bound base quote = up_to 8 (omega arith)
  where
    up_to :
        (n : ℕ)
        → n ≤ 8
        → sum_positions payload n
          ≡ some (saturated (exact_total payload 8 n), saturated (exact_total payload 16 n))
    up_to zero h = refl
    up_to (suc n) h =
        let a = read-Amounts payload n (omega arith) bound in
        sum_positions_step payload n _ a (up_to n (omega arith))
        ∙ (rw (a.base_read, a.quote_read)
            (rw
              (
                add_saturated (exact_total payload 8 n) a.base
                    (base n a.base (omega arith) a.base_read),
                add_saturated (exact_total payload 16 n) a.quote
                    (quote n a.quote (omega arith) a.quote_read),
              )
              refl))
