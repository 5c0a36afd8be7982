-- ===== src/Backtest/Totals.antt =====
-- What the rows of a backtest have to do with its totals, in either mode.
use tick_liq.Prelude.{
  ℕ, ◌+◌, ◌%◌, ◌≡◌, arith, ◌++◌, ◌∷◌, [], List, Bool, true, false, if◌then◌else◌,
}
use tick_liq.Prelude.Word.{u32_mod}
use tick_liq.Prelude.Float.{Float, ◌⊕◌}
use tick_liq.Backtest.{DayResult, BacktestResult, next_u32}

count_step :
    (b : Bool) (n c : ℕ)
    → n ≡ c % u32_mod
    → (if b then next_u32 n else n) ≡ (c + ((if b then 1 else 0) + 0)) % u32_mod
count_step true n c h = omega arith
count_step false n c h = omega arith

module _ {ℓ} {F : Type ℓ} where
  abbrev pub count_in_range : List (DayResult F) → ℕ
  count_in_range [] = 0
  count_in_range (row ∷ rows) = (if row.in_range then 1 else 0) + count_in_range rows

  count-append :
      (xs ys : List (DayResult F))
      → count_in_range (xs ++ ys) ≡ count_in_range xs + count_in_range ys
  count-append [] ys = omega arith
  count-append (x ∷ xs) ys = omega (arith, count-append xs ys)

  -- A counter of days that is brought up to date with a new row.
  pub count-snoc :
      (n : ℕ) (rows : List (DayResult F)) (row : DayResult F)
      → n ≡ count_in_range rows % u32_mod
      → (if row.in_range then next_u32 n else n) ≡ count_in_range (rows ++ row ∷ []) % u32_mod
  count-snoc n rows row h =
      rw (count-append rows (row ∷ [])) (count_step row.in_range n (count_in_range rows) h)

module _ {ℓ} {F : Type ℓ} ⦃f : Float F⦄ where
  abbrev pub IsNet : DayResult F → Type ℓ
  IsNet row = row.net_pnl_usd ≡ row.cumulative_fees_usd ⊕ row.il_usd

  -- The totals are those of a row.
  abbrev pub IsTotal : BacktestResult F → DayResult F → Type ℓ
  IsTotal r row =
      (r.total_fees_usd ≡ row.cumulative_fees_usd)
      × (r.total_il_usd ≡ row.il_usd)
      × (r.net_pnl_usd ≡ row.net_pnl_usd)
