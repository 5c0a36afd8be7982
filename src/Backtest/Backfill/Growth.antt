-- ===== src/Backtest/Backfill/Growth.antt =====
-- The growth counter of the made-up rows, and what the replay reads from it.
use tick_liq.Prelude.{
  ap, ◌∙◌, some_same, Bool, sym, ℕ, ◌+◌, ◌-◌, ◌<◌, ◌≡◌, refl, ltb, ◌&&◌, if◌then◌else◌, arith, List,
  [], ◌∷◌, some, bind-some, map,
}
use tick_liq.Prelude.Word.{u128_mod}
use tick_liq.Prelude.Float.{Float, ◌≺◌, lit}
use tick_liq.Prelude.Libm.{Libm}
use tick_liq.Math.Fees.{fee_growth_delta, wrapping_sub_grown}
use tick_liq.Feeds.Candles.{OhlcvCandle}
use tick_liq.Backtest.Backfill.{
  PoolSynthParams, PoolTick, saturating_add, grow, has_fees, growth_of, capped, rows_from, row_at,
  synthesize_ticks,
}
use tick_liq.Prelude.Int.{ℤ}
use native.Mathlib.Nat.{mod-eq_of_lt}
use tick_liq.Math.Price.{price_to_tick}
use mathlib.Core.Path.{subst}

abbrev pub total : List ℕ → ℕ
total [] = 0
total (n ∷ ns) = n + total ns

-- The growth that the replay sees from each row to the next.
pub deltas_after : ℕ → List PoolTick → List ℕ
deltas_after prev [] = []
deltas_after prev (row ∷ rows) =
    fee_growth_delta prev row.fee_growth_global_b ∷ deltas_after row.fee_growth_global_b rows

pub deltas : List PoolTick → List ℕ
unfolding deltas_after
deltas [] = []
deltas (row ∷ rows) = deltas_after row.fee_growth_global_b rows

delta_grown : (n d : ℕ) → n + d < u128_mod → fee_growth_delta n (n + d) ≡ d
unfolding fee_growth_delta
delta_grown n d h = rw (sym (mod-eq_of_lt h)) (wrapping_sub_grown n d (omega arith) (omega arith))

module _ {ℓ} {F : Type ℓ} ⦃f : Float F⦄ ⦃m : Libm F⦄ where
  -- What a candle adds to the counter: 0 without liquidity, volume or a finite positive growth.
  unfoldable pub increment : PoolSynthParams F → OhlcvCandle F → ℕ
  unfolding has_fees growth_of capped
  increment p c =
      if has_fees p c && (m.is_finite (growth_of p c) && (lit 0 ≺ growth_of p c))
      then capped (growth_of p c)
      else 0

  grow-increment :
      (p : PoolSynthParams F) (c : OhlcvCandle F) (n : ℕ)
      → n + increment p c < u128_mod
      → grow p c n ≡ n + increment p c
  unfolding grow increment saturating_add
  grow-increment p c n h = grown _ _ _ n h
    where
      grown :
          (a b : Bool) (d n : ℕ)
          → n + (if a && b then d else 0) < u128_mod
          → (if a then if b then if ltb (n + d) u128_mod then n + d else u128_mod - 1 else n else n)
            ≡ n + (if a && b then d else 0)
      grown a b d n h = ground arith

  row_at-growth :
      (p : PoolSynthParams F) (c : OhlcvCandle F) (slot : ℤ) (n : ℕ) (row : PoolTick)
      → row_at p c slot n ≡ some row
      → row.fee_growth_global_b ≡ n
  unfolding row_at
  row_at-growth p c slot n row h = rw (sym (some_same (bind-some (price_to_tick _ _) h).2)) refl

  rows_from-deltas :
      (p : PoolSynthParams F) (n : ℕ) (cs : List (OhlcvCandle F)) (rows : List PoolTick)
      → rows_from p n cs ≡ some rows
      → n + total (map (increment p) cs) < u128_mod
      → deltas_after n rows ≡ map (increment p) cs
  unfolding rows_from deltas_after
  rows_from-deltas p n [] rows h bound = rw (sym (some_same h)) refl
  rows_from-deltas p n (c ∷ cs) rows h bound =
      let head = bind-some (row_at p c c.timestamp (grow p c n)) h in
      let rest = bind-some (rows_from p (grow p c n) cs) head.2 in
      let grown = grow-increment p c n (omega arith) in
      let fg = row_at-growth p c c.timestamp (grow p c n) head.0 head.1 ∙ grown in
      rw (sym (some_same rest.2), fg, delta_grown n (increment p c) (omega arith))
        (ap (◌∷◌ (increment p c)) (
          rows_from-deltas p (n + increment p c) cs rest.0
            (subst (λ x. rows_from p x cs ≡ some rest.0) grown rest.1) (omega arith)))

  -- As long as the increments do not sum up to 2 ^ 128, the growth that the replay reads from each
  -- row to the next is the increment of each candle in turn, that of the first candle included.
  pub synthesize_ticks-deltas :
      (candles : List (OhlcvCandle F)) (p : PoolSynthParams F) (rows : List PoolTick)
      → synthesize_ticks candles p ≡ some rows
      → total (map (increment p) candles) < u128_mod
      → deltas rows ≡ map (increment p) candles
  unfolding synthesize_ticks deltas
  synthesize_ticks-deltas [] p rows h bound = rw (sym (some_same h)) refl
  synthesize_ticks-deltas (first ∷ rest) p rows h bound =
      let base = bind-some (row_at p first _ 0) h in
      let more = bind-some (rows_from p 0 (first ∷ rest)) base.2 in
      rw (sym (some_same more.2), row_at-growth p first _ 0 base.0 base.1)
        (rows_from-deltas p 0 (first ∷ rest) more.0 more.1 (omega arith))
