-- ===== src/Backtest/Backfill.antt =====
-- `synthesize_ticks` of `src/backtest/backfill.rs`: rows of `pool_ticks` made up from a price history.
-- `none` is the panic of `price_to_tick`.

pub mod Growth
pub mod Rows
use tick_liq.Prelude.{
  ℕ, ◌+◌, ◌-◌, ltb, ◌&&◌, ◌++◌, ◌>>=◌, if◌then◌else◌, Bool, List, [], ◌∷◌, Option, none, some,
}
use Prim.Native.String.{String}
use tick_liq.Prelude.Int.{ℤ, pos, ◌-ℤ◌}
use tick_liq.Prelude.Word.{u64_mod, u128_mod, i64_half, wrap}
use tick_liq.Prelude.Float.{Float, ◌⊗◌, ◌⊘◌, ◌≺◌, ◌≼◌, lit}
use tick_liq.Prelude.Libm.{Libm}
use tick_liq.Feeds.Candles.{OhlcvCandle}
use tick_liq.Math.Price.{price_to_tick, price_to_sqrt_q64, ten_to}

pub record PoolSynthParams {ℓ} (F : Type ℓ) : Type ℓ where
  pub pool_address : String
  pub fee_rate_bps : F
  pub pool_liquidity : ℕ
  pub decimals_a : ℕ
  pub decimals_b : ℕ
  pub tick_spacing : ℤ

-- `observed_at` is `DateTime::from_timestamp` of the seconds that it holds here.
pub record PoolTick : Type 0 where
  pub pool_address : String
  pub slot : ℤ
  pub tick_current : ℤ
  pub sqrt_price : ℕ
  pub liquidity : ℕ
  pub fee_growth_global_a : ℕ
  pub fee_growth_global_b : ℕ
  pub observed_at : ℤ

-- `a.saturating_add(b)` on `u128`.
unfoldable pub saturating_add : ℕ → ℕ → ℕ
saturating_add a b = if ltb (a + b) u128_mod then a + b else u128_mod - 1

module _ {ℓ} {F : Type ℓ} ⦃f : Float F⦄ ⦃m : Libm F⦄ where
  raw_price : PoolSynthParams F → OhlcvCandle F → F
  raw_price p c = c.close ⊘ ten_to (pos p.decimals_a -ℤ pos p.decimals_b)

  -- The increment of the growth counter, as an `f64` and then as an `u128`.
  growth_of : PoolSynthParams F → OhlcvCandle F → F
  growth_of p c =
      c.volume_usd
      ⊗ (p.fee_rate_bps ⊘ lit 10_000)
      ⊗ ten_to (pos p.decimals_b)
      ⊘ lit p.pool_liquidity
      ⊗ lit u64_mod

  unfoldable capped : F → ℕ
  capped dfg = if lit (u128_mod - 1) ≼ dfg then u128_mod - 1 else m.to_u128 dfg

  has_fees : PoolSynthParams F → OhlcvCandle F → Bool
  has_fees p c = f.lt (lit 0) (lit p.pool_liquidity) && (lit 0 ≺ c.volume_usd)

  unfoldable grow : PoolSynthParams F → OhlcvCandle F → ℕ → ℕ
  unfolding growth_of capped has_fees
  grow p c fee_growth_b =
      let dfg = growth_of p c in
      if has_fees p c
      then if m.is_finite dfg && (lit 0 ≺ dfg)
        then saturating_add fee_growth_b (capped dfg)
        else fee_growth_b
      else fee_growth_b

  -- A row at a candle's price.
  unfoldable row_at : PoolSynthParams F → OhlcvCandle F → ℤ → ℕ → Option PoolTick
  unfolding raw_price
  row_at p c slot fee_growth_b = do
    tick_current ← price_to_tick (raw_price p c) p.tick_spacing
    some (record {
      pool_address = p.pool_address;
      slot = slot;
      tick_current = tick_current;
      sqrt_price = price_to_sqrt_q64 (raw_price p c);
      liquidity = p.pool_liquidity;
      fee_growth_global_a = 0;
      fee_growth_global_b = fee_growth_b;
      observed_at = c.timestamp;
    })

  unfoldable rows_from : PoolSynthParams F → ℕ → List (OhlcvCandle F) → Option (List PoolTick)
  unfolding grow row_at
  rows_from p fee_growth_b [] = some []
  rows_from p fee_growth_b (c ∷ cs) = do
    row ← row_at p c c.timestamp (grow p c fee_growth_b)
    rows ← rows_from p (grow p c fee_growth_b) cs
    some (row ∷ rows)

  -- A row without growth comes before the first candle.
  unfoldable pub synthesize_ticks :
      List (OhlcvCandle F) → PoolSynthParams F → Option (List PoolTick)
  unfolding rows_from
  synthesize_ticks [] p = some []
  synthesize_ticks (first ∷ rest) p = do
    base ← row_at p first (wrap i64_half (first.timestamp -ℤ pos 1)) 0
    rows ← rows_from p 0 (first ∷ rest)
    some (base ∷ rows)
