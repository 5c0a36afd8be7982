-- ===== src/Depth/Distribution.antt =====
-- `build_distribution` of `src/analytics/depth.rs`: the active liquidity of the buckets on both sides of
-- the current tick, by a walk to the right and a walk to the left.
pub mod Sums
pub mod Starts
pub mod Walks
pub mod Exact
use tick_liq.Prelude.{if◌then◌else◌, ◌∷◌, [], ◌&&◌, ◌++◌, zero, suc, ◌/◌, Bool, List, ℕ}
use tick_liq.Prelude.Int.{ℤ, pos, negsuc, ◌+ℤ◌, ◌-ℤ◌, ◌*ℕ◌, ltb_ℤ, leb_ℤ, pos_part}
use tick_liq.Prelude.Word.{wrap, i32_half, i128_half}
use mathlib.Core.List.{reverse}

pub record LiquidityLevel {ℓ} (F : Type ℓ) : Type ℓ where
  pub price : F
  pub liquidity : ℕ

abbrev pub Ticks : Type 0
Ticks = List (ℤ × ℤ)

-- `*t > lo && *t <= hi`
abbrev pub is_between : ℤ → ℤ → ℤ → Bool
is_between lo hi t = ltb_ℤ lo t && leb_ℤ t hi

-- The sum of the deltas of the ticks above `lo` and up to `hi`, on `i128`.
delta_from : ℤ → ℤ → ℤ → Ticks → ℤ
delta_from lo hi acc [] = acc
delta_from lo hi acc ((t, d) ∷ ticks) =
    let with_tick = delta_from lo hi (wrap i128_half (acc +ℤ d)) ticks in
    let without = delta_from lo hi acc ticks in if is_between lo hi t then with_tick else without

pub delta : ℤ → ℤ → Ticks → ℤ
unfolding delta_from
delta lo hi ticks = delta_from lo hi (pos 0) ticks

-- The operations on `i32`.
abbrev pub add_i32 : ℤ → ℤ → ℤ
add_i32 a b = wrap i32_half (a +ℤ b)

abbrev pub sub_i32 : ℤ → ℤ → ℤ
sub_i32 a b = wrap i32_half (a -ℤ b)

-- `i * tick_spacing`
abbrev pub offset : ℤ → ℕ → ℤ
offset tick_spacing i = wrap i32_half (tick_spacing *ℕ i)

-- `tick_spacing / 2`, which rounds to zero.
half_of : ℤ → ℤ
half_of (pos n) = pos (n / 2)
half_of (negsuc n) = pos 0 -ℤ pos (suc n / 2)

-- `n as i32`, and how often the loops `0..=n` and `1..=n` run.
right_count : ℤ → ℕ
right_count (pos n) = suc n
right_count (negsuc n) = 0

module _ {ℓ} {F : Type ℓ} (powi : ℤ → F) (ticks : Ticks) (current_tick tick_spacing : ℤ) where
  -- `1.0001f64.powi(mid)` is `powi mid`.
  level : ℤ → ℤ → LiquidityLevel F
  unfolding half_of
  level bucket_start running = record {
    price = powi (add_i32 bucket_start (half_of tick_spacing));
    liquidity = pos_part running;
  }

  pub right_start : ℕ → ℤ
  right_start i = add_i32 current_tick (offset tick_spacing i)

  pub left_start : ℕ → ℤ
  left_start i = sub_i32 current_tick (offset tick_spacing i)

  pub step_right : ℕ → ℤ → ℤ
  unfolding right_start delta
  step_right zero running = running
  step_right (suc i) running =
      wrap i128_half
        (running +ℤ delta (sub_i32 (right_start (suc i)) tick_spacing) (right_start (suc i)) ticks)

  -- `count` turns of the walk to the right, from turn `i` on.
  pub right : ℕ → ℕ → ℤ → List (LiquidityLevel F)
  unfolding step_right level
  right zero i running = []
  right (suc count) i running =
      let running' = step_right i running in
      level (right_start i) running' ∷ right count (suc i) running'

  pub step_left : ℕ → ℤ → ℤ
  unfolding left_start delta
  step_left i running =
      wrap i128_half (running -ℤ delta (left_start i) (add_i32 (left_start i) tick_spacing) ticks)

  pub left : ℕ → ℕ → ℤ → List (LiquidityLevel F)
  unfolding step_left level
  left zero i running = []
  left (suc count) i running =
      let running' = step_left i running in
      level (left_start i) running' ∷ left count (suc i) running'

  unfoldable pub build_distribution : ℕ → ℕ → List (LiquidityLevel F)
  unfolding right left right_count
  build_distribution current_liquidity n_buckets_each_side =
      let n = wrap i32_half (pos n_buckets_each_side) in
      let running = wrap i128_half (pos current_liquidity) in
      reverse (left (pos_part n) 1 running) ++ right (right_count n) 0 running
