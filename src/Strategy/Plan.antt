-- ===== src/Strategy/Plan.antt =====
-- `src/execution/rebalance.rs`: the plan of a rebalance that preserves the width of the old range and
-- centres it on the current tick.
pub mod Laws
use tick_liq.Prelude.{ℕ, ◌/◌, if◌then◌else◌}
use Prim.Native.String.{String}
use tick_liq.Prelude.Int.{ℤ, pos, pos_part, ◌+ℤ◌, ◌-ℤ◌, ltb_ℤ, leb_ℤ, rem_euclid}
use tick_liq.Prelude.Word.{i32_half, wrap, saturate, max_ℤ}

pub record RebalancePlan : Type 0 where
  pub position_mint : String
  pub close_ix_count : ℕ
  pub collect_ix_count : ℕ
  pub open_ix_count : ℕ
  pub estimated_cu : ℕ
  pub new_tick_lower : ℤ
  pub new_tick_upper : ℤ

-- `a.saturating_add(b)` and `a.saturating_sub(b)` on `i32`.
abbrev pub sat_add : ℤ → ℤ → ℤ
sat_add a b = saturate i32_half (a +ℤ b)

abbrev pub sat_sub : ℤ → ℤ → ℤ
sat_sub a b = saturate i32_half (a -ℤ b)

-- The closure `align`: down to a multiple of the spacing.
unfoldable pub align : ℕ → ℤ → ℤ
align spacing t = wrap i32_half (t -ℤ pos (rem_euclid t spacing))

-- `tick_spacing.max(1)`, which is positive.
abbrev pub spacing_of : ℤ → ℕ
spacing_of tick_spacing = pos_part (max_ℤ tick_spacing (pos 1))

-- `width`, which is at least the spacing, hence positive.
abbrev pub width_of : ℤ → ℤ → ℕ → ℕ
width_of tick_lower tick_upper spacing =
    pos_part (max_ℤ (sat_sub tick_upper tick_lower) (pos spacing))

-- The two bounds after the centring, then after the two corrections that follow it.
centred : ℤ → ℕ → ℕ → ℤ × ℤ
centred current_tick width spacing =
    let lower = align spacing (sat_sub current_tick (pos (width / 2))) in
    (lower, sat_add lower (pos width))

corrected : ℤ → ℕ → ℤ × ℤ → ℤ × ℤ
corrected current_tick spacing (lower, upper) =
    let upper' =
      if leb_ℤ upper current_tick
      then sat_add (align spacing current_tick) (pos spacing)
      else upper in
    let lower' = if ltb_ℤ current_tick lower then align spacing current_tick else lower in
    (lower', upper')

unfoldable pub build_rebalance_plan : String → ℤ → ℤ → ℤ → ℤ → RebalancePlan
unfolding centred corrected
build_rebalance_plan position_mint current_tick tick_lower tick_upper tick_spacing =
    let spacing = spacing_of tick_spacing in
    let width = width_of tick_lower tick_upper spacing in
    let bounds = corrected current_tick spacing (centred current_tick width spacing) in
    record {
      position_mint = position_mint;
      close_ix_count = 1;
      collect_ix_count = 1;
      open_ix_count = 1;
      estimated_cu = 200_000;
      new_tick_lower = bounds.0;
      new_tick_upper = bounds.1;
    }
