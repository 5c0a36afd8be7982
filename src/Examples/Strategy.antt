-- ===== src/Examples/Strategy.antt =====
-- The rebalance decision and the plan at concrete inputs, most of them of the unit tests.
use tick_liq.Strategy.Signal.{
  hold, rebalance, is_rebalance, RebalanceConfig, should_rebalance, default_config,
}
use tick_liq.Strategy.Signal.Laws.{IsNearEdge, IsOutOfRange, should_rebalance_iff}
use tick_liq.Strategy.Plan.{align, build_rebalance_plan}
use tick_liq.Strategy.Plan.Laws.{plan_holds_current}
use tick_liq.Prelude.{◌⊎◌, arith, refl, ◌↔◌, true, ◌≡◌, ◌*◌, false, some, ℕ}
use tick_liq.Prelude.Milli.{milli_float, Milli}
use tick_liq.Prelude.Int.{◌+ℤ◌, ◌<ℤ◌, rem_euclid, ◌≤ℤ◌, pos, negsuc, ◌-ℤ◌}
use tick_liq.Prelude.Word.{saturate, wrap}
use tick_liq.Prelude.Float.{◌≺◌}

abbrev cfg : RebalanceConfig Milli
cfg = default_config

abbrev usd : ℕ → Milli
usd n = some (pos (n * 1000))

decisions :
    (should_rebalance (negsuc 99) (pos 0) (pos 1000) (usd 100) cfg ≡ rebalance "out of range")
    × (should_rebalance (pos 5) (pos 0) (pos 1000) (usd 100) cfg ≡ rebalance "near lower edge")
    × (should_rebalance (pos 995) (pos 0) (pos 1000) (usd 100) cfg ≡ rebalance "near upper edge")
    × (should_rebalance (pos 500) (pos 0) (pos 1000) (usd 100) cfg ≡ hold "position healthy")
unfolding should_rebalance wrap ◌-ℤ◌
decisions = (refl, refl, refl, refl)

should_rebalance_iff_example :
    (is_rebalance (should_rebalance (pos 500) (pos 0) (pos 1000) (usd 100) cfg) ≡ true) ↔ (
      (true ≡ true) × IsOutOfRange (pos 500) (pos 0) (pos 1000)
      ⊎ ((usd 100 ≺ usd 0) ≡ false) × IsNearEdge (pos 10) (pos 500) (pos 0) (pos 1000))
should_rebalance_iff_example =
    should_rebalance_iff (pos 500) (pos 0) (pos 1000) (usd 100) cfg (omega arith) (omega arith)
      (omega arith)

-- `rebalance_out_of_range = false` does not switch rebalancing off.
abbrev edges_only : RebalanceConfig Milli
edges_only = record cfg { rebalance_out_of_range = false }

abbrev sweep : RebalanceConfig Milli
sweep = record cfg { near_edge_ticks = negsuc 999_999 }

plans :
    let plan = build_rebalance_plan "MINT" (pos 1000) (pos 100) (pos 200) (pos 8) in
    let narrow = build_rebalance_plan "MINT" (pos 10) (pos 0) (pos 64) (pos 64) in
    (plan.new_tick_lower ≡ pos 944)
    × (plan.new_tick_upper ≡ pos 1044)
    × (narrow.new_tick_lower ≡ negsuc 63)
    × (narrow.new_tick_upper ≡ pos 64)
unfolding build_rebalance_plan align wrap saturate rem_euclid ◌+ℤ◌ ◌-ℤ◌
plans = (refl, refl, refl, refl)

plan_holds_current_example :
    let plan = build_rebalance_plan "MINT" (negsuc 299) (negsuc 499) (negsuc 99) (pos 10) in
    (plan.new_tick_lower ≤ℤ negsuc 299)
    × (negsuc 299 <ℤ plan.new_tick_upper)
    × (rem_euclid plan.new_tick_lower 10 ≡ 0)
plan_holds_current_example =
    plan_holds_current "MINT" (negsuc 299) (negsuc 499) (negsuc 99) 10 (omega arith) (omega arith)
