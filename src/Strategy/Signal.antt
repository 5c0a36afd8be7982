-- ===== src/Strategy/Signal.antt =====
-- `src/strategy/signal.rs`: should a position be rebalanced? Ticks are `i32`, whose subtraction wraps
-- in a release build.
pub mod Laws
use Prim.Native.String.{String}
use tick_liq.Prelude.{◌≤◌, ◌<◌, Bool, true, false, ◌&&◌, ◌||◌, ◌≡◌, if◌then◌else◌}
use tick_liq.Prelude.Int.{ℤ, pos, negsuc, ◌-ℤ◌, ltb_ℤ, leb_ℤ}
use tick_liq.Prelude.Word.{i32_half, wrap}
use tick_liq.Prelude.Float.{Float, ◌≺◌, lit}

pub record RebalanceConfig {ℓ} (F : Type ℓ) : Type ℓ where
  pub rebalance_out_of_range : Bool
  pub near_edge_ticks : ℤ
  pub min_net_pnl_usd : F

pub data RebalanceDecision : Type 0 where
  hold : String → RebalanceDecision
  rebalance : String → RebalanceDecision

-- `matches!(decision, RebalanceDecision::Rebalance { .. })`
abbrev pub is_rebalance : RebalanceDecision → Bool
is_rebalance (rebalance reason) = true
is_rebalance (hold reason) = false

module _ {ℓ} {F : Type ℓ} ⦃f : Float F⦄ where
  -- `RebalanceConfig::default`
  abbrev pub default_config : RebalanceConfig F
  default_config = record {
    rebalance_out_of_range = true;
    near_edge_ticks = pos 10;
    min_net_pnl_usd = lit 0;
  }

  unfoldable pub should_rebalance : ℤ → ℤ → ℤ → F → RebalanceConfig F → RebalanceDecision
  should_rebalance tick_current tick_lower tick_upper net_pnl_usd config =
      if rebalance_out_of_range && (ltb_ℤ tick_current tick_lower || ltb_ℤ tick_upper tick_current)
      then rebalance "out of range"
      else if net_pnl_usd ≺ min_net_pnl_usd
      then hold "P&L below threshold"
      else if leb_ℤ (wrap i32_half (tick_current -ℤ tick_lower)) near_edge_ticks
      then rebalance "near lower edge"
      else if leb_ℤ (wrap i32_half (tick_upper -ℤ tick_current)) near_edge_ticks
      then rebalance "near upper edge"
      else hold "position healthy"
    where
      open config use {rebalance_out_of_range, near_edge_ticks, min_net_pnl_usd}
