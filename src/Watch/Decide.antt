-- ===== src/Watch/Decide.antt =====
-- The end of a tick in `src/main.rs`, after the gates: the approval of a rebalance, its submission, and
-- the row of `shadow_rebalances`.
pub mod Approved
use Prim.Native.String.{String}
use tick_liq.Prelude.{Bool, true, false, Option, none, some, suc, if◌then◌else◌}
use tick_liq.Prelude.Float.{Float, ◌⊖◌, lit, fabs}
use tick_liq.Prelude.Int.{ℤ, pos, negsuc, ◌-ℤ◌}
use tick_liq.Prelude.Word.{i32_half, wrap}
use tick_liq.Orca.Layout.{WhirlpoolPool, WhirlpoolPosition}
use tick_liq.Shadow.Gate.{submit}
use tick_liq.Strategy.Plan.{build_rebalance_plan}
use tick_liq.Watch.Figures.{Figures}
use tick_liq.Watch.State.{
  WatchConfig, Notification, Watcher, End, unapproved, submitted, ProposalData, on_tables,
}
use tick_liq.Watch.Tables.{ShadowRebalanceRow, insert_shadow, write_approval_skip}
use tick_liq.Watch.Text.{underscored}

module _ {ℓ} {F : Type ℓ} ⦃f : Float F⦄ where
  -- An `i32` as an `f64`, which is exact.
  abbrev pub of_i32 : ℤ → F
  of_i32 (pos n) = lit n
  of_i32 (negsuc n) = lit 0 ⊖ lit (suc n)

  abbrev pub net_pnl : Figures F → F
  net_pnl fig = fig.fees_earned ⊖ fabs fig.il_usd

module _ {ℓ} {F : Type ℓ} ⦃f : Float F⦄ {Key : Type 0} (cfg : WatchConfig F) (n : Notification F)
    (fig : Figures F) (pool : WhirlpoolPool Key) (position : WhirlpoolPosition Key) where
  -- `(plan.new_tick_upper - plan.new_tick_lower) as f64`
  abbrev range_width : F
  range_width =
      let plan =
        build_rebalance_plan cfg.mint pool.tick_current_index position.tick_lower_index
          position.tick_upper_index (pos pool.tick_spacing) in
      of_i32 (wrap i32_half (plan.new_tick_upper -ℤ plan.new_tick_lower))

  proposal_of : String → ProposalData F
  proposal_of reason = record {
    pool_address = cfg.pool_addr;
    trigger_reason = reason;
    price = fig.price;
    simulated_fees_earned = fig.fees_earned;
    simulated_il_usd = fig.il_usd;
    simulated_net_pnl = net_pnl fig;
    range_width = range_width;
  }

  -- Whether the rebalance may go on, and the reason to note if not.
  unfoldable pub approval : Bool × String
  approval =
      if cfg.telegram
      then (if n.sent then (n.approved, "timeout") else (false, "telegram_error"))
      else (true, "")

  unfoldable pub shadow_row : String → ShadowRebalanceRow F
  shadow_row reason = record {
    row = record {
      pool_address = cfg.pool_addr;
      trigger_reason = underscored reason;
      created_at = n.now;
      error_flag = false;
    };
    price = fig.price;
    simulated_range_width = some range_width;
    simulated_fees_earned = some (fig.fees_earned);
    simulated_il_usd = some (fig.il_usd);
    simulated_net_pnl = some (net_pnl fig);
    error_message = none;
  }

  -- A rebalance that is not approved is noted; one that is goes to the guard and leaves its row,
  -- whatever the guard says.
  unfoldable pub on_approval : Bool × String → Watcher F Key → String → Watcher F Key × End F
  unfolding shadow_row submit insert_shadow write_approval_skip
  on_approval (true, skip_reason) w reason = (
    record w {
      tables = on_tables (λ t. insert_shadow n.shadow_written t (shadow_row reason) n.now) w.tables;
    },
    submitted (submit cfg.guard),
  )
  on_approval (false, skip_reason) w reason = (
    record w {
      tables =
          on_tables
            (λ t. write_approval_skip n.skip_written t cfg.pool_addr skip_reason fig.price n.now)
            w.tables;
    },
    unapproved skip_reason,
  )

  -- What is left of a tick that asks for a rebalance.
  unfoldable pub on_rebalance : Watcher F Key → String → Watcher F Key × End F
  unfolding approval on_approval
  on_rebalance w reason = on_approval approval w reason

  -- The message to the operator.
  unfoldable pub sent_proposal : String → Option (ProposalData F)
  unfolding proposal_of
  sent_proposal reason = if cfg.telegram then some (proposal_of reason) else none
