-- ===== src/Watch/Tables.antt =====
-- The tables that the watch loop writes, and its writes: `src/storage/writer.rs`. A row of
-- `shadow_rebalances` carries the columns that the gate of the live mode reads, and the others. A write
-- that fails is logged and leaves the tables as they are.
use Prim.Native.String.{String}
use tick_liq.Prelude.{ℕ, Bool, false, List, ◌∷◌, Option, none, some, if◌then◌else◌}
use tick_liq.Prelude.Int.{ℤ}
use tick_liq.Backtest.Backfill.{PoolTick}
use tick_liq.Storage.{write_pool_tick, write_pnl_snapshot}
use tick_liq.Risk.Monitor.{PnlSnapshot}
use tick_liq.Risk.Store.{Db}
use tick_liq.Shadow.Gate.{Row}
use tick_liq.Watch.Text.{skip_trigger, skip_message}

pub record ShadowRebalanceRow {ℓ} (F : Type ℓ) : Type ℓ where
  pub row : Row
  pub price : F
  pub simulated_range_width : Option F
  pub simulated_fees_earned : Option F
  pub simulated_il_usd : Option F
  pub simulated_net_pnl : Option F
  pub error_message : Option String

pub record Tables {ℓ} (F : Type ℓ) : Type ℓ where
  pub pool_ticks : List PoolTick
  pub pnl_history : List (PnlSnapshot F)
  pub risk_state : Db F
  pub shadow_rebalances : List (ShadowRebalanceRow F)

module _ {ℓ} {F : Type ℓ} where
  -- The server sets the time.
  unfoldable pub insert_shadow : Bool → Tables F → ShadowRebalanceRow F → ℕ → Tables F
  insert_shadow works t r now =
      if works
      then record t {
        shadow_rebalances =
            record r { row = record (r.row) { created_at = now } } ∷ t.shadow_rebalances;
      }
      else t

  abbrev pub skip_row : String → String → F → ℕ → ShadowRebalanceRow F
  skip_row pool_address reason price now = record {
    row = record {
      pool_address = pool_address;
      trigger_reason = skip_trigger reason;
      created_at = now;
      error_flag = false;
    };
    price = price;
    simulated_range_width = none;
    simulated_fees_earned = none;
    simulated_il_usd = none;
    simulated_net_pnl = none;
    error_message = some (skip_message reason);
  }

  -- `write_approval_skip`
  unfoldable pub write_approval_skip : Bool → Tables F → String → String → F → ℕ → Tables F
  unfolding insert_shadow
  write_approval_skip works t pool_address reason price now =
      insert_shadow works t (skip_row pool_address reason price now) now

  -- A notification without a slot writes no row of `pool_ticks`.
  unfoldable pub write_slot : Bool → Tables F → Option ℤ → (ℤ → PoolTick) → Tables F
  unfolding write_pool_tick
  write_slot works t none tick = t
  write_slot works t (some slot) tick = record t {
    pool_ticks = (write_pool_tick works t.pool_ticks (tick slot)).0;
  }

  -- The two writes that come before the risk gate.
  unfoldable pub write_tick :
      Bool → Bool → Tables F → Option ℤ → (ℤ → PoolTick) → PnlSnapshot F → Tables F
  unfolding write_slot write_pnl_snapshot
  write_tick tick_works pnl_works t slot tick snap =
      let t' = write_slot tick_works t slot tick in
      record t' { pnl_history = (write_pnl_snapshot pnl_works t'.pnl_history snap).0 }
