-- ===== src/Backtest/Replay.antt =====
-- `run_db_backtest` of `src/backtest/db_replay.rs`: the stored ticks of a pool are replayed in order.
-- `none` is a panic, of `price_to_tick` or of `compute_il`.

pub mod Frame
pub mod Rows
pub mod Sums
pub mod Runs
pub mod Hold
use tick_liq.Prelude.{
  ℕ, suc, ltb, ◌&&◌, ◌==◌, ◌++◌, ◌>>=◌, if◌then◌else◌, Bool, true, false, List, [], ◌∷◌, Option,
  some,
}
use tick_liq.Prelude.Int.{ℤ, pos, ◌-ℤ◌, leb_ℤ}
use tick_liq.Prelude.Word.{u64_mod}
use tick_liq.Prelude.Result.{Result, ok, err}
use tick_liq.Prelude.Float.{Float, ◌⊕◌, ◌⊗◌, ◌⊘◌, lit}
use tick_liq.Prelude.Libm.{Libm, fmax}
use tick_liq.Math.Fees.{fee_growth_delta}
use tick_liq.Math.Price.{price_to_tick, sqrt_q64_to_price, ten_to}
use tick_liq.Math.Il.{compute_il}
use tick_liq.Strategy.Signal.{RebalanceConfig, is_rebalance, should_rebalance}
use tick_liq.Backtest.{DayResult, BacktestResult, next_u32, fee_apy}

pub record DbBacktestInput {ℓ} (F : Type ℓ) : Type ℓ where
  pub initial_value_usd : F
  pub entry_price : F
  pub price_lower : F
  pub price_upper : F
  pub fee_rate_bps : F
  pub tick_spacing : ℤ
  pub position_liquidity : ℕ
  pub decimals_a : ℕ
  pub decimals_b : ℕ
  pub rebalance_cfg : RebalanceConfig F
  pub range_factor_lower : F
  pub range_factor_upper : F

-- The columns that the replay reads; of `time` it reads the calendar day, `time.date_naive()`, here
-- the number of the day.
pub record PoolTickRow : Type 0 where
  pub date : ℕ
  pub tick_current : ℤ
  pub sqrt_price : ℕ
  pub liquidity : ℕ
  pub fee_growth_global_a : ℕ
  pub fee_growth_global_b : ℕ

-- The local variables of the loop.
pub record Replay {ℓ} (F : Type ℓ) : Type ℓ where
  pub tick_lower : ℤ
  pub tick_upper : ℤ
  pub cur_entry_price : F
  pub cur_price_lower : F
  pub cur_price_upper : F
  pub cumulative_fees : F
  pub total_rebalances : ℕ
  pub days_in_range : ℕ
  pub realized_il_usd : F
  pub last_price : F
  pub last_unrealized_il_usd : F
  pub prev_fg_a : ℕ
  pub prev_fg_b : ℕ
  pub current_day_num : ℕ
  pub current_day_date : ℕ
  pub day_was_in_range : Bool
  pub day_results : List (DayResult F)

pub data ReplayError : Type 0 where
  empty_tick_stream : ReplayError

module _ {ℓ} {F : Type ℓ} ⦃f : Float F⦄ ⦃m : Libm F⦄ where
  abbrev pub ui_factor : DbBacktestInput F → F
  ui_factor input = ten_to (pos input.decimals_a -ℤ pos input.decimals_b)

  abbrev pub ui_price : DbBacktestInput F → PoolTickRow → F
  ui_price input t = sqrt_q64_to_price t.sqrt_price ⊗ ui_factor input

  -- The row of the day that ends, from its own last observation.
  pub day_row : Replay F → DayResult F
  day_row s =
      let il_to_date = s.realized_il_usd ⊕ s.last_unrealized_il_usd in
      record {
        day = next_u32 s.current_day_num;
        price = s.last_price;
        in_range = s.day_was_in_range;
        cumulative_fees_usd = s.cumulative_fees;
        il_usd = il_to_date;
        net_pnl_usd = s.cumulative_fees ⊕ il_to_date;
      }

  flush_day : Replay F → Replay F
  unfolding day_row
  flush_day s = record s {
    days_in_range = if s.day_was_in_range then next_u32 s.days_in_range else s.days_in_range;
    current_day_num = next_u32 s.current_day_num;
    day_results = s.day_results ++ day_row s ∷ [];
  }

  day_boundary : ℕ → Replay F → Replay F
  unfolding flush_day
  day_boundary day_date s =
      if day_date == s.current_day_date
      then s
      else record (flush_day s) { current_day_date = day_date; day_was_in_range = false }

  is_in_range : PoolTickRow → Replay F → Bool
  is_in_range t s = leb_ℤ s.tick_lower t.tick_current && leb_ℤ t.tick_current s.tick_upper

  mark : Bool → Replay F → Replay F
  mark in_range s = record s { day_was_in_range = if in_range then true else s.day_was_in_range }

  -- The fees of one step, from the growth since the row before.
  abbrev pub fees_step : DbBacktestInput F → ℕ → ℕ → PoolTickRow → F
  fees_step input prev_fg_a prev_fg_b t =
      let pos_l = lit input.position_liquidity in
      let fees_a_raw =
        lit (fee_growth_delta prev_fg_a t.fee_growth_global_a) ⊘ lit u64_mod ⊗ pos_l in
      let fees_b_raw =
        lit (fee_growth_delta prev_fg_b t.fee_growth_global_b) ⊘ lit u64_mod ⊗ pos_l in
      fees_a_raw ⊘ ten_to (pos input.decimals_a) ⊗ ui_price input t
      ⊕ fees_b_raw ⊘ ten_to (pos input.decimals_b)

  accrue : DbBacktestInput F → ℕ → PoolTickRow → Replay F → Replay F
  accrue input i t s = record s {
    cumulative_fees =
        if ltb 0 i && ltb 0 t.liquidity
        then s.cumulative_fees ⊕ fees_step input s.prev_fg_a s.prev_fg_b t
        else s.cumulative_fees;
    prev_fg_a = t.fee_growth_global_a;
    prev_fg_b = t.fee_growth_global_b;
  }

  -- The part of a step before the signal.
  pub before_signal : DbBacktestInput F → ℕ → PoolTickRow → Replay F → Replay F
  unfolding accrue mark is_in_range day_boundary
  before_signal input i t s = accrue input i t (mark (is_in_range t s) (day_boundary t.date s))

  -- A rebalance locks the loss in and centres the range on the price.
  recentre : DbBacktestInput F → F → F → Replay F → Option (Replay F)
  recentre input price unrealized_il_usd s =
      let lower = fmax (price ⊗ input.range_factor_lower) (lit 1 ⊘ lit 1_000_000_000) in
      let upper = price ⊗ input.range_factor_upper in
      do
        tick_lower ← price_to_tick (lower ⊘ ui_factor input) input.tick_spacing
        tick_upper ← price_to_tick (upper ⊘ ui_factor input) input.tick_spacing
        some (record s {
          total_rebalances = next_u32 s.total_rebalances;
          realized_il_usd = s.realized_il_usd ⊕ unrealized_il_usd;
          last_unrealized_il_usd = lit 0;
          cur_entry_price = price;
          cur_price_lower = lower;
          cur_price_upper = upper;
          tick_lower = tick_lower;
          tick_upper = tick_upper;
        })

  pub after_signal : DbBacktestInput F → PoolTickRow → F → Replay F → Option (Replay F)
  unfolding recentre
  after_signal input t unrealized_il_usd s =
      let price = ui_price input t in
      let net_pnl = s.cumulative_fees ⊕ s.realized_il_usd ⊕ unrealized_il_usd in
      let seen = record s { last_price = price; last_unrealized_il_usd = unrealized_il_usd } in
      if is_rebalance
        (should_rebalance t.tick_current s.tick_lower s.tick_upper net_pnl input.rebalance_cfg)
      then recentre input price unrealized_il_usd seen
      else some seen

  -- One pass of the loop body.
  pub replay_tick : DbBacktestInput F → ℕ → PoolTickRow → Replay F → Option (Replay F)
  unfolding before_signal after_signal
  replay_tick input i t s =
      let s' = before_signal input i t s in
      do
        loss ←
            compute_il s'.cur_entry_price (ui_price input t) s'.cur_price_lower s'.cur_price_upper
        after_signal input t (loss ⊗ input.initial_value_usd) s'

  pub replay_from : DbBacktestInput F → ℕ → List PoolTickRow → Replay F → Option (Replay F)
  unfolding replay_tick
  replay_from input i [] s = some s
  replay_from input i (t ∷ ts) s = do s' ← replay_tick input i t s; replay_from input (suc i) ts s'

  pub initial : DbBacktestInput F → PoolTickRow → Option (Replay F)
  initial input first = do
    tick_lower ← price_to_tick (input.price_lower ⊘ ui_factor input) input.tick_spacing
    tick_upper ← price_to_tick (input.price_upper ⊘ ui_factor input) input.tick_spacing
    some (record {
      tick_lower = tick_lower;
      tick_upper = tick_upper;
      cur_entry_price = input.entry_price;
      cur_price_lower = input.price_lower;
      cur_price_upper = input.price_upper;
      cumulative_fees = lit 0;
      total_rebalances = 0;
      days_in_range = 0;
      realized_il_usd = lit 0;
      last_price = ui_price input first;
      last_unrealized_il_usd = lit 0;
      prev_fg_a = first.fee_growth_global_a;
      prev_fg_b = first.fee_growth_global_b;
      current_day_num = 0;
      current_day_date = first.date;
      day_was_in_range = false;
      day_results = [];
    })

  -- The last day is flushed, and the totals are its own.
  pub finish : DbBacktestInput F → Replay F → BacktestResult F
  unfolding flush_day
  finish input s =
      let closed = flush_day s in
      let final_il_usd = s.realized_il_usd ⊕ s.last_unrealized_il_usd in
      record {
        params_snapshot = record {
          entry_price = input.entry_price;
          price_lower = input.price_lower;
          price_upper = input.price_upper;
          fee_rate_bps = input.fee_rate_bps;
          annual_vol_pct = lit 0;
          daily_volume_usd = lit 0;
          initial_value_usd = input.initial_value_usd;
        };
        days = closed.day_results;
        total_fees_usd = s.cumulative_fees;
        total_il_usd = final_il_usd;
        net_pnl_usd = s.cumulative_fees ⊕ final_il_usd;
        total_rebalances = s.total_rebalances;
        days_in_range = closed.days_in_range;
        fee_apy_pct = fee_apy s.cumulative_fees input.initial_value_usd closed.current_day_num;
      }

  unfoldable pub run_db_backtest :
      DbBacktestInput F → List PoolTickRow → Option (Result ReplayError (BacktestResult F))
  unfolding initial replay_from finish
  run_db_backtest input [] = some (err empty_tick_stream)
  run_db_backtest input (first ∷ rest) = do
    s ← initial input first
    s ← replay_from input 0 (first ∷ rest) s
    some (ok (finish input s))
