-- ===== src/Backtest/Gbm.antt =====
-- `run` of `src/backtest/mod.rs`: a backtest over a synthetic price path, a geometric Brownian motion
-- that a seeded generator drives. `none` is a panic, of `price_to_tick` or of `compute_il`.

pub mod Rows
pub mod Runs
use Prim.Native.Nat.{bit_xor}
use tick_liq.Prelude.{
  ℕ, zero, suc, ◌+◌, ◌*◌, ◌/◌, ◌%◌, ◌^◌, ◌&&◌, ◌++◌, ◌>>=◌, if◌then◌else◌, Bool, List, [], ◌∷◌,
  Option, some,
}
use tick_liq.Prelude.Int.{ℤ, pos}
use tick_liq.Prelude.Word.{u64_mod}
use tick_liq.Prelude.Float.{Float, ◌⊕◌, ◌⊖◌, ◌⊗◌, ◌⊘◌, ◌≼◌, lit}
use tick_liq.Prelude.Libm.{Libm, fmax}
use tick_liq.Math.Price.{price_to_tick}
use tick_liq.Math.Il.{compute_il}
use tick_liq.Strategy.Signal.{RebalanceConfig, is_rebalance, should_rebalance}
use tick_liq.Backtest.{DayResult, BacktestResult, next_u32, fee_apy}

pub record BacktestParams {ℓ} (F : Type ℓ) : Type ℓ where
  pub entry_price : F
  pub price_lower : F
  pub price_upper : F
  pub fee_rate_bps : F
  pub initial_value_usd : F
  pub days : ℕ
  pub annual_volatility : F
  pub daily_volume_usd : F
  pub position_volume_share : F
  pub tick_spacing : ℤ
  pub strategy_rebalance : Bool

-- The generator: `Prng::new` and `next_u64`, whose result is the new state.
unfoldable pub seeded : ℕ → ℕ
seeded seed = bit_xor seed 16045690984503098046

abbrev pub next_u64 : ℕ → ℕ
next_u64 s = (s * 6_364_136_223_846_793_005 % u64_mod + 1_442_695_040_888_963_407) % u64_mod

-- The local variables of the loop.
pub record Simulation {ℓ} (F : Type ℓ) : Type ℓ where
  pub rng : ℕ
  pub price : F
  pub entry_price : F
  pub price_lower : F
  pub price_upper : F
  pub cumulative_fees : F
  pub realized_il_usd : F
  pub total_rebalances : ℕ
  pub days_in_range : ℕ
  pub day_results : List (DayResult F)

module _ {ℓ} {F : Type ℓ} ⦃f : Float F⦄ ⦃m : Libm F⦄ where
  half : F
  half = lit 1 ⊘ lit 2

  floor_price : F
  floor_price = lit 1 ⊘ lit 1_000_000

  -- `next_f64`, of a state after its step.
  uniform : ℕ → F
  unfolding half
  uniform bits = (lit (bits / 2 ^ 11) ⊕ half) ⊘ lit (2 ^ 53)

  -- `next_normal`, and the state of the generator after it.
  next_normal : ℕ → F × ℕ
  unfolding uniform
  next_normal s =
      let s₁ = next_u64 s in
      let s₂ = next_u64 s₁ in
      (m.sqrt ((lit 0 ⊖ lit 2) ⊗ m.ln (uniform s₁)) ⊗ m.cos (lit 2 ⊗ m.pi ⊗ uniform s₂), s₂)

  move_price : BacktestParams F → Simulation F → Simulation F
  unfolding next_normal half floor_price
  move_price params s =
      let dt = lit 1 ⊘ lit 365 in
      let sigma = params.annual_volatility in
      let drift = (lit 0 ⊖ half) ⊗ sigma ⊗ sigma ⊗ dt in
      let vol_step = sigma ⊗ m.sqrt dt in
      let drawn = next_normal s.rng in
      record s {
        rng = drawn.1;
        price = fmax (s.price ⊗ m.exp (drift ⊕ vol_step ⊗ drawn.0)) floor_price;
      }

  is_in_range : Simulation F → Bool
  is_in_range s = (s.price_lower ≼ s.price) && (s.price ≼ s.price_upper)

  -- What a day in range earns.
  pub daily_fees : BacktestParams F → F
  daily_fees params =
      params.daily_volume_usd ⊗ params.position_volume_share ⊗ (params.fee_rate_bps ⊘ lit 10_000)

  accrue : BacktestParams F → Simulation F → Simulation F
  unfolding is_in_range daily_fees
  accrue params s = record s {
    days_in_range = if is_in_range s then next_u32 s.days_in_range else s.days_in_range;
    cumulative_fees = s.cumulative_fees ⊕ (if is_in_range s then daily_fees params else lit 0);
  }

  day_row : ℕ → F → Simulation F → DayResult F
  unfolding is_in_range
  day_row day unrealized_il_usd s =
      let il_to_date = s.realized_il_usd ⊕ unrealized_il_usd in
      record {
        day = day;
        price = s.price;
        in_range = is_in_range s;
        cumulative_fees_usd = s.cumulative_fees;
        il_usd = il_to_date;
        net_pnl_usd = s.cumulative_fees ⊕ il_to_date;
      }

  -- A rebalance locks the loss in and centres a range of the same width on the price.
  recentre : F → Simulation F → Simulation F
  unfolding floor_price
  recentre unrealized_il_usd s =
      let half_width = (s.price_upper ⊖ s.price_lower) ⊘ lit 2 in
      record s {
        total_rebalances = next_u32 s.total_rebalances;
        realized_il_usd = s.realized_il_usd ⊕ unrealized_il_usd;
        entry_price = s.price;
        price_lower = fmax (s.price ⊖ half_width) floor_price;
        price_upper = s.price ⊕ half_width;
      }

  rebalance_cfg : BacktestParams F → RebalanceConfig F
  rebalance_cfg params = record {
    rebalance_out_of_range = params.strategy_rebalance;
    near_edge_ticks = pos 0;
    min_net_pnl_usd = lit 0;
  }

  signal : BacktestParams F → F → F → Simulation F → Option (Simulation F)
  unfolding recentre rebalance_cfg
  signal params net_pnl unrealized_il_usd s = do
    tick_current ← price_to_tick s.price params.tick_spacing
    tick_lower ← price_to_tick s.price_lower params.tick_spacing
    tick_upper ← price_to_tick s.price_upper params.tick_spacing
    some (
        if is_rebalance
          (should_rebalance tick_current tick_lower tick_upper net_pnl (rebalance_cfg params))
        then recentre unrealized_il_usd s
        else s)

  -- The day's row is that from before the rebalance.
  close_day : BacktestParams F → ℕ → F → Simulation F → Option (Simulation F)
  unfolding day_row signal
  close_day params day unrealized_il_usd s =
      let row = day_row day unrealized_il_usd s in
      do
        after ←
            (if params.strategy_rebalance
              then signal params row.net_pnl_usd unrealized_il_usd s
              else some s)
        some (record after { day_results = after.day_results ++ row ∷ [] })

  simulate_day : BacktestParams F → ℕ → Simulation F → Option (Simulation F)
  unfolding move_price accrue close_day
  simulate_day params day s =
      let moved = accrue params (move_price params s) in
      do
        loss ← compute_il moved.entry_price moved.price moved.price_lower moved.price_upper
        close_day params day (loss ⊗ params.initial_value_usd) moved

  -- `left` days from the day after `done`.
  simulate : BacktestParams F → ℕ → ℕ → Simulation F → Option (Simulation F)
  unfolding simulate_day
  simulate params zero done s = some s
  simulate params (suc left) done s = do
    s' ← simulate_day params (suc done) s
    simulate params left (suc done) s'

  initial : BacktestParams F → ℕ → Simulation F
  unfolding seeded
  initial params seed = record {
    rng = seeded seed;
    price = params.entry_price;
    entry_price = params.entry_price;
    price_lower = params.price_lower;
    price_upper = params.price_upper;
    cumulative_fees = lit 0;
    realized_il_usd = lit 0;
    total_rebalances = 0;
    days_in_range = 0;
    day_results = [];
  }

  -- `day_results.last().map(g).unwrap_or(0.0)`
  abbrev pub last_or_zero : (DayResult F → F) → List (DayResult F) → F
  last_or_zero g [] = lit 0
  last_or_zero g (row ∷ []) = g row
  last_or_zero g (row ∷ next ∷ rows) = last_or_zero g (next ∷ rows)

  finish : BacktestParams F → Simulation F → BacktestResult F
  finish params s =
      let total_fees = last_or_zero (λ d. d.cumulative_fees_usd) s.day_results in
      let total_il = last_or_zero (λ d. d.il_usd) s.day_results in
      record {
        params_snapshot = record {
          entry_price = params.entry_price;
          price_lower = params.price_lower;
          price_upper = params.price_upper;
          fee_rate_bps = params.fee_rate_bps;
          annual_vol_pct = params.annual_volatility ⊗ lit 100;
          daily_volume_usd = params.daily_volume_usd;
          initial_value_usd = params.initial_value_usd;
        };
        days = s.day_results;
        total_fees_usd = total_fees;
        total_il_usd = total_il;
        net_pnl_usd = total_fees ⊕ total_il;
        total_rebalances = s.total_rebalances;
        days_in_range = s.days_in_range;
        fee_apy_pct = fee_apy total_fees params.initial_value_usd params.days;
      }

  unfoldable pub run : BacktestParams F → ℕ → Option (BacktestResult F)
  unfolding simulate initial finish
  run params seed = do
    s ← simulate params params.days 0 (initial params seed)
    some (finish params s)
