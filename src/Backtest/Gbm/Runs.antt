-- ===== src/Backtest/Gbm/Runs.antt =====
-- A simulation never panics when the tick spacing is positive.
use tick_liq.Prelude.{ℕ, zero, suc, ◌≡◌, refl, some, Returns, bind-Returns, choice-Returns}
use tick_liq.Prelude.Int.{pos}
use tick_liq.Prelude.Float.{Float, IsOrdered, ◌⊗◌}
use tick_liq.Prelude.Libm.{Libm}
use tick_liq.Math.Price.{price_to_tick, price_to_tick-some}
use tick_liq.Math.Il.{compute_il, compute_il-IsLoss}
use tick_liq.Backtest.{BacktestResult}
use tick_liq.Backtest.Gbm.{
  BacktestParams, Simulation, signal, close_day, simulate_day, move_price, accrue, simulate,
  initial, finish, run,
}

module _ {ℓ} {F : Type ℓ} ⦃f : Float F⦄ ⦃m : Libm F⦄ where
  abbrev HasSpacing : BacktestParams F → Type 0
  HasSpacing params = (n : ℕ) × (params.tick_spacing ≡ pos (suc n))

  price_to_tick-Returns :
      (params : BacktestParams F) (price : F)
      → HasSpacing params
      → Returns (price_to_tick price params.tick_spacing)
  price_to_tick-Returns params price h = rw h.1 (price_to_tick-some price h.0)

  signal-Returns :
      (params : BacktestParams F) (net u : F) (s : Simulation F)
      → HasSpacing params
      → Returns (signal params net u s)
  unfolding signal
  signal-Returns params net u s h =
      bind-Returns (price_to_tick _ _) _ (price_to_tick-Returns params _ h) (λ current.
        bind-Returns (price_to_tick _ _) _ (price_to_tick-Returns params _ h) (λ lower.
          bind-Returns (price_to_tick _ _) _ (price_to_tick-Returns params _ h)
            (λ upper. (_, refl))))

  close_day-Returns :
      (params : BacktestParams F) (day : ℕ) (u : F) (s : Simulation F)
      → HasSpacing params
      → Returns (close_day params day u s)
  unfolding close_day
  close_day-Returns params day u s h =
      bind-Returns _ _
        (choice-Returns params.strategy_rebalance _ s (signal-Returns params _ u s h))
        (λ after. (_, refl))

  simulate_day-Returns :
      IsOrdered F
      → (params : BacktestParams F) (day : ℕ) (s : Simulation F) → HasSpacing params
      → Returns (simulate_day params day s)
  unfolding simulate_day
  simulate_day-Returns laws params day s h =
      let loss = compute_il-IsLoss laws _ _ _ _ in
      bind-Returns (compute_il _ _ _ _) _ (loss.0, loss.1)
        (λ l.
          close_day-Returns params day (l ⊗ params.initial_value_usd)
            (accrue params (move_price params s)) h)

  simulate-Returns :
      IsOrdered F
      → (params : BacktestParams F) (left done : ℕ) (s : Simulation F) → HasSpacing params
      → Returns (simulate params left done s)
  unfolding simulate
  simulate-Returns laws params zero done s h = (s, refl)
  simulate-Returns laws params (suc left) done s h =
      bind-Returns (simulate_day params (suc done) s) _
        (simulate_day-Returns laws params (suc done) s h)
        (λ s'. simulate-Returns laws params left (suc done) s' h)

  -- With a positive tick spacing a simulation returns a result, whatever its parameters and its seed
  -- are: no step panics.
  pub run-Returns :
      IsOrdered F
      → (params : BacktestParams F) (n seed : ℕ) → params.tick_spacing ≡ pos (suc n)
      → (r : BacktestResult F) × (run params seed ≡ some r)
  unfolding run
  run-Returns laws params n seed e =
      bind-Returns (simulate params params.days 0 (initial params seed)) _
        (simulate-Returns laws params params.days 0 (initial params seed) (n, e))
        (λ s. (finish params s, refl))
