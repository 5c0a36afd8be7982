-- ===== src/Backtest/Replay/Runs.antt =====
-- A replay never panics when the tick spacing is positive.
use tick_liq.Prelude.{choice-Returns, bind-Returns, Returns, ℕ, suc, ◌≡◌, refl, ◌∷◌, [], List, some}
use tick_liq.Prelude.Int.{pos}
use tick_liq.Prelude.Result.{ok}
use tick_liq.Prelude.Float.{Float, IsOrdered, ◌⊗◌}
use tick_liq.Prelude.Libm.{Libm}
use tick_liq.Math.Price.{price_to_tick, price_to_tick-some}
use tick_liq.Math.Il.{compute_il, compute_il-IsLoss}
use tick_liq.Backtest.{BacktestResult}
use tick_liq.Backtest.Replay.{
  recentre, after_signal, initial, finish, replay_tick, before_signal, DbBacktestInput, PoolTickRow,
  Replay, run_db_backtest, replay_from, ui_price,
}

module _ {ℓ} {F : Type ℓ} ⦃f : Float F⦄ ⦃m : Libm F⦄ where
  -- The spacing of the input is positive.
  abbrev pub HasSpacing : DbBacktestInput F → Type 0
  HasSpacing input = (n : ℕ) × (input.tick_spacing ≡ pos (suc n))

  price_to_tick-Returns :
      (input : DbBacktestInput F) (price : F)
      → HasSpacing input
      → Returns (price_to_tick price input.tick_spacing)
  price_to_tick-Returns input price h = rw h.1 (price_to_tick-some price h.0)

  recentre-Returns :
      (input : DbBacktestInput F) (price u : F) (s : Replay F)
      → HasSpacing input
      → Returns (recentre input price u s)
  unfolding recentre
  recentre-Returns input price u s h =
      bind-Returns (price_to_tick _ _) _ (price_to_tick-Returns input _ h) (λ lower.
        bind-Returns (price_to_tick _ _) _ (price_to_tick-Returns input _ h) (λ upper. (_, refl)))

  after_signal-Returns :
      (input : DbBacktestInput F) (t : PoolTickRow) (u : F) (s : Replay F)
      → HasSpacing input
      → Returns (after_signal input t u s)
  unfolding after_signal
  after_signal-Returns input t u s h = choice-Returns _ _ _ (
      recentre-Returns input (ui_price input t) u
        (record s { last_price = ui_price input t; last_unrealized_il_usd = u }) h)

  replay_tick-Returns :
      IsOrdered F
      → (input : DbBacktestInput F) (i : ℕ) (t : PoolTickRow) (s : Replay F) → HasSpacing input
      → Returns (replay_tick input i t s)
  unfolding replay_tick
  replay_tick-Returns laws input i t s h =
      let loss = compute_il-IsLoss laws _ _ _ _ in
      bind-Returns (compute_il _ _ _ _) _ (loss.0, loss.1)
        (λ l.
          after_signal-Returns input t (l ⊗ input.initial_value_usd) (before_signal input i t s) h)

  replay_from-Returns :
      IsOrdered F
      → (input : DbBacktestInput F) (i : ℕ) (ts : List PoolTickRow) (s : Replay F)
      → HasSpacing input
      → Returns (replay_from input i ts s)
  unfolding replay_from
  replay_from-Returns laws input i [] s h = (s, refl)
  replay_from-Returns laws input i (t ∷ ts) s h =
      bind-Returns (replay_tick input i t s) _ (replay_tick-Returns laws input i t s h)
        (λ s'. replay_from-Returns laws input (suc i) ts s' h)

  initial-Returns :
      (input : DbBacktestInput F) (first : PoolTickRow)
      → HasSpacing input
      → Returns (initial input first)
  unfolding initial
  initial-Returns input first h =
      bind-Returns (price_to_tick _ _) _ (price_to_tick-Returns input _ h) (λ lower.
        bind-Returns (price_to_tick _ _) _ (price_to_tick-Returns input _ h) (λ upper. (_, refl)))

  -- With a positive tick spacing a replay of at least one tick returns a result, whatever its prices,
  -- ranges and growth counters are: no step panics.
  pub run_db_backtest-Returns :
      IsOrdered F
      → (input : DbBacktestInput F) (n : ℕ) (first : PoolTickRow) (rest : List PoolTickRow)
      → input.tick_spacing ≡ pos (suc n)
      → (r : BacktestResult F) × (run_db_backtest input (first ∷ rest) ≡ some (ok r))
  unfolding run_db_backtest
  run_db_backtest-Returns laws input n first rest e =
      let start = initial-Returns input first (n, e) in
      let end = replay_from-Returns laws input 0 (first ∷ rest) start.0 (n, e) in
      (finish input end.0, rw (start.1, end.1) refl)
