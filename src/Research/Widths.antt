-- ===== src/Research/Widths.antt =====
-- Where the rows of one range width of a sweep come from: `run_width` and `run_cell`.
use tick_liq.Prelude.{
  length, ◌≤◌, false, true, if◌then◌else◌, ℕ, ◌≡◌, refl, Bool, some, List, [], ◌∷◌, Member, All,
}
use Prim.Native.String.{String}
use tick_liq.Prelude.Int.{ℤ}
use tick_liq.Prelude.Result.{ok}
use tick_liq.Prelude.Float.{lit, ◌≼◌, Float}
use tick_liq.Prelude.Libm.{Libm}
use tick_liq.Feeds.Candles.{OhlcvCandle, Response}
use tick_liq.Backtest.Replay.{PoolTickRow, run_db_backtest}
use tick_liq.Research.{
  run_width, cell_input, row_of, realized_vol_of, value_at_pool_l, run_cell, variants_of,
}
use tick_liq.Research.Input.{PoolCfg, Config, RunResult, Sweep, or_panic, or_error, replay_error}
use mathlib.Core.Path.{subst}
use tick_liq.Math.Amounts.{compute_token_amounts, WhirlpoolsCore}
use tick_liq.Math.Price.{price_to_tick}
use tick_liq.Research.Sweeps.{
  or_error-ok, and_sweep-ok, or_panic-ok, replay_error-ok, sweep_same, each-All,
}
use tick_liq.Research.Cell.{IsSized, IsHistory, IsCell}

module _ {ℓ} {F : Type ℓ} ⦃f : Float F⦄ ⦃m : Libm F⦄ where
  run_cell-IsCell :
      (core : WhirlpoolsCore) (date_naive : ℤ → ℕ) (get : String → String → ℤ → ℕ → Response F)
      (cfg : Config F) (pool : PoolCfg F) (rows : List PoolTickRow) (pool_l : ℕ) (c : OhlcvCandle F)
      (cs : List (OhlcvCandle F)) (width : F) (pos_l : ℕ) (rebalance : Bool)
      (out : List (RunResult F))
      → Member pool cfg.pools
      → 3 ≤ length (c ∷ cs)
      → IsHistory date_naive get cfg.settings pool pool_l (c ∷ cs) rows
      → Member width cfg.settings.range_widths
      → IsSized core cfg.settings pool pool_l c.close width pos_l
      → Member rebalance (variants_of cfg.settings.rebalance)
      → run_cell cfg.settings pool rows pool_l c.close
          (realized_vol_of cfg.settings.timeframe (c ∷ cs))
          width
          pos_l
          rebalance
        ≡ some (ok out)
      → All (IsCell core date_naive get cfg) out
  unfolding run_cell row_of cell_input realized_vol_of
  run_cell-IsCell core date_naive get cfg pool rows pool_l c cs width pos_l rebalance out mp long
        hist mw sized mv h =
      let res = and_sweep-ok (replay_error (run_db_backtest _ rows)) _ out h in
      subst (All (IsCell core date_naive get cfg)) (sweep_same res.2) (
        record {
          pool = pool;
          pool_l = pool_l;
          pos_l = pos_l;
          first = c;
          rest = cs;
          rows = rows;
          result = res.0;
          of_pool = mp;
          of_width = mw;
          of_variant = mv;
          named = (refl, refl);
          long = long;
          history = hist;
          sized = sized;
          replayed = replay_error-ok _ res.0 res.1;
          report = record {
            capital = refl;
            share = refl;
            days = refl;
            rebalances = refl;
            fees = refl;
            loss = refl;
            net = refl;
            net_pct = refl;
            apy = refl;
            in_range = refl;
            volatility = refl;
            risk = (refl, refl, refl);
          };
        },
        tt,
      )

  pub skip_or :
      (P : RunResult F → Type ℓ) (b : Bool) (r : Sweep (List (RunResult F)))
      (out : List (RunResult F))
      → (b ≡ false → r ≡ some (ok out) → All P out)
      → (if b then some (ok []) else r) ≡ some (ok out)
      → All P out
  skip_or P true r out h e = subst (All P) (sweep_same e) tt
  skip_or P false r out h e = h refl e

  pub run_width-IsCell :
      (core : WhirlpoolsCore) (date_naive : ℤ → ℕ) (get : String → String → ℤ → ℕ → Response F)
      (cfg : Config F) (pool : PoolCfg F) (rows : List PoolTickRow) (pool_l : ℕ) (c : OhlcvCandle F)
      (cs : List (OhlcvCandle F)) (width : F) (out : List (RunResult F))
      → Member pool cfg.pools
      → 3 ≤ length (c ∷ cs)
      → IsHistory date_naive get cfg.settings pool pool_l (c ∷ cs) rows
      → Member width cfg.settings.range_widths
      → run_width core cfg.settings pool rows pool_l c.close
          (realized_vol_of cfg.settings.timeframe (c ∷ cs))
          width
        ≡ some (ok out)
      → All (IsCell core date_naive get cfg) out
  unfolding run_width value_at_pool_l
  run_width-IsCell core date_naive get cfg pool rows pool_l c cs width out mp long hist mw h =
      let lower = and_sweep-ok (or_panic (price_to_tick _ _)) _ out h in
      let upper = and_sweep-ok (or_panic (price_to_tick _ _)) _ out lower.2 in
      let amt = and_sweep-ok (or_error _ (compute_token_amounts _ _ _ _ _)) _ out upper.2 in
      let value = value_at_pool_l pool c.close amt.0 in
      skip_or (IsCell core date_naive get cfg) (value ≼ lit 0) _ out
        (λ worth.
          each-All (IsCell core date_naive get cfg) _ (variants_of cfg.settings.rebalance) out
            (λ v o mv e.
              run_cell-IsCell core date_naive get cfg pool rows pool_l c cs width _ v o mp long hist
                mw
                (record {
                  tick_lower = lower.0;
                  tick_upper = upper.0;
                  amounts = amt.0;
                  value = value;
                  lower = or_panic-ok _ lower.0 lower.1;
                  upper = or_panic-ok _ upper.0 upper.1;
                  held = or_error-ok _ _ amt.0 amt.1;
                  valued = refl;
                  worth = worth;
                  scaled = refl;
                })
                mv e))
        amt.2
