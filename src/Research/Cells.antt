-- ===== src/Research/Cells.antt =====
-- Where the rows of a research sweep come from.
use tick_liq.Prelude.{
  ◌∙◌, sym, ◌↔◌, arith, false, ◌==◌, true, if◌then◌else◌, ℕ, ◌≡◌, refl, Bool, some, List, [], ◌∷◌,
  Member, All,
}
use Prim.Native.String.{String}
use tick_liq.Prelude.Int.{leb_ℤ, ℤ}
use tick_liq.Prelude.Result.{Result, ok, err}
use tick_liq.Prelude.Float.{Float}
use tick_liq.Prelude.Libm.{Libm}
use tick_liq.Feeds.Candles.{FetchError, OhlcvCandle, Response, fetch_range}
use tick_liq.Backtest.Backfill.{synthesize_ticks}
use tick_liq.Research.{
  variants_of, run_fetched, run_pool, run_history, run_sweep, to_rows, synth_of,
}
use tick_liq.Research.Input.{
  Settings, PoolCfg, Config, RunResult, ResearchError, Sweep, or_panic, or_error,
}
use mathlib.Core.Path.{subst}
use tick_liq.Math.Amounts.{WhirlpoolsCore}
use tick_liq.Research.Sweeps.{All-at, or_error-ok, and_sweep-ok, or_panic-ok, sweep_same, each-All}
use tick_liq.Research.Cell.{IsSized, IsPlanned, IsCell}
use tick_liq.Research.Widths.{skip_or, run_width-IsCell}
use tick_liq.Research.Covers.{run_sweep-IsShown, IsOf, IsShown}

module _ {ℓ} {F : Type ℓ} ⦃f : Float F⦄ ⦃m : Libm F⦄ where
  -- What is known of the pool before its fetch.
  record IsAsked (settings : Settings F) (pool : PoolCfg F) (from_ts to_ts : ℤ) (pool_l : ℕ)
      : Type 0 where
    starts : settings.from_ts ≡ some from_ts
    ends : settings.to_ts ≡ some to_ts
    ordered : leb_ℤ to_ts from_ts ≡ false
    liquidity : pool.pool_liquidity ≡ some pool_l
    liquid : (pool_l == 0) ≡ false

  run_history-IsCell :
      (core : WhirlpoolsCore) (date_naive : ℤ → ℕ) (get : String → String → ℤ → ℕ → Response F)
      (cfg : Config F) (from_ts to_ts : ℤ) (pool : PoolCfg F) (pool_l : ℕ)
      (candles : List (OhlcvCandle F)) (out : List (RunResult F))
      → Member pool cfg.pools
      → IsAsked cfg.settings pool from_ts to_ts pool_l
      → fetch_range (get pool.address cfg.settings.timeframe) from_ts to_ts ≡ ok candles
      → run_history core date_naive cfg.settings pool pool_l candles ≡ some (ok out)
      → All (IsCell core date_naive get cfg) out
  unfolding run_history synth_of
  run_history-IsCell core date_naive get cfg from_ts to_ts pool pool_l [] out mp asked fetched h =
      subst (All (IsCell core date_naive get cfg)) (sweep_same h) tt
  run_history-IsCell core date_naive get cfg from_ts to_ts pool pool_l (a ∷ []) out mp asked fetched
        h =
      subst (All (IsCell core date_naive get cfg)) (sweep_same h) tt
  run_history-IsCell core date_naive get cfg from_ts to_ts pool pool_l (a ∷ b ∷ []) out mp asked
        fetched h =
      subst (All (IsCell core date_naive get cfg)) (sweep_same h) tt
  run_history-IsCell core date_naive get cfg from_ts to_ts pool pool_l (a ∷ b ∷ c ∷ cs) out mp asked
        fetched h =
      let made =
        and_sweep-ok (or_panic (synthesize_ticks (a ∷ b ∷ c ∷ cs) (synth_of pool pool_l))) _ out
          h in
      each-All (IsCell core date_naive get cfg) _ cfg.settings.range_widths out
        (λ width o mw e.
          run_width-IsCell core date_naive get cfg pool (to_rows date_naive made.0) pool_l a
            (b ∷ c ∷ cs) width o mp (omega arith)
            (record {
              from_ts = from_ts;
              to_ts = to_ts;
              ticks = made.0;
              starts = asked.starts;
              ends = asked.ends;
              ordered = asked.ordered;
              liquidity = asked.liquidity;
              liquid = asked.liquid;
              fetched = fetched;
              made = or_panic-ok _ made.0 made.1;
              read = refl;
            })
            mw e)
        made.2

  run_fetched-IsCell :
      (core : WhirlpoolsCore) (date_naive : ℤ → ℕ) (get : String → String → ℤ → ℕ → Response F)
      (cfg : Config F) (from_ts to_ts : ℤ) (pool : PoolCfg F) (pool_l : ℕ)
      (r : Result FetchError (List (OhlcvCandle F))) (out : List (RunResult F))
      → Member pool cfg.pools
      → IsAsked cfg.settings pool from_ts to_ts pool_l
      → fetch_range (get pool.address cfg.settings.timeframe) from_ts to_ts ≡ r
      → run_fetched core date_naive cfg.settings pool pool_l r ≡ some (ok out)
      → All (IsCell core date_naive get cfg) out
  unfolding run_fetched
  run_fetched-IsCell core date_naive get cfg from_ts to_ts pool pool_l (ok candles) out mp asked
        fetched h =
      run_history-IsCell core date_naive get cfg from_ts to_ts pool pool_l candles out mp asked
        fetched h
  run_fetched-IsCell core date_naive get cfg from_ts to_ts pool pool_l (err e) out mp asked fetched
        h =
      subst (All (IsCell core date_naive get cfg)) (sweep_same h) tt

  run_pool-IsCell :
      (core : WhirlpoolsCore) (date_naive : ℤ → ℕ) (get : String → String → ℤ → ℕ → Response F)
      (cfg : Config F) (from_ts to_ts : ℤ) (pool : PoolCfg F) (out : List (RunResult F))
      → Member pool cfg.pools
      → cfg.settings.from_ts ≡ some from_ts
      → cfg.settings.to_ts ≡ some to_ts
      → leb_ℤ to_ts from_ts ≡ false
      → run_pool core date_naive get cfg.settings from_ts to_ts pool ≡ some (ok out)
      → All (IsCell core date_naive get cfg) out
  unfolding run_pool
  run_pool-IsCell core date_naive get cfg from_ts to_ts pool out mp starts ends ordered h =
      let liquidity = and_sweep-ok (or_error _ pool.pool_liquidity) _ out h in
      skip_or (IsCell core date_naive get cfg) (liquidity.0 == 0) _ out
        (λ liquid.
          run_fetched-IsCell core date_naive get cfg from_ts to_ts pool liquidity.0 _ out mp
            (record {
              starts = starts;
              ends = ends;
              ordered = ordered;
              liquidity = or_error-ok _ _ liquidity.0 liquidity.1;
              liquid = liquid;
            })
            refl)
        liquidity.2

  bail_or :
      (P : RunResult F → Type ℓ) (b : Bool) (r : Sweep (List (RunResult F)))
      (out : List (RunResult F)) (e : ResearchError)
      → (b ≡ false → r ≡ some (ok out) → All P out)
      → (if b then some (err e) else r) ≡ some (ok out)
      → All P out
  bail_or P true r out e h k = absurd cc
  bail_or P false r out e h k = h refl k

  run_sweep-All :
      (core : WhirlpoolsCore) (date_naive : ℤ → ℕ) (get : String → String → ℤ → ℕ → Response F)
      (cfg : Config F) (out : List (RunResult F))
      → run_sweep core date_naive get cfg ≡ some (ok out)
      → All (IsCell core date_naive get cfg) out
  unfolding run_sweep
  run_sweep-All core date_naive get cfg out h =
      let start = and_sweep-ok (or_error _ cfg.settings.from_ts) _ out h in
      let end = and_sweep-ok (or_error _ cfg.settings.to_ts) _ out start.2 in
      bail_or (IsCell core date_naive get cfg) (leb_ℤ end.0 start.0) _ out _
        (λ ordered. each-All (IsCell core date_naive get cfg) _ cfg.pools out (λ pool o mp e.
          run_pool-IsCell core date_naive get cfg start.0 end.0 pool o mp
            (or_error-ok _ _ start.0 start.1) (or_error-ok _ _ end.0 end.1) ordered e))
        end.2

  shown :
      (core : WhirlpoolsCore) (date_naive : ℤ → ℕ) (get : String → String → ℤ → ℕ → Response F)
      (cfg : Config F) (label address : String) (width : F) (rebalance : Bool) (row : RunResult F)
      → IsOf label address width rebalance row
      → IsCell core date_naive get cfg row
      → IsPlanned core date_naive get cfg label address width rebalance
  shown core date_naive get cfg label address width rebalance row o c = record {
    pool = c.pool;
    pool_l = c.pool_l;
    pos_l = c.pos_l;
    first = c.first;
    rest = c.rest;
    rows = c.rows;
    of_pool = c.of_pool;
    of_width = subst (λ w. Member w cfg.settings.range_widths) o.of_range c.of_width;
    of_variant = subst (λ v. Member v (variants_of cfg.settings.rebalance)) o.variant c.of_variant;
    named = (sym o.labelled ∙ c.named.0, sym o.of_address ∙ c.named.1);
    long = c.long;
    history = c.history;
    sized =
        subst (λ w. IsSized core cfg.settings c.pool c.pool_l c.first.close w c.pos_l) o.of_range
          c.sized;
  }

  -- Each row of a sweep that succeeds reports a cell of the configuration: a pool, a range width and a
  -- rebalance variant of it, under the pool's label and address. The pool's history was fetched for the
  -- window of the configuration and has at least three candles; the cell is entered at the close of the
  -- first, with the liquidity that the capital buys on its range; and every column of the row is computed
  -- of the replay of that cell over the rows that were made of the history. And there is a row of a label, an address, a width and a variant exactly if the
  -- configuration has such a cell: a pool with liquidity and a fetched history of at least three candles,
  -- and a position that is worth something at the first close.
  pub run_sweep-IsCell :
      (core : WhirlpoolsCore) (date_naive : ℤ → ℕ) (get : String → String → ℤ → ℕ → Response F)
      (cfg : Config F) (out : List (RunResult F))
      → run_sweep core date_naive get cfg ≡ some (ok out)
      → All (IsCell core date_naive get cfg) out
        × ((label address : String) (width : F) (rebalance : Bool)
            → IsShown label address width rebalance out
              ↔ IsPlanned core date_naive get cfg label address width rebalance)
  run_sweep-IsCell core date_naive get cfg out h =
      let cells = run_sweep-All core date_naive get cfg out h in
      (
        cells,
        λ label address width rebalance. (
          λ (row, k, o).
              shown core date_naive get cfg label address width rebalance row o
                (All-at (IsCell core date_naive get cfg) out row cells k),
          λ p.
              subst (λ l. IsShown l address width rebalance out) (sym p.named.0)
                (subst (λ a. IsShown p.pool.label a width rebalance out) (sym p.named.1)
                  (run_sweep-IsShown core date_naive get cfg out h p.pool p.pool_l p.first p.rest
                    p.rows width p.pos_l rebalance p.of_pool p.history p.long p.of_width p.sized
                    p.of_variant)),
        ),
      )
