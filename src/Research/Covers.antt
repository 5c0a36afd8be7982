-- ===== src/Research/Covers.antt =====
-- Which cells of a configuration have a row in a sweep that succeeds.
use tick_liq.Research.{
  run_fetched, run_width, run_pool, run_history, run_sweep, row_of, value_at_pool_l, run_cell,
  synth_of, variants_of,
}
use tick_liq.Prelude.{
  [], refl, first, arith, ap, ◌∷◌, length, ◌≤◌, some, Member, ℕ, List, if◌then◌else◌, false, ◌≡◌,
  Bool,
}
use tick_liq.Prelude.Float.{lit, ◌≼◌, Float}
use tick_liq.Prelude.Libm.{Libm}
use tick_liq.Research.Input.{or_error, or_panic, replay_error, Config, RunResult, Settings, PoolCfg}
use tick_liq.Math.Amounts.{WhirlpoolsCore}
use tick_liq.Prelude.Int.{ℤ}
use mathlib.Core.Path.{subst}
use tick_liq.Backtest.Replay.{run_db_backtest, PoolTickRow}
use tick_liq.Research.Cell.{IsHistory, IsSized}
use tick_liq.Feeds.Candles.{Response, OhlcvCandle}
use Prim.Native.String.{String}
use tick_liq.Prelude.Result.{ok}
use tick_liq.Backtest.Backfill.{synthesize_ticks, PoolTick}
use tick_liq.Research.Sweeps.{each-Member, sweep_same, and_sweep-at, and_sweep-ok}

-- The step under a guard that does not hold.
guarded {ℓ} : {A : Type ℓ} (b : Bool) (x y z : A) → b ≡ false → (if b then x else y) ≡ z → y ≡ z
guarded b x y z e h = subst (λ t. (if t then x else y) ≡ z) e h

module _ {ℓ} {F : Type ℓ} ⦃f : Float F⦄ ⦃m : Libm F⦄ where
  -- The row has this label, address, width and variant.
  pub record IsOf (label address : String) (width : F) (rebalance : Bool) (row : RunResult F)
      : Type ℓ where
    pub labelled : row.label ≡ label
    pub of_address : row.address ≡ address
    pub of_range : row.range_width ≡ width
    pub variant : row.rebalance ≡ rebalance

  -- Some row has them.
  abbrev pub IsShown : String → String → F → Bool → List (RunResult F) → Type ℓ
  IsShown label address width rebalance out =
      (row : RunResult F) × Member row out × IsOf label address width rebalance row

  run_cell-IsShown :
      (settings : Settings F) (pool : PoolCfg F) (rows : List PoolTickRow) (pool_l : ℕ)
      (entry vol width : F) (pos_l : ℕ) (rebalance : Bool) (out : List (RunResult F))
      → run_cell settings pool rows pool_l entry vol width pos_l rebalance ≡ some (ok out)
      → IsShown pool.label pool.address width rebalance out
  unfolding run_cell row_of
  run_cell-IsShown settings pool rows pool_l entry vol width pos_l rebalance out h =
      let res = and_sweep-ok (replay_error (run_db_backtest _ rows)) _ out h in
      subst (IsShown pool.label pool.address width rebalance) (sweep_same res.2) (
        row_of settings pool pool_l vol width pos_l rebalance res.0,
        first,
        record { labelled = refl; of_address = refl; of_range = refl; variant = refl },
      )

  run_width-IsShown :
      (core : WhirlpoolsCore) (settings : Settings F) (pool : PoolCfg F) (rows : List PoolTickRow)
      (pool_l : ℕ) (entry vol width : F) (pos_l : ℕ) (rebalance : Bool) (out : List (RunResult F))
      → IsSized core settings pool pool_l entry width pos_l
      → Member rebalance (variants_of settings.rebalance)
      → run_width core settings pool rows pool_l entry vol width ≡ some (ok out)
      → IsShown pool.label pool.address width rebalance out
  unfolding run_width value_at_pool_l
  run_width-IsShown core settings pool rows pool_l entry vol width pos_l rebalance out s mv h =
      let lower = and_sweep-at _ _ s.tick_lower out (ap or_panic s.lower) h in
      let upper = and_sweep-at _ _ s.tick_upper out (ap or_panic s.upper) lower in
      let amt = and_sweep-at _ _ s.amounts out (ap (or_error _) s.held) upper in
      let worth = subst (λ v. (v ≼ lit 0) ≡ false) s.valued s.worth in
      each-Member (IsOf pool.label pool.address width rebalance) _ (variants_of settings.rebalance)
        out rebalance mv
        (λ o e. run_cell-IsShown settings pool rows pool_l entry vol width _ rebalance o e)
        (guarded _ _ _ _ worth amt)

  run_history-IsShown :
      (core : WhirlpoolsCore) (date_naive : ℤ → ℕ) (settings : Settings F) (pool : PoolCfg F)
      (pool_l : ℕ) (c : OhlcvCandle F) (cs : List (OhlcvCandle F)) (ticks : List PoolTick)
      (width : F) (pos_l : ℕ) (rebalance : Bool) (out : List (RunResult F))
      → 3 ≤ length (c ∷ cs)
      → synthesize_ticks (c ∷ cs) (synth_of pool pool_l) ≡ some ticks
      → Member width settings.range_widths
      → IsSized core settings pool pool_l c.close width pos_l
      → Member rebalance (variants_of settings.rebalance)
      → run_history core date_naive settings pool pool_l (c ∷ cs) ≡ some (ok out)
      → IsShown pool.label pool.address width rebalance out
  unfolding run_history
  run_history-IsShown core date_naive settings pool pool_l c [] ticks width pos_l rebalance out long
        made mw s mv h =
      absurd (omega (arith, long))
  run_history-IsShown core date_naive settings pool pool_l c (a ∷ []) ticks width pos_l rebalance
        out long made mw s mv h =
      absurd (omega (arith, long))
  run_history-IsShown core date_naive settings pool pool_l c (a ∷ b ∷ cs) ticks width pos_l
        rebalance out long made mw s mv h =
      each-Member (IsOf pool.label pool.address width rebalance) _ settings.range_widths out width
        mw
        (λ o e.
          run_width-IsShown core settings pool _ pool_l c.close _ width pos_l rebalance o s mv e)
        (and_sweep-at _ _ ticks out (ap or_panic made) h)

  run_pool-IsShown :
      (core : WhirlpoolsCore) (date_naive : ℤ → ℕ) (get : String → String → ℤ → ℕ → Response F)
      (settings : Settings F) (pool : PoolCfg F) (pool_l : ℕ) (c : OhlcvCandle F)
      (cs : List (OhlcvCandle F)) (rows : List PoolTickRow) (width : F) (pos_l : ℕ)
      (rebalance : Bool) (out : List (RunResult F))
      (h : IsHistory date_naive get settings pool pool_l (c ∷ cs) rows)
      → 3 ≤ length (c ∷ cs)
      → Member width settings.range_widths
      → IsSized core settings pool pool_l c.close width pos_l
      → Member rebalance (variants_of settings.rebalance)
      → run_pool core date_naive get settings h.from_ts h.to_ts pool ≡ some (ok out)
      → IsShown pool.label pool.address width rebalance out
  unfolding run_pool run_fetched synth_of
  run_pool-IsShown core date_naive get settings pool pool_l c cs rows width pos_l rebalance out h
        long mw s mv e =
      let fetched =
        guarded _ _ _ _ h.liquid (and_sweep-at _ _ pool_l out (ap (or_error _) h.liquidity) e) in
      run_history-IsShown core date_naive settings pool pool_l c cs h.ticks width pos_l rebalance
        out long h.made mw s mv
        (subst (λ r. run_fetched core date_naive settings pool pool_l r ≡ some (ok out)) h.fetched
          fetched)

  pub run_sweep-IsShown :
      (core : WhirlpoolsCore) (date_naive : ℤ → ℕ) (get : String → String → ℤ → ℕ → Response F)
      (cfg : Config F) (out : List (RunResult F))
      → run_sweep core date_naive get cfg ≡ some (ok out)
      → (pool : PoolCfg F) (pool_l : ℕ) (c : OhlcvCandle F) (cs : List (OhlcvCandle F))
        (rows : List PoolTickRow) (width : F) (pos_l : ℕ) (rebalance : Bool)
      → Member pool cfg.pools
      → IsHistory date_naive get cfg.settings pool pool_l (c ∷ cs) rows
      → 3 ≤ length (c ∷ cs)
      → Member width cfg.settings.range_widths
      → IsSized core cfg.settings pool pool_l c.close width pos_l
      → Member rebalance (variants_of cfg.settings.rebalance)
      → IsShown pool.label pool.address width rebalance out
  unfolding run_sweep
  run_sweep-IsShown core date_naive get cfg out e pool pool_l c cs rows width pos_l rebalance mp h
        long mw s mv =
      let start = and_sweep-at _ _ h.from_ts out (ap (or_error _) h.starts) e in
      let end = and_sweep-at _ _ h.to_ts out (ap (or_error _) h.ends) start in
      each-Member (IsOf pool.label pool.address width rebalance) _ cfg.pools out pool mp
        (λ o k.
          run_pool-IsShown core date_naive get cfg.settings pool pool_l c cs rows width pos_l
            rebalance o h long mw s mv k)
        (guarded _ _ _ _ h.ordered end)
