-- ===== src/Commands/Backfill/Replayed.antt =====
-- The rows that a backfill writes are those that a backtest over the same window replays.
use tick_liq.Prelude.{
  some_same, ◌<◌, ◌∙◌, bind-some, sym, ◌==◌, ◌⊎◌, ap, if◌then◌else◌, ℕ, Bool, true, false, List, [],
  ◌∷◌, some, ◌≡◌, refl, All, length, inl, inr,
}
use tick_liq.Prelude.Result.{err_ne_ok, ok_same, Result, ok, err}
use tick_liq.Prelude.Float.{Float}
use tick_liq.Prelude.Libm.{Libm, IsCast}
use tick_liq.Prelude.Int.{◌<ℤ◌, ◌≤ℤ◌, leb_ℤ, ℤ, pos, ◌-ℤ◌}
use tick_liq.Storage.Laws.{write_pool_ticks-IsExtended}
use tick_liq.Storage.ReadBack.{read_ticks-write_pool_ticks}
use tick_liq.Storage.{write_pool_ticks}
use text.Mathlib.Text.{◌==◌ as str_eq}
use tick_liq.Backtest.Backfill.Rows.{synthesize_ticks-IsOwn, synthesize_ticks-cons}
use tick_liq.Feeds.Candles.Series.{IsServed, fetch_range-IsAscending}
use tick_liq.Commands.Backfill.{
  BackfillArgs, store_rows, of_candles, backfill, backtest_db, of_ticks, replay_result, wrote,
  written,
}
use tick_liq.Backtest.Backfill.{PoolTick, synthesize_ticks}
use tick_liq.Feeds.Candles.{fetch_range, FetchError, OhlcvCandle, Response}
use tick_liq.Backtest.Replay.{run_db_backtest, DbBacktestInput}
use tick_liq.Prelude.Word.{u128_mod, i64_half, Fits}
use tick_liq.Research.{to_rows}
use mathlib.Core.Path.{subst}

unless {ℓ} :
    {A : Type ℓ} (b : Bool) (x y z : A)
    → (if b then x else y) ≡ z
    → (x ≡ z) ⊎ ((b ≡ false) × (y ≡ z))
unless true x y z h = inl h
unless false x y z h = inr (refl, h)

written-wrote :
    (r : List PoolTick × Result (Unit {0}) ℕ) (table' : List PoolTick) (n : ℕ)
    → written r ≡ (some table', ok (wrote n))
    → r ≡ (table', ok n)
written-wrote (table, ok k) table' n h = cc
written-wrote (table, err e) table' n h = absurd cc

module _ (begins : Bool) (works : ℕ → Bool) (commits : Bool) where
  store_rows-wrote :
      (is_dry : Bool) (table ticks table' : List PoolTick) (n : ℕ)
      → store_rows begins works commits is_dry (some table) ticks ≡ (some table', ok (wrote n))
      → write_pool_ticks begins works commits table ticks ≡ (table', ok n)
  unfolding store_rows
  store_rows-wrote true table ticks table' n h = absurd cc
  store_rows-wrote false table ticks table' n h = written-wrote _ table' n h

  submitted :
      (table ticks table' : List PoolTick) (n : ℕ)
      → write_pool_ticks begins works commits table ticks ≡ (table', ok n)
      → n ≡ length ticks
  submitted table ticks table' n h =
      elim (write_pool_ticks-IsExtended begins works commits table ticks).1 [
        | inl e ↦ ok_same (ap (λ p. p.1) (sym h) ∙ e)
        | inr (e, same) ↦ absurd (err_ne_ok (sym e ∙ ap (λ p. p.1) h))
      ]

of_ticks-cons {ℓ} :
    {F : Type ℓ} ⦃f : Float F⦄ ⦃m : Libm F⦄
    → (date_naive : ℤ → ℕ) (input : DbBacktestInput F) (ticks : List PoolTick)
    → (t : PoolTick) × (ts : List PoolTick) × (ticks ≡ t ∷ ts)
    → of_ticks date_naive input (ok ticks)
      ≡ replay_result (run_db_backtest input (to_rows date_naive ticks))
unfolding of_ticks
of_ticks-cons date_naive input ticks (t, ts, e) = rw e refl

module _ {ℓ} {F : Type ℓ} ⦃f : Float F⦄ ⦃m : Libm F⦄ (begins : Bool) (works : ℕ → Bool)
    (commits : Bool) where
  -- What a backfill that wrote rows has done.
  pub record IsBackfill (get : ℤ → ℕ → Response F) (args : BackfillArgs F)
      (table table' : List PoolTick) (n : ℕ) : Type ℓ where
    pub first : OhlcvCandle F
    pub rest : List (OhlcvCandle F)
    pub ticks : List PoolTick
    pub fetched : fetch_range get args.from_ts args.to_ts ≡ ok (first ∷ rest)
    pub made : synthesize_ticks (first ∷ rest) args.params ≡ some ticks
    pub wrote_all : write_pool_ticks begins works commits table ticks ≡ (table', ok n)
    pub window : leb_ℤ args.to_ts args.from_ts ≡ false

  of_candles-IsBackfill :
      (get : ℤ → ℕ → Response F) (args : BackfillArgs F) (table table' : List PoolTick) (n : ℕ)
      (r : Result FetchError (List (OhlcvCandle F)))
      → fetch_range get args.from_ts args.to_ts ≡ r
      → leb_ℤ args.to_ts args.from_ts ≡ false
      → of_candles begins works commits args (some table) r ≡ some (some table', ok (wrote n))
      → IsBackfill get args table table' n
  unfolding of_candles
  of_candles-IsBackfill get args table table' n (err e) f w h = absurd cc
  of_candles-IsBackfill get args table table' n (ok []) f w h = absurd cc
  of_candles-IsBackfill get args table table' n (ok (c ∷ cs)) f w h =
      let made = bind-some (synthesize_ticks (c ∷ cs) args.params) h in
      record {
        first = c;
        rest = cs;
        ticks = made.0;
        fetched = f;
        made = made.1;
        wrote_all =
            store_rows-wrote begins works commits args.dry_run table made.0 table' n
              (some_same made.2);
        window = w;
      }

  backfill-IsBackfill :
      (get : ℤ → ℕ → Response F) (args : BackfillArgs F) (table table' : List PoolTick) (n : ℕ)
      → backfill begins works commits get args (some table) ≡ some (some table', ok (wrote n))
      → IsBackfill get args table table' n
  unfolding backfill
  backfill-IsBackfill get args table table' n h =
      elim (unless (leb_ℤ args.to_ts args.from_ts) _ _ _ h) [
        | inl e ↦ absurd cc
        | inr (w, h') ↦ elim (unless (args.params.pool_liquidity == 0) _ _ _ h') [
          | inl e ↦ absurd cc
          | inr (l, h'') ↦ of_candles-IsBackfill get args table table' n _ refl w h''
        ]
      ]

  in_window :
      (get : ℤ → ℕ → Response F) (from_ts to_ts : ℤ) (cs : List (OhlcvCandle F))
      → All (λ c. (from_ts ≤ℤ c.timestamp) × (c.timestamp <ℤ to_ts) × IsServed get c) cs
      → All (λ c. (from_ts ≤ℤ c.timestamp) × (c.timestamp <ℤ to_ts)) cs
  in_window get from_ts to_ts [] h = tt
  in_window get from_ts to_ts (c ∷ cs) ((lo, hi, by), hs) =
      ((lo, hi), in_window get from_ts to_ts cs hs)

  -- A backfill that wrote rows of a pool of which the table had none: a backtest over the same pool and
  -- window, when its query succeeds, replays exactly the rows that were made of the fetched candles, in
  -- their order. The window lies in `i64`, the liquidity in `u128`, and casts to `u128` saturate.
  pub backfill-backtest_db :
      IsCast F
      → (get : ℤ → ℕ → Response F) (args : BackfillArgs F) (table table' : List PoolTick) (n : ℕ)
      → Fits i64_half (args.from_ts -ℤ pos 1)
      → Fits i64_half args.to_ts
      → args.params.pool_liquidity < u128_mod
      → All (λ t. str_eq t.pool_address args.params.pool_address ≡ false) table
      → backfill begins works commits get args (some table) ≡ some (some table', ok (wrote n))
      → (candles : List (OhlcvCandle F)) × (ticks : List PoolTick) × (fetch_range get args.from_ts
            args.to_ts
          ≡ ok candles)
        × (synthesize_ticks candles args.params ≡ some ticks)
        × (n ≡ length ticks)
        × ((date_naive : ℤ → ℕ) (input : DbBacktestInput F)
            → backtest_db true date_naive table' args.params.pool_address args.from_ts args.to_ts
                input
              ≡ replay_result (run_db_backtest input (to_rows date_naive ticks)))
  unfolding backtest_db
  backfill-backtest_db cast get args table table' n lo hi liq other h =
      let b = backfill-IsBackfill get args table table' n h in
      let count = submitted begins works commits table b.ticks table' n b.wrote_all in
      let series =
        fetch_range-IsAscending get args.from_ts args.to_ts (b.first ∷ b.rest) b.fetched in
      let (slots, times, own) =
        synthesize_ticks-IsOwn cast args.params args.from_ts args.to_ts liq (b.first ∷ b.rest)
          b.ticks lo hi series.0 (in_window get args.from_ts args.to_ts (b.first ∷ b.rest) series.1)
          b.made in
      let read =
        read_ticks-write_pool_ticks args.params.pool_address args.from_ts args.to_ts begins works
          commits table b.ticks table'
          (subst (λ k. write_pool_ticks begins works commits table b.ticks ≡ (table', ok k)) count
            b.wrote_all)
          other slots times own in
      (
        b.first ∷ b.rest,
        b.ticks,
        b.fetched,
        b.made,
        count,
        λ date_naive input.
            rw (b.window, read)
              (of_ticks-cons date_naive input b.ticks
                (synthesize_ticks-cons b.first b.rest args.params b.ticks b.made)),
      )
