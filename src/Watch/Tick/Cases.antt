-- ===== src/Watch/Tick/Cases.antt =====
-- The two ways of a pass of the watch loop: without a pool, or through the gates.
use tick_liq.Watch.State.{Pass, Watcher, Notification, WatchConfig, no_pool}
use tick_liq.Prelude.Float.{Float}
use tick_liq.Prelude.Libm.{Libm}
use tick_liq.Prelude.Borsh.{Borsh}
use tick_liq.Math.Amounts.{WhirlpoolsCore}
use tick_liq.Watch.Tick.{with_figures, pool_of, refreshed, with_pool, on_pool, process}
use tick_liq.Prelude.{bind-some, inr, some_same, inl, Option-cases, ◌⊎◌, none, [], some, ◌≡◌, Bool}
use tick_liq.Orca.Layout.{WhirlpoolPool}
use tick_liq.Watch.Figures.{figures_of, Figures}
use tick_liq.Watch.Price.{price_now}
use tick_liq.Math.Price.{sqrt_q64_to_ui_price}

module _ {ℓ} {F : Type ℓ} ⦃f : Float F⦄ ⦃m : Libm F⦄ {Key : Type 0} (borsh : Borsh Key)
    (core : WhirlpoolsCore) (f64_max : F) (cfg : WatchConfig F) where
  -- The watcher after the position and the price are read.
  abbrev pub at_price : Notification F → Watcher F Key → Bool → Watcher F Key
  at_price n w stale = record w {
    position = refreshed borsh n.position w.position;
    cex_was_stale = stale;
  }

  -- The price of this pass, and whether that of the exchange was found stale.
  abbrev pub price_at : Notification F → Watcher F Key → WhirlpoolPool Key → F × Bool
  price_at n w pool =
      price_now n.cex n.instant
        (sqrt_q64_to_ui_price pool.sqrt_price cfg.session.decimals_a cfg.session.decimals_b)
        w.cex_was_stale

  abbrev pub skipped : Notification F → Watcher F Key → Pass F Key
  skipped n w = record {
    watcher = record w { position = refreshed borsh n.position w.position };
    gauges = [];
    proposal = none;
    end = no_pool;
  }

  pub process-cases :
      (n : Notification F) (w : Watcher F Key) (p : Pass F Key)
      → process borsh core f64_max cfg n w ≡ some p
      → (skipped n w ≡ p)
        ⊎ ((pool : WhirlpoolPool Key) × (fig : Figures F) × (pool_of borsh n.account n.fetched
              ≡ some pool)
            × (figures_of core cfg.session pool
                  (refreshed borsh n.position w.position)
                  (price_at n w pool).0
                ≡ some fig)
            × (with_figures core f64_max cfg n pool (at_price n w (price_at n w pool).1) fig ≡ p))
  unfolding process on_pool with_pool
  process-cases n w p h = elim (Option-cases (pool_of borsh n.account n.fetched)) [
    | inl e ↦ inl (some_same (rw e at h))
    | inr (pool, e) ↦
        let (fig, k, g) =
          bind-some
            (figures_of core cfg.session pool (refreshed borsh n.position w.position)
              (price_at n w pool).0)
            (rw e at h) in
        inr (pool, fig, e, k, some_same g)
  ]
