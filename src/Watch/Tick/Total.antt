-- ===== src/Watch/Tick/Total.antt =====
-- The watch loop returns a pass for every notification.
use tick_liq.Prelude.Float.{IsOrdered, Float}
use tick_liq.Prelude.Libm.{Libm}
use tick_liq.Math.Amounts.{WhirlpoolsCore}
use tick_liq.Watch.State.{Pass, Watcher, Notification, WatchConfig}
use tick_liq.Prelude.Borsh.{Borsh}
use tick_liq.Watch.Figures.{bound_price, Figures, figures_of}
use tick_liq.Orca.Layout.{WhirlpoolPosition, WhirlpoolPool}
use tick_liq.Watch.Tick.{refreshed, pool_of, with_pool, on_pool, process, run_watch}
use tick_liq.Prelude.{
  refl, [], bind-Returns, suc, inr, inl, ap, ◌∷◌, Option-cases, length, some, ◌≡◌, List,
}
use tick_liq.Math.Il.{compute_il-IsLoss}

module _ {ℓ} {F : Type ℓ} ⦃f : Float F⦄ ⦃m : Libm F⦄ {Key : Type 0} (laws : IsOrdered F)
    (core : WhirlpoolsCore) (cfg : WatchConfig F) where
  figures_of-Returns :
      (pool : WhirlpoolPool Key) (position : WhirlpoolPosition Key) (price : F)
      → (fig : Figures F) × (figures_of core cfg.session pool position price ≡ some fig)
  unfolding figures_of
  figures_of-Returns pool position price =
      let (il, e, le) =
        compute_il-IsLoss laws cfg.session.entry_price price
          (bound_price core cfg.session position.tick_lower_index)
          (bound_price core cfg.session position.tick_upper_index) in
      bind-Returns _ (λ il. _) (il, e) (λ il. (_, refl))

  module _ (borsh : Borsh Key) (f64_max : F) where
    -- A notification is always answered by a pass.
    pub process-Returns :
        (n : Notification F) (w : Watcher F Key)
        → (p : Pass F Key) × (process borsh core f64_max cfg n w ≡ some p)
    unfolding process on_pool with_pool
    process-Returns n w =
        let position = refreshed borsh n.position w.position in
        elim (Option-cases (pool_of borsh n.account n.fetched)) [
          | inl e ↦ rw e (_, refl)
          | inr (pool, e) ↦
              rw e
                (bind-Returns _ (λ fig. _) (figures_of-Returns pool position _) (λ fig. (_, refl)))
        ]

    -- Over numbers with the order of IEEE 754, the loop panics on no sequence of notifications, whatever
    -- the accounts, the prices and the writes are: it makes exactly one pass for each notification.
    pub run_watch-Returns :
        (ns : List (Notification F)) (w : Watcher F Key)
        → (ps : List (Pass F Key)) × (run_watch borsh core f64_max cfg ns w ≡ some ps)
          × (length ps ≡ length ns)
    unfolding run_watch
    run_watch-Returns [] w = ([], refl, refl)
    run_watch-Returns (n ∷ ns) w =
        let (p, e) = process-Returns n w in
        let (ps, k, l) = run_watch-Returns ns p.watcher in (p ∷ ps, rw (e, k) refl, ap suc l)
