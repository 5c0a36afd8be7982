-- ===== src/Watch/Decide/Approved.antt =====
-- The approval of a rebalance: `on_approval`, the end of a tick in `src/main.rs`.
use tick_liq.Watch.State.{unapproved, End, submitted, Notification, WatchConfig, Watcher}
use tick_liq.Prelude.Float.{Float}
use tick_liq.Prelude.{◌≢◌, Bool, ◌&&◌, true, refl, arith, false, ◌≡◌}
use tick_liq.Watch.Decide.{on_approval, approval}
use tick_liq.Shadow.Gate.{Submission, submit}
use tick_liq.Watch.Figures.{Figures}
use tick_liq.Orca.Layout.{WhirlpoolPosition, WhirlpoolPool}
use Prim.Native.String.{String}
use tick_liq.Watch.Gate.Cleared.{IsCleared, on_tables-IsCleared}

unapproved_ne {ℓ} :
    {F : Type ℓ} → {r : String} {s : Submission} → ◌≢◌ {A = End F} (unapproved r) (submitted s)
unapproved_ne h = cc

module _ {ℓ} {F : Type ℓ} ⦃f : Float F⦄ {Key : Type 0} where
  module _ (cfg : WatchConfig F) (n : Notification F) (fig : Figures F)
      (pool : WhirlpoolPool Key) where
    pub approval-approved :
        (position : WhirlpoolPosition Key)
        → (approval cfg n fig pool position).0 ≡ true
        → cfg.telegram ≡ true
        → n.sent && n.approved ≡ true
    unfolding approval
    approval-approved position e t = ground arith

    pub on_approval_lem :
        (position : WhirlpoolPosition Key) (answer : Bool × String) (w : Watcher F Key)
        (reason : String) (s : Submission)
        → (on_approval cfg n fig pool position answer w reason).1 ≡ submitted s
        → (answer.0 ≡ true) × (submit cfg.guard ≡ s)
    unfolding on_approval submit
    on_approval_lem position (true, r) w reason s e = (refl, cc)
    on_approval_lem position (false, r) w reason s e = absurd (unapproved_ne e)

    pub on_approval-watcher :
        (position : WhirlpoolPosition Key) (answer : Bool × String) (w : Watcher F Key)
        (reason : String)
        → ((on_approval cfg n fig pool position answer w reason).0.monitor ≡ w.monitor)
          × ((on_approval cfg n fig pool position answer w reason).0.position ≡ w.position)
          × (IsCleared w.monitor w.tables
              → IsCleared w.monitor
                  ((on_approval cfg n fig pool position answer w reason).0.tables))
    unfolding on_approval
    on_approval-watcher position (true, r) w reason =
        (refl, refl, on_tables-IsCleared w.monitor _ w.tables)
    on_approval-watcher position (false, r) w reason =
        (refl, refl, on_tables-IsCleared w.monitor _ w.tables)
