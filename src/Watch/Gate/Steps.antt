-- ===== src/Watch/Gate/Steps.antt =====
-- The risk gate of a tick is a path of the steps of Risk.Session, so that what every interleaving keeps
-- is kept by a pass.
use tick_liq.Risk.Session.{
  store_state, Reach, here, next, note, tick, compare, store, World, Phase, idle, noted, evaluated,
  storing, durable, note_before, evaluate_tick, compare_after,
}
use tick_liq.Prelude.Float.{Float}
use Prim.Native.String.{String}
use tick_liq.Watch.Gate.{store_if, run_gate}
use tick_liq.Prelude.{refl, ◌≡◌, ℕ, Option, Bool}
use tick_liq.Risk.Monitor.{evaluate, PnlSnapshot}

module _ {ℓ} {F : Type ℓ} ⦃f : Float F⦄ (pool_addr : String) where
  store_if-Reach :
      {w : World F} (w' : World F) (p : Phase F) (works : Bool) (now : ℕ)
      → w'.phase ≡ p
      → Reach pool_addr w w'
      → Reach pool_addr w (store_if w' p works now)
  unfolding store_if
  store_if-Reach w' idle works now e r = r
  store_if-Reach w' (noted before) works now e r = r
  store_if-Reach w' (evaluated before) works now e r = r
  store_if-Reach w' (storing s) works now e r = next r (store works s now e refl)

  -- From an idle world the risk gate takes the steps note, tick, compare and, where the durable state
  -- has changed, store, in this order.
  pub run_gate-Reach :
      (w : World F) (snap : PnlSnapshot F) (margin : Option F) (works : Bool) (now : ℕ)
      → w.phase ≡ idle
      → Reach pool_addr w (run_gate w snap margin works now)
  unfolding run_gate note_before evaluate_tick compare_after
  run_gate-Reach w snap margin works now e =
      let before = durable w.monitor.state in
      store_if-Reach _ _ works now refl (
        next (next (next here (note e refl)) (tick before snap margin now refl refl))
          (compare before refl refl))

module _ {ℓ} {F : Type ℓ} ⦃f : Float F⦄ where
  store_if-monitor :
      (w : World F) (p : Phase F) (works : Bool) (now : ℕ)
      → (store_if w p works now).monitor ≡ w.monitor
  unfolding store_if store_state
  store_if-monitor w idle works now = refl
  store_if-monitor w (noted before) works now = refl
  store_if-monitor w (evaluated before) works now = refl
  store_if-monitor w (storing s) works now = refl

  -- The monitor after the gate is the one that `evaluate` leaves.
  pub run_gate-monitor :
      (w : World F) (snap : PnlSnapshot F) (margin : Option F) (works : Bool) (now : ℕ)
      → (run_gate w snap margin works now).monitor ≡ (evaluate w.monitor snap margin now).0
  unfolding run_gate note_before evaluate_tick compare_after
  run_gate-monitor w snap margin works now = store_if-monitor _ _ works now
