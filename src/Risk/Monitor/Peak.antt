-- ===== src/Risk/Monitor/Peak.antt =====
-- The high-water mark over a session of ticks, with the order of `f64` as IEEE 754 has it.
use tick_liq.Risk.Monitor.{raised_peak, RiskMonitor, evaluate}
use tick_liq.Risk.Monitor.Decision.{evaluate-IsEffect}
use tick_liq.Risk.Monitor.Latch.{halted_iff_breached, Tick, evaluate_all}
use tick_liq.Prelude.Float.{◌≼◌, IsNumber, IsOrdered, Float}
use tick_liq.Prelude.{[], ◌∷◌, arith, true, false, ◌≡◌, All, List}

module _ {ℓ} {F : Type ℓ} ⦃f : Float F⦄ (laws : IsOrdered F) where
  open laws use {number_of_le, le_trans, lt-eq-not-le, le_total}

  raised_peak_bounds :
      (peak net : F)
      → IsNumber peak
      → IsNumber net
      → ((peak ≼ raised_peak peak net) ≡ true) × ((net ≼ raised_peak peak net) ≡ true)
  raised_peak_bounds peak net hp hn =
      ground (arith, lt-eq-not-le peak net hp hn, le_total peak net hp hn)

  not_halted_before :
      (m : RiskMonitor F) (ts : List (Tick F))
      → (evaluate_all m ts).0.state.halt_flag ≡ false
      → m.state.halt_flag ≡ false
  not_halted_before m ts h = ground (arith, halted_iff_breached m ts)

  -- The peak after a session that does not end halted is at least the peak before it and every net
  -- P&L of its ticks, if none of these is NaN.
  peak_bounds :
      (m : RiskMonitor F) (ts : List (Tick F))
      → IsNumber m.state.peak_pnl
      → All (λ t. IsNumber t.snap.net_pnl) ts
      → (evaluate_all m ts).0.state.halt_flag ≡ false
      → let peak = (evaluate_all m ts).0.state.peak_pnl in
        ((m.state.peak_pnl ≼ peak) ≡ true) × All (λ t. (t.snap.net_pnl ≼ peak) ≡ true) ts
  unfolding evaluate_all
  peak_bounds m [] hp hs h = (hp, tt)
  peak_bounds m (t ∷ ts) hp (hn, hs) h =
      let m' = (evaluate m t.snap t.margin t.now).0 in
      let running = not_halted_before m (t ∷ ts) h in
      let effect = (evaluate-IsEffect m t.snap t.margin t.now).peak in
      let raised : m'.state.peak_pnl ≡ raised_peak m.state.peak_pnl t.snap.net_pnl =
        ground (arith, effect) in
      let (old, new) = raised_peak_bounds m.state.peak_pnl t.snap.net_pnl hp hn in
      let old' : (m.state.peak_pnl ≼ m'.state.peak_pnl) ≡ true = rw raised old in
      let new' : (t.snap.net_pnl ≼ m'.state.peak_pnl) ≡ true = rw raised new in
      let (up, rest) = peak_bounds m' ts (number_of_le _ _ old').1 hs h in
      (le_trans _ _ _ old' up, (le_trans _ _ _ new' up, rest))
