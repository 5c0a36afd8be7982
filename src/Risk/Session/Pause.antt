-- ===== src/Risk/Session/Pause.antt =====
-- Where the debounced write of the risk gate and the commands of the bot fall short of the table.
use tick_liq.Risk.Session.{
  store, command_memory, command, here, next, quiet, storing, idle, durable, changed, store_state,
  pause_memory, same_flag, pause_table, Durable, World, Reach, note_before, evaluate_tick,
  compare_after,
}
use tick_liq.Prelude.Float.{Float}
use tick_liq.Risk.Monitor.{RiskState, RiskMonitor, evaluate, PnlSnapshot}
use tick_liq.Prelude.{some, refl, false, true, ℕ, Option, ◌≡◌, Bool}
use Prim.Native.String.{String}
use tick_liq.Risk.Store.{put, put_self}
use mathlib.Core.Path.{subst}

same_flag_refl : (b : Bool) → same_flag b b ≡ true
same_flag_refl true = refl
same_flag_refl false = refl

module _ {ℓ} {F : Type ℓ} ⦃f : Float F⦄ where
  evaluate_halted_state :
      (m : RiskMonitor F) (snap : PnlSnapshot F) (margin : Option F) (now : ℕ)
      → m.state.halt_flag ≡ true
      → durable (evaluate m snap margin now).0.state ≡ durable m.state
  unfolding evaluate
  evaluate_halted_state m snap margin now h = rw h

  unchanged : (d : Durable F) → f.eq d.peak_pnl d.peak_pnl ≡ true → changed d d ≡ false
  unchanged d e =
      rw (
        e,
        same_flag_refl d.pause_flag,
        same_flag_refl d.halt_flag,
        same_flag_refl d.operator_pause,
      )

  -- A monitor that is halted, its peak being no NaN, asks for no write: a tick that meets it goes back
  -- to idle after its comparison. So a halt whose write failed is not written again.
  pub halt_not_rewritten :
      (w : World F) (snap : PnlSnapshot F) (margin : Option F) (now : ℕ)
      → w.monitor.state.halt_flag ≡ true
      → f.eq w.monitor.state.peak_pnl w.monitor.state.peak_pnl ≡ true
      → let before = durable w.monitor.state in
        (compare_after (evaluate_tick (note_before w) before snap margin now) before).phase ≡ idle
  unfolding note_before evaluate_tick compare_after
  halt_not_rewritten w snap margin now h e =
      rw (evaluate_halted_state w.monitor snap margin now h, unchanged (durable w.monitor.state) e)

  -- While the gate of a tick holds a clone of the state that is not paused, a /pause whose statement
  -- succeeds can be lost: there are steps after which the command is done and the memory is paused, but
  -- the row of the pool is not.
  pub pause_lost :
      (pool_addr : String) (w : World F) (s : RiskState F) (now : ℕ)
      → w.phase ≡ storing s
      → s.operator_pause ≡ false
      → s.pool_address ≡ pool_addr
      → w.bot ≡ quiet
      → (w' : World F) × Reach pool_addr w w'
        × (w'.bot ≡ quiet)
        × (w'.monitor.state.operator_pause ≡ true)
        × (w'.db pool_addr ≡ some (record s { updated_at = now }))
  unfolding pause_table pause_memory store_state
  pause_lost pool_addr w s now p off key q =
      let u = pause_table w pool_addr true true now in
      let v = pause_memory u true in
      let w' = store_state v true s now in
      (
        w',
        next (next (next here (command true true now q refl)) (command_memory true refl refl))
            (store true s now p refl),
        refl,
        refl,
        subst
            (λ k.
              put v.db s.pool_address (record s { updated_at = now }) k
              ≡ some (record s { updated_at = now }))
            key (put_self v.db s.pool_address (record s { updated_at = now })),
      )
