-- ===== src/Backtest/Replay/Rows.antt =====
-- The rows of a replay against the ledger of its ticks: one row for each day, with the last price and
-- the fees so far.
use tick_liq.Prelude.{
  ==_refl, map-snoc, ap, some_same, sym, inr, inl, ◌∙◌, ℕ, suc, ◌≡◌, refl, ◌++◌, ◌∷◌, [], List, ltb,
  ◌==◌, if◌then◌else◌, some, bind-some, Bool-cases, map,
}
use tick_liq.Prelude.Result.{ok, ok_same}
use tick_liq.Prelude.Float.{Float, ◌⊕◌, lit}
use tick_liq.Prelude.Libm.{Libm}
use tick_liq.Backtest.{DayResult, BacktestResult, next_u32}
use tick_liq.Backtest.Replay.{
  replay_tick, DbBacktestInput, PoolTickRow, Replay, ui_price, fees_step, run_db_backtest,
  replay_from, finish, initial, flush_day, before_signal, day_row,
}
use tick_liq.Backtest.Replay.Frame.{
  before_signal-first, before_signal-next, before_signal-same, initial-IsInitial, IsInitial,
  before_signal-fees, before_signal-at, IsDecided, replay_tick-IsDecided,
}
use mathlib.Core.List.{append-nil}

module _ {ℓ} {F : Type ℓ} ⦃f : Float F⦄ ⦃m : Libm F⦄ where
  -- The ledger: each tick with the fees up to it. A tick adds the fees of the growth since the tick before
  -- it, unless the pool has no liquidity.
  abbrev pub fees_after : DbBacktestInput F → PoolTickRow → F → PoolTickRow → F
  fees_after input before fees t =
      if ltb 0 t.liquidity
      then fees ⊕ fees_step input before.fee_growth_global_a before.fee_growth_global_b t
      else fees

  pub ledger : DbBacktestInput F → PoolTickRow → F → List PoolTickRow → List (PoolTickRow × F)
  ledger input before fees [] = []
  ledger input before fees (t ∷ ts) =
      let total = fees_after input before fees t in (t, total) ∷ ledger input t total ts

  -- The entries whose successor is on another day, and the last one.
  pub last_of_days : PoolTickRow × F → List (PoolTickRow × F) → List (PoolTickRow × F)
  last_of_days e [] = e ∷ []
  last_of_days e (e' ∷ es) =
      let rest = last_of_days e' es in if e'.0.date == e.0.date then rest else e ∷ rest

  abbrev pub key : DayResult F → ℕ × F × F
  key row = (row.day, row.price, row.cumulative_fees_usd)

  -- The entries as rows, numbered from the successor of `n`.
  pub numbered : DbBacktestInput F → ℕ → List (PoolTickRow × F) → List (ℕ × F × F)
  numbered input n [] = []
  numbered input n (e ∷ es) = (next_u32 n, ui_price input e.0, e.1) ∷ numbered input (next_u32 n) es

  -- The state after the tick `t`.
  record IsAfter (input : DbBacktestInput F) (t : PoolTickRow) (s : Replay F) : Type ℓ where
    price : s.last_price ≡ ui_price input t
    date : s.current_day_date ≡ t.date
    growth_a : s.prev_fg_a ≡ t.fee_growth_global_a
    growth_b : s.prev_fg_b ≡ t.fee_growth_global_b

  replay_tick-IsAfter :
      (input : DbBacktestInput F) (i : ℕ) (t : PoolTickRow) (s s' : Replay F)
      → IsDecided input t (before_signal input i t s) s'
      → IsAfter input t s'
  replay_tick-IsAfter input i t s s' d =
      let at = before_signal-at input i t s in
      record {
        price = d.price;
        date = d.date ∙ at.0;
        growth_a = d.growth_a ∙ at.1;
        growth_b = d.growth_b ∙ at.2;
      }

  step-fees :
      (input : DbBacktestInput F) (i : ℕ) (before t : PoolTickRow) (s s' : Replay F)
      → IsAfter input before s
      → IsDecided input t (before_signal input (suc i) t s) s'
      → s'.cumulative_fees ≡ fees_after input before s.cumulative_fees t
  step-fees input i before t s s' a d =
      d.fees ∙ before_signal-fees input i t s ∙ rw (a.growth_a, a.growth_b) refl

  -- The rows so far, then those that the rest of the ledger gives.
  expected : DbBacktestInput F → PoolTickRow → Replay F → F → List PoolTickRow → List (ℕ × F × F)
  expected input t s fees ts =
      map key s.day_results
      ++ numbered input s.current_day_num (last_of_days (t, fees) (ledger input t fees ts))

  step-expected :
      (input : DbBacktestInput F) (i : ℕ) (before t : PoolTickRow) (s s' : Replay F) (fees : F)
      (ts : List PoolTickRow)
      → IsAfter input before s
      → IsDecided input t (before_signal input (suc i) t s) s'
      → expected input t s' fees ts
        ≡ map key s.day_results
          ++ numbered input s.current_day_num
              (last_of_days (before, s.cumulative_fees) ((t, fees) ∷ ledger input t fees ts))
  unfolding expected last_of_days numbered day_row
  step-expected input i before t s s' fees ts a d = elim (Bool-cases (t.date == before.date)) [
    | inl e ↦
        let p = before_signal-same input (suc i) t s (rw a.date e) in
        rw (e, d.results ∙ p.0, d.number ∙ p.1) refl
    | inr e ↦
        let p = before_signal-next input (suc i) t s (rw a.date e) in
        rw (e, d.results ∙ p.0, d.number ∙ p.1)
          (map-snoc key s.day_results (day_row s) _ ∙ rw a.price refl)
  ]

  finish-expected :
      (input : DbBacktestInput F) (t : PoolTickRow) (s : Replay F)
      → IsAfter input t s
      → map key (finish input s).days ≡ expected input t s s.cumulative_fees []
  unfolding finish flush_day expected ledger last_of_days numbered day_row
  finish-expected input t s a =
      sym (append-nil _) ∙ map-snoc key s.day_results (day_row s) [] ∙ rw a.price refl

  replay_from-expected :
      (input : DbBacktestInput F) (i : ℕ) (t : PoolTickRow) (ts : List PoolTickRow)
      (s s' : Replay F)
      → IsAfter input t s
      → replay_from input (suc i) ts s ≡ some s'
      → map key (finish input s').days ≡ expected input t s s.cumulative_fees ts
  unfolding replay_from expected ledger
  replay_from-expected input i t [] s s' a h = rw (sym (some_same h)) (finish-expected input t s a)
  replay_from-expected input i t (t' ∷ ts) s s' a h =
      let tick = bind-some (replay_tick input (suc i) t' s) h in
      let d = replay_tick-IsDecided input (suc i) t' s tick.0 tick.1 in
      let after = replay_tick-IsAfter input (suc i) t' s tick.0 d in
      let fees = step-fees input i t t' s tick.0 a d in
      replay_from-expected input (suc i) t' ts tick.0 s' after tick.2
      ∙ ap (λ x. expected input t' tick.0 x ts) fees
      ∙ step-expected input i t t' s tick.0 _ ts a d

  first-expected :
      (input : DbBacktestInput F) (t : PoolTickRow) (s s' : Replay F) (ts : List PoolTickRow)
      → IsInitial input t s
      → IsDecided input t (before_signal input 0 t s) s'
      → expected input t s' s'.cumulative_fees ts
        ≡ numbered input 0 (last_of_days (t, lit 0) (ledger input t (lit 0) ts))
  unfolding expected
  first-expected input t s s' ts k d =
      let p = before_signal-same input 0 t s (rw k.date (==_refl t.date)) in
      rw
        (
          d.results ∙ p.0 ∙ k.results,
          d.number ∙ p.1 ∙ k.number,
          d.fees ∙ before_signal-first input t s ∙ k.fees,
        )
        refl

  -- The rows of a replay are the last entries of the ledger on each day, in order and numbered from 1 as
  -- `u32`: the day's last price, and the fees of all ticks up to it. Neither the range of the position nor
  -- its rebalances have a say in these columns.
  pub run_db_backtest-rows :
      (input : DbBacktestInput F) (first : PoolTickRow) (rest : List PoolTickRow)
      (r : BacktestResult F)
      → run_db_backtest input (first ∷ rest) ≡ some (ok r)
      → map key r.days
        ≡ numbered input 0 (last_of_days (first, lit 0) (ledger input first (lit 0) rest))
  unfolding run_db_backtest replay_from
  run_db_backtest-rows input first rest r h =
      let start = bind-some (initial input first) h in
      let end = bind-some (replay_from input 0 (first ∷ rest) start.0) start.2 in
      let tick = bind-some (replay_tick input 0 first start.0) end.1 in
      let d = replay_tick-IsDecided input 0 first start.0 tick.0 tick.1 in
      rw (sym (ok_same (some_same end.2))) (
        replay_from-expected input 0 first rest tick.0 end.0
          (replay_tick-IsAfter input 0 first start.0 tick.0 d) tick.2
        ∙ first-expected input first start.0 tick.0 rest
            (initial-IsInitial input first start.0 start.1) d)
