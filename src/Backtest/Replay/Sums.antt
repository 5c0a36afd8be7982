-- ===== src/Backtest/Replay/Sums.antt =====
-- The totals of a replay against its rows.
use tick_liq.Prelude.{
  inr, ◌∙◌, sym, inl, ℕ, suc, ◌%◌, ◌≡◌, refl, ◌++◌, ◌∷◌, [], List, ◌==◌, some, bind-some, some_same,
  Bool-cases, All, All-append,
}
use tick_liq.Prelude.Word.{u32_mod}
use tick_liq.Prelude.Result.{err_ne_ok, ok, ok_same}
use tick_liq.Prelude.Float.{Float}
use tick_liq.Prelude.Libm.{Libm}
use tick_liq.Backtest.{DayResult, BacktestResult}
use tick_liq.Backtest.Replay.{
  flush_day, day_row, initial, finish, replay_tick, before_signal, DbBacktestInput, PoolTickRow,
  Replay, run_db_backtest, replay_from,
}
use tick_liq.Backtest.Totals.{count_in_range, count-snoc, IsNet, IsTotal}
use tick_liq.Backtest.Replay.Frame.{
  before_signal-next, initial-IsInitial, IsDecided, replay_tick-IsDecided, before_signal-same,
}

module _ {ℓ} {F : Type ℓ} ⦃f : Float F⦄ ⦃m : Libm F⦄ where
  -- A list of rows and the counter of the days in range.
  record IsKept (rows : List (DayResult F)) (n : ℕ) : Type ℓ where
    net : All IsNet rows
    in_range : n ≡ count_in_range rows % u32_mod

  flush_day-IsKept :
      (s : Replay F)
      → IsKept s.day_results s.days_in_range
      → IsKept (flush_day s).day_results (flush_day s).days_in_range
  unfolding flush_day day_row
  flush_day-IsKept s k = record {
    net = All-append IsNet s.day_results (day_row s ∷ []) k.net (refl, tt);
    in_range = count-snoc s.days_in_range s.day_results (day_row s) k.in_range;
  }

  step-IsKept :
      (input : DbBacktestInput F) (i : ℕ) (t : PoolTickRow) (s s' : Replay F)
      → IsDecided input t (before_signal input i t s) s'
      → IsKept s.day_results s.days_in_range
      → IsKept s'.day_results s'.days_in_range
  unfolding flush_day
  step-IsKept input i t s s' d k = elim (Bool-cases (t.date == s.current_day_date)) [
    | inl e ↦ let p = before_signal-same input i t s e in rw (d.results ∙ p.0, d.in_range ∙ p.2) k
    | inr e ↦
        let p = before_signal-next input i t s e in
        rw (d.results ∙ p.0, d.in_range ∙ p.2) (flush_day-IsKept s k)
  ]

  replay_from-IsKept :
      (input : DbBacktestInput F) (i : ℕ) (ts : List PoolTickRow) (s s' : Replay F)
      → replay_from input i ts s ≡ some s'
      → IsKept s.day_results s.days_in_range
      → IsKept s'.day_results s'.days_in_range
  unfolding replay_from
  replay_from-IsKept input i [] s s' h k = rw (sym (some_same h)) k
  replay_from-IsKept input i (t ∷ ts) s s' h k =
      let tick = bind-some (replay_tick input i t s) h in
      let d = replay_tick-IsDecided input i t s tick.0 tick.1 in
      replay_from-IsKept input (suc i) ts tick.0 s' tick.2 (step-IsKept input i t s tick.0 d k)

  -- A replay that returns a result has a last row, and its totals are those of that row: the fees, the loss
  -- and the net of all. In each row the net is the sum of the other two, and `days_in_range` counts the
  -- rows that are in range, as `u32`.
  pub run_db_backtest-IsTotal :
      (input : DbBacktestInput F) (ticks : List PoolTickRow) (r : BacktestResult F)
      → run_db_backtest input ticks ≡ some (ok r)
      → ((rows : List (DayResult F)) × (row : DayResult F) × (r.days ≡ rows ++ row ∷ [])
          × IsTotal r row)
        × All IsNet r.days
        × (r.days_in_range ≡ count_in_range r.days % u32_mod)
  unfolding run_db_backtest finish flush_day day_row
  run_db_backtest-IsTotal input [] r h = absurd (err_ne_ok (some_same h))
  run_db_backtest-IsTotal input (first ∷ rest) r h =
      let start = bind-some (initial input first) h in
      let end = bind-some (replay_from input 0 (first ∷ rest) start.0) start.2 in
      let fresh = initial-IsInitial input first start.0 start.1 in
      let kept = flush_day-IsKept end.0 (
        replay_from-IsKept input 0 (first ∷ rest) start.0 end.0 end.1
          (rw (fresh.results, fresh.in_range) record { net = tt; in_range = refl })) in
      rw (sym (ok_same (some_same end.2)))
        ((end.0.day_results, day_row end.0, refl, (refl, refl, refl)), kept.net, kept.in_range)
