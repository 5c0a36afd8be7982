-- ===== src/Backtest/Replay/Frame.antt =====
-- What one pass of the replay's loop changes: the part before the signal, and the signal itself, which
-- leaves the days and the fees alone.
use tick_liq.Prelude.{
  lt→ltb, ==_iff, inr, sym, inl, some_same, Bool, if◌then◌else◌, ℕ, suc, ◌≡◌, refl, arith, true,
  false, ◌++◌, ◌∷◌, [], ltb, ◌==◌, some, bind-some, Bool-cases,
}
use tick_liq.Prelude.Float.{lit, Float, ◌⊕◌, ◌⊗◌}
use tick_liq.Prelude.Libm.{Libm}
use tick_liq.Math.Il.{compute_il}
use tick_liq.Backtest.{next_u32}
use tick_liq.Backtest.Replay.{
  initial, replay_tick, before_signal, after_signal, day_row, accrue, mark, day_boundary, flush_day,
  recentre, DbBacktestInput, PoolTickRow, Replay, ui_price, fees_step,
}
use tick_liq.Math.Price.{price_to_tick}
use mathlib.Core.Path.{subst}

module _ {ℓ} {F : Type ℓ} ⦃f : Float F⦄ ⦃m : Libm F⦄ where
  -- From the state that the signal sees to the state after it.
  pub record IsDecided (input : DbBacktestInput F) (t : PoolTickRow) (s s' : Replay F)
      : Type ℓ where
    pub fees : s'.cumulative_fees ≡ s.cumulative_fees
    pub in_range : s'.days_in_range ≡ s.days_in_range
    pub growth_a : s'.prev_fg_a ≡ s.prev_fg_a
    pub growth_b : s'.prev_fg_b ≡ s.prev_fg_b
    pub number : s'.current_day_num ≡ s.current_day_num
    pub date : s'.current_day_date ≡ s.current_day_date
    pub results : s'.day_results ≡ s.day_results
    pub price : s'.last_price ≡ ui_price input t

  seen : DbBacktestInput F → PoolTickRow → F → Replay F → Replay F
  seen input t u s = record s { last_price = ui_price input t; last_unrealized_il_usd = u }

  recentre-IsDecided :
      (input : DbBacktestInput F) (t : PoolTickRow) (u : F) (s s' : Replay F)
      → recentre input (ui_price input t) u (seen input t u s) ≡ some s'
      → IsDecided input t s s'
  unfolding recentre seen
  recentre-IsDecided input t u s s' h =
      let lower = bind-some (price_to_tick _ _) h in
      let upper = bind-some (price_to_tick _ _) lower.2 in
      subst (IsDecided input t s) (some_same upper.2) record {
        fees = refl;
        in_range = refl;
        growth_a = refl;
        growth_b = refl;
        number = refl;
        date = refl;
        results = refl;
        price = refl;
      }

  branch-IsDecided :
      (input : DbBacktestInput F) (t : PoolTickRow) (u : F) (s s' : Replay F) (b : Bool)
      → (if b
          then recentre input (ui_price input t) u (seen input t u s)
          else some (seen input t u s))
        ≡ some s'
      → IsDecided input t s s'
  unfolding seen
  branch-IsDecided input t u s s' true h = recentre-IsDecided input t u s s' h
  branch-IsDecided input t u s s' false h = subst (IsDecided input t s) (some_same h) record {
    fees = refl;
    in_range = refl;
    growth_a = refl;
    growth_b = refl;
    number = refl;
    date = refl;
    results = refl;
    price = refl;
  }

  -- The signal moves no range, or the range is centred.
  after_signal-IsDecided :
      (input : DbBacktestInput F) (t : PoolTickRow) (u : F) (s s' : Replay F)
      → after_signal input t u s ≡ some s'
      → IsDecided input t s s'
  unfolding after_signal recentre seen
  after_signal-IsDecided input t u s s' h = branch-IsDecided input t u s s' _ h

  pub replay_tick-IsDecided :
      (input : DbBacktestInput F) (i : ℕ) (t : PoolTickRow) (s s' : Replay F)
      → replay_tick input i t s ≡ some s'
      → IsDecided input t (before_signal input i t s) s'
  unfolding replay_tick
  replay_tick-IsDecided input i t s s' h =
      let priced = bind-some (compute_il _ _ _ _) h in
      after_signal-IsDecided input t (priced.0 ⊗ input.initial_value_usd) _ s' priced.2

  pub before_signal-same :
      (input : DbBacktestInput F) (i : ℕ) (t : PoolTickRow) (s : Replay F)
      → (t.date == s.current_day_date) ≡ true
      → ((before_signal input i t s).day_results ≡ s.day_results)
        × ((before_signal input i t s).current_day_num ≡ s.current_day_num)
        × ((before_signal input i t s).days_in_range ≡ s.days_in_range)
  unfolding before_signal accrue mark day_boundary
  before_signal-same input i t s h = rw h (refl, refl, refl)

  pub before_signal-next :
      (input : DbBacktestInput F) (i : ℕ) (t : PoolTickRow) (s : Replay F)
      → (t.date == s.current_day_date) ≡ false
      → ((before_signal input i t s).day_results ≡ s.day_results ++ day_row s ∷ [])
        × ((before_signal input i t s).current_day_num ≡ next_u32 s.current_day_num)
        × ((before_signal input i t s).days_in_range
            ≡ (if s.day_was_in_range then next_u32 s.days_in_range else s.days_in_range))
  unfolding before_signal accrue mark day_boundary flush_day
  before_signal-next input i t s h = rw h (refl, refl, refl)

  day_boundary-fees :
      (date : ℕ) (s : Replay F)
      → ((day_boundary date s).cumulative_fees ≡ s.cumulative_fees)
        × ((day_boundary date s).prev_fg_a ≡ s.prev_fg_a)
        × ((day_boundary date s).prev_fg_b ≡ s.prev_fg_b)
  unfolding day_boundary flush_day
  day_boundary-fees date s = elim (Bool-cases (date == s.current_day_date)) [
    | inl e ↦ rw e (refl, refl, refl)
    | inr e ↦ rw e (refl, refl, refl)
  ]

  pub before_signal-fees :
      (input : DbBacktestInput F) (i : ℕ) (t : PoolTickRow) (s : Replay F)
      → (before_signal input (suc i) t s).cumulative_fees ≡ (
          if ltb 0 t.liquidity
          then s.cumulative_fees ⊕ fees_step input s.prev_fg_a s.prev_fg_b t
          else s.cumulative_fees)
  unfolding before_signal accrue mark day_boundary flush_day
  before_signal-fees input i t s =
      let kept = day_boundary-fees t.date s in rw (kept.0, kept.1, kept.2, positive) refl
    where
      positive : ltb 0 (suc i) ≡ true
      positive = lt→ltb 0 (suc i) (omega arith)

  pub before_signal-at :
      (input : DbBacktestInput F) (i : ℕ) (t : PoolTickRow) (s : Replay F)
      → ((before_signal input i t s).current_day_date ≡ t.date)
        × ((before_signal input i t s).prev_fg_a ≡ t.fee_growth_global_a)
        × ((before_signal input i t s).prev_fg_b ≡ t.fee_growth_global_b)
  unfolding before_signal accrue mark day_boundary flush_day
  before_signal-at input i t s = elim (Bool-cases (t.date == s.current_day_date)) [
    | inl e ↦ rw e (sym ((==_iff t.date s.current_day_date).0 e), refl, refl)
    | inr e ↦ rw e (refl, refl, refl)
  ]

  pub record IsInitial (input : DbBacktestInput F) (first : PoolTickRow) (s : Replay F)
      : Type ℓ where
    pub fees : s.cumulative_fees ≡ lit 0
    pub in_range : s.days_in_range ≡ 0
    pub number : s.current_day_num ≡ 0
    pub date : s.current_day_date ≡ first.date
    pub results : s.day_results ≡ []

  pub initial-IsInitial :
      (input : DbBacktestInput F) (first : PoolTickRow) (s : Replay F)
      → initial input first ≡ some s
      → IsInitial input first s
  unfolding initial
  initial-IsInitial input first s h =
      let lower = bind-some (price_to_tick _ _) h in
      let upper = bind-some (price_to_tick _ _) lower.2 in
      subst (IsInitial input first) (some_same upper.2)
        record { fees = refl; in_range = refl; number = refl; date = refl; results = refl }

  pub before_signal-first :
      (input : DbBacktestInput F) (t : PoolTickRow) (s : Replay F)
      → (before_signal input 0 t s).cumulative_fees ≡ s.cumulative_fees
  unfolding before_signal accrue mark
  before_signal-first input t s = (day_boundary-fees t.date s).0
