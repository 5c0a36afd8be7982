-- ===== src/Backtest/Gbm/Rows.antt =====
-- The rows of a simulated backtest: one for each day, with the fees of the days in range.
use tick_liq.Prelude.{
  ℕ, zero, suc, ◌%◌, ◌≡◌, refl, sym, ap, ◌∙◌, ◌++◌, ◌∷◌, [], List, Bool, true, false, if◌then◌else◌,
  some, bind-some, some_same, All, map,
}
use tick_liq.Prelude.Word.{u32_mod}
use tick_liq.Prelude.Float.{◌⊗◌, Float, ◌⊕◌, lit}
use tick_liq.Prelude.Libm.{Libm}
use tick_liq.Math.Il.{compute_il}
use tick_liq.Math.Price.{price_to_tick}
use tick_liq.Backtest.{DayResult, BacktestResult, next_u32}
use tick_liq.Backtest.Totals.{IsTotal, count_in_range, count-snoc, IsNet}
use tick_liq.Backtest.Gbm.{
  last_or_zero, BacktestParams, Simulation, signal, recentre, close_day, day_row, simulate_day,
  move_price, accrue, is_in_range, simulate, initial, finish, run, daily_fees,
}
use mathlib.Core.List.{append-nil, append_assoc}
use mathlib.Core.Path.{subst}

-- The numbers of the next `left` days.
abbrev pub days_from : ℕ → ℕ → List ℕ
days_from day zero = []
days_from day (suc left) = day ∷ days_from (suc day) left

module _ {ℓ} {F : Type ℓ} ⦃f : Float F⦄ ⦃m : Libm F⦄ where
  -- The signal leaves these alone.
  record IsSame (s s' : Simulation F) : Type ℓ where
    fees : s'.cumulative_fees ≡ s.cumulative_fees
    in_range : s'.days_in_range ≡ s.days_in_range
    results : s'.day_results ≡ s.day_results

  choice-IsSame : (b : Bool) (u : F) (s : Simulation F) → IsSame s (if b then recentre u s else s)
  unfolding recentre
  choice-IsSame true u s = record { fees = refl; in_range = refl; results = refl }
  choice-IsSame false u s = record { fees = refl; in_range = refl; results = refl }

  signal-IsSame :
      (params : BacktestParams F) (net u : F) (s s' : Simulation F)
      → signal params net u s ≡ some s'
      → IsSame s s'
  unfolding signal
  signal-IsSame params net u s s' h =
      let current = bind-some (price_to_tick _ _) h in
      let lower = bind-some (price_to_tick _ _) current.2 in
      let upper = bind-some (price_to_tick _ _) lower.2 in
      rw (sym (some_same upper.2)) (choice-IsSame _ u s)

  maybe_signal-IsSame :
      (params : BacktestParams F) (b : Bool) (net u : F) (s s' : Simulation F)
      → (if b then signal params net u s else some s) ≡ some s'
      → IsSame s s'
  maybe_signal-IsSame params true net u s s' h = signal-IsSame params net u s s' h
  maybe_signal-IsSame params false net u s s' h =
      rw (sym (some_same h)) record { fees = refl; in_range = refl; results = refl }

  -- One day, from the state before it to the state after it.
  record IsDay (params : BacktestParams F) (day : ℕ) (s s' : Simulation F) : Type ℓ where
    row : DayResult F
    results : s'.day_results ≡ s.day_results ++ row ∷ []
    number : row.day ≡ day
    net : IsNet row
    earned :
        row.cumulative_fees_usd
        ≡ s.cumulative_fees ⊕ (if row.in_range then daily_fees params else lit 0)
    kept : s'.cumulative_fees ≡ row.cumulative_fees_usd
    counted :
        s'.days_in_range ≡ (if row.in_range then next_u32 s.days_in_range else s.days_in_range)

  simulate_day-IsDay :
      (params : BacktestParams F) (day : ℕ) (s s' : Simulation F)
      → simulate_day params day s ≡ some s'
      → IsDay params day s s'
  unfolding simulate_day close_day day_row accrue move_price is_in_range
  simulate_day-IsDay params day s s' h =
      let loss = bind-some (compute_il _ _ _ _) h in
      let moved = accrue params (move_price params s) in
      let u = loss.0 ⊗ params.initial_value_usd in
      let row = day_row day u moved in
      let after =
        bind-some
          (if params.strategy_rebalance then signal params row.net_pnl_usd u moved else some moved)
          loss.2 in
      let same = maybe_signal-IsSame params params.strategy_rebalance _ u moved after.0 after.1 in
      rw (sym (some_same after.2)) record {
        row = row;
        results = rw same.results refl;
        number = refl;
        net = refl;
        earned = refl;
        kept = same.fees;
        counted = same.in_range;
      }

  -- The sums of the fees of the days in range, day by day.
  abbrev pub running : F → F → List Bool → List F
  running daily total [] = []
  running daily total (b ∷ bs) =
      let next = total ⊕ (if b then daily else lit 0) in next ∷ running daily next bs

  -- The rows that a run of days adds.
  record IsRun (params : BacktestParams F) (done left : ℕ) (s s' : Simulation F) : Type ℓ where
    rows : List (DayResult F)
    results : s'.day_results ≡ s.day_results ++ rows
    numbers : map (λ row. row.day) rows ≡ days_from (suc done) left
    net : All IsNet rows
    earned :
        map (λ row. row.cumulative_fees_usd) rows
        ≡ running (daily_fees params) s.cumulative_fees (map (λ row. row.in_range) rows)

  cons-IsRun :
      (params : BacktestParams F) (done left : ℕ) (s s' s'' : Simulation F)
      → IsDay params (suc done) s s'
      → IsRun params (suc done) left s' s''
      → IsRun params done (suc left) s s''
  cons-IsRun params done left s s' s'' d r = record {
    rows = d.row ∷ r.rows;
    results =
        r.results
        ∙ ap (λ x. x ++ r.rows) d.results
        ∙ append_assoc s.day_results (d.row ∷ []) r.rows;
    numbers = rw (d.number, r.numbers) refl;
    net = (d.net, r.net);
    earned = rw (d.earned, r.earned, d.kept ∙ d.earned) refl;
  }

  simulate-IsRun :
      (params : BacktestParams F) (left done : ℕ) (s s' : Simulation F)
      → simulate params left done s ≡ some s'
      → IsRun params done left s s'
  unfolding simulate
  simulate-IsRun params zero done s s' h = rw (sym (some_same h)) record {
    rows = [];
    results = sym (append-nil s.day_results);
    numbers = refl;
    net = tt;
    earned = refl;
  }
  simulate-IsRun params (suc left) done s s' h =
      let day = bind-some (simulate_day params (suc done) s) h in
      cons-IsRun params done left s day.0 s' (simulate_day-IsDay params (suc done) s day.0 day.1)
        (simulate-IsRun params left (suc done) day.0 s' day.2)

  -- A simulation of `days` days that returns has the rows 1 to `days`, in order. The fees of each row are
  -- the sum, day by day, of the fixed fees of a day for each day whose row is in range, and of 0 for
  -- the others: no rebalance and no loss has a say in them.
  pub run-rows :
      (params : BacktestParams F) (seed : ℕ) (r : BacktestResult F)
      → run params seed ≡ some r
      → (map (λ row. row.day) r.days ≡ days_from 1 params.days)
        × (map (λ row. row.cumulative_fees_usd) r.days
            ≡ running (daily_fees params) (lit 0) (map (λ row. row.in_range) r.days))
  unfolding run finish initial
  run-rows params seed r h =
      let end = bind-some (simulate params params.days 0 (initial params seed)) h in
      let rows = simulate-IsRun params params.days 0 (initial params seed) end.0 end.1 in
      rw (sym (some_same end.2), rows.results) (rows.numbers, rows.earned)

  simulate-count :
      (params : BacktestParams F) (left done : ℕ) (s s' : Simulation F)
      → simulate params left done s ≡ some s'
      → s.days_in_range ≡ count_in_range s.day_results % u32_mod
      → s'.days_in_range ≡ count_in_range s'.day_results % u32_mod
  unfolding simulate
  simulate-count params zero done s s' h k = rw (sym (some_same h)) k
  simulate-count params (suc left) done s s' h k =
      let day = bind-some (simulate_day params (suc done) s) h in
      let d = simulate_day-IsDay params (suc done) s day.0 day.1 in
      simulate-count params left (suc done) day.0 s' day.2
        (rw (d.results, d.counted) (count-snoc s.days_in_range s.day_results d.row k))

  last_or_zero-snoc :
      (g : DayResult F → F) (rows : List (DayResult F)) (row : DayResult F)
      → last_or_zero g (rows ++ row ∷ []) ≡ g row
  last_or_zero-snoc g [] row = refl
  last_or_zero-snoc g (x ∷ []) row = refl
  last_or_zero-snoc g (x ∷ y ∷ rows) row = last_or_zero-snoc g (y ∷ rows) row

  All-last :
      (P : DayResult F → Type ℓ) (rows : List (DayResult F)) (row : DayResult F)
      → All P (rows ++ row ∷ [])
      → P row
  All-last P [] row h = h.0
  All-last P (x ∷ rows) row h = All-last P rows row h.1

  -- The totals of a simulation are those of its last row, the net is in each row the sum of fees and loss,
  -- and `days_in_range` counts the rows in range, as `u32`.
  pub run-IsTotal :
      (params : BacktestParams F) (seed : ℕ) (r : BacktestResult F) (rows : List (DayResult F))
      (row : DayResult F)
      → run params seed ≡ some r
      → r.days ≡ rows ++ row ∷ []
      → IsTotal r row × All IsNet r.days × (r.days_in_range ≡ count_in_range r.days % u32_mod)
  unfolding run finish initial
  run-IsTotal params seed r rows row h last =
      let end = bind-some (simulate params params.days 0 (initial params seed)) h in
      let runs = simulate-IsRun params params.days 0 (initial params seed) end.0 end.1 in
      let same = some_same end.2 in
      let ends : end.0.day_results ≡ rows ++ row ∷ [] = ap (λ x. x.days) same ∙ last in
      let net : All IsNet end.0.day_results = rw runs.results runs.net in
      let sum : IsNet row = All-last IsNet rows row (subst (All IsNet) ends net) in
      rw (sym same) (
        (
          rw ends (last_or_zero-snoc _ rows row),
          rw ends (last_or_zero-snoc _ rows row),
          rw
              (
                ends,
                last_or_zero-snoc (λ d. d.cumulative_fees_usd) rows row,
                last_or_zero-snoc (λ d. d.il_usd) rows row,
              )
              (sym sum),
        ),
        net,
        simulate-count params params.days 0 (initial params seed) end.0 end.1 refl,
      )
