-- ===== src/Backtest/Replay/Hold.antt =====
-- A replay whose rebalancing is off, the way the research sweep turns it off, is a hold.
use tick_liq.Prelude.{
  Option, ◌==◌, ℕ, suc, ◌≡◌, refl, sym, ◌∙◌, ap, if◌then◌else◌, Bool, true, false, some, bind-some,
  some_same, List, [], ◌∷◌, Bool-cases, inl, inr, All,
}
use tick_liq.Prelude.Int.{ℤ, negsuc}
use tick_liq.Prelude.Result.{ok, ok_same}
use tick_liq.Prelude.Float.{Float, ◌⊕◌, ◌⊗◌, ◌⊘◌, lit}
use tick_liq.Prelude.Libm.{Libm}
use tick_liq.Math.Il.{compute_il}
use tick_liq.Math.Price.{price_to_tick}
use tick_liq.Strategy.Signal.{is_rebalance, should_rebalance, RebalanceConfig}
use tick_liq.Strategy.Signal.Laws.{IsTick, near_edge_off}
use tick_liq.Backtest.{BacktestResult}
use tick_liq.Backtest.Replay.{
  DbBacktestInput, PoolTickRow, Replay, ui_price, ui_factor, run_db_backtest, replay_from,
  replay_tick, before_signal, after_signal, initial, finish, accrue, mark, day_boundary, flush_day,
}

abbrev pub last_tick : PoolTickRow → List PoolTickRow → PoolTickRow
last_tick t [] = t
last_tick t (u ∷ us) = last_tick u us

module _ {ℓ} {F : Type ℓ} ⦃f : Float F⦄ ⦃m : Libm F⦄ where
  -- The configuration of the sweep for a hold.
  pub record IsOff (config : RebalanceConfig F) : Type 0 where
    pub out_of_range : config.rebalance_out_of_range ≡ false
    pub near_edge : config.near_edge_ticks ≡ negsuc 999_999

  -- The range, the prices that it stands on, the rebalances and the realized loss.
  abbrev position : Replay F → ℤ × ℤ × F × F × F × ℕ × F
  position s = (
    s.tick_lower, s.tick_upper, s.cur_entry_price, s.cur_price_lower, s.cur_price_upper,
    s.total_rebalances, s.realized_il_usd,
  )

  -- The position is the one of the input, and nothing was realized.
  abbrev IsHeld : DbBacktestInput F → ℤ → ℤ → Replay F → Type ℓ
  IsHeld input lower upper s =
      position s ≡ (lower, upper, input.entry_price, input.price_lower, input.price_upper, 0, lit 0)

  no_rebalance :
      (t : PoolTickRow) (lower upper : ℤ) (net : F) (config : RebalanceConfig F)
      → IsTick t.tick_current
      → IsTick lower
      → IsTick upper
      → IsOff config
      → is_rebalance (should_rebalance t.tick_current lower upper net config) ≡ false
  no_rebalance t lower upper net config ht hl hu off =
      elim (Bool-cases (is_rebalance (should_rebalance t.tick_current lower upper net config))) [
        | inr e ↦ e
        | inl e ↦ absurd (
            true_ne_false (
              sym
                ((near_edge_off t.tick_current lower upper net config ht hl hu off.near_edge).0 e).0
              ∙ off.out_of_range))
      ]
    where
      true_ne_false : ¬ (true ≡ false)
      true_ne_false h = cc

  before_signal-position :
      (input : DbBacktestInput F) (i : ℕ) (t : PoolTickRow) (s : Replay F)
      → position (before_signal input i t s) ≡ position s
  unfolding before_signal accrue mark day_boundary flush_day
  before_signal-position input i t s = elim (Bool-cases (t.date == s.current_day_date)) [
    | inl e ↦ rw e refl
    | inr e ↦ rw e refl
  ]

  -- The unrealized loss is the one of the input's range at the price of the tick.
  pub record IsLossAt (input : DbBacktestInput F) (t : PoolTickRow) (loss_usd : F) : Type ℓ where
    pub loss : F
    pub computed :
        compute_il input.entry_price (ui_price input t) input.price_lower input.price_upper
        ≡ some loss
    pub scaled : loss_usd ≡ loss ⊗ input.initial_value_usd

  else_branch :
      (b : Bool) (x : Option (Replay F)) (y z : Replay F)
      → b ≡ false
      → (if b then x else some y) ≡ some z
      → z ≡ y
  else_branch true x y z e h = absurd cc
  else_branch false x y z e h = sym (some_same h)

  after_signal-held :
      (input : DbBacktestInput F) (t : PoolTickRow) (u : F) (s s' : Replay F)
      → is_rebalance (
          should_rebalance t.tick_current s.tick_lower s.tick_upper
            (s.cumulative_fees ⊕ s.realized_il_usd ⊕ u)
            input.rebalance_cfg)
        ≡ false
      → after_signal input t u s ≡ some s'
      → s' ≡ record s { last_price = ui_price input t; last_unrealized_il_usd = u }
  unfolding after_signal
  after_signal-held input t u s s' off h = else_branch _ _ _ s' off h

  replay_tick-IsHeld :
      (input : DbBacktestInput F) (lower upper : ℤ) (i : ℕ) (t : PoolTickRow) (s s' : Replay F)
      → IsOff input.rebalance_cfg
      → IsTick lower
      → IsTick upper
      → IsTick t.tick_current
      → IsHeld input lower upper s
      → replay_tick input i t s ≡ some s'
      → IsHeld input lower upper s' × IsLossAt input t s'.last_unrealized_il_usd
  unfolding replay_tick
  replay_tick-IsHeld input lower upper i t s s' off hl hu ht h e =
      let before = before_signal input i t s in
      let hb : IsHeld input lower upper before = before_signal-position input i t s ∙ h in
      let priced = bind-some (compute_il _ _ _ _) e in
      let u = priced.0 ⊗ input.initial_value_usd in
      let same =
        after_signal-held input t u before s'
          (rw (ap (λ p. p.0) hb, ap (λ p. p.1) hb)
            (no_rebalance t lower upper (before.cumulative_fees ⊕ before.realized_il_usd ⊕ u)
              input.rebalance_cfg ht hl hu off))
          priced.2 in
      (
        ap position same ∙ hb,
        record {
          loss = priced.0;
          computed =
              rw (sym (ap (λ p. p.2) hb), sym (ap (λ p. p.3) hb), sym (ap (λ p. p.4) hb)) priced.1;
          scaled = ap (λ x. x.last_unrealized_il_usd) same;
        },
      )

  replay_from-IsHeld :
      (input : DbBacktestInput F) (lower upper : ℤ) (i : ℕ) (t : PoolTickRow)
      (ts : List PoolTickRow) (s s' : Replay F)
      → IsOff input.rebalance_cfg
      → IsTick lower
      → IsTick upper
      → All (λ t. IsTick t.tick_current) (t ∷ ts)
      → IsHeld input lower upper s
      → replay_from input i (t ∷ ts) s ≡ some s'
      → IsHeld input lower upper s' × IsLossAt input (last_tick t ts) s'.last_unrealized_il_usd
  unfolding replay_from
  replay_from-IsHeld input lower upper i t [] s s' off hl hu ht h e =
      let tick = bind-some (replay_tick input i t s) e in
      replay_tick-IsHeld input lower upper i t s s' off hl hu ht.0 h
        (rw (sym (some_same tick.2)) tick.1)
  replay_from-IsHeld input lower upper i t (u ∷ us) s s' off hl hu ht h e =
      let tick = bind-some (replay_tick input i t s) e in
      let held = replay_tick-IsHeld input lower upper i t s tick.0 off hl hu ht.0 h tick.1 in
      replay_from-IsHeld input lower upper (suc i) u us tick.0 s' off hl hu ht.1 held.0 tick.2

  initial-IsHeld :
      (input : DbBacktestInput F) (lower upper : ℤ) (first : PoolTickRow) (s : Replay F)
      → price_to_tick (input.price_lower ⊘ ui_factor input) input.tick_spacing ≡ some lower
      → price_to_tick (input.price_upper ⊘ ui_factor input) input.tick_spacing ≡ some upper
      → initial input first ≡ some s
      → IsHeld input lower upper s
  unfolding initial
  initial-IsHeld input lower upper first s el eu h =
      let low = bind-some (price_to_tick _ _) h in
      let up = bind-some (price_to_tick _ _) low.2 in
      rw (sym (some_same up.2), some_same (sym low.1 ∙ el), some_same (sym up.1 ∙ eu)) refl

  -- With out-of-range rebalancing off and the near-edge tolerance of the research sweep, -1000000, a
  -- replay of ticks of a pool from a range of such ticks never rebalances, and its loss is that of the
  -- input's range from the entry price to the last price.
  pub run_db_backtest-IsLossAt :
      (input : DbBacktestInput F) (lower upper : ℤ) (first : PoolTickRow) (rest : List PoolTickRow)
      (r : BacktestResult F)
      → IsOff input.rebalance_cfg
      → price_to_tick (input.price_lower ⊘ ui_factor input) input.tick_spacing ≡ some lower
      → price_to_tick (input.price_upper ⊘ ui_factor input) input.tick_spacing ≡ some upper
      → IsTick lower
      → IsTick upper
      → All (λ t. IsTick t.tick_current) (first ∷ rest)
      → run_db_backtest input (first ∷ rest) ≡ some (ok r)
      → (r.total_rebalances ≡ 0)
        × ((loss_usd : F) × IsLossAt input (last_tick first rest) loss_usd
            × (r.total_il_usd ≡ lit 0 ⊕ loss_usd))
  unfolding run_db_backtest finish
  run_db_backtest-IsLossAt input lower upper first rest r off el eu hl hu ht h =
      let start = bind-some (initial input first) h in
      let end = bind-some (replay_from input 0 (first ∷ rest) start.0) start.2 in
      let held =
        replay_from-IsHeld input lower upper 0 first rest start.0 end.0 off hl hu ht
          (initial-IsHeld input lower upper first start.0 el eu start.1) end.1 in
      rw (sym (ok_same (some_same end.2))) (
        ap (λ p. p.5) held.0,
        (
          end.0.last_unrealized_il_usd,
          held.1,
          ap (λ x. x ⊕ end.0.last_unrealized_il_usd) (ap (λ p. p.6) held.0),
        ),
      )
