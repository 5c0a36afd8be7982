-- ===== src/Strategy/Signal/Laws.antt =====
-- When `should_rebalance` asks for a rebalance, over exact integers.
use Prim.Native.String.{String}
use tick_liq.Prelude.{
  ◌||◌, ◌&&◌, if◌then◌else◌, inr, Bool, inl, ℕ, lt→ltb, le→leb, ◌≤◌, true, false, ◌≡◌, ◌↔◌, ◌⊎◌,
  arith,
}
use tick_liq.Prelude.Int.{
  pos, negsuc, leb_ℤ, ltb_ℤ, ltb_ℤ→lt, leb_ℤ→le, ℤ, pos_part, neg_part, ◌-ℤ◌, ◌+ℤ◌, -ℤ_parts,
  +ℤ_parts, ◌≤ℤ◌, ◌<ℤ◌,
}
use tick_liq.Prelude.Word.{i32_half, wrap, Fits, wrap_of_Fits}
use tick_liq.Prelude.Float.{Float, ◌≺◌}
use tick_liq.Strategy.Signal.{hold, rebalance, RebalanceConfig, is_rebalance, should_rebalance}

-- The ticks of a pool: between MIN_TICK and MAX_TICK, which is 443636 either way.
abbrev pub IsTick : ℤ → Type 0
IsTick t = (pos_part t ≤ 443636) × (neg_part t ≤ 443636)

distance-Fits : (a b : ℤ) → IsTick a → IsTick b → Fits i32_half (a -ℤ b)
unfolding ◌-ℤ◌
distance-Fits a b ha hb = ground arith

wrap_distance : (a b : ℤ) → IsTick a → IsTick b → wrap i32_half (a -ℤ b) ≡ a -ℤ b
wrap_distance a b ha hb = wrap_of_Fits i32_half (a -ℤ b) (distance-Fits a b ha hb)

abbrev pub IsOutOfRange : ℤ → ℤ → ℤ → Type 0
IsOutOfRange cur lower upper = (cur <ℤ lower) ⊎ (upper <ℤ cur)

abbrev pub IsNearEdge : ℤ → ℤ → ℤ → ℤ → Type 0
IsNearEdge near cur lower upper = (cur ≤ℤ lower +ℤ near) ⊎ (upper ≤ℤ cur +ℤ near)

-- The ladder of tests, over any tests.
ladder_iff :
    (e b₁ b₂ p n₁ n₂ : Bool) (r₁ r₂ r₃ h₁ h₂ : String)
    → (is_rebalance (
          if e && (b₁ || b₂)
          then rebalance r₁
          else if p
          then hold h₁
          else if n₁
          then rebalance r₂
          else if n₂
          then rebalance r₃
          else hold h₂)
        ≡ true)
      ↔ ((e ≡ true) × ((b₁ ≡ true) ⊎ (b₂ ≡ true)) ⊎ (p ≡ false) × ((n₁ ≡ true) ⊎ (n₂ ≡ true)))
ladder_iff e b₁ b₂ p n₁ n₂ r₁ r₂ r₃ h₁ h₂ = (ground arith, ground arith)

near_iff : (a b near : ℤ) → (leb_ℤ (a -ℤ b) near ≡ true) ↔ (a ≤ℤ b +ℤ near)
near_iff a b near = (
  λ h. omega (arith, leb_ℤ→le (a -ℤ b) near h, -ℤ_parts a b, +ℤ_parts b near),
  λ h. le→leb _ _ (omega (arith, -ℤ_parts a b, +ℤ_parts b near)),
)

lt_iff : (a b : ℤ) → (ltb_ℤ a b ≡ true) ↔ (a <ℤ b)
lt_iff a b = (ltb_ℤ→lt a b, lt→ltb _ _)

or_iff : {A B C D : Type 0} → A ↔ B → C ↔ D → A ⊎ C ↔ B ⊎ D
or_iff p q = (
  elim [ inl a ↦ inl (p.0 a) | inr c ↦ inr (q.0 c) ],
  elim [ inl b ↦ inl (p.1 b) | inr d ↦ inr (q.1 d) ],
)

and_iff : {A B C : Type 0} → B ↔ C → A × B ↔ A × C
and_iff p = (λ x. (x.0, p.0 x.1), λ x. (x.0, p.1 x.1))

trans_iff : {A B C : Type 0} → A ↔ B → B ↔ C → A ↔ C
trans_iff p q = (λ a. q.0 (p.0 a), λ c. p.1 (q.1 c))

module _ {ℓ} {F : Type ℓ} ⦃f : Float F⦄ where
  -- For ticks of a pool, `should_rebalance` asks for a rebalance exactly when out-of-range
  -- rebalancing is on and the current tick is outside the range, or when the net P&L is not below its
  -- minimum and the current tick is within `near_edge_ticks` of a bound, over exact integers: the
  -- `i32` subtractions do not wrap.
  pub should_rebalance_iff :
      (cur lower upper : ℤ) (net : F) (config : RebalanceConfig F)
      → IsTick cur
      → IsTick lower
      → IsTick upper
      → (is_rebalance (should_rebalance cur lower upper net config) ≡ true) ↔ (
          (config.rebalance_out_of_range ≡ true) × IsOutOfRange cur lower upper
          ⊎ ((net ≺ config.min_net_pnl_usd) ≡ false)
            × IsNearEdge config.near_edge_ticks cur lower upper)
  unfolding should_rebalance
  should_rebalance_iff cur lower upper net config hc hl hu =
      rw (wrap_distance cur lower hc hl, wrap_distance upper cur hu hc)
        (trans_iff (ladder_iff _ _ _ _ _ _ _ _ _ _ _) (
          or_iff (and_iff (or_iff (lt_iff cur lower) (lt_iff upper cur)))
            (and_iff (or_iff (near_iff cur lower _) (near_iff upper cur _)))))

  -- Out-of-range ticks are asked for a rebalance by the near-edge tests even when
  -- `rebalance_out_of_range` is off: with a tolerance that is not negative and a net P&L that is not
  -- below its minimum, a position outside its range is always rebalanced.
  out_of_range_near_edge :
      (cur lower upper : ℤ) (net : F) (config : RebalanceConfig F) (n : ℕ)
      → IsTick cur
      → IsTick lower
      → IsTick upper
      → config.near_edge_ticks ≡ pos n
      → (net ≺ config.min_net_pnl_usd) ≡ false
      → IsOutOfRange cur lower upper
      → is_rebalance (should_rebalance cur lower upper net config) ≡ true
  out_of_range_near_edge cur lower upper net config n hc hl hu near pnl out =
      (should_rebalance_iff cur lower upper net config hc hl hu).1 (inr (pnl, rw near (close out)))
    where
      close : IsOutOfRange cur lower upper → IsNearEdge (pos n) cur lower upper
      close (inl h) = inl (omega (arith, +ℤ_parts lower (pos n)))
      close (inr h) = inr (omega (arith, +ℤ_parts cur (pos n)))

  -- With the tolerance that the research sweep passes, -1000000, the near-edge tests never fire on
  -- ticks of a pool: a rebalance is asked for exactly when out-of-range rebalancing is on and the tick
  -- is outside.
  pub near_edge_off :
      (cur lower upper : ℤ) (net : F) (config : RebalanceConfig F)
      → IsTick cur
      → IsTick lower
      → IsTick upper
      → config.near_edge_ticks ≡ negsuc 999_999
      → (is_rebalance (should_rebalance cur lower upper net config) ≡ true)
        ↔ ((config.rebalance_out_of_range ≡ true) × IsOutOfRange cur lower upper)
  near_edge_off cur lower upper net config hc hl hu off =
      trans_iff (should_rebalance_iff cur lower upper net config hc hl hu)
        (elim [ inl x ↦ x | inr x ↦ absurd (never (rw off at x.1)) ], inl)
    where
      never : IsNearEdge (negsuc 999_999) cur lower upper → ⊥
      never (inl h) = omega (arith, +ℤ_parts lower (negsuc 999_999))
      never (inr h) = omega (arith, +ℤ_parts cur (negsuc 999_999))
