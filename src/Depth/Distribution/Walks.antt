-- ===== src/Depth/Distribution/Walks.antt =====
-- The two walks hold the active liquidity at the start of each bucket, wrapped on `i128`.
use tick_liq.Depth.Distribution.{
  level, LiquidityLevel, right, left, delta, step_left, step_right, Ticks,
}
use tick_liq.Depth.Distribution.Sums.{add_assoc_ℤ, sum_split, delta-wrap, sum}
use tick_liq.Prelude.{
  zero, map, ◌+◌, refl, ◌∷◌, false, true, [], List, sym, ◌∙◌, ◌<◌, arith, ap, suc, if◌then◌else◌,
  ◌*◌, ◌≤◌, ◌≡◌, ℕ,
}
use tick_liq.Prelude.Int.{pos_part, +ℤ_parts, -ℤ_parts, leb_ℤ, ℤ, pos, ◌+ℤ◌, ◌-ℤ◌}
use tick_liq.Prelude.Word.{wrap-sub-right, wrap-sub-left, wrap, wrap-add, i128_half}
use native.Mathlib.Nat.{mul-suc}
use tick_liq.Depth.Distribution.Starts.{
  wrap-add-right, sub_sub, before_right, before_left, right_start_exact, bucket_right, bucket_left,
  left_start_exact, IsInRange,
}

module _ (ticks : Ticks) (current_tick : ℤ) (current_liquidity : ℕ) where
  -- The liquidity that is active at tick `x`: that of the current tick, and the deltas of the ticks that
  -- are crossed on the way.
  unfoldable pub active_at : ℤ → ℤ
  active_at x =
      if leb_ℤ current_tick x
      then pos current_liquidity +ℤ sum current_tick x ticks
      else pos current_liquidity -ℤ sum x current_tick ticks

module _ {ℓ} {F : Type ℓ} (powi : ℤ → F) (ticks : Ticks) (current_tick : ℤ) (spacing n : ℕ)
    (r : IsInRange current_tick spacing n) (current_liquidity : ℕ) where
  -- What the two walks hold after the bucket `i`.
  abbrev pub held_right : ℕ → ℤ
  held_right i =
      pos current_liquidity +ℤ sum current_tick (bucket_right current_tick spacing i) ticks

  abbrev pub held_left : ℕ → ℤ
  held_left i = pos current_liquidity -ℤ sum (bucket_left current_tick spacing i) current_tick ticks

  step_right_exact :
      (i : ℕ)
      → suc i ≤ n
      → step_right powi ticks current_tick (pos spacing) (suc i) (wrap i128_half (held_right i))
        ≡ wrap i128_half (held_right (suc i))
  unfolding step_right delta
  step_right_exact i h =
      rw
        (
          right_start_exact powi ticks current_tick spacing n r (suc i) h,
          before_right powi ticks current_tick spacing n r i h,
        )
        (ap (λ z. wrap i128_half (wrap i128_half (held_right i) +ℤ z))
            (delta-wrap (bucket_right current_tick spacing i)
              (bucket_right current_tick spacing (suc i)) ticks)
          ∙ wrap-add (held_right i) _
          ∙ wrap-add-right (held_right i) _
          ∙ ap (wrap i128_half) (
              add_assoc_ℤ (pos current_liquidity) _ _
              ∙ ap (λ z. pos current_liquidity +ℤ z)
                  (sym (
                    sum_split current_tick (bucket_right current_tick spacing i)
                      (bucket_right current_tick spacing (suc i)) ticks
                      (omega (arith, +ℤ_parts current_tick (pos (spacing * i))))
                      (omega (
                        arith,
                        mul-suc spacing i,
                        +ℤ_parts current_tick (pos (spacing * i)),
                        +ℤ_parts current_tick (pos (spacing * suc i)),
                      ))))))

  step_left_exact :
      (i : ℕ)
      → suc i ≤ n
      → step_left powi ticks current_tick (pos spacing) (suc i) (wrap i128_half (held_left i))
        ≡ wrap i128_half (held_left (suc i))
  unfolding step_left delta
  step_left_exact i h =
      rw
        (
          left_start_exact powi ticks current_tick spacing n r (suc i) h,
          before_left powi ticks current_tick spacing n r i h,
        )
        (ap (λ z. wrap i128_half (wrap i128_half (held_left i) -ℤ z))
            (delta-wrap (bucket_left current_tick spacing (suc i))
              (bucket_left current_tick spacing i) ticks)
          ∙ wrap-sub-left (held_left i) _
          ∙ wrap-sub-right (held_left i) _
          ∙ ap (wrap i128_half) (
              sub_sub (pos current_liquidity) _ _
              ∙ ap (λ z. pos current_liquidity -ℤ z)
                  (sym (
                    sum_split (bucket_left current_tick spacing (suc i))
                      (bucket_left current_tick spacing i) current_tick ticks
                      (omega (
                        arith,
                        mul-suc spacing i,
                        -ℤ_parts current_tick (pos (spacing * i)),
                        -ℤ_parts current_tick (pos (spacing * suc i)),
                      ))
                      (omega (arith, -ℤ_parts current_tick (pos (spacing * i))))))))

  abbrev pub liquidities : List (LiquidityLevel F) → List ℕ
  liquidities levels = map (λ l. l.liquidity) levels

  -- The liquidity shown for a bucket that starts at `x`.
  abbrev pub shown : ℤ → ℕ
  shown x = pos_part (wrap i128_half (active_at ticks current_tick current_liquidity x))

  -- `count` buckets from the bucket `i` on.
  unfoldable pub shown_right : ℕ → ℕ → List ℕ
  shown_right zero i = []
  shown_right (suc count) i =
      shown (bucket_right current_tick spacing i) ∷ shown_right count (suc i)

  unfoldable pub shown_left : ℕ → ℕ → List ℕ
  shown_left zero i = []
  shown_left (suc count) i = shown (bucket_left current_tick spacing i) ∷ shown_left count (suc i)

  pub held_right-shown :
      (i : ℕ)
      → pos_part (wrap i128_half (held_right i)) ≡ shown (bucket_right current_tick spacing i)
  unfolding active_at
  held_right-shown i =
      rw
        (let e : leb_ℤ current_tick (bucket_right current_tick spacing i) ≡ true =
            ground (arith, +ℤ_parts current_tick (pos (spacing * i))) in
          e)
        refl

  -- A positive spacing keeps the left buckets below the current tick.
  held_left-shown :
      (i : ℕ)
      → 0 < spacing
      → pos_part (wrap i128_half (held_left (suc i)))
        ≡ shown (bucket_left current_tick spacing (suc i))
  unfolding active_at
  held_left-shown i h =
      rw
        (let e : leb_ℤ current_tick (bucket_left current_tick spacing (suc i)) ≡ false =
            ground (arith, mul-suc spacing i, -ℤ_parts current_tick (pos (spacing * suc i))) in
          e)
        refl

  pub right_exact :
      (count i : ℕ)
      → i + count ≤ n
      → liquidities (
          right powi ticks current_tick (pos spacing) count (suc i) (wrap i128_half (held_right i)))
        ≡ shown_right count (suc i)
  unfolding right level shown_right
  right_exact zero i h = refl
  right_exact (suc count) i h =
      rw (step_right_exact i (omega arith), held_right-shown (suc i))
        (ap (◌∷◌ (shown (bucket_right current_tick spacing (suc i))))
          (right_exact count (suc i) (omega arith)))

  pub left_exact :
      (count i : ℕ)
      → 0 < spacing
      → i + count ≤ n
      → liquidities
          (left powi ticks current_tick (pos spacing) count (suc i) (wrap i128_half (held_left i)))
        ≡ shown_left count (suc i)
  unfolding left level shown_left
  left_exact zero i h k = refl
  left_exact (suc count) i h k =
      rw (step_left_exact i (omega arith), held_left-shown i h)
        (ap (◌∷◌ (shown (bucket_left current_tick spacing (suc i))))
          (left_exact count (suc i) h (omega arith)))
