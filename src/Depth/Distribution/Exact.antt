-- ===== src/Depth/Distribution/Exact.antt =====
-- The distribution is the active liquidity at the start of each bucket.
use tick_liq.Depth.Distribution.{
  LiquidityLevel, left, Ticks, build_distribution, right_count, right, level, step_right,
}
use tick_liq.Depth.Distribution.Walks.{
  shown, held_right-shown, right_exact, left_exact, liquidities, shown_left, shown_right,
  held_right, held_left,
}
use tick_liq.Prelude.{sym, ◌*◌, ◌∙◌, arith, suc, ap, ◌<◌, ◌≡◌, ◌++◌, map, List, ℕ, refl, ◌∷◌, []}
use tick_liq.Prelude.Int.{eq_of_parts, +ℤ_parts, -ℤ_parts, ◌+ℤ◌, ◌-ℤ◌, pos, ℤ}
use tick_liq.Depth.Distribution.Sums.{sum_empty}
use tick_liq.Depth.Distribution.Starts.{bucket_left, bucket_right, IsInRange}
use tick_liq.Prelude.Word.{i128_half, wrap, wrap_of_Fits, i32_half}
use mathlib.Core.List.{reverse_aux, reverse}

map-reverse_aux {ℓ κ} :
    {A : Type ℓ} {B : Type κ} (f : A → B) (xs ys : List A)
    → map f (reverse_aux xs ys) ≡ reverse_aux (map f xs) (map f ys)
map-reverse_aux f [] ys = refl
map-reverse_aux f (x ∷ xs) ys = map-reverse_aux f xs (x ∷ ys)

map-append {ℓ κ} :
    {A : Type ℓ} {B : Type κ} (f : A → B) (xs ys : List A) → map f (xs ++ ys) ≡ map f xs ++ map f ys
map-append f [] ys = refl
map-append f (x ∷ xs) ys = ap (◌∷◌ (f x)) (map-append f xs ys)

module _ {ℓ} {F : Type ℓ} (powi : ℤ → F) (ticks : Ticks) (current_tick : ℤ) (spacing n : ℕ)
    (r : IsInRange current_tick spacing n) (current_liquidity : ℕ) where
  held_right_start :
      held_right powi ticks current_tick spacing n r current_liquidity 0 ≡ pos current_liquidity
  held_right_start =
      ap (λ z. pos current_liquidity +ℤ z)
        (sum_empty current_tick (bucket_right current_tick spacing 0) ticks
          (omega (arith, +ℤ_parts current_tick (pos (spacing * 0)))))
      ∙ eq_of_parts (pos current_liquidity +ℤ pos 0) (pos current_liquidity)
          (omega (arith, +ℤ_parts (pos current_liquidity) (pos 0)))

  held_left_start :
      held_left powi ticks current_tick spacing n r current_liquidity 0 ≡ pos current_liquidity
  held_left_start =
      ap (λ z. pos current_liquidity -ℤ z)
        (sum_empty (bucket_left current_tick spacing 0) current_tick ticks
          (omega (arith, -ℤ_parts current_tick (pos (spacing * 0)))))
      ∙ eq_of_parts (pos current_liquidity -ℤ pos 0) (pos current_liquidity)
          (omega (arith, -ℤ_parts (pos current_liquidity) (pos 0)))

  right_all :
      liquidities powi ticks current_tick spacing n r current_liquidity (
        right powi ticks current_tick
          (pos spacing)
          (suc n)
          0
          (wrap i128_half (pos current_liquidity)))
      ≡ shown_right powi ticks current_tick spacing n r current_liquidity (suc n) 0
  unfolding right step_right level shown_right
  right_all = rw (sym held_right_start) (
      rw (held_right-shown powi ticks current_tick spacing n r current_liquidity 0) (
        ap
          (◌∷◌ (
            shown powi ticks current_tick spacing n r current_liquidity
              (bucket_right current_tick spacing 0)))
          (right_exact powi ticks current_tick spacing n r current_liquidity n 0 (omega arith))))

  left_from_start :
      0 < spacing
      → liquidities powi ticks current_tick spacing n r current_liquidity
          (left powi ticks current_tick (pos spacing) n 1 (wrap i128_half (pos current_liquidity)))
        ≡ shown_left powi ticks current_tick spacing n r current_liquidity n 1
  left_from_start h =
      rw (sym held_left_start)
        (left_exact powi ticks current_tick spacing n r current_liquidity n 0 h (omega arith))

  left_all :
      0 < spacing
      → liquidities powi ticks current_tick spacing n r current_liquidity (
          reverse (
            left powi ticks current_tick
              (pos spacing)
              n
              1
              (wrap i128_half (pos current_liquidity))))
        ≡ reverse (shown_left powi ticks current_tick spacing n r current_liquidity n 1)
  left_all h =
      map-reverse_aux {A = LiquidityLevel F} (λ l. l.liquidity)
        (left powi ticks current_tick (pos spacing) n 1 (wrap i128_half (pos current_liquidity))) []
      ∙ ap reverse (left_from_start h)

  -- For a positive spacing and starts of buckets that fit in an `i32`, the liquidity of each of the 2n + 1
  -- buckets, from the leftmost to the rightmost, is the active liquidity at the start of that bucket: the
  -- liquidity of the current tick plus the deltas of the ticks above it up to the start, or less those of
  -- the ticks above the start up to the current tick, wrapped on `i128` and cut at 0.
  pub build_distribution_exact :
      0 < spacing
      → n < i32_half
      → liquidities powi ticks current_tick spacing n r current_liquidity
          (build_distribution powi ticks current_tick (pos spacing) current_liquidity n)
        ≡ reverse (shown_left powi ticks current_tick spacing n r current_liquidity n 1)
          ++ shown_right powi ticks current_tick spacing n r current_liquidity (suc n) 0
  unfolding build_distribution right_count
  build_distribution_exact h small = rw (wrap_of_Fits i32_half (pos n) (small, omega arith)) (
      map-append (λ l. l.liquidity) _ _
      ∙ ap
          (λ xs.
            xs
            ++ liquidities powi ticks current_tick spacing n r current_liquidity (
                right powi ticks current_tick (pos spacing) (suc n) 0
                  (wrap i128_half (pos current_liquidity))))
          (left_all h)
      ∙ ap
          (λ ys.
            reverse (shown_left powi ticks current_tick spacing n r current_liquidity n 1) ++ ys)
          right_all)
