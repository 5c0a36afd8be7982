-- ===== src/Depth/Distribution/Starts.antt =====
-- The starts of the buckets, on `i32`, are the exact ones as long as these fit.
use tick_liq.Depth.Distribution.{left_start, right_start, Ticks, offset}
use tick_liq.Depth.Distribution.Sums.{add_comm_ℤ}
use tick_liq.Prelude.{◌∙◌, ◌<◌, arith, ap, suc, ◌*◌, ◌≤◌, ◌≡◌, ℕ}
use tick_liq.Prelude.Int.{eq_of_parts, parts_apart, +ℤ_parts, -ℤ_parts, ◌*ℕ◌, ℤ, pos, ◌+ℤ◌, ◌-ℤ◌}
use tick_liq.Prelude.Word.{wrap, wrap-add, wrap_of_Fits, Fits, i128_half, i32_half}
use native.Mathlib.Nat.{mul-le-mul_left, mul-suc}

pub wrap-add-right : (a b : ℤ) → wrap i128_half (a +ℤ wrap i128_half b) ≡ wrap i128_half (a +ℤ b)
wrap-add-right a b =
    ap (wrap i128_half) (add_comm_ℤ a (wrap i128_half b))
    ∙ wrap-add b a
    ∙ ap (wrap i128_half) (add_comm_ℤ b a)

pub sub_sub : (a b c : ℤ) → (a -ℤ b) -ℤ c ≡ a -ℤ (c +ℤ b)
sub_sub a b c =
    eq_of_parts ((a -ℤ b) -ℤ c) (a -ℤ (c +ℤ b))
      (omega (arith, -ℤ_parts (a -ℤ b) c, -ℤ_parts a b, -ℤ_parts a (c +ℤ b), +ℤ_parts c b))

pos_times : (s i : ℕ) → pos s *ℕ i ≡ pos (s * i)
unfolding ◌*ℕ◌
pos_times s i = ground arith

-- The starts of the buckets stay within `i32`.
pub record IsInRange (current_tick : ℤ) (spacing n : ℕ) : Type 0 where
  pub span : spacing * suc n < i32_half
  pub current : Fits i32_half current_tick
  pub last_right : Fits i32_half (current_tick +ℤ pos (spacing * n))
  pub last_left : Fits i32_half (current_tick -ℤ pos (spacing * n))

-- The starts of `count` buckets, from the bucket `i` on.
abbrev pub bucket_right : ℤ → ℕ → ℕ → ℤ
bucket_right current_tick spacing i = current_tick +ℤ pos (spacing * i)

abbrev pub bucket_left : ℤ → ℕ → ℕ → ℤ
bucket_left current_tick spacing i = current_tick -ℤ pos (spacing * i)

module _ (current_tick : ℤ) (spacing n : ℕ) (r : IsInRange current_tick spacing n) where
  times_le : (i : ℕ) → i ≤ n → spacing * i ≤ spacing * n
  times_le i h = mul-le-mul_left spacing h

  offset_exact : (i : ℕ) → i ≤ n → offset (pos spacing) i ≡ pos (spacing * i)
  offset_exact i h =
      ap (wrap i32_half) (pos_times spacing i)
      ∙ wrap_of_Fits i32_half (pos (spacing * i))
          (omega (arith, times_le i h, r.span, mul-suc spacing n), omega arith)

  right-Fits : (i : ℕ) → i ≤ n → Fits i32_half (bucket_right current_tick spacing i)
  right-Fits i h = (
    omega (
      arith,
      times_le i h,
      r.current.0,
      r.last_right.0,
      +ℤ_parts current_tick (pos (spacing * i)),
      +ℤ_parts current_tick (pos (spacing * n)),
      parts_apart (bucket_right current_tick spacing i),
      parts_apart current_tick,
    ),
    omega (
      arith,
      times_le i h,
      r.current.1,
      +ℤ_parts current_tick (pos (spacing * i)),
      parts_apart (bucket_right current_tick spacing i),
      parts_apart current_tick,
    ),
  )

  left-Fits : (i : ℕ) → i ≤ n → Fits i32_half (bucket_left current_tick spacing i)
  left-Fits i h = (
    omega (
      arith,
      times_le i h,
      r.current.0,
      -ℤ_parts current_tick (pos (spacing * i)),
      parts_apart (bucket_left current_tick spacing i),
      parts_apart current_tick,
    ),
    omega (
      arith,
      times_le i h,
      r.current.1,
      r.last_left.1,
      -ℤ_parts current_tick (pos (spacing * i)),
      -ℤ_parts current_tick (pos (spacing * n)),
      parts_apart (bucket_left current_tick spacing i),
      parts_apart current_tick,
    ),
  )

module _ {ℓ} {F : Type ℓ} (powi : ℤ → F) (ticks : Ticks) (current_tick : ℤ) (spacing n : ℕ)
    (r : IsInRange current_tick spacing n) where
  pub right_start_exact :
      (i : ℕ)
      → i ≤ n
      → right_start powi ticks current_tick (pos spacing) i ≡ bucket_right current_tick spacing i
  unfolding right_start
  right_start_exact i h =
      ap (λ z. wrap i32_half (current_tick +ℤ z)) (offset_exact current_tick spacing n r i h)
      ∙ wrap_of_Fits i32_half _ (right-Fits current_tick spacing n r i h)

  pub left_start_exact :
      (i : ℕ)
      → i ≤ n
      → left_start powi ticks current_tick (pos spacing) i ≡ bucket_left current_tick spacing i
  unfolding left_start
  left_start_exact i h =
      ap (λ z. wrap i32_half (current_tick -ℤ z)) (offset_exact current_tick spacing n r i h)
      ∙ wrap_of_Fits i32_half _ (left-Fits current_tick spacing n r i h)

  pub before_right :
      (i : ℕ)
      → suc i ≤ n
      → wrap i32_half (bucket_right current_tick spacing (suc i) -ℤ pos spacing)
        ≡ bucket_right current_tick spacing i
  before_right i h =
      ap (wrap i32_half) (
        eq_of_parts (bucket_right current_tick spacing (suc i) -ℤ pos spacing)
          (bucket_right current_tick spacing i)
          (omega (
            arith,
            mul-suc spacing i,
            -ℤ_parts (bucket_right current_tick spacing (suc i)) (pos spacing),
            +ℤ_parts current_tick (pos (spacing * suc i)),
            +ℤ_parts current_tick (pos (spacing * i)),
          )))
      ∙ wrap_of_Fits i32_half _ (right-Fits current_tick spacing n r i (omega arith))

  pub before_left :
      (i : ℕ)
      → suc i ≤ n
      → wrap i32_half (bucket_left current_tick spacing (suc i) +ℤ pos spacing)
        ≡ bucket_left current_tick spacing i
  before_left i h =
      ap (wrap i32_half) (
        eq_of_parts (bucket_left current_tick spacing (suc i) +ℤ pos spacing)
          (bucket_left current_tick spacing i)
          (omega (
            arith,
            mul-suc spacing i,
            +ℤ_parts (bucket_left current_tick spacing (suc i)) (pos spacing),
            -ℤ_parts current_tick (pos (spacing * suc i)),
            -ℤ_parts current_tick (pos (spacing * i)),
          )))
      ∙ wrap_of_Fits i32_half _ (left-Fits current_tick spacing n r i (omega arith))
