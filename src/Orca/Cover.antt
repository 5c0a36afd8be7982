-- ===== src/Orca/Cover.antt =====
-- The array that is found for a tick holds it, and the five arrays cover two more spans on both sides.
use tick_liq.Orca.{tick_array_starts, tick_array_start_index, span_of}
use tick_liq.Prelude.{refl, [], ◌∷◌, ◌≡◌, ◌*◌, ap, ◌<◌, arith, ◌≤◌, ℕ}
use tick_liq.Prelude.Int.{
  parts_apart, -ℤ_parts, ◌-ℤ◌, neg_part, pos_part, ℤ, pos, ◌+ℤ◌, ◌*ℕ◌, ◌≤ℤ◌, ◌<ℤ◌, div_euclid,
  rem_euclid, div_rem_euclid, rem_euclid-lt, +ℤ_parts, abs_ℕ,
}
use tick_liq.Prelude.Word.{wrap_of_Fits, i32_half, Fits, wrap}

-- A tick of a pool, and a spacing that is a positive `u16`.
pub record IsPool (current_tick : ℤ) (tick_spacing : ℕ) : Type 0 where
  pub tick : abs_ℕ current_tick ≤ 443636
  pub positive : 0 < tick_spacing
  pub is_u16 : tick_spacing < 65536

exact_start : ℤ → ℕ → ℤ
exact_start current_tick tick_spacing =
    div_euclid current_tick (span_of tick_spacing) *ℕ span_of tick_spacing

module _ (current_tick : ℤ) (tick_spacing : ℕ) (p : IsPool current_tick tick_spacing) where
  in_array :
      (exact_start current_tick tick_spacing ≤ℤ current_tick)
      × (current_tick <ℤ exact_start current_tick tick_spacing +ℤ pos (span_of tick_spacing))
  unfolding exact_start
  in_array =
      let span = span_of tick_spacing in
      let e = div_rem_euclid current_tick span (omega (arith, p.positive)) in
      let s = rem_euclid-lt current_tick span (omega (arith, p.positive)) in
      let q = div_euclid current_tick span *ℕ span in
      let a = +ℤ_parts q (pos (rem_euclid current_tick span)) in
      (
        omega (arith, a, s, ap pos_part e, ap neg_part e),
        omega (arith, a, s, ap pos_part e, ap neg_part e, +ℤ_parts q (pos span)),
      )

  -- An integer within three spans of the tick fits.
  near-Fits :
      (z : ℤ)
      → z ≤ℤ current_tick +ℤ pos (3 * span_of tick_spacing)
      → current_tick -ℤ pos (3 * span_of tick_spacing) ≤ℤ z
      → Fits i32_half z
  near-Fits z h k = (
    omega (
      arith,
      h,
      p.tick,
      p.is_u16,
      +ℤ_parts current_tick (pos (3 * span_of tick_spacing)),
      parts_apart z,
    ),
    omega (
      arith,
      k,
      p.tick,
      p.is_u16,
      -ℤ_parts current_tick (pos (3 * span_of tick_spacing)),
      parts_apart z,
    ),
  )

  exact_wrap :
      (z : ℤ)
      → z ≤ℤ current_tick +ℤ pos (3 * span_of tick_spacing)
      → current_tick -ℤ pos (3 * span_of tick_spacing) ≤ℤ z
      → wrap i32_half z ≡ z
  exact_wrap z h k = wrap_of_Fits i32_half z (near-Fits z h k)

  index_exact :
      tick_array_start_index current_tick tick_spacing ≡ exact_start current_tick tick_spacing
  unfolding tick_array_start_index exact_start
  index_exact =
      exact_wrap (exact_start current_tick tick_spacing)
        (omega (arith, in_array.0, +ℤ_parts current_tick (pos (3 * span_of tick_spacing))))
        (omega (
          arith,
          in_array.1,
          +ℤ_parts (exact_start current_tick tick_spacing) (pos (span_of tick_spacing)),
          -ℤ_parts current_tick (pos (3 * span_of tick_spacing)),
        ))

  below :
      (m : ℕ)
      → m ≤ 2 * span_of tick_spacing
      → wrap i32_half (exact_start current_tick tick_spacing -ℤ pos m)
        ≡ exact_start current_tick tick_spacing -ℤ pos m
  below m h =
      let start = exact_start current_tick tick_spacing in
      let a = -ℤ_parts start (pos m) in
      let b = +ℤ_parts start (pos (span_of tick_spacing)) in
      let c = +ℤ_parts current_tick (pos (3 * span_of tick_spacing)) in
      let d = -ℤ_parts current_tick (pos (3 * span_of tick_spacing)) in
      exact_wrap (start -ℤ pos m) (omega (arith, a, c, in_array.0))
        (omega (arith, a, b, d, in_array.1, h))

  above :
      (m : ℕ)
      → m ≤ 2 * span_of tick_spacing
      → wrap i32_half (exact_start current_tick tick_spacing +ℤ pos m)
        ≡ exact_start current_tick tick_spacing +ℤ pos m
  above m h =
      let start = exact_start current_tick tick_spacing in
      let a = +ℤ_parts start (pos m) in
      let b = +ℤ_parts start (pos (span_of tick_spacing)) in
      let c = +ℤ_parts current_tick (pos (3 * span_of tick_spacing)) in
      let d = -ℤ_parts current_tick (pos (3 * span_of tick_spacing)) in
      exact_wrap (start +ℤ pos m) (omega (arith, a, c, in_array.0, h))
        (omega (arith, a, b, d, in_array.1))

  -- For a tick of a pool and a positive spacing, the start of the tick array is a multiple of the span of
  -- an array, and the array holds the tick; the five starts are that one and the next two multiples on
  -- both sides, without overflow, so the arrays join and cover two spans below and above.
  pub tick_array_starts_cover :
      (q : ℤ) × (tick_array_start_index current_tick tick_spacing ≡ q *ℕ span_of tick_spacing)
      × (q *ℕ span_of tick_spacing ≤ℤ current_tick)
      × (current_tick <ℤ q *ℕ span_of tick_spacing +ℤ pos (span_of tick_spacing))
      × (tick_array_starts current_tick tick_spacing
          ≡ (q *ℕ span_of tick_spacing -ℤ pos (2 * span_of tick_spacing))
            ∷ (q *ℕ span_of tick_spacing -ℤ pos (span_of tick_spacing))
            ∷ (q *ℕ span_of tick_spacing +ℤ pos 0)
            ∷ (q *ℕ span_of tick_spacing +ℤ pos (span_of tick_spacing))
            ∷ (q *ℕ span_of tick_spacing +ℤ pos (2 * span_of tick_spacing))
            ∷ [])
  unfolding exact_start tick_array_starts
  tick_array_starts_cover = (
    div_euclid current_tick (span_of tick_spacing),
    index_exact,
    in_array.0,
    in_array.1,
    rw
        (
          index_exact,
          below (2 * span_of tick_spacing) (omega arith),
          below (span_of tick_spacing) (omega arith),
          above 0 (omega arith),
          above (span_of tick_spacing) (omega arith),
          above (2 * span_of tick_spacing) (omega arith),
        )
        refl,
  )
