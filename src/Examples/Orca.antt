-- ===== src/Examples/Orca.antt =====
-- The tick arrays of a pool of spacing 64 at tick -1.
use tick_liq.Orca.{tick_array_start_index, tick_array_starts, span_of}
use tick_liq.Orca.Cover.{IsPool, tick_array_starts_cover}
use tick_liq.Prelude.{◌*◌, arith, ◌≡◌, refl, ◌∷◌, []}
use tick_liq.Prelude.Int.{div_euclid, ℤ, pos, negsuc, ◌+ℤ◌, ◌-ℤ◌, ◌*ℕ◌, ◌≤ℤ◌, ◌<ℤ◌}
use tick_liq.Prelude.Word.{wrap}

below_zero : tick_array_start_index (negsuc 0) 64 ≡ negsuc 5631
unfolding tick_array_start_index div_euclid wrap ◌*ℕ◌
below_zero = refl

tick-IsPool : IsPool (negsuc 0) 64
tick-IsPool = record { tick = omega arith; positive = omega arith; is_u16 = omega arith }

tick_array_starts_cover_example :
    (q : ℤ) × (tick_array_start_index (negsuc 0) 64 ≡ q *ℕ span_of 64)
    × (q *ℕ span_of 64 ≤ℤ negsuc 0)
    × (negsuc 0 <ℤ q *ℕ span_of 64 +ℤ pos (span_of 64))
    × (tick_array_starts (negsuc 0) 64
        ≡ (q *ℕ span_of 64 -ℤ pos (2 * span_of 64))
          ∷ (q *ℕ span_of 64 -ℤ pos (span_of 64))
          ∷ (q *ℕ span_of 64 +ℤ pos 0)
          ∷ (q *ℕ span_of 64 +ℤ pos (span_of 64))
          ∷ (q *ℕ span_of 64 +ℤ pos (2 * span_of 64))
          ∷ [])
tick_array_starts_cover_example = tick_array_starts_cover (negsuc 0) 64 tick-IsPool
