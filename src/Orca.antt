-- ===== src/Orca.antt =====
-- The tick arrays of a Whirlpool: `tick_array_start_index` of `src/protocols/orca.rs`, and the five
-- arrays that `fetch_tick_arrays` asks for.
pub mod Accounts
pub mod Cover
pub mod Layout
use tick_liq.Prelude.{ℕ, ◌*◌, List, map, ◌∷◌, []}
use tick_liq.Prelude.Int.{ℤ, pos, negsuc, ◌+ℤ◌, ◌-ℤ◌, ◌*ℕ◌, div_euclid}
use tick_liq.Prelude.Word.{wrap, i32_half}

abbrev pub tick_array_size : ℕ
tick_array_size = 88

-- `tick_spacing as i32 * TICK_ARRAY_SIZE as i32`, which fits since a `u16` is below 65536.
abbrev pub span_of : ℕ → ℕ
span_of tick_spacing = tick_spacing * tick_array_size

unfoldable pub tick_array_start_index : ℤ → ℕ → ℤ
tick_array_start_index current_tick tick_spacing =
    wrap i32_half (div_euclid current_tick (span_of tick_spacing) *ℕ span_of tick_spacing)

-- `center_start + o * span` for o from -2 to 2.
unfoldable pub tick_array_starts : ℤ → ℕ → List ℤ
tick_array_starts current_tick tick_spacing =
    let center_start = tick_array_start_index current_tick tick_spacing in
    let span = span_of tick_spacing in
    wrap i32_half (center_start -ℤ pos (2 * span))
    ∷ wrap i32_half (center_start -ℤ pos span)
    ∷ wrap i32_half (center_start +ℤ pos 0)
    ∷ wrap i32_half (center_start +ℤ pos span)
    ∷ wrap i32_half (center_start +ℤ pos (2 * span))
    ∷ []
