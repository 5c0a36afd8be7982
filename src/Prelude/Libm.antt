-- ===== src/Prelude/Libm.antt =====
-- The functions of `f64` beyond arithmetic, as a second interface: roots, logarithms, powers and the
-- casts to integers. `f64::min`, `f64::max`, `f64::clamp` and `is_nan` are defined by comparisons.
use Prim.Native.Nat.{ℕ}
use mathlib.Core.Path.{◌≡◌}
use mathlib.Core.Bool.{Bool, true, not}
use mathlib.Core.Logic.{inl, inr}
use mathlib.Core.Option.{Option, none, some}
use tick_liq.Prelude.Tests.{if◌then◌else◌, Bool-cases}
use tick_liq.Prelude.Int.{ℤ}
use tick_liq.Prelude.Float.{Float, IsOrdered, IsNumber, ◌≼◌, ◌≺◌}
use tick_liq.Prelude.{◌<◌}
use tick_liq.Prelude.Word.{u128_mod}

pub record Libm {ℓ} (F : Type ℓ) : Type ℓ where
  pub sqrt : F → F
  pub ln : F → F
  pub exp : F → F
  pub cos : F → F
  pub pi : F
  pub powi : F → ℤ → F
  pub powf : F → F → F
  pub floor_i32 : F → ℤ  -- `x.floor() as i32`
  pub is_finite : F → Bool
  pub to_u128 : F → ℕ  -- `x as u128`
  pub to_i64 : F → ℤ  -- `x as i64`

module _ {ℓ} {F : Type ℓ} ⦃f : Float F⦄ where
  abbrev pub is_nan : F → Bool
  is_nan x = not (x ≼ x)

  -- Of a number and NaN, `min` and `max` take the number.
  abbrev pub fmin : F → F → F
  fmin x y = if x ≺ y then x else if is_nan y then x else y

  abbrev pub fmax : F → F → F
  fmax x y = if y ≺ x then x else if is_nan y then x else y

  -- `x.clamp(low, high)`, which panics unless `low <= high`.
  abbrev pub clamp : F → F → F → Option F
  clamp low high x =
      if low ≼ high then some (if x ≺ low then low else if high ≺ x then high else x) else none

  -- The smaller of any value and a number is at most that number.
  pub fmin-le : IsOrdered F → (x y : F) → IsNumber {F = F} y → (fmin x y ≼ y) ≡ true
  fmin-le laws x y hy = elim (Bool-cases (x ≺ y)) [
    | inl lt ↦ rw lt (laws.le_of_lt x y lt)
    | inr e ↦ rw (e, hy) hy
  ]

-- `as u128` saturates.
pub record IsCast {ℓ} (F : Type ℓ) ⦃m : Libm F⦄ : Type ℓ where
  pub to_u128-lt : (x : F) → m.to_u128 x < u128_mod
