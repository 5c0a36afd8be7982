-- ===== src/Prelude/Float.antt =====
-- `f64` as an interface. The operations of IEEE 754 that the code uses are fields, so a definition
-- runs on any type that has them; what a theorem needs of the comparisons is a record of laws, each
-- of which IEEE 754 grants, NaN included.
use Prim.Native.Nat.{ℕ}
use mathlib.Core.Path.{◌≡◌}
use mathlib.Core.Logic.{◌⊎◌}
use mathlib.Core.Bool.{Bool, true, not}

pub record Float {ℓ} (F : Type ℓ) : Type ℓ where
  pub of_ℕ : ℕ → F  -- the nearest `f64`, as a literal or an `as f64` cast gives it
  pub plus : F → F → F
  pub minus : F → F → F
  pub times : F → F → F
  pub over : F → F → F
  pub abs : F → F
  pub lt : F → F → Bool
  pub le : F → F → Bool
  pub eq : F → F → Bool

infixl 65 ◌⊕◌ ◌⊖◌
infixl 70 ◌⊗◌ ◌⊘◌
infix 50 ◌≺◌ ◌≼◌
module _ {ℓ} {F : Type ℓ} ⦃f : Float F⦄ where
  -- The rounded operations.
  abbrev pub ◌⊕◌ : F → F → F
  ◌⊕◌ = f.plus

  abbrev pub ◌⊖◌ : F → F → F
  ◌⊖◌ = f.minus

  abbrev pub ◌⊗◌ : F → F → F
  ◌⊗◌ = f.times

  abbrev pub ◌⊘◌ : F → F → F
  ◌⊘◌ = f.over

  -- The tests `<` and `<=`, which are false as soon as one side is NaN.
  abbrev pub ◌≺◌ : F → F → Bool
  ◌≺◌ = f.lt

  abbrev pub ◌≼◌ : F → F → Bool
  ◌≼◌ = f.le

  abbrev pub fabs : F → F
  fabs = f.abs

  abbrev pub lit : ℕ → F
  lit = f.of_ℕ

  -- A value that is not NaN is the one that is `<=` itself.
  abbrev pub IsNumber : F → Type 0
  IsNumber x = f.le x x ≡ true

-- What IEEE 754 says of the two comparisons.
pub record IsOrdered {ℓ} (F : Type ℓ) ⦃f : Float F⦄ : Type ℓ where
  pub number_of_le : (x y : F) → (x ≼ y) ≡ true → IsNumber {F = F} x × IsNumber {F = F} y
  pub le_trans : (x y z : F) → (x ≼ y) ≡ true → (y ≼ z) ≡ true → (x ≼ z) ≡ true
  pub lt-eq-not-le : (x y : F) → IsNumber {F = F} x → IsNumber {F = F} y → (x ≺ y) ≡ not (y ≼ x)
  pub le_total :
      (x y : F) → IsNumber {F = F} x → IsNumber {F = F} y → ((x ≼ y) ≡ true) ⊎ ((y ≼ x) ≡ true)
  pub le_of_lt : (x y : F) → (x ≺ y) ≡ true → (x ≼ y) ≡ true
  pub lit_number : (n : ℕ) → IsNumber {F = F} (lit n)
