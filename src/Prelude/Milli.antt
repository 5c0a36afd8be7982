-- ===== src/Prelude/Milli.antt =====
-- A concrete type with the operations of `Float`: decimal fractions with three places, and NaN. It
-- makes the definitions run, and shows that the laws of the comparisons can be met.
use Prim.Native.Nat.{ℕ, ◌+◌, ◌*◌, ◌/◌}
use mathlib.Core.Bool.{Bool, true, false, ◌&&◌}
use mathlib.Core.Option.{Option, none, some}
use native.Mathlib.Omega.{arith}
use tick_liq.Prelude.Tests.{if◌then◌else◌, ◌==◌}
use tick_liq.Prelude.Int.{ℤ, pos, negsuc, pos_part, neg_part, sub_ℕ, ltb_ℤ, leb_ℤ, abs_ℕ}
use tick_liq.Prelude.Float.{Float, IsOrdered}
use tick_liq.Prelude.Libm.{Libm, IsCast}
use tick_liq.Prelude.{leb, zero, ◌^◌, suc, min, ◌-◌, ◌<◌}
use tick_liq.Prelude.Word.{u128_mod}

-- `none` is NaN, and `some z` is z / 1000.
abbrev pub Milli : Type 0
Milli = Option ℤ

abbrev on_numbers : (ℤ → ℤ → Milli) → Milli → Milli → Milli
on_numbers g (some a) (some b) = g a b
on_numbers g _ _ = none

abbrev test_numbers : (ℤ → ℤ → Bool) → Milli → Milli → Bool
test_numbers g (some a) (some b) = g a b
test_numbers g _ _ = false

-- A magnitude with the sign of a product: the flags say which factors are negative.
abbrev sign : Bool → Bool → ℕ → ℤ
sign true true n = pos n
sign true false n = sub_ℕ 0 n
sign false true n = sub_ℕ 0 n
sign false false n = pos n

abbrev is_neg : ℤ → Bool
is_neg (pos n) = false
is_neg (negsuc n) = true

abbrev by_zero : Bool → Milli
by_zero true = some (negsuc 999_999_999_999)
by_zero false = none

-- Fractions are cut towards zero. A negative number by zero is a least value, another one NaN.
instance abbrev pub milli_float : Float Milli
milli_float = record {
  of_ℕ = λ n. some (pos (n * 1000));
  plus = on_numbers (λ a b. some (sub_ℕ (pos_part a + pos_part b) (neg_part a + neg_part b)));
  minus = on_numbers (λ a b. some (sub_ℕ (pos_part a + neg_part b) (neg_part a + pos_part b)));
  times = on_numbers (λ a b. some (sign (is_neg a) (is_neg b) (abs_ℕ a * abs_ℕ b / 1000)));
  over = on_numbers (λ a b.
      if abs_ℕ b == 0
      then by_zero (is_neg a)
      else some (sign (is_neg a) (is_neg b) (abs_ℕ a * 1000 / abs_ℕ b)));
  abs = λ x. on_numbers (λ a _. some (pos (abs_ℕ a))) x (some (pos 0));
  lt = test_numbers ltb_ℤ;
  le = test_numbers leb_ℤ;
  eq = test_numbers (λ a b. leb_ℤ a b && leb_ℤ b a);
}

-- The largest root whose square is at most the number, bit by bit.
abbrev root_from : ℕ → ℕ → ℕ → ℕ
root_from n zero acc = acc
root_from n (suc bit) acc =
    let next = acc + 2 ^ bit in root_from n bit (if leb (next * next) n then next else acc)

abbrev powers : Milli → ℕ → Milli
powers x zero = some (pos 1000)
powers x (suc n) = milli_float.times x (powers x n)

abbrev power : Milli → ℤ → Milli
power x (pos n) = powers x n
power x (negsuc n) = milli_float.over (some (pos 1000)) (powers x (suc n))

abbrev root_of : Milli → Milli
root_of (some (pos n)) = some (pos (root_from (n * 1000) 24 0))
root_of x = none

abbrev floor_of : Milli → ℤ
floor_of (some (pos n)) = pos (n / 1000)
floor_of (some (negsuc n)) = negsuc (n / 1000)
floor_of none = pos 0

-- The root and the powers are right to three places. The logarithm, the exponential and the cosine are
-- stand-ins that run, not approximations.
instance abbrev pub milli_libm : Libm Milli
milli_libm = record {
  sqrt = root_of;
  ln = λ x. milli_float.minus x (some (pos 999));
  exp = λ x. milli_float.plus x (some (pos 1000));
  cos = λ x. x;
  pi = some (pos 3142);
  powi = power;
  powf = λ x y. x;
  floor_i32 = floor_of;
  is_finite = λ x. elim x [ some z ↦ true | none ↦ false ];
  to_u128 = λ x. elim x [ some z ↦ min (pos_part z / 1000) (u128_mod - 1) | none ↦ 0 ];
  to_i64 = floor_of;
}

pub Milli-IsOrdered : IsOrdered Milli
Milli-IsOrdered = ground arith

pub Milli-IsCast : IsCast Milli
Milli-IsCast = record { to_u128-lt = u128-lt }
  where
    u128-lt : (x : Milli) → milli_libm.to_u128 x < u128_mod
    u128-lt none = omega arith
    u128-lt (some z) = ground arith
