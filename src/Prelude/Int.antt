-- ===== src/Prelude/Int.antt =====
-- Signed integers over the native numbers, and the fixed-width arithmetic that the code does on
-- `i32`, `i64` and `i128`: wrapping, saturating, Euclidean division.
use Prim.Native.Nat.{ℕ, suc, ◌+◌, ◌-◌, ◌*◌, ◌/◌, ◌%◌, ◌≤◌, ◌<◌}
use mathlib.Core.Path.{◌≡◌}
use mathlib.Core.Logic.{◌⊎◌, inl, inr}
use mathlib.Core.Bool.{Bool, true, false}
use native.Mathlib.Nat.{add_comm, div-add-mod, div-add-mod', add-mul-mod_self_right, mod-eq_of_lt}
use native.Mathlib.Omega.{arith}
use tick_liq.Prelude.Tests.{ltb, leb, if◌then◌else◌}

-- `negsuc n` is -(n + 1).
pub data ℤ : Type 0 where
  pos : ℕ → ℤ
  negsuc : ℕ → ℤ

abbrev pub pos_part : ℤ → ℕ
pos_part (pos n) = n
pos_part (negsuc n) = 0

abbrev pub neg_part : ℤ → ℕ
neg_part (pos n) = 0
neg_part (negsuc n) = suc n

-- a - b, as an integer.
abbrev pub sub_ℕ : ℕ → ℕ → ℤ
sub_ℕ a b = if leb b a then pos (a - b) else negsuc (b - a - 1)

infixl 65 ◌+ℤ◌ ◌-ℤ◌
infix 50 ◌≤ℤ◌ ◌<ℤ◌
unfoldable pub ◌+ℤ◌ : ℤ → ℤ → ℤ
a +ℤ b = sub_ℕ (pos_part a + pos_part b) (neg_part a + neg_part b)

unfoldable pub ◌-ℤ◌ : ℤ → ℤ → ℤ
a -ℤ b = sub_ℕ (pos_part a + neg_part b) (neg_part a + pos_part b)

abbrev pub ◌≤ℤ◌ : ℤ → ℤ → Type 0
a ≤ℤ b = pos_part a + neg_part b ≤ pos_part b + neg_part a

abbrev pub ◌<ℤ◌ : ℤ → ℤ → Type 0
a <ℤ b = pos_part a + neg_part b < pos_part b + neg_part a

abbrev pub ltb_ℤ : ℤ → ℤ → Bool
ltb_ℤ a b = ltb (pos_part a + neg_part b) (pos_part b + neg_part a)

abbrev pub leb_ℤ : ℤ → ℤ → Bool
leb_ℤ a b = leb (pos_part a + neg_part b) (pos_part b + neg_part a)

-- One lemma for each operation lets `omega` work with the operations shut, at any depth.
pub +ℤ_parts :
    (a b : ℤ)
    → pos_part (a +ℤ b) + neg_part a + neg_part b ≡ neg_part (a +ℤ b) + pos_part a + pos_part b
unfolding ◌+ℤ◌
+ℤ_parts a b = ground arith

pub -ℤ_parts :
    (a b : ℤ)
    → pos_part (a -ℤ b) + neg_part a + pos_part b ≡ neg_part (a -ℤ b) + pos_part a + neg_part b
unfolding ◌-ℤ◌
-ℤ_parts a b = ground arith

pub eq_of_parts : (a b : ℤ) → pos_part a + neg_part b ≡ pos_part b + neg_part a → a ≡ b
eq_of_parts a b h = ground arith

pub parts_apart : (a : ℤ) → (pos_part a ≡ 0) ⊎ (neg_part a ≡ 0)
parts_apart (pos n) = inr (omega arith)
parts_apart (negsuc n) = inl (omega arith)

pub ruleset int_laws = (arith, +ℤ_parts, -ℤ_parts, eq_of_parts)

pub ltb_ℤ→lt : (a b : ℤ) → ltb_ℤ a b ≡ true → a <ℤ b
ltb_ℤ→lt a b h = ground arith

pub leb_ℤ→le : (a b : ℤ) → leb_ℤ a b ≡ true → a ≤ℤ b
leb_ℤ→le a b h = ground arith

pub leb_ℤ_false→lt : (a b : ℤ) → leb_ℤ a b ≡ false → b <ℤ a
leb_ℤ_false→lt a b h = ground arith

abbrev pub abs_ℕ : ℤ → ℕ
abs_ℕ a = pos_part a + neg_part a

-- Euclidean division by a positive number: the quotient rounds down, the remainder is not negative.
unfoldable pub div_euclid : ℤ → ℕ → ℤ
div_euclid (pos n) s = pos (n / s)
div_euclid (negsuc n) s = negsuc (n / s)

unfoldable pub rem_euclid : ℤ → ℕ → ℕ
rem_euclid (pos n) s = n % s
rem_euclid (negsuc n) s = s - 1 - n % s

-- Multiplication by a number that is not negative.
infixl 70 ◌*ℕ◌
unfoldable pub ◌*ℕ◌ : ℤ → ℕ → ℤ
a *ℕ n = sub_ℕ (pos_part a * n) (neg_part a * n)

pub *ℕ_parts :
    (a : ℤ) (n : ℕ) → pos_part (a *ℕ n) + neg_part a * n ≡ neg_part (a *ℕ n) + pos_part a * n
unfolding ◌*ℕ◌
*ℕ_parts a n = ground arith

pub rem_euclid-lt : (a : ℤ) (s : ℕ) → 0 < s → rem_euclid a s < s
unfolding rem_euclid
rem_euclid-lt (pos n) s h = omega arith
rem_euclid-lt (negsuc n) s h = omega arith

-- a = (a div s) * s + (a rem s).
pub div_rem_euclid : (a : ℤ) (s : ℕ) → 0 < s → a ≡ div_euclid a s *ℕ s +ℤ pos (rem_euclid a s)
unfolding div_euclid rem_euclid ◌*ℕ◌ ◌+ℤ◌
div_rem_euclid (pos n) s h = grind (arith, div-add-mod n s)
div_rem_euclid (negsuc n) s h = grind (arith, div-add-mod n s)

-- A multiple of `s` and a small rest leave the rest.
pub mod-mul-add : (q r s : ℕ) → r < s → (q * s + r) % s ≡ r
mod-mul-add q r s h = rw (add_comm (q * s) r, add-mul-mod_self_right) (mod-eq_of_lt h)

-- A number less its remainder has remainder 0.
pub rem_euclid-align : (a : ℤ) (s : ℕ) → 0 < s → rem_euclid (a -ℤ pos (rem_euclid a s)) s ≡ 0
unfolding rem_euclid ◌-ℤ◌
rem_euclid-align (pos n) s h = ground (arith, div-add-mod' n s, mod-mul-add (n / s) 0 s h)
rem_euclid-align (negsuc n) s h = ground (arith, div-add-mod' n s, mod-mul-add (n / s) (s - 1) s)
