-- ===== src/Prelude/Word.antt =====
-- Fixed-width integers. An unsigned word is a native number below its modulus; a signed one is an
-- integer between `-half` and `half - 1`, where `half` is 2 ^ 31 for `i32` and so on. A release build
-- wraps on overflow, so a plain `+` or `-` of the code is the exact result put through `wrap`.
use Prim.Native.Nat.{ℕ, ◌+◌, ◌-◌, ◌*◌, ◌%◌, ◌^◌, ◌≤◌, ◌<◌}
use mathlib.Core.Path.{◌≡◌, refl, ap}
use native.Mathlib.Nat.{mod-eq_of_lt, mod-lt}
use native.Mathlib.Omega.{arith}
use tick_liq.Prelude.Tests.{ltb, if◌then◌else◌}
use tick_liq.Prelude.Int.{ℤ, ◌+ℤ◌, ◌-ℤ◌, pos, negsuc, pos_part, neg_part, ltb_ℤ, leb_ℤ}

abbrev pub u32_mod : ℕ
u32_mod = 2 ^ 32

abbrev pub u64_mod : ℕ
u64_mod = 2 ^ 64

abbrev pub u128_mod : ℕ
u128_mod = 2 ^ 128

abbrev pub i32_half : ℕ
i32_half = 2 ^ 31

abbrev pub i64_half : ℕ
i64_half = 2 ^ 63

abbrev pub i128_half : ℕ
i128_half = 2 ^ 127

-- `a.wrapping_sub(b)` on words below `m`.
unfoldable pub wrapping_sub : ℕ → ℕ → ℕ → ℕ
wrapping_sub m a b = (a + m - b) % m

-- The integer that a bit pattern below `2 * half` stands for.
unfoldable pub signed : ℕ → ℕ → ℤ
signed half w = if ltb w half then pos w else negsuc (2 * half - w - 1)

-- The low bits of an integer, as a bit pattern.
unfoldable pub low_bits : ℕ → ℤ → ℕ
low_bits half (pos n) = n % (2 * half)
low_bits half (negsuc n) = 2 * half - 1 - n % (2 * half)

unfoldable pub wrap : ℕ → ℤ → ℤ
unfolding signed low_bits
wrap half z = signed half (low_bits half z)

abbrev pub Fits : ℕ → ℤ → Type 0
Fits half z = (pos_part z < half) × (neg_part z ≤ half)

pub wrap_of_Fits : (half : ℕ) (z : ℤ) → Fits half z → wrap half z ≡ z
unfolding wrap
wrap_of_Fits half (pos n) f = ground (arith, mod-eq_of_lt (let h : n < 2 * half = omega arith in h))
wrap_of_Fits half (negsuc n) f =
    ground (arith, mod-eq_of_lt (let h : n < 2 * half = omega arith in h))

pub wrap-Fits : (half : ℕ) (z : ℤ) → 0 < half → Fits half (wrap half z)
unfolding wrap
wrap-Fits half (pos n) h = ground (arith, mod-lt n (let p : 0 < 2 * half = omega arith in p))
wrap-Fits half (negsuc n) h = ground (arith, mod-lt n (let p : 0 < 2 * half = omega arith in p))

-- The value of a saturating operation: the exact result, cut to the range.
unfoldable pub saturate : ℕ → ℤ → ℤ
saturate half (pos n) = if ltb n half then pos n else pos (half - 1)
saturate half (negsuc n) = if ltb n half then negsuc n else negsuc (half - 1)

pub saturate_of_Fits : (half : ℕ) (z : ℤ) → Fits half z → saturate half z ≡ z
unfolding saturate
saturate_of_Fits half (pos n) f = ground arith
saturate_of_Fits half (negsuc n) f = ground arith

pub saturate-Fits : (half : ℕ) (z : ℤ) → 0 < half → Fits half (saturate half z)
unfolding saturate
saturate-Fits half (pos n) h = ground arith
saturate-Fits half (negsuc n) h = ground arith

-- `i64::abs`, which wraps at the least value in a release build.
unfoldable pub wrapping_abs : ℕ → ℤ → ℤ
unfolding wrap
wrapping_abs half z = if ltb_ℤ z (pos 0) then wrap half (pos (neg_part z)) else z

abbrev pub max_ℤ : ℤ → ℤ → ℤ
max_ℤ a b = if leb_ℤ a b then b else a

low_bits_add :
    (a b : ℤ)
    → low_bits i128_half (signed i128_half (low_bits i128_half a) +ℤ b)
      ≡ low_bits i128_half (a +ℤ b)
unfolding low_bits signed ◌+ℤ◌
low_bits_add (pos a) (pos b) = ground arith
low_bits_add (pos a) (negsuc b) = ground arith
low_bits_add (negsuc a) (pos b) = ground arith
low_bits_add (negsuc a) (negsuc b) = ground arith

low_bits_sub :
    (a b : ℤ)
    → low_bits i128_half (a -ℤ signed i128_half (low_bits i128_half b))
      ≡ low_bits i128_half (a -ℤ b)
unfolding low_bits signed ◌-ℤ◌
low_bits_sub (pos a) (pos b) = ground arith
low_bits_sub (pos a) (negsuc b) = ground arith
low_bits_sub (negsuc a) (pos b) = ground arith
low_bits_sub (negsuc a) (negsuc b) = ground arith

low_bits_minus :
    (a b : ℤ)
    → low_bits i128_half (signed i128_half (low_bits i128_half a) -ℤ b)
      ≡ low_bits i128_half (a -ℤ b)
unfolding low_bits signed ◌-ℤ◌
low_bits_minus (pos a) (pos b) = ground arith
low_bits_minus (pos a) (negsuc b) = ground arith
low_bits_minus (negsuc a) (pos b) = ground arith
low_bits_minus (negsuc a) (negsuc b) = ground arith

-- Wrapping on `i128` may be put off to the end of a sum.
pub wrap-add : (a b : ℤ) → wrap i128_half (wrap i128_half a +ℤ b) ≡ wrap i128_half (a +ℤ b)
unfolding wrap
wrap-add a b = ap (signed i128_half) (low_bits_add a b)

pub wrap-sub-left : (a b : ℤ) → wrap i128_half (wrap i128_half a -ℤ b) ≡ wrap i128_half (a -ℤ b)
unfolding wrap
wrap-sub-left a b = ap (signed i128_half) (low_bits_minus a b)

pub wrap-sub-right : (a b : ℤ) → wrap i128_half (a -ℤ wrap i128_half b) ≡ wrap i128_half (a -ℤ b)
unfolding wrap
wrap-sub-right a b = ap (signed i128_half) (low_bits_sub a b)

tests :
    (wrap i32_half (pos (2 ^ 31)) ≡ negsuc (2 ^ 31 - 1))
    × (wrap i32_half (negsuc (2 ^ 31)) ≡ pos (2 ^ 31 - 1))
    × (saturate i32_half (pos (2 ^ 40)) ≡ pos (2 ^ 31 - 1))
    × (wrapping_abs i64_half (negsuc (2 ^ 63 - 1)) ≡ negsuc (2 ^ 63 - 1))
    × (wrapping_sub u128_mod 5 (2 ^ 128 - 1) ≡ 6)
unfolding wrap saturate wrapping_abs wrapping_sub
tests = (refl, refl, refl, refl, refl)
