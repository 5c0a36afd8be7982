-- ===== src/Bot/Text/Number.antt =====
-- A printed number is read back.
use tick_liq.Bot.Text.{
  trim, print_u64, parse_u64, digits_value, print_digits, trim_start, is_whitespace,
}
use tick_liq.Prelude.{
  ap, some, ◌≢◌, ◌++◌, zero, ◌∙◌, inr, refl, inl, ◌%◌, ltb, [], ◌+◌, ◌∷◌, Bool-cases, ◌/◌, arith,
  ◌≡◌, suc, ◌<◌, All, List, ◌≤◌, ℕ,
}
use tick_liq.Prelude.Word.{u64_mod}
use mathlib.Core.List.{reverse_aux, reverse}

digit_step :
    (n : ℕ) (acc : List ℕ)
    → n < u64_mod
    → digits_value (n / 10) ((b'0' + n % 10) ∷ acc) ≡ digits_value n acc
unfolding digits_value
digit_step n acc h = ground arith

print_digits-value :
    (fuel n : ℕ) (acc : List ℕ)
    → n < fuel
    → n < u64_mod
    → digits_value 0 (print_digits fuel n acc) ≡ digits_value n acc
unfolding print_digits digits_value
print_digits-value zero n acc h bound = absurd (omega (arith, h))
print_digits-value (suc fuel) n acc h bound = elim (Bool-cases (ltb n 10)) [
  | inl e ↦ rw e (ground arith)
  | inr e ↦ rw e (
      print_digits-value fuel (n / 10) ((b'0' + n % 10) ∷ acc) (ground arith) (ground arith)
      ∙ digit_step n acc bound)
]

abbrev IsDigit : ℕ → Type 0
IsDigit c = (b'0' ≤ c) × (c ≤ b'9')

print_digits-All :
    (fuel n : ℕ) (acc : List ℕ) → All IsDigit acc → All IsDigit (print_digits fuel n acc)
unfolding print_digits
print_digits-All zero n acc h = h
print_digits-All (suc fuel) n acc h = elim (Bool-cases (ltb n 10)) [
  | inl e ↦ rw e ((ground arith, ground arith), h)
  | inr e ↦ rw e (print_digits-All fuel (n / 10) _ ((omega arith, omega arith), h))
]

trim_start-digits : (s : List ℕ) → All IsDigit s → trim_start s ≡ s
unfolding trim_start is_whitespace
trim_start-digits [] h = refl
trim_start-digits (c ∷ s) h = ground (arith, h.0.0, h.0.1)

reverse_aux-All :
    (xs ys : List ℕ) → All IsDigit xs → All IsDigit ys → All IsDigit (reverse_aux xs ys)
reverse_aux-All [] ys hx hy = hy
reverse_aux-All (x ∷ xs) ys hx hy = reverse_aux-All xs (x ∷ ys) hx.1 (hx.0, hy)

reverse_aux-twice :
    (xs ys zs : List ℕ) → reverse_aux (reverse_aux xs ys) zs ≡ reverse_aux ys (xs ++ zs)
reverse_aux-twice [] ys zs = refl
reverse_aux-twice (x ∷ xs) ys zs = reverse_aux-twice xs (x ∷ ys) zs

append_nil : (xs : List ℕ) → xs ++ [] ≡ xs
append_nil [] = refl
append_nil (x ∷ xs) = ap (◌∷◌ x) (append_nil xs)

trim-digits : (s : List ℕ) → All IsDigit s → trim s ≡ s
unfolding trim
trim-digits s h =
    rw (trim_start-digits s h, trim_start-digits (reverse s) (reverse_aux-All s [] h tt))
      (reverse_aux-twice s [] [] ∙ append_nil s)

parse_u64-digits : (s : List ℕ) → All IsDigit s → s ≢ [] → parse_u64 s ≡ digits_value 0 s
unfolding parse_u64
parse_u64-digits [] h ne = absurd (ne refl)
parse_u64-digits (c ∷ []) h ne = ground (arith, h.0)
parse_u64-digits (c ∷ d ∷ s) h ne = ground (arith, h.0)

print_digits_nonempty : (fuel n d : ℕ) (acc : List ℕ) → print_digits fuel n (d ∷ acc) ≢ []
unfolding print_digits
print_digits_nonempty zero n d acc e = cc
print_digits_nonempty (suc fuel) n d acc e = elim (Bool-cases (ltb n 10)) [
  | inl t ↦ cc (rw t at e)
  | inr t ↦ print_digits_nonempty fuel (n / 10) _ (d ∷ acc) (rw t at e)
]

print_u64_nonempty : (n : ℕ) → print_u64 n ≢ []
unfolding print_u64 print_digits
print_u64_nonempty n e = elim (Bool-cases (ltb n 10)) [
  | inl t ↦ cc (rw t at e)
  | inr t ↦ print_digits_nonempty n (n / 10) _ [] (rw t at e)
]

-- A number of 64 bits is read back from its digits, trimmed or not.
pub parse_u64-print_u64 : (n : ℕ) → n < u64_mod → parse_u64 (trim (print_u64 n)) ≡ some n
unfolding print_u64 digits_value
parse_u64-print_u64 n bound =
    ap parse_u64 (trim-digits (print_u64 n) digits)
    ∙ parse_u64-digits (print_u64 n) digits (print_u64_nonempty n)
    ∙ print_digits-value (suc n) n [] (omega arith) bound
    ∙ refl
  where
    digits : All IsDigit (print_u64 n)
    digits = print_digits-All (suc n) n [] tt
