-- ===== src/Bot/Text.antt =====
-- The text handling of the bot, over code points: `str::trim`, `str::split`, `str::parse::<u64>`.
pub mod Number
use tick_liq.Prelude.{
  zero, ◌%◌, ◌/◌, suc, ◌-◌, ◌+◌, ◌*◌, ◌==◌, ◌||◌, ltb, if◌then◌else◌, none, some, ◌&&◌, [], leb,
  Option, ◌∷◌, List, Bool, ℕ,
}
use mathlib.Core.List.{reverse}
use tick_liq.Prelude.Word.{u64_mod}

-- `char::is_whitespace`, the Unicode property White_Space.
is_whitespace : ℕ → Bool
is_whitespace c =
    leb 9 c && leb c 13
    || c == 32
    || c == 0x85
    || c == 0xa0
    || c == 0x1680
    || leb 0x2000 c && leb c 0x200a
    || c == 0x2028
    || c == 0x2029
    || c == 0x202f
    || c == 0x205f
    || c == 0x3000

trim_start : List ℕ → List ℕ
trim_start [] = []
trim_start (c ∷ s) = if is_whitespace c then trim_start s else c ∷ s

unfoldable pub trim : List ℕ → List ℕ
unfolding trim_start is_whitespace
trim s = reverse (trim_start (reverse (trim_start s)))

-- The digits of a number that must stay below 2 ^ 64.
digits_value : ℕ → List ℕ → Option ℕ
digits_value acc [] = some acc
digits_value acc (c ∷ s) =
    if leb b'0' c && leb c b'9' && ltb (acc * 10 + (c - b'0')) u64_mod
    then digits_value (acc * 10 + (c - b'0')) s
    else none

-- `parse::<u64>`: an optional `+`, then at least one digit.
unfoldable pub parse_u64 : List ℕ → Option ℕ
unfolding digits_value
parse_u64 [] = none
parse_u64 (c ∷ []) = if c == b'+' then none else digits_value 0 (c ∷ [])
parse_u64 (c ∷ d ∷ s) = if c == b'+' then digits_value 0 (d ∷ s) else digits_value 0 (c ∷ d ∷ s)

-- `str::split(',')`: always at least one piece.
cons_head : ℕ → List (List ℕ) → List (List ℕ)
cons_head c [] = (c ∷ []) ∷ []
cons_head c (piece ∷ pieces) = (c ∷ piece) ∷ pieces

unfoldable pub split_on : ℕ → List ℕ → List (List ℕ)
unfolding cons_head
split_on sep [] = [] ∷ []
split_on sep (c ∷ s) =
    let pieces = split_on sep s in if c == sep then [] ∷ pieces else cons_head c pieces

print_digits : ℕ → ℕ → List ℕ → List ℕ
print_digits zero n acc = acc
print_digits (suc fuel) n acc =
    let rest = print_digits fuel (n / 10) ((b'0' + n % 10) ∷ acc) in
    if ltb n 10 then (b'0' + n) ∷ acc else rest

-- The `{}` of a number in `format!`; a number has no more digits than its value and one.
unfoldable pub print_u64 : ℕ → List ℕ
unfolding print_digits
print_u64 n = print_digits (suc n) n []
