-- ===== src/Examples/Borsh.antt =====
-- The readers that Borsh documents, with keys of one byte.
use native.Mathlib.Nat.{pow-succ'}
use tick_liq.Prelude.Borsh.{Borsh, Encoding, IsSigned}
use tick_liq.Prelude.{
  ap, ◌>>=◌, ltb, arith, ◌==◌, if◌then◌else◌, Bool, ℕ, List, [], ◌∷◌, ◌++◌, Option, some, none, ◌≡◌,
  refl, ◌<◌, ◌^◌, ◌/◌, ◌+◌, ◌*◌, ◌-◌, ◌%◌, zero, suc, true, false,
}
use tick_liq.Prelude.Int.{negsuc, pos, ℤ}

-- The least significant byte comes first.
abbrev read_le : ℕ → List ℕ → Option (ℕ × List ℕ)
read_le zero s = some (0, s)
read_le (suc w) [] = none
read_le (suc w) (b ∷ s) = do (n, s) ← read_le w s; some (b + 256 * n, s)

abbrev pub write_le : ℕ → ℕ → List ℕ
write_le zero n = []
write_le (suc w) n = n % 256 ∷ write_le w (n / 256)

read_le-write_le :
    (w n : ℕ) (rest : List ℕ) → n < 256 ^ w → read_le w (write_le w n ++ rest) ≡ some (n, rest)
read_le-write_le zero n rest h = ap (λ k. some (k, rest)) (omega arith)
read_le-write_le (suc w) n rest h =
    rw (read_le-write_le w (n / 256) rest (omega (arith, h, pow-succ' 256 w)))
      (ap (λ k. some (k, rest)) (omega arith))

-- Two's complement.
abbrev signed : ℕ → Option (ℕ × List ℕ) → Option (ℤ × List ℕ)
signed w none = none
signed w (some (n, s)) = some (if ltb n (256 ^ w / 2) then pos n else negsuc (256 ^ w - 1 - n), s)

abbrev write_signed : ℕ → ℤ → List ℕ
write_signed w (pos n) = write_le w n
write_signed w (negsuc n) = write_le w (256 ^ w - 1 - n)

signed-write_signed :
    (w : ℕ) (z : ℤ) (rest : List ℕ)
    → IsSigned w z
    → signed w (read_le w (write_signed w z ++ rest)) ≡ some (z, rest)
unfolding IsSigned
signed-write_signed w (pos n) rest h = rw (read_le-write_le w n rest (omega arith)) (ground arith)
signed-write_signed w (negsuc n) rest h =
    rw (read_le-write_le w (256 ^ w - 1 - n) rest (omega arith)) (ground arith)

abbrev one_byte : List ℕ → Option (ℕ × List ℕ)
one_byte [] = none
one_byte (b ∷ s) = some (b, s)

abbrev boolean : List ℕ → Option (Bool × List ℕ)
boolean [] = none
boolean (b ∷ s) = if b == 0 then some (false, s) else if b == 1 then some (true, s) else none

abbrev pub bytewise : Borsh ℕ
bytewise = record {
  read_key = one_byte;
  read_uint = read_le;
  read_int = λ w s. signed w (read_le w s);
  read_bool = boolean;
}

pub bytewise-Encoding : Encoding bytewise
bytewise-Encoding = record {
  write_key = λ k. k ∷ [];
  write_uint = write_le;
  write_int = write_signed;
  key_law = λ k rest. refl;
  uint_law = read_le-write_le;
  int_law = signed-write_signed;
}
