-- ===== src/Prelude/Bytes.antt =====
-- Byte strings: slices that fail out of range, and little-endian numbers.
use Prim.Native.Nat.{ℕ, ◌+◌, ◌-◌, ◌*◌}
use mathlib.Core.List.{List, [], ◌∷◌}
use mathlib.Core.Option.{Option, none, some}
use mathlib.Core.Bool.{Bool, true, false, ◌&&◌}
use tick_liq.Prelude.Tests.{leb, ◌==◌, if◌then◌else◌}
use tick_liq.Prelude.Lists.{length, take, drop}
use tick_liq.Prelude.{arith, ◌≡◌, ◌≤◌}

-- `bytes[a..b]`, which panics where this is `none`.
unfoldable pub slice : List ℕ → ℕ → ℕ → Option (List ℕ)
slice bytes a b =
    if leb a b && leb b (length bytes) then some (take (b - a) (drop a bytes)) else none

-- The number that a string of bytes stands for, the least significant first.
unfoldable pub from_le_bytes : List ℕ → ℕ
from_le_bytes [] = 0
from_le_bytes (b ∷ rest) = b + 256 * from_le_bytes rest

pub slice-some :
    (bytes : List ℕ) (a b : ℕ)
    → a ≤ b
    → b ≤ length bytes
    → slice bytes a b ≡ some (take (b - a) (drop a bytes))
unfolding slice
slice-some bytes a b h k = ground arith

-- The equality of byte strings.
abbrev pub same_bytes : List ℕ → List ℕ → Bool
same_bytes [] [] = true
same_bytes [] (b ∷ t) = false
same_bytes (a ∷ s) [] = false
same_bytes (a ∷ s) (b ∷ t) = a == b && same_bytes s t
