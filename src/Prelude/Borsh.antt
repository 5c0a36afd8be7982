-- ===== src/Prelude/Borsh.antt =====
-- The readers of Borsh, as an interface, and what its documentation says of them.
use tick_liq.Prelude.{
  ◌>>=◌, suc, zero, Bool, ℕ, ◌∷◌, [], List, Option, some, ◌++◌, ◌≡◌, ◌<◌, ◌^◌, ◌/◌,
}
use tick_liq.Prelude.Int.{ℤ, pos, negsuc}

-- Reads a value from the front, and leaves the rest.
abbrev pub Reader : Type 0 → Type 0
Reader A = List ℕ → Option (A × List ℕ)

-- A number is read from its bytes, whose count is given.
pub record Borsh (Pubkey : Type 0) : Type 0 where
  pub read_key : Reader Pubkey
  pub read_uint : ℕ → Reader ℕ
  pub read_int : ℕ → Reader ℤ
  pub read_bool : Reader Bool

-- `[T; n]`
abbrev pub read_array : {A : Type 0} → Reader A → ℕ → Reader (List A)
read_array read zero s = some ([], s)
read_array read (suc n) s = do (a, s) ← read s; (rest, s) ← read_array read n s; some (a ∷ rest, s)

-- The numbers of so many bytes, in two's complement.
unfoldable pub IsSigned : ℕ → ℤ → Type 0
IsSigned w (pos n) = n < 256 ^ w / 2
IsSigned w (negsuc n) = n < 256 ^ w / 2

-- What Borsh documents: a value is read back from its bytes, whatever follows them.
pub record Encoding {Pubkey : Type 0} (borsh : Borsh Pubkey) : Type 0 where
  pub write_key : Pubkey → List ℕ
  pub write_uint : ℕ → ℕ → List ℕ
  pub write_int : ℕ → ℤ → List ℕ
  pub key_law : (k : Pubkey) (rest : List ℕ) → borsh.read_key (write_key k ++ rest) ≡ some (k, rest)
  pub uint_law :
      (w n : ℕ) (rest : List ℕ)
      → n < 256 ^ w
      → borsh.read_uint w (write_uint w n ++ rest) ≡ some (n, rest)
  pub int_law :
      (w : ℕ) (z : ℤ) (rest : List ℕ)
      → IsSigned w z
      → borsh.read_int w (write_int w z ++ rest) ≡ some (z, rest)
