-- ===== src/Orca/Accounts.antt =====
-- The parse of the Whirlpool accounts, and the fetch of the tick arrays: `src/protocols/orca.rs`.
pub mod Arrays
pub mod Encoding
pub mod Roundtrip
use tick_liq.Prelude.Borsh.{Borsh}
use tick_liq.Prelude.{
  map, drop, take, length, ltb, Bool, if◌then◌else◌, ℕ, ◌∷◌, [], List, Option, some, none,
}
use tick_liq.Orca.Layout.{
  TickArray, WhirlpoolPool, WhirlpoolPosition, read_position, read_tick_array, read_pool,
}
use tick_liq.Prelude.Result.{and_then, ok, err, Result}
use tick_liq.Prelude.Int.{ℤ}
use tick_liq.Chain.Rpc.{get_multiple_accounts_checked, Account, RpcError}
use tick_liq.Prelude.Bytes.{same_bytes}
use tick_liq.Orca.{tick_array_starts}

abbrev pub disc_length : ℕ
disc_length = 8

pub data AccountType : Type 0 where
  whirlpool_type : AccountType
  position_type : AccountType
  tick_array_type : AccountType

abbrev pub discriminator : AccountType → List ℕ
discriminator whirlpool_type = 63 ∷ 149 ∷ 209 ∷ 12 ∷ 225 ∷ 128 ∷ 99 ∷ 9 ∷ []
discriminator position_type = 170 ∷ 188 ∷ 143 ∷ 228 ∷ 122 ∷ 64 ∷ 247 ∷ 208 ∷ []
discriminator tick_array_type = 69 ∷ 97 ∷ 189 ∷ 190 ∷ 110 ∷ 7 ∷ 66 ∷ 187 ∷ []

-- The number of bytes, or the type that was found.
pub data AccountError : Type 0 where
  short_account : ℕ → AccountError
  other_type : AccountType → AccountError
  not_deserialized : AccountError

-- The loop over the list of other types: the one whose discriminator is found.
unfoldable pub forbidden_type : List ℕ → List AccountType → Option AccountType
forbidden_type disc [] = none
forbidden_type disc (t ∷ ts) =
    if same_bytes disc (discriminator t) then some t else forbidden_type disc ts

unfoldable pub reject_wrong_account_type : List ℕ → List AccountType → Option AccountType
unfolding forbidden_type
reject_wrong_account_type bytes forbidden =
    if ltb (length bytes) disc_length
    then none
    else forbidden_type (take disc_length bytes) forbidden

-- The value that `deserialize` read, whatever is left; the value that `try_from_slice` read, when
-- nothing is left.
abbrev pub deserialized : {A : Type 0} → Option (A × List ℕ) → Result AccountError A
deserialized none = err not_deserialized
deserialized (some (a, rest)) = ok a

abbrev pub from_slice : {A : Type 0} → Option (A × List ℕ) → Result AccountError A
from_slice none = err not_deserialized
from_slice (some (a, [])) = ok a
from_slice (some (a, b ∷ rest)) = err not_deserialized

abbrev pub unless_rejected :
    {A : Type 0} → Option AccountType → Result AccountError A → Result AccountError A
unless_rejected none r = r
unless_rejected (some t) r = err (other_type t)

-- An array that does not parse is skipped with a warning.
abbrev pub or_skip : {A : Type 0} → Result AccountError A → List A → List A
or_skip (ok a) rest = a ∷ rest
or_skip (err e) rest = rest

module _ {Pubkey : Type 0} (borsh : Borsh Pubkey) where
  unfoldable pub parse_tick_array : List ℕ → Result AccountError (TickArray Pubkey)
  unfolding read_tick_array
  parse_tick_array bytes =
      if ltb (length bytes) disc_length
      then err (short_account (length bytes))
      else from_slice (read_tick_array borsh (drop disc_length bytes))

  unfoldable pub parse_pool : List ℕ → Result AccountError (WhirlpoolPool Pubkey)
  unfolding read_pool reject_wrong_account_type
  parse_pool bytes =
      if ltb (length bytes) disc_length
      then err (short_account (length bytes))
      else unless_rejected (reject_wrong_account_type bytes (position_type ∷ tick_array_type ∷ []))
          (deserialized (read_pool borsh (drop disc_length bytes)))

  unfoldable pub parse_position : List ℕ → Result AccountError (WhirlpoolPosition Pubkey)
  unfolding read_position reject_wrong_account_type
  parse_position bytes =
      if ltb (length bytes) disc_length
      then err (short_account (length bytes))
      else unless_rejected (reject_wrong_account_type bytes (whirlpool_type ∷ tick_array_type ∷ []))
          (deserialized (read_position borsh (drop disc_length bytes)))

  -- The loop over the starts and the answers; the starts are in the log only.
  unfoldable pub parsed_arrays : List ℤ → List (Option (List ℕ)) → List (TickArray Pubkey)
  unfolding parse_tick_array
  parsed_arrays [] answers = []
  parsed_arrays (start ∷ starts) [] = []
  parsed_arrays (start ∷ starts) (none ∷ answers) = parsed_arrays starts answers
  parsed_arrays (start ∷ starts) (some bytes ∷ answers) =
      or_skip (parse_tick_array bytes) (parsed_arrays starts answers)

  -- The address of the array of a start is a call of the Solana SDK.
  unfoldable pub fetch_tick_arrays :
      (Pubkey → Pubkey → Bool)
      → (Pubkey → ℤ → Pubkey)
      → (List Pubkey → ℕ → Result (RpcError Pubkey) (List (Option (Account Pubkey))))
      → Pubkey
      → Pubkey
      → ℤ
      → ℕ
      → Result (RpcError Pubkey) (List (TickArray Pubkey))
  unfolding parsed_arrays
  fetch_tick_arrays same tick_array_pda get_multiple program whirlpool current_tick tick_spacing =
      let starts = tick_array_starts current_tick tick_spacing in
      let pdas = map (tick_array_pda whirlpool) starts in
      and_then (get_multiple_accounts_checked same pdas get_multiple program)
        (λ datas. ok (parsed_arrays starts datas))
