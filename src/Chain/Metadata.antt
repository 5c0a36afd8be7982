-- ===== src/Chain/Metadata.antt =====
-- The token symbol of Metaplex metadata: `try_fetch_token_symbol` and `fetch_token_symbol` of
-- `src/rpc.rs`, over the bytes of the account. A `usize` has 64 bits, so the positions do not overflow.
pub mod Layout
use tick_liq.Prelude.{
  ◌+◌, none, length, ltb, some, ◌==◌, [], if◌then◌else◌, ◌++◌, Option, ◌∷◌, take, Bool, List, ℕ,
}
use tick_liq.Prelude.Bytes.{slice, from_le_bytes}
use tick_liq.Prelude.Result.{Result, ok, err}
use mathlib.Core.List.{reverse}

pub data MetadataError : Type 0 where
  metadata_not_found : MetadataError
  short_for_name_len : MetadataError
  short_for_symbol_len : MetadataError
  short_for_symbol : MetadataError
  not_utf8 : MetadataError

-- `trim_end_matches('\0')`
trim_start_nul : List ℕ → List ℕ
trim_start_nul [] = []
trim_start_nul (c ∷ s) = if c == 0 then trim_start_nul s else c ∷ s

unfoldable pub trim_end_nul : List ℕ → List ℕ
unfolding trim_start_nul
trim_end_nul s = reverse (trim_start_nul (reverse s))

module _ (is_utf8 : List ℕ → Bool) where
  -- `data[pos..pos + sym_len]`, which panics where the argument is `none`.
  symbol_of_slice : Option (List ℕ) → Option (Result MetadataError (List ℕ))
  symbol_of_slice none = none
  symbol_of_slice (some sym) = some (if is_utf8 sym then ok (trim_end_nul sym) else err not_utf8)

  -- From the length of the symbol on; `u32::from_le_bytes(data[pos..pos + 4])`.
  symbol_from : List ℕ → ℕ → Option (List ℕ) → Option (Result MetadataError (List ℕ))
  unfolding symbol_of_slice
  symbol_from bytes pos none = none
  symbol_from bytes pos (some sym_len_bytes) =
      let sym_len = from_le_bytes sym_len_bytes in
      if ltb (length bytes) (pos + 4 + sym_len)
      then some (err short_for_symbol)
      else symbol_of_slice (slice bytes (pos + 4) (pos + 4 + sym_len))

  name_from : List ℕ → ℕ → Option (List ℕ) → Option (Result MetadataError (List ℕ))
  unfolding symbol_from
  name_from bytes pos none = none
  name_from bytes pos (some name_len_bytes) =
      let pos' = pos + (4 + from_le_bytes name_len_bytes) in
      if ltb (length bytes) (pos' + 4)
      then some (err short_for_symbol_len)
      else symbol_from bytes pos' (slice bytes pos' (pos' + 4))

  -- The parse of the bytes; the outer `none` is a panic.
  unfoldable pub symbol_of_metadata : List ℕ → Option (Result MetadataError (List ℕ))
  unfolding name_from
  symbol_of_metadata bytes =
      if ltb (length bytes) (65 + 4)
      then some (err short_for_name_len)
      else name_from bytes 65 (slice bytes 65 (65 + 4))

-- `fetch_token_symbol`, given the result of the parse and the text of the mint.
unfoldable pub fetch_token_symbol : Result MetadataError (List ℕ) → List ℕ → List ℕ
fetch_token_symbol (ok []) mint = take 8 mint ++ (0x2026 ∷ [])
fetch_token_symbol (ok (c ∷ sym)) mint = c ∷ sym
fetch_token_symbol (err e) mint = take 8 mint ++ (0x2026 ∷ [])
