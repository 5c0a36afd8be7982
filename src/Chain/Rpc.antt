-- ===== src/Chain/Rpc.antt =====
-- The RPC client of `src/rpc.rs`: retries with backoff, and accounts that are read only from the program
-- that is expected to own them.
pub mod Retry
pub mod Owner
use tick_liq.Prelude.{
  get_elem?, length, leb, ◌^◌, ◌&&◌, zero, none, not, ◌*◌, suc, some, ◌∷◌, ◌++◌, if◌then◌else◌, [],
  Option, Bool, List, ℕ,
}
use tick_liq.Prelude.Result.{Result, ok, err}

-- `MAX_ATTEMPTS` and `RETRY_BASE` in milliseconds.
abbrev pub max_attempts : ℕ
max_attempts = 3

abbrev pub retry_base : ℕ
retry_base = 250

-- The accounts that a node gives.
pub record Account {ℓ} (Pubkey : Type ℓ) : Type ℓ where
  pub owner : Pubkey
  pub bytes : List ℕ

-- `MINT_DECIMALS_OFFSET`
abbrev pub mint_decimals_offset : ℕ
mint_decimals_offset = 44

-- The delays that are slept before attempt `attempt`.
abbrev pub delay_before : ℕ → List ℕ
delay_before zero = []
delay_before (suc n) = retry_base * 2 ^ n ∷ []

module _ {ℓ κ} {E : Type ℓ} {A : Type κ} where
  after_attempt : Result E A → List ℕ → (E → Result E A × List ℕ) → Result E A × List ℕ
  after_attempt (ok v) delays again = (ok v, delays)
  after_attempt (err e) delays again = ((again e).0, delays ++ (again e).1)

  -- The loop from attempt `attempt` on, with `fuel` attempts left: the result, and the delays it sleeps.
  -- `f i` is the answer to the call of attempt `i`.
  retry_from : (ℕ → Result E A) → ℕ → ℕ → E → Result E A × List ℕ
  unfolding after_attempt
  retry_from f zero attempt last_err = (err last_err, [])
  retry_from f (suc fuel) attempt last_err =
      let again = retry_from f fuel (suc attempt) in
      after_attempt (f attempt) (delay_before attempt) again

  unfoldable pub retry : E → (ℕ → Result E A) → Result E A × List ℕ
  unfolding retry_from
  retry no_attempts f = retry_from f max_attempts 0 no_attempts

-- `verify_owner`; the error carries the two owners.
unfoldable pub verify_owner {κ} :
    {Pubkey : Type κ}
    → (Pubkey → Pubkey → Bool)
    → Pubkey
    → Pubkey
    → Result (Pubkey × Pubkey) (Unit {0})
verify_owner same actual expected = if same actual expected then ok tt else err (actual, expected)

pub data RpcError {ℓ} (Pubkey : Type ℓ) : Type ℓ where
  no_attempts : RpcError Pubkey
  invalid_address : RpcError Pubkey
  not_found : RpcError Pubkey  -- the call failed
  wrong_owner : Pubkey × Pubkey → RpcError Pubkey
  too_short : ℕ → RpcError Pubkey

module _ {ℓ} {Pubkey : Type ℓ} (same : Pubkey → Pubkey → Bool) where
  if_owned : Result (Pubkey × Pubkey) (Unit {0}) → List ℕ → Result (RpcError Pubkey) (List ℕ)
  if_owned (ok _) bytes = ok bytes
  if_owned (err owners) bytes = err (wrong_owner owners)

  checked_data : Account Pubkey → Pubkey → Result (RpcError Pubkey) (List ℕ)
  unfolding if_owned
  checked_data account expected = if_owned (verify_owner same account.owner expected) account.bytes

  checked_result :
      Result (RpcError Pubkey) (Account Pubkey) → Pubkey → Result (RpcError Pubkey) (List ℕ)
  unfolding checked_data
  checked_result (ok account) expected = checked_data account expected
  checked_result (err e) expected = err e

  -- `address` is what `Pubkey::from_str` makes of it; the answers are those of `get_account`.
  unfoldable pub fetch_account_checked :
      Option Pubkey
      → (Pubkey → ℕ → Result (RpcError Pubkey) (Account Pubkey))
      → Pubkey
      → Result (RpcError Pubkey) (List ℕ)
  unfolding checked_result retry
  fetch_account_checked none get_account expected = err invalid_address
  fetch_account_checked (some pubkey) get_account expected =
      checked_result (retry no_attempts (get_account pubkey)).0 expected

  unfoldable pub owned : Pubkey → Option (Account Pubkey) → Option (List ℕ)
  owned expected none = none
  owned expected (some account) = if same account.owner expected then some account.bytes else none

  -- The zip with the addresses, which the warnings name.
  unfoldable pub owned_all :
      Pubkey → List (Option (Account Pubkey)) → List Pubkey → List (Option (List ℕ))
  unfolding owned
  owned_all expected [] pubkeys = []
  owned_all expected (account ∷ accounts) [] = []
  owned_all expected (account ∷ accounts) (pubkey ∷ pubkeys) =
      owned expected account ∷ owned_all expected accounts pubkeys

  unfoldable pub multiple_result :
      Pubkey
      → Result (RpcError Pubkey) (List (Option (Account Pubkey)))
      → List Pubkey
      → Result (RpcError Pubkey) (List (Option (List ℕ)))
  unfolding owned_all
  multiple_result expected (ok accounts) pubkeys = ok (owned_all expected accounts pubkeys)
  multiple_result expected (err e) pubkeys = err e

  unfoldable pub get_multiple_accounts_checked :
      List Pubkey
      → (List Pubkey → ℕ → Result (RpcError Pubkey) (List (Option (Account Pubkey))))
      → Pubkey
      → Result (RpcError Pubkey) (List (Option (List ℕ)))
  unfolding multiple_result
  get_multiple_accounts_checked pubkeys get_multiple expected =
      multiple_result expected (retry no_attempts (get_multiple pubkeys)).0 pubkeys

  byte_of : Option ℕ → Option (Result (RpcError Pubkey) ℕ)
  byte_of none = none
  byte_of (some b) = some (ok b)

  -- The byte at an index, which panics where this is `none`: the length is tested before it.
  mint_decimals :
      Pubkey
      → Pubkey
      → Result (RpcError Pubkey) (Account Pubkey)
      → Option (Result (RpcError Pubkey) ℕ)
  unfolding byte_of
  mint_decimals spl_token spl_token_2022 (err e) = some (err e)
  mint_decimals spl_token spl_token_2022 (ok account) =
      if not (same account.owner spl_token) && not (same account.owner spl_token_2022)
      then some (err (wrong_owner (account.owner, spl_token)))
      else if leb (length account.bytes) mint_decimals_offset
      then some (err (too_short (length account.bytes)))
      else byte_of (get_elem? account.bytes mint_decimals_offset)

  unfoldable pub fetch_mint_decimals :
      Pubkey
      → Pubkey
      → (Pubkey → ℕ → Result (RpcError Pubkey) (Account Pubkey))
      → Pubkey
      → Option (Result (RpcError Pubkey) ℕ)
  unfolding mint_decimals
  fetch_mint_decimals spl_token spl_token_2022 get_account mint =
      mint_decimals spl_token spl_token_2022 (retry no_attempts (get_account mint)).0
