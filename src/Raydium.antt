-- ===== src/Raydium.antt =====
-- The accounts of the Raydium program: `src/protocols/raydium.rs`, over the readers of Borsh.
pub mod Roundtrip
use tick_liq.Prelude.{◌>>=◌, drop, length, ltb, if◌then◌else◌, ℕ, List, some}
use tick_liq.Prelude.Borsh.{Reader, Borsh}
use tick_liq.Prelude.Int.{ℤ}
use tick_liq.Prelude.Result.{err, Result}
use tick_liq.Orca.Accounts.{deserialized, short_account, disc_length, AccountError}

pub record RaydiumPool (Pubkey : Type 0) : Type 0 where
  pub bump : ℕ
  pub amm_config : Pubkey
  pub owner : Pubkey
  pub token_mint_0 : Pubkey
  pub token_mint_1 : Pubkey
  pub token_vault_0 : Pubkey
  pub token_vault_1 : Pubkey
  pub observation_key : Pubkey
  pub mint_decimals_0 : ℕ
  pub mint_decimals_1 : ℕ
  pub tick_spacing : ℕ
  pub liquidity : ℕ
  pub sqrt_price_x64 : ℕ
  pub tick_current : ℤ

pub record RaydiumPosition (Pubkey : Type 0) : Type 0 where
  pub bump : ℕ
  pub nft_mint : Pubkey
  pub pool_id : Pubkey
  pub tick_lower_index : ℤ
  pub tick_upper_index : ℤ
  pub liquidity : ℕ
  pub fee_growth_inside_0_last_x64 : ℕ
  pub fee_growth_inside_1_last_x64 : ℕ
  pub token_fees_owed_0 : ℕ
  pub token_fees_owed_1 : ℕ

module _ {Pubkey : Type 0} (borsh : Borsh Pubkey) where
  read_raydium_pool : Reader (RaydiumPool Pubkey)
  read_raydium_pool s = do
    (bump, s) ← borsh.read_uint 1 s
    (amm_config, s) ← borsh.read_key s
    (owner, s) ← borsh.read_key s
    (token_mint_0, s) ← borsh.read_key s
    (token_mint_1, s) ← borsh.read_key s
    (token_vault_0, s) ← borsh.read_key s
    (token_vault_1, s) ← borsh.read_key s
    (observation_key, s) ← borsh.read_key s
    (mint_decimals_0, s) ← borsh.read_uint 1 s
    (mint_decimals_1, s) ← borsh.read_uint 1 s
    (tick_spacing, s) ← borsh.read_uint 2 s
    (liquidity, s) ← borsh.read_uint 16 s
    (sqrt_price_x64, s) ← borsh.read_uint 16 s
    (tick_current, s) ← borsh.read_int 4 s
    some (
      record {
        bump = bump;
        amm_config = amm_config;
        owner = owner;
        token_mint_0 = token_mint_0;
        token_mint_1 = token_mint_1;
        token_vault_0 = token_vault_0;
        token_vault_1 = token_vault_1;
        observation_key = observation_key;
        mint_decimals_0 = mint_decimals_0;
        mint_decimals_1 = mint_decimals_1;
        tick_spacing = tick_spacing;
        liquidity = liquidity;
        sqrt_price_x64 = sqrt_price_x64;
        tick_current = tick_current;
      },
      s,
    )

  read_raydium_position : Reader (RaydiumPosition Pubkey)
  read_raydium_position s = do
    (bump, s) ← borsh.read_uint 1 s
    (nft_mint, s) ← borsh.read_key s
    (pool_id, s) ← borsh.read_key s
    (tick_lower_index, s) ← borsh.read_int 4 s
    (tick_upper_index, s) ← borsh.read_int 4 s
    (liquidity, s) ← borsh.read_uint 16 s
    (fee_growth_inside_0_last_x64, s) ← borsh.read_uint 16 s
    (fee_growth_inside_1_last_x64, s) ← borsh.read_uint 16 s
    (token_fees_owed_0, s) ← borsh.read_uint 8 s
    (token_fees_owed_1, s) ← borsh.read_uint 8 s
    some (
      record {
        bump = bump;
        nft_mint = nft_mint;
        pool_id = pool_id;
        tick_lower_index = tick_lower_index;
        tick_upper_index = tick_upper_index;
        liquidity = liquidity;
        fee_growth_inside_0_last_x64 = fee_growth_inside_0_last_x64;
        fee_growth_inside_1_last_x64 = fee_growth_inside_1_last_x64;
        token_fees_owed_0 = token_fees_owed_0;
        token_fees_owed_1 = token_fees_owed_1;
      },
      s,
    )

  -- `parse_pool` and `parse_position`: the first 8 bytes are skipped, and any bytes may follow.
  unfoldable pub parse_raydium_pool : List ℕ → Result AccountError (RaydiumPool Pubkey)
  unfolding read_raydium_pool
  parse_raydium_pool bytes =
      if ltb (length bytes) disc_length
      then err (short_account (length bytes))
      else deserialized (read_raydium_pool (drop disc_length bytes))

  unfoldable pub parse_raydium_position : List ℕ → Result AccountError (RaydiumPosition Pubkey)
  unfolding read_raydium_position
  parse_raydium_position bytes =
      if ltb (length bytes) disc_length
      then err (short_account (length bytes))
      else deserialized (read_raydium_position (drop disc_length bytes))
