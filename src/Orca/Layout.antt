-- ===== src/Orca/Layout.antt =====
-- The structs of the Whirlpool accounts: `src/protocols/orca.rs`. Borsh reads the fields of a struct in
-- their order; its readers of numbers, of public keys and of Booleans are parameters.
use tick_liq.Prelude.{◌>>=◌, Bool, ℕ, List, some}
use tick_liq.Prelude.Int.{ℤ}
use tick_liq.Prelude.Borsh.{Reader, Borsh, read_array}
use tick_liq.Orca.{tick_array_size}

-- `_whirlpool_bump` and `_tick_spacing_seed` are arrays of one and of two bytes.
pub record WhirlpoolPool (Pubkey : Type 0) : Type 0 where
  pub whirlpools_config : Pubkey
  pub whirlpool_bump : ℕ
  pub tick_spacing : ℕ
  pub tick_spacing_seed : ℕ × ℕ
  pub fee_rate : ℕ
  pub protocol_fee_rate : ℕ
  pub liquidity : ℕ
  pub sqrt_price : ℕ
  pub tick_current_index : ℤ
  pub protocol_fee_owed_a : ℕ
  pub protocol_fee_owed_b : ℕ
  pub token_mint_a : Pubkey
  pub token_vault_a : Pubkey
  pub fee_growth_global_a : ℕ
  pub token_mint_b : Pubkey
  pub token_vault_b : Pubkey
  pub fee_growth_global_b : ℕ
  pub reward_last_updated_timestamp : ℕ

pub record WhirlpoolPosition (Pubkey : Type 0) : Type 0 where
  pub whirlpool : Pubkey
  pub position_mint : Pubkey
  pub liquidity : ℕ
  pub tick_lower_index : ℤ
  pub tick_upper_index : ℤ
  pub fee_growth_checkpoint_a : ℕ
  pub fee_owed_a : ℕ
  pub fee_growth_checkpoint_b : ℕ
  pub fee_owed_b : ℕ

pub record Tick : Type 0 where
  pub initialized : Bool
  pub liquidity_net : ℤ
  pub liquidity_gross : ℕ
  pub fee_growth_outside_a : ℕ
  pub fee_growth_outside_b : ℕ
  pub reward_growths_outside : List ℕ

pub record TickArray (Pubkey : Type 0) : Type 0 where
  pub start_tick_index : ℤ
  pub ticks : List Tick
  pub whirlpool : Pubkey

abbrev pub num_rewards : ℕ
num_rewards = 3

module _ {Pubkey : Type 0} (borsh : Borsh Pubkey) where
  unfoldable pub read_pool : Reader (WhirlpoolPool Pubkey)
  read_pool s = do
    (whirlpools_config, s) ← borsh.read_key s
    (whirlpool_bump, s) ← borsh.read_uint 1 s
    (tick_spacing, s) ← borsh.read_uint 2 s
    (seed, s) ← borsh.read_uint 1 s
    (seed', s) ← borsh.read_uint 1 s
    (fee_rate, s) ← borsh.read_uint 2 s
    (protocol_fee_rate, s) ← borsh.read_uint 2 s
    (liquidity, s) ← borsh.read_uint 16 s
    (sqrt_price, s) ← borsh.read_uint 16 s
    (tick_current_index, s) ← borsh.read_int 4 s
    (protocol_fee_owed_a, s) ← borsh.read_uint 8 s
    (protocol_fee_owed_b, s) ← borsh.read_uint 8 s
    (token_mint_a, s) ← borsh.read_key s
    (token_vault_a, s) ← borsh.read_key s
    (fee_growth_global_a, s) ← borsh.read_uint 16 s
    (token_mint_b, s) ← borsh.read_key s
    (token_vault_b, s) ← borsh.read_key s
    (fee_growth_global_b, s) ← borsh.read_uint 16 s
    (reward_last_updated_timestamp, s) ← borsh.read_uint 8 s
    some (
      record {
        whirlpools_config = whirlpools_config;
        whirlpool_bump = whirlpool_bump;
        tick_spacing = tick_spacing;
        tick_spacing_seed = (seed, seed');
        fee_rate = fee_rate;
        protocol_fee_rate = protocol_fee_rate;
        liquidity = liquidity;
        sqrt_price = sqrt_price;
        tick_current_index = tick_current_index;
        protocol_fee_owed_a = protocol_fee_owed_a;
        protocol_fee_owed_b = protocol_fee_owed_b;
        token_mint_a = token_mint_a;
        token_vault_a = token_vault_a;
        fee_growth_global_a = fee_growth_global_a;
        token_mint_b = token_mint_b;
        token_vault_b = token_vault_b;
        fee_growth_global_b = fee_growth_global_b;
        reward_last_updated_timestamp = reward_last_updated_timestamp;
      },
      s,
    )

  unfoldable pub read_position : Reader (WhirlpoolPosition Pubkey)
  read_position s = do
    (whirlpool, s) ← borsh.read_key s
    (position_mint, s) ← borsh.read_key s
    (liquidity, s) ← borsh.read_uint 16 s
    (tick_lower_index, s) ← borsh.read_int 4 s
    (tick_upper_index, s) ← borsh.read_int 4 s
    (fee_growth_checkpoint_a, s) ← borsh.read_uint 16 s
    (fee_owed_a, s) ← borsh.read_uint 8 s
    (fee_growth_checkpoint_b, s) ← borsh.read_uint 16 s
    (fee_owed_b, s) ← borsh.read_uint 8 s
    some (
      record {
        whirlpool = whirlpool;
        position_mint = position_mint;
        liquidity = liquidity;
        tick_lower_index = tick_lower_index;
        tick_upper_index = tick_upper_index;
        fee_growth_checkpoint_a = fee_growth_checkpoint_a;
        fee_owed_a = fee_owed_a;
        fee_growth_checkpoint_b = fee_growth_checkpoint_b;
        fee_owed_b = fee_owed_b;
      },
      s,
    )

  pub read_tick : Reader Tick
  read_tick s = do
    (initialized, s) ← borsh.read_bool s
    (liquidity_net, s) ← borsh.read_int 16 s
    (liquidity_gross, s) ← borsh.read_uint 16 s
    (fee_growth_outside_a, s) ← borsh.read_uint 16 s
    (fee_growth_outside_b, s) ← borsh.read_uint 16 s
    (reward_growths_outside, s) ← read_array (borsh.read_uint 16) num_rewards s
    some (
      record {
        initialized = initialized;
        liquidity_net = liquidity_net;
        liquidity_gross = liquidity_gross;
        fee_growth_outside_a = fee_growth_outside_a;
        fee_growth_outside_b = fee_growth_outside_b;
        reward_growths_outside = reward_growths_outside;
      },
      s,
    )

  unfoldable pub read_tick_array : Reader (TickArray Pubkey)
  unfolding read_tick
  read_tick_array s = do
    (start_tick_index, s) ← borsh.read_int 4 s
    (ticks, s) ← read_array read_tick tick_array_size s
    (whirlpool, s) ← borsh.read_key s
    some (record { start_tick_index = start_tick_index; ticks = ticks; whirlpool = whirlpool }, s)
