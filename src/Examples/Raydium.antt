-- ===== src/Examples/Raydium.antt =====
-- The accounts of Raydium at concrete inputs.
use tick_liq.Prelude.Borsh.{IsSigned}
use tick_liq.Prelude.{arith, ℕ, ◌^◌}
use tick_liq.Prelude.Int.{negsuc, pos}
use tick_liq.Raydium.{RaydiumPosition, RaydiumPool}
use tick_liq.Raydium.Roundtrip.{IsRaydiumPool, IsRaydiumPosition}

abbrev raydium_pool : RaydiumPool ℕ
raydium_pool = record {
  bump = 42;
  amm_config = 1;
  owner = 2;
  token_mint_0 = 3;
  token_mint_1 = 4;
  token_vault_0 = 5;
  token_vault_1 = 6;
  observation_key = 7;
  mint_decimals_0 = 9;
  mint_decimals_1 = 6;
  tick_spacing = 64;
  liquidity = 123_456_789;
  sqrt_price_x64 = 2 ^ 64;
  tick_current = negsuc 511;
}

abbrev raydium_position : RaydiumPosition ℕ
raydium_position = record {
  bump = 7;
  nft_mint = 1;
  pool_id = 2;
  tick_lower_index = negsuc 1023;
  tick_upper_index = pos 1024;
  liquidity = 999_000_000;
  fee_growth_inside_0_last_x64 = 0x12345678;
  fee_growth_inside_1_last_x64 = 0xabcdef01;
  token_fees_owed_0 = 100;
  token_fees_owed_1 = 200;
}

raydium_pool-IsRaydiumPool : IsRaydiumPool raydium_pool
unfolding IsSigned
raydium_pool-IsRaydiumPool = record {
  bump = omega arith;
  mint_decimals_0 = omega arith;
  mint_decimals_1 = omega arith;
  tick_spacing = omega arith;
  liquidity = omega arith;
  sqrt_price_x64 = omega arith;
  tick_current = omega arith;
}

raydium_position-IsRaydiumPosition : IsRaydiumPosition raydium_position
unfolding IsSigned
raydium_position-IsRaydiumPosition = record {
  bump = omega arith;
  tick_lower_index = omega arith;
  tick_upper_index = omega arith;
  liquidity = omega arith;
  fee_growth_inside_0_last_x64 = omega arith;
  fee_growth_inside_1_last_x64 = omega arith;
  token_fees_owed_0 = omega arith;
  token_fees_owed_1 = omega arith;
}
