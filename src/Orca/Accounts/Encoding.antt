-- ===== src/Orca/Accounts/Encoding.antt =====
-- The bytes of the accounts of the Whirlpool program as its layout gives them.
use tick_liq.Prelude.{ℕ, List, ◌++◌, some, ◌≡◌, refl, ◌<◌, ◌^◌}
use tick_liq.Prelude.Borsh.{Borsh, IsSigned, Encoding}
use tick_liq.Orca.Layout.{WhirlpoolPool, WhirlpoolPosition, read_pool, read_position}

-- The fields are within their types.
pub record IsPoolAccount {Pubkey : Type 0} (p : WhirlpoolPool Pubkey) : Type 0 where
  pub whirlpool_bump : p.whirlpool_bump < 256 ^ 1
  pub tick_spacing : p.tick_spacing < 256 ^ 2
  pub seed : p.tick_spacing_seed.0 < 256 ^ 1
  pub seed' : p.tick_spacing_seed.1 < 256 ^ 1
  pub fee_rate : p.fee_rate < 256 ^ 2
  pub protocol_fee_rate : p.protocol_fee_rate < 256 ^ 2
  pub liquidity : p.liquidity < 256 ^ 16
  pub sqrt_price : p.sqrt_price < 256 ^ 16
  pub tick_current_index : IsSigned 4 p.tick_current_index
  pub protocol_fee_owed_a : p.protocol_fee_owed_a < 256 ^ 8
  pub protocol_fee_owed_b : p.protocol_fee_owed_b < 256 ^ 8
  pub fee_growth_global_a : p.fee_growth_global_a < 256 ^ 16
  pub fee_growth_global_b : p.fee_growth_global_b < 256 ^ 16
  pub reward_last_updated_timestamp : p.reward_last_updated_timestamp < 256 ^ 8

pub record IsPositionAccount {Pubkey : Type 0} (p : WhirlpoolPosition Pubkey) : Type 0 where
  pub liquidity : p.liquidity < 256 ^ 16
  pub tick_lower_index : IsSigned 4 p.tick_lower_index
  pub tick_upper_index : IsSigned 4 p.tick_upper_index
  pub fee_growth_checkpoint_a : p.fee_growth_checkpoint_a < 256 ^ 16
  pub fee_owed_a : p.fee_owed_a < 256 ^ 8
  pub fee_growth_checkpoint_b : p.fee_growth_checkpoint_b < 256 ^ 16
  pub fee_owed_b : p.fee_owed_b < 256 ^ 8

module _ {Pubkey : Type 0} (borsh : Borsh Pubkey) (e : Encoding borsh) where
  -- The documented layouts, before the rewards.
  abbrev pub pool_bytes : WhirlpoolPool Pubkey → List ℕ → List ℕ
  pool_bytes p rest =
      e.write_key p.whirlpools_config
      ++ (e.write_uint 1 p.whirlpool_bump
          ++ (e.write_uint 2 p.tick_spacing
              ++ (e.write_uint 1 p.tick_spacing_seed.0
                  ++ (e.write_uint 1 p.tick_spacing_seed.1
                      ++ (e.write_uint 2 p.fee_rate
                          ++ (e.write_uint 2 p.protocol_fee_rate
                              ++ (e.write_uint 16 p.liquidity
                                  ++ (e.write_uint 16 p.sqrt_price
                                      ++ (e.write_int 4 p.tick_current_index
                                          ++ (e.write_uint 8 p.protocol_fee_owed_a
                                              ++ (e.write_uint 8 p.protocol_fee_owed_b
                                                  ++ (e.write_key p.token_mint_a
                                                      ++ (e.write_key p.token_vault_a
                                                          ++ (e.write_uint 16 p.fee_growth_global_a
                                                            ++ (e.write_key p.token_mint_b
                                                            ++ (e.write_key p.token_vault_b
                                                            ++ (e.write_uint 16
                                                            p.fee_growth_global_b
                                                            ++ (e.write_uint 8
                                                            p.reward_last_updated_timestamp
                                                            ++ rest))))))))))))))))))

  abbrev pub position_bytes : WhirlpoolPosition Pubkey → List ℕ → List ℕ
  position_bytes p rest =
      e.write_key p.whirlpool
      ++ (e.write_key p.position_mint
          ++ (e.write_uint 16 p.liquidity
              ++ (e.write_int 4 p.tick_lower_index
                  ++ (e.write_int 4 p.tick_upper_index
                      ++ (e.write_uint 16 p.fee_growth_checkpoint_a
                          ++ (e.write_uint 8 p.fee_owed_a
                              ++ (e.write_uint 16 p.fee_growth_checkpoint_b
                                  ++ (e.write_uint 8 p.fee_owed_b ++ rest))))))))

  pub read_position-position_bytes :
      (p : WhirlpoolPosition Pubkey) (rest : List ℕ)
      → IsPositionAccount p
      → read_position borsh (position_bytes p rest) ≡ some (p, rest)
  unfolding read_position
  read_position-position_bytes p rest h =
      rw
        (
          e.key_law p.whirlpool _,
          e.key_law p.position_mint _,
          e.uint_law 16 p.liquidity _ h.liquidity,
          e.int_law 4 p.tick_lower_index _ h.tick_lower_index,
          e.int_law 4 p.tick_upper_index _ h.tick_upper_index,
          e.uint_law 16 p.fee_growth_checkpoint_a _ h.fee_growth_checkpoint_a,
          e.uint_law 8 p.fee_owed_a _ h.fee_owed_a,
          e.uint_law 16 p.fee_growth_checkpoint_b _ h.fee_growth_checkpoint_b,
          e.uint_law 8 p.fee_owed_b _ h.fee_owed_b,
        )
        refl

  pub read_pool-pool_bytes :
      (p : WhirlpoolPool Pubkey) (rest : List ℕ)
      → IsPoolAccount p
      → read_pool borsh (pool_bytes p rest) ≡ some (p, rest)
  unfolding read_pool
  read_pool-pool_bytes p rest h =
      rw
        (
          e.key_law p.whirlpools_config _,
          e.uint_law 1 p.whirlpool_bump _ h.whirlpool_bump,
          e.uint_law 2 p.tick_spacing _ h.tick_spacing,
          e.uint_law 1 p.tick_spacing_seed.0 _ h.seed,
          e.uint_law 1 p.tick_spacing_seed.1 _ h.seed',
          e.uint_law 2 p.fee_rate _ h.fee_rate,
          e.uint_law 2 p.protocol_fee_rate _ h.protocol_fee_rate,
          e.uint_law 16 p.liquidity _ h.liquidity,
          e.uint_law 16 p.sqrt_price _ h.sqrt_price,
          e.int_law 4 p.tick_current_index _ h.tick_current_index,
          e.uint_law 8 p.protocol_fee_owed_a _ h.protocol_fee_owed_a,
          e.uint_law 8 p.protocol_fee_owed_b _ h.protocol_fee_owed_b,
          e.key_law p.token_mint_a _,
          e.key_law p.token_vault_a _,
          e.uint_law 16 p.fee_growth_global_a _ h.fee_growth_global_a,
          e.key_law p.token_mint_b _,
          e.key_law p.token_vault_b _,
          e.uint_law 16 p.fee_growth_global_b _ h.fee_growth_global_b,
          e.uint_law 8 p.reward_last_updated_timestamp _ h.reward_last_updated_timestamp,
        )
        refl
