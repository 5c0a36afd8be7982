-- ===== src/Raydium/Roundtrip.antt =====
-- The parse of the Raydium accounts on the bytes that the layout of the structs gives them.
use tick_liq.Prelude.{ℕ, List, ◌++◌, some, ◌≡◌, refl, ◌<◌, ◌^◌, length}
use tick_liq.Prelude.Borsh.{Borsh, IsSigned, Encoding}
use tick_liq.Raydium.{
  RaydiumPool, RaydiumPosition, read_raydium_pool, read_raydium_position, parse_raydium_pool,
  parse_raydium_position,
}
use tick_liq.Prelude.Result.{ok}
use tick_liq.Orca.Accounts.Roundtrip.{disc-dropped, disc-long}

-- The fields are within their types.
pub record IsRaydiumPool {Pubkey : Type 0} (p : RaydiumPool Pubkey) : Type 0 where
  pub bump : p.bump < 256 ^ 1
  pub mint_decimals_0 : p.mint_decimals_0 < 256 ^ 1
  pub mint_decimals_1 : p.mint_decimals_1 < 256 ^ 1
  pub tick_spacing : p.tick_spacing < 256 ^ 2
  pub liquidity : p.liquidity < 256 ^ 16
  pub sqrt_price_x64 : p.sqrt_price_x64 < 256 ^ 16
  pub tick_current : IsSigned 4 p.tick_current

pub record IsRaydiumPosition {Pubkey : Type 0} (p : RaydiumPosition Pubkey) : Type 0 where
  pub bump : p.bump < 256 ^ 1
  pub tick_lower_index : IsSigned 4 p.tick_lower_index
  pub tick_upper_index : IsSigned 4 p.tick_upper_index
  pub liquidity : p.liquidity < 256 ^ 16
  pub fee_growth_inside_0_last_x64 : p.fee_growth_inside_0_last_x64 < 256 ^ 16
  pub fee_growth_inside_1_last_x64 : p.fee_growth_inside_1_last_x64 < 256 ^ 16
  pub token_fees_owed_0 : p.token_fees_owed_0 < 256 ^ 8
  pub token_fees_owed_1 : p.token_fees_owed_1 < 256 ^ 8

module _ {Pubkey : Type 0} (borsh : Borsh Pubkey) (e : Encoding borsh) where
  abbrev pub raydium_pool_bytes : RaydiumPool Pubkey → List ℕ → List ℕ
  raydium_pool_bytes p rest =
      e.write_uint 1 p.bump
      ++ (e.write_key p.amm_config
          ++ (e.write_key p.owner
              ++ (e.write_key p.token_mint_0
                  ++ (e.write_key p.token_mint_1
                      ++ (e.write_key p.token_vault_0
                          ++ (e.write_key p.token_vault_1
                              ++ (e.write_key p.observation_key
                                  ++ (e.write_uint 1 p.mint_decimals_0
                                      ++ (e.write_uint 1 p.mint_decimals_1
                                          ++ (e.write_uint 2 p.tick_spacing
                                              ++ (e.write_uint 16 p.liquidity
                                                  ++ (e.write_uint 16 p.sqrt_price_x64
                                                      ++ (e.write_int 4 p.tick_current
                                                          ++ rest)))))))))))))

  abbrev pub raydium_position_bytes : RaydiumPosition Pubkey → List ℕ → List ℕ
  raydium_position_bytes p rest =
      e.write_uint 1 p.bump
      ++ (e.write_key p.nft_mint
          ++ (e.write_key p.pool_id
              ++ (e.write_int 4 p.tick_lower_index
                  ++ (e.write_int 4 p.tick_upper_index
                      ++ (e.write_uint 16 p.liquidity
                          ++ (e.write_uint 16 p.fee_growth_inside_0_last_x64
                              ++ (e.write_uint 16 p.fee_growth_inside_1_last_x64
                                  ++ (e.write_uint 8 p.token_fees_owed_0
                                      ++ (e.write_uint 8 p.token_fees_owed_1 ++ rest)))))))))

  read_raydium_pool-bytes :
      (p : RaydiumPool Pubkey) (rest : List ℕ)
      → IsRaydiumPool p
      → read_raydium_pool borsh (raydium_pool_bytes p rest) ≡ some (p, rest)
  unfolding read_raydium_pool
  read_raydium_pool-bytes p rest h =
      rw
        (
          e.uint_law 1 p.bump _ h.bump,
          e.key_law p.amm_config _,
          e.key_law p.owner _,
          e.key_law p.token_mint_0 _,
          e.key_law p.token_mint_1 _,
          e.key_law p.token_vault_0 _,
          e.key_law p.token_vault_1 _,
          e.key_law p.observation_key _,
          e.uint_law 1 p.mint_decimals_0 _ h.mint_decimals_0,
          e.uint_law 1 p.mint_decimals_1 _ h.mint_decimals_1,
          e.uint_law 2 p.tick_spacing _ h.tick_spacing,
          e.uint_law 16 p.liquidity _ h.liquidity,
          e.uint_law 16 p.sqrt_price_x64 _ h.sqrt_price_x64,
          e.int_law 4 p.tick_current _ h.tick_current,
        )
        refl

  read_raydium_position-bytes :
      (p : RaydiumPosition Pubkey) (rest : List ℕ)
      → IsRaydiumPosition p
      → read_raydium_position borsh (raydium_position_bytes p rest) ≡ some (p, rest)
  unfolding read_raydium_position
  read_raydium_position-bytes p rest h =
      rw
        (
          e.uint_law 1 p.bump _ h.bump,
          e.key_law p.nft_mint _,
          e.key_law p.pool_id _,
          e.int_law 4 p.tick_lower_index _ h.tick_lower_index,
          e.int_law 4 p.tick_upper_index _ h.tick_upper_index,
          e.uint_law 16 p.liquidity _ h.liquidity,
          e.uint_law 16 p.fee_growth_inside_0_last_x64 _ h.fee_growth_inside_0_last_x64,
          e.uint_law 16 p.fee_growth_inside_1_last_x64 _ h.fee_growth_inside_1_last_x64,
          e.uint_law 8 p.token_fees_owed_0 _ h.token_fees_owed_0,
          e.uint_law 8 p.token_fees_owed_1 _ h.token_fees_owed_1,
        )
        refl

  -- The bytes of a Raydium pool and of a position are read back field by field, whatever the 8 bytes
  -- before them say of the type of the account and whatever follows them.
  parse_raydium_pool-parse_raydium_position :
      (disc rest : List ℕ) (pool : RaydiumPool Pubkey) (position : RaydiumPosition Pubkey)
      → length disc ≡ 8
      → IsRaydiumPool pool
      → IsRaydiumPosition position
      → (parse_raydium_pool borsh (disc ++ raydium_pool_bytes pool rest) ≡ ok pool)
        × (parse_raydium_position borsh (disc ++ raydium_position_bytes position rest)
            ≡ ok position)
  unfolding parse_raydium_pool parse_raydium_position
  parse_raydium_pool-parse_raydium_position disc rest pool position h pool_fits position_fits = (
    rw
        (
          disc-long disc (raydium_pool_bytes pool rest) h,
          disc-dropped disc (raydium_pool_bytes pool rest) h,
          read_raydium_pool-bytes pool rest pool_fits,
        )
        refl,
    rw
        (
          disc-long disc (raydium_position_bytes position rest) h,
          disc-dropped disc (raydium_position_bytes position rest) h,
          read_raydium_position-bytes position rest position_fits,
        )
        refl,
  )
