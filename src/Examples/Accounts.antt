-- ===== src/Examples/Accounts.antt =====
-- The accounts of the Whirlpool program at concrete inputs.
use tick_liq.Prelude.Borsh.{IsSigned}
use tick_liq.Prelude.{
  take, ◌↔◌, Member, replicate, map, arith, ◌==◌, ℕ, List, [], ◌∷◌, ◌++◌, Option, some, none, ◌≡◌,
  refl, ◌<◌, ◌^◌, zero, suc, false,
}
use tick_liq.Orca.Layout.{Tick, TickArray, WhirlpoolPool, WhirlpoolPosition}
use tick_liq.Orca.Accounts.Encoding.{position_bytes, pool_bytes, IsPoolAccount, IsPositionAccount}
use tick_liq.Orca.Accounts.Roundtrip.{parse_pool-parse_position, outcome}
use tick_liq.Prelude.Int.{negsuc, pos}
use tick_liq.Orca.Accounts.{
  parse_tick_array, fetch_tick_arrays, parse_position, tick_array_type, position_type,
  whirlpool_type, discriminator, parse_pool,
}
use tick_liq.Chain.Rpc.{retry, get_multiple_accounts_checked, not_found, RpcError, Account}
use tick_liq.Prelude.Result.{ok, err, Result}
use tick_liq.Orca.{tick_array_start_index, tick_array_starts}
use tick_liq.Chain.Rpc.Retry.{IsFirstSuccess}
use tick_liq.Orca.Accounts.Arrays.{IsAnswered, fetch_tick_arrays-IsAnswered}
use tick_liq.Examples.Borsh.{bytewise, bytewise-Encoding}

abbrev pub pool : WhirlpoolPool ℕ
pool = record {
  whirlpools_config = 1;
  whirlpool_bump = 255;
  tick_spacing = 64;
  tick_spacing_seed = (64, 0);
  fee_rate = 3000;
  protocol_fee_rate = 300;
  liquidity = 2 ^ 70;
  sqrt_price = 2 ^ 64;
  tick_current_index = negsuc 99;
  protocol_fee_owed_a = 0;
  protocol_fee_owed_b = 1;
  token_mint_a = 2;
  token_vault_a = 3;
  fee_growth_global_a = 5;
  token_mint_b = 6;
  token_vault_b = 7;
  fee_growth_global_b = 8;
  reward_last_updated_timestamp = 9;
}

abbrev pub position : WhirlpoolPosition ℕ
position = record {
  whirlpool = 4;
  position_mint = 5;
  liquidity = 1000;
  tick_lower_index = negsuc 127;
  tick_upper_index = pos 128;
  fee_growth_checkpoint_a = 1;
  fee_owed_a = 2;
  fee_growth_checkpoint_b = 3;
  fee_owed_b = 4;
}

pool-IsPoolAccount : IsPoolAccount pool
unfolding IsSigned
pool-IsPoolAccount = record {
  whirlpool_bump = omega arith;
  tick_spacing = omega arith;
  seed = omega arith;
  seed' = omega arith;
  fee_rate = omega arith;
  protocol_fee_rate = omega arith;
  liquidity = omega arith;
  sqrt_price = omega arith;
  tick_current_index = omega arith;
  protocol_fee_owed_a = omega arith;
  protocol_fee_owed_b = omega arith;
  fee_growth_global_a = omega arith;
  fee_growth_global_b = omega arith;
  reward_last_updated_timestamp = omega arith;
}

position-IsPositionAccount : IsPositionAccount position
unfolding IsSigned
position-IsPositionAccount = record {
  liquidity = omega arith;
  tick_lower_index = omega arith;
  tick_upper_index = omega arith;
  fee_growth_checkpoint_a = omega arith;
  fee_owed_a = omega arith;
  fee_growth_checkpoint_b = omega arith;
  fee_owed_b = omega arith;
}

parse_pool-parse_position_example :
    (parse_pool bytewise
        (discriminator whirlpool_type ++ pool_bytes bytewise bytewise-Encoding pool (0 ∷ []))
      ≡ outcome (discriminator whirlpool_type) position_type tick_array_type pool)
    × (parse_position bytewise (
          discriminator whirlpool_type
          ++ position_bytes bytewise bytewise-Encoding position (0 ∷ []))
        ≡ outcome (discriminator whirlpool_type) whirlpool_type tick_array_type position)
parse_pool-parse_position_example =
    parse_pool-parse_position bytewise bytewise-Encoding (discriminator whirlpool_type) (0 ∷ [])
      pool position refl pool-IsPoolAccount position-IsPositionAccount

-- An array of spacing 64 whose ticks are all unset: 4 bytes, 88 ticks of 113 bytes, and a key.
abbrev no_tick : Tick
no_tick = record {
  initialized = false;
  liquidity_net = pos 0;
  liquidity_gross = 0;
  fee_growth_outside_a = 0;
  fee_growth_outside_b = 0;
  reward_growths_outside = 0 ∷ 0 ∷ 0 ∷ [];
}

abbrev cold_array : TickArray ℕ
cold_array = record { start_tick_index = pos 0; ticks = replicate 88 no_tick; whirlpool = 0 }

abbrev account : ℕ → List ℕ → Option (Account ℕ)
account owner bytes = some (record { owner = owner; bytes = bytes })

-- The first attempt fails; the program is 7.
abbrev answers : List ℕ → ℕ → Result (RpcError ℕ) (List (Option (Account ℕ)))
answers pubkeys zero = err not_found
answers pubkeys (suc k) =
    ok (none ∷ account 6 [] ∷ account 7 (0 ∷ []) ∷ account 7 (replicate 9957 0) ∷ none ∷ [])

fetched :
    fetch_tick_arrays bytewise
      (λ a b. a == b)
      (λ whirlpool start. whirlpool)
      answers
      7
      1
      (pos 10)
      64
    ≡ ok (cold_array ∷ [])
unfolding fetch_tick_arrays tick_array_starts tick_array_start_index get_multiple_accounts_checked
    parse_tick_array retry
fetched = refl

fetch_tick_arrays-IsAnswered_example :
    let pdas = map {B = ℕ} (λ start. 1) (tick_array_starts (pos 10) 64) in
    (k : ℕ) × (accounts : List (Option (Account ℕ))) × (k < 3)
    × IsFirstSuccess (answers pdas) k accounts
    × ((a : TickArray ℕ)
        → Member a (cold_array ∷ []) ↔ IsAnswered bytewise (λ a b. a == b) 7 (take 5 accounts) a)
fetch_tick_arrays-IsAnswered_example =
    fetch_tick_arrays-IsAnswered bytewise (λ a b. a == b) 7 (λ whirlpool start. whirlpool) answers 1
      (pos 10) 64 (cold_array ∷ []) fetched
