-- ===== src/Orca/Accounts/Roundtrip.antt =====
-- The parse of the accounts of the Whirlpool program on the bytes that its layout gives them.
use tick_liq.Prelude.Borsh.{Borsh, Encoding}
use tick_liq.Prelude.{
  true, none, Bool, drop-length-append, take-length-append, length-append, ◌∙◌, sym, arith,
  if◌then◌else◌, ap, false, drop, ltb, take, length, ℕ, List, ◌++◌, some, ◌≡◌, refl,
}
use tick_liq.Orca.Layout.{WhirlpoolPool, WhirlpoolPosition}
use tick_liq.Orca.Accounts.{
  other_type, discriminator, whirlpool_type, unless_rejected, tick_array_type, forbidden_type,
  AccountError, position_type, parse_position, reject_wrong_account_type, AccountType, parse_pool,
}
use tick_liq.Prelude.Result.{ok, err, Result}
use tick_liq.Prelude.Bytes.{same_bytes}
use tick_liq.Orca.Accounts.Encoding.{
  read_position-position_bytes, read_pool-pool_bytes, position_bytes, pool_bytes, IsPositionAccount,
  IsPoolAccount,
}

-- What the parsers should make of bytes with the discriminator, given the other types of account.
pub outcome : {A : Type 0} → List ℕ → AccountType → AccountType → A → Result AccountError A
outcome disc other another a =
    if same_bytes disc (discriminator other)
    then err (other_type other)
    else if same_bytes disc (discriminator another)
    then err (other_type another)
    else ok a

module _ (disc bytes : List ℕ) (h : length disc ≡ 8) where
  pub disc-long : ltb (length (disc ++ bytes)) 8 ≡ false
  disc-long = ground (arith, h, length-append disc bytes)

  disc-taken : take 8 (disc ++ bytes) ≡ disc
  disc-taken = ap (λ n. take n (disc ++ bytes)) (sym h) ∙ take-length-append disc bytes

  pub disc-dropped : drop 8 (disc ++ bytes) ≡ bytes
  disc-dropped = ap (λ n. drop n (disc ++ bytes)) (sym h) ∙ drop-length-append disc bytes

unless_rejected-tests :
    {A : Type 0} (b c : Bool) (t u : AccountType) (a : A)
    → unless_rejected (if b then some t else if c then some u else none) (ok a)
      ≡ (if b then err (other_type t) else if c then err (other_type u) else ok a)
unless_rejected-tests true c t u a = refl
unless_rejected-tests false true t u a = refl
unless_rejected-tests false false t u a = refl

module _ {Pubkey : Type 0} (borsh : Borsh Pubkey) (e : Encoding borsh) where
  -- The bytes of a pool and of a position, after 8 bytes that say the type of the account and before any
  -- rewards, are read back field by field; an account of one of the other types is refused by its name.
  pub parse_pool-parse_position :
      (disc rest : List ℕ) (pool : WhirlpoolPool Pubkey) (position : WhirlpoolPosition Pubkey)
      → length disc ≡ 8
      → IsPoolAccount pool
      → IsPositionAccount position
      → (parse_pool borsh (disc ++ pool_bytes borsh e pool rest)
          ≡ outcome disc position_type tick_array_type pool)
        × (parse_position borsh (disc ++ position_bytes borsh e position rest)
            ≡ outcome disc whirlpool_type tick_array_type position)
  unfolding parse_pool parse_position reject_wrong_account_type forbidden_type outcome
  parse_pool-parse_position disc rest pool position h pool_fits position_fits =
      let of_pool = pool_bytes borsh e pool rest in
      let of_position = position_bytes borsh e position rest in
      (
        rw
            (
              disc-long disc of_pool h,
              disc-taken disc of_pool h,
              disc-dropped disc of_pool h,
              read_pool-pool_bytes borsh e pool rest pool_fits,
            )
            (unless_rejected-tests _ _ position_type tick_array_type pool),
        rw
            (
              disc-long disc of_position h,
              disc-taken disc of_position h,
              disc-dropped disc of_position h,
              read_position-position_bytes borsh e position rest position_fits,
            )
            (unless_rejected-tests _ _ whirlpool_type tick_array_type position),
      )
