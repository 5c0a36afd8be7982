-- ===== src/Chain/Rpc/Owner.antt =====
-- Accounts are read only from the program that is expected to own them.
use tick_liq.Chain.Rpc.{
  wrong_owner, too_short, byte_of, mint_decimals, if_owned, verify_owner, retry, Account, RpcError,
  fetch_account_checked, fetch_mint_decimals, checked_result, checked_data, no_attempts,
}
use tick_liq.Chain.Rpc.Retry.{retry_cases}
use tick_liq.Prelude.{
  zero, leb, [], false, ◌&&◌, suc, not, ◌∷◌, arith, ◌⊎◌, get_elem?, length, none, inl, true, some,
  inr, ◌<◌, Bool-cases, ◌≡◌, Option, List, Bool, ℕ, refl,
}
use tick_liq.Prelude.Result.{err_ne_ok, Result, ok, err, ok_same}

-- `==` of public keys.
pub record IsEquality {ℓ} {A : Type ℓ} (same : A → A → Bool) : Type ℓ where
  pub sound : (a b : A) → same a b ≡ true → a ≡ b
  pub complete : (a : A) → same a a ≡ true

module _ {ℓ} {Pubkey : Type ℓ} (same : Pubkey → Pubkey → Bool) (laws : IsEquality same) where
  -- Where the bytes that the client hands out come from: one of at most three answers of the node for
  -- that address, with the expected owner.
  pub record IsOwned (get_account : ℕ → Result (RpcError Pubkey) (Account Pubkey))
      (expected : Pubkey) (bytes : List ℕ) : Type ℓ where
    pub attempt : ℕ
    pub account : Account Pubkey
    pub in_time : attempt < 3
    pub answer : get_account attempt ≡ ok account
    pub owner : account.owner ≡ expected
    pub content : account.bytes ≡ bytes

  checked_data_ok :
      (account : Account Pubkey) (expected : Pubkey) (bytes : List ℕ)
      → checked_data same account expected ≡ ok bytes
      → (account.owner ≡ expected) × (account.bytes ≡ bytes)
  unfolding checked_data verify_owner if_owned
  checked_data_ok account expected bytes h = elim (Bool-cases (same account.owner expected)) [
    | inl e ↦ (laws.sound account.owner expected e, ok_same (rw e at h))
    | inr e ↦ absurd (err_ne_ok (rw e at h))
  ]

  checked_ok :
      (get_account : ℕ → Result (RpcError Pubkey) (Account Pubkey)) (expected : Pubkey)
      (bytes : List ℕ)
      → checked_result same (retry no_attempts get_account).0 expected ≡ ok bytes
      → IsOwned get_account expected bytes
  unfolding checked_result
  checked_ok get_account expected bytes h = elim (retry_cases get_account no_attempts) [
    | inr (e, fails, last, r) ↦ absurd (err_ne_ok (rw r at h))
    | inl (k, account, early, s, r) ↦
        let found = checked_data_ok account expected bytes (rw r at h) in
        record {
          attempt = k;
          account = account;
          in_time = early;
          answer = s.success;
          owner = found.0;
          content = found.1;
        }
  ]

  -- Bytes that `fetch_account_checked` gives come from one of at most three answers of the node for the
  -- address, and that account is owned by the expected program; an address that cannot be read gives
  -- nothing.
  pub fetch_account_checked-IsOwned :
      (address : Option Pubkey)
      (get_account : Pubkey → ℕ → Result (RpcError Pubkey) (Account Pubkey)) (expected : Pubkey)
      (bytes : List ℕ)
      → fetch_account_checked same address get_account expected ≡ ok bytes
      → (pubkey : Pubkey) × (address ≡ some pubkey) × IsOwned (get_account pubkey) expected bytes
  unfolding fetch_account_checked
  fetch_account_checked-IsOwned none get_account expected bytes h = absurd (err_ne_ok h)
  fetch_account_checked-IsOwned (some pubkey) get_account expected bytes h =
      (pubkey, refl, checked_ok (get_account pubkey) expected bytes h)

  byte_of_index :
      (bytes : List ℕ) (n : ℕ) → n < length bytes → (b : ℕ) × (get_elem? bytes n ≡ some b)
  byte_of_index [] n h = absurd (omega arith)
  byte_of_index (b ∷ bytes) zero h = (b, refl)
  byte_of_index (b ∷ bytes) (suc n) h = byte_of_index bytes n (omega arith)

  -- `fetch_mint_decimals` never reads out of range, and a byte that it gives is the 45th of an answer of
  -- the node for the mint that one of the two token programs owns.
  pub fetch_mint_decimals_cases :
      (spl_token spl_token_2022 mint : Pubkey)
      (get_account : Pubkey → ℕ → Result (RpcError Pubkey) (Account Pubkey))
      → ((e : RpcError Pubkey) × (fetch_mint_decimals same spl_token spl_token_2022 get_account mint
            ≡ some (err e)))
        ⊎ ((b : ℕ) × (account : Account Pubkey) × (attempt : ℕ) × (fetch_mint_decimals same
                spl_token spl_token_2022 get_account mint
              ≡ some (ok b))
            × (get_account mint attempt ≡ ok account)
            × ((account.owner ≡ spl_token) ⊎ (account.owner ≡ spl_token_2022))
            × (get_elem? account.bytes 44 ≡ some b))
  unfolding fetch_mint_decimals mint_decimals byte_of
  fetch_mint_decimals_cases spl_token spl_token_2022 mint get_account =
      elim (retry_cases (get_account mint) no_attempts) [
        | inr (e, fails, last, r) ↦ inl (e, rw r refl)
        | inl (k, account, early, s, r) ↦ elim (Bool-cases (same account.owner spl_token)) [
          | inl a ↦ read account k r s.success (ground (arith, a)) (inl (laws.sound _ _ a))
          | inr a ↦ elim (Bool-cases (same account.owner spl_token_2022)) [
            | inl b ↦ read account k r s.success (ground (arith, a, b)) (inr (laws.sound _ _ b))
            | inr b ↦ inl (wrong_owner (account.owner, spl_token), rw (r, a, b) refl)
          ]
        ]
      ]
    where
      read :
          (account : Account Pubkey) (k : ℕ) {delays : List ℕ}
          → retry no_attempts (get_account mint) ≡ (ok account, delays)
          → get_account mint k ≡ ok account
          → not (same account.owner spl_token) && not (same account.owner spl_token_2022) ≡ false
          → (account.owner ≡ spl_token) ⊎ (account.owner ≡ spl_token_2022)
          → ((e : RpcError Pubkey) × (fetch_mint_decimals same spl_token spl_token_2022 get_account
                  mint
                ≡ some (err e)))
            ⊎ ((b : ℕ) × (account : Account Pubkey) × (attempt : ℕ) × (fetch_mint_decimals same
                    spl_token spl_token_2022 get_account mint
                  ≡ some (ok b))
                × (get_account mint attempt ≡ ok account)
                × ((account.owner ≡ spl_token) ⊎ (account.owner ≡ spl_token_2022))
                × (get_elem? account.bytes 44 ≡ some b))
      read account k r answer test owner = elim (Bool-cases (leb (length account.bytes) 44)) [
        | inl short ↦ inl (too_short (length account.bytes), rw (r, test, short) refl)
        | inr long ↦
            let found = byte_of_index account.bytes 44 (ground arith) in
            inr (found.0, account, k, rw (r, test, long, found.1) refl, answer, owner, found.1)
      ]
