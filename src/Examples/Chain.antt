-- ===== src/Examples/Chain.antt =====
-- The reads from the chain at concrete inputs: a node that fails once, a mint, a Drift account.
use tick_liq.Chain.Rpc.{
  verify_owner, retry, Account, RpcError, not_found, no_attempts, fetch_account_checked,
  fetch_mint_decimals,
}
use tick_liq.Chain.Rpc.Owner.{fetch_account_checked-IsOwned, IsEquality, IsOwned}
use tick_liq.Chain.Drift.{i64_at, margin_of_data, pos_start, fetch_drift_margin_ratio_for}
use tick_liq.Chain.Metadata.{trim_end_nul}
use tick_liq.Prelude.{
  ◌∙◌, sym, arith, length, [], ◌≤◌, ==_refl, zero, ◌==◌, ◌∷◌, ◌*◌, ◌⊎◌, none, ◌++◌, ◌≡◌, ==_iff,
  ◌<◌, ◌+◌, Bool, Option, some, suc, List, ℕ, refl, replicate,
}
use tick_liq.Prelude.Int.{negsuc, pos, ℤ}
use tick_liq.Prelude.Milli.{Milli, milli_float}
use tick_liq.Prelude.Result.{Result, ok, err}
use tick_liq.Chain.Drift.Bounds.{fetch_drift_margin_ratio_for_cases}
use tick_liq.Chain.Drift.Total.{IsTame}
use tick_liq.Prelude.Bytes.{from_le_bytes, slice}
use tick_liq.Prelude.Word.{signed}

same_key : ℕ → ℕ → Bool
same_key a b = a == b

same_key-IsEquality : IsEquality same_key
unfolding same_key
same_key-IsEquality = record { sound = λ a b. (==_iff a b).0; complete = ==_refl }

-- A node whose first answer fails; key 7 owns the account.
abbrev answers : ℕ → Result (RpcError ℕ) (Account ℕ)
answers zero = err not_found
answers (suc i) = ok (record { owner = 7; bytes = replicate 45 6 })

retried : retry no_attempts answers ≡ (answers 1, 250 ∷ [])
unfolding retry
retried = refl

fetched : fetch_account_checked same_key (some 1) (λ key. answers) 7 ≡ ok (replicate 45 6)
unfolding fetch_account_checked same_key verify_owner
fetched = refl

fetch_account_checked-IsOwned_example :
    (pubkey : ℕ) × (some 1 ≡ some pubkey)
    × IsOwned same_key same_key-IsEquality answers 7 (replicate 45 6)
fetch_account_checked-IsOwned_example =
    fetch_account_checked-IsOwned same_key same_key-IsEquality (some 1) (λ key. answers) 7
      (replicate 45 6) fetched

abbrev mint_result : Option (Result (RpcError ℕ) ℕ)
mint_result = fetch_mint_decimals same_key 7 8 (λ key. answers) 1

-- "USDC" with two bytes of padding, after the name "USD Coin".
abbrev usdc : List ℕ
usdc = 85 ∷ 83 ∷ 68 ∷ 67 ∷ 0 ∷ 0 ∷ []

abbrev coin : List ℕ
coin = 85 ∷ 83 ∷ 68 ∷ 32 ∷ 67 ∷ 111 ∷ 105 ∷ 110 ∷ []

trimmed : trim_end_nul usdc ≡ 85 ∷ 83 ∷ 68 ∷ 67 ∷ []
unfolding trim_end_nul
trimmed = refl

-- A payload whose first position has the base 5 and the quote -1; the other positions are empty.
abbrev payload : List ℕ
payload = replicate 4408 0 ++ ((5 ∷ replicate 7 0) ++ (replicate 8 255 ++ replicate 1064 0))

payload-length : 4400 + 8 * 136 ≤ length payload
payload-length = omega arith

first_amounts :
    (i64_at payload (pos_start 0 + 8) ≡ some (pos 5))
    × (i64_at payload (pos_start 0 + 16) ≡ some (negsuc 0))
unfolding i64_at slice from_le_bytes signed
first_amounts = (refl, refl)

fetch_drift_margin_ratio_for_cases_example :
    (fetch_drift_margin_ratio_for {F = Milli} same_key 7 (λ key. answers) 1 ≡ some none)
    ⊎ ((attempt : ℕ) × (account : Account ℕ) × (ratio : Milli) × (attempt < 3)
        × (answers attempt ≡ ok account)
        × (account.owner ≡ 7)
        × (margin_of_data account.bytes ≡ some (some ratio))
        × (fetch_drift_margin_ratio_for same_key 7 (λ key. answers) 1 ≡ some (some ratio)))
fetch_drift_margin_ratio_for_cases_example =
    fetch_drift_margin_ratio_for_cases same_key same_key-IsEquality 7 (λ key. answers) 1

some_same : {a b : ℤ} → some a ≡ some b → a ≡ b
some_same h = cc

-- The other positions, at the offset of the base and at that of the quote.
zero_amounts :
    (i : ℕ)
    → 0 < i
    → i < 8
    → (i64_at payload (pos_start i + 8) ≡ some (pos 0))
      × (i64_at payload (pos_start i + 16) ≡ some (pos 0))
unfolding i64_at slice from_le_bytes signed
zero_amounts zero h k = absurd (omega arith)
zero_amounts (suc zero) h k = (refl, refl)
zero_amounts (suc (suc zero)) h k = (refl, refl)
zero_amounts (suc (suc (suc zero))) h k = (refl, refl)
zero_amounts (suc (suc (suc (suc zero)))) h k = (refl, refl)
zero_amounts (suc (suc (suc (suc (suc zero))))) h k = (refl, refl)
zero_amounts (suc (suc (suc (suc (suc (suc zero)))))) h k = (refl, refl)
zero_amounts (suc (suc (suc (suc (suc (suc (suc zero))))))) h k = (refl, refl)
zero_amounts (suc (suc (suc (suc (suc (suc (suc (suc i)))))))) h k = absurd (omega arith)

base-IsTame : IsTame payload 8
base-IsTame zero a k h = ground (arith, some_same (sym first_amounts.0 ∙ h))
base-IsTame (suc i) a k h =
    ground (arith, some_same (sym (zero_amounts (suc i) (omega arith) k).0 ∙ h))

quote-IsTame : IsTame payload 16
quote-IsTame zero a k h = ground (arith, some_same (sym first_amounts.1 ∙ h))
quote-IsTame (suc i) a k h =
    ground (arith, some_same (sym (zero_amounts (suc i) (omega arith) k).1 ∙ h))
