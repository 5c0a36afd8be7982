-- ===== src/Watch/Figures.antt =====
-- What a tick of `src/main.rs` computes of a position: its fees, its value and its impermanent loss.
use tick_liq.Prelude.{ℕ, Bool, Option, none, some, ◌+◌, ◌%◌, ◌&&◌, ◌>>=◌}
use tick_liq.Prelude.Float.{Float, ◌⊕◌, ◌⊗◌, ◌⊘◌, lit}
use tick_liq.Prelude.Libm.{Libm}
use tick_liq.Prelude.Int.{ℤ, pos, leb_ℤ}
use tick_liq.Prelude.Word.{u64_mod}
use tick_liq.Math.Fees.{compute_accrued_fees}
use tick_liq.Math.Il.{compute_il}
use tick_liq.Math.Price.{sqrt_q64_to_ui_price, ten_to}
use tick_liq.Math.Amounts.{WhirlpoolsCore, TokenAmounts, compute_token_amounts}
use tick_liq.Orca.Layout.{WhirlpoolPool, WhirlpoolPosition}

-- What is read at the start of the session.
pub record Session {ℓ} (F : Type ℓ) : Type ℓ where
  pub fee_growth_baseline_a : ℕ
  pub fee_growth_baseline_b : ℕ
  pub decimals_a : ℕ
  pub decimals_b : ℕ
  pub entry_price : F

pub record Figures {ℓ} (F : Type ℓ) : Type ℓ where
  pub price : F
  pub fees_earned : F
  pub position_value : F
  pub il_usd : F

-- `fee_owed + accrued` on `u64`.
abbrev pub owed_with : ℕ → ℕ → ℕ
owed_with fee_owed accrued = (fee_owed + accrued) % u64_mod

-- `tick_current >= lower && tick_current <= upper`
abbrev pub is_in_range : {Key : Type 0} → WhirlpoolPool Key → WhirlpoolPosition Key → Bool
is_in_range pool position =
    leb_ℤ position.tick_lower_index pool.tick_current_index
    && leb_ℤ pool.tick_current_index position.tick_upper_index

module _ {ℓ} {F : Type ℓ} ⦃f : Float F⦄ ⦃m : Libm F⦄ where
  -- Two amounts of tokens in dollars: `a / scale_a * price + b / scale_b`.
  abbrev pub in_usd : ℕ → ℕ → F → ℕ → ℕ → F
  in_usd decimals_a decimals_b price a b =
      lit a ⊘ ten_to (pos decimals_a) ⊗ price ⊕ lit b ⊘ ten_to (pos decimals_b)

  value_of : ℕ → ℕ → F → Option TokenAmounts → F
  value_of decimals_a decimals_b price none = lit 0
  value_of decimals_a decimals_b price (some t) =
      in_usd decimals_a decimals_b price t.amount_a t.amount_b

  -- The price of a bound of the range.
  unfoldable pub bound_price : WhirlpoolsCore → Session F → ℤ → F
  bound_price core session tick =
      sqrt_q64_to_ui_price (core.tick_index_to_sqrt_price tick) session.decimals_a
        session.decimals_b

module _ {ℓ} {F : Type ℓ} ⦃f : Float F⦄ ⦃m : Libm F⦄ {Key : Type 0} where
  unfoldable pub fees_of : Session F → WhirlpoolPool Key → WhirlpoolPosition Key → F → F
  fees_of session pool position price =
      let accrued_a =
        compute_accrued_fees pool.fee_growth_global_a session.fee_growth_baseline_a
          position.liquidity in
      let accrued_b =
        compute_accrued_fees pool.fee_growth_global_b session.fee_growth_baseline_b
          position.liquidity in
      in_usd session.decimals_a session.decimals_b price (owed_with position.fee_owed_a accrued_a)
        (owed_with position.fee_owed_b accrued_b)

  -- `none` is the panic of `clamp`.
  unfoldable pub figures_of :
      WhirlpoolsCore
      → Session F
      → WhirlpoolPool Key
      → WhirlpoolPosition Key
      → F
      → Option (Figures F)
  unfolding fees_of value_of bound_price compute_token_amounts
  figures_of core session pool position price =
      let value = value_of session.decimals_a session.decimals_b price (
        compute_token_amounts core position.liquidity pool.sqrt_price position.tick_lower_index
          position.tick_upper_index) in
      do
        il_fraction ←
            compute_il session.entry_price price
              (bound_price core session position.tick_lower_index)
              (bound_price core session position.tick_upper_index)
        some (record {
          price = price;
          fees_earned = fees_of session pool position price;
          position_value = value;
          il_usd = il_fraction ⊗ value;
        })
