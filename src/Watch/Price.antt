-- ===== src/Watch/Price.antt =====
-- The price of a tick in `src/main.rs`: that of the exchange while it is fresh, else that of the pool.
-- Instants are seconds of one clock that does not go back.
use tick_liq.Prelude.{ℕ, Bool, true, false, Option, none, some, ◌-◌, ltb, if◌then◌else◌}
use tick_liq.Feeds.Quote.{CexPrice}

abbrev pub cex_stale_secs : ℕ
cex_stale_secs = 30

module _ {ℓ} {F : Type ℓ} where
  -- The price, and the flag that says whether the price of the exchange was found stale.
  unfoldable pub price_now : Option (CexPrice F) → ℕ → F → Bool → F × Bool
  price_now none now onchain_price was_stale = (onchain_price, was_stale)
  price_now (some cp) now onchain_price was_stale =
      if ltb (now - cp.updated_at) cex_stale_secs then (cp.price, false) else (onchain_price, true)
