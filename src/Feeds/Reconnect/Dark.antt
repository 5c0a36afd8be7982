-- ===== src/Feeds/Reconnect/Dark.antt =====
-- The Coinbase feed while its sessions bring no price: the waits of its loop.
use tick_liq.Feeds.Coinbase.{
  Event, SessionEnd, shut_down, connect_error, ended, run_session, Reason,
}
use tick_liq.Feeds.Coinbase.Sound.{Says, run_session-cases}
use mathlib.Core.Path.{subst}
use tick_liq.Prelude.{
  [], length-map, ◌∙◌, ap, length, sym, refl, inr, ◌∷◌, inl, map, All, none, ◌⊎◌, ◌≡◌, Option, some,
  ℕ, List, false, Bool, ◌≢◌,
}
use tick_liq.Prelude.Float.{Float}
use tick_liq.Prelude.Libm.{Libm}
use Prim.Native.String.{String}
use tick_liq.Feeds.Quote.{CexPrice}
use tick_liq.Feeds.Reconnect.Waits.{watch_coinbase_price-waits, doubling, IsDark}
use tick_liq.Feeds.Reconnect.{Turn, watch_coinbase_price}

-- One session of the loop: whether the server accepts the connection and the subscription, what happens
-- in it, and how it ends.
pub record Attempt : Type 0 where
  pub connects : Bool
  pub subscribes : Bool
  pub events : List (ℕ × Event)
  pub end : SessionEnd

-- Its turn in the loop, with no shutdown around it.
abbrev pub turn_of : Attempt → Turn SessionEnd
turn_of a = record { stopped_before = false; result = a.end; stopped_in_wait = false }

dark_of :
    (end : SessionEnd)
    → end ≢ shut_down
    → Says false (some end)
    → ((reason : Reason) × (end ≡ connect_error reason))
      ⊎ ((reason : Reason) × (end ≡ ended reason false))
dark_of shut_down h says = absurd (h refl)
dark_of (connect_error reason) h says = inl (reason, refl)
dark_of (ended reason healthy) h says = inr (reason, rw says refl)

module _ {ℓ} {F : Type ℓ} ⦃f : Float F⦄ ⦃m : Libm F⦄ (parse : String → Option F)
    (product : String) where
  -- The session ends, without a shutdown, and leaves the state without a price.
  pub record IsPriceless (a : Attempt) : Type ℓ where
    pub ran : run_session parse product a.connects a.subscribes a.events none ≡ (some (a.end), none)
    pub running : a.end ≢ shut_down

  none_ne_some : {p : CexPrice F} → ¬ ◌≡◌ {A = Option (CexPrice F)} none (some p)
  none_ne_some e = cc

  turn_of-IsDark : (a : Attempt) → IsPriceless a → IsDark (turn_of a)
  turn_of-IsDark a p = record {
    before = refl;
    dark = elim (run_session-cases parse product a.connects a.subscribes a.events none) [
      | inl (same, says) ↦ dark_of a.end p.running (subst (λ r. Says false r.0) p.ran says)
      | inr (k, says) ↦ absurd (none_ne_some (sym (ap (λ r. r.1) p.ran) ∙ k.holds))
    ];
    during = refl;
  }

  turns-IsDark : (tries : List Attempt) → All IsPriceless tries → All IsDark (map turn_of tries)
  turns-IsDark [] h = tt
  turns-IsDark (a ∷ tries) h = (turn_of-IsDark a h.0, turns-IsDark tries h.1)

  -- From the start, and as long as every session ends by itself and leaves the state without a price,
  -- also when the server accepts every connection and subscription, the loop waits after each session
  -- before it asks the server again: 5 s after the first, twice as long after each further one, and
  -- 300 s at most.
  pub run_session-watch_coinbase_price :
      (tries : List Attempt)
      → All IsPriceless tries
      → watch_coinbase_price (map turn_of tries) ≡ (doubling 0 (length tries), false)
  run_session-watch_coinbase_price tries h =
      (watch_coinbase_price-waits (map turn_of tries)).1 (turns-IsDark tries h)
      ∙ ap (λ n. (doubling 0 n, false)) (length-map tries turn_of)
