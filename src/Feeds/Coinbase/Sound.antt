-- ===== src/Feeds/Coinbase/Sound.antt =====
-- What a session of the Coinbase feed leaves in the shared state, and what its flag says.
use tick_liq.Prelude.{
  later, first, ℕ, ◌≡◌, refl, not, if◌then◌else◌, Bool, true, false, Option, none, some, List, [],
  ◌∷◌, ◌⊎◌, inl, inr, Option-cases, Member,
}
use Prim.Native.String.{String}
use tick_liq.Prelude.Float.{Float}
use tick_liq.Prelude.Libm.{Libm}
use tick_liq.Feeds.Quote.{CexPrice, IsMid, mid_of-IsMid}
use tick_liq.Feeds.Coinbase.{
  run_session, CoinbaseTicker, Event, shutdown, elapsed, closed, failed, text_frame, close, ping,
  other, SessionEnd, shut_down, connect_error, ended, is_text, parse_ticker_mid, session, on_event,
  on_mid, after_event,
}

-- If the session ended by itself, its flag is `b`.
abbrev pub Says : Bool → Option SessionEnd → Type 0
Says b none = Unit
Says b (some shut_down) = Unit
Says b (some (connect_error reason)) = Unit
Says b (some (ended reason healthy)) = healthy ≡ b

module _ {ℓ} {F : Type ℓ} ⦃f : Float F⦄ ⦃m : Libm F⦄ where
  -- A `ticker` message of the product, whose quote has the middle `mid`.
  pub record IsTicker (parse : String → Option F) (product : String) (msg : CoinbaseTicker)
      (mid : F) : Type ℓ where
    pub ticker : is_text "ticker" msg.msg_type ≡ true
    pub of_product : is_text product msg.product_id ≡ true
    pub quote : IsMid parse msg.best_bid msg.best_ask mid

  guarded :
      (a b : Bool) (x : Option F) (mid : F)
      → (if not a then none else if not b then none else x) ≡ some mid
      → (a ≡ true) × (b ≡ true) × (x ≡ some mid)
  guarded true true x mid h = (refl, refl, h)
  guarded true false x mid h = absurd cc
  guarded false b x mid h = absurd cc

  pub parse_ticker_mid-IsTicker :
      (parse : String → Option F) (product : String) (frame : Option CoinbaseTicker) (mid : F)
      → parse_ticker_mid parse product frame ≡ some mid
      → (msg : CoinbaseTicker) × (frame ≡ some msg) × IsTicker parse product msg mid
  unfolding parse_ticker_mid
  parse_ticker_mid-IsTicker parse product none mid h = absurd cc
  parse_ticker_mid-IsTicker parse product (some msg) mid h =
      let g = guarded _ _ _ mid h in
      (
        msg,
        refl,
        record {
          ticker = g.0;
          of_product = g.1;
          quote = mid_of-IsMid parse msg.best_bid msg.best_ask mid g.2;
        },
      )

  -- The price stems from a message among the events, and carries the time of its arrival.
  pub record IsFrom (parse : String → Option F) (product : String) (events : List (ℕ × Event))
      (state : Option (CexPrice F)) : Type ℓ where
    pub at : ℕ
    pub msg : CoinbaseTicker
    pub mid : F
    pub among : Member (at, text_frame (some msg)) events
    pub is_ticker : IsTicker parse product msg mid
    pub holds : state ≡ some (record { price = mid; updated_at = at })

  abbrev pub Outcome :
      (String → Option F)
      → String
      → List (ℕ × Event)
      → Bool
      → Option (CexPrice F)
      → Option SessionEnd × Option (CexPrice F)
      → Type ℓ
  Outcome parse product events got state r =
      ((r.1 ≡ state) × Says got r.0) ⊎ (IsFrom parse product events r.1 × Says true r.0)

  later-Outcome :
      (parse : String → Option F) (product : String) (e : ℕ × Event) (events : List (ℕ × Event))
      (got : Bool) (state : Option (CexPrice F)) (r : Option SessionEnd × Option (CexPrice F))
      → Outcome parse product events got state r
      → Outcome parse product (e ∷ events) got state r
  later-Outcome parse product e events got state r (inl h) = inl h
  later-Outcome parse product e events got state r (inr (k, says)) = inr (
    record {
      at = k.at;
      msg = k.msg;
      mid = k.mid;
      among = later k.among;
      is_ticker = k.is_ticker;
      holds = k.holds;
    },
    says,
  )

  -- A price that was just accepted is kept, or a later one replaces it.
  accepted-Outcome :
      (parse : String → Option F) (product : String) (now : ℕ) (msg : CoinbaseTicker) (mid : F)
      (events : List (ℕ × Event)) (got : Bool) (state : Option (CexPrice F))
      (r : Option SessionEnd × Option (CexPrice F))
      → IsTicker parse product msg mid
      → Outcome parse product events true (some (record { price = mid; updated_at = now })) r
      → Outcome parse product ((now, text_frame (some msg)) ∷ events) got state r
  accepted-Outcome parse product now msg mid events got state r t (inl (same, says)) =
      inr (
        record { at = now; msg = msg; mid = mid; among = first; is_ticker = t; holds = same },
        says,
      )
  accepted-Outcome parse product now msg mid events got state r t (inr k) =
      later-Outcome parse product _ events got state r (inr k)

  session-Outcome :
      (parse : String → Option F) (product : String) (events : List (ℕ × Event)) (got : Bool)
      (state : Option (CexPrice F))
      → Outcome parse product events got state (session parse product events got state)
  unfolding session on_event on_mid after_event
  session-Outcome parse product [] got state = inl (refl, tt)
  session-Outcome parse product ((now, shutdown) ∷ es) got state = inl (refl, tt)
  session-Outcome parse product ((now, elapsed) ∷ es) got state = inl (refl, refl)
  session-Outcome parse product ((now, closed) ∷ es) got state = inl (refl, refl)
  session-Outcome parse product ((now, failed) ∷ es) got state = inl (refl, refl)
  session-Outcome parse product ((now, close) ∷ es) got state = inl (refl, refl)
  session-Outcome parse product ((now, ping true) ∷ es) got state =
      later-Outcome parse product _ es got state _ (session-Outcome parse product es got state)
  session-Outcome parse product ((now, ping false) ∷ es) got state = inl (refl, refl)
  session-Outcome parse product ((now, other) ∷ es) got state =
      later-Outcome parse product _ es got state _ (session-Outcome parse product es got state)
  session-Outcome parse product ((now, text_frame frame) ∷ es) got state =
      elim (Option-cases (parse_ticker_mid parse product frame)) [
        | inl e ↦ rw e (
            later-Outcome parse product _ es got state _
              (session-Outcome parse product es got state))
        | inr (mid, e) ↦
            let t = parse_ticker_mid-IsTicker parse product frame mid e in
            rw (e, t.1)
              (accepted-Outcome parse product now t.0 mid es got state _ t.2
                (session-Outcome parse product es true _))
      ]

  -- A session either leaves the state as it was, and then its flag, if it ends by itself, is false; or the
  -- state holds the price of a `ticker` message of the product among its events, with the time of that
  -- message, the middle of a bid and an ask that are finite, positive and not crossed, and then the
  -- flag is true.
  pub run_session-cases :
      (parse : String → Option F) (product : String) (connects subscribes : Bool)
      (events : List (ℕ × Event)) (state : Option (CexPrice F))
      → let r = run_session parse product connects subscribes events state in
        ((r.1 ≡ state) × Says false r.0) ⊎ (IsFrom parse product events r.1 × Says true r.0)
  unfolding run_session
  run_session-cases parse product false subscribes events state = inl (refl, tt)
  run_session-cases parse product true false events state = inl (refl, tt)
  run_session-cases parse product true true events state =
      session-Outcome parse product events false state
