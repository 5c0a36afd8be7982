-- ===== src/Feeds/Binance/Sound.antt =====
-- What the Binance feed writes to the shared state, and when it takes a session for dead.
use tick_liq.Prelude.{
  ◌∙◌, sym, ℕ, ◌<◌, ◌≡◌, refl, ltb, ltb→lt, lt→ltb, Bool, true, false, Option, some, List, [], ◌∷◌,
  ◌⊎◌, ◌↔◌, inl, inr, Bool-cases, Option-cases, Member, first, later, Member-cases, Member-nil,
}
use Prim.Native.String.{String}
use tick_liq.Prelude.Float.{Float}
use tick_liq.Prelude.Libm.{Libm}
use tick_liq.Feeds.Quote.{CexPrice, mid_of, IsMid, mid_of-IsMid, apply_book_ticker}
use tick_liq.Feeds.Binance.{
  BookTicker, is_for, on_message, on_messages, Event, shutdown, tick, SessionEnd, stale, silence,
  after_tick, monitor_session,
}
use mathlib.Core.Path.{subst}

module _ {ℓ} {F : Type ℓ} ⦃f : Float F⦄ ⦃m : Libm F⦄ where
  -- The state holds the middle of the quote of a message about the symbol, with the time of that message.
  pub record IsFrom (parse : String → Option F) (symbol : List ℕ) (msgs : List (ℕ × BookTicker))
      (state : Option (CexPrice F)) : Type ℓ where
    pub at : ℕ
    pub msg : BookTicker
    pub mid : F
    pub among : Member (at, msg) msgs
    pub about : is_for symbol msg.s ≡ true
    pub quote : IsMid parse msg.b msg.a mid
    pub holds : state ≡ some (record { price = mid; updated_at = at })

  later-IsFrom :
      (parse : String → Option F) (symbol : List ℕ) (e : ℕ × BookTicker)
      (msgs : List (ℕ × BookTicker)) (state : Option (CexPrice F))
      → IsFrom parse symbol msgs state
      → IsFrom parse symbol (e ∷ msgs) state
  later-IsFrom parse symbol e msgs state k = record {
    at = k.at;
    msg = k.msg;
    mid = k.mid;
    among = later k.among;
    about = k.about;
    quote = k.quote;
    holds = k.holds;
  }

  -- One message keeps the state or writes its own quote.
  on_message-cases :
      (parse : String → Option F) (symbol : List ℕ) (now : ℕ) (msg : BookTicker)
      (state : Option (CexPrice F))
      → (on_message parse symbol now msg state ≡ state)
        ⊎ IsFrom parse symbol ((now, msg) ∷ []) (on_message parse symbol now msg state)
  unfolding on_message apply_book_ticker
  on_message-cases parse symbol now msg state = elim (Bool-cases (is_for symbol msg.s)) [
    | inr e ↦ inl (rw e refl)
    | inl e ↦ elim (Option-cases (mid_of parse msg.b msg.a)) [
      | inl n ↦ inl (rw (e, n) refl)
      | inr (mid, q) ↦ inr record {
        at = now;
        msg = msg;
        mid = mid;
        among = first;
        about = e;
        quote = mid_of-IsMid parse msg.b msg.a mid q;
        holds = rw (e, q) refl;
      }
    ]
  ]

  widen-IsFrom :
      (parse : String → Option F) (symbol : List ℕ) (e : ℕ × BookTicker)
      (msgs : List (ℕ × BookTicker)) (state : Option (CexPrice F))
      → IsFrom parse symbol (e ∷ []) state
      → IsFrom parse symbol (e ∷ msgs) state
  widen-IsFrom parse symbol e msgs state k = record {
    at = k.at;
    msg = k.msg;
    mid = k.mid;
    among = elim (Member-cases k.among) [
      | inl same ↦ subst (λ x. Member x (e ∷ msgs)) (sym same) first
      | inr m ↦ absurd (Member-nil m)
    ];
    about = k.about;
    quote = k.quote;
    holds = k.holds;
  }

  -- After any messages the state is as it was, or it holds the price of one of them: a message about the
  -- symbol that was subscribed, up to the case of its letters, whose bid and ask are finite, positive and
  -- not crossed. The price is their middle, and its time is that of the message.
  pub on_messages-cases :
      (parse : String → Option F) (symbol : List ℕ) (msgs : List (ℕ × BookTicker))
      (state : Option (CexPrice F))
      → (on_messages parse symbol msgs state ≡ state)
        ⊎ IsFrom parse symbol msgs (on_messages parse symbol msgs state)
  unfolding on_messages
  on_messages-cases parse symbol [] state = inl refl
  on_messages-cases parse symbol ((now, msg) ∷ msgs) state =
      elim (on_messages-cases parse symbol msgs (on_message parse symbol now msg state)) [
        | inr k ↦ inr (later-IsFrom parse symbol (now, msg) msgs _ k)
        | inl e ↦ elim (on_message-cases parse symbol now msg state) [
          | inl h ↦ inl (e ∙ h)
          | inr k ↦ inr (
              subst (IsFrom parse symbol ((now, msg) ∷ msgs)) (sym e)
                (widen-IsFrom parse symbol (now, msg) msgs _ k))
        ]
      ]

-- The checks of the liveness before the first shutdown: the time, and the time of the last quote.
pub checks : List Event → List (ℕ × Option ℕ)
checks [] = []
checks (shutdown ∷ events) = []
checks (tick now updated ∷ events) = (now, updated) ∷ checks events

abbrev pub IsSilent : ℕ → List (ℕ × Option ℕ) → Type 0
IsSilent started entries = (e : ℕ × Option ℕ) × Member e entries × (60 < silence started e.0 e.1)

stale_first :
    (b : Bool) (rest : Option SessionEnd) (P : Type 0)
    → (rest ≡ some stale) ↔ P
    → (after_tick b rest ≡ some stale) ↔ ((b ≡ true) ⊎ P)
unfolding after_tick
stale_first true rest P h = (λ _. inl refl, λ _. refl)
stale_first false rest P h = (λ e. inr (h.0 e), elim [ inl e ↦ absurd cc | inr k ↦ h.1 k ])

cons-IsSilent :
    (started now : ℕ) (updated : Option ℕ) (entries : List (ℕ × Option ℕ))
    → ((ltb 60 (silence started now updated) ≡ true) ⊎ IsSilent started entries)
      ↔ IsSilent started ((now, updated) ∷ entries)
cons-IsSilent started now updated entries = (
  elim [ inl h ↦ ((now, updated), first, ltb→lt _ _ h) | inr (e, m, k) ↦ (e, later m, k) ],
  λ (e, m, k). elim (Member-cases m) [
    | inl same ↦ inl (lt→ltb _ _ (subst (λ x. 60 < silence started x.0 x.1) same k))
    | inr rest ↦ inr (e, rest, k)
  ],
)

-- A live session is given up as stale exactly when some check before the first shutdown finds that the last
-- quote, or the start of the session if there is none yet, lies more than 60 seconds back.
monitor_session-stale :
    (started : ℕ) (events : List Event)
    → (monitor_session started events ≡ some stale) ↔ IsSilent started (checks events)
unfolding monitor_session checks
monitor_session-stale started [] = (λ h. absurd cc, λ (e, m, k). absurd (Member-nil m))
monitor_session-stale started (shutdown ∷ events) =
    (λ h. absurd cc, λ (e, m, k). absurd (Member-nil m))
monitor_session-stale started (tick now updated ∷ events) =
    let here =
      stale_first (ltb 60 (silence started now updated)) (monitor_session started events) _
        (monitor_session-stale started events) in
    let there = cons-IsSilent started now updated (checks events) in
    (λ h. there.0 (here.0 h), λ k. here.1 (there.1 k))
