-- ===== src/Feeds/Account/Watchdog.antt =====
-- A connection that has gone silent is noticed.
use tick_liq.Feeds.Account.{
  other, not_text, close, Reason, Json, failed, text_frame, ended, ping, shutdown, ping_tick, stop,
  SessionResult, session, fires, on_event, on_frame, after_event, after_text, keep_deadline, Event,
  handle_text, pong, received, go_on,
}
use tick_liq.Prelude.{
  none, true, [], arith, Bool-cases, inl, inr, ◌≢◌, ◌⊎◌, false, ◌∷◌, ◌<◌, All, ◌≡◌, Option, List,
  some, ℕ, refl,
}

-- A pong comes before time `d`, and so does all that is handled before it.
pub data Answered (d : ℕ) : List (ℕ × Event) → Type 0 where
  now_answered :
      {t : ℕ} {events : List (ℕ × Event)} → t < d → Answered d ((t, received pong) ∷ events)
  later_answered :
      {t : ℕ} {event : Event} {events : List (ℕ × Event)}
      → t < d
      → Answered d events
      → Answered d ((t, event) ∷ events)

abbrev pub AllBefore : ℕ → List (ℕ × Event) → Type 0
AllBefore d events = All (λ timed. timed.0 < d) events

-- An event on which the session goes on with the same deadline.
extend :
    (d t : ℕ) (event : Event) (events : List (ℕ × Event))
    → t < d
    → Answered d events ⊎ AllBefore d events
    → Answered d ((t, event) ∷ events) ⊎ AllBefore d ((t, event) ∷ events)
extend d t event events h (inl a) = inl (later_answered h a)
extend d t event events h (inr b) = inr (h, b)

stopped : {r : SessionResult} {e : Option ℕ} → stop r ≢ go_on e
stopped h = cc

module _ (d : ℕ) (events : List (ℕ × Event)) where
  -- What the rest of the session says.
  abbrev Rest : Type 0
  Rest =
      (e : Option ℕ)
      → (session (some d) events).1 ≡ go_on e
      → Answered d events ⊎ AllBefore d events

  by_event :
      (t : ℕ) (event : Event) (e : Option ℕ)
      → Rest
      → t < d
      → (after_event (on_event (some d) t event) (λ x. session x events)).1 ≡ go_on e
      → Answered d ((t, event) ∷ events) ⊎ AllBefore d ((t, event) ∷ events)
  unfolding after_event on_event on_frame keep_deadline
  by_event t shutdown e ih before h = absurd (stopped h)
  by_event t (ping_tick true) e ih before h = extend d t _ events before (ih e h)
  by_event t (ping_tick false) e ih before h = absurd (stopped h)
  by_event t ended e ih before h = absurd (stopped h)
  by_event t failed e ih before h = absurd (stopped h)
  by_event t (received pong) e ih before h = inl (now_answered before)
  by_event t (received (ping true)) e ih before h = extend d t _ events before (ih e h)
  by_event t (received (ping false)) e ih before h = absurd (stopped h)
  by_event t (received close) e ih before h = absurd (stopped h)
  by_event t (received (text_frame json)) e ih before h = by_text (handle_text json) h
    where
      by_text :
          (r : List Json × Option Reason)
          → (after_event (after_text (some d) r) (λ x. session x events)).1 ≡ go_on e
          → Answered d ((t, received (text_frame json)) ∷ events)
            ⊎ AllBefore d ((t, received (text_frame json)) ∷ events)
      by_text (notified, none) k = extend d t _ events before (ih e k)
      by_text (notified, some reason) k = absurd (stopped k)
  by_event t (received not_text) e ih before h = extend d t _ events before (ih e h)
  by_event t (received other) e ih before h = extend d t _ events before (ih e h)

-- An event before which the watchdog does not fire comes before the deadline, or is the shutdown.
in_time : (d t : ℕ) (event : Event) → fires (some d) t event ≡ false → (t < d) ⊎ (event ≡ shutdown)
unfolding fires
in_time d t shutdown h = inr refl
in_time d t (ping_tick sent) h = inl (ground arith)
in_time d t ended h = inl (ground arith)
in_time d t failed h = inl (ground arith)
in_time d t (received frame) h = inl (ground arith)

-- While a ping waits for its pong with the deadline `d`, a session that is still running after some
-- events has had a pong before `d`, or all these events came before `d`: a connection on which pings are
-- still sent, or anything else happens, is given up at the deadline of the oldest unanswered ping.
pub session_watchdog :
    (d : ℕ) (events : List (ℕ × Event)) (e : Option ℕ)
    → (session (some d) events).1 ≡ go_on e
    → Answered d events ⊎ AllBefore d events
unfolding session
session_watchdog d [] e h = inr tt
session_watchdog d ((t, event) ∷ events) e h = elim (Bool-cases (fires (some d) t event)) [
  | inl fired ↦ absurd (stopped (rw fired at h))
  | inr kept ↦ elim (in_time d t event kept) [
    | inl before ↦ by_event d events t event e (session_watchdog d events) before (rw kept at h)
    | inr is_shutdown ↦ absurd (at_shutdown event is_shutdown (rw kept at h))
  ]
]
  where
    at_shutdown :
        (x : Event)
        → x ≡ shutdown
        → (after_event (on_event (some d) t x) (λ y. session y events)).1 ≢ go_on e
    at_shutdown x same k = stopped (rw same at k)
