-- ===== src/Examples/Feeds.antt =====
-- The account subscription at concrete events.
use tick_liq.Feeds.Account.{
  pong_timed_out, other, handle_text, session, run_session, watch_account, Event, pong, received,
  Turn, reconnect, ping_tick, stream_closed, go_on, stop, text_frame, Json,
}
use tick_liq.Feeds.Account.Watchdog.{Answered, AllBefore, session_watchdog}
use tick_liq.Prelude.{[], ◌∷◌, none, ◌≡◌, List, false, some, ◌⊎◌, true, ℕ, refl}

-- A ping at 30 s that is answered, and one at 60 s that is not.
abbrev events : List (ℕ × Event)
events =
    (30, ping_tick true) ∷ (31, received pong) ∷ (60, ping_tick true) ∷ (90, ping_tick true) ∷ []

silent_session_ends : (run_session true true events).1 ≡ stop (reconnect pong_timed_out true)
unfolding run_session session
silent_session_ends = refl

notice : Json
notice = record { method = some "accountNotification"; id = none; error = none }

notified : (run_session true true ((5, received (text_frame (some notice))) ∷ [])).0 ≡ notice ∷ []
unfolding run_session session handle_text notice
notified = refl

-- The ping of 30 s has the deadline 40.
abbrev answered_events : List (ℕ × Event)
answered_events = (35, received other) ∷ (39, received pong) ∷ (100, received other) ∷ []

still_running : (session (some 40) answered_events).1 ≡ go_on none
unfolding session
still_running = refl

session_watchdog_example : Answered 40 answered_events ⊎ AllBefore 40 answered_events
session_watchdog_example = session_watchdog 40 answered_events none still_running

abbrev short_turn : ℕ → Turn
short_turn secs = record {
  stopped_before = false;
  result = reconnect stream_closed true;
  session_secs = secs;
  stopped_in_wait = false;
}

abbrev turns : List Turn
turns = short_turn 3 ∷ short_turn 59 ∷ short_turn 0 ∷ short_turn 600 ∷ short_turn 2 ∷ []

waits : (watch_account turns).0 ≡ 1 ∷ 2 ∷ 4 ∷ 1 ∷ 2 ∷ []
unfolding watch_account
waits = refl
