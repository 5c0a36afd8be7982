-- ===== src/Feeds/Binance.antt =====
-- The Binance feed of `src/data/cex_ws.rs`: the callback of its stream, and the watch over a live session.
-- Symbols are ASCII, as lists of bytes; times are seconds of a monotonic clock.

pub mod Sound
use tick_liq.Prelude.{
  map, ℕ, ◌+◌, ◌-◌, leb, ltb, ◌==◌, ◌&&◌, if◌then◌else◌, Bool, true, false, Option, none, some,
  List, [], ◌∷◌,
}
use Prim.Native.String.{String}
use tick_liq.Prelude.Float.{Float}
use tick_liq.Prelude.Libm.{Libm}
use tick_liq.Feeds.Quote.{CexPrice, apply_book_ticker}

-- `BookTickerResponse`: symbol, bid and ask.
pub record BookTicker : Type 0 where
  pub s : Option (List ℕ)
  pub b : Option String
  pub a : Option String

to_lower : ℕ → ℕ
to_lower c = if leb 65 c && leb c 90 then c + 32 else c

to_upper : ℕ → ℕ
to_upper c = if leb 97 c && leb c 122 then c - 32 else c

unfoldable pub eq_ignore_ascii_case : List ℕ → List ℕ → Bool
unfolding to_lower
eq_ignore_ascii_case [] [] = true
eq_ignore_ascii_case [] (d ∷ ds) = false
eq_ignore_ascii_case (c ∷ cs) [] = false
eq_ignore_ascii_case (c ∷ cs) (d ∷ ds) =
    let rest = eq_ignore_ascii_case cs ds in (to_lower c == to_lower d) && rest

-- The message is about the symbol that the stream was asked for.
pub is_for : List ℕ → Option (List ℕ) → Bool
unfolding to_upper eq_ignore_ascii_case
is_for symbol none = false
is_for symbol (some s) = eq_ignore_ascii_case s (map to_upper symbol)

module _ {ℓ} {F : Type ℓ} ⦃f : Float F⦄ ⦃m : Libm F⦄ where
  -- The callback of the stream.
  on_message :
      (String → Option F) → List ℕ → ℕ → BookTicker → Option (CexPrice F) → Option (CexPrice F)
  unfolding is_for
  on_message parse symbol now ticker state =
      if is_for symbol ticker.s
      then (apply_book_ticker parse ticker.b ticker.a now state).1
      else state

  -- The state after some messages, each with its time.
  unfoldable pub on_messages :
      (String → Option F)
      → List ℕ
      → List (ℕ × BookTicker)
      → Option (CexPrice F)
      → Option (CexPrice F)
  unfolding on_message
  on_messages parse symbol [] state = state
  on_messages parse symbol ((now, msg) ∷ msgs) state =
      on_messages parse symbol msgs (on_message parse symbol now msg state)

abbrev pub feed_stale_timeout : ℕ
feed_stale_timeout = 60

pub data SessionEnd : Type 0 where
  shut_down : SessionEnd
  stale : SessionEnd

-- An arm of the `select!` of `monitor_session`: a shutdown, or a tick of the interval with the time of the
-- last quote in the state.
pub data Event : Type 0 where
  shutdown : Event
  tick : ℕ → Option ℕ → Event

-- The time since the last quote, or since the session started.
abbrev pub silence : ℕ → ℕ → Option ℕ → ℕ
silence session_started now none = now - session_started
silence session_started now (some updated_at) = now - updated_at

after_tick : Bool → Option SessionEnd → Option SessionEnd
after_tick true again = some stale
after_tick false again = again

-- How a session ends, if it does.
unfoldable pub monitor_session : ℕ → List Event → Option SessionEnd
unfolding after_tick
monitor_session session_started [] = none
monitor_session session_started (shutdown ∷ events) = some shut_down
monitor_session session_started (tick now updated ∷ events) =
    after_tick (ltb feed_stale_timeout (silence session_started now updated))
      (monitor_session session_started events)
