-- ===== src/Examples/Exchange.antt =====
-- The exchange feeds at concrete inputs.
use tick_liq.Prelude.{
  map, ℕ, ◌≡◌, refl, true, false, Option, some, none, List, [], ◌∷◌, ◌⊎◌, if◌then◌else◌,
}
use Prim.Native.String.{String}
use text.Mathlib.Text.{◌==◌ as str_eq}
use tick_liq.Prelude.Int.{pos, negsuc}
use tick_liq.Prelude.Milli.{Milli, milli_float, milli_libm}
use tick_liq.Feeds.Quote.{validate_quote, mid_of, apply_book_ticker}
use tick_liq.Feeds.Binance.{BookTicker, on_messages, monitor_session, stale, tick}
use tick_liq.Feeds.Binance.Sound.{IsFrom, on_messages-cases}
use tick_liq.Feeds.Coinbase
use tick_liq.Feeds.Coinbase.{CoinbaseTicker, run_session, parse_ticker_mid}
use tick_liq.Feeds.Coinbase.Sound
use tick_liq.Feeds.Coinbase.Sound.{run_session-cases, Says}
use tick_liq.Feeds.Reconnect.{watch_coinbase_price}
use tick_liq.Feeds.Reconnect.Dark.{run_session-watch_coinbase_price, turn_of, IsPriceless, Attempt}
use tick_liq.Feeds.Reconnect.Waits.{doubling}

-- A parser that knows a few numbers.
abbrev parse : String → Option Milli
parse s =
    if str_eq s "1.0"
    then some (some (pos 1000))
    else if str_eq s "1.2"
    then some (some (pos 1200))
    else if str_eq s "-1"
    then some (some (negsuc 999))
    else if str_eq s "NaN"
    then some none
    else none

-- "sol" and "SOL".
abbrev small : List ℕ
small = 115 ∷ 111 ∷ 108 ∷ []

abbrev large : List ℕ
large = 83 ∷ 79 ∷ 76 ∷ []

abbrev msgs : List (ℕ × BookTicker)
msgs =
    (10, record { s = some large; b = some "1.0"; a = some "1.2" })
    ∷ (11, record { s = some (83 ∷ []); b = some "1.0"; a = some "1.0" })
    ∷ (12, record { s = some large; b = some "1.2"; a = some "1.0" })
    ∷ (13, record { s = some large; b = some "NaN"; a = some "1.0" })
    ∷ (14, record { s = some large; b = some "x"; a = some "1.0" })
    ∷ []

-- The first message is taken; another symbol, a crossed quote, NaN and a text are not.
messages :
    on_messages parse small msgs none ≡ some (record { price = some (pos 1100); updated_at = 10 })
unfolding on_messages apply_book_ticker mid_of validate_quote
messages = refl

on_messages-cases_example :
    (on_messages parse small msgs none ≡ none)
    ⊎ IsFrom parse small msgs (on_messages parse small msgs none)
on_messages-cases_example = on_messages-cases parse small msgs none

-- A session that starts with a price from before it is given up at its first check.
old_price : monitor_session 1000 (tick 1015 (some 900) ∷ []) ≡ some stale
unfolding monitor_session
old_price = refl

abbrev ticker : CoinbaseTicker
ticker = record {
  msg_type = some "ticker";
  product_id = some "SOL-USD";
  best_bid = some "1.0";
  best_ask = some "1.2";
}

abbrev events : List (ℕ × Coinbase.Event)
events =
    (5, Coinbase.text_frame none)
    ∷ (6, Coinbase.ping true)
    ∷ (7, Coinbase.text_frame (some ticker))
    ∷ (8, Coinbase.close)
    ∷ []

sessions :
    (run_session parse "SOL-USD" true true events none ≡ (
      some (Coinbase.ended Coinbase.server_closed true),
      some (record { price = some (pos 1100); updated_at = 7 }),
    ))
    × (run_session parse "BTC-USD" true true events none
        ≡ (some (Coinbase.ended Coinbase.server_closed false), none))
unfolding run_session parse_ticker_mid mid_of validate_quote Coinbase.session
sessions = (refl, refl)

run_session-cases_example :
    let r = run_session parse "SOL-USD" true true events none in
    ((r.1 ≡ none) × Says false r.0) ⊎ (Sound.IsFrom parse "SOL-USD" events r.1 × Says true r.0)
run_session-cases_example = run_session-cases parse "SOL-USD" true true events none

-- A server that accepts every connection and sends another product.
abbrev priceless : Attempt
priceless = record {
  connects = true;
  subscribes = true;
  events = events;
  end = Coinbase.ended Coinbase.server_closed false;
}

priceless-IsPriceless : IsPriceless parse "BTC-USD" priceless
priceless-IsPriceless = record { ran = sessions.1; running = λ e. cc }

run_session-watch_coinbase_price_example :
    watch_coinbase_price (map turn_of (priceless ∷ priceless ∷ [])) ≡ (doubling 0 2, false)
run_session-watch_coinbase_price_example =
    run_session-watch_coinbase_price parse "BTC-USD" (priceless ∷ priceless ∷ [])
      (priceless-IsPriceless, (priceless-IsPriceless, tt))
