-- ===== src/Feeds/Coinbase.antt =====
-- The Coinbase feed of `src/data/coinbase_ws.rs`: the parse of a frame, and one session. `parse` is
-- `str::parse::<f64>`; a text frame stands for what `serde_json` makes of it.
pub mod Sound
use tick_liq.Prelude.{ℕ, not, if◌then◌else◌, Bool, true, false, Option, none, some, List, [], ◌∷◌}
use Prim.Native.String.{String}
use text.Mathlib.Text.{◌==◌ as str_eq}
use tick_liq.Prelude.Float.{Float}
use tick_liq.Prelude.Libm.{Libm}
use tick_liq.Feeds.Quote.{CexPrice, mid_of}

pub record CoinbaseTicker : Type 0 where
  pub msg_type : Option String
  pub product_id : Option String
  pub best_bid : Option String
  pub best_ask : Option String

pub is_text : String → Option String → Bool
is_text wanted none = false
is_text wanted (some found) = str_eq wanted found

pub data Reason : Type 0 where
  connect_failed : Reason
  subscribe_failed : Reason
  no_frame : Reason
  stream_closed : Reason
  stream_error : Reason
  server_closed : Reason
  pong_failed : Reason

pub data SessionEnd : Type 0 where
  shut_down : SessionEnd
  connect_error : Reason → SessionEnd
  ended : Reason → Bool → SessionEnd

-- An arm of the `select!` that is ready: a shutdown, the timeout of the next frame, or what the stream gives.
pub data Event : Type 0 where
  shutdown : Event
  elapsed : Event
  closed : Event
  failed : Event
  text_frame : Option CoinbaseTicker → Event
  close : Event
  ping : Bool → Event  -- whether the pong could be sent
  other : Event

-- The session goes on with its flag and state, or ends.
pub data Step {ℓ} (F : Type ℓ) : Type ℓ where
  go_on : Bool → Option (CexPrice F) → Step F
  stop : SessionEnd → Step F

module _ {ℓ} {F : Type ℓ} ⦃f : Float F⦄ ⦃m : Libm F⦄ where
  unfoldable pub parse_ticker_mid : (String → Option F) → String → Option CoinbaseTicker → Option F
  unfolding is_text
  parse_ticker_mid parse expected_product none = none
  parse_ticker_mid parse expected_product (some msg) =
      if not (is_text "ticker" msg.msg_type)
      then none
      else if not (is_text expected_product msg.product_id)
      then none
      else mid_of parse msg.best_bid msg.best_ask

  on_mid : ℕ → Option F → Bool → Option (CexPrice F) → Step F
  on_mid now none got_price state = go_on got_price state
  on_mid now (some mid) got_price state =
      go_on true (some (record { price = mid; updated_at = now }))

  on_event : (String → Option F) → String → ℕ → Event → Bool → Option (CexPrice F) → Step F
  unfolding on_mid
  on_event parse product_id now shutdown got_price state = stop shut_down
  on_event parse product_id now elapsed got_price state = stop (ended no_frame got_price)
  on_event parse product_id now closed got_price state = stop (ended stream_closed got_price)
  on_event parse product_id now failed got_price state = stop (ended stream_error got_price)
  on_event parse product_id now (text_frame msg) got_price state =
      on_mid now (parse_ticker_mid parse product_id msg) got_price state
  on_event parse product_id now close got_price state = stop (ended server_closed got_price)
  on_event parse product_id now (ping answered) got_price state =
      if answered then go_on got_price state else stop (ended pong_failed got_price)
  on_event parse product_id now other got_price state = go_on got_price state

  after_event :
      Step F
      → Option (CexPrice F)
      → (Bool → Option (CexPrice F) → Option SessionEnd × Option (CexPrice F))
      → Option SessionEnd × Option (CexPrice F)
  after_event (stop end) state again = (some end, state)
  after_event (go_on got_price state') state again = again got_price state'

  -- The loop of `run_session`: how it ends, if it does, and the state.
  unfoldable pub session :
      (String → Option F)
      → String
      → List (ℕ × Event)
      → Bool
      → Option (CexPrice F)
      → Option SessionEnd × Option (CexPrice F)
  unfolding on_event after_event
  session parse product_id [] got_price state = (none, state)
  session parse product_id ((now, event) ∷ events) got_price state =
      after_event (on_event parse product_id now event got_price state) state
        (session parse product_id events)

  -- `run_session`: the connect and the subscribe frame first.
  unfoldable pub run_session :
      (String → Option F)
      → String
      → Bool
      → Bool
      → List (ℕ × Event)
      → Option (CexPrice F)
      → Option SessionEnd × Option (CexPrice F)
  run_session parse product_id connects subscribes events state =
      if not connects
      then (some (connect_error connect_failed), state)
      else if not subscribes
      then (some (connect_error subscribe_failed), state)
      else session parse product_id events false state
