-- ===== src/Feeds/Account.antt =====
-- The account subscription of `src/data/ws.rs`: one session, and the loop that reconnects. Times are
-- whole seconds of a monotonic clock. What the socket does is a list of events, each with its time.
pub mod Watchdog
pub mod Backoff
use tick_liq.Prelude.{
  ◌*◌, min, leb, true, ◌∷◌, ltb, ◌+◌, none, not, ◌&&◌, if◌then◌else◌, some, [], false, ◌++◌, List,
  Option, Bool, ℕ,
}
use Prim.Native.String.{String}
use text.Mathlib.Text.{◌==◌ as str_eq}
use tick_liq.Prelude.Int.{pos, leb_ℤ, ℤ}

abbrev pub pong_timeout : ℕ
pong_timeout = 10

abbrev pub reconnect_base : ℕ
reconnect_base = 1

abbrev pub reconnect_max : ℕ
reconnect_max = 30

abbrev pub min_healthy_session : ℕ
min_healthy_session = 60

-- What `handle_text` reads of a parsed frame: `method` as a text, `id` as an `i64`, and `error`.
pub record Json : Type 0 where
  pub method : Option String
  pub id : Option ℤ
  pub error : Option String

pub data Reason : Type 0 where
  connect_error : Reason
  subscribe_send_error : Reason
  pong_timed_out : Reason
  ping_send_error : Reason
  stream_closed : Reason
  message_error : Reason
  pong_send_error : Reason
  server_closed : Reason
  subscribe_rejected : String → Reason

pub data SessionResult : Type 0 where
  shut_down : SessionResult
  reconnect : Reason → Bool → SessionResult

-- A text, or a binary frame that is valid UTF-8, is its parse; `none` is malformed JSON.
pub data Frame : Type 0 where
  pong : Frame
  ping : Bool → Frame  -- whether the answer could be sent
  close : Frame
  text_frame : Option Json → Frame
  not_text : Frame  -- a binary frame that is not UTF-8
  other : Frame

-- An arm of the `select!` that is ready, other than the watchdog.
pub data Event : Type 0 where
  shutdown : Event
  ping_tick : Bool → Event  -- whether the ping could be sent
  ended : Event  -- `read.next()` gives `None`
  failed : Event
  received : Frame → Event

is_text : String → Option String → Bool
is_text wanted none = false
is_text wanted (some found) = str_eq wanted found

is_one : Option ℤ → Bool
is_one none = false
is_one (some id) = leb_ℤ id (pos 1) && leb_ℤ (pos 1) id

by_error : Option String → Option Reason
by_error none = none
by_error (some err) = some (subscribe_rejected err)

handle_json : Json → List Json × Option Reason
unfolding by_error is_text is_one
handle_json json =
    if is_text "accountNotification" json.method
    then (json ∷ [], none)
    else ([], if is_one json.id then by_error json.error else none)

-- `handle_text`: what it notifies, and the reason to reconnect, if any.
unfoldable pub handle_text : Option Json → List Json × Option Reason
unfolding handle_json
handle_text none = ([], none)
handle_text (some json) = handle_json json

-- What one event does: the session goes on with a deadline for the pong, or ends.
pub data Next : Type 0 where
  go_on : Option ℕ → Next
  stop : SessionResult → Next

-- The deadline is kept if there is one already.
keep_deadline : Option ℕ → ℕ → Option ℕ
keep_deadline none now = some (now + pong_timeout)
keep_deadline (some d) now = some d

after_text : Option ℕ → List Json × Option Reason → List Json × Next
after_text deadline (notified, none) = (notified, go_on deadline)
after_text deadline (notified, some reason) = (notified, stop (reconnect reason true))

on_frame : Option ℕ → Frame → List Json × Next
unfolding after_text
on_frame deadline pong = ([], go_on none)
on_frame deadline (ping answered) =
    ([], if answered then go_on deadline else stop (reconnect pong_send_error true))
on_frame deadline close = ([], stop (reconnect server_closed true))
on_frame deadline (text_frame json) = after_text deadline (handle_text json)
on_frame deadline not_text = ([], go_on deadline)
on_frame deadline other = ([], go_on deadline)

on_event : Option ℕ → ℕ → Event → List Json × Next
unfolding keep_deadline on_frame
on_event deadline now shutdown = ([], stop shut_down)
on_event deadline now (ping_tick sent) =
    ([], if sent then go_on (keep_deadline deadline now) else stop (reconnect ping_send_error true))
on_event deadline now ended = ([], stop (reconnect stream_closed true))
on_event deadline now failed = ([], stop (reconnect message_error true))
on_event deadline now (received frame) = on_frame deadline frame

-- The watchdog fires at its deadline, before an event of the same time unless that is the shutdown,
-- whose arm stands first.
fires : Option ℕ → ℕ → Event → Bool
fires none now event = false
fires (some d) now shutdown = ltb d now
fires (some d) now (ping_tick sent) = leb d now
fires (some d) now ended = leb d now
fires (some d) now failed = leb d now
fires (some d) now (received frame) = leb d now

after_event : List Json × Next → (Option ℕ → List Json × Next) → List Json × Next
after_event (notified, stop result) again = (notified, stop result)
after_event (notified, go_on deadline) again =
    let rest = again deadline in (notified ++ rest.0, rest.1)

-- The loop of `run_session` over the events: what it passes to the callback, and where it stands.
unfoldable pub session : Option ℕ → List (ℕ × Event) → List Json × Next
unfolding fires on_event after_event
session deadline [] = ([], go_on deadline)
session deadline ((now, event) ∷ events) =
    let again : Option ℕ → List Json × Next = λ d. session d events in
    let rest = after_event (on_event deadline now event) again in
    if fires deadline now event then ([], stop (reconnect pong_timed_out true)) else rest

-- `run_session`: the connect and the subscribe request first.
unfoldable pub run_session : Bool → Bool → List (ℕ × Event) → List Json × Next
run_session connects subscribes events =
    if not connects
    then ([], stop (reconnect connect_error false))
    else if not subscribes
    then ([], stop (reconnect subscribe_send_error true))
    else session none events

-- One turn of the loop of `watch_account`: whether a shutdown waits before it, how its session ends and
-- after how long, and whether a shutdown comes during the wait.
pub record Turn : Type 0 where
  pub stopped_before : Bool
  pub result : SessionResult
  pub session_secs : ℕ
  pub stopped_in_wait : Bool

-- The backoff that a session leaves.
backoff_after : ℕ → Bool → ℕ → ℕ
backoff_after backoff connected session_secs =
    if connected && leb min_healthy_session session_secs then reconnect_base else backoff

after_wait : ℕ → Bool → (ℕ → List ℕ × Bool) → List ℕ × Bool
after_wait wait true again = (wait ∷ [], true)
after_wait wait false again =
    let rest = again (min (wait * 2) reconnect_max) in (wait ∷ rest.0, rest.1)

wait_or_stop : SessionResult → ℕ → ℕ → Bool → (ℕ → List ℕ × Bool) → List ℕ × Bool
unfolding backoff_after after_wait
wait_or_stop shut_down backoff session_secs stopped_in_wait again = ([], true)
wait_or_stop (reconnect reason connected) backoff session_secs stopped_in_wait again =
    after_wait (backoff_after backoff connected session_secs) stopped_in_wait again

-- The loop over its turns: the waits between its sessions, and whether it has ended.
unfoldable pub watch_from : ℕ → List Turn → List ℕ × Bool
unfolding wait_or_stop
watch_from backoff [] = ([], false)
watch_from backoff (turn ∷ turns) =
    let again : ℕ → List ℕ × Bool = λ b. watch_from b turns in
    let rest = wait_or_stop turn.result backoff turn.session_secs turn.stopped_in_wait again in
    if turn.stopped_before then ([], true) else rest

unfoldable pub watch_account : List Turn → List ℕ × Bool
unfolding watch_from
watch_account turns = watch_from reconnect_base turns
