-- ===== src/Feeds/Reconnect.antt =====
-- The reconnect loops of the exchange feeds: `watch_binance_price` of `src/data/cex_ws.rs` and
-- `watch_coinbase_price` of `src/data/coinbase_ws.rs`. Waits are in seconds.
pub mod Waits
pub mod Dark
use tick_liq.Feeds.Binance
use tick_liq.Feeds.Coinbase
use tick_liq.Prelude.{
  some, none, ◌*◌, min, if◌then◌else◌, true, ◌∷◌, [], false, List, Option, ℕ, Bool,
}

abbrev pub connect_retry_base : ℕ
connect_retry_base = 5

abbrev pub connect_retry_max : ℕ
connect_retry_max = 300

-- What a session leads to: the end of the loop, a new session at once with the backoff reset, or a new
-- session after a wait.
pub data Next : Type 0 where
  exit : Next
  at_once : Next
  after_backoff : Next

-- The match of `watch_binance_price`: `none` is a failed connect or subscription.
pub next_of_binance : Option Binance.SessionEnd → Next
next_of_binance none = after_backoff
next_of_binance (some Binance.shut_down) = exit
next_of_binance (some Binance.stale) = at_once

-- The match of `watch_coinbase_price`.
pub next_of_coinbase : Coinbase.SessionEnd → Next
next_of_coinbase Coinbase.shut_down = exit
next_of_coinbase (Coinbase.connect_error reason) = after_backoff
next_of_coinbase (Coinbase.ended reason true) = at_once
next_of_coinbase (Coinbase.ended reason false) = after_backoff

-- One turn: whether a shutdown waits before it, how its session ends, and whether a shutdown comes
-- during the wait.
pub record Turn (R : Type 0) : Type 0 where
  pub stopped_before : Bool
  pub result : R
  pub stopped_in_wait : Bool

after_wait : ℕ → Bool → (ℕ → List ℕ × Bool) → List ℕ × Bool
after_wait backoff true again = (backoff ∷ [], true)
after_wait backoff false again =
    let rest = again (min (backoff * 2) connect_retry_max) in (backoff ∷ rest.0, rest.1)

after_session : Next → ℕ → Bool → (ℕ → List ℕ × Bool) → List ℕ × Bool
unfolding after_wait
after_session exit backoff stopped again = ([], true)
after_session at_once backoff stopped again = again connect_retry_base
after_session after_backoff backoff stopped again = after_wait backoff stopped again

-- The loop over its turns: the waits between its sessions, and whether it has ended.
unfoldable pub watch_from : {R : Type 0} → (R → Next) → ℕ → List (Turn R) → List ℕ × Bool
unfolding after_session
watch_from next backoff [] = ([], false)
watch_from next backoff (turn ∷ turns) =
    let again : ℕ → List ℕ × Bool = λ b. watch_from next b turns in
    let rest = after_session (next turn.result) backoff turn.stopped_in_wait again in
    if turn.stopped_before then ([], true) else rest

unfoldable pub watch_binance_price : List (Turn (Option Binance.SessionEnd)) → List ℕ × Bool
unfolding watch_from next_of_binance
watch_binance_price turns = watch_from next_of_binance connect_retry_base turns

unfoldable pub watch_coinbase_price : List (Turn Coinbase.SessionEnd) → List ℕ × Bool
unfolding watch_from next_of_coinbase
watch_coinbase_price turns = watch_from next_of_coinbase connect_retry_base turns
