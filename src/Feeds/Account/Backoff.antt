-- ===== src/Feeds/Account/Backoff.antt =====
-- How long the watch loop waits between its sessions.
use tick_liq.Feeds.Account.{
  after_wait, shut_down, Reason, watch_from, wait_or_stop, backoff_after, watch_account, Turn,
  SessionResult, reconnect,
}
use native.Mathlib.Nat.{pow-suc}
use tick_liq.Prelude.{
  true, leb, inr, inl, zero, ◌&&◌, arith, Bool-cases, ◌∷◌, length, ◌*◌, false, suc, ◌^◌, All, ◌≡◌,
  [], List, Bool, ◌≤◌, min, ℕ, refl,
}

abbrev pub IsWait : ℕ → Type 0
IsWait w = (1 ≤ w) × (w ≤ 30)

after_wait-All :
    (wait : ℕ) (stopped : Bool) (again : ℕ → List ℕ × Bool)
    → IsWait wait
    → ((b : ℕ) → IsWait b → All IsWait (again b).0)
    → All IsWait (after_wait wait stopped again).0
unfolding after_wait
after_wait-All wait true again h rest = (h, tt)
after_wait-All wait false again h rest = (h, rest (min (wait * 2) 30) (omega arith, omega arith))

wait_or_stop-All :
    (result : SessionResult) (backoff secs : ℕ) (stopped : Bool) (again : ℕ → List ℕ × Bool)
    → IsWait backoff
    → ((b : ℕ) → IsWait b → All IsWait (again b).0)
    → All IsWait (wait_or_stop result backoff secs stopped again).0
unfolding wait_or_stop backoff_after
wait_or_stop-All shut_down backoff secs stopped again h rest = tt
wait_or_stop-All (reconnect reason connected) backoff secs stopped again h rest =
    after_wait-All (backoff_after backoff connected secs) stopped again within rest
  where
    within : IsWait (backoff_after backoff connected secs)
    within = elim (Bool-cases (connected && leb 60 secs)) [
      | inl e ↦ rw e (omega arith, omega arith)
      | inr e ↦ rw e h
    ]

watch_from-All :
    (backoff : ℕ) (turns : List Turn) → IsWait backoff → All IsWait (watch_from backoff turns).0
unfolding watch_from
watch_from-All backoff [] h = tt
watch_from-All backoff (turn ∷ turns) h = elim (Bool-cases turn.stopped_before) [
  | inl e ↦ rw e tt
  | inr e ↦ rw e (
      wait_or_stop-All turn.result backoff turn.session_secs turn.stopped_in_wait
        (λ b. watch_from b turns) h (λ b k. watch_from-All b turns k))
]

-- A session that ends by itself, before 60 s or without a connection, with no shutdown around it.
pub record IsShort (turn : Turn) : Type 0 where
  pub reason : Reason
  pub connected : Bool
  pub before : turn.stopped_before ≡ false
  pub result : turn.result ≡ reconnect reason connected
  pub short : connected && leb 60 turn.session_secs ≡ false
  pub during : turn.stopped_in_wait ≡ false

-- The waits 2 ^ k, 2 ^ (k + 1), ... with 30 as their bound.
pub doubling : ℕ → ℕ → List ℕ
doubling k zero = []
doubling k (suc n) = min (2 ^ k) 30 ∷ doubling (suc k) n

next_wait : (k : ℕ) → min (min (2 ^ k) 30 * 2) 30 ≡ min (2 ^ suc k) 30
next_wait k = omega (arith, pow-suc 2 k)

watch_from_short :
    (k : ℕ) (turns : List Turn)
    → All IsShort turns
    → watch_from (min (2 ^ k) 30) turns ≡ (doubling k (length turns), false)
unfolding watch_from wait_or_stop backoff_after after_wait doubling
watch_from_short k [] h = refl
watch_from_short k (turn ∷ turns) h =
    rw
      (
        h.0.before,
        h.0.result,
        h.0.short,
        h.0.during,
        next_wait k,
        watch_from_short (suc k) turns h.1,
      )
      refl

-- The waits between sessions are of 1 to 30 seconds, whatever the sessions do; and from the start, as long
-- as the sessions are short, the waits double from 1 s up to 30 s and stay there.
watch_account_waits :
    (turns : List Turn)
    → All IsWait (watch_account turns).0
      × (All IsShort turns → watch_account turns ≡ (doubling 0 (length turns), false))
unfolding watch_account
watch_account_waits turns =
    (watch_from-All 1 turns (omega arith, omega arith), λ h. watch_from_short 0 turns h)
