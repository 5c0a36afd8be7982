-- ===== src/Feeds/Reconnect/Waits.antt =====
-- How long the loops of the exchange feeds wait between two sessions.
use native.Mathlib.Nat.{pow-suc}
use tick_liq.Prelude.{
  ℕ, zero, suc, ◌*◌, ◌^◌, ◌≤◌, ◌≡◌, refl, min, arith, Bool, true, false, Option, none, List, [],
  ◌∷◌, ◌⊎◌, inl, inr, Bool-cases, All, length,
}
use tick_liq.Feeds.Binance
use tick_liq.Feeds.Coinbase
use tick_liq.Feeds.Reconnect.{
  Next, exit, at_once, after_backoff, Turn, after_wait, after_session, watch_from,
  watch_binance_price, watch_coinbase_price, next_of_binance, next_of_coinbase,
}

abbrev pub IsWait : ℕ → Type 0
IsWait w = (5 ≤ w) × (w ≤ 300)

after_wait-All :
    (wait : ℕ) (stopped : Bool) (again : ℕ → List ℕ × Bool)
    → IsWait wait
    → ((b : ℕ) → IsWait b → All IsWait (again b).0)
    → All IsWait (after_wait wait stopped again).0
unfolding after_wait
after_wait-All wait true again h rest = (h, tt)
after_wait-All wait false again h rest = (h, rest (min (wait * 2) 300) (omega arith, omega arith))

after_session-All :
    (next : Next) (wait : ℕ) (stopped : Bool) (again : ℕ → List ℕ × Bool)
    → IsWait wait
    → ((b : ℕ) → IsWait b → All IsWait (again b).0)
    → All IsWait (after_session next wait stopped again).0
unfolding after_session
after_session-All exit wait stopped again h rest = tt
after_session-All at_once wait stopped again h rest = rest 5 (omega arith, omega arith)
after_session-All after_backoff wait stopped again h rest = after_wait-All wait stopped again h rest

watch_from-All :
    {R : Type 0} (next : R → Next) (backoff : ℕ) (turns : List (Turn R))
    → IsWait backoff
    → All IsWait (watch_from next backoff turns).0
unfolding watch_from
watch_from-All next backoff [] h = tt
watch_from-All next backoff (turn ∷ turns) h = elim (Bool-cases turn.stopped_before) [
  | inl e ↦ rw e tt
  | inr e ↦ rw e (
      after_session-All (next turn.result) backoff turn.stopped_in_wait
        (λ b. watch_from next b turns) h (λ b k. watch_from-All next b turns k))
]

-- A turn that fails, with no shutdown around it.
pub record IsFailure {R : Type 0} (next : R → Next) (turn : Turn R) : Type 0 where
  pub before : turn.stopped_before ≡ false
  pub fails : next turn.result ≡ after_backoff
  pub during : turn.stopped_in_wait ≡ false

-- The waits of failures in a row, of which there were `k` before.
abbrev pub doubling : ℕ → ℕ → List ℕ
doubling k zero = []
doubling k (suc n) = min (5 * 2 ^ k) 300 ∷ doubling (suc k) n

next_wait : (k : ℕ) → min (min (5 * 2 ^ k) 300 * 2) 300 ≡ min (5 * 2 ^ suc k) 300
next_wait k = omega (arith, pow-suc 2 k)

watch_from-failures :
    {R : Type 0} (next : R → Next) (k : ℕ) (turns : List (Turn R))
    → All (IsFailure next) turns
    → watch_from next (min (5 * 2 ^ k) 300) turns ≡ (doubling k (length turns), false)
unfolding watch_from after_session after_wait
watch_from-failures next k [] h = refl
watch_from-failures next k (turn ∷ turns) h =
    rw (h.0.before, h.0.fails, h.0.during, next_wait k, watch_from-failures next (suc k) turns h.1)
      refl

-- A failed connect or subscription of the Binance feed, with no shutdown around it.
pub record IsDown (turn : Turn (Option Binance.SessionEnd)) : Type 0 where
  pub before : turn.stopped_before ≡ false
  pub failed : turn.result ≡ none
  pub during : turn.stopped_in_wait ≡ false

-- A session of the Coinbase feed that failed to connect, or ended by itself without its flag, with no
-- shutdown around it.
pub record IsDark (turn : Turn Coinbase.SessionEnd) : Type 0 where
  pub before : turn.stopped_before ≡ false
  pub dark :
      ((reason : Coinbase.Reason) × (turn.result ≡ Coinbase.connect_error reason))
      ⊎ ((reason : Coinbase.Reason) × (turn.result ≡ Coinbase.ended reason false))
  pub during : turn.stopped_in_wait ≡ false

All-weaken :
    {A : Type 0} (P Q : A → Type 0) (xs : List A) → ((x : A) → P x → Q x) → All P xs → All Q xs
All-weaken P Q [] g h = tt
All-weaken P Q (x ∷ xs) g h = (g x h.0, All-weaken P Q xs g h.1)

-- The waits between two sessions of the Binance feed are of 5 to 300 seconds, whatever its sessions do;
-- and from the start, as long as no connection succeeds, they double from 5 s up to 300 s.
pub watch_binance_price-waits :
    (turns : List (Turn (Option Binance.SessionEnd)))
    → All IsWait (watch_binance_price turns).0
      × (All IsDown turns → watch_binance_price turns ≡ (doubling 0 (length turns), false))
unfolding watch_binance_price next_of_binance
watch_binance_price-waits turns = (
  watch_from-All next_of_binance 5 turns (omega arith, omega arith),
  λ h.
      watch_from-failures next_of_binance 0 turns
        (All-weaken IsDown (IsFailure next_of_binance) turns fails h),
)
  where
    fails : (t : Turn (Option Binance.SessionEnd)) → IsDown t → IsFailure next_of_binance t
    fails t d = record { before = d.before; fails = rw d.failed refl; during = d.during }

-- The waits between two sessions of the Coinbase feed are of 5 to 300 seconds, whatever its sessions do;
-- and from the start, as long as the sessions fail to connect or end without a price, they double
-- from 5 s up to 300 s, also when every connection succeeds.
pub watch_coinbase_price-waits :
    (turns : List (Turn Coinbase.SessionEnd))
    → All IsWait (watch_coinbase_price turns).0
      × (All IsDark turns → watch_coinbase_price turns ≡ (doubling 0 (length turns), false))
unfolding watch_coinbase_price next_of_coinbase
watch_coinbase_price-waits turns = (
  watch_from-All next_of_coinbase 5 turns (omega arith, omega arith),
  λ h.
      watch_from-failures next_of_coinbase 0 turns
        (All-weaken IsDark (IsFailure next_of_coinbase) turns fails h),
)
  where
    waits :
        (r : Coinbase.SessionEnd)
        → ((reason : Coinbase.Reason) × (r ≡ Coinbase.connect_error reason))
          ⊎ ((reason : Coinbase.Reason) × (r ≡ Coinbase.ended reason false))
        → next_of_coinbase r ≡ after_backoff
    waits r (inl (reason, e)) = rw e refl
    waits r (inr (reason, e)) = rw e refl

    fails : (t : Turn Coinbase.SessionEnd) → IsDark t → IsFailure next_of_coinbase t
    fails t d = record { before = d.before; fails = waits t.result d.dark; during = d.during }
