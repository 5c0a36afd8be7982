-- ===== src/Bot/Protocol/Race.antt =====
-- A race between the timeout and `/approve`: the future of `timeout(duration, rx)` is polled, and dropped
-- with its receiver only afterwards.
use tick_liq.Bot.Protocol.{
  decide, give_up, answer, approve, matched, elapsed, took, replied, decided, waiting,
  PendingApproval, clear_pending, conclude, drop_rx, drop_future, finish_approve, match_pending,
  parse_approve, start_approve, after_poll, poll_approval, World, executing, quiet, here, next,
  Step, Reach, poll,
}
use tick_liq.Bot.Auth.{BotConfig, Message, IsOperator, check_auth_iff}
use tick_liq.Bot.Oneshot.{Oneshot, pending}
use tick_liq.Prelude.{refl}
use tick_liq.Bot.Text.{trim, parse_u64}
use tick_liq.Prelude.{refl, ==_refl, none, ◌∷◌, false, true, some, ◌≡◌, List, ℕ}

-- When a proposal is waiting in the slot and its channel is open, an `/approve` that arrives between the
-- last poll of the receiver and its drop is answered that the rebalance is executed, and the rebalance
-- is skipped all the same.
pub false_confirmation :
    (o : Oneshot) (config : BotConfig) (w : World o) (p : PendingApproval) (msg : Message)
    (arg : List ℕ)
    → w.phase ≡ waiting p
    → w.slot ≡ some p
    → w.handler ≡ quiet
    → o.poll (w.channels p.tx) ≡ pending
    → (o.send true (w.channels p.tx)).1 ≡ true
    → IsOperator msg config
    → parse_u64 (trim arg) ≡ some p.id
    → (v : World o) × Reach o config w v
      × (v.log ≡ decided p false ∷ replied (executing p) ∷ took msg arg p ∷ w.log)
unfolding poll_approval after_poll start_approve parse_approve match_pending finish_approve
    drop_future drop_rx conclude clear_pending
false_confirmation o config w p msg arg waits in_slot idle_bot unsent is_open op number = (
  conclude o (drop_future o (finish_approve o taken p) p) p false,
  next (next (next (next (next here polled) approved) answered) (give_up p refl refl))
      (decide p false refl refl),
  rw is_open refl,
)
  where
    timed_out : World o
    timed_out = record w { phase = elapsed p }

    taken : World o
    taken = record timed_out { slot = none; handler = matched p; log = took msg arg p ∷ w.log }

    polled : Step o config w timed_out
    polled = poll p true waits (rw unsent refl)

    approved : Step o config timed_out taken
    approved =
        approve msg arg idle_bot
          (rw ((check_auth_iff msg config).1 op, number, in_slot, ==_refl p.id) refl)

    answered : Step o config taken (finish_approve o taken p)
    answered = answer p refl refl
