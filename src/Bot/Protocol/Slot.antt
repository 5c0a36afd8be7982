-- ===== src/Bot/Protocol/Slot.antt =====
-- What can stand in the slot: at most the proposal that the gate is busy with.
use tick_liq.Bot.Protocol.{
  answer, approve, decide, give_up, message, propose, returned, elapsed, poll_approval, waiting,
  finish_approve, conclude, start_approve, sending, PendingApproval, drop_future, drop_rx, install,
  clear_pending, message_sent, after_poll, World, Phase, idle, here, next, start, Step, Reach, poll,
}
use tick_liq.Bot.Protocol.Approve.{start_approve_cases}
use tick_liq.Bot.Auth.{BotConfig, Message}
use tick_liq.Bot.Oneshot.{Oneshot, Poll, value, pending, sender_gone}
use tick_liq.Prelude.{
  false, ==_refl, true, some, inr, Bool, ◌⊎◌, inl, none, List, Option, ◌≡◌, ℕ, refl,
}

abbrev IsHeld : Phase → Option PendingApproval → Type 0
IsHeld idle s = s ≡ none
IsHeld (sending p) s = (s ≡ none) ⊎ (s ≡ some p)
IsHeld (waiting p) s = (s ≡ none) ⊎ (s ≡ some p)
IsHeld (elapsed p) s = (s ≡ none) ⊎ (s ≡ some p)
IsHeld (returned p approved) s = (s ≡ none) ⊎ (s ≡ some p)

IsHeld-none : (ph : Phase) → IsHeld ph none
IsHeld-none idle = refl
IsHeld-none (sending p) = inl refl
IsHeld-none (waiting p) = inl refl
IsHeld-none (elapsed p) = inl refl
IsHeld-none (returned p approved) = inl refl

module _ (o : Oneshot) (config : BotConfig) where
  clear_pending-slot :
      (w : World o) (p : PendingApproval)
      → (w.slot ≡ none) ⊎ (w.slot ≡ some p)
      → (clear_pending o w p.id).slot ≡ none
  unfolding clear_pending
  clear_pending-slot w p (inl e) = rw e refl
  clear_pending-slot w p (inr e) = rw (e, ==_refl p.id) refl

  message_sent-IsHeld :
      (w : World o) (p : PendingApproval) (works : Bool)
      → (w.slot ≡ none) ⊎ (w.slot ≡ some p)
      → IsHeld (message_sent o w p works).phase (message_sent o w p works).slot
  unfolding message_sent drop_rx
  message_sent-IsHeld w p true h = h
  message_sent-IsHeld w p false h = clear_pending-slot w p h

  after_poll-IsHeld :
      (w : World o) (p : PendingApproval) (is_elapsed : Bool) (found : Poll)
      → (w.slot ≡ none) ⊎ (w.slot ≡ some p)
      → IsHeld (after_poll o w p is_elapsed found).phase (after_poll o w p is_elapsed found).slot
  unfolding after_poll drop_rx
  after_poll-IsHeld w p true pending h = h
  after_poll-IsHeld w p false pending h = h
  after_poll-IsHeld w p is_elapsed (value b) h = h
  after_poll-IsHeld w p is_elapsed sender_gone h = h

  start_approve-IsHeld :
      (w : World o) (msg : Message) (arg : List ℕ)
      → IsHeld w.phase w.slot
      → IsHeld (start_approve o w config msg arg).phase (start_approve o w config msg arg).slot
  start_approve-IsHeld w msg arg h = elim (start_approve_cases o config w msg arg) [
    | inl (p, m, empty, ph, taken) ↦ rw (empty, ph) (IsHeld-none w.phase)
    | inr same ↦ rw (same.phase, same.slot) h
  ]

  Step-IsHeld : {w v : World o} → Step o config w v → IsHeld w.phase w.slot → IsHeld v.phase v.slot
  unfolding install drop_future drop_rx conclude finish_approve poll_approval
  Step-IsHeld {w = w} (propose _ e) h = rw e (inr refl)
  Step-IsHeld {w = w} (message p works i e) h = rw e (message_sent-IsHeld w p works (rw i at h))
  Step-IsHeld {w = w} (poll p is_elapsed i e) h =
      rw e (after_poll-IsHeld w p is_elapsed _ (rw i at h))
  Step-IsHeld {w = w} (give_up p i e) h = rw e (rw i at h)
  Step-IsHeld {w = w} (decide p approved i e) h = rw e (clear_pending-slot w p (rw i at h))
  Step-IsHeld {w = w} (approve msg arg _ e) h = rw e (start_approve-IsHeld w msg arg h)
  Step-IsHeld {w = w} (answer p i e) h = rw e h

  Reach-IsHeld :
      {w v : World o} → Reach o config w v → IsHeld w.phase w.slot → IsHeld v.phase v.slot
  Reach-IsHeld here h = h
  Reach-IsHeld (next r s) h = Step-IsHeld s (Reach-IsHeld r h)

  -- Whenever the gate is idle, on every interleaving since the start, the slot is empty: a proposal that
  -- timed out, was approved or could not be sent is not there for a later `/approve`.
  pub idle_slot_empty :
      (now : ℕ) (w : World o) → Reach o config (start o now) w → w.phase ≡ idle → w.slot ≡ none
  idle_slot_empty now w r e = rw e at (Reach-IsHeld r refl)
