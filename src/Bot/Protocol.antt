-- ===== src/Bot/Protocol.antt =====
-- The approval of a rebalance: `send_proposal`, `await_approval`, `clear_pending` of
-- `src/bot/proposal.rs`, `handle_approve` of `src/bot/commands.rs`, and the approval gate of the watch
-- loop in `src/main.rs`. The slot is behind a mutex that each step takes once, so the steps of the
-- watch loop and of the handler interleave. The bot answers the updates of one chat one by one.
pub mod History
pub mod Invariant
pub mod Gate
pub mod Answer
pub mod Earned
pub mod Race
pub mod Approve
pub mod Slot
use tick_liq.Bot.Auth.{BotConfig, Message, check_auth}
use tick_liq.Bot.Oneshot.{Poll, Oneshot, value, pending, sender_gone}
use tick_liq.Bot.Text.{trim, parse_u64}
use tick_liq.Prelude.{
  suc, [], some, none, not, ◌%◌, ◌==◌, Option, false, List, Bool, ◌∷◌, ◌+◌, if◌then◌else◌, ◌≡◌,
  true, max, ℕ,
}
use tick_liq.Prelude.Word.{u64_mod}

-- The sender is the name of its channel.
pub record PendingApproval : Type 0 where
  pub id : ℕ
  pub tx : ℕ

-- Where the approval gate of the watch loop stands.
pub data Phase : Type 0 where
  idle : Phase
  sending : PendingApproval → Phase  -- the slot is filled, the message is on its way
  waiting : PendingApproval → Phase
  elapsed : PendingApproval → Phase  -- the timer has fired, the receiver is not yet dropped
  returned : PendingApproval → Bool → Phase  -- what `await_approval` gave; the slot is not yet cleared

-- Where `handle_approve` stands: it has taken the proposal out of the slot, and not yet sent.
pub data Handler : Type 0 where
  quiet : Handler
  matched : PendingApproval → Handler

pub data Reply : Type 0 where
  usage : Reply
  executing : PendingApproval → Reply
  expired : PendingApproval → Reply
  wrong_id : ℕ → ℕ → Reply
  no_pending : Reply

-- What happened: `proposed` and `took` are not in the code, the others can be seen from outside.
-- `decided p true` lets the rebalance of the tick through; `decided p false` skips it.
pub data Event : Type 0 where
  proposed : PendingApproval → Event
  took : Message → List ℕ → PendingApproval → Event
  replied : Reply → Event
  decided : PendingApproval → Bool → Event

-- `is_some_and(|p| p.id == id)`
abbrev pub has_id : ℕ → Option PendingApproval → Bool
has_id id none = false
has_id id (some p) = p.id == id

module _ (o : Oneshot) where
  -- The channels stand under their names, of which `made` are given; the newest event is the first.
  pub record World : Type 0 where
    pub next_id : ℕ
    pub made : ℕ
    pub channels : ℕ → o.Channel
    pub slot : Option PendingApproval
    pub phase : Phase
    pub handler : Handler
    pub log : List Event

  abbrev pub set_channel : (ℕ → o.Channel) → ℕ → o.Channel → ℕ → o.Channel
  set_channel channels k c j = if j == k then c else channels j

  -- Nothing is proposed yet; `now` is the time at which the counter is first used, its seed.
  abbrev pub start : ℕ → World
  start now = record {
    next_id = max now 1;
    made = 0;
    channels = λ k. o.fresh;
    slot = none;
    phase = idle;
    handler = quiet;
    log = [];
  }

  -- A proposal that is replaced in the slot loses its sender.
  pub drop_pending : Option PendingApproval → (ℕ → o.Channel) → ℕ → o.Channel
  drop_pending none channels = channels
  drop_pending (some p) channels = set_channel channels p.tx (o.drop_sender (channels p.tx))

  abbrev pub new_pending : World → PendingApproval
  new_pending w = record { id = w.next_id; tx = w.made }

  unfoldable pub install : World → World
  unfolding drop_pending
  install w = record w {
    next_id = (w.next_id + 1) % u64_mod;
    made = suc w.made;
    channels = set_channel (drop_pending w.slot w.channels) w.made o.fresh;
    slot = some (new_pending w);
    phase = sending (new_pending w);
    log = proposed (new_pending w) ∷ w.log;
  }

  unfoldable pub clear_pending : World → ℕ → World
  clear_pending w id = record w {
    slot = if has_id id w.slot then none else w.slot;
    channels = if has_id id w.slot then drop_pending w.slot w.channels else w.channels;
  }

  pub drop_rx : World → PendingApproval → World
  drop_rx w p = record w {
    channels = set_channel w.channels p.tx (o.drop_receiver (w.channels p.tx));
  }

  -- The message is sent, or the send fails: then the slot is cleared and the receiver is dropped, and
  -- the gate fails closed.
  unfoldable pub message_sent : World → PendingApproval → Bool → World
  unfolding clear_pending drop_rx
  message_sent w p works =
      if works
      then record w { phase = waiting p }
      else record (drop_rx (clear_pending w p.id) p) { phase = idle; log = decided p false ∷ w.log }

  after_poll : World → PendingApproval → Bool → Poll → World
  unfolding drop_rx
  after_poll w p is_elapsed (value approved) = record (drop_rx w p) { phase = returned p approved }
  after_poll w p is_elapsed sender_gone = record (drop_rx w p) { phase = returned p false }
  after_poll w p is_elapsed pending = record w {
    phase = if is_elapsed then elapsed p else waiting p;
  }

  -- One poll of `timeout(duration, rx)`: the receiver first, then the timer.
  unfoldable pub poll_approval : World → PendingApproval → Bool → World
  unfolding after_poll
  poll_approval w p is_elapsed = after_poll w p is_elapsed (o.poll (w.channels p.tx))

  -- The timed-out future is dropped, with the receiver in it.
  unfoldable pub drop_future : World → PendingApproval → World
  unfolding drop_rx
  drop_future w p = record (drop_rx w p) { phase = returned p false }

  unfoldable pub conclude : World → PendingApproval → Bool → World
  unfolding clear_pending
  conclude w p approved = record (clear_pending w p.id) {
    phase = idle;
    log = decided p approved ∷ w.log;
  }

  abbrev pub reply : World → Reply → World
  reply w r = record w { log = replied r ∷ w.log }

  -- The slot, under the lock.
  match_pending : World → Message → List ℕ → ℕ → Option PendingApproval → World
  match_pending w msg arg requested_id none = reply w no_pending
  match_pending w msg arg requested_id (some p) =
      if p.id == requested_id
      then record w { slot = none; handler = matched p; log = took msg arg p ∷ w.log }
      else reply w (wrong_id requested_id p.id)

  parse_approve : World → Message → List ℕ → Option ℕ → World
  unfolding match_pending
  parse_approve w msg arg none = reply w usage
  parse_approve w msg arg (some requested_id) = match_pending w msg arg requested_id w.slot

  -- `handle_approve` up to the end of the lock.
  unfoldable pub start_approve : World → BotConfig → Message → List ℕ → World
  unfolding parse_approve
  start_approve w config msg arg =
      if not (check_auth msg config) then w else parse_approve w msg arg (parse_u64 (trim arg))

  -- `handle_approve` from `send`, with its answer.
  unfoldable pub finish_approve : World → PendingApproval → World
  finish_approve w p =
      let sent = o.send true (w.channels p.tx) in
      record w {
        channels = set_channel w.channels p.tx sent.0;
        handler = quiet;
        log = replied (if sent.1 then executing p else expired p) ∷ w.log;
      }

  pub data Step (config : BotConfig) (w : World) (w' : World) : Type 0 where
    propose : w.phase ≡ idle → w' ≡ install w → Step config w w'
    message :
        (p : PendingApproval) (works : Bool)
        → w.phase ≡ sending p
        → w' ≡ message_sent w p works
        → Step config w w'
    poll :
        (p : PendingApproval) (is_elapsed : Bool)
        → w.phase ≡ waiting p
        → w' ≡ poll_approval w p is_elapsed
        → Step config w w'
    give_up : (p : PendingApproval) → w.phase ≡ elapsed p → w' ≡ drop_future w p → Step config w w'
    decide :
        (p : PendingApproval) (approved : Bool)
        → w.phase ≡ returned p approved
        → w' ≡ conclude w p approved
        → Step config w w'
    approve :
        (msg : Message) (arg : List ℕ)
        → w.handler ≡ quiet
        → w' ≡ start_approve w config msg arg
        → Step config w w'
    answer :
        (p : PendingApproval) → w.handler ≡ matched p → w' ≡ finish_approve w p → Step config w w'

  pub data Reach (config : BotConfig) (w : World) : World → Type 0 where
    here : Reach config w w
    next : {u v : World} → Reach config w u → Step config u v → Reach config w v
