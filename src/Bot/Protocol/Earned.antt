-- ===== src/Bot/Protocol/Earned.antt =====
-- A rebalance that the approval gate lets through was approved by an operator's command.
use tick_liq.Bot.Protocol.{
  answer, approve, decide, give_up, poll, message, propose, World, here, next, start, Step, Reach,
}
use tick_liq.Bot.Protocol.History.{IsEarned}
use tick_liq.Bot.Protocol.Invariant.{Holds}
use tick_liq.Bot.Auth.{BotConfig}
use tick_liq.Bot.Oneshot.{Oneshot, IsOneshot, value}
use tick_liq.Prelude.{Member-nil, true, ◌≢◌, ℕ}
use tick_liq.Bot.Protocol.Gate.{
  conclude-Holds, drop_future-Holds, poll_approval-Holds, message_sent-Holds, install-Holds,
}
use tick_liq.Bot.Protocol.Answer.{finish_approve-Holds, start_approve-Holds}

module _ (config : BotConfig) (o : Oneshot) (laws : IsOneshot o) where
  Step-Holds : {w v : World o} → Step o config w v → Holds config o laws w → Holds config o laws v
  Step-Holds (propose _ e) h = rw e (install-Holds config o laws _ h)
  Step-Holds (message p works i e) h = rw e (message_sent-Holds config o laws _ p works i h)
  Step-Holds (poll p is_elapsed i e) h = rw e (poll_approval-Holds config o laws _ p is_elapsed i h)
  Step-Holds (give_up p i e) h = rw e (drop_future-Holds config o laws _ p i h)
  Step-Holds (decide p approved i e) h = rw e (conclude-Holds config o laws _ p approved i h)
  Step-Holds (approve msg arg _ e) h = rw e (start_approve-Holds config o laws _ msg arg h)
  Step-Holds (answer p i e) h = rw e (finish_approve-Holds config o laws _ p i h)

  start-Holds : (now : ℕ) → Holds config o laws (start o now)
  start-Holds now = record {
    sound = record {
      earned = tt;
      names = λ p m. absurd (Member-nil m);
      unique = λ p q m n e. absurd (Member-nil m);
      known = λ p approved m. absurd (Member-nil m);
    };
    received = λ p m found. absurd (unsent found);
    slot = tt;
    handler = tt;
    phase = tt;
  }
    where
      unsent : o.poll o.fresh ≢ value true
      unsent found = cc (laws.poll_fresh, found)

  Reach-Holds : {w v : World o} → Reach o config w v → Holds config o laws w → Holds config o laws v
  Reach-Holds here h = h
  Reach-Holds (next r s) h = Step-Holds s (Reach-Holds r h)

  -- Along every interleaving of the watch loop and the bot, from the start of the process: a proposal is
  -- taken out of the slot only by an `/approve` of an operator whose argument is the number of that very
  -- proposal, after it was proposed; the gate approves a proposal, and the bot answers that it is
  -- executed, only after it was taken so; and a proposal is decided at most once.
  pub Reach-IsEarned :
      (now : ℕ) (w : World o) → Reach o config (start o now) w → IsEarned config w.log
  Reach-IsEarned now w r = (Reach-Holds r (start-Holds now)).sound.earned
