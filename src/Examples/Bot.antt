-- ===== src/Examples/Bot.antt =====
-- The bot at concrete inputs: a chat, two operators, a channel, and runs of the approval protocol.
use tick_liq.Bot.Protocol.{
  matched, proposed, decide, replied, decided, answer, approve, propose, clear_pending, install,
  start_approve, conclude, finish_approve, poll_approval, message_sent, World, PendingApproval,
  executing, idle, here, next, start, Reach, poll, message, took,
}
use tick_liq.Bot.Auth.{BotConfig, Message, check_auth, IsOperator, load_allowed_user_ids}
use tick_liq.Bot.Oneshot.{Oneshot, IsOneshot, Poll, value, pending, sender_gone}
use tick_liq.Bot.Text.{print_u64, split_on, trim, parse_u64}
use tick_liq.Prelude.{
  inl, inr, [], if◌then◌else◌, true, false, ◌⊎◌, none, ◌∷◌, List, ◌≡◌, Bool, some, later, ℕ, refl,
  first,
}
use tick_liq.Prelude.Int.{negsuc}
use tick_liq.Bot.Protocol.History.{IsEarned}
use tick_liq.Bot.Protocol.Earned.{Reach-IsEarned}
use tick_liq.Bot.Protocol.Slot.{idle_slot_empty}
use tick_liq.Bot.Protocol.Race.{false_confirmation}
use tick_liq.Bot.Protocol.Approve.{start_approve_cases, SameButLog, IsMatch}
use tick_liq.Prelude.Result.{ok}

-- A channel: what the receiver has to find, and whether the receiver is still there.
abbrev channel : Oneshot
channel = record {
  Channel = Poll × Bool;
  fresh = (pending, true);
  send = λ b c. if c.1 then ((value b, true), true) else (c, false);
  poll = λ c. c.0;
  drop_sender = λ c.
      (elim c.0 [ pending ↦ sender_gone | value b ↦ value b | sender_gone ↦ sender_gone ], c.1);
  drop_receiver = λ c. (c.0, false);
}

channel-IsOneshot : IsOneshot channel
channel-IsOneshot = record {
  poll_fresh = refl;
  poll_send = poll_send;
  poll_drop_sender = poll_drop_sender;
  poll_drop_receiver = λ found c h. h;
  send_drop_receiver = λ sent c. refl;
}
  where
    poll_send :
        (sent found : Bool) (c : channel.Channel)
        → channel.poll (channel.send sent c).0 ≡ value found
        → (channel.poll c ≡ value found) ⊎ (found ≡ sent)
    poll_send sent found (r, true) h = inr (cc)
    poll_send sent found (r, false) h = inl h

    poll_drop_sender :
        (found : Bool) (c : channel.Channel)
        → channel.poll (channel.drop_sender c) ≡ value found
        → channel.poll c ≡ value found
    poll_drop_sender found (value b, r) h = h
    poll_drop_sender found (pending, r) h = cc
    poll_drop_sender found (sender_gone, r) h = cc

abbrev operators : List ℕ
operators = 7 ∷ 11 ∷ []

abbrev config : BotConfig
config = record { chat_id = negsuc 99; allowed_user_ids = operators }

abbrev from_operator : Message
from_operator = record { chat = negsuc 99; sender = some 11 }

abbrev from_stranger : Message
from_stranger = record { chat = negsuc 99; sender = some 12 }

operator : IsOperator from_operator config
operator = record { user = 11; in_chat = refl; known = refl; allowed = later first }

stranger_refused : check_auth from_stranger config ≡ false
unfolding check_auth
stranger_refused = refl

-- "7, 11,"
abbrev setting : List ℕ
setting = b'7' ∷ b',' ∷ b' ' ∷ b'1' ∷ b'1' ∷ b',' ∷ []

setting_loads : load_allowed_user_ids (some setting) ≡ ok operators
unfolding load_allowed_user_ids split_on trim parse_u64
setting_loads = refl

-- A process that starts at 1000: its first proposal is sent and waits.
abbrev proposal : PendingApproval
proposal = record { id = 1000; tx = 0 }

abbrev begun : World channel
begun = start channel 1000

abbrev sent_out : World channel
sent_out = message_sent channel (install channel begun) proposal true

abbrev command : List ℕ
command = print_u64 1000

abbrev taken : World channel
taken = start_approve channel sent_out config from_operator command

abbrev confirmed : World channel
confirmed = finish_approve channel taken proposal

abbrev polled : World channel
polled = poll_approval channel confirmed proposal false

abbrev done : World channel
done = conclude channel polled proposal true

waiting_run : Reach channel config begun sent_out
unfolding message_sent install
waiting_run = next (next here (propose refl refl)) (message proposal true refl refl)

sent_out_slot : sent_out.slot ≡ some proposal
unfolding message_sent install
sent_out_slot = refl

approved_run : Reach channel config begun done
unfolding message_sent install start_approve finish_approve poll_approval print_u64 trim parse_u64
    check_auth
approved_run =
    next
      (next
        (next (next waiting_run (approve from_operator command refl refl))
          (answer proposal refl refl))
        (poll proposal false refl refl))
      (decide proposal true refl refl)

done_log :
    done.log
    ≡ decided proposal true
      ∷ replied (executing proposal)
      ∷ took from_operator command proposal
      ∷ proposed proposal
      ∷ []
unfolding message_sent install start_approve finish_approve poll_approval print_u64 trim parse_u64
    check_auth conclude clear_pending
done_log = refl

Reach-IsEarned_example : IsEarned config done.log
Reach-IsEarned_example = Reach-IsEarned config channel channel-IsOneshot 1000 done approved_run

done_idle : done.phase ≡ idle
unfolding conclude
done_idle = refl

idle_slot_empty_example : done.slot ≡ none
idle_slot_empty_example = idle_slot_empty channel config 1000 done approved_run done_idle

false_confirmation_example :
    (v : World channel) × Reach channel config sent_out v
    × (v.log
        ≡ decided proposal false
          ∷ replied (executing proposal)
          ∷ took from_operator command proposal
          ∷ sent_out.log)
unfolding message_sent install print_u64 trim parse_u64
false_confirmation_example =
    false_confirmation channel config sent_out proposal from_operator command refl refl refl refl
      refl operator refl

start_approve_cases_example :
    ((p : PendingApproval) × IsMatch config sent_out from_stranger command p
      × ((start_approve channel sent_out config from_stranger command).slot ≡ none)
      × ((start_approve channel sent_out config from_stranger command).phase ≡ sent_out.phase)
      × ((start_approve channel sent_out config from_stranger command).handler ≡ matched p))
    ⊎ SameButLog sent_out (start_approve channel sent_out config from_stranger command)
start_approve_cases_example = start_approve_cases channel config sent_out from_stranger command
