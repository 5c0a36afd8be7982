-- ===== src/Bot/Protocol/Approve.antt =====
-- What `/approve` does to the slot, and what is left in the slot.
use tick_liq.Bot.Protocol.{
  returned, usage, reply, expired, replied, matched, drop_rx, PendingApproval, drop_future,
  parse_approve, match_pending, start_approve, finish_approve, World,
}
use tick_liq.Bot.Auth.{BotConfig, Message, check_auth, IsOperator, check_auth_iff}
use tick_liq.Bot.Oneshot.{Oneshot, IsOneshot}
use tick_liq.Bot.Text.{print_u64, trim, parse_u64}
use tick_liq.Prelude.{
  ◌<◌, sym, ap, ◌∙◌, refl, true, ==_iff, Option-cases, ==_refl, false, ◌==◌, inl, Bool-cases, inr,
  ◌∷◌, ◌⊎◌, none, some, Option, List, ◌≡◌, ℕ,
}
use tick_liq.Prelude.Word.{u64_mod}
use tick_liq.Bot.Text.Number.{parse_u64-print_u64}

-- A state that differs from another one in its log at most.
pub record SameButLog {o : Oneshot} (w v : World o) : Type 0 where
  pub next_id : v.next_id ≡ w.next_id
  pub made : v.made ≡ w.made
  pub channels : v.channels ≡ w.channels
  pub slot : v.slot ≡ w.slot
  pub phase : v.phase ≡ w.phase
  pub handler : v.handler ≡ w.handler

-- The command is an operator's, and names the proposal of the slot.
pub record IsMatch {o : Oneshot} (config : BotConfig) (w : World o) (msg : Message) (arg : List ℕ)
    (p : PendingApproval) : Type 0 where
  pub operator : IsOperator msg config
  pub number : parse_u64 (trim arg) ≡ some p.id
  pub in_slot : w.slot ≡ some p

match_pending_cases :
    (o : Oneshot) (config : BotConfig) (w : World o) (msg : Message) (arg : List ℕ) (id : ℕ)
    (s : Option PendingApproval)
    → ((p : PendingApproval) × (s ≡ some p)
        × (p.id ≡ id)
        × ((match_pending o w msg arg id s).slot ≡ none)
        × ((match_pending o w msg arg id s).phase ≡ w.phase)
        × ((match_pending o w msg arg id s).handler ≡ matched p))
      ⊎ SameButLog w (match_pending o w msg arg id s)
unfolding match_pending
match_pending_cases o config w msg arg id none = inr (record {
  next_id = refl;
  made = refl;
  channels = refl;
  slot = refl;
  phase = refl;
  handler = refl;
})
match_pending_cases o config w msg arg id (some p) = elim (Bool-cases (p.id == id)) [
  | inl e ↦ inl (p, refl, (==_iff p.id id).0 e, rw e refl, rw e refl, rw e refl)
  | inr e ↦ inr (
      rw e (record {
        next_id = refl;
        made = refl;
        channels = refl;
        slot = refl;
        phase = refl;
        handler = refl;
      }))
]

-- `/approve` either takes a proposal out of the slot, and then the command is an operator's, its
-- argument is the number of that proposal and the proposal was the one in the slot, or it changes nothing
-- but gives its answer: a stale number, a bad argument and a stranger leave the proposal where it is.
pub start_approve_cases :
    (o : Oneshot) (config : BotConfig) (w : World o) (msg : Message) (arg : List ℕ)
    → ((p : PendingApproval) × IsMatch config w msg arg p
        × ((start_approve o w config msg arg).slot ≡ none)
        × ((start_approve o w config msg arg).phase ≡ w.phase)
        × ((start_approve o w config msg arg).handler ≡ matched p))
      ⊎ SameButLog w (start_approve o w config msg arg)
unfolding start_approve parse_approve
start_approve_cases o config w msg arg = elim (Bool-cases (check_auth msg config)) [
  | inr e ↦ inr (rw e same)
  | inl e ↦ elim (Option-cases (parse_u64 (trim arg))) [
    | inl n ↦ inr (rw (e, n) same_reply)
    | inr (id, n) ↦ elim (match_pending_cases o config w msg arg id w.slot) [
      | inr kept ↦ inr (rw (e, n) kept)
      | inl (p, s, i, empty, kept, taken) ↦ inl (
        p,
        record {
          operator = (check_auth_iff msg config).0 e;
          number = n ∙ ap some (sym i);
          in_slot = s;
        },
        rw (e, n) empty,
        rw (e, n) kept,
        rw (e, n) taken,
      )
    ]
  ]
]
  where
    same : SameButLog w w
    same = record {
      next_id = refl;
      made = refl;
      channels = refl;
      slot = refl;
      phase = refl;
      handler = refl;
    }

    same_reply : SameButLog w (reply o w usage)
    same_reply = record {
      next_id = refl;
      made = refl;
      channels = refl;
      slot = refl;
      phase = refl;
      handler = refl;
    }

-- Once `await_approval` has given up and dropped the receiver, a command that already took the proposal
-- is answered that it expired, and the gate does not see its approval.
pub late_answer :
    (o : Oneshot) (laws : IsOneshot o) (w : World o) (p : PendingApproval)
    → ((finish_approve o (drop_future o w p) p).log ≡ replied (expired p) ∷ w.log)
      × ((finish_approve o (drop_future o w p) p).phase ≡ returned p false)
unfolding finish_approve drop_future drop_rx
late_answer o laws w p =
    (rw (==_refl p.tx, laws.send_drop_receiver true (w.channels p.tx)) refl, refl)

-- The number that a proposal's message prints after `/approve`, sent by an operator while the proposal
-- is in the slot, takes the proposal.
pub printed_number_matches :
    (o : Oneshot) (config : BotConfig) (w : World o) (msg : Message) (p : PendingApproval)
    → p.id < u64_mod
    → IsOperator msg config
    → w.slot ≡ some p
    → (start_approve o w config msg (print_u64 p.id)).handler ≡ matched p
unfolding start_approve parse_approve match_pending
printed_number_matches o config w msg p bound op in_slot =
    rw ((check_auth_iff msg config).1 op, parse_u64-print_u64 p.id bound, in_slot, ==_refl p.id)
      refl
