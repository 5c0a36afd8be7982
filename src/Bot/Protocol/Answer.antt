-- ===== src/Bot/Protocol/Answer.antt =====
-- The two steps of `handle_approve` keep the invariant.
use tick_liq.Bot.Protocol.{
  expired, usage, parse_approve, matched, start_approve, finish_approve, wrong_id, took, no_pending,
  reply, replied, Reply, match_pending, set_channel, proposed, PendingApproval, World, executing,
}
use tick_liq.Bot.Protocol.History.{IsJustified, IsTaken}
use tick_liq.Bot.Protocol.Invariant.{
  channels-Holds, Received, took-IsQuiet, SlotHolds, replied-IsQuiet, log-Holds,
  set_channel-Received, Holds,
}
use tick_liq.Bot.Auth.{BotConfig, Message, check_auth, IsOperator, check_auth_iff}
use tick_liq.Bot.Oneshot.{Oneshot, IsOneshot}
use tick_liq.Bot.Text.{trim, parse_u64}
use tick_liq.Prelude.{
  Option-cases, none, ==_iff, ◌==◌, Bool-cases, some, Option, if◌then◌else◌, List, sym, ◌∙◌, inr,
  false, ap, inl, ◌∷◌, true, ◌≡◌, Bool, ℕ, Member, first, later,
}
use mathlib.Core.Path.{subst}

module _ (config : BotConfig) (o : Oneshot) (laws : IsOneshot o) where
  reply-Holds :
      (w : World o) (r : Reply)
      → IsJustified config (replied r) w.log
      → Holds config o laws w
      → Holds config o laws (reply o w r)
  reply-Holds w r j h = log-Holds config o laws w (replied r) (replied-IsQuiet config o laws r) j h

  match_pending-Holds :
      (w : World o) (msg : Message) (arg : List ℕ) (requested_id : ℕ) (s : Option PendingApproval)
      → IsOperator msg config
      → parse_u64 (trim arg) ≡ some requested_id
      → SlotHolds config s w.log
      → Holds config o laws w
      → Holds config o laws (match_pending o w msg arg requested_id s)
  unfolding match_pending
  match_pending-Holds w msg arg requested_id none op e hs h = reply-Holds w no_pending tt h
  match_pending-Holds w msg arg requested_id (some p) op e hs h =
      elim (Bool-cases (p.id == requested_id)) [
        | inl same ↦ rw same (record {
          sound = (logged ((==_iff p.id requested_id).0 same)).sound;
          received = (logged ((==_iff p.id requested_id).0 same)).received;
          slot = tt;
          handler = (record { msg = msg; arg = arg; entry = first }, later hs);
          phase = (logged ((==_iff p.id requested_id).0 same)).phase;
        })
        | inr other ↦ rw other (reply-Holds w (wrong_id requested_id p.id) tt h)
      ]
    where
      logged : p.id ≡ requested_id → Holds config o laws (record w { log = took msg arg p ∷ w.log })
      logged same =
          log-Holds config o laws w (took msg arg p) (took-IsQuiet config o laws msg arg p)
            (op, e ∙ ap some (sym same), hs) h

  pub start_approve-Holds :
      (w : World o) (msg : Message) (arg : List ℕ)
      → Holds config o laws w
      → Holds config o laws (start_approve o w config msg arg)
  unfolding start_approve
  start_approve-Holds w msg arg h = elim (Bool-cases (check_auth msg config)) [
    | inl e ↦ rw e (parsed ((check_auth_iff msg config).0 e))
    | inr e ↦ rw e h
  ]
    where
      parsed :
          IsOperator msg config
          → Holds config o laws (parse_approve o w msg arg (parse_u64 (trim arg)))
      parsed op = elim (Option-cases (parse_u64 (trim arg))) [
        | inl e ↦ rw e (reply-Holds w usage tt h)
        | inr (id, e) ↦ rw e (match_pending-Holds w msg arg id w.slot op e h.slot h)
      ]

  pub finish_approve-Holds :
      (w : World o) (p : PendingApproval)
      → w.handler ≡ matched p
      → Holds config o laws w
      → Holds config o laws (finish_approve o w p)
  unfolding finish_approve
  finish_approve-Holds w p e h = record {
    sound = logged.sound;
    received = logged.received;
    slot = logged.slot;
    handler = tt;
    phase = logged.phase;
  }
    where
      sent : o.Channel × Bool
      sent = o.send true (w.channels p.tx)

      taken : IsTaken config p w.log × Member (proposed p) w.log
      taken = rw e at h.handler

      received : Received config o laws (set_channel o w.channels p.tx sent.0) w.log
      received =
          set_channel-Received config o laws w.channels p.tx sent.0 w.log h.received
            (λ q m same found.
              subst (λ x. IsTaken config x w.log) (h.sound.unique p q taken.1 m (sym same)) taken.0)

      justified :
          (b : Bool) → IsJustified config (replied (if b then executing p else expired p)) w.log
      justified true = taken.0
      justified false = tt

      logged : Holds config o laws (record w {
        channels = set_channel o w.channels p.tx sent.0;
        log = replied (if sent.1 then executing p else expired p) ∷ w.log;
      })
      logged =
          log-Holds config o laws (record w { channels = set_channel o w.channels p.tx sent.0 }) _
            (replied-IsQuiet config o laws _) (justified sent.1)
            (channels-Holds config o laws w _ received h)
