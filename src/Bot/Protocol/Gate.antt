-- ===== src/Bot/Protocol/Gate.antt =====
-- The steps of the approval gate of the watch loop keep the invariant.
use tick_liq.Bot.Protocol.{
  after_poll, elapsed, returned, poll_approval, conclude, drop_future, clear_pending, new_pending,
  drop_rx, waiting, decided, drop_pending, set_channel, sending, proposed, install, message_sent,
  PendingApproval, World, idle,
}
use tick_liq.Bot.Protocol.History.{IsJustified, IsTaken}
use tick_liq.Bot.Protocol.Invariant.{
  drop_pending-Received, set_channel-Received, HandlerHolds-later, SlotHolds-later, IsTaken-later,
  proposed_same, IsSound-later, decided_same, clear_pending-Holds, drop_rx-Holds, with_phase-Holds,
  IsActive, Holds,
}
use tick_liq.Bot.Auth.{BotConfig}
use tick_liq.Bot.Oneshot.{Oneshot, IsOneshot, Poll, value, pending, sender_gone}
use tick_liq.Prelude.{
  sym, ◌∙◌, refl, Member-tail, inr, false, ap, inl, Member-cases, ◌∷◌, ==_refl, arith, true, ◌≢◌,
  ◌≡◌, Bool, Member, first, later,
}
use mathlib.Core.Path.{subst}

module _ (config : BotConfig) (o : Oneshot) (laws : IsOneshot o) where
  decided-Holds :
      (w : World o) (p : PendingApproval) (approved : Bool)
      → IsActive config p w.log
      → (approved ≡ true → IsTaken config p w.log)
      → Holds config o laws w
      → Holds config o laws (record w { phase = idle; log = decided p approved ∷ w.log })
  decided-Holds w p approved active taken h = record {
    sound =
        IsSound-later config o laws w.made (decided p approved) w.log (λ q e. cc)
          (justified approved taken) (λ q b e. known q b e) h.sound;
    received = λ q m found.
        IsTaken-later config o laws (decided p approved)
          (h.received q (Member-tail (λ e. cc) m) found);
    slot = SlotHolds-later config o laws w.slot (decided p approved) w.log h.slot;
    handler = HandlerHolds-later config o laws w.handler (decided p approved) w.log h.handler;
    phase = tt;
  }
    where
      justified :
          (b : Bool) → (b ≡ true → IsTaken config p w.log) → IsJustified config (decided p b) w.log
      justified true t = (t refl, active.1)
      justified false t = (active.0, active.1)

      known :
          (q : PendingApproval) (b : Bool)
          → decided p approved ≡ decided q b
          → Member (proposed q) w.log
      known q b e = subst (λ x. Member (proposed x) w.log) (decided_same e) active.0

  -- The new proposal has a name of its own.
  new_name :
      (w : World o) (p : PendingApproval)
      → Holds config o laws w
      → Member (proposed p) w.log
      → p.tx ≢ w.made
  new_name w p h m e = omega (arith, h.sound.names p m)

  pub install-Holds : (w : World o) → Holds config o laws w → Holds config o laws (install o w)
  unfolding install
  install-Holds w h = record {
    sound = record {
      earned = (λ m. new_name w (new_pending o w) h m refl, h.sound.earned);
      names = λ p m. elim (Member-cases m) [
        | inl e ↦ omega (arith, ap (λ x. x.tx) (proposed_same e))
        | inr old ↦ omega (arith, h.sound.names p old)
      ];
      unique = λ p q m n e. elim (Member-cases m) [
        | inl a ↦ elim (Member-cases n) [
          | inl b ↦ proposed_same a ∙ sym (proposed_same b)
          | inr b ↦ absurd (new_name w q h b (sym e ∙ ap (λ x. x.tx) (proposed_same a)))
        ]
        | inr a ↦ elim (Member-cases n) [
          | inl b ↦ absurd (new_name w p h a (e ∙ ap (λ x. x.tx) (proposed_same b)))
          | inr b ↦ h.sound.unique p q a b e
        ]
      ];
      known = λ p approved m. later (h.sound.known p approved (Member-tail (λ e. cc) m));
    };
    received = λ p m found. elim (Member-cases m) [
      | inl e ↦ absurd (unsent p (ap (λ x. x.tx) (proposed_same e)) found)
      | inr old ↦ IsTaken-later config o laws _ (
          set_channel-Received config o laws _ w.made o.fresh w.log
            (drop_pending-Received config o laws w.slot w.channels w.log h.received)
            (λ q n e. absurd (new_name w q h n e)) p old found)
    ];
    slot = first;
    handler = HandlerHolds-later config o laws w.handler _ w.log h.handler;
    phase = (
      first,
      λ approved m.
          new_name w (new_pending o w) h (h.sound.known _ approved (Member-tail (λ e. cc) m)) refl,
    );
  }
    where
      unsent :
          (p : PendingApproval)
          → p.tx ≡ w.made
          → o.poll (set_channel o (drop_pending o w.slot w.channels) w.made o.fresh p.tx)
            ≢ value true
      unsent p e found = ground (arith, laws.poll_fresh, found, ==_refl w.made, e)

  pub message_sent-Holds :
      (w : World o) (p : PendingApproval) (works : Bool)
      → w.phase ≡ sending p
      → Holds config o laws w
      → Holds config o laws (message_sent o w p works)
  unfolding message_sent
  message_sent-Holds w p works e h = by_result works (rw e at h.phase)
    where
      by_result : (b : Bool) → IsActive config p w.log → Holds config o laws (message_sent o w p b)
      by_result true active = with_phase-Holds config o laws w (waiting p) h active
      by_result false active =
          decided-Holds (drop_rx o (clear_pending o w p.id) p) p false active (λ n. cc)
            (drop_rx-Holds config o laws _ p (clear_pending-Holds config o laws w p.id h))

  after_poll-Holds :
      (w : World o) (p : PendingApproval) (is_elapsed : Bool) (found : Poll)
      → o.poll (w.channels p.tx) ≡ found
      → IsActive config p w.log
      → Holds config o laws w
      → Holds config o laws (after_poll o w p is_elapsed found)
  unfolding after_poll drop_rx
  after_poll-Holds w p is_elapsed (value b) found active h =
      with_phase-Holds config o laws (drop_rx o w p) (returned p b)
        (drop_rx-Holds config o laws w p h)
        (active, λ yes. h.received p active.0 (found ∙ ap value yes))
  after_poll-Holds w p is_elapsed sender_gone found active h =
      with_phase-Holds config o laws (drop_rx o w p) (returned p false)
        (drop_rx-Holds config o laws w p h) (active, λ n. cc)
  after_poll-Holds w p true pending found active h =
      with_phase-Holds config o laws w (elapsed p) h active
  after_poll-Holds w p false pending found active h =
      with_phase-Holds config o laws w (waiting p) h active

  pub poll_approval-Holds :
      (w : World o) (p : PendingApproval) (is_elapsed : Bool)
      → w.phase ≡ waiting p
      → Holds config o laws w
      → Holds config o laws (poll_approval o w p is_elapsed)
  unfolding poll_approval
  poll_approval-Holds w p is_elapsed e h =
      after_poll-Holds w p is_elapsed (o.poll (w.channels p.tx)) refl (rw e at h.phase) h

  pub drop_future-Holds :
      (w : World o) (p : PendingApproval)
      → w.phase ≡ elapsed p
      → Holds config o laws w
      → Holds config o laws (drop_future o w p)
  unfolding drop_future drop_rx
  drop_future-Holds w p e h =
      with_phase-Holds config o laws (drop_rx o w p) (returned p false)
        (drop_rx-Holds config o laws w p h) (rw e at h.phase, λ n. cc)

  pub conclude-Holds :
      (w : World o) (p : PendingApproval) (approved : Bool)
      → w.phase ≡ returned p approved
      → Holds config o laws w
      → Holds config o laws (conclude o w p approved)
  unfolding conclude clear_pending
  conclude-Holds w p approved e h =
      decided-Holds (clear_pending o w p.id) p approved holds.0 holds.1
        (clear_pending-Holds config o laws w p.id h)
    where
      holds : IsActive config p w.log × (approved ≡ true → IsTaken config p w.log)
      holds = rw e at h.phase
