-- ===== src/Bot/Protocol/Invariant.antt =====
-- The invariant of the approval protocol: what the log, the channels, the slot, the handler and the
-- gate hold.
use tick_liq.Bot.Protocol.{
  has_id, returned, elapsed, set_channel, waiting, decided, took, matched, sending, replied,
  proposed, clear_pending, drop_rx, Event, drop_pending, Reply, PendingApproval, World, quiet,
  Phase, Handler, idle,
}
use tick_liq.Bot.Auth.{BotConfig, Message}
use tick_liq.Bot.Oneshot.{Oneshot, IsOneshot, value}
use tick_liq.Prelude.{
  sym, Member-cases, Member-tail, inr, ==_iff, inl, ◌==◌, ◌<◌, ◌≡◌, Bool-cases, none, true, ◌≢◌,
  some, ◌∷◌, Bool, Option, List, ℕ, Member, later,
}
use tick_liq.Bot.Protocol.History.{IsUndecided, IsEarned, IsJustified, IsTaken}

pub proposed_same : {p q : PendingApproval} → proposed p ≡ proposed q → p ≡ q
proposed_same e = cc

pub decided_same : {p q : PendingApproval} {b c : Bool} → decided p b ≡ decided q c → p ≡ q
decided_same e = cc

module _ (config : BotConfig) where
  abbrev pub IsActive : PendingApproval → List Event → Type 0
  IsActive p log = Member (proposed p) log × IsUndecided config p log

  abbrev pub PhaseHolds : Phase → List Event → Type 0
  PhaseHolds idle log = Unit
  PhaseHolds (sending p) log = IsActive p log
  PhaseHolds (waiting p) log = IsActive p log
  PhaseHolds (elapsed p) log = IsActive p log
  PhaseHolds (returned p approved) log = IsActive p log × (approved ≡ true → IsTaken config p log)

  abbrev pub SlotHolds : Option PendingApproval → List Event → Type 0
  SlotHolds none log = Unit
  SlotHolds (some p) log = Member (proposed p) log

  abbrev pub HandlerHolds : Handler → List Event → Type 0
  HandlerHolds quiet log = Unit
  HandlerHolds (matched p) log = IsTaken config p log × Member (proposed p) log

  -- The log itself: names are below `made`, a name belongs to one proposal, and what is decided was
  -- proposed.
  pub record IsSound (made : ℕ) (log : List Event) : Type 0 where
    pub earned : IsEarned config log
    pub names : (p : PendingApproval) → Member (proposed p) log → p.tx < made
    pub unique :
        (p q : PendingApproval)
        → Member (proposed p) log
        → Member (proposed q) log
        → p.tx ≡ q.tx
        → p ≡ q
    pub known :
        (p : PendingApproval) (approved : Bool)
        → Member (decided p approved) log
        → Member (proposed p) log

  module _ (o : Oneshot) (laws : IsOneshot o) where
    abbrev pub Received : (ℕ → o.Channel) → List Event → Type 0
    Received channels log =
        (p : PendingApproval)
        → Member (proposed p) log
        → o.poll (channels p.tx) ≡ value true
        → IsTaken config p log

    pub record Holds (w : World o) : Type 0 where
      pub sound : IsSound w.made w.log
      pub received : Received w.channels w.log
      pub slot : SlotHolds w.slot w.log
      pub handler : HandlerHolds w.handler w.log
      pub phase : PhaseHolds w.phase w.log

    pub IsTaken-later :
        {p : PendingApproval} {log : List Event} (e : Event)
        → IsTaken config p log
        → IsTaken config p (e ∷ log)
    IsTaken-later e t = record { msg = t.msg; arg = t.arg; entry = later t.entry }

    -- An event that is neither a proposal nor a decision keeps what the parts of the state hold.
    pub record IsQuiet (e : Event) : Type 0 where
      pub not_proposed : (p : PendingApproval) → e ≢ proposed p
      pub not_decided : (p : PendingApproval) (approved : Bool) → e ≢ decided p approved

    pub set_channel-Received :
        (channels : ℕ → o.Channel) (k : ℕ) (c : o.Channel) (log : List Event)
        → Received channels log
        → ((p : PendingApproval)
            → Member (proposed p) log
            → p.tx ≡ k
            → o.poll c ≡ value true
            → IsTaken config p log)
        → Received (set_channel o channels k c) log
    set_channel-Received channels k c log r new p m found = elim (Bool-cases (p.tx == k)) [
      | inl e ↦ new p m ((==_iff p.tx k).0 e) (rw e at found)
      | inr e ↦ r p m (rw e at found)
    ]

    pub drop_pending-Received :
        (s : Option PendingApproval) (channels : ℕ → o.Channel) (log : List Event)
        → Received channels log
        → Received (drop_pending o s channels) log
    unfolding drop_pending
    drop_pending-Received none channels log r = r
    drop_pending-Received (some q) channels log r =
        set_channel-Received channels q.tx _ log r
          (λ p m e found. r p m (rw e (laws.poll_drop_sender true _ found)))

    pub clear_pending-Holds : (w : World o) (id : ℕ) → Holds w → Holds (clear_pending o w id)
    unfolding clear_pending
    clear_pending-Holds w id h = elim (Bool-cases (has_id id w.slot)) [
      | inl e ↦ rw e (record {
        sound = h.sound;
        received = drop_pending-Received w.slot w.channels w.log h.received;
        slot = tt;
        handler = h.handler;
        phase = h.phase;
      })
      | inr e ↦ rw e (record {
        sound = h.sound;
        received = h.received;
        slot = h.slot;
        handler = h.handler;
        phase = h.phase;
      })
    ]

    drop_rx-Received :
        (w : World o) (q : PendingApproval)
        → Received w.channels w.log
        → Received (drop_rx o w q).channels w.log
    unfolding drop_rx
    drop_rx-Received w q r =
        set_channel-Received w.channels q.tx _ w.log r
          (λ p m e found. r p m (rw e (laws.poll_drop_receiver true _ found)))

    pub with_phase-Holds :
        (w : World o) (ph : Phase) → Holds w → PhaseHolds ph w.log → Holds (record w { phase = ph })
    with_phase-Holds w ph h hp = record {
      sound = h.sound;
      received = h.received;
      slot = h.slot;
      handler = h.handler;
      phase = hp;
    }

    pub SlotHolds-later :
        (s : Option PendingApproval) (e : Event) (log : List Event)
        → SlotHolds s log
        → SlotHolds s (e ∷ log)
    SlotHolds-later none e log h = tt
    SlotHolds-later (some p) e log h = later h

    pub HandlerHolds-later :
        (s : Handler) (e : Event) (log : List Event) → HandlerHolds s log → HandlerHolds s (e ∷ log)
    HandlerHolds-later quiet e log h = tt
    HandlerHolds-later (matched p) e log h = (IsTaken-later e h.0, later h.1)

    IsActive-later :
        (p : PendingApproval) (e : Event) (log : List Event)
        → IsQuiet e
        → IsActive p log
        → IsActive p (e ∷ log)
    IsActive-later p e log q h =
        (later h.0, λ approved m. h.1 approved (Member-tail (q.not_decided p approved) m))

    PhaseHolds-later :
        (ph : Phase) (e : Event) (log : List Event)
        → IsQuiet e
        → PhaseHolds ph log
        → PhaseHolds ph (e ∷ log)
    PhaseHolds-later idle e log q h = tt
    PhaseHolds-later (sending p) e log q h = IsActive-later p e log q h
    PhaseHolds-later (waiting p) e log q h = IsActive-later p e log q h
    PhaseHolds-later (elapsed p) e log q h = IsActive-later p e log q h
    PhaseHolds-later (returned p approved) e log q h =
        (IsActive-later p e log q h.0, λ yes. IsTaken-later e (h.1 yes))

    -- The parts of the log's own condition that do not look at the new event.
    pub IsSound-later :
        (made : ℕ) (e : Event) (log : List Event)
        → ((p : PendingApproval) → e ≢ proposed p)
        → IsJustified config e log
        → ((p : PendingApproval) (approved : Bool)
            → e ≡ decided p approved
            → Member (proposed p) log)
        → IsSound made log
        → IsSound made (e ∷ log)
    IsSound-later made e log np j k s = record {
      earned = (j, s.earned);
      names = λ p m. s.names p (Member-tail (np p) m);
      unique = λ p q m n. s.unique p q (Member-tail (np p) m) (Member-tail (np q) n);
      known = λ p approved m. elim (Member-cases m) [
        | inl same ↦ later (k p approved (sym same))
        | inr old ↦ later (s.known p approved old)
      ];
    }

    pub log-Holds :
        (w : World o) (e : Event)
        → IsQuiet e
        → IsJustified config e w.log
        → Holds w
        → Holds (record w { log = e ∷ w.log })
    log-Holds w e q j h = record {
      sound =
          IsSound-later w.made e w.log q.not_proposed j
            (λ p approved same. absurd (q.not_decided p approved same)) h.sound;
      received =
          λ p m found. IsTaken-later e (h.received p (Member-tail (q.not_proposed p) m) found);
      slot = SlotHolds-later w.slot e w.log h.slot;
      handler = HandlerHolds-later w.handler e w.log h.handler;
      phase = PhaseHolds-later w.phase e w.log q h.phase;
    }

    pub replied-IsQuiet : (r : Reply) → IsQuiet (replied r)
    replied-IsQuiet r = record { not_proposed = λ p e. cc; not_decided = λ p approved e. cc }

    pub took-IsQuiet :
        (msg : Message) (arg : List ℕ) (p : PendingApproval) → IsQuiet (took msg arg p)
    took-IsQuiet msg arg p = record { not_proposed = λ q e. cc; not_decided = λ q approved e. cc }

    pub channels-Holds :
        (w : World o) (channels : ℕ → o.Channel)
        → Received channels w.log
        → Holds w
        → Holds (record w { channels = channels })
    channels-Holds w channels r h = record {
      sound = h.sound;
      received = r;
      slot = h.slot;
      handler = h.handler;
      phase = h.phase;
    }

    pub drop_rx-Holds : (w : World o) (p : PendingApproval) → Holds w → Holds (drop_rx o w p)
    unfolding drop_rx
    drop_rx-Holds w p h = channels-Holds w _ (drop_rx-Received w p h.received) h
