-- ===== src/Bot/Protocol/History.antt =====
-- What the events of the approval protocol need to have before them.
use tick_liq.Bot.Protocol.{replied, decided, took, proposed, Event, PendingApproval, executing}
use tick_liq.Bot.Auth.{BotConfig, Message, IsOperator}
use tick_liq.Bot.Text.{trim, parse_u64}
use tick_liq.Prelude.{false, ◌≡◌, [], true, some, ◌∷◌, Bool, List, ℕ, Member}

module _ (config : BotConfig) where
  -- The proposal was taken out of the slot by some command.
  pub record IsTaken (p : PendingApproval) (log : List Event) : Type 0 where
    pub msg : Message
    pub arg : List ℕ
    pub entry : Member (took msg arg p) log

  abbrev pub IsUndecided : PendingApproval → List Event → Type 0
  IsUndecided p log = (approved : Bool) → ¬ Member (decided p approved) log

  -- What the events before it must hold for an event to happen: only an operator's command with the
  -- number of a proposal takes it, only a taken proposal is confirmed or approved, and a proposal is
  -- decided once.
  abbrev pub IsJustified : Event → List Event → Type 0
  IsJustified (proposed p) log = ¬ Member (proposed p) log
  IsJustified (took msg arg p) log =
      IsOperator msg config × (parse_u64 (trim arg) ≡ some p.id) × Member (proposed p) log
  IsJustified (replied (executing p)) log = IsTaken p log
  IsJustified (replied _) log = Unit
  IsJustified (decided p true) log = IsTaken p log × IsUndecided p log
  IsJustified (decided p false) log = Member (proposed p) log × IsUndecided p log

  abbrev pub IsEarned : List Event → Type 0
  IsEarned [] = Unit
  IsEarned (e ∷ log) = IsJustified e log × IsEarned log
