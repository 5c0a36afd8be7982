-- ===== src/Bot/Oneshot.antt =====
-- The contract of `tokio::sync::oneshot`, a channel for one value, as `src/bot/proposal.rs` and
-- `src/bot/commands.rs` use it: the sender is consumed by `send`, and either end can be dropped.
use tick_liq.Prelude.{refl, inr, inl, Bool, false, ◌≡◌, ◌⊎◌}

-- What a poll of the receiver finds.
pub data Poll : Type 0 where
  pending : Poll
  value : Bool → Poll
  sender_gone : Poll

pub Poll-cases :
    (r : Poll) → (r ≡ pending) ⊎ ((found : Bool) × (r ≡ value found)) ⊎ (r ≡ sender_gone)
Poll-cases pending = inl refl
Poll-cases (value found) = inr (inl (found, refl))
Poll-cases sender_gone = inr (inr refl)

pub record Oneshot : Type 1 where
  pub Channel : Type 0
  pub fresh : Channel
  pub send : Bool → Channel → Channel × Bool  -- with `is_ok` of its result
  pub poll : Channel → Poll
  pub drop_sender : Channel → Channel
  pub drop_receiver : Channel → Channel

-- The documented behaviour: a receiver finds only what was sent, and `send` fails once the receiver is
-- dropped.
pub record IsOneshot (o : Oneshot) : Type 0 where
  pub poll_fresh : o.poll o.fresh ≡ pending
  pub poll_send :
      (sent found : Bool) (c : o.Channel)
      → o.poll (o.send sent c).0 ≡ value found
      → (o.poll c ≡ value found) ⊎ (found ≡ sent)
  pub poll_drop_sender :
      (found : Bool) (c : o.Channel)
      → o.poll (o.drop_sender c) ≡ value found
      → o.poll c ≡ value found
  pub poll_drop_receiver :
      (found : Bool) (c : o.Channel)
      → o.poll (o.drop_receiver c) ≡ value found
      → o.poll c ≡ value found
  pub send_drop_receiver :
      (sent : Bool) (c : o.Channel) → (o.send sent (o.drop_receiver c)).1 ≡ false
