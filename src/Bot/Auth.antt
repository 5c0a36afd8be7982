-- ===== src/Bot/Auth.antt =====
-- Who may command the bot: `check_auth` of `src/bot/commands.rs`, and the two settings that it reads,
-- which `src/bot/mod.rs` loads from the environment.
pub mod Allowlist
use tick_liq.Bot.Text.{split_on, trim, parse_u64}
use tick_liq.Prelude.Int.{eq_of_parts, leb_ℤ, ℤ}
use tick_liq.Prelude.{
  first, later, Member, ==_iff, sym, inr, Option-cases, arith, inl, ==_refl, ◌↔◌, Bool-cases, true,
  ◌≡◌, [], ◌||◌, some, ◌==◌, none, ◌∷◌, false, not, ◌&&◌, Option, ℕ, if◌then◌else◌, Bool, List,
}
use mathlib.Core.Path.{subst}
use tick_liq.Prelude.Result.{ok, err, Result}

-- The part of a Telegram message that decides: its chat, and its sender if it has one.
pub record Message : Type 0 where
  pub chat : ℤ
  pub sender : Option ℕ

pub record BotConfig : Type 0 where
  pub chat_id : ℤ
  pub allowed_user_ids : List ℕ

abbrev eqb_ℤ : ℤ → ℤ → Bool
eqb_ℤ a b = leb_ℤ a b && leb_ℤ b a

contains : List ℕ → ℕ → Bool
contains [] a = false
contains (x ∷ xs) a = x == a || contains xs a

unfoldable pub check_auth : Message → BotConfig → Bool
unfolding contains
check_auth msg config =
    if not (eqb_ℤ msg.chat config.chat_id)
    then false
    else elim msg.sender [ none ↦ false | some user ↦ contains config.allowed_user_ids user ]

pub data AllowlistError : Type 0 where
  missing : AllowlistError  -- the variable is not set
  bad_entry : List ℕ → AllowlistError
  empty_list : AllowlistError

cons_entry : List ℕ → Option ℕ → Result AllowlistError (List ℕ) → Result AllowlistError (List ℕ)
cons_entry s none rest = err (bad_entry s)
cons_entry s (some id) (ok ids) = ok (id ∷ ids)
cons_entry s (some id) (err e) = err e

-- One entry of the list, trimmed; a blank one is left out.
parse_entry : List ℕ → Result AllowlistError (List ℕ) → Result AllowlistError (List ℕ)
unfolding cons_entry
parse_entry [] rest = rest
parse_entry (c ∷ s) rest = cons_entry (c ∷ s) (parse_u64 (c ∷ s)) rest

-- `.map(str::trim).filter(|s| !s.is_empty()).map(parse).collect()`
parse_entries : List (List ℕ) → Result AllowlistError (List ℕ)
unfolding parse_entry
parse_entries [] = ok []
parse_entries (piece ∷ pieces) = parse_entry (trim piece) (parse_entries pieces)

require_some : Result AllowlistError (List ℕ) → Result AllowlistError (List ℕ)
require_some (ok []) = err empty_list
require_some (ok (id ∷ ids)) = ok (id ∷ ids)
require_some (err e) = err e

-- The argument is the value of TELEGRAM_ALLOWED_USER_IDS, if it is set.
unfoldable pub load_allowed_user_ids : Option (List ℕ) → Result AllowlistError (List ℕ)
unfolding parse_entries require_some
load_allowed_user_ids none = err missing
load_allowed_user_ids (some raw) = require_some (parse_entries (split_on b',' raw))

contains→Member : (ids : List ℕ) (user : ℕ) → contains ids user ≡ true → Member user ids
unfolding contains
contains→Member [] user h = cc
contains→Member (id ∷ ids) user h = elim (Bool-cases (id == user)) [
  | inl e ↦ subst (λ x. Member user (x ∷ ids)) (sym ((==_iff id user).0 e)) first
  | inr e ↦ later (contains→Member ids user (rw e at h))
]

Member→contains : {user : ℕ} {ids : List ℕ} → Member user ids → contains ids user ≡ true
unfolding contains
Member→contains {user = user} first = rw (==_refl user)
Member→contains (later m) = ground (arith, Member→contains m)

-- Who is authorized: a sender on the allowlist, in the configured chat.
pub record IsOperator (msg : Message) (config : BotConfig) : Type 0 where
  pub user : ℕ
  pub in_chat : msg.chat ≡ config.chat_id
  pub known : msg.sender ≡ some user
  pub allowed : Member user config.allowed_user_ids

eqb_ℤ_iff : (a b : ℤ) → (eqb_ℤ a b ≡ true) ↔ (a ≡ b)
eqb_ℤ_iff a b = ground (arith, eq_of_parts a b)

-- `check_auth` accepts exactly the messages of the configured chat that have a sender on the
-- allowlist: being in the chat is not enough, and a message without a sender is refused.
pub check_auth_iff :
    (msg : Message) (config : BotConfig) → (check_auth msg config ≡ true) ↔ IsOperator msg config
unfolding check_auth
check_auth_iff msg config = (accepted, refused)
  where
    accepted : check_auth msg config ≡ true → IsOperator msg config
    accepted h = elim (Option-cases msg.sender) [
      | inl e ↦ ground arith
      | inr (u, e) ↦ record {
        user = u;
        in_chat = (eqb_ℤ_iff msg.chat config.chat_id).0 (ground arith);
        known = e;
        allowed = contains→Member config.allowed_user_ids u (ground arith);
      }
    ]

    refused : IsOperator msg config → check_auth msg config ≡ true
    refused o =
        ground (
          arith,
          (eqb_ℤ_iff msg.chat config.chat_id).1 o.in_chat,
          Member→contains o.allowed,
          o.known,
        )
