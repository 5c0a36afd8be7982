-- ===== src/Gauges.antt =====
-- The gauges of `src/metrics/mod.rs`, with the sources of `src/data/mod.rs`. A call of the recorder is a
-- value: its name, its labels and what it sets.
use tick_liq.Prelude.{ℕ, Bool, List, [], ◌∷◌, Option, none, some, ◌||◌, not, if◌then◌else◌}
use Prim.Native.String.{String}
use tick_liq.Prelude.Float.{Float, ◌⊖◌, ◌⊗◌, ◌⊘◌, ◌≼◌, lit}
use tick_liq.Prelude.Libm.{Libm}
use tick_liq.Prelude.Result.{Result, ok, err}

pub data Source : Type 0 where
  binance : Source
  coinbase : Source
  orca : Source

abbrev pub source_label : Source → String
source_label binance = "binance"
source_label coinbase = "coinbase"
source_label orca = "orca"

pub record Gauge {ℓ} (F : Type ℓ) : Type ℓ where
  pub name : String
  pub labels : List (String × String)
  pub value : F

pub record PositionMetrics {ℓ} (F : Type ℓ) : Type ℓ where
  pub mint : String
  pub value_usd : F
  pub pnl_usd : F
  pub fees_usd : F
  pub il_usd : F
  pub delta : F
  pub gamma : F
  pub in_range : Bool
  pub rebalance_signal : Bool

-- How the recorder is exported: on an address, or by a push every so many seconds.
pub data Exporter (Addr : Type 0) : Type 0 where
  listener : Addr → Exporter Addr
  push_gateway : String → ℕ → Exporter Addr

pub data InitError : Type 0 where
  bad_address : InitError
  bad_uri : InitError
  not_installed : InitError

-- `raw.parse().unwrap_or_else(|_| 15)`, and 15 where the variable is not set.
abbrev pub interval_of : (String → Option ℕ) → Option String → ℕ
interval_of parse_u64 none = 15
interval_of parse_u64 (some raw) = elim (parse_u64 raw) [ none ↦ 15 | some secs ↦ secs ]

module _ {Addr : Type 0} (parse_addr : String → Option Addr) (parse_u64 : String → Option ℕ)
    (is_uri : String → Bool) (installs : Bool) where
  abbrev installed : Exporter Addr → Result InitError (Option (Exporter Addr))
  installed e = if installs then ok (some e) else err not_installed

  listen_on : Option Addr → Result InitError (Option (Exporter Addr))
  listen_on none = err bad_address
  listen_on (some addr) = installed (listener addr)

  -- `none` is the `Ok(false)` of the code; an address takes precedence over a gateway.
  unfoldable pub init_from_env :
      Option String → Option String → Option String → Result InitError (Option (Exporter Addr))
  unfolding listen_on
  init_from_env (some addr_str) push_url interval = listen_on (parse_addr addr_str)
  init_from_env none (some url) interval =
      if is_uri url
      then installed (push_gateway url (interval_of parse_u64 interval))
      else err bad_uri
  init_from_env none none interval = ok none

module _ {ℓ} {F : Type ℓ} ⦃f : Float F⦄ where
  abbrev one_if : Bool → F
  one_if b = if b then lit 1 else lit 0

  unfoldable pub record_price : Source → F → List (Gauge F)
  record_price source mid =
      record {
        name = "tickliq_price_mid";
        labels = ("source", source_label source) ∷ [];
        value = mid;
      }
      ∷ []

  unfoldable pub record_deviation : Source → F → List (Gauge F)
  record_deviation source bps =
      record {
        name = "tickliq_price_deviation_bps";
        labels = ("source", source_label source) ∷ ("ref", "binance") ∷ [];
        value = bps;
      }
      ∷ []

  unfoldable pub record_feed : Source → Bool → F → List (Gauge F)
  record_feed source up staleness_secs =
      record {
        name = "tickliq_feed_up";
        labels = ("source", source_label source) ∷ [];
        value = one_if up;
      }
      ∷ record {
        name = "tickliq_feed_staleness_seconds";
        labels = ("source", source_label source) ∷ [];
        value = staleness_secs;
      }
      ∷ []

  abbrev of_mint : String → String → F → Gauge F
  of_mint mint name value = record { name = name; labels = ("mint", mint) ∷ []; value = value }

  unfoldable pub record_position : PositionMetrics F → List (Gauge F)
  record_position snap =
      of_mint snap.mint "tickliq_position_value_usd" snap.value_usd
      ∷ of_mint snap.mint "tickliq_pnl_usd" snap.pnl_usd
      ∷ of_mint snap.mint "tickliq_fees_earned_usd" snap.fees_usd
      ∷ of_mint snap.mint "tickliq_il_usd" snap.il_usd
      ∷ of_mint snap.mint "tickliq_delta" snap.delta
      ∷ of_mint snap.mint "tickliq_gamma" snap.gamma
      ∷ of_mint snap.mint "tickliq_in_range" (one_if snap.in_range)
      ∷ of_mint snap.mint "tickliq_rebalance_signal" (one_if snap.rebalance_signal)
      ∷ []

module _ {ℓ} {F : Type ℓ} ⦃f : Float F⦄ ⦃m : Libm F⦄ where
  unfoldable pub deviation_bps : F → F → Option F
  deviation_bps price reference =
      if not (m.is_finite price) || not (m.is_finite reference) || (reference ≼ lit 0)
      then none
      else some ((price ⊖ reference) ⊘ reference ⊗ lit 10_000)
