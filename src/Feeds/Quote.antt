-- ===== src/Feeds/Quote.antt =====
-- The quotes of the exchange feeds: `validate_quote` and `apply_book_ticker` of `src/data/cex_ws.rs`, and
-- the shared state of both feeds. `str::parse::<f64>` is the argument `parse`.
use tick_liq.Prelude.{
  sym, ℕ, ◌≡◌, refl, ◌&&◌, ◌>>=◌, bind-some, some_same, arith, Bool, true, false, Option, none,
  some,
}
use Prim.Native.String.{String}
use tick_liq.Prelude.Float.{Float, ◌⊕◌, ◌⊘◌, ◌≺◌, ◌≼◌, lit}
use tick_liq.Prelude.Libm.{Libm}

-- `updated_at` is a time in seconds.
pub record CexPrice {ℓ} (F : Type ℓ) : Type ℓ where
  pub price : F
  pub updated_at : ℕ

all_five :
    (a b c d e : Bool)
    → a && (b && (c && (d && e))) ≡ true
    → ((a ≡ true) × (b ≡ true)) × ((c ≡ true) × (d ≡ true)) × (e ≡ true)
all_five a b c d e h = ground arith

module _ {ℓ} {F : Type ℓ} ⦃f : Float F⦄ ⦃m : Libm F⦄ where
  unfoldable pub validate_quote : F → F → Bool
  validate_quote bid ask =
      m.is_finite bid && (m.is_finite ask && ((lit 0 ≺ bid) && ((lit 0 ≺ ask) && (bid ≼ ask))))

  mid_if : Bool → F → F → Option F
  mid_if true bid ask = some ((bid ⊕ ask) ⊘ lit 2)
  mid_if false bid ask = none

  -- The middle of a bid and an ask, both present, numeric and sane.
  unfoldable pub mid_of : (String → Option F) → Option String → Option String → Option F
  unfolding mid_if validate_quote
  mid_of parse bid ask = do
    bid_str ← bid
    ask_str ← ask
    bid_f ← parse bid_str
    ask_f ← parse ask_str
    mid_if (validate_quote bid_f ask_f) bid_f ask_f

  written : ℕ → Option F → Option (CexPrice F) → Bool × Option (CexPrice F)
  written now none state = (false, state)
  written now (some mid) state = (true, some (record { price = mid; updated_at = now }))

  -- Whether the state was written, and the state.
  unfoldable pub apply_book_ticker :
      (String → Option F)
      → Option String
      → Option String
      → ℕ
      → Option (CexPrice F)
      → Bool × Option (CexPrice F)
  unfolding written
  apply_book_ticker parse bid ask now state = written now (mid_of parse bid ask) state

  -- A bid and an ask that are finite and positive numbers, not crossed, with the given middle.
  pub record IsMid (parse : String → Option F) (bid ask : Option String) (mid : F) : Type ℓ where
    pub bid_str : String
    pub ask_str : String
    pub bid_f : F
    pub ask_f : F
    pub has_bid : bid ≡ some bid_str
    pub has_ask : ask ≡ some ask_str
    pub parsed_bid : parse bid_str ≡ some bid_f
    pub parsed_ask : parse ask_str ≡ some ask_f
    pub finite : (m.is_finite bid_f ≡ true) × (m.is_finite ask_f ≡ true)
    pub positive : ((lit 0 ≺ bid_f) ≡ true) × ((lit 0 ≺ ask_f) ≡ true)
    pub ordered : (bid_f ≼ ask_f) ≡ true
    pub middle : mid ≡ (bid_f ⊕ ask_f) ⊘ lit 2

  mid_if-some :
      (b : Bool) (bid ask mid : F)
      → mid_if b bid ask ≡ some mid
      → (b ≡ true) × (mid ≡ (bid ⊕ ask) ⊘ lit 2)
  unfolding mid_if
  mid_if-some true bid ask mid h = (refl, sym (some_same h))
  mid_if-some false bid ask mid h = absurd cc

  pub mid_of-IsMid :
      (parse : String → Option F) (bid ask : Option String) (mid : F)
      → mid_of parse bid ask ≡ some mid
      → IsMid parse bid ask mid
  unfolding mid_of validate_quote
  mid_of-IsMid parse bid ask mid h =
      let b = bind-some bid h in
      let a = bind-some ask b.2 in
      let x = bind-some (parse b.0) a.2 in
      let y = bind-some (parse a.0) x.2 in
      let v = mid_if-some (validate_quote x.0 y.0) x.0 y.0 mid y.2 in
      let t = all_five _ _ _ _ _ v.0 in
      record {
        bid_str = b.0;
        ask_str = a.0;
        bid_f = x.0;
        ask_f = y.0;
        has_bid = b.1;
        has_ask = a.1;
        parsed_bid = x.1;
        parsed_ask = y.1;
        finite = t.0;
        positive = t.1;
        ordered = t.2;
        middle = v.1;
      }
