-- ===== src/Backtest/Backfill/Rows.antt =====
-- The made-up rows are rows of their pool, in order, of 128-bit numbers.
use tick_liq.Prelude.{
  ◌-◌, some_same, sym, ◌&&◌, if◌then◌else◌, ltb, arith, bind-some, ℕ, Bool, true, false, List, [],
  ◌∷◌, some, ◌≡◌, refl, All, ◌<◌,
}
use tick_liq.Prelude.Float.{Float}
use tick_liq.Prelude.Libm.{Libm, IsCast}
use tick_liq.Prelude.Int.{parts_apart, int_laws, pos, ◌-ℤ◌, ℤ, ◌≤ℤ◌, ◌<ℤ◌}
use tick_liq.Prelude.Word.{wrap_of_Fits, wrap, i64_half, Fits, u128_mod}
use tick_liq.Backtest.Backfill.{
  PoolTick, PoolSynthParams, synthesize_ticks, rows_from, row_at, grow, saturating_add,
}
use tick_liq.Feeds.Candles.{OhlcvCandle}
use tick_liq.Storage.{parses}
use tick_liq.Storage.ReadBack.{IsOwn}
use tick_liq.Math.Price.{price_to_tick, price_to_sqrt_q64}
use tick_liq.Prelude.Sort.{IsSorted, IsAscending, IsSortedFrom, IsAscendingFrom}

either_lt : (b : Bool) (x y : ℕ) → x < u128_mod → y < u128_mod → (if b then x else y) < u128_mod
either_lt true x y hx hy = hx
either_lt false x y hx hy = hy

saturating_add-lt : (a b : ℕ) → saturating_add a b < u128_mod
unfolding saturating_add
saturating_add-lt a b = ground arith

all_words :
    (a b c d : ℕ)
    → a < u128_mod
    → b < u128_mod
    → c < u128_mod
    → d < u128_mod
    → ltb a u128_mod && (ltb b u128_mod && (ltb c u128_mod && ltb d u128_mod)) ≡ true
all_words a b c d ha hb hc hd = ground arith

below_self : (z : ℤ) → z -ℤ pos 1 <ℤ z
below_self z = omega int_laws

IsAscendingFrom-IsSortedFrom {ℓ} :
    {A : Type ℓ} (key : A → ℤ) (k : ℤ) (xs : List A)
    → IsAscendingFrom key k xs
    → IsSortedFrom key k xs
IsAscendingFrom-IsSortedFrom key k [] h = tt
IsAscendingFrom-IsSortedFrom key k (x ∷ xs) (h, hs) =
    (omega (arith, h), IsAscendingFrom-IsSortedFrom key (key x) xs hs)

zero_lt : 0 < u128_mod
zero_lt = omega arith

pub synthesize_ticks-cons {ℓ} :
    {F : Type ℓ} ⦃f : Float F⦄ ⦃m : Libm F⦄
    → (c : OhlcvCandle F) (cs : List (OhlcvCandle F)) (p : PoolSynthParams F)
      (ticks : List PoolTick)
    → synthesize_ticks (c ∷ cs) p ≡ some ticks
    → (t : PoolTick) × (ts : List PoolTick) × (ticks ≡ t ∷ ts)
unfolding synthesize_ticks
synthesize_ticks-cons c cs p ticks h =
    let base = bind-some (row_at p c (wrap i64_half (c.timestamp -ℤ pos 1)) 0) h in
    let rest = bind-some (rows_from p 0 (c ∷ cs)) base.2 in (base.0, rest.0, sym (some_same rest.2))

module _ {ℓ} {F : Type ℓ} ⦃f : Float F⦄ ⦃m : Libm F⦄ (cast : IsCast F) where
  price_to_sqrt_q64-lt : (x : F) → price_to_sqrt_q64 x < u128_mod
  unfolding price_to_sqrt_q64
  price_to_sqrt_q64-lt x =
      either_lt _ 0 _ (omega arith) (either_lt _ (u128_mod - 1) _ (omega arith) (cast.to_u128-lt _))

  grow-lt :
      (p : PoolSynthParams F) (c : OhlcvCandle F) (n : ℕ) → n < u128_mod → grow p c n < u128_mod
  unfolding grow
  grow-lt p c n h = either_lt _ _ _ (either_lt _ _ _ (saturating_add-lt _ _) h) h

  -- What a made-up row takes over.
  record IsRow (p : PoolSynthParams F) (c : OhlcvCandle F) (slot : ℤ) (t : PoolTick) : Type ℓ where
    address : t.pool_address ≡ p.pool_address
    slot_eq : t.slot ≡ slot
    time : t.observed_at ≡ c.timestamp
    words : parses t ≡ true

  row_at-IsRow :
      (p : PoolSynthParams F) (c : OhlcvCandle F) (slot : ℤ) (n : ℕ) (t : PoolTick)
      → p.pool_liquidity < u128_mod
      → n < u128_mod
      → row_at p c slot n ≡ some t
      → IsRow p c slot t
  unfolding row_at
  row_at-IsRow p c slot n t hl hn h =
      let tick = bind-some (price_to_tick _ _) h in
      rw (sym (some_same tick.2)) (record {
        address = refl;
        slot_eq = refl;
        time = refl;
        words = all_words _ _ 0 _ (price_to_sqrt_q64-lt _) hl zero_lt hn;
      })

  module _ (p : PoolSynthParams F) (from_ts to_ts : ℤ) (hl : p.pool_liquidity < u128_mod) where
    abbrev InWindow : OhlcvCandle F → Type 0
    InWindow c = (from_ts ≤ℤ c.timestamp) × (c.timestamp <ℤ to_ts)

    IsRow-IsOwn :
        (c : OhlcvCandle F) (slot : ℤ) (t : PoolTick)
        → InWindow c
        → IsRow p c slot t
        → IsOwn p.pool_address from_ts to_ts t
    IsRow-IsOwn c slot t (lo, hi) r = record {
      address = r.address;
      after = rw r.time lo;
      before = rw r.time hi;
      words = r.words;
    }

    rows_from-IsOwn :
        (k j : ℤ) (n : ℕ) (cs : List (OhlcvCandle F)) (ts : List PoolTick)
        → n < u128_mod
        → IsAscendingFrom (λ c. c.timestamp) k cs
        → IsSortedFrom (λ c. c.timestamp) j cs
        → All InWindow cs
        → rows_from p n cs ≡ some ts
        → IsAscendingFrom (λ t. t.slot) k ts
          × IsSortedFrom (λ t. t.observed_at) j ts
          × All (IsOwn p.pool_address from_ts to_ts) ts
    unfolding rows_from
    rows_from-IsOwn k j n [] ts hn asc sorted inw h = rw (sym (some_same h)) (tt, tt, tt)
    rows_from-IsOwn k j n (c ∷ cs) ts hn asc sorted inw h =
        let head = bind-some (row_at p c c.timestamp (grow p c n)) h in
        let rest = bind-some (rows_from p (grow p c n) cs) head.2 in
        let row = row_at-IsRow p c c.timestamp (grow p c n) head.0 hl (grow-lt p c n hn) head.1 in
        let (slots, times, own) =
          rows_from-IsOwn c.timestamp c.timestamp (grow p c n) cs rest.0 (grow-lt p c n hn) asc.1
            sorted.1 inw.1 rest.1 in
        rw (sym (some_same rest.2), row.slot_eq, row.time)
          ((asc.0, slots), (sorted.0, times), (IsRow-IsOwn c c.timestamp head.0 inw.0 row, own))

    one_less :
        (z : ℤ)
        → Fits i64_half (from_ts -ℤ pos 1)
        → Fits i64_half to_ts
        → (from_ts ≤ℤ z) × (z <ℤ to_ts)
        → Fits i64_half (z -ℤ pos 1)
    one_less z lo hi inw = grind (
      int_laws,
      parts_apart (z -ℤ pos 1),
      parts_apart z,
      parts_apart to_ts,
      parts_apart (from_ts -ℤ pos 1),
      parts_apart from_ts,
    )

    -- The rows of candles in strictly ascending order, of a window of times whose seconds are `i64`
    -- with one to spare, are rows of the pool and of the window: their slots ascend strictly, and their
    -- times do not descend.
    pub synthesize_ticks-IsOwn :
        (cs : List (OhlcvCandle F)) (ts : List PoolTick)
        → Fits i64_half (from_ts -ℤ pos 1)
        → Fits i64_half to_ts
        → IsAscending (λ c. c.timestamp) cs
        → All InWindow cs
        → synthesize_ticks cs p ≡ some ts
        → IsAscending (λ t. t.slot) ts
          × IsSorted (λ t. t.observed_at) ts
          × All (IsOwn p.pool_address from_ts to_ts) ts
    unfolding synthesize_ticks
    synthesize_ticks-IsOwn [] ts lo hi asc inw h = rw (sym (some_same h)) (tt, tt, tt)
    synthesize_ticks-IsOwn (c ∷ cs) ts lo hi asc inw h =
        let slot = wrap i64_half (c.timestamp -ℤ pos 1) in
        let e : slot ≡ c.timestamp -ℤ pos 1 =
          wrap_of_Fits i64_half _ (one_less c.timestamp lo hi inw.0) in
        let base = bind-some (row_at p c slot 0) h in
        let rest = bind-some (rows_from p 0 (c ∷ cs)) base.2 in
        let row = row_at-IsRow p c slot 0 base.0 hl zero_lt base.1 in
        let (slots, times, own) =
          rows_from-IsOwn (c.timestamp -ℤ pos 1) c.timestamp 0 (c ∷ cs) rest.0 zero_lt
            (below_self c.timestamp, asc)
            (omega arith, IsAscendingFrom-IsSortedFrom _ c.timestamp cs asc) inw rest.1 in
        rw (sym (some_same rest.2), row.slot_eq, e, row.time)
          (slots, times, (IsRow-IsOwn c slot base.0 inw.0 row, own))
