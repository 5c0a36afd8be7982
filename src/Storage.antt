-- ===== src/Storage.antt =====
-- The tables `pool_ticks` and `pnl_history`: `write_pool_tick`, `write_pool_ticks` and
-- `write_pnl_snapshot` of `src/storage/writer.rs`, and `read_ticks` of `src/storage/tick_reader.rs`. The
-- newest row is the first. A flag says whether a statement succeeds.
pub mod Laws
pub mod ReadBack
use text.Mathlib.Text.{◌==◌ as str_eq}
use tick_liq.Prelude.{
  suc, none, some, ltb, length, ℕ, Bool, true, false, List, [], ◌∷◌, Option, ◌&&◌, ◌||◌,
  if◌then◌else◌,
}
use tick_liq.Prelude.Result.{and_then, Result, ok, err}
use tick_liq.Prelude.Int.{ℤ, leb_ℤ, ltb_ℤ}
use Prim.Native.String.{String}
use tick_liq.Risk.Monitor.{PnlSnapshot}
use tick_liq.Prelude.Sort.{sort_by_key, retain}
use tick_liq.Backtest.Backfill.{PoolTick}
use tick_liq.Prelude.Word.{u128_mod}

-- The equality of `i64`.
abbrev pub same_int : ℤ → ℤ → Bool
same_int a b = leb_ℤ a b && leb_ℤ b a

-- The rows with the key of `UNIQUE (pool_address, slot)`.
abbrev pub has_key : String → ℤ → PoolTick → Bool
has_key pool_address slot t = str_eq t.pool_address pool_address && same_int t.slot slot

abbrev pub taken : String → ℤ → List PoolTick → Bool
taken pool_address slot [] = false
taken pool_address slot (t ∷ ts) = has_key pool_address slot t || taken pool_address slot ts

-- `INSERT_POOL_TICK_SQL`, with `ON CONFLICT (pool_address, slot) DO NOTHING`.
unfoldable pub insert_pool_tick : List PoolTick → PoolTick → List PoolTick
insert_pool_tick table t = if taken t.pool_address t.slot table then table else t ∷ table

unfoldable pub write_pool_tick :
    Bool → List PoolTick → PoolTick → List PoolTick × Result (Unit {0}) (Unit {0})
unfolding insert_pool_tick
write_pool_tick works table t = if works then (insert_pool_tick table t, ok tt) else (table, err tt)

-- The statements of the transaction; `none` is the first that fails. The flags come one for each row.
unfoldable inserted : (ℕ → Bool) → List PoolTick → List PoolTick → Option (List PoolTick)
unfolding insert_pool_tick
inserted works table [] = some table
inserted works table (t ∷ ts) =
    let rest = inserted (λ i. works (suc i)) (insert_pool_tick table t) ts in
    if works 0 then rest else none

-- An error drops the transaction, which rolls it back.
unfoldable commit_or :
    Bool → List PoolTick → ℕ → Option (List PoolTick) → List PoolTick × Result (Unit {0}) ℕ
commit_or commits table n none = (table, err tt)
commit_or commits table n (some table') = if commits then (table', ok n) else (table, err tt)

unfoldable pub write_pool_ticks :
    Bool → (ℕ → Bool) → Bool → List PoolTick → List PoolTick → List PoolTick × Result (Unit {0}) ℕ
unfolding inserted commit_or
write_pool_ticks begins works commits table ticks =
    if begins
    then commit_or commits table (length ticks) (inserted works table ticks)
    else (table, err tt)

unfoldable pub write_pnl_snapshot {ℓ} :
    {F : Type ℓ}
    → Bool
    → List (PnlSnapshot F)
    → PnlSnapshot F
    → List (PnlSnapshot F) × Result (Unit {0}) (Unit {0})
write_pnl_snapshot works table snap = if works then (snap ∷ table, ok tt) else (table, err tt)

pub data ReadError : Type 0 where
  query_failed : ReadError
  not_u128 : ReadError

-- `WHERE pool_address = $1 AND time >= $2 AND time < $3`
abbrev pub selected : String → ℤ → ℤ → PoolTick → Bool
selected pool_address from_ts to_ts t =
    str_eq t.pool_address pool_address && (leb_ℤ from_ts t.observed_at && ltb_ℤ t.observed_at to_ts)

-- The four columns that are parsed from text.
abbrev pub parses : PoolTick → Bool
parses t =
    ltb t.sqrt_price u128_mod
    && (ltb t.liquidity u128_mod
        && (ltb t.fee_growth_global_a u128_mod && ltb t.fee_growth_global_b u128_mod))

unfoldable all_parsed : List PoolTick → Result ReadError (List PoolTick)
all_parsed [] = ok []
all_parsed (t ∷ ts) =
    let rest = all_parsed ts in
    if parses t then and_then rest (λ out. ok (t ∷ out)) else err not_u128

-- `ORDER BY time ASC, slot ASC`
unfoldable pub read_ticks : Bool → List PoolTick → String → ℤ → ℤ → Result ReadError (List PoolTick)
unfolding all_parsed retain sort_by_key
read_ticks selects table pool_address from_ts to_ts =
    if selects
    then all_parsed (
        sort_by_key (λ t. t.observed_at)
          (sort_by_key (λ t. t.slot) (retain (selected pool_address from_ts to_ts) table)))
    else err query_failed
