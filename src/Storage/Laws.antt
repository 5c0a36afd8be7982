-- ===== src/Storage/Laws.antt =====
-- What the writes of `pool_ticks` keep: the key of the table, the rows that are there, and all of them
-- when a transaction fails.
use tick_liq.Prelude.{
  suc, ◌⊎◌, some_same, length, sym, if◌then◌else◌, ℕ, Bool, true, false, List, [], ◌∷◌, Option, ◌≡◌,
  Member, Bool-cases, some, none, refl, inl, inr, later,
}
use tick_liq.Prelude.Result.{ok, err}
use tick_liq.Storage.{taken, insert_pool_tick, inserted, commit_or, write_pool_ticks}
use tick_liq.Backtest.Backfill.{PoolTick}

-- No two rows have one key.
abbrev pub IsKeyed : List PoolTick → Type 0
IsKeyed [] = Unit
IsKeyed (t ∷ ts) = (taken t.pool_address t.slot ts ≡ false) × IsKeyed ts

-- The new table has the key if the old one has it, and all of its rows.
pub record IsExtended (table table' : List PoolTick) : Type 0 where
  pub keyed : IsKeyed table → IsKeyed table'
  pub kept : (t : PoolTick) → Member t table → Member t table'

IsExtended-refl : (table : List PoolTick) → IsExtended table table
IsExtended-refl table = record { keyed = λ k. k; kept = λ t m. m }

IsExtended-trans : (a b c : List PoolTick) → IsExtended a b → IsExtended b c → IsExtended a c
IsExtended-trans a b c ab bc = record {
  keyed = λ k. bc.keyed (ab.keyed k);
  kept = λ t m. bc.kept t (ab.kept t m);
}

insert_pool_tick-IsExtended :
    (table : List PoolTick) (t : PoolTick) → IsExtended table (insert_pool_tick table t)
unfolding insert_pool_tick
insert_pool_tick-IsExtended table t = elim (Bool-cases (taken t.pool_address t.slot table)) [
  | inl e ↦ rw e (IsExtended-refl table)
  | inr e ↦ rw e (record { keyed = λ k. (e, k); kept = λ r m. later m })
]

pub if_some {ℓ} :
    {A : Type ℓ} (b : Bool) (o : Option A) (a : A) → (if b then o else none) ≡ some a → o ≡ some a
if_some true o a h = h
if_some false o a h = absurd cc

inserted-IsExtended :
    (works : ℕ → Bool) (table ts table' : List PoolTick)
    → inserted works table ts ≡ some table'
    → IsExtended table table'
unfolding inserted
inserted-IsExtended works table [] table' h = rw (sym (some_same h)) (IsExtended-refl table)
inserted-IsExtended works table (t ∷ ts) table' h =
    IsExtended-trans table (insert_pool_tick table t) table' (insert_pool_tick-IsExtended table t) (
      inserted-IsExtended (λ i. works (suc i)) (insert_pool_tick table t) ts table'
        (if_some _ _ _ h))

-- Whatever statement of a batch fails, the table keeps its key, one row for each pool and slot, if it
-- had it, and loses no row and changes none; and if the batch returns an error, the table is the old
-- one.
pub write_pool_ticks-IsExtended :
    (begins : Bool) (works : ℕ → Bool) (commits : Bool) (table ticks : List PoolTick)
    → let (table', r) = write_pool_ticks begins works commits table ticks in
      IsExtended table table' × ((r ≡ ok (length ticks)) ⊎ ((r ≡ err tt) × (table' ≡ table)))
unfolding write_pool_ticks commit_or
write_pool_ticks-IsExtended false works commits table ticks =
    (IsExtended-refl table, inr (refl, refl))
write_pool_ticks-IsExtended true works commits table ticks =
    by_result (inserted works table ticks) commits (inserted-IsExtended works table ticks)
  where
    by_result :
        (o : Option (List PoolTick)) (commits : Bool)
        → ((table' : List PoolTick) → o ≡ some table' → IsExtended table table')
        → let (table', r) = commit_or commits table (length ticks) o in
          IsExtended table table' × ((r ≡ ok (length ticks)) ⊎ ((r ≡ err tt) × (table' ≡ table)))
    by_result none commits h = (IsExtended-refl table, inr (refl, refl))
    by_result (some table') true h = (h table' refl, inl refl)
    by_result (some table') false h = (IsExtended-refl table, inr (refl, refl))
