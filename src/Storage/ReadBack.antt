-- ===== src/Storage/ReadBack.antt =====
-- What is read back of a batch of rows.
use tick_liq.Prelude.{
  ◌∙◌, if◌then◌else◌, suc, none, Option, length, refl, ◌||◌, sym, ◌&&◌, arith, ℕ, Bool, true, false,
  List, [], ◌∷◌, ◌++◌, ◌≡◌, All, some, some_same,
}
use tick_liq.Prelude.Sort.{
  retain, sort_by_key, sort_by_key-last, sort_by_key-sorted, IsAscending, IsAscendingFrom, IsSorted,
}
use tick_liq.Storage.{
  same_int, str_eq, taken, insert_pool_tick, inserted, commit_or, write_pool_ticks, read_ticks,
  selected, parses, all_parsed,
}
use Prim.Native.String.{String}
use tick_liq.Prelude.Int.{int_laws, ◌-ℤ◌, pos, ◌≤ℤ◌, ◌<ℤ◌, ℤ}
use tick_liq.Backtest.Backfill.{PoolTick}
use text.Mathlib.TextPositions.{eq_refl}
use tick_liq.Prelude.Result.{ok}
use mathlib.Core.List.{append_assoc, append-nil}
use tick_liq.Storage.Laws.{if_some}
use mathlib.Core.Path.{subst}

-- A row of the pool and of the window, whose numbers are `u128`.
pub record IsOwn (pool_address : String) (from_ts to_ts : ℤ) (t : PoolTick) : Type 0 where
  pub address : t.pool_address ≡ pool_address
  pub after : from_ts ≤ℤ t.observed_at
  pub before : t.observed_at <ℤ to_ts
  pub words : parses t ≡ true

apart : (b : Bool) (a s : ℤ) → a <ℤ s → (b && same_int a s) || false ≡ false
apart true a s h = ground arith
apart false a s h = refl

committed :
    (begins : Bool) (works : ℕ → Bool) (commits : Bool) (table ticks table' : List PoolTick)
    → write_pool_ticks begins works commits table ticks ≡ (table', ok (length ticks))
    → inserted works table ticks ≡ some table'
unfolding write_pool_ticks commit_or
committed false works commits table ticks table' h = absurd cc
committed true works commits table ticks table' h = by_result (inserted works table ticks) commits h
  where
    by_result :
        (o : Option (List PoolTick)) (commits : Bool)
        → commit_or commits table (length ticks) o ≡ (table', ok (length ticks))
        → o ≡ some table'
    by_result none commits h = absurd cc
    by_result (some t) true h = cc
    by_result (some t) false h = absurd cc

module _ (p : String) (from_ts to_ts : ℤ) where
  abbrev view : List PoolTick → List PoolTick
  view table = sort_by_key (λ t. t.slot) (retain (selected p from_ts to_ts) table)

  -- No row of the pool has a slot above `k`.
  abbrev IsFree : List PoolTick → ℤ → Type 0
  IsFree table k = (s : ℤ) → k <ℤ s → taken p s table ≡ false

  selected_own : (t : PoolTick) → IsOwn p from_ts to_ts t → selected p from_ts to_ts t ≡ true
  selected_own t own = rw (own.address, eq_refl p) (ground (arith, own.after, own.before))

  IsFree-cons :
      (table : List PoolTick) (k : ℤ) (t : PoolTick)
      → IsFree table k
      → k <ℤ t.slot
      → IsFree (t ∷ table) t.slot
  IsFree-cons table k t free h s above =
      rw (free s (omega (arith, h, above))) (apart (str_eq t.pool_address p) t.slot s above)

  below-snoc :
      (k : ℤ) (t : PoolTick) (xs : List PoolTick)
      → All (λ y. y.slot ≤ℤ k) xs
      → k <ℤ t.slot
      → All (λ y. y.slot ≤ℤ t.slot) (xs ++ (t ∷ []))
  below-snoc k t [] h lt = (omega arith, tt)
  below-snoc k t (x ∷ xs) (hx, hs) lt = (omega (arith, hx, lt), below-snoc k t xs hs lt)

  strictly :
      (k : ℤ) (t : PoolTick) (xs : List PoolTick)
      → All (λ y. y.slot ≤ℤ k) xs
      → k <ℤ t.slot
      → All (λ y. y.slot <ℤ t.slot) xs
  strictly k t [] h lt = tt
  strictly k t (x ∷ xs) (hx, hs) lt = (omega (arith, hx, lt), strictly k t xs hs lt)

  inserted-view :
      (works : ℕ → Bool) (table xs : List PoolTick) (k : ℤ) (ts table' : List PoolTick)
      → view table ≡ xs
      → All (λ y. y.slot ≤ℤ k) xs
      → IsFree table k
      → IsAscendingFrom (λ t. t.slot) k ts
      → All (IsOwn p from_ts to_ts) ts
      → inserted works table ts ≡ some table'
      → view table' ≡ xs ++ ts
  unfolding inserted insert_pool_tick retain
  inserted-view works table xs k [] table' v below free asc own h =
      rw (sym (some_same h), append-nil xs) v
  inserted-view works table xs k (t ∷ ts) table' v below free asc own h =
      let own_t = own.0 in
      let free_t = free t.slot asc.0 in
      let step = if_some (works 0) _ _ h in
      let fresh : taken t.pool_address t.slot table ≡ false = rw own_t.address free_t in
      let grown : view (t ∷ table) ≡ xs ++ (t ∷ []) =
        rw (selected_own t own_t) (sort_by_key-last _ t _ xs v (strictly k t xs below asc.0)) in
      inserted-view (λ i. works (suc i)) (t ∷ table) (xs ++ (t ∷ [])) t.slot ts table' grown
        (below-snoc k t xs below asc.0) (IsFree-cons table k t free asc.0) asc.1 own.1
        (subst
          (λ b. inserted (λ i. works (suc i)) (if b then table else t ∷ table) ts ≡ some table')
          fresh step)
      ∙ append_assoc xs (t ∷ []) ts

  IsFree-other :
      (table : List PoolTick) (k : ℤ)
      → All (λ t. str_eq t.pool_address p ≡ false) table
      → IsFree table k
  IsFree-other [] k h s above = refl
  IsFree-other (t ∷ ts) k (ht, hs) s above = rw (ht, IsFree-other ts k hs s above)

  view-other :
      (table : List PoolTick) → All (λ t. str_eq t.pool_address p ≡ false) table → view table ≡ []
  unfolding retain sort_by_key
  view-other [] h = refl
  view-other (t ∷ ts) (ht, hs) = rw ht (view-other ts hs)

  all_parsed-own : (ts : List PoolTick) → All (IsOwn p from_ts to_ts) ts → all_parsed ts ≡ ok ts
  unfolding all_parsed
  all_parsed-own [] own = refl
  all_parsed-own (t ∷ ts) (own_t, own) = rw (own_t.words, all_parsed-own ts own)

  written-view :
      (works : ℕ → Bool) (table ticks table' : List PoolTick)
      → All (λ t. str_eq t.pool_address p ≡ false) table
      → IsAscending (λ t. t.slot) ticks
      → All (IsOwn p from_ts to_ts) ticks
      → inserted works table ticks ≡ some table'
      → view table' ≡ ticks
  written-view works table [] table' other asc own h =
      inserted-view works table [] (pos 0) [] table' (view-other table other) tt
        (IsFree-other table (pos 0) other) tt tt h
  written-view works table (t ∷ ts) table' other asc own h =
      inserted-view works table [] (t.slot -ℤ pos 1) (t ∷ ts) table' (view-other table other) tt
        (IsFree-other table (t.slot -ℤ pos 1) other) (omega int_laws, asc) own h

  -- A batch of rows of one pool with strictly ascending slots, in the order of their times, is read back
  -- as it was written, once its write has returned without an error, when the table had no row of the
  -- pool before: the query for the pool and a window that holds the rows returns them all, in their
  -- order.
  pub read_ticks-write_pool_ticks :
      (begins : Bool) (works : ℕ → Bool) (commits : Bool) (table ticks table' : List PoolTick)
      → write_pool_ticks begins works commits table ticks ≡ (table', ok (length ticks))
      → All (λ t. str_eq t.pool_address p ≡ false) table
      → IsAscending (λ t. t.slot) ticks
      → IsSorted (λ t. t.observed_at) ticks
      → All (IsOwn p from_ts to_ts) ticks
      → read_ticks true table' p from_ts to_ts ≡ ok ticks
  unfolding write_pool_ticks commit_or read_ticks
  read_ticks-write_pool_ticks begins works commits table ticks table' h other asc sorted own =
      rw
        (
          written-view works table ticks table' other asc own
              (committed begins works commits table ticks table' h),
          sort_by_key-sorted (λ t. t.observed_at) ticks sorted,
        )
        (all_parsed-own ticks own)
