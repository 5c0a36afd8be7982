-- ===== src/Examples/Depth.antt =====
-- The distribution of a pool at tick 0 with two ticks, as the test of the source has it.
use tick_liq.Depth.Distribution.{Ticks, build_distribution}
use tick_liq.Depth.Distribution.Starts.{IsInRange}
use tick_liq.Depth.Distribution.Walks.{liquidities, shown_left, shown_right}
use tick_liq.Prelude.{◌++◌, arith, map, ◌≡◌, refl, ◌∷◌, []}
use tick_liq.Prelude.Word.{wrap}
use tick_liq.Prelude.Int.{◌*ℕ◌, ◌+ℤ◌, ◌-ℤ◌, pos, negsuc}
use mathlib.Core.List.{reverse}
use tick_liq.Depth.Distribution.Exact.{build_distribution_exact}

abbrev ticks : Ticks
ticks = (pos 64, pos 500) ∷ (negsuc 63, pos 200) ∷ []

in_range : IsInRange (pos 0) 64 2
unfolding ◌+ℤ◌ ◌-ℤ◌
in_range = record {
  span = omega arith;
  current = (omega arith, omega arith);
  last_right = (omega arith, omega arith);
  last_left = (omega arith, omega arith);
}

buckets :
    map (λ l. l.liquidity) (build_distribution (λ t. t) ticks (pos 0) (pos 64) 1000 2)
    ≡ 800 ∷ 1000 ∷ 1000 ∷ 1500 ∷ 1500 ∷ []
unfolding build_distribution wrap ◌-ℤ◌ ◌*ℕ◌ ◌+ℤ◌
buckets = refl

build_distribution_exact_example :
    liquidities
      (λ t. t)
      ticks
      (pos 0)
      64
      2
      in_range
      1000
      (build_distribution (λ t. t) ticks (pos 0) (pos 64) 1000 2)
    ≡ reverse (shown_left (λ t. t) ticks (pos 0) 64 2 in_range 1000 2 1)
      ++ shown_right (λ t. t) ticks (pos 0) 64 2 in_range 1000 3 0
build_distribution_exact_example =
    build_distribution_exact (λ t. t) ticks (pos 0) 64 2 in_range 1000 (omega arith) (omega arith)
