-- ===== src/Strategy/Plan/Laws.antt =====
-- What the new range of a plan guarantees: it holds the current tick, its lower bound is a multiple of
-- the spacing, and when its width and its upper bound are as the old range's.
use tick_liq.Strategy.Signal.Laws.{IsTick}
use tick_liq.Strategy.Plan.{
  build_rebalance_plan, width_of, corrected, centred, sat_sub, spacing_of, align,
}
use tick_liq.Prelude.{inr, inl, Bool-cases, ◌*◌, ◌/◌, ◌≤◌, ◌+◌, arith, ◌≡◌, ◌<◌, ℕ}
use tick_liq.Prelude.Int.{
  leb_ℤ_false→lt, leb_ℤ→le, ltb_ℤ→lt, leb_ℤ, ltb_ℤ, ◌+ℤ◌, ◌<ℤ◌, +ℤ_parts, parts_apart,
  rem_euclid-align, ◌≤ℤ◌, rem_euclid-lt, -ℤ_parts, rem_euclid, ◌-ℤ◌, neg_part, pos_part, pos, ℤ,
}
use tick_liq.Prelude.Word.{saturate-Fits, saturate_of_Fits, wrap_of_Fits, i32_half}
use Prim.Native.String.{String}

-- A tick spacing of a pool, which is an `u16` and not 0.
abbrev pub IsSpacing : ℕ → Type 0
IsSpacing s = (0 < s) × (s < 65536)

spacing_id : (s : ℕ) → IsSpacing s → spacing_of (pos s) ≡ s
spacing_id s h = ground arith

-- `align` is exact where a step below the tick stays in range.
align_exact :
    (t : ℤ) (s : ℕ)
    → IsSpacing s
    → pos_part t < i32_half
    → neg_part t + s ≤ i32_half
    → align s t ≡ t -ℤ pos (rem_euclid t s)
unfolding align
align_exact t s h hi lo =
    let below = t -ℤ pos (rem_euclid t s) in
    wrap_of_Fits i32_half below
      (omega (arith, -ℤ_parts t (pos (rem_euclid t s)), rem_euclid-lt t s h.0, parts_apart below))

-- What `align` promises: a multiple of the spacing, at most a step below.
record IsAligned (s : ℕ) (t a : ℤ) : Type 0 where
  multiple : rem_euclid a s ≡ 0
  below : a ≤ℤ t
  near : t <ℤ a +ℤ pos s

align-IsAligned :
    (t : ℤ) (s : ℕ)
    → IsSpacing s
    → pos_part t < i32_half
    → neg_part t + s ≤ i32_half
    → IsAligned s t (align s t)
align-IsAligned t s h hi lo = rw (align_exact t s h hi lo) (record {
  multiple = rem_euclid-align t s h.0;
  below = omega (arith, -ℤ_parts t (pos (rem_euclid t s)));
  near = omega (
    arith,
    -ℤ_parts t (pos (rem_euclid t s)),
    +ℤ_parts (t -ℤ pos (rem_euclid t s)) (pos s),
    rem_euclid-lt t s h.0,
  );
})

-- The centred range before the corrections. `w` is the width, which saturates below 2 ^ 31.
module _ (cur : ℤ) (w s : ℕ) (tick : IsTick cur) (sp : IsSpacing s) (fits : w < i32_half) where
  start : ℤ
  start = sat_sub cur (pos (w / 2))

  start_exact : start ≡ cur -ℤ pos (w / 2)
  unfolding start
  start_exact =
      let exact = cur -ℤ pos (w / 2) in
      saturate_of_Fits i32_half exact (omega (arith, -ℤ_parts cur (pos (w / 2)), parts_apart exact))

  lower-IsAligned : IsAligned s (cur -ℤ pos (w / 2)) (centred cur w s).0
  unfolding centred start
  lower-IsAligned =
      let exact = cur -ℤ pos (w / 2) in
      rw start_exact (
        align-IsAligned exact s sp (omega (arith, -ℤ_parts cur (pos (w / 2)), parts_apart exact))
          (omega (arith, -ℤ_parts cur (pos (w / 2)), parts_apart exact)))

  upper_exact : (centred cur w s).1 ≡ (centred cur w s).0 +ℤ pos w
  unfolding centred
  upper_exact =
      let lower = (centred cur w s).0 in
      let exact = lower +ℤ pos w in
      saturate_of_Fits i32_half exact (
        omega (
          arith,
          lower-IsAligned,
          -ℤ_parts cur (pos (w / 2)),
          +ℤ_parts lower (pos w),
          parts_apart exact,
          parts_apart lower,
          +ℤ_parts lower (pos s),
        ))

  -- The corrections: the lower one never fires, and the upper one moves the bound past the tick.
  corrected_lower : (corrected cur s (centred cur w s)).0 ≡ (centred cur w s).0
  unfolding corrected
  corrected_lower =
      let lower = (centred cur w s).0 in
      elim (Bool-cases (ltb_ℤ cur lower)) [
        | inl t ↦
            absurd
              (omega (arith, ltb_ℤ→lt cur lower t, lower-IsAligned, -ℤ_parts cur (pos (w / 2))))
        | inr e ↦ rw e
      ]

  corrected_upper : cur <ℤ (corrected cur s (centred cur w s)).1
  unfolding corrected
  corrected_upper =
      let upper = (centred cur w s).1 in
      let al = align s cur in
      let next = al +ℤ pos s in
      let aligned = align-IsAligned cur s sp (omega arith) (omega arith) in
      elim (Bool-cases (leb_ℤ upper cur)) [
        | inl t ↦
            rw
              (
                t,
                saturate_of_Fits i32_half next
                    (omega (arith, aligned, +ℤ_parts al (pos s), parts_apart next, parts_apart al)),
              )
              aligned.near
        | inr e ↦ rw e (omega (arith, leb_ℤ_false→lt upper cur e))
      ]

  corrected_wide : 2 * s ≤ w → (corrected cur s (centred cur w s)).1 ≡ (centred cur w s).0 +ℤ pos w
  unfolding corrected
  corrected_wide h =
      let lower = (centred cur w s).0 in
      elim (Bool-cases (leb_ℤ (centred cur w s).1 cur)) [
        | inl t ↦ absurd (
            omega (
              arith,
              leb_ℤ→le (lower +ℤ pos w) cur (rw upper_exact at t),
              lower-IsAligned,
              +ℤ_parts lower (pos w),
              +ℤ_parts lower (pos s),
              -ℤ_parts cur (pos (w / 2)),
            ))
        | inr e ↦ rw e upper_exact
      ]

width_of_fits : (lower upper : ℤ) (s : ℕ) → IsSpacing s → width_of lower upper s < i32_half
width_of_fits lower upper s h =
    grind (arith, saturate-Fits i32_half (upper -ℤ lower) (let p : 0 < i32_half = omega arith in p))

-- Whatever the old bounds, for a tick of a pool and a spacing that is an `u16` other than 0, the new
-- range of `build_rebalance_plan` holds the current tick, strictly below its upper bound, and its lower
-- bound is a multiple of the spacing.
pub plan_holds_current :
    (mint : String) (cur lower upper : ℤ) (s : ℕ)
    → IsTick cur
    → IsSpacing s
    → let plan = build_rebalance_plan mint cur lower upper (pos s) in
      (plan.new_tick_lower ≤ℤ cur)
      × (cur <ℤ plan.new_tick_upper)
      × (rem_euclid plan.new_tick_lower s ≡ 0)
unfolding build_rebalance_plan
plan_holds_current mint cur lower upper s tick sp = rw (spacing_id s sp) (
    let w = width_of lower upper s in
    let fits = width_of_fits lower upper s sp in
    let aligned = lower-IsAligned cur w s tick sp fits in
    rw (corrected_lower cur w s tick sp fits) (
      omega (arith, aligned, -ℤ_parts cur (pos (w / 2))),
      corrected_upper cur w s tick sp fits,
      aligned.multiple,
    ))

-- An old range of at least two spacings keeps its width: the new bounds are as far apart as the old
-- ones.
plan_keeps_width :
    (mint : String) (cur lower upper : ℤ) (s w : ℕ)
    → IsTick cur
    → IsSpacing s
    → upper -ℤ lower ≡ pos w
    → 2 * s ≤ w
    → w < i32_half
    → let plan = build_rebalance_plan mint cur lower upper (pos s) in
      plan.new_tick_upper ≡ plan.new_tick_lower +ℤ pos w
unfolding build_rebalance_plan
plan_keeps_width mint cur lower upper s w tick sp width wide fits =
    rw (spacing_id s sp) (
      rw same
        (rw (corrected_lower cur w s tick sp fits) (corrected_wide cur w s tick sp fits wide)))
  where
    same : width_of lower upper s ≡ w
    same = rw (width, saturate_of_Fits i32_half (pos w) (omega arith)) (ground arith)
