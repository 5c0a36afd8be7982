-- ===== src/Depth/Distribution/Sums.antt =====
-- The sums of the walk, over the integers: they may be split, and the sums on `i128` wrap them.
use tick_liq.Depth.Distribution.{Ticks, is_between, delta_from, delta}
use tick_liq.Prelude.{
  refl, true, false, inr, inl, [], if◌then◌else◌, Bool-cases, ◌∷◌, ◌∙◌, arith, sym, ap, ◌≡◌,
}
use tick_liq.Prelude.Int.{leb_ℤ, ltb_ℤ, +ℤ_parts, eq_of_parts, ℤ, pos, ◌+ℤ◌, ◌≤ℤ◌}
use tick_liq.Prelude.Word.{wrap_of_Fits, wrap, wrap-add, i128_half}

-- The exact sum of the deltas of the ticks above `lo` and up to `hi`.
pub sum : ℤ → ℤ → Ticks → ℤ
sum lo hi [] = pos 0
sum lo hi ((t, d) ∷ ticks) =
    let rest = sum lo hi ticks in if is_between lo hi t then d +ℤ rest else rest

zero_right : (a : ℤ) → a +ℤ pos 0 ≡ a
zero_right a = eq_of_parts (a +ℤ pos 0) a (omega (arith, +ℤ_parts a (pos 0)))

pub add_assoc_ℤ : (a b c : ℤ) → (a +ℤ b) +ℤ c ≡ a +ℤ (b +ℤ c)
add_assoc_ℤ a b c =
    eq_of_parts ((a +ℤ b) +ℤ c) (a +ℤ (b +ℤ c))
      (omega (arith, +ℤ_parts (a +ℤ b) c, +ℤ_parts a b, +ℤ_parts a (b +ℤ c), +ℤ_parts b c))

pub add_comm_ℤ : (a b : ℤ) → a +ℤ b ≡ b +ℤ a
add_comm_ℤ a b = eq_of_parts (a +ℤ b) (b +ℤ a) (omega (arith, +ℤ_parts a b, +ℤ_parts b a))

delta_from-wrap :
    (lo hi a : ℤ) (ticks : Ticks)
    → delta_from lo hi (wrap i128_half a) ticks ≡ wrap i128_half (a +ℤ sum lo hi ticks)
unfolding delta_from sum
delta_from-wrap lo hi a [] = ap (wrap i128_half) (sym (zero_right a))
delta_from-wrap lo hi a ((t, d) ∷ ticks) = elim (Bool-cases (is_between lo hi t)) [
  | inl e ↦
      rw (e, wrap-add a d)
        (delta_from-wrap lo hi (a +ℤ d) ticks
          ∙ ap (wrap i128_half) (add_assoc_ℤ a d (sum lo hi ticks)))
  | inr e ↦ rw e (delta_from-wrap lo hi a ticks)
]

pub delta-wrap : (lo hi : ℤ) (ticks : Ticks) → delta lo hi ticks ≡ wrap i128_half (sum lo hi ticks)
unfolding delta
delta-wrap lo hi ticks =
    ap (λ z. delta_from lo hi z ticks)
      (sym (wrap_of_Fits i128_half (pos 0) (omega arith, omega arith)))
    ∙ delta_from-wrap lo hi (pos 0) ticks
    ∙ ap (wrap i128_half) (add_comm_ℤ (pos 0) (sum lo hi ticks) ∙ zero_right (sum lo hi ticks))

-- A sum may be split at a tick between its bounds.
pub sum_split :
    (lo mid hi : ℤ) (ticks : Ticks)
    → lo ≤ℤ mid
    → mid ≤ℤ hi
    → sum lo hi ticks ≡ sum lo mid ticks +ℤ sum mid hi ticks
unfolding sum
sum_split lo mid hi [] h k = sym (zero_right (pos 0))
sum_split lo mid hi ((t, d) ∷ ticks) h k =
    let ih = sum_split lo mid hi ticks h k in
    elim (Bool-cases (ltb_ℤ lo t)) [
      | inr below ↦ rw (below, let e : ltb_ℤ mid t ≡ false = ground (arith, below) in e) ih
      | inl above ↦ elim (Bool-cases (leb_ℤ t mid)) [
        | inl left ↦
            rw
              (
                above,
                left,
                let e : leb_ℤ t hi ≡ true = ground (arith, left) in e,
                let e : ltb_ℤ mid t ≡ false = ground (arith, left) in e,
              )
              (ap (λ z. d +ℤ z) ih ∙ sym (add_assoc_ℤ d (sum lo mid ticks) (sum mid hi ticks)))
        | inr right ↦ elim (Bool-cases (leb_ℤ t hi)) [
          | inl inside ↦
              rw (above, right, inside, let e : ltb_ℤ mid t ≡ true = ground (arith, right) in e)
                (ap (λ z. d +ℤ z) ih ∙ swap)
          | inr outside ↦
              rw (above, right, outside, let e : ltb_ℤ mid t ≡ true = ground (arith, right) in e) ih
        ]
      ]
    ]
  where
    swap : d +ℤ (sum lo mid ticks +ℤ sum mid hi ticks) ≡ sum lo mid ticks +ℤ (d +ℤ sum mid hi ticks)
    swap =
        sym (add_assoc_ℤ d (sum lo mid ticks) (sum mid hi ticks))
        ∙ ap (λ z. z +ℤ sum mid hi ticks) (add_comm_ℤ d (sum lo mid ticks))
        ∙ add_assoc_ℤ (sum lo mid ticks) d (sum mid hi ticks)

pub sum_empty : (lo hi : ℤ) (ticks : Ticks) → hi ≤ℤ lo → sum lo hi ticks ≡ pos 0
unfolding sum
sum_empty lo hi [] h = refl
sum_empty lo hi ((t, d) ∷ ticks) h =
    rw (let e : is_between lo hi t ≡ false = ground arith in e) (sum_empty lo hi ticks h)
