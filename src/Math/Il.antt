-- ===== src/Math/Il.antt =====
-- `compute_il` of `src/math/il.rs`: the impermanent loss of a range, as a fraction.
use tick_liq.Prelude.{
  ◌∙◌, sym, arith, ◌>>=◌, refl, inr, inl, Bool, ◌≡◌, true, false, ◌||◌, not, if◌then◌else◌, Option,
  some, Bool-cases,
}
use tick_liq.Prelude.Float.{Float, ◌⊕◌, ◌⊖◌, ◌⊗◌, ◌⊘◌, ◌≼◌, lit, IsOrdered}
use tick_liq.Prelude.Libm.{fmin-le, Libm, is_nan, fmin, clamp}

guard_false :
    (a x y b : Bool) → (a || not x || not y || b) ≡ false → (x ≡ true) × (y ≡ true) × (b ≡ false)
guard_false a x y b h = ground arith

true_ne_false : ¬ (true ≡ false)
true_ne_false h = cc

module _ {ℓ} {F : Type ℓ} ⦃f : Float F⦄ ⦃m : Libm F⦄ where
  -- From the clamped roots on: the portfolio against the entry composition, at the current price.
  il_of : F → F → F → F → F → F
  il_of price_current pa pb sp0 sp1 =
      let x0 = lit 1 ⊘ sp0 ⊖ lit 1 ⊘ pb in
      let y0 = sp0 ⊖ pa in
      let x1 = lit 1 ⊘ sp1 ⊖ lit 1 ⊘ pb in
      let y1 = sp1 ⊖ pa in
      let v_hodl = x0 ⊗ price_current ⊕ y0 in
      let v_lp = x1 ⊗ price_current ⊕ y1 in
      if v_hodl ≼ lit 0 then lit 0 else fmin (v_lp ⊘ v_hodl ⊖ lit 1) (lit 0)

  -- `none` is the panic of `clamp`.
  il_in : F → F → F → F → Option F
  unfolding il_of
  il_in price_entry price_current pa pb = do
    sp0 ← clamp pa pb (m.sqrt price_entry)
    sp1 ← clamp pa pb (m.sqrt price_current)
    some (il_of price_current pa pb sp0 sp1)

  is_degenerate : F → F → Bool
  is_degenerate pa pb = (pa ≼ lit 0) || is_nan pa || is_nan pb || (pb ≼ pa)

  unfoldable pub compute_il : F → F → F → F → Option F
  unfolding il_in is_degenerate
  compute_il price_entry price_current price_lower price_upper =
      if f.eq price_entry (lit 0)
      then some (lit 0)
      else (let pa = m.sqrt price_lower in
          let pb = m.sqrt price_upper in
          if is_degenerate pa pb then some (lit 0) else il_in price_entry price_current pa pb)

  min_zero-IsLoss :
      IsOrdered F → (c : Bool) (x : F) → ((if c then lit 0 else fmin x (lit 0)) ≼ lit 0) ≡ true
  min_zero-IsLoss laws true x = laws.lit_number 0
  min_zero-IsLoss laws false x = fmin-le laws x (lit 0) (laws.lit_number 0)

  -- Bounds that are in order are what `clamp` asks for.
  in_order : IsOrdered F → (pa pb : F) → is_degenerate pa pb ≡ false → (pa ≼ pb) ≡ true
  unfolding is_degenerate
  in_order laws pa pb h =
      let g = guard_false _ _ _ _ h in
      elim (laws.le_total pa pb g.0 g.1) [
        | inl le ↦ le
        | inr ge ↦ absurd (true_ne_false (sym ge ∙ g.2))
      ]

  abbrev IsLoss : Option F → Type ℓ
  IsLoss o = (v : F) × (o ≡ some v) × ((v ≼ lit 0) ≡ true)

  il_in-IsLoss : IsOrdered F → (e c pa pb : F) → (pa ≼ pb) ≡ true → IsLoss (il_in e c pa pb)
  unfolding il_in il_of
  il_in-IsLoss laws e c pa pb h = rw h (_, refl, min_zero-IsLoss laws _ _)

  -- `compute_il` never panics: it returns a value for every four inputs, NaN and degenerate ranges
  -- included, and that value is a number which is at most 0.
  pub compute_il-IsLoss :
      IsOrdered F
      → (price_entry price_current price_lower price_upper : F)
      → (v : F) × (compute_il price_entry price_current price_lower price_upper ≡ some v)
        × ((v ≼ lit 0) ≡ true)
  unfolding compute_il
  compute_il-IsLoss laws e c l u = elim (Bool-cases (f.eq e (lit 0))) [
    | inl z ↦ rw z (_, refl, laws.lit_number 0)
    | inr nz ↦ elim (Bool-cases (is_degenerate (m.sqrt l) (m.sqrt u))) [
      | inl d ↦ rw (nz, d) (_, refl, laws.lit_number 0)
      | inr ok ↦ rw (nz, ok) (il_in-IsLoss laws e c _ _ (in_order laws _ _ ok))
    ]
  ]
