-- ===== src/Math/Metrics/Drawdown.antt =====
-- The largest drawdown of an equity curve, and the sizes of the curve and its returns.
use tick_liq.Prelude.Float.{◌⊘◌, ◌⊖◌, lit, ◌≺◌, ◌≼◌, Float, IsOrdered}
use tick_liq.Math.Metrics.{max_drawdown, drawdown_from, dd_step, neg_infinity}
use tick_liq.Prelude.{
  later, ◌∙◌, sym, Bool-cases, refl, inr, inl, ◌⊎◌, [], if◌then◌else◌, false, arith, Member, ◌∷◌,
  All, ◌≡◌, Bool, true, List,
}
use tick_liq.Prelude.{first}

true_ne_false : ¬ (true ≡ false)
true_ne_false h = cc

module _ {ℓ} {F : Type ℓ} ⦃f : Float F⦄ where
  -- A highest point of a stretch of the curve, which is positive.
  pub record IsPeak (stretch : List F) (peak : F) : Type ℓ where
    pub member : Member peak stretch
    pub highest : All (λ x. (peak ≺ x) ≡ false) stretch
    pub positive : (lit 0 ≺ peak) ≡ true

  -- No point of the stretch is positive.
  abbrev pub IsSunk : List F → Type 0
  IsSunk stretch = All (λ x. (lit 0 ≺ x) ≡ false) stretch

  -- No point of the curve falls further than `dd` below the peak of the curve up to that point, as a
  -- fraction of the peak; `seen` are the points before, the latest first.
  abbrev pub IsBounded : F → List F → List F → Type ℓ
  IsBounded dd seen [] = Unit
  IsBounded dd seen (v ∷ vs) =
      (IsSunk (v ∷ seen)
        ⊎ ((peak : F) × IsPeak (v ∷ seen) peak × (((v ⊖ peak) ⊘ peak ≺ dd) ≡ false)))
      × IsBounded dd (v ∷ seen) vs

  -- Some point of the curve falls by `dd` below the peak of the curve up to that point.
  pub data IsAttained (dd : F) : List F → List F → Type ℓ where
    falls :
        (seen : List F) (v : F) (vs : List F) (peak : F)
        → IsPeak (v ∷ seen) peak
        → dd ≡ (v ⊖ peak) ⊘ peak
        → IsAttained dd seen (v ∷ vs)
    falls_later :
        (seen : List F) (v : F) (vs : List F)
        → IsAttained dd (v ∷ seen) vs
        → IsAttained dd seen (v ∷ vs)

module _ {ℓ} {F : Type ℓ} ⦃f : Float F⦄ (laws : IsOrdered F) where
  -- The running peak of the points seen.
  record IsRunning (seen : List F) (peak : F) : Type ℓ where
    number : (peak ≼ peak) ≡ true
    highest : All (λ x. (peak ≺ x) ≡ false) seen
    member : Member peak seen ⊎ ((lit 0 ≺ peak) ≡ false)

  lt-number : (x y : F) → (x ≺ y) ≡ true → ((x ≼ x) ≡ true) × ((y ≼ y) ≡ true)
  lt-number x y h = laws.number_of_le x y (laws.le_of_lt x y h)

  lt_irrefl : (x : F) → (x ≼ x) ≡ true → (x ≺ x) ≡ false
  lt_irrefl x n = rw (laws.lt-eq-not-le x x n n, n) refl

  le_of_not_lt : (x y : F) → (x ≼ x) ≡ true → (y ≼ y) ≡ true → (x ≺ y) ≡ false → (y ≼ x) ≡ true
  le_of_not_lt x y nx ny h = ground (arith, laws.lt-eq-not-le x y nx ny)

  lt_of_le_lt : (x y z : F) → (x ≼ y) ≡ true → (y ≺ z) ≡ true → (x ≺ z) ≡ true
  lt_of_le_lt x y z h k =
      let nx = (laws.number_of_le x y h).0 in
      let (ny, nz) = lt-number y z k in
      ground (arith, laws.lt-eq-not-le x z nx nz, laws.lt-eq-not-le y z ny nz, laws.le_trans z x y)

  lt_of_lt_le : (x y z : F) → (x ≺ y) ≡ true → (y ≼ z) ≡ true → (x ≺ z) ≡ true
  lt_of_lt_le x y z h k =
      let (nx, ny) = lt-number x y h in
      let nz = (laws.number_of_le y z k).1 in
      ground (arith, laws.lt-eq-not-le x z nx nz, laws.lt-eq-not-le x y nx ny, laws.le_trans y z x)

  not_lt : (x y : F) → ((x ≺ y) ≡ true → ⊥) → (x ≺ y) ≡ false
  not_lt x y h = elim (Bool-cases (x ≺ y)) [ inl e ↦ absurd (h e) | inr e ↦ e ]

  All-map : (P Q : F → Type 0) (xs : List F) → ((x : F) → P x → Q x) → All P xs → All Q xs
  All-map P Q [] g h = tt
  All-map P Q (x ∷ xs) g h = (g x h.0, All-map P Q xs g h.1)

  raised :
      (b : Bool) (seen : List F) (peak v : F)
      → (peak ≺ v) ≡ b
      → IsRunning seen peak
      → IsRunning (v ∷ seen) (if b then v else peak)
  raised true seen peak v e r =
      let nv = (lt-number peak v e).1 in
      record {
        number = nv;
        highest = (
          lt_irrefl v nv,
          All-map _ _ seen
              (λ x h.
                not_lt v x
                  (λ k. true_ne_false (sym (lt_of_le_lt peak v x (laws.le_of_lt peak v e) k) ∙ h)))
              r.highest,
        );
        member = inl first;
      }
  raised false seen peak v e r = record {
    number = r.number;
    highest = (e, r.highest);
    member = elim r.member [ inl m ↦ inl (later m) | inr n ↦ inr n ];
  }

  sunk : (seen : List F) (peak : F) → IsRunning seen peak → (lit 0 ≺ peak) ≡ false → IsSunk seen
  sunk seen peak r e =
      All-map _ _ seen
        (λ x h. not_lt (lit 0) x (λ k. true_ne_false (
          sym (
            lt_of_le_lt peak (lit 0) x (le_of_not_lt (lit 0) peak (laws.lit_number 0) r.number e) k)
          ∙ h)))
        r.highest

  highest_seen :
      (seen : List F) (peak : F) → IsRunning seen peak → (lit 0 ≺ peak) ≡ true → IsPeak seen peak
  highest_seen seen peak r e = record {
    member = elim r.member [ inl m ↦ m | inr n ↦ absurd (true_ne_false (sym e ∙ n)) ];
    highest = r.highest;
    positive = e;
  }

  -- One step: the drawdown is a number that is not above the one before, it bounds the fall of this
  -- point, and it is the one before or that fall.
  record IsStep (seen : List F) (dd v dd' : F) : Type ℓ where
    below : (dd' ≼ dd) ≡ true
    bounded :
        IsSunk (v ∷ seen)
        ⊎ ((peak : F) × IsPeak (v ∷ seen) peak × (((v ⊖ peak) ⊘ peak ≺ dd') ≡ false))
    origin : (dd' ≡ dd) ⊎ ((peak : F) × IsPeak (v ∷ seen) peak × (dd' ≡ (v ⊖ peak) ⊘ peak))

  dd_step-IsStep :
      (seen : List F) (peak dd v : F)
      → (dd ≼ dd) ≡ true
      → IsRunning (v ∷ seen) peak
      → IsStep seen dd v (dd_step peak dd v)
  unfolding dd_step
  dd_step-IsStep seen peak dd v n r = elim (Bool-cases (lit 0 ≺ peak)) [
    | inr e ↦ rw e record { below = n; bounded = inl (sunk (v ∷ seen) peak r e); origin = inl refl }
    | inl e ↦
        let top = highest_seen (v ∷ seen) peak r e in
        elim (Bool-cases ((v ⊖ peak) ⊘ peak ≺ dd)) [
          | inr k ↦ rw (e, k) record { below = n; bounded = inr (peak, top, k); origin = inl refl }
          | inl k ↦
              rw (e, k)
                record {
                  below = laws.le_of_lt _ dd k;
                  bounded = inr (peak, top, lt_irrefl _ (lt-number _ dd k).0);
                  origin = inr (peak, top, refl);
                }
        ]
  ]

  -- What the loop returns over the rest of the curve.
  record IsLoop (seen : List F) (dd : F) (vs : List F) (out : F) : Type ℓ where
    below : (out ≼ dd) ≡ true
    bounded : IsBounded out seen vs
    origin : (out ≡ dd) ⊎ IsAttained out seen vs

  head-bounded :
      (seen : List F) (v dd' out : F)
      → (out ≼ dd') ≡ true
      → IsSunk (v ∷ seen)
        ⊎ ((peak : F) × IsPeak (v ∷ seen) peak × (((v ⊖ peak) ⊘ peak ≺ dd') ≡ false))
      → IsSunk (v ∷ seen)
        ⊎ ((peak : F) × IsPeak (v ∷ seen) peak × (((v ⊖ peak) ⊘ peak ≺ out) ≡ false))
  head-bounded seen v dd' out le (inl s) = inl s
  head-bounded seen v dd' out le (inr (peak, top, k)) =
      inr (peak, top, not_lt _ out (λ l. true_ne_false (sym (lt_of_lt_le _ out dd' l le) ∙ k)))

  drawdown_from-IsLoop :
      (seen : List F) (peak dd : F) (vs : List F)
      → (dd ≼ dd) ≡ true
      → IsRunning seen peak
      → IsLoop seen dd vs (drawdown_from peak dd vs)
  unfolding drawdown_from
  drawdown_from-IsLoop seen peak dd [] n r = record { below = n; bounded = tt; origin = inl refl }
  drawdown_from-IsLoop seen peak dd (v ∷ vs) n r =
      let peak' = if peak ≺ v then v else peak in
      let r' : IsRunning (v ∷ seen) peak' = raised (peak ≺ v) seen peak v refl r in
      let one = dd_step-IsStep seen peak' dd v n r' in
      let dd' = dd_step peak' dd v in
      let n' = (laws.number_of_le dd' dd one.below).0 in
      let rest = drawdown_from-IsLoop (v ∷ seen) peak' dd' vs n' r' in
      let out = drawdown_from peak' dd' vs in
      record {
        below = laws.le_trans out dd' dd rest.below one.below;
        bounded = (head-bounded seen v dd' out rest.below one.bounded, rest.bounded);
        origin = elim rest.origin [
          | inr a ↦ inr (falls_later seen v vs a)
          | inl e ↦ elim one.origin [
            | inl k ↦ inl (e ∙ k)
            | inr (p, top, k) ↦ inr (falls seen v vs p top (e ∙ k))
          ]
        ];
      }

  -- The largest drawdown is the largest: no point of the curve falls further below the peak of the curve
  -- up to that point, as a fraction of a peak that is positive, than it; and it is 0, or the fall of some
  -- point below that peak. It is a number that is at most 0, NaN among the points included. As in
  -- IEEE 754, minus infinity is at most 0.
  pub max_drawdown-IsLargest :
      f.le neg_infinity (lit 0) ≡ true
      → (equity : List F)
      → ((max_drawdown equity ≼ lit 0) ≡ true)
        × IsBounded (max_drawdown equity) [] equity
        × ((max_drawdown equity ≡ lit 0) ⊎ IsAttained (max_drawdown equity) [] equity)
  unfolding max_drawdown
  max_drawdown-IsLargest below equity =
      let zero = lit 0 in
      let least = neg_infinity in
      let number = (laws.number_of_le least zero below).0 in
      let not_positive = not_lt zero least (λ k.
        true_ne_false
          (sym (lt_of_lt_le zero least zero k below) ∙ lt_irrefl zero (laws.lit_number 0))) in
      let loop =
        drawdown_from-IsLoop [] least zero equity (laws.lit_number 0)
          (record { number = number; highest = tt; member = inr not_positive }) in
      (loop.below, loop.bounded, loop.origin)
