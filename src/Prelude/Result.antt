-- ===== src/Prelude/Result.antt =====
-- The result of fallible code: a value or an error.
use mathlib.Core.Path.{◌≡◌, refl}
use mathlib.Core.Logic.{◌≢◌, ◌⊎◌, inl, inr}

module _ {ℓ κ} where
  pub data Result (E : Type ℓ) (A : Type κ) : Type (ℓ ⊔ κ) where
    ok : A → Result E A
    err : E → Result E A

  pub Result-cases :
      {E : Type ℓ} {A : Type κ} (r : Result E A) → ((a : A) × (r ≡ ok a)) ⊎ ((e : E) × (r ≡ err e))
  Result-cases (ok a) = inl (a, refl)
  Result-cases (err e) = inr (e, refl)

  pub ok_same : {E : Type ℓ} {A : Type κ} {a b : A} → ◌≡◌ {A = Result E A} (ok a) (ok b) → a ≡ b
  ok_same h = cc

  pub err_ne_ok : {E : Type ℓ} {A : Type κ} {e : E} {a : A} → ◌≢◌ {A = Result E A} (err e) (ok a)
  err_ne_ok h = cc

-- The `?` of the code.
abbrev pub and_then {ℓ κ μ} :
    {E : Type ℓ} {A : Type κ} {B : Type μ} → Result E A → (A → Result E B) → Result E B
and_then (ok a) next = next a
and_then (err e) next = err e
