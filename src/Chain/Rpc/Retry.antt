-- ===== src/Chain/Rpc/Retry.antt =====
-- What the retry loop returns, and how long it sleeps.
use tick_liq.Chain.Rpc.{after_attempt, retry_from, retry}
use tick_liq.Prelude.{zero, inr, inl, arith, suc, ◌⊎◌, [], ◌∷◌, take, ◌<◌, ◌≡◌, ℕ, refl}
use tick_liq.Prelude.Result.{Result, ok, err, Result-cases}

module _ {ℓ κ} {E : Type ℓ} {A : Type κ} where
  -- The call of attempt `k` succeeds with `v`, and the calls before it fail.
  pub record IsFirstSuccess (f : ℕ → Result E A) (k : ℕ) (v : A) : Type (ℓ ⊔ κ) where
    pub success : f k ≡ ok v
    pub failures : (i : ℕ) → i < k → (e : E) × (f i ≡ err e)

  -- The retry loop makes at most three attempts: it returns the first of them that succeeds, after the
  -- delays of the failed ones, 250 ms and 500 ms, or the error of the third when all three fail, and it
  -- makes no call after a success. It never sleeps longer than 500 ms at once.
  pub retry_cases :
      (f : ℕ → Result E A) (no_attempts : E)
      → ((k : ℕ) × (v : A) × (k < 3)
          × IsFirstSuccess f k v
          × (retry no_attempts f ≡ (ok v, take k (250 ∷ 500 ∷ []))))
        ⊎ ((e : E) × ((i : ℕ) → i < 3 → (d : E) × (f i ≡ err d))
            × (f 2 ≡ err e)
            × (retry no_attempts f ≡ (err e, 250 ∷ 500 ∷ [])))
  unfolding retry retry_from after_attempt
  retry_cases f no_attempts = elim (Result-cases (f 0)) [
    | inl (v, e0) ↦ inl (
      0,
      v,
      omega arith,
      record { success = e0; failures = λ i h. absurd (omega arith) },
      rw e0 refl,
    )
    | inr (d0, e0) ↦ elim (Result-cases (f 1)) [
      | inl (v, e1) ↦ inl (
        1,
        v,
        omega arith,
        record { success = e1; failures = first_only d0 e0 },
        rw (e0, e1) refl,
      )
      | inr (d1, e1) ↦ elim (Result-cases (f 2)) [
        | inl (v, e2) ↦ inl (
          2,
          v,
          omega arith,
          record { success = e2; failures = first_two d0 e0 d1 e1 },
          rw (e0, e1, e2) refl,
        )
        | inr (d2, e2) ↦ inr (d2, all_three d0 e0 d1 e1 d2 e2, e2, rw (e0, e1, e2) refl)
      ]
    ]
  ]
    where
      first_only : (d0 : E) → f 0 ≡ err d0 → (i : ℕ) → i < 1 → (e : E) × (f i ≡ err e)
      first_only d0 e0 zero h = (d0, e0)
      first_only d0 e0 (suc i) h = absurd (omega arith)

      first_two :
          (d0 : E)
          → f 0 ≡ err d0
          → (d1 : E) → f 1 ≡ err d1
          → (i : ℕ) → i < 2
          → (e : E) × (f i ≡ err e)
      first_two d0 e0 d1 e1 zero h = (d0, e0)
      first_two d0 e0 d1 e1 (suc zero) h = (d1, e1)
      first_two d0 e0 d1 e1 (suc (suc i)) h = absurd (omega arith)

      all_three :
          (d0 : E)
          → f 0 ≡ err d0
          → (d1 : E) → f 1 ≡ err d1
          → (d2 : E) → f 2 ≡ err d2
          → (i : ℕ) → i < 3
          → (e : E) × (f i ≡ err e)
      all_three d0 e0 d1 e1 d2 e2 zero h = (d0, e0)
      all_three d0 e0 d1 e1 d2 e2 (suc zero) h = (d1, e1)
      all_three d0 e0 d1 e1 d2 e2 (suc (suc zero)) h = (d2, e2)
      all_three d0 e0 d1 e1 d2 e2 (suc (suc (suc i))) h = absurd (omega arith)
