-- ===== src/Prelude/Sort.antt =====
-- `retain`, the stable `sort_by_key` and `dedup_by_key` of vectors, by integer keys.
use mathlib.Core.Path.{subst, ◌≡◌, refl, sym}
use mathlib.Core.List.{List, [], ◌∷◌}
use mathlib.Core.Logic.{◌⊎◌, inl, inr}
use mathlib.Core.Bool.{Bool, true, false, ◌&&◌}
use native.Mathlib.Omega.{arith}
use tick_liq.Prelude.Tests.{if◌then◌else◌, Bool-cases}
use tick_liq.Prelude.Lists.{Member, first, later, Member-cases, Member-nil}
use tick_liq.Prelude.Int.{ℤ, ◌≤ℤ◌, ◌<ℤ◌, leb_ℤ, leb_ℤ→le, leb_ℤ_false→lt}
use tick_liq.Prelude.{◌++◌, All}

apart : (a k : ℤ) → leb_ℤ a k && leb_ℤ k a ≡ false → k ≤ℤ a → k <ℤ a
apart a k h le = ground arith

same_or_apart : (a k : ℤ) → leb_ℤ a k && leb_ℤ k a ≡ true → a ≡ k
same_or_apart a k h = ground arith

module _ {ℓ} {A : Type ℓ} where
  unfoldable pub retain : (A → Bool) → List A → List A
  retain keep [] = []
  retain keep (x ∷ xs) = let rest = retain keep xs in if keep x then x ∷ rest else rest

  unfoldable insert_by : (A → ℤ) → A → List A → List A
  insert_by key x [] = x ∷ []
  insert_by key x (y ∷ ys) =
      let rest = insert_by key x ys in if leb_ℤ (key x) (key y) then x ∷ y ∷ ys else y ∷ rest

  unfoldable pub sort_by_key : (A → ℤ) → List A → List A
  unfolding insert_by
  sort_by_key key [] = []
  sort_by_key key (x ∷ xs) = insert_by key x (sort_by_key key xs)

  dedup_after : (A → ℤ) → ℤ → List A → List A
  dedup_after key k [] = []
  dedup_after key k (x ∷ xs) =
      let rest = dedup_after key (key x) xs in
      if leb_ℤ (key x) k && leb_ℤ k (key x) then rest else x ∷ rest

  -- Of a run of equal keys the first stays.
  unfoldable pub dedup_by_key : (A → ℤ) → List A → List A
  unfolding dedup_after
  dedup_by_key key [] = []
  dedup_by_key key (x ∷ xs) = x ∷ dedup_after key (key x) xs

  abbrev pub IsSortedFrom : (A → ℤ) → ℤ → List A → Type 0
  IsSortedFrom key k [] = Unit
  IsSortedFrom key k (x ∷ xs) = (k ≤ℤ key x) × IsSortedFrom key (key x) xs

  abbrev pub IsAscendingFrom : (A → ℤ) → ℤ → List A → Type 0
  IsAscendingFrom key k [] = Unit
  IsAscendingFrom key k (x ∷ xs) = (k <ℤ key x) × IsAscendingFrom key (key x) xs

  abbrev pub IsSorted : (A → ℤ) → List A → Type 0
  IsSorted key [] = Unit
  IsSorted key (x ∷ xs) = IsSortedFrom key (key x) xs

  -- Strictly ascending keys.
  abbrev pub IsAscending : (A → ℤ) → List A → Type 0
  IsAscending key [] = Unit
  IsAscending key (x ∷ xs) = IsAscendingFrom key (key x) xs

  insert_by-IsSortedFrom :
      (key : A → ℤ) (k : ℤ) (x : A) (xs : List A)
      → k ≤ℤ key x
      → IsSortedFrom key k xs
      → IsSortedFrom key k (insert_by key x xs)
  unfolding insert_by
  insert_by-IsSortedFrom key k x [] h s = (h, tt)
  insert_by-IsSortedFrom key k x (y ∷ ys) h s = elim (Bool-cases (leb_ℤ (key x) (key y))) [
    | inl e ↦ rw e (h, (leb_ℤ→le (key x) (key y) e, s.1))
    | inr e ↦ rw e (
      s.0,
      insert_by-IsSortedFrom key (key y) x ys (omega (arith, leb_ℤ_false→lt (key x) (key y) e)) s.1,
    )
  ]

  insert_by-IsSorted :
      (key : A → ℤ) (x : A) (xs : List A) → IsSorted key xs → IsSorted key (insert_by key x xs)
  unfolding insert_by
  insert_by-IsSorted key x [] s = tt
  insert_by-IsSorted key x (y ∷ ys) s = elim (Bool-cases (leb_ℤ (key x) (key y))) [
    | inl e ↦ rw e (leb_ℤ→le (key x) (key y) e, s)
    | inr e ↦ rw e (
        insert_by-IsSortedFrom key (key y) x ys (omega (arith, leb_ℤ_false→lt (key x) (key y) e)) s)
  ]

  pub sort_by_key-IsSorted : (key : A → ℤ) (xs : List A) → IsSorted key (sort_by_key key xs)
  unfolding sort_by_key
  sort_by_key-IsSorted key [] = tt
  sort_by_key-IsSorted key (x ∷ xs) =
      insert_by-IsSorted key x (sort_by_key key xs) (sort_by_key-IsSorted key xs)

  dedup_after-IsAscending :
      (key : A → ℤ) (k : ℤ) (xs : List A)
      → IsSortedFrom key k xs
      → IsAscendingFrom key k (dedup_after key k xs)
  unfolding dedup_after
  dedup_after-IsAscending key k [] s = tt
  dedup_after-IsAscending key k (x ∷ xs) s =
      elim (Bool-cases (leb_ℤ (key x) k && leb_ℤ k (key x))) [
        | inl e ↦ rw e (
            subst (λ j. IsAscendingFrom key j (dedup_after key (key x) xs))
              (same_or_apart (key x) k e) (dedup_after-IsAscending key (key x) xs s.1))
        | inr e ↦ rw e (apart (key x) k e s.0, dedup_after-IsAscending key (key x) xs s.1)
      ]

  pub dedup_by_key-IsAscending :
      (key : A → ℤ) (xs : List A) → IsSorted key xs → IsAscending key (dedup_by_key key xs)
  unfolding dedup_by_key
  dedup_by_key-IsAscending key [] s = tt
  dedup_by_key-IsAscending key (x ∷ xs) s = dedup_after-IsAscending key (key x) xs s

  maybe_first :
      (b : Bool) (a x : A) (xs : List A)
      → Member a (if b then x ∷ xs else xs)
      → ((a ≡ x) × (b ≡ true)) ⊎ Member a xs
  maybe_first true a x xs h = elim (Member-cases h) [ inl e ↦ inl (e, refl) | inr k ↦ inr k ]
  maybe_first false a x xs h = inr h

  -- What comes out was there before.
  pub retain-Member :
      (keep : A → Bool) (a : A) (xs : List A)
      → Member a (retain keep xs)
      → Member a xs × (keep a ≡ true)
  unfolding retain
  retain-Member keep a [] h = absurd (Member-nil h)
  retain-Member keep a (x ∷ xs) h = elim (maybe_first (keep x) a x (retain keep xs) h) [
    | inl (e, k) ↦ (subst (λ z. Member z (x ∷ xs)) (sym e) first, rw e k)
    | inr m ↦ let rest = retain-Member keep a xs m in (later rest.0, rest.1)
  ]

  two_orders :
      (b : Bool) (a x y : A) (ys rest : List A)
      → (Member a rest → (a ≡ x) ⊎ Member a ys)
      → Member a (if b then x ∷ y ∷ ys else y ∷ rest)
      → (a ≡ x) ⊎ Member a (y ∷ ys)
  two_orders true a x y ys rest ih h = Member-cases h
  two_orders false a x y ys rest ih h = elim (Member-cases h) [
    | inl e ↦ inr (subst (λ z. Member z (y ∷ ys)) (sym e) first)
    | inr k ↦ elim (ih k) [ inl e ↦ inl e | inr m ↦ inr (later m) ]
  ]

  insert_by-Member :
      (key : A → ℤ) (a x : A) (xs : List A) → Member a (insert_by key x xs) → (a ≡ x) ⊎ Member a xs
  unfolding insert_by
  insert_by-Member key a x [] h = Member-cases h
  insert_by-Member key a x (y ∷ ys) h =
      two_orders (leb_ℤ (key x) (key y)) a x y ys (insert_by key x ys) (insert_by-Member key a x ys)
        h

  pub sort_by_key-Member :
      (key : A → ℤ) (a : A) (xs : List A) → Member a (sort_by_key key xs) → Member a xs
  unfolding sort_by_key
  sort_by_key-Member key a [] h = h
  sort_by_key-Member key a (x ∷ xs) h = elim (insert_by-Member key a x (sort_by_key key xs) h) [
    | inl e ↦ subst (λ z. Member z (x ∷ xs)) (sym e) first
    | inr k ↦ later (sort_by_key-Member key a xs k)
  ]

  either_tail :
      (b : Bool) (a x : A) (rest : List A)
      → Member a (if b then rest else x ∷ rest)
      → (a ≡ x) ⊎ Member a rest
  either_tail true a x rest h = inr h
  either_tail false a x rest h = Member-cases h

  dedup_after-Member :
      (key : A → ℤ) (k : ℤ) (a : A) (xs : List A) → Member a (dedup_after key k xs) → Member a xs
  unfolding dedup_after
  dedup_after-Member key k a [] h = h
  dedup_after-Member key k a (x ∷ xs) h =
      elim (either_tail (leb_ℤ (key x) k && leb_ℤ k (key x)) a x (dedup_after key (key x) xs) h) [
        | inl e ↦ subst (λ z. Member z (x ∷ xs)) (sym e) first
        | inr m ↦ later (dedup_after-Member key (key x) a xs m)
      ]

  pub dedup_by_key-Member :
      (key : A → ℤ) (a : A) (xs : List A) → Member a (dedup_by_key key xs) → Member a xs
  unfolding dedup_by_key
  dedup_by_key-Member key a [] h = h
  dedup_by_key-Member key a (x ∷ xs) h = elim (Member-cases h) [
    | inl e ↦ subst (λ z. Member z (x ∷ xs)) (sym e) first
    | inr m ↦ later (dedup_after-Member key (key x) a xs m)
  ]

  -- A key above all others goes last.
  pub sort_by_key-last :
      (key : A → ℤ) (x : A) (xs ys : List A)
      → sort_by_key key xs ≡ ys
      → All (λ y. key y <ℤ key x) ys
      → sort_by_key key (x ∷ xs) ≡ ys ++ (x ∷ [])
  unfolding sort_by_key
  sort_by_key-last key x xs ys e h = rw e (insert_by-last ys h)
    where
      above : (a b : ℤ) → b <ℤ a → leb_ℤ a b ≡ false
      above a b h = ground arith

      insert_by-last :
          (ys : List A) → All (λ y. key y <ℤ key x) ys → insert_by key x ys ≡ ys ++ (x ∷ [])
      insert_by-last [] h = refl
      insert_by-last (y ∷ ys) (hy, hs) = rw (above (key x) (key y) hy, insert_by-last ys hs)

  pub sort_by_key-sorted : (key : A → ℤ) (xs : List A) → IsSorted key xs → sort_by_key key xs ≡ xs
  unfolding sort_by_key insert_by
  sort_by_key-sorted key [] s = refl
  sort_by_key-sorted key (x ∷ []) s = refl
  sort_by_key-sorted key (x ∷ y ∷ ys) (h, s) =
      rw (sort_by_key-sorted key (y ∷ ys) s, at_most (key x) (key y) h)
    where
      at_most : (a b : ℤ) → a ≤ℤ b → leb_ℤ a b ≡ true
      at_most a b h = ground arith
