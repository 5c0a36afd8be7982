-- ===== src/Prelude/Lists.antt =====
-- Lists measured and indexed by native numbers, under the library's names, and predicates on them.
use Prim.Native.Nat.{ℕ, zero, suc, ◌+◌}
use mathlib.Core.Path.{◌≡◌, refl, sym, ap, subst}
use mathlib.Core.List.{List, [], ◌∷◌, ◌++◌, map}
use mathlib.Core.Logic.{◌≢◌, ◌⊎◌, inl, inr}
use mathlib.Core.Option.{Option, none, some}
use native.Mathlib.Omega.{arith}

module _ {ℓ} {A : Type ℓ} where
  abbrev pub length : List A → ℕ
  length [] = 0
  length (x ∷ xs) = suc (length xs)

  abbrev pub get_elem? : List A → ℕ → Option A
  get_elem? [] i = none
  get_elem? (x ∷ xs) zero = some x
  get_elem? (x ∷ xs) (suc i) = get_elem? xs i

  abbrev pub take : ℕ → List A → List A
  take zero xs = []
  take (suc n) [] = []
  take (suc n) (x ∷ xs) = x ∷ take n xs

  abbrev pub drop : ℕ → List A → List A
  drop zero xs = xs
  drop (suc n) [] = []
  drop (suc n) (x ∷ xs) = drop n xs

  abbrev pub replicate : ℕ → A → List A
  replicate zero a = []
  replicate (suc n) a = a ∷ replicate n a

  pub length-append : (xs ys : List A) → length (xs ++ ys) ≡ length xs + length ys
  length-append [] ys = omega arith
  length-append (x ∷ xs) ys = omega (arith, length-append xs ys)

  pub take-length-append : (xs ys : List A) → take (length xs) (xs ++ ys) ≡ xs
  take-length-append [] ys = refl
  take-length-append (x ∷ xs) ys = ap (◌∷◌ x) (take-length-append xs ys)

  pub drop-length-append : (xs ys : List A) → drop (length xs) (xs ++ ys) ≡ ys
  drop-length-append [] ys = refl
  drop-length-append (x ∷ xs) ys = drop-length-append xs ys

  abbrev pub All {κ} : (A → Type κ) → List A → Type κ
  All P [] = Unit
  All P (x ∷ xs) = P x × All P xs

  pub All-append {κ} : (P : A → Type κ) (xs ys : List A) → All P xs → All P ys → All P (xs ++ ys)
  All-append P [] ys hx hy = hy
  All-append P (x ∷ xs) ys hx hy = (hx.0, All-append P xs ys hx.1 hy)

-- The element is in the list.
pub data Member {ℓ} {A : Type ℓ} (a : A) : List A → Type ℓ where
  first : {xs : List A} → Member a (a ∷ xs)
  later : {x : A} {xs : List A} → Member a xs → Member a (x ∷ xs)

pub Member-nil {ℓ} : {A : Type ℓ} {a : A} → ¬ Member a []
Member-nil m = elim m [ ]

pub Member-cases {ℓ} :
    {A : Type ℓ} {a x : A} {xs : List A} → Member a (x ∷ xs) → (a ≡ x) ⊎ Member a xs
Member-cases first = inl refl
Member-cases (later m) = inr m

pub Member-tail {ℓ} : {A : Type ℓ} {a x : A} {xs : List A} → x ≢ a → Member a (x ∷ xs) → Member a xs
Member-tail ne first = absurd (ne refl)
Member-tail ne (later m) = m

pub length-map {ℓ κ} :
    {A : Type ℓ} {B : Type κ} (xs : List A) (f : A → B) → length (map f xs) ≡ length xs
length-map [] f = refl
length-map (x ∷ xs) f = ap suc (length-map xs f)

pub map-snoc {ℓ κ} :
    {A : Type ℓ} {B : Type κ} (g : A → B) (xs : List A) (x : A) (ys : List B)
    → map g (xs ++ x ∷ []) ++ ys ≡ map g xs ++ g x ∷ ys
map-snoc g [] x ys = refl
map-snoc g (z ∷ zs) x ys = ap (◌∷◌ (g z)) (map-snoc g zs x ys)

pub All-of-Member {ℓ κ} :
    {A : Type ℓ} (P : A → Type κ) (xs : List A) → ((a : A) → Member a xs → P a) → All P xs
All-of-Member P [] h = tt
All-of-Member P (x ∷ xs) h = (h x first, All-of-Member P xs (λ a m. h a (later m)))

pub Member-append {ℓ} :
    {A : Type ℓ} (a : A) (xs ys : List A) → Member a (xs ++ ys) → Member a xs ⊎ Member a ys
Member-append a [] ys h = inr h
Member-append a (x ∷ xs) ys h = elim (Member-cases h) [
  | inl e ↦ inl (subst (λ z. Member z (x ∷ xs)) (sym e) first)
  | inr k ↦ elim (Member-append a xs ys k) [ inl m ↦ inl (later m) | inr m ↦ inr m ]
]
