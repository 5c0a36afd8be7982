-- ===== src/Research/Sweeps.antt =====
-- The chaining of the steps of a sweep, some of which fail or panic.
use tick_liq.Prelude.{
  inr, sym, inl, Member-cases, ◌++◌, Member-nil, ◌≡◌, refl, Option, none, some, List, [], ◌∷◌,
  Member, first, later, All, All-append,
}
use tick_liq.Prelude.Result.{Result, ok, err}
use tick_liq.Backtest.Replay.{ReplayError}
use tick_liq.Research.Input.{
  ResearchError, Sweep, and_sweep, or_panic, or_error, replay_error, each,
}
use mathlib.Core.Path.{subst}

pub and_sweep-ok {ℓ κ} :
    {A : Type ℓ} {B : Type κ} (r : Sweep A) (next : A → Sweep B) (b : B)
    → and_sweep r next ≡ some (ok b)
    → (a : A) × (r ≡ some (ok a)) × (next a ≡ some (ok b))
and_sweep-ok none next b h = absurd cc
and_sweep-ok (some (err e)) next b h = absurd cc
and_sweep-ok (some (ok a)) next b h = (a, refl, h)

pub or_panic-ok {ℓ} : {A : Type ℓ} (o : Option A) (a : A) → or_panic o ≡ some (ok a) → o ≡ some a
or_panic-ok none a h = absurd cc
or_panic-ok (some x) a h = cc

pub or_error-ok {ℓ} :
    {A : Type ℓ} (e : ResearchError) (o : Option A) (a : A)
    → or_error e o ≡ some (ok a)
    → o ≡ some a
or_error-ok e none a h = absurd cc
or_error-ok e (some x) a h = cc

pub replay_error-ok {ℓ} :
    {A : Type ℓ} (r : Option (Result ReplayError A)) (a : A)
    → replay_error r ≡ some (ok a)
    → r ≡ some (ok a)
replay_error-ok none a h = absurd cc
replay_error-ok (some (err e)) a h = absurd cc
replay_error-ok (some (ok x)) a h = cc

pub sweep_same {ℓ} : {A : Type ℓ} {a b : A} → ◌≡◌ {A = Sweep A} (some (ok a)) (some (ok b)) → a ≡ b
sweep_same h = cc

-- What holds of the rows of each pass holds of the rows of the loop.
pub each-All {ℓ κ μ} :
    {A : Type ℓ} {B : Type κ} (P : B → Type μ) (body : A → Sweep (List B)) (xs : List A)
    (out : List B)
    → ((x : A) (o : List B) → Member x xs → body x ≡ some (ok o) → All P o)
    → each body xs ≡ some (ok out)
    → All P out
each-All P body [] out h e = subst (All P) (sweep_same e) tt
each-All P body (x ∷ xs) out h e =
    let head = and_sweep-ok (body x) _ out e in
    let rest = and_sweep-ok (each body xs) _ out head.2 in
    subst (All P) (sweep_same rest.2) (
      All-append P head.0 rest.0 (h x head.0 first head.1)
        (each-All P body xs rest.0 (λ y o mem k. h y o (later mem) k) rest.1))

-- The step after one that is known to succeed.
pub and_sweep-at {ℓ κ} :
    {A : Type ℓ} {B : Type κ} (r : Sweep A) (next : A → Sweep B) (a : A) (b : B)
    → r ≡ some (ok a)
    → and_sweep r next ≡ some (ok b)
    → next a ≡ some (ok b)
and_sweep-at r next a b e h = subst (λ x. and_sweep x next ≡ some (ok b)) e h

pub Member-append_left {ℓ} :
    {A : Type ℓ} (a : A) (xs ys : List A) → Member a xs → Member a (xs ++ ys)
Member-append_left a xs ys first = first
Member-append_left a (x ∷ xs) ys (later k) = later (Member-append_left a xs ys k)

pub Member-append_right {ℓ} :
    {A : Type ℓ} (a : A) (xs ys : List A) → Member a ys → Member a (xs ++ ys)
Member-append_right a [] ys m = m
Member-append_right a (x ∷ xs) ys m = later (Member-append_right a xs ys m)

-- A row that a pass makes is a row of the loop.
pub each-Member {ℓ κ μ} :
    {A : Type ℓ} {B : Type κ} (P : B → Type μ) (body : A → Sweep (List B)) (xs : List A)
    (out : List B) (x : A)
    → Member x xs
    → ((o : List B) → body x ≡ some (ok o) → (b : B) × Member b o × P b)
    → each body xs ≡ some (ok out)
    → (b : B) × Member b out × P b
each-Member P body [] out x m h e = absurd (Member-nil m)
each-Member {B = B} P body (y ∷ ys) out x m h e =
    let head = and_sweep-ok (body y) _ out e in
    let rest = and_sweep-ok (each body ys) _ out head.2 in
    let all = sweep_same rest.2 in
    elim (Member-cases m) [
      | inl same ↦
          let (b, k, p) = h head.0 (subst (λ z. body z ≡ some (ok head.0)) (sym same) head.1) in
          (b, subst (Member b) all (Member-append_left b head.0 rest.0 k), p)
      | inr k ↦
          let (b, j, p) = each-Member P body ys rest.0 x k h rest.1 in
          (b, subst (Member b) all (Member-append_right b head.0 rest.0 j), p)
    ]

pub All-at {ℓ κ} :
    {A : Type ℓ} (P : A → Type κ) (xs : List A) (a : A) → All P xs → Member a xs → P a
All-at P [] a h m = absurd (Member-nil m)
All-at P (x ∷ xs) a h first = h.0
All-at P (x ∷ xs) a h (later m) = All-at P xs a h.1 m
