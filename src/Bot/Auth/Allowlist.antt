-- ===== src/Bot/Auth/Allowlist.antt =====
-- What `load_allowed_user_ids` accepts.
use tick_liq.Bot.Auth.{
  cons_entry, AllowlistError, parse_entries, load_allowed_user_ids, parse_entry, require_some,
}
use tick_liq.Prelude.{none, Option, ap, sym, refl, map, [], ◌≢◌, ◌∷◌, ◌≡◌, some, List, ◌↔◌, ℕ}
use tick_liq.Bot.Text.{split_on, parse_u64, trim}
use tick_liq.Prelude.Result.{ok_same, err_ne_ok, ok, Result, err}

keep_nonblank : List ℕ → List (List ℕ) → List (List ℕ)
keep_nonblank [] rest = rest
keep_nonblank (c ∷ s) rest = (c ∷ s) ∷ rest

-- The entries of the list: its pieces, trimmed, without the blank ones.
pub entries : List (List ℕ) → List (List ℕ)
unfolding keep_nonblank
entries [] = []
entries (piece ∷ pieces) = keep_nonblank (trim piece) (entries pieces)

head_eq {ℓ} : {A : Type ℓ} {x y : A} {xs ys : List A} → x ∷ xs ≡ y ∷ ys → x ≡ y
head_eq e = cc

tail_eq {ℓ} : {A : Type ℓ} {x y : A} {xs ys : List A} → x ∷ xs ≡ y ∷ ys → xs ≡ ys
tail_eq e = cc

cons_entry_iff :
    (s : List ℕ) (first : Option ℕ) (rest : Result AllowlistError (List ℕ)) (more : List (Option ℕ))
    (ids : List ℕ)
    → ((tail : List ℕ) → (rest ≡ ok tail) ↔ (more ≡ map some tail))
    → (cons_entry s first rest ≡ ok ids) ↔ (first ∷ more ≡ map some ids)
unfolding cons_entry
cons_entry_iff s none rest more [] ih = (λ h. cc, λ h. cc)
cons_entry_iff s none rest more (id ∷ ids) ih = (λ h. cc, λ h. cc)
cons_entry_iff s (some x) (err e) more [] ih = (λ h. cc, λ h. cc)
cons_entry_iff s (some x) (err e) more (id ∷ ids) ih =
    (λ h. cc, λ h. absurd (err_ne_ok ((ih ids).1 (tail_eq h))))
cons_entry_iff s (some x) (ok xs) more [] ih = (λ h. cc, λ h. cc)
cons_entry_iff s (some x) (ok xs) more (id ∷ ids) ih =
    (λ h. cc ((ih ids).0 (ap ok (tail_eq (ok_same h)))), λ h. cc ((ih ids).1 (tail_eq h)))

-- A blank entry is left out; another one fails, and so does the list, or it is read, and the list goes
-- on.
parse_entry_iff :
    (s : List ℕ) (rest : Result AllowlistError (List ℕ)) (more : List (List ℕ))
    → ((ids : List ℕ) → (rest ≡ ok ids) ↔ (map parse_u64 more ≡ map some ids))
    → (ids : List ℕ)
    → (parse_entry s rest ≡ ok ids) ↔ (map parse_u64 (keep_nonblank s more) ≡ map some ids)
unfolding parse_entry keep_nonblank
parse_entry_iff [] rest more ih ids = ih ids
parse_entry_iff (c ∷ s) rest more ih ids =
    cons_entry_iff (c ∷ s) (parse_u64 (c ∷ s)) rest (map parse_u64 more) ids ih

parse_entries_iff :
    (pieces : List (List ℕ)) (ids : List ℕ)
    → (parse_entries pieces ≡ ok ids) ↔ (map parse_u64 (entries pieces) ≡ map some ids)
unfolding parse_entries entries
parse_entries_iff [] [] = (λ e. refl, λ e. refl)
parse_entries_iff [] (id ∷ ids) = (λ e. cc, λ e. cc)
parse_entries_iff (piece ∷ pieces) ids =
    parse_entry_iff (trim piece) (parse_entries pieces) (entries pieces) (parse_entries_iff pieces)
      ids

require_some_iff :
    (loaded : Result AllowlistError (List ℕ)) (ids : List ℕ)
    → (require_some loaded ≡ ok ids) ↔ ((ids ≢ []) × (loaded ≡ ok ids))
unfolding require_some
require_some_iff (err e) ids = (λ h. cc, λ h. cc (h.1))
require_some_iff (ok []) ids = (λ h. cc, λ h. absurd (h.0 (sym (ok_same h.1))))
require_some_iff (ok (id ∷ more)) ids = (λ h. (λ e. cc, h), λ h. h.1)

iff_trans {ℓ κ μ} : {A : Type ℓ} {B : Type κ} {C : Type μ} → (A ↔ B) → (B ↔ C) → (A ↔ C)
iff_trans f g = (λ a. g.0 (f.0 a), λ c. f.1 (g.1 c))

-- `load_allowed_user_ids` gives the list `ids` exactly when the variable is set, `ids` is not empty and
-- the trimmed, non-blank pieces between the commas are numbers of 64 bits, those of `ids` in order: a
-- single bad entry refuses the whole list.
load_allowed_user_ids_iff :
    (raw : List ℕ) (ids : List ℕ)
    → (load_allowed_user_ids (some raw) ≡ ok ids)
      ↔ ((ids ≢ []) × (map parse_u64 (entries (split_on b',' raw)) ≡ map some ids))
unfolding load_allowed_user_ids
load_allowed_user_ids_iff raw ids =
    iff_trans (require_some_iff (parse_entries (split_on b',' raw)) ids) (
      λ h. (h.0, (parse_entries_iff (split_on b',' raw) ids).0 h.1),
      λ h. (h.0, (parse_entries_iff (split_on b',' raw) ids).1 h.1),
    )
