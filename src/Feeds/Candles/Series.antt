-- ===== src/Feeds/Candles/Series.antt =====
-- What a fetched price history is: a series in strictly ascending order, within the window.
use tick_liq.Prelude.{
  ◌&&◌, Member-nil, ℕ, zero, suc, ◌≡◌, refl, sym, if◌then◌else◌, Bool, true, false, List, [], ◌∷◌,
  ◌++◌, inl, inr, Member, Member-append, All, All-of-Member, arith,
}
use tick_liq.Prelude.Int.{pos, ◌-ℤ◌, ℤ, ◌≤ℤ◌, ◌<ℤ◌, leb_ℤ, ltb_ℤ}
use tick_liq.Prelude.Result.{Result, ok, err, ok_same, err_ne_ok, and_then}
use tick_liq.Prelude.Sort.{
  retain, sort_by_key, IsAscending, sort_by_key-IsSorted, dedup_by_key-IsAscending, retain-Member,
  sort_by_key-Member, dedup_by_key-Member,
}
use tick_liq.Prelude.Libm.{Libm}
use tick_liq.Feeds.Candles.{
  OhlcvCandle, Response, FetchError, fetch_ohlcv, fetch_range, collect, next_page, in_window,
}
use tick_liq.Prelude.Word.{i64_half, wrap}
use mathlib.Core.Path.{subst}

window : (a t b : ℤ) → leb_ℤ a t && ltb_ℤ t b ≡ true → (a ≤ℤ t) × (t <ℤ b)
window a t b h = ground arith

and_then-ok {ℓ κ μ} :
    {E : Type ℓ} {A : Type κ} {B : Type μ} (r : Result E A) (next : A → Result E B) (b : B)
    → and_then r next ≡ ok b
    → (a : A) × (r ≡ ok a) × (next a ≡ ok b)
and_then-ok (ok a) next b h = (a, refl, h)
and_then-ok (err e) next b h = absurd (err_ne_ok h)

module _ {ℓ} {F : Type ℓ} ⦃m : Libm F⦄ where
  -- The candle is of a page that the service gave.
  pub data IsServed (get : ℤ → ℕ → Response F) (c : OhlcvCandle F) : Type ℓ where
    served :
        (cursor : ℤ) (page : List (OhlcvCandle F))
        → fetch_ohlcv get cursor ≡ ok page
        → Member c page
        → IsServed get c

  AllServed : (ℤ → ℕ → Response F) → List (OhlcvCandle F) → Type ℓ
  AllServed get cs = (c : OhlcvCandle F) → Member c cs → IsServed get c

  next_page-served :
      (get : ℤ → ℕ → Response F) (from_ts cursor : ℤ) (all batch out : List (OhlcvCandle F))
      (again : ℤ → List (OhlcvCandle F) → Result FetchError (List (OhlcvCandle F)))
      → fetch_ohlcv get cursor ≡ ok batch
      → AllServed get all
      → ((c : ℤ) (more : List (OhlcvCandle F))
          → AllServed get more
          → again c more ≡ ok out
          → AllServed get out)
      → next_page from_ts all batch again ≡ ok out
      → AllServed get out
  unfolding next_page AllServed
  next_page-served get from_ts cursor all [] out again f h rest e = rw (sym (ok_same e)) h
  next_page-served get from_ts cursor all (oldest ∷ batch) out again f h rest e =
      branch (leb_ℤ oldest.timestamp from_ts) e
    where
      both : AllServed get (all ++ oldest ∷ batch)
      both c mem = elim (Member-append c all (oldest ∷ batch) mem) [
        | inl x ↦ h c x
        | inr x ↦ served cursor (oldest ∷ batch) f x
      ]

      branch :
          (b : Bool)
          → (if b
              then ok (all ++ oldest ∷ batch)
              else again (wrap i64_half (oldest.timestamp -ℤ pos 1)) (all ++ oldest ∷ batch))
            ≡ ok out
          → AllServed get out
      branch true k = subst (AllServed get) (ok_same k) both
      branch false k =
          rest (wrap i64_half (oldest.timestamp -ℤ pos 1)) (all ++ oldest ∷ batch) both k

  collect-served :
      (get : ℤ → ℕ → Response F) (from_ts : ℤ) (pages : ℕ) (cursor : ℤ)
      (all out : List (OhlcvCandle F))
      → AllServed get all
      → collect get from_ts pages cursor all ≡ ok out
      → AllServed get out
  unfolding collect AllServed
  collect-served get from_ts zero cursor all out h e = rw (sym (ok_same e)) h
  collect-served get from_ts (suc pages) cursor all out h e =
      let page = and_then-ok (fetch_ohlcv get cursor) _ out e in
      next_page-served get from_ts cursor all page.0 out (collect get from_ts pages) page.1 h
        (λ c more k r. collect-served get from_ts pages c more out k r) page.2

  -- A fetched history is in strictly ascending order of its timestamps, and each of its candles lies in
  -- the window, from `from_ts` on and before `to_ts`, and is of a page that the service gave.
  pub fetch_range-IsAscending :
      (get : ℤ → ℕ → Response F) (from_ts to_ts : ℤ) (cs : List (OhlcvCandle F))
      → fetch_range get from_ts to_ts ≡ ok cs
      → IsAscending (λ c. c.timestamp) cs
        × All (λ c. (from_ts ≤ℤ c.timestamp) × (c.timestamp <ℤ to_ts) × IsServed get c) cs
  unfolding fetch_range in_window AllServed
  fetch_range-IsAscending get from_ts to_ts cs h =
      let fetched = and_then-ok (collect get from_ts 50 to_ts []) _ cs h in
      let kept = retain (in_window from_ts to_ts) fetched.0 in
      let sorted = sort_by_key (λ c. c.timestamp) kept in
      rw (sym (ok_same fetched.2)) (
        dedup_by_key-IsAscending (λ c. c.timestamp) sorted (sort_by_key-IsSorted _ kept),
        All-of-Member _ _ (λ c mem.
            let k =
              retain-Member (in_window from_ts to_ts) c fetched.0
                (sort_by_key-Member _ c kept (dedup_by_key-Member _ c sorted mem)) in
            let w = window from_ts c.timestamp to_ts k.1 in
            (
              w.0,
              w.1,
              collect-served get from_ts 50 to_ts [] fetched.0 (λ c n. absurd (Member-nil n))
                  fetched.1 c k.0,
            )),
      )
