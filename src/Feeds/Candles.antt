-- ===== src/Feeds/Candles.antt =====
-- Price histories: `src/data/geckoterminal.rs`. The answers of the service are the argument `get`, of the
-- cursor and the number of attempts so far; a decoded body stands for what the code reads of it.
pub mod Series
use tick_liq.Prelude.{
  ℕ, zero, suc, ◌+◌, ◌-◌, ◌==◌, not, ◌&&◌, if◌then◌else◌, Bool, true, false, Option, none, some,
  List, [], ◌∷◌, ◌++◌, length,
}
use tick_liq.Prelude.Int.{ℤ, pos, ◌-ℤ◌, leb_ℤ, ltb_ℤ}
use tick_liq.Prelude.Word.{i64_half, wrap}
use tick_liq.Prelude.Result.{and_then, Result, ok, err}
use tick_liq.Prelude.Sort.{retain, sort_by_key, dedup_by_key}
use tick_liq.Prelude.Libm.{Libm}

pub record OhlcvCandle {ℓ} (F : Type ℓ) : Type ℓ where
  pub timestamp : ℤ
  pub open_price : F
  pub high : F
  pub low : F
  pub close : F
  pub volume_usd : F

pub data FetchError : Type 0 where
  no_list : FetchError
  not_an_array : ℕ → FetchError
  fields : ℕ → ℕ → FetchError
  not_a_number : ℕ → ℕ → FetchError
  request_failed : FetchError
  http_status : ℕ → FetchError
  not_json : FetchError

-- A member of `ohlcv_list`: its fields, if it is an array, each a number or not.
abbrev pub Entry {ℓ} : Type ℓ → Type ℓ
Entry F = Option (List (Option F))

-- The answer to one request: it fails, or has a status and a body, which may be no JSON. Of a body, the list
-- under `/data/attributes/ohlcv_list`, if it is there.
pub data Response {ℓ} (F : Type ℓ) : Type ℓ where
  failed : Response F
  status : ℕ → Response F
  body : Option (Option (List (Entry F))) → Response F

module _ {ℓ} {F : Type ℓ} where
  -- `num(j, name)?` and what follows.
  number : {A : Type ℓ} → ℕ → ℕ → Option F → (F → Result FetchError A) → Result FetchError A
  number i j none next = err (not_a_number i j)
  number i j (some x) next = next x

module _ {ℓ} {F : Type ℓ} ⦃m : Libm F⦄ where
  row_of : ℕ → List (Option F) → Result FetchError (OhlcvCandle F)
  unfolding number
  row_of i (t ∷ o ∷ h ∷ l ∷ c ∷ v ∷ []) = number i 0 t (λ t. number i 1 o (λ o. number i 2 h (λ h.
      number i 3 l (λ l. number i 4 c (λ c. number i 5 v (λ v. ok (record {
        timestamp = m.to_i64 t;
        open_price = o;
        high = h;
        low = l;
        close = c;
        volume_usd = v;
      })))))))
  row_of i row = err (fields i (length row))

  entry_of : ℕ → Entry F → Result FetchError (OhlcvCandle F)
  unfolding row_of
  entry_of i none = err (not_an_array i)
  entry_of i (some row) = row_of i row

  entries_from : ℕ → List (Entry F) → Result FetchError (List (OhlcvCandle F))
  unfolding entry_of
  entries_from i [] = ok []
  entries_from i (e ∷ es) =
      and_then (entry_of i e) (λ c. and_then (entries_from (suc i) es) (λ cs. ok (c ∷ cs)))

  unfoldable pub parse_ohlcv_list :
      Option (List (Entry F)) → Result FetchError (List (OhlcvCandle F))
  unfolding entries_from
  parse_ohlcv_list none = err no_list
  parse_ohlcv_list (some list) =
      and_then (entries_from 0 list) (λ out. ok (sort_by_key (λ c. c.timestamp) out))

  -- A 429 is asked again.
  after_response :
      Response F
      → Result FetchError (List (OhlcvCandle F))
      → Result FetchError (List (OhlcvCandle F))
  after_response failed retry = err request_failed
  after_response (status code) retry = if code == 429 then retry else err (http_status code)
  after_response (body none) retry = err not_json
  after_response (body (some list)) retry = parse_ohlcv_list list

  ask : (ℤ → ℕ → Response F) → ℤ → (left attempt : ℕ) → Result FetchError (List (OhlcvCandle F))
  unfolding after_response
  ask get cursor zero attempt = after_response (get cursor attempt) (err (http_status 429))
  ask get cursor (suc left) attempt =
      after_response (get cursor attempt) (ask get cursor left (suc attempt))

  -- The first request and three retries at most.
  unfoldable pub fetch_ohlcv : (ℤ → ℕ → Response F) → ℤ → Result FetchError (List (OhlcvCandle F))
  unfolding ask
  fetch_ohlcv get cursor = ask get cursor 3 0

  next_page :
      ℤ
      → List (OhlcvCandle F)
      → List (OhlcvCandle F)
      → (ℤ → List (OhlcvCandle F) → Result FetchError (List (OhlcvCandle F)))
      → Result FetchError (List (OhlcvCandle F))
  next_page from_ts all [] again = ok all
  next_page from_ts all (oldest ∷ batch) again =
      let all' = all ++ oldest ∷ batch in
      if leb_ℤ oldest.timestamp from_ts
      then ok all'
      else again (wrap i64_half (oldest.timestamp -ℤ pos 1)) all'

  collect :
      (ℤ → ℕ → Response F)
      → ℤ
      → ℕ
      → ℤ
      → List (OhlcvCandle F)
      → Result FetchError (List (OhlcvCandle F))
  unfolding next_page
  collect get from_ts zero cursor all = ok all
  collect get from_ts (suc pages) cursor all =
      and_then (fetch_ohlcv get cursor)
        (λ batch. next_page from_ts all batch (collect get from_ts pages))

  in_window : ℤ → ℤ → OhlcvCandle F → Bool
  in_window from_ts to_ts c = leb_ℤ from_ts c.timestamp && ltb_ℤ c.timestamp to_ts

  -- At most 50 pages, newest first.
  unfoldable pub fetch_range :
      (ℤ → ℕ → Response F) → (from_ts to_ts : ℤ) → Result FetchError (List (OhlcvCandle F))
  unfolding collect in_window
  fetch_range get from_ts to_ts = and_then (collect get from_ts 50 to_ts []) (λ all. ok (
      dedup_by_key (λ c. c.timestamp)
        (sort_by_key (λ c. c.timestamp) (retain (in_window from_ts to_ts) all))))
