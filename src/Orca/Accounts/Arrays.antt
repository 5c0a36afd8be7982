-- ===== src/Orca/Accounts/Arrays.antt =====
-- Which tick arrays `fetch_tick_arrays` of `src/protocols/orca.rs` returns.
use tick_liq.Prelude.Borsh.{Borsh}
use tick_liq.Prelude.{
  ◌<◌, map, ap, ◌∙◌, sym, Member-cases, arith, Member-nil, take, length, inl, Bool-cases, inr, ◌≢◌,
  ◌⊎◌, Option, ℕ, List, [], ◌∷◌, some, none, ◌≡◌, refl, true, ◌↔◌, Bool, Member, first, later,
}
use tick_liq.Orca.Layout.{TickArray}
use tick_liq.Orca.Accounts.{parse_tick_array, parsed_arrays, fetch_tick_arrays}
use tick_liq.Chain.Rpc.{
  no_attempts, RpcError, Account, owned, owned_all, multiple_result, get_multiple_accounts_checked,
}
use tick_liq.Prelude.Int.{ℤ}
use tick_liq.Prelude.Result.{err_ne_ok, ok_same, and_then, Result, Result-cases, ok}
use mathlib.Core.Path.{subst}
use tick_liq.Orca.{tick_array_starts}
use tick_liq.Chain.Rpc.Retry.{retry_cases, IsFirstSuccess}

module _ {Pubkey : Type 0} (borsh : Borsh Pubkey) (same : Pubkey → Pubkey → Bool)
    (program : Pubkey) where
  -- The account is among the first of the answers, the program owns it, and it parses to the array.
  pub record IsAnswered (accounts : List (Option (Account Pubkey))) (a : TickArray Pubkey)
      : Type 0 where
    pub account : Account Pubkey
    pub answered : Member (some account) accounts
    pub owner : same account.owner program ≡ true
    pub parsed : parse_tick_array borsh account.bytes ≡ ok a

  IsAnswered-later :
      {accounts : List (Option (Account Pubkey))} {a : TickArray Pubkey}
      {o : Option (Account Pubkey)}
      → IsAnswered accounts a
      → IsAnswered (o ∷ accounts) a
  IsAnswered-later s = record {
    account = s.account;
    answered = later s.answered;
    owner = s.owner;
    parsed = s.parsed;
  }

  IsAnswered-cases :
      {accounts : List (Option (Account Pubkey))} {a : TickArray Pubkey}
      {o : Option (Account Pubkey)}
      → IsAnswered (o ∷ accounts) a
      → ((account : Account Pubkey) × (some account ≡ o)
          × (same account.owner program ≡ true)
          × (parse_tick_array borsh account.bytes ≡ ok a))
        ⊎ IsAnswered accounts a
  IsAnswered-cases s = elim (Member-cases s.answered) [
    | inl e ↦ inl (s.account, e, s.owner, s.parsed)
    | inr m ↦ inr (record { account = s.account; answered = m; owner = s.owner; parsed = s.parsed })
  ]

  -- The array of one answer comes first, or the answer is skipped.
  parsed_arrays-cons :
      (start : ℤ) (starts : List ℤ) (o : Option (Account Pubkey)) (answers : List (Option (List ℕ)))
      → ((account : Account Pubkey) × (array : TickArray Pubkey) × (o ≡ some account)
          × (same account.owner program ≡ true)
          × (parse_tick_array borsh account.bytes ≡ ok array)
          × (parsed_arrays borsh (start ∷ starts) (owned same program o ∷ answers)
              ≡ array ∷ parsed_arrays borsh starts answers))
        ⊎ (((account : Account Pubkey) (array : TickArray Pubkey)
              → o ≡ some account
              → same account.owner program ≡ true
              → parse_tick_array borsh account.bytes ≢ ok array)
            × (parsed_arrays borsh (start ∷ starts) (owned same program o ∷ answers)
                ≡ parsed_arrays borsh starts answers))
  unfolding parsed_arrays owned
  parsed_arrays-cons start starts none answers = inr (λ account array h. absurd cc, refl)
  parsed_arrays-cons start starts (some account) answers =
      elim (Bool-cases (same account.owner program)) [
        | inl matches ↦ elim (Result-cases (parse_tick_array borsh account.bytes)) [
          | inl (array, k) ↦ inl (account, array, refl, matches, k, rw (matches, k) refl)
          | inr (e, k) ↦ inr (λ other array h owner parsed. cc, rw (matches, k) refl)
        ]
        | inr differs ↦ inr (λ other array h owner parsed. cc, rw differs refl)
      ]

  -- An array is in the result just when an answer serves it, whatever the starts are.
  Member-parsed_arrays :
      (starts : List ℤ) (pubkeys : List Pubkey) (accounts : List (Option (Account Pubkey)))
      (a : TickArray Pubkey)
      → length starts ≡ length pubkeys
      → Member a (parsed_arrays borsh starts (owned_all same program accounts pubkeys))
        ↔ IsAnswered (take (length starts) accounts) a
  unfolding owned_all parsed_arrays
  Member-parsed_arrays [] pubkeys accounts a h =
      (λ m. absurd (Member-nil m), λ s. absurd (Member-nil s.answered))
  Member-parsed_arrays (start ∷ starts) [] accounts a h = absurd (omega (arith, h))
  Member-parsed_arrays (start ∷ starts) (pubkey ∷ pubkeys) [] a h =
      (λ m. absurd (Member-nil m), λ s. absurd (Member-nil s.answered))
  Member-parsed_arrays (start ∷ starts) (pubkey ∷ pubkeys) (o ∷ accounts) a h =
      let rest = Member-parsed_arrays starts pubkeys accounts a (omega (arith, h)) in
      elim (parsed_arrays-cons start starts o (owned_all same program accounts pubkeys)) [
        | inl (account, array, answered, owner, parsed, cons) ↦ (
          λ m. elim (Member-cases (subst (Member a) cons m)) [
            | inl e ↦ record {
              account = account;
              answered =
                  subst (λ x. Member (some account) (x ∷ take (length starts) accounts))
                    (sym answered) first;
              owner = owner;
              parsed = parsed ∙ ap ok (sym e);
            }
            | inr k ↦ IsAnswered-later (rest.0 k)
          ],
          λ s. subst (Member a) (sym cons) (elim (IsAnswered-cases s) [
            | inl (account', answered', owner', parsed') ↦
                let e : a ≡ array = cc in
                subst
                  (λ x.
                    Member a
                      (x ∷ parsed_arrays borsh starts (owned_all same program accounts pubkeys)))
                  e first
            | inr served ↦ later (rest.1 served)
          ]),
        )
        | inr (refused, skip) ↦ (
          λ m. IsAnswered-later (rest.0 (subst (Member a) skip m)),
          λ s. subst (Member a) (sym skip) (elim (IsAnswered-cases s) [
            | inl (account, answered, owner, parsed) ↦
                absurd (refused account a (sym answered) owner parsed)
            | inr served ↦ rest.1 served
          ]),
        )
      ]

  -- When the fetch of the tick arrays returns, it has an answer of the node at the first of at most three
  -- attempts that succeeds. It returns exactly the arrays of the accounts among the first five of that
  -- answer that the Whirlpool program owns and that parse; a missing account, one of another owner or one
  -- that does not parse is left out, and the others are kept.
  pub fetch_tick_arrays-IsAnswered :
      (tick_array_pda : Pubkey → ℤ → Pubkey)
      (get_multiple : List Pubkey → ℕ → Result (RpcError Pubkey) (List (Option (Account Pubkey))))
      (whirlpool : Pubkey) (current_tick : ℤ) (tick_spacing : ℕ) (out : List (TickArray Pubkey))
      → fetch_tick_arrays borsh same tick_array_pda get_multiple program whirlpool current_tick
          tick_spacing
        ≡ ok out
      → let pdas = map (tick_array_pda whirlpool) (tick_array_starts current_tick tick_spacing) in
        (k : ℕ) × (accounts : List (Option (Account Pubkey))) × (k < 3)
        × IsFirstSuccess (get_multiple pdas) k accounts
        × ((a : TickArray Pubkey) → Member a out ↔ IsAnswered (take 5 accounts) a)
  unfolding fetch_tick_arrays get_multiple_accounts_checked multiple_result tick_array_starts
  fetch_tick_arrays-IsAnswered tick_array_pda get_multiple whirlpool current_tick tick_spacing out
        h =
      let starts = tick_array_starts current_tick tick_spacing in
      let pdas = map (tick_array_pda whirlpool) starts in
      let Gives : Result (RpcError Pubkey) (List (Option (Account Pubkey))) → Type 0 = λ r.
        and_then (multiple_result same program r pdas)
          (λ datas. ok (parsed_arrays borsh starts datas))
        ≡ ok out in
      elim (retry_cases (get_multiple pdas) no_attempts) [
        | inl (k, accounts, bound, is_first, returned) ↦
            let e = ok_same (subst Gives (ap (λ p. p.0) returned) h) in
            (
              k,
              accounts,
              bound,
              is_first,
              λ a.
                  subst (λ arrays. Member a arrays ↔ IsAnswered (take 5 accounts) a) e
                    (Member-parsed_arrays starts pdas accounts a refl),
            )
        | inr (e, failures, last, returned) ↦
            absurd (err_ne_ok (subst Gives (ap (λ p. p.0) returned) h))
      ]
