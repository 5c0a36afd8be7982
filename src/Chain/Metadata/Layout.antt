-- ===== src/Chain/Metadata/Layout.antt =====
-- The parse of the metadata on any bytes, and on bytes of the documented layout.
use tick_liq.Chain.Metadata.{
  not_utf8, short_for_name_len, short_for_symbol_len, short_for_symbol, MetadataError,
  symbol_of_slice, symbol_from, name_from, symbol_of_metadata, trim_end_nul,
}
use tick_liq.Prelude.Bytes.{slice, slice-some, from_le_bytes}
use tick_liq.Prelude.{
  ap, sym, ◌∙◌, false, length-append, true, take-length-append, ◌^◌, drop-length-append, ◌<◌, ◌-◌,
  ◌++◌, drop, take, arith, inr, inl, Bool-cases, ltb, if◌then◌else◌, some, [], ◌≡◌, ◌/◌, ◌∷◌,
  length, ◌≤◌, ◌%◌, ◌+◌, Bool, List, ℕ, refl,
}
use tick_liq.Prelude.Result.{ok, err, Result}
use mathlib.Core.List.{append_assoc}

-- The four bytes of a length.
abbrev pub to_le_bytes : ℕ → List ℕ
to_le_bytes n = n % 256 ∷ n / 256 % 256 ∷ n / 65536 % 256 ∷ n / 16777216 % 256 ∷ []

from_le_bytes-to_le_bytes : (n : ℕ) → n < 2 ^ 32 → from_le_bytes (to_le_bytes n) ≡ n
unfolding from_le_bytes
from_le_bytes-to_le_bytes n h = omega arith

slice_middle :
    (xs ys zs : List ℕ) (a b : ℕ)
    → a ≡ length xs
    → b ≡ length xs + length ys
    → slice (xs ++ (ys ++ zs)) a b ≡ some ys
slice_middle xs ys zs a b ha hb =
    slice-some (xs ++ (ys ++ zs)) a b (omega arith)
      (omega (arith, length-append xs (ys ++ zs), length-append ys zs))
    ∙ rw (ha, hb) (ap some content)
  where
    content : take (length xs + length ys - length xs) (drop (length xs) (xs ++ (ys ++ zs))) ≡ ys
    content =
        rw
          (
            drop-length-append xs (ys ++ zs),
            let e : length xs + length ys - length xs ≡ length ys = omega arith in e,
          )
          (take-length-append ys zs)

module _ (is_utf8 : List ℕ → Bool) where
  symbol_of_slice-some :
      (bytes : List ℕ) (a b : ℕ)
      → a ≤ b
      → b ≤ length bytes
      → (r : Result MetadataError (List ℕ)) × (symbol_of_slice is_utf8 (slice bytes a b) ≡ some r)
  unfolding symbol_of_slice
  symbol_of_slice-some bytes a b h k =
      let sym = take (b - a) (drop a bytes) in
      (
        if is_utf8 sym then ok (trim_end_nul sym) else err not_utf8,
        rw (slice-some bytes a b h k) refl,
      )

  symbol_from-some :
      (bytes : List ℕ) (pos : ℕ)
      → pos + 4 ≤ length bytes
      → (r : Result MetadataError (List ℕ)) × (symbol_from is_utf8 bytes pos
            (slice bytes pos (pos + 4))
          ≡ some r)
  unfolding symbol_from
  symbol_from-some bytes pos h = rw (slice-some bytes pos (pos + 4) (omega arith) h) (by_len _)
    where
      by_len :
          (n : ℕ)
          → (r : Result MetadataError (List ℕ)) × ((if ltb (length bytes) (pos + 4 + n)
                then some (err short_for_symbol)
                else symbol_of_slice is_utf8 (slice bytes (pos + 4) (pos + 4 + n)))
              ≡ some r)
      by_len n = elim (Bool-cases (ltb (length bytes) (pos + 4 + n))) [
        | inl short ↦ (err short_for_symbol, rw short refl)
        | inr enough ↦
            let r =
              symbol_of_slice-some bytes (pos + 4) (pos + 4 + n) (omega arith) (ground arith) in
            (r.0, rw enough r.1)
      ]

  -- Whatever bytes the metadata account has, its parse slices only within them: it ends with a symbol or
  -- an error, not with a panic.
  pub symbol_of_metadata-some :
      (bytes : List ℕ)
      → (r : Result MetadataError (List ℕ)) × (symbol_of_metadata is_utf8 bytes ≡ some r)
  unfolding symbol_of_metadata name_from
  symbol_of_metadata-some bytes = elim (Bool-cases (ltb (length bytes) 69)) [
    | inl short ↦ (err short_for_name_len, rw short refl)
    | inr enough ↦
        let r = by_len (from_le_bytes (take 4 (drop 65 bytes))) in
        (r.0, rw (enough, slice-some bytes 65 69 (omega arith) (ground arith)) r.1)
  ]
    where
      by_len :
          (n : ℕ)
          → (r : Result MetadataError (List ℕ)) × ((if ltb (length bytes) (65 + (4 + n) + 4)
                then some (err short_for_symbol_len)
                else symbol_from is_utf8 bytes
                    (65 + (4 + n))
                    (slice bytes (65 + (4 + n)) (65 + (4 + n) + 4)))
              ≡ some r)
      by_len n = elim (Bool-cases (ltb (length bytes) (65 + (4 + n) + 4))) [
        | inl short ↦ (err short_for_symbol_len, rw short refl)
        | inr enough ↦
            let r = symbol_from-some bytes (65 + (4 + n)) (ground arith) in (r.0, rw enough r.1)
      ]

  -- Metadata of the documented layout: 65 bytes, the name after its length, the symbol after its length.
  abbrev pub metadata : List ℕ → List ℕ → List ℕ → List ℕ → List ℕ
  metadata header name symbol rest =
      header
      ++ (to_le_bytes (length name) ++ (name ++ (to_le_bytes (length symbol) ++ (symbol ++ rest))))

  -- The symbol of metadata of the documented layout is found, without its padding of zero bytes, whatever
  -- the name is and whatever follows the symbol.
  symbol_of_metadata-metadata :
      (header name symbol rest : List ℕ)
      → length header ≡ 65
      → length name < 2 ^ 32
      → length symbol < 2 ^ 32
      → is_utf8 symbol ≡ true
      → symbol_of_metadata is_utf8 (metadata header name symbol rest)
        ≡ some (ok (trim_end_nul symbol))
  unfolding symbol_of_metadata name_from symbol_from symbol_of_slice
  symbol_of_metadata-metadata header name symbol rest h nb sb utf8 =
      rw
        (
          enough 69 (omega arith),
          at_name,
          from_le_bytes-to_le_bytes (length name) nb,
          enough (65 + (4 + length name) + 4) (omega arith),
          at_symbol_len,
          from_le_bytes-to_le_bytes (length symbol) sb,
          enough (65 + (4 + length name) + 4 + length symbol) (omega arith),
          at_symbol,
          utf8,
        )
        refl
    where
      bytes : List ℕ
      bytes = metadata header name symbol rest

      total : length bytes ≡ 65 + (4 + (length name + (4 + (length symbol + length rest))))
      total = omega (
        arith,
        h,
        length-append header (
            to_le_bytes (length name)
            ++ (name ++ (to_le_bytes (length symbol) ++ (symbol ++ rest)))),
        length-append name (to_le_bytes (length symbol) ++ (symbol ++ rest)),
        length-append symbol rest,
      )

      enough :
          (n : ℕ)
          → n ≤ 65 + (4 + (length name + (4 + length symbol)))
          → ltb (length bytes) n ≡ false
      enough n k = ground (arith, total)

      at_name : slice bytes 65 69 ≡ some (to_le_bytes (length name))
      at_name = slice_middle header (to_le_bytes (length name)) _ 65 69 (sym h) (omega arith)

      -- What comes before the length of the symbol, and before the symbol.
      named : List ℕ
      named = header ++ (to_le_bytes (length name) ++ name)

      named_length : length named ≡ 65 + (4 + length name)
      named_length = omega (arith, h, length-append header (to_le_bytes (length name) ++ name))

      after_name : bytes ≡ named ++ (to_le_bytes (length symbol) ++ (symbol ++ rest))
      after_name = sym (
          append_assoc header (to_le_bytes (length name) ++ name)
            (to_le_bytes (length symbol) ++ (symbol ++ rest)))

      at_symbol_len :
          slice bytes (65 + (4 + length name)) (65 + (4 + length name) + 4)
          ≡ some (to_le_bytes (length symbol))
      at_symbol_len =
          ap (λ bs. slice bs (65 + (4 + length name)) (65 + (4 + length name) + 4)) after_name
          ∙ slice_middle named (to_le_bytes (length symbol)) (symbol ++ rest)
              (65 + (4 + length name)) (65 + (4 + length name) + 4) (sym named_length)
              (omega (arith, named_length))

      at_symbol :
          slice bytes (65 + (4 + length name) + 4) (65 + (4 + length name) + 4 + length symbol)
          ≡ some symbol
      at_symbol =
          ap
            (λ bs.
              slice bs (65 + (4 + length name) + 4) (65 + (4 + length name) + 4 + length symbol))
            (after_name ∙ sym (append_assoc named (to_le_bytes (length symbol)) (symbol ++ rest)))
          ∙ slice_middle (named ++ to_le_bytes (length symbol)) symbol rest
              (65 + (4 + length name) + 4) (65 + (4 + length name) + 4 + length symbol)
              (omega (arith, named_length, length-append named (to_le_bytes (length symbol))))
              (omega (arith, named_length, length-append named (to_le_bytes (length symbol))))
