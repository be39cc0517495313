-- ===== src/Toml/Quoted.antt =====
-- A setting that is written in quotes is read back.
use satoxcoin_seeder.Prelude.{
  ℕ, ◌≤◌, ◌≡◌, ◌≢◌, refl, sym, ap, ◌∙◌, false, some, List, [], ◌∷◌, ◌++◌, All, All-append,
  append_assoc, arith,
}
use satoxcoin_seeder.Prelude.Dict.{insert}
use satoxcoin_seeder.Text.{
  is_whitespace, strip_prefix, trim, trim_start, trim_end, trim_matches, split_first,
}
use satoxcoin_seeder.Text.Pieces.{
  split_first_here, split_last_here, trim_start_kept, trim_end-append_kept, trim_end-append_dropped,
  trim_end-All, All-trim_end,
}
use satoxcoin_seeder.Toml.{
  ok, string, Table, text_eq, is_comment, inner_text, read_quoted, read_value, read_line,
}

-- The characters of a key: from '0' to 'z', but for the equals sign.
abbrev pub IsKeyChar : ℕ → Type 0
IsKeyChar c = (b'0' ≤ c) × (c ≤ b'z') × (c ≢ b'=')

-- `key = "value"` and what follows the last quote.
abbrev pub quoted : List ℕ → List ℕ → List ℕ → List ℕ
quoted key value comment = key ++ (b' ' ∷ b'=' ∷ b' ' ∷ b'"' ∷ (value ++ (b'"' ∷ comment)))

visible : (c : ℕ) → IsKeyChar c → is_whitespace c ≡ false
visible c h = ground arith

All-visible : (t : List ℕ) → All IsKeyChar t → All (λ c. is_whitespace c ≡ false) t
All-visible [] h = tt
All-visible (c ∷ cs) (h, k) = (visible c h, All-visible cs k)

no_equals : (t : List ℕ) → All IsKeyChar t → All (λ c. c ≢ b'=') t
no_equals [] h = tt
no_equals (c ∷ cs) (h, k) = (h.2, no_equals cs k)

module _ (c : ℕ) (cs value comment : List ℕ) (h : All IsKeyChar (c ∷ cs)) where
  rest : List ℕ
  rest = trim_end is_whitespace comment

  trim-quoted : trim (quoted (c ∷ cs) value comment) ≡ quoted (c ∷ cs) value rest
  unfolding trim trim_matches rest
  trim-quoted =
      let front = (c ∷ cs) ++ (b' ' ∷ b'=' ∷ b' ' ∷ b'"' ∷ value) in
      let split : (t : List ℕ) → quoted (c ∷ cs) value t ≡ front ++ (b'"' ∷ t) =
        λ t. sym (append_assoc (c ∷ cs) (b' ' ∷ b'=' ∷ b' ' ∷ b'"' ∷ value) (b'"' ∷ t)) in
      ap (trim_end is_whitespace) (
        trim_start_kept is_whitespace c
          (cs ++ (b' ' ∷ b'=' ∷ b' ' ∷ b'"' ∷ (value ++ (b'"' ∷ comment)))) (visible c h.0))
      ∙ ap (trim_end is_whitespace) (split comment)
      ∙ trim_end-append_kept is_whitespace front comment b'"' refl
      ∙ sym (split (trim_end is_whitespace comment))

  no_comment : is_comment (quoted (c ∷ cs) value rest) ≡ false
  unfolding strip_prefix
  no_comment = ground (arith, h.0)

  split-quoted :
      split_first b'=' (quoted (c ∷ cs) value rest)
      ≡ some ((c ∷ cs) ++ (b' ' ∷ []), b' ' ∷ b'"' ∷ (value ++ (b'"' ∷ rest)))
  split-quoted =
      let behind = b' ' ∷ b'"' ∷ (value ++ (b'"' ∷ rest)) in
      ap (split_first b'=') (sym (append_assoc (c ∷ cs) (b' ' ∷ []) (b'=' ∷ behind)))
      ∙ split_first_here b'=' ((c ∷ cs) ++ (b' ' ∷ [])) behind
          (All-append (λ x. x ≢ b'=') (c ∷ cs) (b' ' ∷ []) (no_equals (c ∷ cs) h) (omega arith, tt))

  trim-key : trim ((c ∷ cs) ++ (b' ' ∷ [])) ≡ c ∷ cs
  unfolding trim trim_matches
  trim-key =
      ap (trim_end is_whitespace)
        (trim_start_kept is_whitespace c (cs ++ (b' ' ∷ [])) (visible c h.0))
      ∙ trim_end-append_dropped is_whitespace (c ∷ cs) b' ' refl
      ∙ trim_end-All is_whitespace (c ∷ cs) (All-visible (c ∷ cs) h)

  trim-value :
      trim (b' ' ∷ b'"' ∷ (value ++ (b'"' ∷ rest)))
      ≡ (b'"' ∷ value) ++ (b'"' ∷ trim_end is_whitespace rest)
  unfolding trim trim_matches trim_start
  trim-value = trim_end-append_kept is_whitespace (b'"' ∷ value) rest b'"' refl

  -- A value in quotes is read back without the white space at its ends, whatever it holds, slashes,
  -- hashes and quotes included. It ends at the last quote of the line, so that what follows, a comment,
  -- is dropped only if it holds no quote; otherwise the value goes on to that quote.
  pub read_line-quoted :
      (entries : Table)
      → All (λ x. x ≢ b'"') comment
      → read_line (quoted (c ∷ cs) value comment) entries
        ≡ ok (insert (c ∷ cs) (string (trim value)) entries)
  unfolding read_line read_value read_quoted inner_text
  read_line-quoted entries k =
      let unquoted =
        All-trim_end is_whitespace (λ x. x ≢ b'"') rest
          (unfold rest in All-trim_end is_whitespace (λ x. x ≢ b'"') comment k) in
      rw
        (
          trim-quoted,
          no_comment,
          split-quoted,
          read_line,
          trim-key,
          trim-value,
          read_value,
          split_last_here b'"' (b'"' ∷ value) (trim_end is_whitespace rest) unquoted,
          read_quoted,
          inner_text,
        )
        refl
