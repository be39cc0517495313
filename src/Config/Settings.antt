-- ===== src/Config/Settings.antt =====
-- A number in the settings file, written in quotes, is the number of the configuration.
use satoxcoin_seeder.Prelude.{
  ℕ, Bool, ◌≤◌, ◌≡◌, ◌≢◌, refl, ap, ◌∙◌, false, some, List, [], ◌∷◌, All, All-imp, arith,
}
use satoxcoin_seeder.Prelude.Dict.{insert, get-insert, beq_self}
use satoxcoin_seeder.Text.{
  trim, trim_quotes, trim_matches, trim_start, trim_end, is_whitespace, is_quote, show_nat,
  parse_unsigned,
}
use satoxcoin_seeder.Text.Numbers.{show_nat-IsDigit, parse_unsigned-show_nat}
use satoxcoin_seeder.Text.Pieces.{trim_start_kept, trim_end-All}
use satoxcoin_seeder.Toml.{ok, string, Table, text_eq, read_line}
use satoxcoin_seeder.Toml.Quoted.{IsKeyChar, quoted, read_line-quoted}
use satoxcoin_seeder.Config.{get_str_from_table, parse_toml_int}

-- Nothing to trim.
pub trim_matches-All : (p : ℕ → Bool) (t : List ℕ) → All (λ c. p c ≡ false) t → trim_matches p t ≡ t
unfolding trim_matches trim_start trim_end
trim_matches-All p [] h = refl
trim_matches-All p (c ∷ cs) h =
    ap (trim_end p) (trim_start_kept p c cs h.0) ∙ trim_end-All p (c ∷ cs) h

pub digits_stay :
    (n : ℕ) → (trim (show_nat n) ≡ show_nat n) × (trim_quotes (show_nat n) ≡ show_nat n)
unfolding trim trim_quotes
digits_stay n = (
  trim_matches-All is_whitespace (show_nat n)
      (All-imp (λ c d. ground (arith, d)) (show_nat n) (show_nat-IsDigit n)),
  trim_matches-All is_quote (show_nat n)
      (All-imp (λ c d. ground (arith, d)) (show_nat n) (show_nat-IsDigit n)),
)

stored :
    (key raw : List ℕ) (entries : Table)
    → get_str_from_table key (insert key (string raw) entries) ≡ some raw
unfolding get_str_from_table
stored key raw entries =
    rw (get-insert key key (string raw) entries, beq_self key, get_str_from_table) refl

-- A number that fits its type is read back from the line that gives it in quotes, whatever comment
-- without quotes stands behind it and whatever lines came before.
pub parse_toml_int-quoted :
    (top n c : ℕ) (cs comment : List ℕ) (entries : Table)
    → n ≤ top
    → All IsKeyChar (c ∷ cs)
    → All (λ x. x ≢ b'"') comment
    → (after : Table) × (read_line (quoted (c ∷ cs) (show_nat n) comment) entries ≡ ok after)
      × (parse_toml_int (parse_unsigned 10 top) (c ∷ cs) after ≡ ok n)
unfolding parse_toml_int
parse_toml_int-quoted top n c cs comment entries h key unquoted =
    let after = insert (c ∷ cs) (string (show_nat n)) entries in
    let (trimmed, unquoted_digits) = digits_stay n in
    let (number, _) = parse_unsigned-show_nat top n h in
    (
      after,
      read_line-quoted c cs (show_nat n) comment key entries unquoted
          ∙ ap (λ v. ok (insert (c ∷ cs) (string v) entries)) trimmed,
      rw (stored (c ∷ cs) (show_nat n) entries, parse_toml_int, unquoted_digits, number) refl,
    )
