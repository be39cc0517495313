-- ===== src/Toml.antt =====
-- crates/seeder-core/src/config.rs, `toml`: the reader of the settings file. Texts are lists of
-- characters.
pub mod Reader
pub mod Quoted
mod Examples
use satoxcoin_seeder.Prelude.{
  ℕ, zero, suc, ◌+◌, ◌-◌, ◌^◌, Bool, true, false, not, ◌&&◌, ◌||◌, Option, none, some, List, [],
  ◌∷◌, ◌++◌, ◌==◌, if◌then◌else◌, eq_bytes, eq_bytes_iff, leb, ℤ, ◌≡◌, ◌↔◌, Eq,
}
use satoxcoin_seeder.Prelude.Dict.{get, insert}
use satoxcoin_seeder.Text.{
  trim, trim_quotes, trim_matches, is_quote, is_empty, starts_with, begins, strip_prefix,
  split_first, split_last, before, lines, parse_unsigned, parse_signed, show_nat, show_int,
}

instance abbrev pub text_eq : Eq (List ℕ)
text_eq = record { beq = eq_bytes; beq_iff = eq_bytes_iff }

-- The message of an error: the key that is missing or whose value does not parse, or the value.
pub data ConfigError : Type 0 where
  missing : List ℕ → ConfigError
  failed : List ℕ → List ℕ → ConfigError
  invalid_hex : List ℕ → ConfigError
  invalid_byte : List ℕ → ConfigError
  unclosed : List ℕ → ConfigError

-- The result of a function that may also panic.
pub data Outcome (A : Type 0) : Type 0 where
  ok : A → Outcome A
  err : ConfigError → Outcome A
  panic : Outcome A

infixl 5 ◌>>=◌
abbrev pub ◌>>=◌ : {A B : Type 0} → Outcome A → (A → Outcome B) → Outcome B
ok a >>= k = k a
err e >>= k = err e
panic >>= k = panic

-- `toml::Value`. No function makes a `table`, and none reads the number of a `float`, which is
-- kept as its text.
mutual
  pub data Value : Type 0 where
    string : List ℕ → Value
    integer : ℤ → Value
    float : List ℕ → Value
    boolean : Bool → Value
    table : Entries → Value

  pub data Entries : Type 0 where
    nil : Entries
    entry : List ℕ → Value → Entries → Entries

abbrev pub i64_max : ℕ
i64_max = 2 ^ 63 - 1

-- The texts that `parse::<f64>` takes.
abbrev pub lower : ℕ → ℕ
lower c = if leb b'A' c && leb c b'Z' then c + 32 else c

unfoldable pub lowercase : List ℕ → List ℕ
lowercase [] = []
lowercase (c ∷ cs) = lower c ∷ lowercase cs

abbrev pub is_digit : ℕ → Bool
is_digit c = leb b'0' c && leb c b'9'

unfoldable pub skip_digits : List ℕ → List ℕ
skip_digits [] = []
skip_digits (c ∷ cs) = let rest = skip_digits cs in if is_digit c then rest else c ∷ cs

abbrev pub has_digit : List ℕ → Bool
has_digit [] = false
has_digit (c ∷ cs) = is_digit c

abbrev pub skip_sign : List ℕ → List ℕ
skip_sign [] = []
skip_sign (c ∷ cs) = if c == b'+' || c == b'-' then cs else c ∷ cs

-- The exponent, or nothing, up to the end.
unfoldable pub is_exponent : List ℕ → Bool
is_exponent [] = true
is_exponent (c ∷ cs) =
    let t = skip_sign cs in lower c == b'e' && has_digit t && is_empty (skip_digits t)

-- What follows the digits before a point; the flag tells that there were some.
unfoldable pub is_fraction : Bool → List ℕ → Bool
is_fraction whole [] = whole
is_fraction whole (c ∷ cs) =
    if c == b'.'
    then (whole || has_digit cs) && is_exponent (skip_digits cs)
    else whole && is_exponent (c ∷ cs)

unfoldable pub is_float : List ℕ → Bool
is_float t =
    let u = skip_sign t in
    let w = lowercase u in
    eq_bytes w (b'i' ∷ b'n' ∷ b'f' ∷ [])
    || eq_bytes w (b'i' ∷ b'n' ∷ b'f' ∷ b'i' ∷ b'n' ∷ b'i' ∷ b't' ∷ b'y' ∷ [])
    || eq_bytes w (b'n' ∷ b'a' ∷ b'n' ∷ [])
    || is_fraction (has_digit u) (skip_digits u)

abbrev pub true_text : List ℕ
true_text = b't' ∷ b'r' ∷ b'u' ∷ b'e' ∷ []

abbrev pub false_text : List ℕ
false_text = b'f' ∷ b'a' ∷ b'l' ∷ b's' ∷ b'e' ∷ []

abbrev pub slashes : List ℕ
slashes = b'/' ∷ b'/' ∷ []

abbrev pub is_hex : List ℕ → Bool
is_hex t = begins (b'0' ∷ b'x' ∷ []) t || begins (b'0' ∷ b'X' ∷ []) t

-- `value_part[1..end]`, given what stands before `end`.
unfoldable pub inner_text : List ℕ → Outcome Value
inner_text [] = panic
inner_text (c ∷ inner) = ok (string (trim inner))

-- A value that begins with a quote: up to the last quote of the line.
unfoldable pub read_quoted : List ℕ → List ℕ → Outcome Value
read_quoted trimmed value = elim (split_last b'"' value) [
  | none ↦ err (unclosed trimmed)
  | some p ↦ inner_text p.0
]

-- One without a quote or 0x.
unfoldable pub read_plain : List ℕ → Value
read_plain value = elim (parse_signed i64_max value) [
  | some n ↦ integer n
  | none ↦
      if is_float value
      then float value
      else if eq_bytes value true_text
      then boolean true
      else if eq_bytes value false_text
      then boolean false
      else string (trim (before (b'#' ∷ []) (before slashes value)))
]

unfoldable pub read_value : List ℕ → List ℕ → Outcome Value
read_value trimmed value =
    if starts_with b'"' value
    then read_quoted trimmed value
    else if is_hex value
    then ok (string value)
    else ok (read_plain value)

abbrev pub is_comment : List ℕ → Bool
is_comment t = is_empty t || starts_with b'#' t || begins slashes t

-- One line of the file, into the table.
unfoldable pub read_line : List ℕ → List (List ℕ × Value) → Outcome (List (List ℕ × Value))
read_line line entries =
    let trimmed = trim line in
    if is_comment trimmed then ok entries else elim (split_first b'=' trimmed) [
      | none ↦ ok entries
      | some p ↦ read_value trimmed (trim p.1) >>= λ value. ok (insert (trim p.0) value entries)
    ]

unfoldable pub read_lines : List (List ℕ) → List (List ℕ × Value) → Outcome (List (List ℕ × Value))
read_lines [] entries = ok entries
read_lines (line ∷ rest) entries = read_line line entries >>= λ t. read_lines rest t

unfoldable pub from_str : List ℕ → Outcome (List (List ℕ × Value))
from_str input = read_lines (lines input) []

abbrev pub Table : Type 0
Table = List (List ℕ × Value)
