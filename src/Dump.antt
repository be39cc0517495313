-- ===== src/Dump.antt =====
-- crates/seeder-publish/src/parser.rs: the addresses of the good nodes in dnsseed.dump. The file
-- is its text; that it cannot be opened or read is left to the caller.
pub mod Words
pub mod Addresses
use satoxcoin_seeder.Prelude.{
  ℕ, ◌+◌, ◌-◌, ◌^◌, Bool, true, false, not, ◌||◌, Option, none, some, List, [], ◌∷◌, ◌++◌, length,
  ltb, ◌==◌, if◌then◌else◌, eq_bytes,
}
use satoxcoin_seeder.Text.{
  trim, is_empty, starts_with, strip_prefix, split_first, split_last, contains_text, lines,
  split_whitespace, parse_unsigned,
}

-- The errors, with the text that they quote; `no_seeds` stands for an empty result.
pub data DumpError : Type 0 where
  invalid_port : List ℕ → DumpError
  invalid_ipv6 : List ℕ → DumpError
  bare_ipv6 : List ℕ → DumpError
  no_port : List ℕ → DumpError
  no_seeds : DumpError

pub data Result (A : Type 0) : Type 0 where
  ok : A → Result A
  err : DumpError → Result A
  panic : Result A

abbrev pub u16_max : ℕ
u16_max = 2 ^ 16 - 1

unfoldable pub with_port : List ℕ → List ℕ → Result (List ℕ × ℕ)
with_port ip port_str = elim (parse_unsigned 10 u16_max port_str) [
  | none ↦ err (invalid_port port_str)
  | some port ↦ ok (ip, port)
]

unfoldable pub after_bracket : List ℕ → List ℕ → List ℕ → Result (List ℕ × ℕ)
after_bracket input ip rest = elim (strip_prefix (b':' ∷ []) rest) [
  | none ↦ err (invalid_ipv6 input)
  | some port_str ↦ with_port ip port_str
]

-- `&input[1..bracket_end]`, given what stands before the bracket. It panics if that is nothing, or
-- if the first character has more than one byte.
unfoldable pub bracketed : List ℕ → List ℕ → List ℕ → Result (List ℕ × ℕ)
bracketed input [] rest = panic
bracketed input (c ∷ ip) rest = if ltb c 0x80 then after_bracket input ip rest else panic

unfoldable pub parse_ip : List ℕ → Result (List ℕ × ℕ)
parse_ip input = elim (split_first b']' input) [
  | some p ↦ bracketed input p.0 p.1
  | none ↦
      if contains_text (b':' ∷ b':' ∷ []) input
      then err (bare_ipv6 input)
      else elim (split_last b':' input) [ none ↦ err (no_port input) | some p ↦ with_port p.0 p.1 ]
]

-- The address of a line, if it counts.
abbrev pub if_port : ℕ → Result (List ℕ × ℕ) → Result (Option (List ℕ))
if_port valid_port (ok (ip, port)) = ok (if port == valid_port then some ip else none)
if_port valid_port (err e) = err e
if_port valid_port panic = panic

unfoldable pub read_words : ℕ → List (List ℕ) → Result (Option (List ℕ))
read_words valid_port [] = ok none
read_words valid_port (w ∷ []) = ok none
read_words valid_port (ip_port ∷ fgood ∷ rest) =
    if not (eq_bytes fgood (b'1' ∷ [])) then ok none else if_port valid_port (parse_ip ip_port)

unfoldable pub read_seed_line : ℕ → List ℕ → Result (Option (List ℕ))
read_seed_line valid_port line =
    if starts_with b'#' line || is_empty (trim line)
    then ok none
    else read_words valid_port (split_whitespace line)

abbrev pub push_some : Option (List ℕ) → Result (List (List ℕ)) → Result (List (List ℕ))
push_some none r = r
push_some (some ip) (ok ips) = ok (ip ∷ ips)
push_some (some ip) (err e) = err e
push_some (some ip) panic = panic

abbrev pub then_lines : Result (Option (List ℕ)) → Result (List (List ℕ)) → Result (List (List ℕ))
then_lines (ok o) r = push_some o r
then_lines (err e) r = err e
then_lines panic r = panic

unfoldable pub read_seed_lines : ℕ → List (List ℕ) → Result (List (List ℕ))
read_seed_lines valid_port [] = ok []
read_seed_lines valid_port (line ∷ rest) =
    then_lines (read_seed_line valid_port line) (read_seed_lines valid_port rest)

abbrev pub unless_none : Result (List (List ℕ)) → Result (List (List ℕ))
unless_none (ok []) = err no_seeds
unless_none (ok (ip ∷ ips)) = ok (ip ∷ ips)
unless_none (err e) = err e
unless_none panic = panic

unfoldable pub read_seed_dump : ℕ → List ℕ → Result (List (List ℕ))
read_seed_dump valid_port text = unless_none (read_seed_lines valid_port (lines text))
