-- ===== src/Config/Examples.antt =====
-- A settings file with the keys that are required, and a seed.
use satoxcoin_seeder.Prelude.{ℕ, ◌≡◌, refl, none, some, List, [], ◌∷◌, pos, arith, ◌-◌, ◌^◌}
use satoxcoin_seeder.Prelude.Dict.{get, insert}
use satoxcoin_seeder.Text.{
  parse_unsigned, show_nat, lines, trim, trim_quotes, trim_matches, trim_end, trim_start,
  strip_prefix, split_first, split_last, before, parse_signed, read_number, read_digits, digit_in,
  digit_of, digits, show_int,
}
use satoxcoin_seeder.Toml.{
  Table, ok, read_line, from_str, read_lines, read_value, read_quoted, inner_text, read_plain,
  is_float, is_fraction, lowercase, skip_digits, is_exponent,
}
use satoxcoin_seeder.Toml.Quoted.{quoted}
use satoxcoin_seeder.Config.{
  Config, parse, parse_toml_int, from_table, get_str_from_table, parse_u8, parse_u16, parse_u32,
  parse_u64, parse_i32, message_start, message_byte, byte_of_hex, number_or, filled, seeds_from,
  onto,
}
use satoxcoin_seeder.Config.Values.{parse-IsConfig}
use satoxcoin_seeder.Config.Written.{text_of, settings_of}
use satoxcoin_seeder.Config.Fields.{IsWritable}
use satoxcoin_seeder.Config.RoundTrip.{parse-text_of}
use satoxcoin_seeder.Config.Settings.{parse_toml_int-quoted}

abbrev settings : List ℕ
settings =
    b'p' ∷ b'r' ∷ b'o' ∷ b't' ∷ b'o' ∷ b'c' ∷ b'o' ∷ b'l' ∷ b'_' ∷ b'v' ∷ b'e' ∷ b'r' ∷ b's' ∷ b'i'
    ∷ b'o' ∷ b'n' ∷ b'=' ∷ b'7' ∷ b'0' ∷ b'0' ∷ b'1' ∷ b'6' ∷ b'\n' ∷ b'i' ∷ b'n' ∷ b'i' ∷ b't'
    ∷ b'_' ∷ b'p' ∷ b'r' ∷ b'o' ∷ b't' ∷ b'o' ∷ b'_' ∷ b'v' ∷ b'e' ∷ b'r' ∷ b's' ∷ b'i' ∷ b'o'
    ∷ b'n' ∷ b'=' ∷ b'2' ∷ b'0' ∷ b'9' ∷ b'\n' ∷ b'm' ∷ b'i' ∷ b'n' ∷ b'_' ∷ b'p' ∷ b'e' ∷ b'e'
    ∷ b'r' ∷ b'_' ∷ b'p' ∷ b'r' ∷ b'o' ∷ b't' ∷ b'o' ∷ b'_' ∷ b'v' ∷ b'e' ∷ b'r' ∷ b's' ∷ b'i'
    ∷ b'o' ∷ b'n' ∷ b'=' ∷ b'7' ∷ b'0' ∷ b'0' ∷ b'0' ∷ b'0' ∷ b'\n' ∷ b'p' ∷ b'c' ∷ b'h' ∷ b'M'
    ∷ b'e' ∷ b's' ∷ b's' ∷ b'a' ∷ b'g' ∷ b'e' ∷ b'S' ∷ b't' ∷ b'a' ∷ b'r' ∷ b't' ∷ b'_' ∷ b'0'
    ∷ b'=' ∷ b'0' ∷ b'x' ∷ b'f' ∷ b'9' ∷ b'\n' ∷ b'p' ∷ b'c' ∷ b'h' ∷ b'M' ∷ b'e' ∷ b's' ∷ b's'
    ∷ b'a' ∷ b'g' ∷ b'e' ∷ b'S' ∷ b't' ∷ b'a' ∷ b'r' ∷ b't' ∷ b'_' ∷ b'1' ∷ b'=' ∷ b'1' ∷ b'9'
    ∷ b'0' ∷ b'\n' ∷ b'p' ∷ b'c' ∷ b'h' ∷ b'M' ∷ b'e' ∷ b's' ∷ b's' ∷ b'a' ∷ b'g' ∷ b'e' ∷ b'S'
    ∷ b't' ∷ b'a' ∷ b'r' ∷ b't' ∷ b'_' ∷ b'2' ∷ b'=' ∷ b'"' ∷ b'0' ∷ b'x' ∷ b'b' ∷ b'4' ∷ b'"'
    ∷ b'\n' ∷ b'p' ∷ b'c' ∷ b'h' ∷ b'M' ∷ b'e' ∷ b's' ∷ b's' ∷ b'a' ∷ b'g' ∷ b'e' ∷ b'S' ∷ b't'
    ∷ b'a' ∷ b'r' ∷ b't' ∷ b'_' ∷ b'3' ∷ b'=' ∷ b'2' ∷ b'1' ∷ b'7' ∷ b'\n' ∷ b'w' ∷ b'a' ∷ b'l'
    ∷ b'l' ∷ b'e' ∷ b't' ∷ b'_' ∷ b'p' ∷ b'o' ∷ b'r' ∷ b't' ∷ b'=' ∷ b'6' ∷ b'0' ∷ b'7' ∷ b'7'
    ∷ b'7' ∷ b'\n' ∷ b'b' ∷ b'l' ∷ b'o' ∷ b'c' ∷ b'k' ∷ b'_' ∷ b'c' ∷ b'o' ∷ b'u' ∷ b'n' ∷ b't'
    ∷ b'=' ∷ b'1' ∷ b'\n' ∷ b's' ∷ b'e' ∷ b'e' ∷ b'd' ∷ b'_' ∷ b'1' ∷ b'=' ∷ b'"' ∷ b'a' ∷ b'"'
    ∷ b'\n' ∷ []

abbrev config : Config
config = record {
  protocol_version = 70016;
  init_proto_version = 209;
  min_peer_proto_version = 70000;
  caddr_time_version = 0;
  pch_message_start = 0xf9 ∷ 190 ∷ 0xb4 ∷ 217 ∷ [];
  wallet_port = 60777;
  explorer_url = none;
  second_explorer_url = none;
  explorer_requery_seconds = 60;
  block_count = pos 1;
  seeds = (b'a' ∷ []) ∷ [];
  cf_domain = none;
  cf_domain_prefix = none;
  cf_api_token = none;
  cf_seed_dump = none;
  cf_own_ip = none;
  cf_max_seeds = some 25;
}

parsed : parse settings ≡ ok config
unfolding parse from_str read_lines lines read_line trim trim_quotes trim_matches trim_end
    trim_start strip_prefix split_first split_last read_value read_quoted inner_text read_plain
    before is_float is_fraction lowercase skip_digits is_exponent insert get from_table
    parse_toml_int get_str_from_table parse_u8 parse_u16 parse_u32 parse_u64 parse_i32
    parse_unsigned parse_signed read_number read_digits digit_in digit_of message_start message_byte
    byte_of_hex show_nat digits show_int number_or filled seeds_from onto
parsed = refl

config-IsWritable : IsWritable config
unfolding trim trim_quotes trim_matches trim_end trim_start
config-IsWritable = record {
  config = parse-IsConfig settings config parsed;
  seed_texts = (((λ e. absurd (cc)), refl, refl, ((λ e. omega (arith, e)), tt)), tt);
  explorer = tt;
  second_explorer = tt;
  domain = tt;
  domain_prefix = tt;
  token = tt;
  seed_dump = tt;
  own = tt;
}

parse-text_of_example : parse (text_of (settings_of config)) ≡ ok config
parse-text_of_example = parse-text_of config config-IsWritable

parse_toml_int-quoted_example :
    (after : Table) × (read_line (quoted (b'k' ∷ []) (show_nat 25) []) [] ≡ ok after)
    × (parse_toml_int (parse_unsigned 10 (2 ^ 16 - 1)) (b'k' ∷ []) after ≡ ok 25)
parse_toml_int-quoted_example =
    parse_toml_int-quoted (2 ^ 16 - 1) 25 b'k' [] [] [] (omega arith) (ground arith) tt
