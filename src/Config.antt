-- ===== src/Config.antt =====
-- crates/seeder-core/src/config.rs, `Config`: the configuration that is taken from the table of
-- the settings file.
pub mod Key
pub mod Values
pub mod Settings
pub mod Written
pub mod Fields
pub mod RoundTrip
mod Examples
use satoxcoin_seeder.Prelude.{
  ℕ, zero, suc, ◌+◌, ◌-◌, ◌^◌, Option, none, some, List, [], ◌∷◌, ◌++◌, ℤ,
}
use satoxcoin_seeder.Prelude.Dict.{get}
use satoxcoin_seeder.Text.{
  trim_quotes, strip_prefix, parse_unsigned, parse_signed, show_nat, show_int,
}
use satoxcoin_seeder.Toml.{
  Outcome, ok, err, panic, ◌>>=◌, missing, failed, invalid_hex, invalid_byte, Value, string,
  integer, float, boolean, table, Table, text_eq, from_str,
}
use satoxcoin_seeder.Config.Key

pub record Config : Type 0 where
  pub protocol_version : ℕ
  pub init_proto_version : ℕ
  pub min_peer_proto_version : ℕ
  pub caddr_time_version : ℕ
  pub pch_message_start : List ℕ
  pub wallet_port : ℕ
  pub explorer_url : Option (List ℕ)
  pub second_explorer_url : Option (List ℕ)
  pub explorer_requery_seconds : ℕ
  pub block_count : ℤ
  pub seeds : List (List ℕ)
  pub cf_domain : Option (List ℕ)
  pub cf_domain_prefix : Option (List ℕ)
  pub cf_api_token : Option (List ℕ)
  pub cf_seed_dump : Option (List ℕ)
  pub cf_own_ip : Option (List ℕ)
  pub cf_max_seeds : Option ℕ

abbrev pub as_text : Value → Option (List ℕ)
as_text (string s) = some s
as_text (integer n) = some (show_int n)
as_text (float t) = none
as_text (boolean b) = none
as_text (table e) = none

abbrev pub or_none : Option Value → Option (List ℕ)
or_none none = none
or_none (some v) = as_text v

unfoldable pub get_str_from_table : List ℕ → Table → Option (List ℕ)
get_str_from_table key entries = or_none (get key entries)

-- `parse_toml_int`, with the parser of the type.
unfoldable pub parse_toml_int : {A : Type 0} → (List ℕ → Option A) → List ℕ → Table → Outcome A
parse_toml_int parse key entries = elim (get_str_from_table key entries) [
  | none ↦ err (missing key)
  | some raw ↦ elim (parse (trim_quotes raw)) [ none ↦ err (failed key raw) | some n ↦ ok n ]
]

unfoldable pub parse_u8 : List ℕ → Option ℕ
parse_u8 t = parse_unsigned 10 (2 ^ 8 - 1) t

unfoldable pub parse_u16 : List ℕ → Option ℕ
parse_u16 t = parse_unsigned 10 (2 ^ 16 - 1) t

unfoldable pub parse_u32 : List ℕ → Option ℕ
parse_u32 t = parse_unsigned 10 (2 ^ 32 - 1) t

unfoldable pub parse_u64 : List ℕ → Option ℕ
parse_u64 t = parse_unsigned 10 (2 ^ 64 - 1) t

unfoldable pub parse_i32 : List ℕ → Option ℤ
parse_i32 t = parse_signed (2 ^ 31 - 1) t

abbrev pub or_else : {A : Type 0} → Option A → A → A
or_else none d = d
or_else (some a) d = a

-- The number under a key that may be missing, empty or wrong.
unfoldable pub number_or : (List ℕ → Option ℕ) → ℕ → Option (List ℕ) → ℕ
number_or parse d none = d
number_or parse d (some raw) = or_else (parse (trim_quotes raw)) d

-- The text under a key, unless it is empty.
abbrev pub unless_empty : List ℕ → Option (List ℕ)
unless_empty [] = none
unless_empty (c ∷ cs) = some (c ∷ cs)

unfoldable pub filled : Option (List ℕ) → Option (List ℕ)
filled none = none
filled (some raw) = unless_empty (trim_quotes raw)

-- One byte of the magic.
unfoldable pub byte_of_hex : List ℕ → List ℕ → Outcome ℕ
byte_of_hex trimmed hex = elim (parse_unsigned 16 (2 ^ 8 - 1) hex) [
  | none ↦ err (invalid_hex trimmed)
  | some n ↦ ok n
]

unfoldable pub message_byte : List ℕ → Outcome ℕ
message_byte trimmed = elim (strip_prefix (b'0' ∷ b'x' ∷ []) trimmed) [
  | some hex ↦ byte_of_hex trimmed hex
  | none ↦ elim (strip_prefix (b'0' ∷ b'X' ∷ []) trimmed) [
    | some hex ↦ byte_of_hex trimmed hex
    | none ↦ elim (parse_u8 trimmed) [ none ↦ err (invalid_byte trimmed) | some n ↦ ok n ]
  ]
]

-- The bytes of the magic under the keys from number `i` on.
unfoldable pub message_start : ℕ → ℕ → Table → Outcome (List ℕ)
message_start zero i entries = ok []
message_start (suc n) i entries =
    let key = Key.message_start_prefix ++ show_nat i in
    elim (get_str_from_table key entries) [
      | none ↦ err (missing key)
      | some raw ↦ message_byte (trim_quotes raw) >>= λ b.
          message_start n (i + 1) entries >>= λ bs. ok (b ∷ bs)
    ]

unfoldable pub onto : Option (List ℕ) → List (List ℕ) → List (List ℕ)
onto none ts = ts
onto (some t) ts = t ∷ ts

unfoldable pub seeds_from : ℕ → ℕ → Table → List (List ℕ)
seeds_from zero i entries = []
seeds_from (suc n) i entries =
    onto (filled (get_str_from_table (Key.seed_prefix ++ show_nat i) entries))
      (seeds_from n (i + 1) entries)

-- The token under `cf_api_key`, or under `cf_api_token`.
abbrev pub first_of_two : Option (List ℕ) → Option (List ℕ) → Option (List ℕ)
first_of_two none t = t
first_of_two (some t) u = some t

unfoldable pub from_table : Table → Outcome Config
from_table t = parse_toml_int parse_u32 Key.protocol_version t >>= λ protocol_version.
    parse_toml_int parse_u32 Key.init_proto_version t >>= λ init_proto_version.
    parse_toml_int parse_u32 Key.min_peer_proto_version t >>= λ min_peer_proto_version.
    message_start 4 0 t >>= λ pch_message_start.
    parse_toml_int parse_u16 Key.wallet_port t >>= λ wallet_port.
    parse_toml_int parse_i32 Key.block_count t >>= λ block_count. ok (record {
      protocol_version = protocol_version;
      init_proto_version = init_proto_version;
      min_peer_proto_version = min_peer_proto_version;
      caddr_time_version = number_or parse_u32 0 (get_str_from_table Key.caddr_time_version t);
      pch_message_start = pch_message_start;
      wallet_port = wallet_port;
      explorer_url = filled (get_str_from_table Key.explorer_url t);
      second_explorer_url = filled (get_str_from_table Key.second_explorer_url t);
      explorer_requery_seconds =
          number_or parse_u64 60 (get_str_from_table Key.explorer_requery_seconds t);
      block_count = block_count;
      seeds = seeds_from 10 1 t;
      cf_domain = filled (get_str_from_table Key.cf_domain t);
      cf_domain_prefix = filled (get_str_from_table Key.cf_domain_prefix t);
      cf_api_token = filled (
          first_of_two (get_str_from_table Key.cf_api_key t)
            (get_str_from_table Key.cf_api_token t));
      cf_seed_dump = filled (get_str_from_table Key.cf_seed_dump t);
      cf_own_ip = filled (get_str_from_table Key.cf_own_ip t);
      cf_max_seeds = some 25;
    })

-- `Config::parse`
unfoldable pub parse : List ℕ → Outcome Config
parse input = from_str input >>= λ entries. from_table entries
