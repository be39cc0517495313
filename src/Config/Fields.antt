-- ===== src/Config/Fields.antt =====
-- What the table of a written settings file holds under each key, and how it reads.
use satoxcoin_seeder.Prelude.{
  IsI32, ℕ, suc, ◌-◌, ◌^◌, ◌≤◌, ◌<◌, ◌≡◌, refl, ap, ◌∙◌, Bool, true, false, none, some, List, [],
  ◌∷◌, ◌++◌, get_or, All, All-imp, arith, ℤ, pos, negsuc,
}
use satoxcoin_seeder.Prelude.Dict.{get, insert}
use satoxcoin_seeder.Text.{
  trim, trim_quotes, is_whitespace, is_quote, show_nat, show_int, digits, strip_prefix,
  parse_unsigned, parse_signed,
}
use satoxcoin_seeder.Text.Numbers.{
  IsDigit, show_nat-IsDigit, parse_unsigned-show_nat, parse_signed-show_int,
}
use satoxcoin_seeder.Toml.{ok, Table, text_eq}
use satoxcoin_seeder.Config.{
  Config, get_str_from_table, parse_u8, parse_u16, parse_u32, parse_u64, parse_i32, message_byte,
}
use satoxcoin_seeder.Config.Key
use satoxcoin_seeder.Config.Settings.{digits_stay, trim_matches-All}
use satoxcoin_seeder.Config.Values.{IsConfig}
use satoxcoin_seeder.Config.Written.{
  is_key, table_of, IsSetting, IsValue, IsText, IsTextIf, or_empty, seed_at, settings_of,
  show_nat-IsValue, or_empty-IsValue, seed_at-IsValue,
}

no_prefix :
    (x : ℕ) (t : List ℕ) → (b'9' < x) → All IsDigit t → strip_prefix (b'0' ∷ x ∷ []) t ≡ none
unfolding strip_prefix
no_prefix x [] h k = refl
no_prefix x (c ∷ []) h k = ground arith
no_prefix x (c ∷ d ∷ t) h k = ground (arith, k.1.0)

-- A byte of the magic in decimal digits.
pub message_byte-show_nat : (n : ℕ) → n < 2 ^ 8 → message_byte (trim_quotes (show_nat n)) ≡ ok n
unfolding parse_u8 message_byte
message_byte-show_nat n h =
    let t = show_nat n in
    let d = show_nat-IsDigit n in
    ap message_byte (digits_stay n).1
    ∙ rw
        (
          no_prefix b'x' t (omega arith) d,
          message_byte,
          no_prefix b'X' t (omega arith) d,
          (parse_unsigned-show_nat (2 ^ 8 - 1) n (omega (arith, h))).0,
        )
        refl

int_stays : (a : ℤ) → IsValue (show_int a) × (trim_quotes (show_int a) ≡ show_int a)
unfolding show_int
int_stays (pos n) = (show_nat-IsValue n, (digits_stay n).1)
int_stays (negsuc n) =
    let d = show_nat-IsDigit (suc n) in
    let t = b'-' ∷ show_nat (suc n) in
    let plain : (p : ℕ → Bool)
        → ((c : ℕ) → IsDigit c → p c ≡ false)
        → p b'-' ≡ false
        → All (λ c. p c ≡ false) t =
      λ p h k. (k, All-imp h (show_nat (suc n)) d) in
    (
      (
        unfold trim in
            trim_matches-All is_whitespace t (plain is_whitespace (λ c h. ground (arith, h)) refl),
        ((λ e. omega (arith, e)), (show_nat-IsValue (suc n)).1),
      ),
      unfold trim_quotes in
          trim_matches-All is_quote t (plain is_quote (λ c h. ground (arith, h)) refl),
    )

unsigned_again : (top n : ℕ) → n ≤ top → parse_unsigned 10 top (trim_quotes (show_nat n)) ≡ some n
unsigned_again top n h =
    ap (parse_unsigned 10 top) (digits_stay n).1 ∙ (parse_unsigned-show_nat top n h).0

pub u16_again : (n : ℕ) → n < 2 ^ 16 → parse_u16 (trim_quotes (show_nat n)) ≡ some n
unfolding parse_u16
u16_again n h = unsigned_again (2 ^ 16 - 1) n (omega (arith, h))

pub u32_again : (n : ℕ) → n < 2 ^ 32 → parse_u32 (trim_quotes (show_nat n)) ≡ some n
unfolding parse_u32
u32_again n h = unsigned_again (2 ^ 32 - 1) n (omega (arith, h))

pub u64_again : (n : ℕ) → n < 2 ^ 64 → parse_u64 (trim_quotes (show_nat n)) ≡ some n
unfolding parse_u64
u64_again n h = unsigned_again (2 ^ 64 - 1) n (omega (arith, h))

pub i32_again : (a : ℤ) → IsI32 a → parse_i32 (trim_quotes (show_int a)) ≡ some a
unfolding parse_i32
i32_again a h =
    ap (parse_signed (2 ^ 31 - 1)) (int_stays a).1
    ∙ parse_signed-show_int (2 ^ 31 - 1) a (omega (arith, h.0), omega (arith, h.1))

-- Texts that are read back as they stand, and a configuration that could have been read.
pub record IsWritable (c : Config) : Type 0 where
  pub config : IsConfig c
  pub seed_texts : All IsText c.seeds
  pub explorer : IsTextIf c.explorer_url
  pub second_explorer : IsTextIf c.second_explorer_url
  pub domain : IsTextIf c.cf_domain
  pub domain_prefix : IsTextIf c.cf_domain_prefix
  pub token : IsTextIf c.cf_api_token
  pub seed_dump : IsTextIf c.cf_seed_dump
  pub own : IsTextIf c.cf_own_ip

item : (x : ℕ) (t value : List ℕ) → is_key (x ∷ t) ≡ true → IsValue value → IsSetting (x ∷ t, value)
item x t value k v = (k, (λ e. absurd (cc)), v)

infixr 30 ◌&◌
◌&◌ : {A B : Type 0} → A → B → A × B
a & b = (a, b)

pub settings_of-All : (c : Config) → IsWritable c → All IsSetting (settings_of c)
unfolding settings_of
settings_of-All c h =
    let number = show_nat-IsValue in
    let text = or_empty-IsValue in
    let seed : (k : ℕ) → IsValue (seed_at k c.seeds) =
      λ k. seed_at-IsValue k c.seeds h.seed_texts in
    item _ _ _ refl (number c.protocol_version)
    & item _ _ _ refl (number c.init_proto_version)
    & item _ _ _ refl (number c.min_peer_proto_version)
    & item _ _ _ refl (number c.caddr_time_version)
    & item _ _ _ refl (number (get_or c.pch_message_start 0 0))
    & item _ _ _ refl (number (get_or c.pch_message_start 1 0))
    & item _ _ _ refl (number (get_or c.pch_message_start 2 0))
    & item _ _ _ refl (number (get_or c.pch_message_start 3 0))
    & item _ _ _ refl (number c.wallet_port)
    & item _ _ _ refl (text c.explorer_url h.explorer)
    & item _ _ _ refl (text c.second_explorer_url h.second_explorer)
    & item _ _ _ refl (number c.explorer_requery_seconds)
    & item _ _ _ refl (int_stays c.block_count).0
    & item _ _ _ refl (seed 0)
    & item _ _ _ refl (seed 1)
    & item _ _ _ refl (seed 2)
    & item _ _ _ refl (seed 3)
    & item _ _ _ refl (seed 4)
    & item _ _ _ refl (seed 5)
    & item _ _ _ refl (seed 6)
    & item _ _ _ refl (seed 7)
    & item _ _ _ refl (seed 8)
    & item _ _ _ refl (seed 9)
    & item _ _ _ refl (text c.cf_domain h.domain)
    & item _ _ _ refl (text c.cf_domain_prefix h.domain_prefix)
    & item _ _ _ refl (text c.cf_api_token h.token)
    & item _ _ _ refl (text c.cf_seed_dump h.seed_dump)
    & item _ _ _ refl (text c.cf_own_ip h.own)
    & tt

module _ (c : Config) where
  unfoldable pub written : Table
  written = table_of (settings_of c) []

  -- What stands under each key.
  pub fields :
      (get_str_from_table Key.protocol_version written ≡ some (show_nat c.protocol_version))
      × (get_str_from_table Key.init_proto_version written ≡ some (show_nat c.init_proto_version))
      × (get_str_from_table Key.min_peer_proto_version written
          ≡ some (show_nat c.min_peer_proto_version))
      × (get_str_from_table Key.caddr_time_version written ≡ some (show_nat c.caddr_time_version))
      × (get_str_from_table Key.wallet_port written ≡ some (show_nat c.wallet_port))
      × (get_str_from_table Key.explorer_url written ≡ some (or_empty c.explorer_url))
      × (get_str_from_table Key.second_explorer_url written ≡ some (or_empty c.second_explorer_url))
      × (get_str_from_table Key.explorer_requery_seconds written
          ≡ some (show_nat c.explorer_requery_seconds))
      × (get_str_from_table Key.block_count written ≡ some (show_int c.block_count))
      × (get_str_from_table Key.cf_domain written ≡ some (or_empty c.cf_domain))
      × (get_str_from_table Key.cf_domain_prefix written ≡ some (or_empty c.cf_domain_prefix))
      × (get_str_from_table Key.cf_api_token written ≡ some (or_empty c.cf_api_token))
      × (get_str_from_table Key.cf_seed_dump written ≡ some (or_empty c.cf_seed_dump))
      × (get_str_from_table Key.cf_own_ip written ≡ some (or_empty c.cf_own_ip))
      × (get_str_from_table Key.cf_api_key written ≡ none)
  unfolding written settings_of table_of insert get get_str_from_table
  fields =
      (refl, refl, refl, refl, refl, refl, refl, refl, refl, refl, refl, refl, refl, refl, refl)

  pub magic :
      (get_str_from_table (Key.message_start_prefix ++ show_nat 0) written
        ≡ some (show_nat (get_or c.pch_message_start 0 0)))
      × (get_str_from_table (Key.message_start_prefix ++ show_nat 1) written
          ≡ some (show_nat (get_or c.pch_message_start 1 0)))
      × (get_str_from_table (Key.message_start_prefix ++ show_nat 2) written
          ≡ some (show_nat (get_or c.pch_message_start 2 0)))
      × (get_str_from_table (Key.message_start_prefix ++ show_nat 3) written
          ≡ some (show_nat (get_or c.pch_message_start 3 0)))
  unfolding written settings_of table_of insert get get_str_from_table show_nat digits
  magic = (refl, refl, refl, refl)

  pub seeds :
      (get_str_from_table (Key.seed_prefix ++ show_nat 1) written ≡ some (seed_at 0 c.seeds))
      × (get_str_from_table (Key.seed_prefix ++ show_nat 2) written ≡ some (seed_at 1 c.seeds))
      × (get_str_from_table (Key.seed_prefix ++ show_nat 3) written ≡ some (seed_at 2 c.seeds))
      × (get_str_from_table (Key.seed_prefix ++ show_nat 4) written ≡ some (seed_at 3 c.seeds))
      × (get_str_from_table (Key.seed_prefix ++ show_nat 5) written ≡ some (seed_at 4 c.seeds))
      × (get_str_from_table (Key.seed_prefix ++ show_nat 6) written ≡ some (seed_at 5 c.seeds))
      × (get_str_from_table (Key.seed_prefix ++ show_nat 7) written ≡ some (seed_at 6 c.seeds))
      × (get_str_from_table (Key.seed_prefix ++ show_nat 8) written ≡ some (seed_at 7 c.seeds))
      × (get_str_from_table (Key.seed_prefix ++ show_nat 9) written ≡ some (seed_at 8 c.seeds))
      × (get_str_from_table (Key.seed_prefix ++ show_nat 10) written ≡ some (seed_at 9 c.seeds))
  unfolding written settings_of table_of insert get get_str_from_table show_nat digits
  seeds = (refl, refl, refl, refl, refl, refl, refl, refl, refl, refl)
