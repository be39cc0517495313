-- ===== src/Config/RoundTrip.antt =====
-- A configuration is read back from the settings file that is written from it.
use satoxcoin_seeder.Prelude.{
  IsByte, ℕ, zero, suc, ◌+◌, ◌^◌, ◌<◌, ◌≡◌, refl, sym, ap, ◌∙◌, Option, some, List, [], ◌∷◌, ◌++◌,
  length, get_or, All, arith,
}
use satoxcoin_seeder.Text.{trim_quotes, show_nat}
use satoxcoin_seeder.Toml.{ok, ◌>>=◌, Table, text_eq, from_str}
use satoxcoin_seeder.Config.{
  Config, parse, from_table, parse_toml_int, get_str_from_table, parse_u16, parse_u32, parse_u64,
  parse_i32, number_or, or_else, message_start, seeds_from,
}
use satoxcoin_seeder.Config.Key
use satoxcoin_seeder.Config.Written.{
  text_of, seed_at, settings_of, read_settings, filled-or_empty, gather, gather_whole,
}
use satoxcoin_seeder.Config.Fields.{
  message_byte-show_nat, u16_again, u32_again, u64_again, i32_again, IsWritable, settings_of-All,
  written, fields, magic, seeds,
}

magic_again :
    (bs : List ℕ)
    → length bs ≡ 4
    → get_or bs 0 0 ∷ get_or bs 1 0 ∷ get_or bs 2 0 ∷ get_or bs 3 0 ∷ [] ≡ bs
magic_again [] h = absurd (omega (arith, h))
magic_again (a ∷ []) h = absurd (omega (arith, h))
magic_again (a ∷ b ∷ []) h = absurd (omega (arith, h))
magic_again (a ∷ b ∷ x ∷ []) h = absurd (omega (arith, h))
magic_again (a ∷ b ∷ x ∷ y ∷ []) h = refl
magic_again (a ∷ b ∷ x ∷ y ∷ z ∷ rest) h = absurd (omega (arith, h))

-- One byte of the magic, or one seed, in front of the others.
magic_step :
    (n i b : ℕ) (t : Table) (bs : List ℕ)
    → get_str_from_table (Key.message_start_prefix ++ show_nat i) t ≡ some (show_nat b)
    → b < 2 ^ 8
    → message_start n (i + 1) t ≡ ok bs
    → message_start (suc n) i t ≡ ok (b ∷ bs)
unfolding message_start
magic_step n i b t bs e h rest = rw (e, message_start, message_byte-show_nat b h, rest) refl

seed_step :
    (n i k : ℕ) (t : Table) (seeds : List (List ℕ))
    → get_str_from_table (Key.seed_prefix ++ show_nat i) t ≡ some (seed_at k seeds)
    → seeds_from n (i + 1) t ≡ gather n (suc k) seeds
    → seeds_from (suc n) i t ≡ gather (suc n) k seeds
unfolding seeds_from gather
seed_step n i k t seeds e rest = rw (e, rest) refl

number_again :
    {A : Type 0} (read : List ℕ → Option A) (key : List ℕ) (t : Table) (v : List ℕ) (n : A)
    → get_str_from_table key t ≡ some v
    → read (trim_quotes v) ≡ some n
    → parse_toml_int read key t ≡ ok n
unfolding parse_toml_int
number_again read key t v n e r = rw (e, parse_toml_int, r) refl

byte_at : (bs : List ℕ) (k : ℕ) → All IsByte bs → get_or bs k 0 < 2 ^ 8
byte_at [] k h = omega arith
byte_at (b ∷ bs) zero h = omega (arith, h.0)
byte_at (b ∷ bs) (suc k) h = byte_at bs k h.1

module _ (c : Config) (h : IsWritable c) where
  magic_read : message_start 4 0 (written c) ≡ ok c.pch_message_start
  unfolding message_start
  magic_read =
      let (a, b, x, y) = magic c in
      let at : (k : ℕ) → get_or c.pch_message_start k 0 < 2 ^ 8 =
        λ k. byte_at c.pch_message_start k h.config.magic_bytes in
      magic_step 3 0 _ (written c) _ a (at 0) (
        magic_step 2 1 _ (written c) _ b (at 1)
          (magic_step 1 2 _ (written c) _ x (at 2) (magic_step 0 3 _ (written c) [] y (at 3) refl)))
      ∙ ap ok (magic_again c.pch_message_start h.config.magic4)

  seeds_read : seeds_from 10 1 (written c) ≡ c.seeds
  unfolding seeds_from gather
  seeds_read =
      let (a, b, d, e, f, g, i, j, k, l) = seeds c in
      let t = written c in
      let s = c.seeds in
      seed_step 9 1 0 t s a (
        seed_step 8 2 1 t s b (
          seed_step 7 3 2 t s d (
            seed_step 6 4 3 t s e (
              seed_step 5 5 4 t s f (
                seed_step 4 6 5 t s g (
                  seed_step 3 7 6 t s i (
                    seed_step 2 8 7 t s j
                      (seed_step 1 9 8 t s k (seed_step 0 10 9 t s l refl)))))))))
      ∙ gather_whole 10 s h.config.ten_seeds h.seed_texts

  from_table-written : from_table (written c) ≡ ok c
  unfolding from_table
  from_table-written =
      let g = h.config in
      let (
        protocol, init, least, caddr, port, url, second, requery, block, domain, prefix, token,
        dump, own, key,
      ) =
        fields c in
      let read32 = number_again parse_u32 in
      let caddr_read : number_or parse_u32 0 (some (show_nat c.caddr_time_version))
          ≡ c.caddr_time_version =
        unfold number_or in ap (λ o. or_else o 0) (u32_again c.caddr_time_version g.caddr_time) in
      let requery_read : number_or parse_u64 60 (some (show_nat c.explorer_requery_seconds))
          ≡ c.explorer_requery_seconds =
        unfold number_or in
        ap (λ o. or_else o 60) (u64_again c.explorer_requery_seconds g.requery) in
      rw
        (
          read32 Key.protocol_version (written c) _ _ protocol
              (u32_again c.protocol_version g.protocol),
          read32 Key.init_proto_version (written c) _ _ init
              (u32_again c.init_proto_version g.init_proto),
          read32 Key.min_peer_proto_version (written c) _ _ least
              (u32_again c.min_peer_proto_version g.min_peer_proto),
          magic_read,
          number_again parse_u16 Key.wallet_port (written c) _ _ port
              (u16_again c.wallet_port g.port),
          number_again parse_i32 Key.block_count (written c) _ _ block
              (i32_again c.block_count g.block),
          caddr,
          caddr_read,
          url,
          filled-or_empty c.explorer_url h.explorer,
          second,
          filled-or_empty c.second_explorer_url h.second_explorer,
          requery,
          requery_read,
          seeds_read,
          domain,
          filled-or_empty c.cf_domain h.domain,
          prefix,
          filled-or_empty c.cf_domain_prefix h.domain_prefix,
          key,
          token,
          filled-or_empty c.cf_api_token h.token,
          dump,
          filled-or_empty c.cf_seed_dump h.seed_dump,
          own,
          filled-or_empty c.cf_own_ip h.own,
        )
        (ap (λ m. ok (record c { cf_max_seeds = m })) (sym g.max_seeds))

-- A configuration is read back from the settings file that gives each of its settings in quotes
-- under its key, the magic byte by byte, missing texts as empty ones. (Its numbers fit their fields, it
-- has four bytes of magic and at most ten seeds, and 25 as its greatest number of published seeds; its
-- texts are not empty and have one line, with no white space or quote at the ends.)
pub parse-text_of : (c : Config) → IsWritable c → parse (text_of (settings_of c)) ≡ ok c
unfolding parse from_str
parse-text_of c h =
    ap (λ o. o >>= λ t. from_table t) (read_settings (settings_of c) [] (settings_of-All c h))
    ∙ unfold written in from_table-written c h
