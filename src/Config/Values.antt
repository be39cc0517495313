-- ===== src/Config/Values.antt =====
-- What a configuration that was read can hold, and numbers that are read back.
use satoxcoin_seeder.Prelude.{
  ℕ, zero, suc, ◌+◌, ◌-◌, ◌^◌, ◌≤◌, ◌<◌, ◌≡◌, refl, ap, subst, inl, inr, Option, none, some, List,
  [], ◌∷◌, ◌++◌, length, All, arith, Option-cases, IsByte, IsI32,
}
use satoxcoin_seeder.Text.{parse_unsigned, parse_signed, show_nat, trim_quotes, strip_prefix}
use satoxcoin_seeder.Text.Limits.{IfSome, Fits, parse_unsigned_bound, parse_signed_bound}
use satoxcoin_seeder.Toml.{
  Outcome, ok, err, panic, ◌>>=◌, failed, invalid_hex, invalid_byte, Table, from_str,
}
use satoxcoin_seeder.Config.{
  Config, parse, get_str_from_table, parse_toml_int, parse_u8, parse_u16, parse_u32, parse_u64,
  parse_i32, number_or, or_else, filled, byte_of_hex, message_byte, message_start, onto, seeds_from,
  from_table,
}
use satoxcoin_seeder.Config.Key

-- What holds of the value, if there is one.
abbrev Good : {A : Type 0} → (A → Type 0) → Outcome A → Type 0
Good P (ok a) = P a
Good P (err e) = Unit
Good P panic = Unit

Good-bind :
    {A B : Type 0} (P : A → Type 0) (Q : B → Type 0) (o : Outcome A) (k : A → Outcome B)
    → Good P o
    → ((a : A) → P a → Good Q (k a))
    → Good Q (o >>= k)
Good-bind P Q (ok a) k h f = f a h
Good-bind P Q (err e) k h f = tt
Good-bind P Q panic k h f = tt

parse_toml_int-Good :
    {A : Type 0} (P : A → Type 0) (parse : List ℕ → Option A) (key : List ℕ) (t : Table)
    → ((u : List ℕ) → IfSome P (parse u))
    → Good P (parse_toml_int parse key t)
unfolding parse_toml_int
parse_toml_int-Good {A} P parse key t h = elim (Option-cases (get_str_from_table key t)) [
  | inl e ↦ rw (e, parse_toml_int, Good) tt
  | inr (raw, e) ↦
      rw (e, parse_toml_int) (found raw (parse (trim_quotes raw)) (h (trim_quotes raw)))
]
  where
    found :
        (raw : List ℕ) (o : Option A)
        → IfSome P o
        → Good P (elim o [ none ↦ err (failed key raw) | some n ↦ ok n ])
    found raw none k = tt
    found raw (some a) k = k

number_or_bound :
    (top d : ℕ) (o : Option (List ℕ)) → d ≤ top → number_or (parse_unsigned 10 top) d o ≤ top
unfolding number_or
number_or_bound top d none h = h
number_or_bound top d (some raw) h =
    kept (parse_unsigned 10 top (trim_quotes raw)) (parse_unsigned_bound 10 top (trim_quotes raw))
  where
    kept : (o : Option ℕ) → IfSome (λ m. m ≤ top) o → or_else o d ≤ top
    kept none k = h
    kept (some n) k = k

byte_of_hex-Good : (t hex : List ℕ) → Good (λ n. n ≤ 2 ^ 8 - 1) (byte_of_hex t hex)
unfolding byte_of_hex
byte_of_hex-Good t hex =
    kept (parse_unsigned 16 (2 ^ 8 - 1) hex) (parse_unsigned_bound 16 (2 ^ 8 - 1) hex)
  where
    kept :
        (o : Option ℕ)
        → IfSome (λ m. m ≤ 2 ^ 8 - 1) o
        → Good (λ n. n ≤ 2 ^ 8 - 1) (elim o [ none ↦ err (invalid_hex t) | some n ↦ ok n ])
    kept none k = tt
    kept (some n) k = k

message_byte-Good : (t : List ℕ) → Good (λ n. n ≤ 2 ^ 8 - 1) (message_byte t)
unfolding message_byte parse_u8
message_byte-Good t = elim (Option-cases (strip_prefix (b'0' ∷ b'x' ∷ []) t)) [
  | inr (hex, e) ↦ rw (e, message_byte) (byte_of_hex-Good t hex)
  | inl e ↦
      rw (e, message_byte)
        (elim (Option-cases (strip_prefix (b'0' ∷ b'X' ∷ []) t)) [
          | inr (hex, f) ↦ rw (f, message_byte) (byte_of_hex-Good t hex)
          | inl f ↦
              rw (f, message_byte)
                (kept (parse_unsigned 10 (2 ^ 8 - 1) t) (parse_unsigned_bound 10 (2 ^ 8 - 1) t))
        ])
]
  where
    kept :
        (o : Option ℕ)
        → IfSome (λ m. m ≤ 2 ^ 8 - 1) o
        → Good (λ n. n ≤ 2 ^ 8 - 1) (elim o [ none ↦ err (invalid_byte t) | some n ↦ ok n ])
    kept none k = tt
    kept (some n) k = k

abbrev IsStart : ℕ → List ℕ → Type 0
IsStart n bs = (length bs ≡ n) × All IsByte bs

message_start-Good : (n i : ℕ) (t : Table) → Good (IsStart n) (message_start n i t)
unfolding message_start
message_start-Good zero i t = (refl, tt)
message_start-Good (suc n) i t =
    let key = Key.message_start_prefix ++ show_nat i in
    elim (Option-cases (get_str_from_table key t)) [
      | inl e ↦ rw (e, message_start, Good) tt
      | inr (raw, e) ↦
          rw (e, message_start)
            (Good-bind (λ m. m ≤ 2 ^ 8 - 1) (IsStart (suc n)) (message_byte (trim_quotes raw)) _
              (message_byte-Good (trim_quotes raw))
              (λ b small.
                Good-bind (IsStart n) (IsStart (suc n)) (message_start n (i + 1) t) _
                  (message_start-Good n (i + 1) t)
                  (λ bs all. (ap suc all.0, (omega (arith, small), all.1)))))
    ]

seeds_bound : (n i : ℕ) (t : Table) → length (seeds_from n i t) ≤ n
unfolding seeds_from onto
seeds_bound zero i t = omega arith
seeds_bound (suc n) i t =
    one (filled (get_str_from_table (Key.seed_prefix ++ show_nat i) t)) (seeds_bound n (i + 1) t)
  where
    one :
        (o : Option (List ℕ))
        → length (seeds_from n (i + 1) t) ≤ n
        → length (onto o (seeds_from n (i + 1) t)) ≤ suc n
    one none h = omega arith
    one (some s) h = omega arith

-- A configuration whose numbers fit the types of their fields, with a magic of four bytes.
pub record IsConfig (c : Config) : Type 0 where
  pub protocol : c.protocol_version < 2 ^ 32
  pub init_proto : c.init_proto_version < 2 ^ 32
  pub min_peer_proto : c.min_peer_proto_version < 2 ^ 32
  pub caddr_time : c.caddr_time_version < 2 ^ 32
  pub magic4 : length c.pch_message_start ≡ 4
  pub magic_bytes : All IsByte c.pch_message_start
  pub port : c.wallet_port < 2 ^ 16
  pub requery : c.explorer_requery_seconds < 2 ^ 64
  pub block : IsI32 c.block_count
  pub ten_seeds : length c.seeds ≤ 10
  pub max_seeds : c.cf_max_seeds ≡ some 25

from_table-Good : (t : Table) → Good IsConfig (from_table t)
unfolding from_table parse_u32 parse_u16 parse_u64 parse_i32
from_table-Good t =
    let u32 = 2 ^ 32 - 1 in
    let number : (top : ℕ) (key : List ℕ)
        → Good (λ n. n ≤ top) (parse_toml_int (parse_unsigned 10 top) key t) =
      λ top key.
        parse_toml_int-Good (λ n. n ≤ top) (parse_unsigned 10 top) key t
          (parse_unsigned_bound 10 top) in
    Good-bind (λ n. n ≤ u32) IsConfig _ _ (number u32 Key.protocol_version)
      (λ a ha.
        Good-bind (λ n. n ≤ u32) IsConfig _ _ (number u32 Key.init_proto_version)
          (λ b hb.
            Good-bind (λ n. n ≤ u32) IsConfig _ _ (number u32 Key.min_peer_proto_version)
              (λ c hc. Good-bind (IsStart 4) IsConfig _ _ (message_start-Good 4 0 t) (λ m hm.
                Good-bind (λ n. n ≤ 2 ^ 16 - 1) IsConfig _ _ (number (2 ^ 16 - 1) Key.wallet_port)
                  (λ p hp.
                    Good-bind (Fits (2 ^ 31 - 1)) IsConfig _ _
                      (parse_toml_int-Good (Fits (2 ^ 31 - 1)) (parse_signed (2 ^ 31 - 1))
                        Key.block_count t (parse_signed_bound (2 ^ 31 - 1)))
                      (λ n hn. record {
                        protocol = omega (arith, ha);
                        init_proto = omega (arith, hb);
                        min_peer_proto = omega (arith, hc);
                        caddr_time = omega (
                          arith,
                          number_or_bound u32 0 (get_str_from_table Key.caddr_time_version t)
                              (omega arith),
                        );
                        magic4 = hm.0;
                        magic_bytes = hm.1;
                        port = omega (arith, hp);
                        requery = omega (
                          arith,
                          number_or_bound (2 ^ 64 - 1) 60
                              (get_str_from_table Key.explorer_requery_seconds t) (omega arith),
                        );
                        block = (omega (arith, hn.0), omega (arith, hn.1));
                        ten_seeds = seeds_bound 10 1 t;
                        max_seeds = refl;
                      }))))))

ok-Good : {A : Type 0} (P : A → Type 0) (o : Outcome A) (a : A) → Good P o → o ≡ ok a → P a
ok-Good P (ok b) a h e = let same : b ≡ a = ground arith in subst P same h
ok-Good P (err x) a h e = absurd (ground arith)
ok-Good P panic a h e = absurd (ground arith)

-- A configuration that is read from a text has numbers that fit their fields, a magic of four bytes, at
-- most ten seeds, and 25 as the greatest number of published seeds, whatever the text says of that.
pub parse-IsConfig : (input : List ℕ) (c : Config) → parse input ≡ ok c → IsConfig c
unfolding parse
parse-IsConfig input c e =
    ok-Good IsConfig (from_str input >>= λ entries. from_table entries) c
      (Good-bind (λ t. Unit) IsConfig (from_str input) from_table (anything (from_str input))
        (λ t h. from_table-Good t))
      e
  where
    anything : (o : Outcome Table) → Good (λ t. Unit) o
    anything (ok t) = tt
    anything (err x) = tt
    anything panic = tt
