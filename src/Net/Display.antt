-- ===== src/Net/Display.antt =====
-- crates/seeder-core/src/net.rs: addresses as text, with what `Ipv4Addr` and `Ipv6Addr` of the
-- standard library print. `encode` is the base32 encoder.
pub mod Splits
pub mod Ports
use satoxcoin_seeder.Prelude.{
  ℕ, zero, suc, ◌+◌, ◌-◌, ◌*◌, ◌/◌, ◌%◌, ◌^◌, Bool, true, false, Option, none, some, List, [], ◌∷◌,
  ◌++◌, length, take, drop, get_or, ltb, ◌==◌, if◌then◌else◌, eq_bytes,
}
use satoxcoin_seeder.Text.{trim, starts_with, split_first, split_last, parse_unsigned, show_nat}
use satoxcoin_seeder.Net.{
  NetAddr, Ipv4Addr, IpAddr, Service, octets, is_ipv4, is_tor, is_i2p, to_ip_addr, v4, v6,
  pch_ipv4_prefix,
}

unfoldable pub show_ipv4 : Ipv4Addr → List ℕ
show_ipv4 a =
    show_nat a.o0 ++ (b'.' ∷ (show_nat a.o1 ++ (b'.' ∷ (show_nat a.o2 ++ (b'.' ∷ show_nat a.o3)))))

abbrev pub hex_digit : ℕ → ℕ
hex_digit d = if ltb d 10 then b'0' + d else b'a' + (d - 10)

-- `{:x}` of a number below 16 ^ fuel.
unfoldable pub show_hex : ℕ → ℕ → List ℕ
show_hex zero n = []
show_hex (suc fuel) n =
    let rest = show_hex fuel (n / 16) in
    (if ltb n 16 then [] else rest) ++ (hex_digit (n % 16) ∷ [])

-- Two bytes each.
unfoldable pub segments : List ℕ → List ℕ
segments [] = []
segments (a ∷ []) = []
segments (a ∷ b ∷ rest) = (a * 256 + b) ∷ segments rest

unfoldable pub show_segments : List ℕ → List ℕ
show_segments [] = []
show_segments (s ∷ []) = show_hex 4 s
show_segments (s ∷ t ∷ rest) = show_hex 4 s ++ (b':' ∷ show_segments (t ∷ rest))

-- The first longest run of zero segments.
pub record Span : Type 0 where
  pub start : ℕ
  pub len : ℕ

abbrev pub no_span : Span
no_span = record { start = 0; len = 0 }

unfoldable pub longest_zeroes : ℕ → List ℕ → Span → Span → Span
longest_zeroes i [] current longest = longest
longest_zeroes i (s ∷ rest) current longest =
    let begin = if current.len == 0 then i else current.start in
    let more : Span = record { start = begin; len = current.len + 1 } in
    let zero_here =
      longest_zeroes (i + 1) rest more (if ltb longest.len more.len then more else longest) in
    let other = longest_zeroes (i + 1) rest no_span longest in if s == 0 then zero_here else other

unfoldable pub show_ipv6 : List ℕ → List ℕ
show_ipv6 bytes =
    let segs = segments bytes in
    let zeroes = longest_zeroes 0 segs no_span no_span in
    if eq_bytes (take 12 bytes) pch_ipv4_prefix
    then (b':' ∷ b':' ∷ b'f' ∷ b'f' ∷ b'f' ∷ b'f' ∷ b':' ∷ [])
      ++ show_ipv4 (record {
        o0 = get_or bytes 12 0;
        o1 = get_or bytes 13 0;
        o2 = get_or bytes 14 0;
        o3 = get_or bytes 15 0;
      })
    else if ltb 1 zeroes.len
    then show_segments (take zeroes.start segs)
      ++ (b':' ∷ b':' ∷ show_segments (drop (zeroes.start + zeroes.len) segs))
    else show_segments segs

unfoldable pub show_ip : IpAddr → List ℕ
show_ip (v4 a) = show_ipv4 a
show_ip (v6 bytes) = show_ipv6 bytes

-- `{:02x?}` of bytes.
unfoldable pub debug_bytes : List ℕ → List ℕ
debug_bytes [] = []
debug_bytes (b ∷ []) = hex_digit (b / 16) ∷ hex_digit (b % 16) ∷ []
debug_bytes (b ∷ c ∷ rest) =
    hex_digit (b / 16) ∷ hex_digit (b % 16) ∷ b',' ∷ b' ' ∷ debug_bytes (c ∷ rest)

abbrev pub onion_end : List ℕ
onion_end = b'.' ∷ b'o' ∷ b'n' ∷ b'i' ∷ b'o' ∷ b'n' ∷ []

abbrev pub i2p_end : List ℕ
i2p_end = b'.' ∷ b'b' ∷ b'3' ∷ b'2' ∷ b'.' ∷ b'i' ∷ b'2' ∷ b'p' ∷ []

abbrev pub other_begin : List ℕ
other_begin = b'N' ∷ b'e' ∷ b't' ∷ b'A' ∷ b'd' ∷ b'd' ∷ b'r' ∷ b'(' ∷ b'[' ∷ []

unfoldable pub show_addr : (List ℕ → List ℕ) → NetAddr → List ℕ
show_addr encode a = elim (to_ip_addr a) [
  | some ip ↦ show_ip ip
  | none ↦
      if is_tor a
      then encode (drop 6 a.ip) ++ onion_end
      else if is_i2p a
      then encode (drop 6 a.ip) ++ i2p_end
      else other_begin ++ (debug_bytes a.ip ++ (b']' ∷ b')' ∷ []))
]

unfoldable pub to_string_ip : (List ℕ → List ℕ) → Service → List ℕ
to_string_ip encode s = show_addr encode s.addr

unfoldable pub to_string_ip_port : (List ℕ → List ℕ) → Service → List ℕ
to_string_ip_port encode s =
    let ip = show_addr encode s.addr in
    if is_ipv4 s.addr
    then ip ++ (b':' ∷ show_nat s.port)
    else b'[' ∷ (ip ++ (b']' ∷ b':' ∷ show_nat s.port))

abbrev pub u16_max : ℕ
u16_max = 2 ^ 16 - 1

-- The last part of `split_host_port`: after the last colon.
unfoldable pub split_at_colon : List ℕ → List ℕ × Option ℕ
split_at_colon input = elim (split_last b':' input) [
  | none ↦ (input, none)
  | some p ↦ elim (parse_unsigned 10 u16_max p.1) [ none ↦ (input, none) | some n ↦ (p.0, some n) ]
]

-- What stands behind the bracket: up to the first colon it is skipped.
unfoldable pub port_behind : List ℕ → Option ℕ
port_behind rest = elim (split_first b':' rest) [
  | none ↦ none
  | some p ↦ parse_unsigned 10 u16_max p.1
]

unfoldable pub split_host_port : List ℕ → List ℕ × Option ℕ
split_host_port text =
    let input = trim text in
    if starts_with b'[' input
    then elim (split_first b']' input) [
      | none ↦ split_at_colon input
      | some p ↦ (drop 1 p.0, port_behind p.1)
    ]
    else split_at_colon input
