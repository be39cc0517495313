-- ===== src/Net/Display/Splits.antt =====
-- The text of an address holds nothing at which it would be split.
use satoxcoin_seeder.Prelude.{
  ℕ, zero, suc, ◌+◌, ◌/◌, ◌%◌, ◌≤◌, ◌<◌, ◌≡◌, ◌≢◌, refl, inl, inr, true, false, Option, none, some,
  List, [], ◌∷◌, ◌++◌, take, drop, get_or, ltb, if◌then◌else◌, if_holds, eq_bytes, All, All-imp,
  All-append, length-append, arith, Bool-cases,
}
use satoxcoin_seeder.Text.{show_nat}
use satoxcoin_seeder.Text.Numbers.{show_nat-IsDigit}
use satoxcoin_seeder.Net.{
  NetAddr, Ipv4Addr, Service, is_ipv4, is_tor, is_i2p, to_ipv4_addr, to_ipv6_addr, to_ip_addr, v4,
  v6, pch_ipv4_prefix,
}
use satoxcoin_seeder.Net.Display.{
  show_ipv4, hex_digit, show_hex, segments, show_segments, longest_zeroes, no_span, show_ipv6,
  show_ip, onion_end, i2p_end, show_addr, to_string_ip_port,
}

-- From the full stop to 'z', but for the closing bracket.
abbrev pub IsAddrChar : ℕ → Type 0
IsAddrChar c = (b'.' ≤ c) × (c ≤ b'z') × (c ≢ b']')

-- Digits and full stops.
abbrev pub IsDotted : ℕ → Type 0
IsDotted c = (b'.' ≤ c) × (c ≤ b'9')

dotted : (n : ℕ) → All IsDotted (show_nat n)
dotted n =
    All-imp (λ c d. (omega (arith, d.0), omega (arith, d.1))) (show_nat n) (show_nat-IsDigit n)

pub show_ipv4-IsDotted : (a : Ipv4Addr) → All IsDotted (show_ipv4 a)
unfolding show_ipv4
show_ipv4-IsDotted a = All-append IsDotted (show_nat a.o0) _ (dotted a.o0) (
  (omega arith, omega arith),
  All-append IsDotted (show_nat a.o1) _ (dotted a.o1) (
    (omega arith, omega arith),
    All-append IsDotted (show_nat a.o2) _ (dotted a.o2) ((omega arith, omega arith), dotted a.o3),
  ),
)

dotted_addr : (t : List ℕ) → All IsDotted t → All IsAddrChar t
dotted_addr t h = All-imp (λ c d. (d.0, omega (arith, d.1), λ e. omega (arith, d.1, e))) t h

pub show_hex-IsAddrChar : (fuel n : ℕ) → All IsAddrChar (show_hex fuel n)
unfolding show_hex
show_hex-IsAddrChar zero n = tt
show_hex-IsAddrChar (suc fuel) n =
    All-append IsAddrChar (if ltb n 16 then [] else show_hex fuel (n / 16))
      (hex_digit (n % 16) ∷ [])
      (if_holds (All IsAddrChar) [] (show_hex fuel (n / 16)) (ltb n 16) tt
        (show_hex-IsAddrChar fuel (n / 16)))
      (hex_char (n % 16) (omega arith), tt)
  where
    hex_char : (d : ℕ) → d < 16 → IsAddrChar (hex_digit d)
    hex_char d h = ground arith

show_segments-IsAddrChar : (ss : List ℕ) → All IsAddrChar (show_segments ss)
unfolding show_segments
show_segments-IsAddrChar [] = tt
show_segments-IsAddrChar (s ∷ []) = show_hex-IsAddrChar 4 s
show_segments-IsAddrChar (s ∷ t ∷ rest) =
    All-append IsAddrChar (show_hex 4 s) (b':' ∷ show_segments (t ∷ rest)) (show_hex-IsAddrChar 4 s)
      ((omega arith, omega arith, λ e. omega (arith, e)), show_segments-IsAddrChar (t ∷ rest))

show_ipv6-IsAddrChar : (bytes : List ℕ) → All IsAddrChar (show_ipv6 bytes)
unfolding show_ipv6
show_ipv6-IsAddrChar bytes =
    let segs = segments bytes in
    let zeroes = longest_zeroes 0 segs no_span no_span in
    if_holds (All IsAddrChar) _ _ (eq_bytes (take 12 bytes) pch_ipv4_prefix)
      (All-append IsAddrChar (b':' ∷ b':' ∷ b'f' ∷ b'f' ∷ b'f' ∷ b'f' ∷ b':' ∷ []) _ (ground arith)
        (dotted_addr _ (
          show_ipv4-IsDotted (record {
            o0 = get_or bytes 12 0;
            o1 = get_or bytes 13 0;
            o2 = get_or bytes 14 0;
            o3 = get_or bytes 15 0;
          }))))
      (if_holds (All IsAddrChar) _ _ (ltb 1 zeroes.len)
        (All-append IsAddrChar (show_segments (take zeroes.start segs))
          (b':' ∷ b':' ∷ show_segments (drop (zeroes.start + zeroes.len) segs))
          (show_segments-IsAddrChar (take zeroes.start segs))
          (
            (omega arith, omega arith, λ e. omega (arith, e)),
            (
              (omega arith, omega arith, λ e. omega (arith, e)),
              show_segments-IsAddrChar (drop (zeroes.start + zeroes.len) segs),
            ),
          ))
        (show_segments-IsAddrChar segs))

-- The conversions, as the printer uses them.
to_ip_addr_four :
    (a : NetAddr) (x : Ipv4Addr) → to_ipv4_addr a ≡ some x → to_ip_addr a ≡ some (v4 x)
unfolding to_ip_addr
to_ip_addr_four a x e = rw (e, to_ip_addr) refl

to_ip_addr_six :
    (a : NetAddr) (o : Option (List ℕ))
    → to_ipv4_addr a ≡ none
    → to_ipv6_addr a ≡ o
    → to_ip_addr a ≡ elim o [ some x ↦ some (v6 x) | none ↦ none ]
unfolding to_ip_addr
to_ip_addr_six a o e f = rw (e, to_ip_addr, f) refl

-- The text of an IPv4 address is dotted.
show_addr-ipv4 :
    (encode : List ℕ → List ℕ) (a : NetAddr)
    → is_ipv4 a ≡ true
    → (x : Ipv4Addr) × (show_addr encode a ≡ show_ipv4 x)
unfolding show_addr show_ip
show_addr-ipv4 encode a h =
    let x : Ipv4Addr = record {
      o0 = get_or a.ip 12 0;
      o1 = get_or a.ip 13 0;
      o2 = get_or a.ip 14 0;
      o3 = get_or a.ip 15 0;
    } in
    let four : to_ipv4_addr a ≡ some x = unfold to_ipv4_addr in rw h refl in
    (x, rw (to_ip_addr_four a x four, show_addr) refl)

module _ (encode : List ℕ → List ℕ) (plain : (bs : List ℕ) → All IsAddrChar (encode bs)) where
  pub show_addr-IsAddrChar : (a : NetAddr) → is_ipv4 a ≡ false → All IsAddrChar (show_addr encode a)
  unfolding show_addr show_ip
  show_addr-IsAddrChar a h =
      let no_four : to_ipv4_addr a ≡ none = unfold to_ipv4_addr in rw h refl in
      elim (Bool-cases (is_tor a)) [
        | inl e ↦
            let no_six : to_ipv6_addr a ≡ none = unfold to_ipv6_addr in rw (h, e) refl in
            rw (to_ip_addr_six a none no_four no_six, show_addr, e)
              (All-append IsAddrChar (encode (drop 6 a.ip)) onion_end (plain (drop 6 a.ip))
                (ground arith))
        | inr e ↦ elim (Bool-cases (is_i2p a)) [
          | inl f ↦
              let no_six : to_ipv6_addr a ≡ none = unfold to_ipv6_addr in rw (h, e, f) refl in
              rw (to_ip_addr_six a none no_four no_six, show_addr, e, f)
                (All-append IsAddrChar (encode (drop 6 a.ip)) i2p_end (plain (drop 6 a.ip))
                  (ground arith))
          | inr f ↦
              let six : to_ipv6_addr a ≡ some a.ip = unfold to_ipv6_addr in rw (h, e, f) refl in
              rw (to_ip_addr_six a (some a.ip) no_four six, show_addr) (show_ipv6-IsAddrChar a.ip)
        ]
      ]

-- The two forms of an address with its port.
pub data HostPort : List ℕ → List ℕ → ℕ → Type 0 where
  dotted_form :
      (c : ℕ) (ip : List ℕ) (port : ℕ)
      → All IsDotted (c ∷ ip)
      → HostPort ((c ∷ ip) ++ (b':' ∷ show_nat port)) (c ∷ ip) port
  bracket_form :
      (ip : List ℕ) (port : ℕ)
      → All IsAddrChar ip
      → HostPort (b'[' ∷ (ip ++ (b']' ∷ b':' ∷ show_nat port))) ip port

dotted-HostPort :
    (ip : List ℕ) (port : ℕ)
    → All IsDotted ip
    → ip ≢ []
    → HostPort (ip ++ (b':' ∷ show_nat port)) ip port
dotted-HostPort [] port h ne = absurd (ne refl)
dotted-HostPort (c ∷ ip) port h ne = dotted_form c ip port h

show_ipv4_some : (a : Ipv4Addr) → show_ipv4 a ≢ []
unfolding show_ipv4
show_ipv4_some a h = ground (
  arith,
  length-append (show_nat a.o0)
      (b'.' ∷ (show_nat a.o1 ++ (b'.' ∷ (show_nat a.o2 ++ (b'.' ∷ show_nat a.o3))))),
)

pub to_string_ip_port-HostPort :
    (encode : List ℕ → List ℕ) (s : Service)
    → ((bs : List ℕ) → All IsAddrChar (encode bs))
    → HostPort (to_string_ip_port encode s) (show_addr encode s.addr) s.port
unfolding to_string_ip_port
to_string_ip_port-HostPort encode s plain = elim (Bool-cases (is_ipv4 s.addr)) [
  | inl e ↦
      let (x, same) = show_addr-ipv4 encode s.addr e in
      rw (e, same) (dotted-HostPort (show_ipv4 x) s.port (show_ipv4-IsDotted x) (show_ipv4_some x))
  | inr e ↦
      rw e
        (bracket_form (show_addr encode s.addr) s.port (show_addr-IsAddrChar encode plain s.addr e))
]
