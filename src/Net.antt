-- ===== src/Net.antt =====
-- crates/seeder-core/src/net.rs: network addresses and their classification. An address is its
-- sixteen bytes, an `Ipv4Addr` its four octets, an `Ipv6Addr` its sixteen.
pub mod Classes
pub mod Order
pub mod Display
mod Examples
use satoxcoin_seeder.Prelude.{
  ℕ, ◌+◌, ◌-◌, ◌<◌, ◌≡◌, Bool, true, false, not, ◌&&◌, ◌||◌, Option, none, some, List, [], ◌∷◌,
  ◌++◌, length, take, drop, replicate, get_or, All, IsByte, leb, ◌==◌, if◌then◌else◌, eq_bytes,
}

abbrev pub pch_ipv4_prefix : List ℕ
pch_ipv4_prefix = 0 ∷ 0 ∷ 0 ∷ 0 ∷ 0 ∷ 0 ∷ 0 ∷ 0 ∷ 0 ∷ 0 ∷ 0xff ∷ 0xff ∷ []

abbrev pub pch_onion : List ℕ
pch_onion = 0xfd ∷ 0x87 ∷ 0xd8 ∷ 0x7e ∷ 0xeb ∷ 0x43 ∷ []

abbrev pub pch_garlic : List ℕ
pch_garlic = 0xfd ∷ 0x60 ∷ 0xdb ∷ 0x4d ∷ 0xdd ∷ 0xb5 ∷ []

pub data Network : Type 0 where
  ipv4 ipv6 tor i2p unroutable : Network

pub record NetAddr : Type 0 where
  pub ip : List ℕ

-- `[u8; 16]`
pub record IsNetAddr (a : NetAddr) : Type 0 where
  pub sixteen : length a.ip ≡ 16
  pub bytes : All IsByte a.ip

pub record Ipv4Addr : Type 0 where
  pub o0 : ℕ
  pub o1 : ℕ
  pub o2 : ℕ
  pub o3 : ℕ

pub record IsIpv4Addr (a : Ipv4Addr) : Type 0 where
  pub b0 : IsByte a.o0
  pub b1 : IsByte a.o1
  pub b2 : IsByte a.o2
  pub b3 : IsByte a.o3

pub data IpAddr : Type 0 where
  v4 : Ipv4Addr → IpAddr
  v6 : List ℕ → IpAddr

abbrev pub octets : Ipv4Addr → List ℕ
octets a = a.o0 ∷ a.o1 ∷ a.o2 ∷ a.o3 ∷ []

unfoldable pub from_ipv4 : Ipv4Addr → NetAddr
from_ipv4 a = record { ip = pch_ipv4_prefix ++ octets a }

unfoldable pub from_ipv6 : List ℕ → NetAddr
from_ipv6 os = record { ip = os }

unfoldable pub from_bytes : List ℕ → NetAddr
from_bytes bs = record { ip = bs }

unfoldable pub is_ipv4 : NetAddr → Bool
is_ipv4 a = eq_bytes (take 12 a.ip) pch_ipv4_prefix

unfoldable pub is_tor : NetAddr → Bool
is_tor a = eq_bytes (take 6 a.ip) pch_onion

unfoldable pub is_i2p : NetAddr → Bool
is_i2p a = eq_bytes (take 6 a.ip) pch_garlic

-- Called with `n` at most 3 on an array of sixteen, so the default is never read.
unfoldable pub byte : NetAddr → ℕ → ℕ
byte a n = get_or a.ip (15 - n) 0

unfoldable pub is_rfc1918 : NetAddr → Bool
unfolding is_ipv4 byte
is_rfc1918 a =
    is_ipv4 a
    && (byte a 3 == 10
        || (byte a 3 == 192 && byte a 2 == 168)
        || (byte a 3 == 172 && (leb 16 (byte a 2) && leb (byte a 2) 31)))

abbrev pub ipv6_loopback : List ℕ
ipv6_loopback = replicate 15 0 ++ (1 ∷ [])

unfoldable pub is_local : NetAddr → Bool
unfolding is_ipv4 byte
is_local a =
    if is_ipv4 a && (byte a 3 == 127 || byte a 3 == 0) then true else eq_bytes a.ip ipv6_loopback

unfoldable pub is_rfc3849 : NetAddr → Bool
is_rfc3849 a = eq_bytes (take 4 a.ip) (0x20 ∷ 0x01 ∷ 0x0d ∷ 0xb8 ∷ [])

unfoldable pub is_reserved : NetAddr → Bool
unfolding is_ipv4 byte
is_reserved a = is_ipv4 a && leb 240 (byte a 3)

-- `Ipv4Addr::BROADCAST` and `Ipv4Addr::UNSPECIFIED`.
abbrev pub broadcast : List ℕ
broadcast = 255 ∷ 255 ∷ 255 ∷ 255 ∷ []

abbrev pub unspecified : List ℕ
unspecified = 0 ∷ 0 ∷ 0 ∷ 0 ∷ []

unfoldable pub is_valid : NetAddr → Bool
unfolding is_ipv4 is_rfc3849
is_valid a =
    let last4 = drop 12 a.ip in
    if eq_bytes (take 9 a.ip) (drop 3 pch_ipv4_prefix)
    then false
    else if eq_bytes a.ip (replicate 16 0)
    then false
    else if is_rfc3849 a
    then false
    else if is_ipv4 a && (eq_bytes last4 broadcast || eq_bytes last4 unspecified)
    then false
    else true

unfoldable pub is_routable : NetAddr → Bool
unfolding is_valid is_reserved is_rfc1918 is_local is_rfc3849
is_routable a =
    is_valid a
    && not (
        is_reserved a
        || is_rfc1918 a
        || eq_bytes (drop 12 a.ip) (169 ∷ 254 ∷ 0 ∷ 0 ∷ [])
        || is_local a
        || is_rfc3849 a)

unfoldable pub network : NetAddr → Network
network a =
    if not (is_routable a)
    then Network.unroutable
    else if is_ipv4 a
    then Network.ipv4
    else if is_tor a
    then Network.tor
    else if is_i2p a
    then Network.i2p
    else Network.ipv6

unfoldable pub to_ipv4_addr : NetAddr → Option Ipv4Addr
unfolding is_ipv4
to_ipv4_addr a =
    if is_ipv4 a
    then some (record {
      o0 = get_or a.ip 12 0;
      o1 = get_or a.ip 13 0;
      o2 = get_or a.ip 14 0;
      o3 = get_or a.ip 15 0;
    })
    else none

unfoldable pub to_ipv6_addr : NetAddr → Option (List ℕ)
to_ipv6_addr a = if is_ipv4 a || is_tor a || is_i2p a then none else some a.ip

-- `or_else` on the two conversions.
unfoldable pub to_ip_addr : NetAddr → Option IpAddr
unfolding to_ipv4_addr to_ipv6_addr
to_ip_addr a = elim (to_ipv4_addr a) [
  | some x ↦ some (v4 x)
  | none ↦ elim (to_ipv6_addr a) [ some x ↦ some (v6 x) | none ↦ none ]
]

pub record Service : Type 0 where
  pub addr : NetAddr
  pub port : ℕ

pub record SocketAddr : Type 0 where
  pub host : IpAddr
  pub port : ℕ

unfoldable pub service_network : Service → Network
unfolding network
service_network s = network s.addr

unfoldable pub service_is_routable : Service → Bool
service_is_routable s = is_routable s.addr

unfoldable pub socket_addr : Service → Option SocketAddr
unfolding to_ip_addr
socket_addr s = elim (to_ip_addr s.addr) [
  | some x ↦ some (record { host = x; port = s.port })
  | none ↦ none
]
