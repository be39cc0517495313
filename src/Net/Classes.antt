-- ===== src/Net/Classes.antt =====
-- What `network`, `is_routable` and the conversions say of an address, against descriptions in
-- terms of its octets.
use satoxcoin_seeder.Prelude.{
  ℕ, ◌≡◌, refl, ap, Bool, true, false, ◌&&◌, ◌||◌, none, some, List, [], ◌∷◌, ◌++◌, ◌∙◌, length,
  take, drop, get_or, get_or-drop, take-append-drop, length-drop, leb, ◌==◌, if◌then◌else◌,
  eq_bytes, eq_bytes_iff, arith, Bool-cases, inl, inr,
}
use satoxcoin_seeder.Net.{
  Network, NetAddr, Ipv4Addr, IsNetAddr, v4, v6, from_ipv4, is_ipv4, is_tor, is_i2p, is_routable,
  network, to_ipv4_addr, to_ip_addr, Service, socket_addr, pch_ipv4_prefix, pch_onion, pch_garlic,
}

-- The addresses that the crawler must not dial, by their octets.
unfoldable pub is_special : Ipv4Addr → Bool
is_special a =
    a.o0 == 0
    || a.o0 == 10
    || a.o0 == 127
    || (a.o0 == 169 && a.o1 == 254 && a.o2 == 0 && a.o3 == 0)
    || (a.o0 == 172 && leb 16 a.o1 && leb a.o1 31)
    || (a.o0 == 192 && a.o1 == 168)
    || leb 240 a.o0

-- An IPv4 address is classed as IPv4, unless it is one of the special ones: then it is unroutable.
-- Of the link-local block 169.254.0.0/16 only the first address is special.
pub network-from_ipv4 :
    (a : Ipv4Addr)
    → network (from_ipv4 a) ≡ (if is_special a then Network.unroutable else Network.ipv4)
unfolding network from_ipv4 is_routable is_special
network-from_ipv4 a = ground arith

four_elements :
    (l : List ℕ) → length l ≡ 4 → get_or l 0 0 ∷ get_or l 1 0 ∷ get_or l 2 0 ∷ get_or l 3 0 ∷ [] ≡ l
four_elements (a ∷ b ∷ c ∷ d ∷ []) h = refl
four_elements [] h = absurd (omega arith)
four_elements (a ∷ []) h = absurd (omega arith)
four_elements (a ∷ b ∷ []) h = absurd (omega arith)
four_elements (a ∷ b ∷ c ∷ []) h = absurd (omega arith)
four_elements (a ∷ b ∷ c ∷ d ∷ e ∷ l) h = absurd (omega arith)

last_four :
    (l : List ℕ)
    → length l ≡ 16
    → take 12 l ++ (get_or l 12 0 ∷ get_or l 13 0 ∷ get_or l 14 0 ∷ get_or l 15 0 ∷ []) ≡ l
last_four l h = ap (λ t. take 12 l ++ t) tail ∙ take-append-drop 12 l
  where
    tail : get_or l 12 0 ∷ get_or l 13 0 ∷ get_or l 14 0 ∷ get_or l 15 0 ∷ [] ≡ drop 12 l
    tail =
        rw
          (
            ← get_or-drop 12 0 l 0,
            ← get_or-drop 12 1 l 0,
            ← get_or-drop 12 2 l 0,
            ← get_or-drop 12 3 l 0,
          )
          (four_elements (drop 12 l) (omega (arith, length-drop 12 l)))

-- The octets of an IPv4 address survive the mapping into sixteen bytes, and every address of
-- sixteen bytes from which octets are read is the mapping of those.
pub to_ipv4_addr-from_ipv4 :
    (a : Ipv4Addr) (n : NetAddr)
    → IsNetAddr n
    → (to_ipv4_addr (from_ipv4 a) ≡ some a) × (to_ipv4_addr n ≡ some a → from_ipv4 a ≡ n)
unfolding to_ipv4_addr from_ipv4
to_ipv4_addr-from_ipv4 a n h = (
  refl,
  λ e. ground (arith, eq_bytes_iff (take 12 n.ip) pch_ipv4_prefix, last_four n.ip h.sixteen),
)

onion-ne-ipv4 :
    (l : List ℕ)
    → eq_bytes (take 6 l) pch_onion ≡ true
    → eq_bytes (take 12 l) pch_ipv4_prefix ≡ false
onion-ne-ipv4 [] h = cc
onion-ne-ipv4 (x ∷ l) h = ground arith

garlic-ne-ipv4 :
    (l : List ℕ)
    → eq_bytes (take 6 l) pch_garlic ≡ true
    → eq_bytes (take 12 l) pch_ipv4_prefix ≡ false
garlic-ne-ipv4 [] h = cc
garlic-ne-ipv4 (x ∷ l) h = ground arith

-- An address of the class is dialled as: its octets, its sixteen bytes, or not at all.
abbrev pub Dials : Network → NetAddr → Type 0
Dials Network.ipv4 a = (x : Ipv4Addr) × (to_ip_addr a ≡ some (v4 x)) × (from_ipv4 x ≡ a)
Dials Network.ipv6 a = to_ip_addr a ≡ some (v6 a.ip)
Dials Network.tor a = to_ip_addr a ≡ none
Dials Network.i2p a = to_ip_addr a ≡ none
Dials Network.unroutable a = is_routable a ≡ false

ipv4-Dials : (a : NetAddr) → IsNetAddr a → is_ipv4 a ≡ true → Dials Network.ipv4 a
unfolding to_ip_addr from_ipv4
ipv4-Dials a h f = (
  record {
    o0 = get_or a.ip 12 0;
    o1 = get_or a.ip 13 0;
    o2 = get_or a.ip 14 0;
    o3 = get_or a.ip 15 0;
  },
  ground arith,
  ground (arith, eq_bytes_iff (take 12 a.ip) pch_ipv4_prefix, last_four a.ip h.sixteen),
)

overlay_no_ip : (a : NetAddr) → (is_tor a || is_i2p a) ≡ true → to_ip_addr a ≡ none
unfolding to_ip_addr is_tor is_i2p
overlay_no_ip a h = ground (arith, onion-ne-ipv4 a.ip, garlic-ne-ipv4 a.ip)

plain_ipv6 :
    (a : NetAddr)
    → is_ipv4 a ≡ false
    → is_tor a ≡ false
    → is_i2p a ≡ false
    → to_ip_addr a ≡ some (v6 a.ip)
unfolding to_ip_addr
plain_ipv6 a f g k = ground arith

-- The class decides how an address is dialled: an IPv4 address by the octets that map to it, an
-- IPv6 address by its bytes; a Tor or I2P address has no socket address, and an unroutable one
-- is one that `is_routable` refuses.
pub network-Dials : (a : NetAddr) → IsNetAddr a → Dials (network a) a
unfolding network
network-Dials a h = elim (Bool-cases (is_routable a)) [
  | inr e ↦ rw e e
  | inl e ↦ rw e (elim (Bool-cases (is_ipv4 a)) [
    | inl f ↦ rw f (ipv4-Dials a h f)
    | inr f ↦ rw f (elim (Bool-cases (is_tor a)) [
      | inl g ↦ rw g (overlay_no_ip a (rw g))
      | inr g ↦ rw g (elim (Bool-cases (is_i2p a)) [
        | inl k ↦ rw k (overlay_no_ip a (rw (g, k)))
        | inr k ↦ rw k (plain_ipv6 a f g k)
      ])
    ])
  ])
]

-- No address of the Tor or I2P ranges has a socket address, whatever its port.
pub socket_addr-overlay :
    (s : Service) → (is_tor s.addr || is_i2p s.addr) ≡ true → socket_addr s ≡ none
unfolding socket_addr
socket_addr-overlay s h = rw (overlay_no_ip s.addr h, socket_addr)
