-- ===== src/Net/Examples.antt =====
-- Concrete addresses.
use satoxcoin_seeder.Prelude.{ℕ, ◌≡◌, refl, [], ◌∷◌, ◌++◌, replicate, arith, ◌↔◌}
use satoxcoin_seeder.Net.{Network, NetAddr, Ipv4Addr, IsNetAddr, Service, from_ipv4, network}
use satoxcoin_seeder.Net.Classes.{is_special, Dials, network-from_ipv4, network-Dials}
use satoxcoin_seeder.Net.Order.{cmp_service, flip_cmp, cmp_service-IsTotalOrder}
use Prim.Native.Nat.{Ordering}

abbrev link_local : Ipv4Addr
link_local = record { o0 = 169; o1 = 254; o2 = 7; o3 = 9 }

abbrev public_host : Ipv4Addr
public_host = record { o0 = 8; o1 = 8; o2 = 4; o3 = 4 }

-- fd87:d87e:eb43::1, a Tor address.
abbrev onion_host : NetAddr
onion_host = record { ip = 0xfd ∷ 0x87 ∷ 0xd8 ∷ 0x7e ∷ 0xeb ∷ 0x43 ∷ (replicate 9 0 ++ (1 ∷ [])) }

onion_host-IsNetAddr : IsNetAddr onion_host
onion_host-IsNetAddr = record { sixteen = refl; bytes = ground arith }

network-from_ipv4_example : network (from_ipv4 link_local) ≡ Network.ipv4
unfolding is_special
network-from_ipv4_example = network-from_ipv4 link_local

network-Dials_example : Dials (network onion_host) onion_host
network-Dials_example = network-Dials onion_host onion_host-IsNetAddr

abbrev at_port : ℕ → Service
at_port n = record { addr = onion_host; port = n }

cmp_service-IsTotalOrder_example :
    (cmp_service (at_port 1) (at_port 2) ≡ Ordering.eq ↔ at_port 1 ≡ at_port 2)
    × (cmp_service (at_port 2) (at_port 1) ≡ flip_cmp (cmp_service (at_port 1) (at_port 2)))
    × (cmp_service (at_port 1) (at_port 2) ≡ Ordering.lt
        → cmp_service (at_port 2) (at_port 3) ≡ Ordering.lt
        → cmp_service (at_port 1) (at_port 3) ≡ Ordering.lt)
cmp_service-IsTotalOrder_example = cmp_service-IsTotalOrder (at_port 1) (at_port 2) (at_port 3)
