-- ===== src/Net/Order.antt =====
-- The order on addresses and services: `Ord for NetAddr` and `Ord for Service`.
use Prim.Native.Nat.{compare, Ordering}
use satoxcoin_seeder.Prelude.{ℕ, ◌≡◌, refl, ◌↔◌, List, [], ◌∷◌, arith}
use satoxcoin_seeder.Net.{NetAddr, Service}

-- `Ordering::then`.
abbrev then_cmp : Ordering → Ordering → Ordering
then_cmp Ordering.lt o = Ordering.lt
then_cmp Ordering.eq o = o
then_cmp Ordering.gt o = Ordering.gt

-- `reverse` of an ordering.
abbrev pub flip_cmp : Ordering → Ordering
flip_cmp Ordering.lt = Ordering.gt
flip_cmp Ordering.eq = Ordering.eq
flip_cmp Ordering.gt = Ordering.lt

-- Arrays compare lexicographically.
cmp_bytes : List ℕ → List ℕ → Ordering
cmp_bytes [] [] = Ordering.eq
cmp_bytes [] (y ∷ ys) = Ordering.lt
cmp_bytes (x ∷ xs) [] = Ordering.gt
cmp_bytes (x ∷ xs) (y ∷ ys) = then_cmp (compare x y) (cmp_bytes xs ys)

pub cmp_addr : NetAddr → NetAddr → Ordering
unfolding cmp_bytes
cmp_addr a b = cmp_bytes a.ip b.ip

pub cmp_service : Service → Service → Ordering
unfolding cmp_addr
cmp_service s t = then_cmp (cmp_addr s.addr t.addr) (compare s.port t.port)

cmp_bytes_eq : (xs ys : List ℕ) → cmp_bytes xs ys ≡ Ordering.eq → xs ≡ ys
unfolding cmp_bytes
cmp_bytes_eq [] [] h = refl
cmp_bytes_eq [] (y ∷ ys) h = cc
cmp_bytes_eq (x ∷ xs) [] h = cc
cmp_bytes_eq (x ∷ xs) (y ∷ ys) h = ground (arith, cmp_bytes_eq xs ys)

cmp_bytes_self : (xs : List ℕ) → cmp_bytes xs xs ≡ Ordering.eq
unfolding cmp_bytes
cmp_bytes_self [] = refl
cmp_bytes_self (x ∷ xs) = ground (arith, cmp_bytes_self xs)

cmp_bytes_flip : (xs ys : List ℕ) → cmp_bytes ys xs ≡ flip_cmp (cmp_bytes xs ys)
unfolding cmp_bytes
cmp_bytes_flip [] [] = refl
cmp_bytes_flip [] (y ∷ ys) = refl
cmp_bytes_flip (x ∷ xs) [] = refl
cmp_bytes_flip (x ∷ xs) (y ∷ ys) = ground (arith, cmp_bytes_flip xs ys)

cmp_bytes_trans :
    (xs ys zs : List ℕ)
    → cmp_bytes xs ys ≡ Ordering.lt
    → cmp_bytes ys zs ≡ Ordering.lt
    → cmp_bytes xs zs ≡ Ordering.lt
unfolding cmp_bytes
cmp_bytes_trans [] [] zs h k = cc
cmp_bytes_trans [] (y ∷ ys) [] h k = cc
cmp_bytes_trans [] (y ∷ ys) (z ∷ zs) h k = refl
cmp_bytes_trans (x ∷ xs) [] zs h k = cc
cmp_bytes_trans (x ∷ xs) (y ∷ ys) [] h k = cc
cmp_bytes_trans (x ∷ xs) (y ∷ ys) (z ∷ zs) h k = ground (arith, cmp_bytes_trans xs ys zs)

-- The order on services is a strict total order that agrees with their equality: two services
-- compare equal exactly when they are the same, comparing them the other way round reverses the
-- result, and "less" is transitive.
pub cmp_service-IsTotalOrder :
    (s t u : Service)
    → (cmp_service s t ≡ Ordering.eq ↔ s ≡ t)
      × (cmp_service t s ≡ flip_cmp (cmp_service s t))
      × (cmp_service s t ≡ Ordering.lt
          → cmp_service t u ≡ Ordering.lt
          → cmp_service s u ≡ Ordering.lt)
unfolding cmp_service
cmp_service-IsTotalOrder s t u = (
  ground (arith, cmp_bytes_eq s.addr.ip t.addr.ip, cmp_bytes_self s.addr.ip),
  ground (arith, cmp_bytes_flip s.addr.ip t.addr.ip),
  λ h k. ground (
    arith,
    cmp_bytes_trans s.addr.ip t.addr.ip u.addr.ip,
    cmp_bytes_eq s.addr.ip t.addr.ip,
    cmp_bytes_eq t.addr.ip u.addr.ip,
  ),
)
