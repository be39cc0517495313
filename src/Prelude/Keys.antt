-- ===== src/Prelude/Keys.antt =====
-- Keys with a Boolean equality, and the tests on byte sequences.
use Prim.Native.Nat.{ℕ}
use mathlib.Core.Path.{◌≡◌, refl}
use mathlib.Core.Logic.{◌↔◌, ◌≢◌}
use mathlib.Core.Bool.{Bool, true, false, ◌&&◌}
use mathlib.Core.List.{List, [], ◌∷◌}
use native.Mathlib.Omega.{arith}
use satoxcoin_seeder.Prelude.Tests.{◌==◌}
use satoxcoin_seeder.Prelude.Int.{ℤ, eq_ℤ, eq_ℤ_iff}

pub record Eq {ℓ} (A : Type ℓ) : Type ℓ where
  pub beq : A → A → Bool
  pub beq_iff : (a b : A) → (beq a b ≡ true) ↔ (a ≡ b)

abbrev pub eq_bytes : List ℕ → List ℕ → Bool
eq_bytes [] [] = true
eq_bytes [] (y ∷ ys) = false
eq_bytes (x ∷ xs) [] = false
eq_bytes (x ∷ xs) (y ∷ ys) = (x == y) && eq_bytes xs ys

pub eq_bytes_iff : (xs ys : List ℕ) → (eq_bytes xs ys ≡ true) ↔ (xs ≡ ys)
eq_bytes_iff [] [] = ground arith
eq_bytes_iff [] (y ∷ ys) = ground arith
eq_bytes_iff (x ∷ xs) [] = ground arith
eq_bytes_iff (x ∷ xs) (y ∷ ys) = ground (arith, eq_bytes_iff xs ys)

pub eq_bytes_self : (xs : List ℕ) → eq_bytes xs xs ≡ true
eq_bytes_self xs = (eq_bytes_iff xs xs).1 refl

pub eq_bytes_ne : (xs ys : List ℕ) → xs ≢ ys → eq_bytes xs ys ≡ false
eq_bytes_ne xs ys h = ground (arith, eq_bytes_iff xs ys)

instance abbrev pub int_eq : Eq ℤ
int_eq = record { beq = eq_ℤ; beq_iff = eq_ℤ_iff }

instance abbrev pub bytes_eq : Eq (List ℕ)
bytes_eq = record { beq = eq_bytes; beq_iff = eq_bytes_iff }
