-- ===== src/Prelude/Words.antt =====
-- Fixed-width integers as byte sequences: `to_le_bytes`, `to_be_bytes` and their inverses.
use Prim.Native.Nat.{ℕ, zero, suc, ◌+◌, ◌*◌, ◌/◌, ◌%◌, ◌^◌, ◌<◌}
use mathlib.Core.Path.{◌≡◌, refl, ap, ◌∙◌}
use mathlib.Core.List.{List, [], ◌∷◌, reverse, reverse-reverse, reverse-append}
use native.Mathlib.Nat.{div-add-mod, pow-suc}
use native.Mathlib.Omega.{arith}
use satoxcoin_seeder.Prelude.Lists.{length, length-append, All}

abbrev pub IsByte : ℕ → Type 0
IsByte b = b < 256

-- The `w` low bytes of `v`, lowest first.
unfoldable pub to_le_bytes : ℕ → ℕ → List ℕ
to_le_bytes zero v = []
to_le_bytes (suc w) v = (v % 256) ∷ to_le_bytes w (v / 256)

unfoldable pub from_le_bytes : List ℕ → ℕ
from_le_bytes [] = 0
from_le_bytes (b ∷ bs) = b + 256 * from_le_bytes bs

unfoldable pub to_be_bytes : ℕ → ℕ → List ℕ
unfolding to_le_bytes
to_be_bytes w v = reverse (to_le_bytes w v)

unfoldable pub from_be_bytes : List ℕ → ℕ
unfolding from_le_bytes
from_be_bytes bs = from_le_bytes (reverse bs)

pub length-to_le_bytes : (w v : ℕ) → length (to_le_bytes w v) ≡ w
unfolding to_le_bytes
length-to_le_bytes zero v = refl
length-to_le_bytes (suc w) v = ap suc (length-to_le_bytes w (v / 256))

pub length-reverse {ℓ} : {A : Type ℓ} (xs : List A) → length (reverse xs) ≡ length xs
length-reverse [] = refl
length-reverse (x ∷ xs) = omega (
  arith,
  ap length (reverse-append (x ∷ []) xs),
  length-append (reverse xs) (x ∷ []),
  length-reverse xs,
)

pub length-to_be_bytes : (w v : ℕ) → length (to_be_bytes w v) ≡ w
unfolding to_be_bytes
length-to_be_bytes w v = length-reverse (to_le_bytes w v) ∙ length-to_le_bytes w v

pub to_le_bytes-IsByte : (w v : ℕ) → All IsByte (to_le_bytes w v)
unfolding to_le_bytes
to_le_bytes-IsByte zero v = tt
to_le_bytes-IsByte (suc w) v = (omega arith, to_le_bytes-IsByte w (v / 256))

pub div_lt_pow : (w v : ℕ) → v < 256 ^ suc w → v / 256 < 256 ^ w
div_lt_pow w v h = omega (arith, pow-suc 256 w)

pub from_le_bytes-to_le_bytes : (w v : ℕ) → v < 256 ^ w → from_le_bytes (to_le_bytes w v) ≡ v
unfolding to_le_bytes from_le_bytes
from_le_bytes-to_le_bytes zero v h = omega arith
from_le_bytes-to_le_bytes (suc w) v h =
    omega (arith, from_le_bytes-to_le_bytes w (v / 256) (div_lt_pow w v h), div-add-mod v 256)

pub from_be_bytes-to_be_bytes : (w v : ℕ) → v < 256 ^ w → from_be_bytes (to_be_bytes w v) ≡ v
unfolding to_be_bytes from_be_bytes
from_be_bytes-to_be_bytes w v h =
    ap from_le_bytes (reverse-reverse (to_le_bytes w v)) ∙ from_le_bytes-to_le_bytes w v h

pub from_le_bytes_bound : (bs : List ℕ) → All IsByte bs → from_le_bytes bs < 256 ^ length bs
unfolding from_le_bytes
from_le_bytes_bound [] h = omega arith
from_le_bytes_bound (b ∷ bs) h =
    omega (arith, h.0, from_le_bytes_bound bs h.1, pow-suc 256 (length bs))
