-- ===== src/Prelude/Int.antt =====
-- Signed integers over the native numbers, and the wrap-around of `i32` and `i64`.
use Prim.Native.Nat.{ℕ, suc, ◌+◌, ◌-◌, ◌*◌, ◌%◌, ◌^◌, ◌≤◌, ◌<◌}
use mathlib.Core.Path.{◌≡◌}
use mathlib.Core.Logic.{◌↔◌}
use mathlib.Core.Bool.{Bool, true}
use native.Mathlib.Omega.{arith}
use satoxcoin_seeder.Prelude.Tests.{ltb, leb, ◌==◌, if◌then◌else◌}

-- `negsuc n` is -(n + 1).
pub data ℤ : Type 0 where
  pos : ℕ → ℤ
  negsuc : ℕ → ℤ

abbrev pub pos_part : ℤ → ℕ
pos_part (pos n) = n
pos_part (negsuc n) = 0

abbrev pub neg_part : ℤ → ℕ
neg_part (pos n) = 0
neg_part (negsuc n) = suc n

-- a - b, as an integer.
abbrev pub sub_ℕ : ℕ → ℕ → ℤ
sub_ℕ a b = if leb b a then pos (a - b) else negsuc (b - a - 1)

abbrev pub ltb_ℤ : ℤ → ℤ → Bool
ltb_ℤ a b = ltb (pos_part a + neg_part b) (pos_part b + neg_part a)

abbrev pub leb_ℤ : ℤ → ℤ → Bool
leb_ℤ a b = leb (pos_part a + neg_part b) (pos_part b + neg_part a)

abbrev pub eq_ℤ : ℤ → ℤ → Bool
eq_ℤ a b = pos_part a + neg_part b == pos_part b + neg_part a

infix 50 ◌≤ℤ◌ ◌<ℤ◌
abbrev pub ◌≤ℤ◌ : ℤ → ℤ → Type 0
a ≤ℤ b = pos_part a + neg_part b ≤ pos_part b + neg_part a

abbrev pub ◌<ℤ◌ : ℤ → ℤ → Type 0
a <ℤ b = pos_part a + neg_part b < pos_part b + neg_part a

-- The integer of `w + 1` bits that the two's complement pattern of `p - n` stands for.
abbrev pub wrap : ℕ → ℕ → ℕ → ℤ
wrap half p n =
    let bits = (p + (2 * half - n % (2 * half))) % (2 * half) in
    if ltb bits half then pos bits else negsuc (2 * half - 1 - bits)

abbrev pub i32_half : ℕ
i32_half = 2 ^ 31

abbrev pub i64_half : ℕ
i64_half = 2 ^ 63

-- Addition and subtraction of `i64`, of `i32`: the release build wraps.
unfoldable pub add_i64 : ℤ → ℤ → ℤ
add_i64 a b = wrap i64_half (pos_part a + pos_part b) (neg_part a + neg_part b)

unfoldable pub sub_i64 : ℤ → ℤ → ℤ
sub_i64 a b = wrap i64_half (pos_part a + neg_part b) (neg_part a + pos_part b)

unfoldable pub add_i32 : ℤ → ℤ → ℤ
add_i32 a b = wrap i32_half (pos_part a + pos_part b) (neg_part a + neg_part b)

unfoldable pub sub_i32 : ℤ → ℤ → ℤ
sub_i32 a b = wrap i32_half (pos_part a + neg_part b) (neg_part a + pos_part b)

-- `x as u32`, and the bit patterns of `i32` and `i64` values.
unfoldable pub as_u32 : ℤ → ℕ
as_u32 a = (pos_part a + (2 ^ 32 - neg_part a % 2 ^ 32)) % 2 ^ 32

unfoldable pub as_u64 : ℤ → ℕ
as_u64 a = (pos_part a + (2 ^ 64 - neg_part a % 2 ^ 64)) % 2 ^ 64

-- `x as i32` of a `u32`.
unfoldable pub u32_as_i32 : ℕ → ℤ
u32_as_i32 n = wrap i32_half n 0

abbrev pub IsI32 : ℤ → Type 0
IsI32 a = (pos_part a < i32_half) × (neg_part a ≤ i32_half)

abbrev pub IsI64 : ℤ → Type 0
IsI64 a = (pos_part a < i64_half) × (neg_part a ≤ i64_half)

pub eq_ℤ_iff : (a b : ℤ) → (eq_ℤ a b ≡ true) ↔ (a ≡ b)
eq_ℤ_iff a b = ground arith

pub eq_of_parts : (a b : ℤ) → pos_part a + neg_part b ≡ pos_part b + neg_part a → a ≡ b
eq_of_parts a b h = ground arith

pub u32_as_i32-as_u32 : (a : ℤ) → IsI32 a → u32_as_i32 (as_u32 a) ≡ a
unfolding u32_as_i32 as_u32
u32_as_i32-as_u32 (pos n) h = ground arith
u32_as_i32-as_u32 (negsuc n) h = ground arith

-- In range nothing wraps.
pub add_i64_small : (a b : ℕ) → a + b < i64_half → add_i64 (pos a) (pos b) ≡ pos (a + b)
unfolding add_i64
add_i64_small a b h = ground arith

pub add_i32_small : (a b : ℕ) → a + b < i32_half → add_i32 (pos a) (pos b) ≡ pos (a + b)
unfolding add_i32
add_i32_small a b h = ground arith

pub as_u32_bound : (a : ℤ) → as_u32 a < 256 ^ 4
unfolding as_u32
as_u32_bound a = omega arith
