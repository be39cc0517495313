-- ===== src/Serialize/Utf8.antt =====
-- `String::from_utf8` and `String::from_utf8_lossy` on byte sequences. A `String` is its bytes.
use satoxcoin_seeder.Prelude.{
  ℕ, zero, suc, ◌+◌, ◌<◌, ◌≡◌, refl, Bool, true, false, ◌&&◌, List, [], ◌∷◌, ◌++◌, length, take,
  drop, All, ltb, leb, ◌==◌, if◌then◌else◌, arith,
}

-- The next character and its width, or the width of the longest prefix that no character has.
pub data CharStep : Type 0 where
  valid : ℕ → CharStep
  invalid : ℕ → CharStep

abbrev in_range : ℕ → ℕ → ℕ → Bool
in_range lo hi b = leb lo b && leb b hi

is_cont : ℕ → Bool
is_cont b = in_range 0x80 0xbf b

-- The bytes that may follow a lead byte.
second_ok : ℕ → ℕ → Bool
second_ok lead b =
    if lead == 0xe0
    then in_range 0xa0 0xbf b
    else if lead == 0xed
    then in_range 0x80 0x9f b
    else if lead == 0xf0
    then in_range 0x90 0xbf b
    else if lead == 0xf4
    then in_range 0x80 0x8f b
    else in_range 0x80 0xbf b

-- The bytes still to be read after `n` good ones, each a continuation byte.
cont_step : ℕ → ℕ → List ℕ → CharStep
unfolding is_cont
cont_step zero n rest = valid n
cont_step (suc k) n [] = invalid n
cont_step (suc k) n (b ∷ rest) =
    let more = cont_step k (n + 1) rest in if is_cont b then more else invalid n

lead_step : ℕ → ℕ → List ℕ → CharStep
unfolding cont_step second_ok
lead_step lead k [] = invalid 1
lead_step lead k (b ∷ rest) = if second_ok lead b then cont_step k 2 rest else invalid 1

char_step : ℕ → List ℕ → CharStep
unfolding lead_step
char_step b rest =
    if ltb b 0x80
    then valid 1
    else if in_range 0xc2 0xdf b
    then lead_step b 0 rest
    else if in_range 0xe0 0xef b
    then lead_step b 1 rest
    else if in_range 0xf0 0xf4 b
    then lead_step b 2 rest
    else invalid 1

-- U+FFFD
abbrev replacement : List ℕ
replacement = 0xef ∷ 0xbf ∷ 0xbd ∷ []

-- A step takes a byte at least, so the length of the input is fuel enough.
utf8_loop : ℕ → List ℕ → Bool
unfolding char_step
utf8_loop fuel [] = true
utf8_loop zero (b ∷ bs) = false
utf8_loop (suc fuel) (b ∷ bs) = elim (char_step b bs) [
  | valid n ↦ utf8_loop fuel (drop n (b ∷ bs))
  | invalid n ↦ false
]

lossy_loop : ℕ → List ℕ → List ℕ
unfolding char_step
lossy_loop fuel [] = []
lossy_loop zero (b ∷ bs) = []
lossy_loop (suc fuel) (b ∷ bs) = elim (char_step b bs) [
  | valid n ↦ take n (b ∷ bs) ++ lossy_loop fuel (drop n (b ∷ bs))
  | invalid n ↦ replacement ++ lossy_loop fuel (drop n (b ∷ bs))
]

unfoldable pub is_utf8 : List ℕ → Bool
unfolding utf8_loop
is_utf8 bs = utf8_loop (length bs) bs

unfoldable pub from_utf8_lossy : List ℕ → List ℕ
unfolding lossy_loop
from_utf8_lossy bs = lossy_loop (length bs) bs

abbrev pub IsAscii : ℕ → Type 0
IsAscii b = b < 128

pub is_utf8_of_ascii : (bs : List ℕ) → All IsAscii bs → is_utf8 bs ≡ true
unfolding is_utf8
is_utf8_of_ascii [] h = refl
is_utf8_of_ascii (b ∷ bs) h = ground (arith, is_utf8_of_ascii bs h.1)

pub from_utf8_lossy_of_ascii : (bs : List ℕ) → All IsAscii bs → from_utf8_lossy bs ≡ bs
unfolding from_utf8_lossy
from_utf8_lossy_of_ascii [] h = refl
from_utf8_lossy_of_ascii (b ∷ bs) h = ground (arith, from_utf8_lossy_of_ascii bs h.1)
