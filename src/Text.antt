-- ===== src/Text.antt =====
-- What the sources use of `str` and of the parsers of numbers. A text is the list of its
-- characters, a character its code point.
pub mod Pieces
pub mod Numbers
pub mod Limits
use satoxcoin_seeder.Prelude.{
  ℕ, zero, suc, ◌+◌, ◌-◌, ◌*◌, ◌/◌, ◌%◌, ◌^◌, Bool, true, false, not, ◌&&◌, ◌||◌, Option, none,
  some, List, [], ◌∷◌, ◌++◌, ltb, leb, ◌==◌, if◌then◌else◌, eq_bytes, ℤ, pos, negsuc,
}

-- `char::is_whitespace`
abbrev pub is_whitespace : ℕ → Bool
is_whitespace c =
    (leb 9 c && leb c 13)
    || c == 0x20
    || c == 0x85
    || c == 0xa0
    || c == 0x1680
    || (leb 0x2000 c && leb c 0x200a)
    || c == 0x2028
    || c == 0x2029
    || c == 0x202f
    || c == 0x205f
    || c == 0x3000

-- `trim_start_matches` and `trim_end_matches` with a test.
unfoldable pub trim_start : (ℕ → Bool) → List ℕ → List ℕ
trim_start p [] = []
trim_start p (c ∷ cs) = let rest = trim_start p cs in if p c then rest else c ∷ cs

abbrev pub keep_unless : Bool → ℕ → List ℕ → List ℕ
keep_unless b c (x ∷ xs) = c ∷ x ∷ xs
keep_unless true c [] = []
keep_unless false c [] = c ∷ []

unfoldable pub trim_end : (ℕ → Bool) → List ℕ → List ℕ
trim_end p [] = []
trim_end p (c ∷ cs) = keep_unless (p c) c (trim_end p cs)

unfoldable pub trim_matches : (ℕ → Bool) → List ℕ → List ℕ
trim_matches p t = trim_end p (trim_start p t)

unfoldable pub trim : List ℕ → List ℕ
trim t = trim_matches is_whitespace t

abbrev pub is_quote : ℕ → Bool
is_quote c = c == b'"'

unfoldable pub trim_quotes : List ℕ → List ℕ
trim_quotes t = trim_matches is_quote t

abbrev pub is_empty : List ℕ → Bool
is_empty [] = true
is_empty (c ∷ cs) = false

-- `starts_with` of a character, and `strip_prefix`.
abbrev pub starts_with : ℕ → List ℕ → Bool
starts_with p [] = false
starts_with p (c ∷ cs) = c == p

unfoldable pub strip_prefix : List ℕ → List ℕ → Option (List ℕ)
strip_prefix [] t = some t
strip_prefix (p ∷ ps) [] = none
strip_prefix (p ∷ ps) (c ∷ cs) = let rest = strip_prefix ps cs in if c == p then rest else none

abbrev pub is_some : {A : Type 0} → Option A → Bool
is_some none = false
is_some (some a) = true

abbrev pub begins : List ℕ → List ℕ → Bool
begins p t = is_some (strip_prefix p t)

-- The text before and behind the first `c`, or the last: `find` and `rfind` with the two slices.
abbrev pub behind : ℕ → Option (List ℕ × List ℕ) → Option (List ℕ × List ℕ)
behind x none = none
behind x (some (before, after)) = some (x ∷ before, after)

unfoldable pub split_first : ℕ → List ℕ → Option (List ℕ × List ℕ)
split_first c [] = none
split_first c (x ∷ xs) =
    let rest = split_first c xs in if x == c then some ([], xs) else behind x rest

abbrev pub or_here : Bool → List ℕ → Option (List ℕ × List ℕ) → Option (List ℕ × List ℕ)
or_here b xs (some p) = some p
or_here true xs none = some ([], xs)
or_here false xs none = none

unfoldable pub split_last : ℕ → List ℕ → Option (List ℕ × List ℕ)
split_last c [] = none
split_last c (x ∷ xs) = or_here (x == c) xs (behind x (split_last c xs))

-- `split(p).next()`: what stands before the first `p`, or everything.
unfoldable pub before : List ℕ → List ℕ → List ℕ
unfolding strip_prefix
before p [] = []
before p (c ∷ cs) = let rest = before p cs in if begins p (c ∷ cs) then [] else c ∷ rest

unfoldable pub contains_text : List ℕ → List ℕ → Bool
unfolding strip_prefix
contains_text p [] = is_empty p
contains_text p (c ∷ cs) = let rest = contains_text p cs in begins p (c ∷ cs) || rest

-- `lines`: the ends "\n" and "\r\n" are taken off, and the end of the last line may be missing.
abbrev pub onto_first : ℕ → List (List ℕ) → List (List ℕ)
onto_first c [] = (c ∷ []) ∷ []
onto_first c (l ∷ ls) = (c ∷ l) ∷ ls

unfoldable pub lines : List ℕ → List (List ℕ)
lines [] = []
lines (c ∷ cs) =
    let rest = lines cs in
    if c == b'\n'
    then [] ∷ rest
    else if c == b'\r' && starts_with b'\n' cs
    then rest
    else onto_first c rest

-- `split_whitespace`. The flag tells that the character before belongs to a word.
abbrev pub new_word : Bool → ℕ → List (List ℕ) → List (List ℕ)
new_word joined c ws = if joined then onto_first c ws else (c ∷ []) ∷ ws

abbrev pub next_is_word : List ℕ → Bool
next_is_word [] = false
next_is_word (c ∷ cs) = not (is_whitespace c)

unfoldable pub split_whitespace : List ℕ → List (List ℕ)
split_whitespace [] = []
split_whitespace (c ∷ cs) =
    let rest = split_whitespace cs in
    if is_whitespace c then rest else new_word (next_is_word cs) c rest

-- The value of a digit in base 16, and of one in a base up to that.
unfoldable pub digit_of : ℕ → Option ℕ
digit_of c =
    if leb b'0' c && leb c b'9'
    then some (c - b'0')
    else if leb b'a' c && leb c b'f'
    then some (c - b'a' + 10)
    else if leb b'A' c && leb c b'F'
    then some (c - b'A' + 10)
    else none

unfoldable pub digit_in : ℕ → ℕ → Option ℕ
digit_in radix c = elim (digit_of c) [ none ↦ none | some d ↦ if ltb d radix then some d else none ]

-- Digits, most significant first, as long as the number is at most `top`.
unfoldable pub read_digits : ℕ → ℕ → ℕ → List ℕ → Option ℕ
read_digits radix top n [] = some n
read_digits radix top n (c ∷ cs) = elim (digit_in radix c) [
  | none ↦ none
  | some d ↦
      let m = n * radix + d in
      let rest = read_digits radix top m cs in if leb m top then rest else none
]

unfoldable pub read_number : ℕ → ℕ → List ℕ → Option ℕ
read_number radix top [] = none
read_number radix top (c ∷ cs) = read_digits radix top 0 (c ∷ cs)

-- `from_str_radix` of an unsigned type with the greatest value `top`; `parse` has radix 10.
unfoldable pub parse_unsigned : ℕ → ℕ → List ℕ → Option ℕ
parse_unsigned radix top [] = none
parse_unsigned radix top (c ∷ cs) =
    if c == b'+' then read_number radix top cs else read_number radix top (c ∷ cs)

-- `parse` of a signed type from -(top + 1) to `top`.
abbrev pub negative : ℕ → ℤ
negative zero = pos 0
negative (suc n) = negsuc n

unfoldable pub parse_signed : ℕ → List ℕ → Option ℤ
parse_signed top [] = none
parse_signed top (c ∷ cs) =
    if c == b'-'
    then elim (read_number 10 (suc top) cs) [ none ↦ none | some n ↦ some (negative n) ]
    else elim (parse_unsigned 10 top (c ∷ cs)) [ none ↦ none | some n ↦ some (pos n) ]

-- Decimal digits of a number, on fuel: a number has fewer digits than its value, or one.
unfoldable pub digits : ℕ → ℕ → List ℕ
digits zero n = []
digits (suc fuel) n =
    let rest = digits fuel (n / 10) in (if ltb n 10 then [] else rest) ++ ((b'0' + n % 10) ∷ [])

unfoldable pub show_nat : ℕ → List ℕ
show_nat n = digits (suc n) n

unfoldable pub show_int : ℤ → List ℕ
show_int (pos n) = show_nat n
show_int (negsuc n) = b'-' ∷ show_nat (suc n)
