-- ===== src/Text/Numbers.antt =====
-- Numbers are printed in decimal so that the parsers read them back.
use satoxcoin_seeder.Prelude.{
  pos_part, neg_part, ap, ◌≢◌, if_holds, length-append, ℕ, zero, suc, ◌+◌, ◌-◌, ◌*◌, ◌/◌, ◌%◌, ◌≤◌,
  ◌<◌, ◌≡◌, refl, ◌∙◌, inl, inr, true, false, some, List, [], ◌∷◌, ◌++◌, ltb, leb, ◌==◌,
  if◌then◌else◌, All, All-append, Bool-cases, arith, ℤ, pos, negsuc, le→leb,
}
use satoxcoin_seeder.Text.{
  digit_of, digit_in, read_digits, read_number, parse_unsigned, parse_signed, digits, show_nat,
  show_int,
}

abbrev pub IsDigit : ℕ → Type 0
IsDigit c = (b'0' ≤ c) × (c ≤ b'9')

-- The number that decimal digits behind `a` stand for.
value : ℕ → List ℕ → ℕ
value a [] = a
value a (c ∷ cs) = value (a * 10 + (c - b'0')) cs

value_le : (a : ℕ) (cs : List ℕ) → a ≤ value a cs
unfolding value
value_le a [] = omega arith
value_le a (c ∷ cs) = omega (arith, value_le (a * 10 + (c - b'0')) cs)

value-append : (a c : ℕ) (cs : List ℕ) → value a (cs ++ (c ∷ [])) ≡ value a cs * 10 + (c - b'0')
unfolding value
value-append a c [] = refl
value-append a c (d ∷ cs) = value-append (a * 10 + (d - b'0')) c cs

digit_in_ten : (c : ℕ) → IsDigit c → digit_in 10 c ≡ some (c - b'0')
unfolding digit_in digit_of
digit_in_ten c h = ground arith

read_digits-value :
    (top a : ℕ) (cs : List ℕ)
    → All IsDigit cs
    → value a cs ≤ top
    → read_digits 10 top a cs ≡ some (value a cs)
unfolding read_digits value
read_digits-value top a [] h k = refl
read_digits-value top a (c ∷ cs) (d, h) k =
    let m = a * 10 + (c - b'0') in
    let fits : leb m top ≡ true = le→leb m top (omega (arith, value_le m cs, k)) in
    rw (digit_in_ten c d, read_digits, fits) (read_digits-value top m cs h k)

digits-IsDigit : (fuel n : ℕ) → All IsDigit (digits fuel n)
unfolding digits
digits-IsDigit zero n = tt
digits-IsDigit (suc fuel) n =
    All-append IsDigit (if ltb n 10 then [] else digits fuel (n / 10)) ((b'0' + n % 10) ∷ [])
      (if_holds (All IsDigit) [] (digits fuel (n / 10)) (ltb n 10) tt
        (digits-IsDigit fuel (n / 10)))
      ((omega arith, omega arith), tt)

value-digits : (fuel n : ℕ) → n < fuel → value 0 (digits fuel n) ≡ n
unfolding digits
value-digits zero n h = omega arith
value-digits (suc fuel) n h = elim (Bool-cases (ltb n 10)) [
  | inl e ↦ rw (e, value-append 0 (b'0' + n % 10) []) (unfold value in ground arith)
  | inr e ↦
      let smaller : n / 10 < fuel = ground arith in
      rw
        (
          e,
          value-append 0 (b'0' + n % 10) (digits fuel (n / 10)),
          value-digits fuel (n / 10) smaller,
        )
        (omega arith)
]

pub show_nat-IsDigit : (n : ℕ) → All IsDigit (show_nat n)
unfolding show_nat
show_nat-IsDigit n = digits-IsDigit (suc n) n

read_number_digits :
    (top n : ℕ) (t : List ℕ)
    → All IsDigit t
    → value 0 t ≡ n
    → n ≤ top
    → t ≢ []
    → (read_number 10 top t ≡ some n)
      × (parse_unsigned 10 top t ≡ some n)
      × (parse_signed top t ≡ some (pos n))
read_number_digits top n [] h e k some_digit = absurd (some_digit refl)
read_number_digits top n (c ∷ cs) h e k some_digit =
    let read : read_number 10 top (c ∷ cs) ≡ some n =
      unfold read_number in read_digits-value top 0 (c ∷ cs) h (omega (arith, e)) ∙ ap some e in
    let plus : (c == b'+') ≡ false = ground (arith, h.0) in
    let minus : (c == b'-') ≡ false = ground (arith, h.0) in
    let unsigned : parse_unsigned 10 top (c ∷ cs) ≡ some n =
      unfold parse_unsigned in rw plus read in
    (read, unsigned, unfold parse_signed in rw (minus, unsigned, parse_signed) refl)

pub show_nat_some : (n : ℕ) → show_nat n ≢ []
unfolding show_nat digits
show_nat_some n h =
    ground
      (arith, length-append (if ltb n 10 then [] else digits n (n / 10)) ((b'0' + n % 10) ∷ []))

-- A number that fits is read back from its decimal digits, by the unsigned parser and by the
-- signed one.
pub parse_unsigned-show_nat :
    (top n : ℕ)
    → n ≤ top
    → (parse_unsigned 10 top (show_nat n) ≡ some n) × (parse_signed top (show_nat n) ≡ some (pos n))
parse_unsigned-show_nat top n h =
    let (_, unsigned, signed) =
      read_number_digits top n (show_nat n) (show_nat-IsDigit n)
        (unfold show_nat in value-digits (suc n) n (omega arith)) h (show_nat_some n) in
    (unsigned, signed)

-- An integer of 64 bits is read back from its decimal text.
pub parse_signed-show_int :
    (top : ℕ) (a : ℤ)
    → (pos_part a ≤ top) × (neg_part a ≤ suc top)
    → parse_signed top (show_int a) ≡ some a
unfolding show_int
parse_signed-show_int top (pos n) h = (parse_unsigned-show_nat top n h.0).1
parse_signed-show_int top (negsuc n) h =
    let (read, _, _) =
      read_number_digits (suc top) (suc n) (show_nat (suc n)) (show_nat-IsDigit (suc n))
        (unfold show_nat in value-digits (suc (suc n)) (suc n) (omega arith)) h.1
        (show_nat_some (suc n)) in
    unfold parse_signed in rw (read, parse_signed) refl
