-- ===== src/Text/Limits.antt =====
-- What the parsers of numbers answer fits the type.
use satoxcoin_seeder.Prelude.{
  ℕ, suc, zero, ◌+◌, ◌*◌, ◌≤◌, inl, inr, Option, none, some, List, [], ◌∷◌, ◌==◌, leb, leb→le,
  if_holds, arith, Bool-cases, Option-cases, ℤ, pos, pos_part, neg_part,
}
use satoxcoin_seeder.Text.{
  digit_in, read_digits, read_number, parse_unsigned, parse_signed, negative,
}

abbrev pub IfSome : {A : Type 0} → (A → Type 0) → Option A → Type 0
IfSome P none = Unit
IfSome P (some a) = P a

read_digits_bound :
    (radix top n : ℕ) (t : List ℕ) → n ≤ top → IfSome (λ m. m ≤ top) (read_digits radix top n t)
unfolding read_digits
read_digits_bound radix top n [] h = h
read_digits_bound radix top n (c ∷ cs) h = elim (Option-cases (digit_in radix c)) [
  | inl e ↦ rw (e, read_digits, IfSome) tt
  | inr (d, e) ↦
      rw (e, read_digits)
        (elim (Bool-cases (leb (n * radix + d) top)) [
          | inl f ↦
              rw f (read_digits_bound radix top (n * radix + d) cs (leb→le (n * radix + d) top f))
          | inr f ↦ rw (f, IfSome) tt
        ])
]

read_number_bound : (radix top : ℕ) (t : List ℕ) → IfSome (λ m. m ≤ top) (read_number radix top t)
unfolding read_number
read_number_bound radix top [] = tt
read_number_bound radix top (c ∷ cs) = read_digits_bound radix top 0 (c ∷ cs) (omega arith)

pub parse_unsigned_bound :
    (radix top : ℕ) (t : List ℕ) → IfSome (λ m. m ≤ top) (parse_unsigned radix top t)
unfolding parse_unsigned
parse_unsigned_bound radix top [] = tt
parse_unsigned_bound radix top (c ∷ cs) =
    if_holds (IfSome (λ m. m ≤ top)) (read_number radix top cs) (read_number radix top (c ∷ cs))
      (c == b'+') (read_number_bound radix top cs) (read_number_bound radix top (c ∷ cs))

abbrev pub Fits : ℕ → ℤ → Type 0
Fits top a = (pos_part a ≤ top) × (neg_part a ≤ suc top)

pub parse_signed_bound : (top : ℕ) (t : List ℕ) → IfSome (Fits top) (parse_signed top t)
unfolding parse_signed
parse_signed_bound top [] = tt
parse_signed_bound top (c ∷ cs) = elim (Bool-cases (c == b'-')) [
  | inl e ↦ rw e (minus (read_number 10 (suc top) cs) (read_number_bound 10 (suc top) cs))
  | inr e ↦ rw e (plus (parse_unsigned 10 top (c ∷ cs)) (parse_unsigned_bound 10 top (c ∷ cs)))
]
  where
    minus :
        (o : Option ℕ)
        → IfSome (λ m. m ≤ suc top) o
        → IfSome (Fits top) (elim o [ none ↦ none | some n ↦ some (negative n) ])
    minus none h = tt
    minus (some zero) h = (omega arith, omega arith)
    minus (some (suc n)) h = (omega arith, h)

    plus :
        (o : Option ℕ)
        → IfSome (λ m. m ≤ top) o
        → IfSome (Fits top) (elim o [ none ↦ none | some n ↦ some (pos n) ])
    plus none h = tt
    plus (some n) h = (h, omega arith)
