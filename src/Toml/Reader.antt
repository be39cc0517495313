-- ===== src/Toml/Reader.antt =====
-- What the reader of the settings file does with a line, and with the whole text.
use satoxcoin_seeder.Prelude.{
  ℕ, zero, suc, ◌≡◌, ◌≢◌, refl, sym, subst, if_holds, ◌↔◌, inl, inr, true, false, none, some, List,
  [], ◌∷◌, get_elem?, All, arith, Bool-cases, Option-cases,
}
use satoxcoin_seeder.Text.{starts_with, trim, lines, split_first, split_last}
use satoxcoin_seeder.Text.Pieces.{split_last-none_iff}
use satoxcoin_seeder.Toml.{
  ConfigError, is_hex, read_plain, Outcome, ok, err, panic, ◌>>=◌, string, Table, text_eq,
  is_comment, inner_text, read_quoted, read_value, read_line, read_lines, from_str,
}

-- A value that begins with a quote that is the only one.
abbrev pub IsOpen : List ℕ → Type 0
IsOpen value = (rest : List ℕ) × (value ≡ b'"' ∷ rest) × All (λ c. c ≢ b'"') rest

-- A line, no comment, with such a value.
pub record IsUnclosed (line : List ℕ) : Type 0 where
  pub no_comment : is_comment (trim line) ≡ false
  pub key : List ℕ
  pub value : List ℕ
  pub at : split_first b'=' (trim line) ≡ some (key, value)
  pub is_open : IsOpen (trim value)

-- What an outcome says of its cause.
abbrev Tells : {A : Type 0} → Type 0 → Outcome A → Type 0
Tells P (ok a) = P → ⊥
Tells P (err e) = ⊥
Tells P panic = P

read_quoted-Tells :
    (trimmed rest : List ℕ) → Tells (IsOpen (b'"' ∷ rest)) (read_quoted trimmed (b'"' ∷ rest))
unfolding read_quoted split_last inner_text
read_quoted-Tells trimmed rest = elim (Option-cases (split_last b'"' rest)) [
  | inl e ↦
      rw (e, read_quoted, split_last, inner_text, Tells)
        (rest, refl, (split_last-none_iff b'"' rest).0 e)
  | inr ((before, after), e) ↦
      rw (e, read_quoted, split_last, inner_text, Tells) (closed (before, after) e)
]
  where
    closed : (p : List ℕ × List ℕ) → split_last b'"' rest ≡ some p → IsOpen (b'"' ∷ rest) → ⊥
    closed p e (r, same, all) =
        let tail : rest ≡ r = ground arith in
        ground (arith, (split_last-none_iff b'"' rest).1 (rw tail all))

Tells-iff : {A P Q : Type 0} (o : Outcome A) → (P → Q) → (Q → P) → Tells P o → Tells Q o
Tells-iff (ok a) f g h = λ q. h (g q)
Tells-iff (err e) f g h = h
Tells-iff panic f g h = f h

Tells-ok :
    {A B : Type 0} (P : Type 0) (o : Outcome A) (f : A → B)
    → Tells P o
    → Tells P (o >>= λ a. ok (f a))
Tells-ok P (ok a) f h = h
Tells-ok P (err e) f h = h
Tells-ok P panic f h = h

Tells-bind :
    {A B P Q : Type 0} (o : Outcome A) (k : A → Outcome B)
    → Tells P o
    → (P → Q)
    → ((a : A) → (P → ⊥) → Tells Q (k a))
    → Tells Q (o >>= k)
Tells-bind (ok a) k h f g = g a h
Tells-bind (err e) k h f g = h
Tells-bind panic k h f g = f h

not_open : (value : List ℕ) → starts_with b'"' value ≡ false → IsOpen value → ⊥
not_open [] h (rest, e, all) = ground arith
not_open (c ∷ cs) h (rest, e, all) = ground arith

opened : (value : List ℕ) → starts_with b'"' value ≡ true → (rest : List ℕ) × (value ≡ b'"' ∷ rest)
opened [] h = absurd (ground arith)
opened (c ∷ cs) h = (cs, ground arith)

read_value-Tells : (trimmed value : List ℕ) → Tells (IsOpen value) (read_value trimmed value)
unfolding read_value
read_value-Tells trimmed value = elim (Bool-cases (starts_with b'"' value)) [
  | inr e ↦ rw e (
      if_holds (Tells (IsOpen value)) (ok (string value)) (ok (read_plain value)) (is_hex value)
        (not_open value e) (not_open value e))
  | inl e ↦ let (rest, same) = opened value e in rw same (read_quoted-Tells trimmed rest)
]

read_line-Tells :
    (line : List ℕ) (entries : Table) → Tells (IsUnclosed line) (read_line line entries)
unfolding read_line
read_line-Tells line entries = elim (Bool-cases (is_comment (trim line))) [
  | inl e ↦ rw (e, Tells) (λ u. ground (arith, u.no_comment))
  | inr e ↦ rw e (elim (Option-cases (split_first b'=' (trim line))) [
    | inl f ↦ rw (f, read_line, Tells) (λ u. no_key f u)
    | inr (p, f) ↦
        rw (f, read_line)
          (Tells-ok (IsUnclosed line) (read_value (trim line) (trim p.1)) _ (
            Tells-iff (read_value (trim line) (trim p.1))
              (λ o. record { no_comment = e; key = p.0; value = p.1; at = f; is_open = o })
              (λ u. value_open p f u) (read_value-Tells (trim line) (trim p.1))))
  ])
]
  where
    no_key : split_first b'=' (trim line) ≡ none → IsUnclosed line → ⊥
    no_key f u = ground (arith, u.at)

    value_open :
        (p : List ℕ × List ℕ)
        → split_first b'=' (trim line) ≡ some p
        → IsUnclosed line
        → IsOpen (trim p.1)
    value_open p f u =
        let same : u.value ≡ p.1 = ground (arith, u.at) in
        subst (λ v. IsOpen (trim v)) same u.is_open

-- Some line of these is unclosed.
abbrev pub HasUnclosed : List (List ℕ) → Type 0
HasUnclosed ls = (i : ℕ) × (line : List ℕ) × (get_elem? ls i ≡ some line) × IsUnclosed line

read_lines-Tells :
    (ls : List (List ℕ)) (entries : Table) → Tells (HasUnclosed ls) (read_lines ls entries)
unfolding read_lines
read_lines-Tells [] entries = λ (i, l, at, u). ground arith
read_lines-Tells (line ∷ rest) entries =
    Tells-bind (read_line line entries) (read_lines rest) (read_line-Tells line entries)
      (λ u. (0, line, refl, u))
      (λ t closed.
        Tells-iff (read_lines rest t) (λ (i, l, at, u). (suc i, l, at, u)) (later closed)
          (read_lines-Tells rest t))
  where
    later : (IsUnclosed line → ⊥) → HasUnclosed (line ∷ rest) → HasUnclosed rest
    later closed (zero, l, at, u) =
        let same : line ≡ l = ground arith in absurd (closed (subst IsUnclosed (sym same) u))
    later closed (suc i, l, at, u) = (i, l, at, u)

outcome_iff :
    {A P : Type 0} (o : Outcome A) → Tells P o → ((o ≡ panic) ↔ P) × ((e : ConfigError) → o ≢ err e)
outcome_iff (ok a) h = ((λ e. ground arith, λ p. absurd (h p)), λ e f. ground arith)
outcome_iff (err e) h = absurd h
outcome_iff panic h = ((λ e. h, λ p. refl), λ e f. ground arith)

-- Reading the settings panics exactly if some line that is no comment has a value that begins with
-- a quote and has no other, and never gives the error for an unclosed quote, or another one.
pub from_str-eq-panic_iff :
    (input : List ℕ)
    → ((from_str input ≡ panic) ↔ HasUnclosed (lines input))
      × ((e : ConfigError) → from_str input ≢ err e)
unfolding from_str
from_str-eq-panic_iff input = outcome_iff (from_str input) (read_lines-Tells (lines input) [])
