-- ===== src/Dump/Words.antt =====
-- Lines and words of texts that are put together from pieces.
use satoxcoin_seeder.Prelude.{
  ℕ, zero, suc, ◌≡◌, ◌≢◌, refl, false, ◌&&◌, List, [], ◌∷◌, ◌++◌, ◌==◌, replicate, All, arith,
}
use satoxcoin_seeder.Text.{is_whitespace, starts_with, lines, split_whitespace}

-- A word before a space.
pub split_whitespace-word :
    (c : ℕ) (w t : List ℕ)
    → All (λ x. is_whitespace x ≡ false) (c ∷ w)
    → split_whitespace ((c ∷ w) ++ (b' ' ∷ t)) ≡ (c ∷ w) ∷ split_whitespace t
unfolding split_whitespace
split_whitespace-word c [] t (h, k) = rw h refl
split_whitespace-word c (d ∷ w) t (h, k) = rw (h, split_whitespace-word d w t k, k.0) refl

pub split_whitespace-spaces :
    (n : ℕ) (t : List ℕ) → split_whitespace (replicate n b' ' ++ t) ≡ split_whitespace t
unfolding split_whitespace
split_whitespace-spaces zero t = refl
split_whitespace-spaces (suc n) t = split_whitespace-spaces n t

-- A line without line breaks that does not end in a carriage return.
pub lines-line :
    (s t : List ℕ) (c : ℕ)
    → All (λ x. x ≢ b'\n') s
    → c ≢ b'\n'
    → c ≢ b'\r'
    → lines (s ++ (c ∷ b'\n' ∷ t)) ≡ (s ++ (c ∷ [])) ∷ lines t
unfolding lines
lines-line [] t c h ne nr = ground (arith, ne, nr)
lines-line (d ∷ s) t c (h, k) ne nr =
    let tail = lines-line s t c k ne nr in
    let no_break : (d == b'\n') ≡ false = ground (arith, h) in
    let no_return : (d == b'\r' && starts_with b'\n' (s ++ (c ∷ b'\n' ∷ t))) ≡ false = inside s k in
    rw (no_break, no_return, tail) refl
  where
    inside :
        (s : List ℕ)
        → All (λ x. x ≢ b'\n') s
        → (d == b'\r' && starts_with b'\n' (s ++ (c ∷ b'\n' ∷ t))) ≡ false
    inside [] k = ground (arith, ne)
    inside (x ∷ s) k = ground (arith, k.0)
