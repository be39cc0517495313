-- ===== src/Crawler/Columns.antt =====
-- The words and the columns of a line of the dump.
use satoxcoin_seeder.Prelude.{
  ℕ, zero, suc, ◌≡◌, ◌≢◌, refl, ap, ◌∙◌, false, List, [], ◌∷◌, ◌++◌, All, All-append, append_assoc,
  arith,
}
use satoxcoin_seeder.Text.{
  is_whitespace, starts_with, trim, trim_matches, split_whitespace, show_nat,
}
use satoxcoin_seeder.Text.Pieces.{trim_start_kept, trim_end-append_kept}
use satoxcoin_seeder.Net.Display.Splits.{HostPort, dotted_form, bracket_form}
use satoxcoin_seeder.Net.Display.Ports.{
  IsVisible, digits-IsVisible, addr-IsVisible, dotted-IsVisible,
}
use satoxcoin_seeder.Dump.{read_words, read_seed_line}
use satoxcoin_seeder.Dump.Words.{split_whitespace-word, split_whitespace-spaces}
use satoxcoin_seeder.Crawler.Dumper.{spaces}

-- The first word of a line.
pub record IsWord (w : List ℕ) : Type 0 where
  pub first : ℕ
  pub rest : List ℕ
  pub parts : w ≡ first ∷ rest
  pub visible : All IsVisible (first ∷ rest)
  pub no_hash : first ≢ b'#'

pub HostPort-IsWord : {text ip : List ℕ} {port : ℕ} → HostPort text ip port → IsWord text
HostPort-IsWord (dotted_form c ip port h) = record {
  first = c;
  rest = ip ++ (b':' ∷ show_nat port);
  parts = refl;
  visible =
      All-append IsVisible (c ∷ ip) (b':' ∷ show_nat port) (dotted-IsVisible (c ∷ ip) h)
        (refl, digits-IsVisible port);
  no_hash = λ e. omega (arith, e, h.0);
}
HostPort-IsWord (bracket_form ip port h) = record {
  first = b'[';
  rest = ip ++ (b']' ∷ b':' ∷ show_nat port);
  parts = refl;
  visible = (
    refl,
    All-append IsVisible ip (b']' ∷ b':' ∷ show_nat port) (addr-IsVisible ip h)
        (refl, (refl, digits-IsVisible port)),
  );
  no_hash = λ e. omega (arith, e);
}

-- A line that begins with a word and a space is read as its words.
pub read_seed_line-word :
    (port : ℕ) (w t : List ℕ)
    → IsWord w
    → read_seed_line port (w ++ (b' ' ∷ t)) ≡ read_words port (w ∷ split_whitespace t)
unfolding read_seed_line trim trim_matches
read_seed_line-word port w t h =
    let no_comment : starts_with b'#' (h.first ∷ (h.rest ++ (b' ' ∷ t))) ≡ false =
      ground (arith, h.no_hash) in
    let trimmed = trim_start_kept is_whitespace h.first (h.rest ++ (b' ' ∷ t)) h.visible.0 in
    let kept = trim_end-append_kept is_whitespace [] (h.rest ++ (b' ' ∷ t)) h.first h.visible.0 in
    rw (h.parts, no_comment, trimmed, kept, split_whitespace-word h.first h.rest t h.visible) refl

pub spaces-cons : (n : ℕ) (t : List ℕ) → spaces n ++ (b' ' ∷ t) ≡ b' ' ∷ (spaces n ++ t)
spaces-cons zero t = refl
spaces-cons (suc n) t = ap (λ u. b' ' ∷ u) (spaces-cons n t)

-- The columns of a line, pulled apart.
pub pulled :
    (n : ℕ) (w k g r t : List ℕ)
    → ((w ++ spaces n) ++ (b' ' ∷ b' ' ∷ ((k ++ g) ++ (b' ' ∷ r)))) ++ t
      ≡ w ++ (b' ' ∷ (spaces n ++ (b' ' ∷ (k ++ (g ++ (b' ' ∷ (r ++ t)))))))
pulled n w k g r t =
    let end = b' ' ∷ (r ++ t) in
    append_assoc (w ++ spaces n) (b' ' ∷ b' ' ∷ ((k ++ g) ++ (b' ' ∷ r))) t
    ∙ append_assoc w (spaces n) (b' ' ∷ b' ' ∷ (((k ++ g) ++ (b' ' ∷ r)) ++ t))
    ∙ ap (λ u. w ++ (spaces n ++ (b' ' ∷ b' ' ∷ u)))
        (append_assoc (k ++ g) (b' ' ∷ r) t ∙ append_assoc k g end)
    ∙ ap (λ u. w ++ u) (spaces-cons n (b' ' ∷ (k ++ (g ++ end))))

pub two_columns :
    (n m : ℕ) (t : List ℕ)
    → split_whitespace (spaces n ++ (b' ' ∷ (spaces m ++ t))) ≡ split_whitespace t
two_columns n m t =
    split_whitespace-spaces n (b' ' ∷ (spaces m ++ t))
    ∙ split_whitespace-spaces 1 (spaces m ++ t)
    ∙ split_whitespace-spaces m t
