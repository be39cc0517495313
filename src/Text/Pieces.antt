-- ===== src/Text/Pieces.antt =====
-- Trimming and splitting texts that are put together from pieces.
use satoxcoin_seeder.Prelude.{
  ℕ, ◌≡◌, ◌≢◌, refl, ap, ◌↔◌, Bool, true, false, none, some, List, [], ◌∷◌, ◌++◌, ◌==◌, All, arith,
}
use satoxcoin_seeder.Text.{
  trim_start, trim_end, keep_unless, split_first, split_last, behind, or_here,
}

module _ (p : ℕ → Bool) where
  pub trim_start_kept : (c : ℕ) (t : List ℕ) → p c ≡ false → trim_start p (c ∷ t) ≡ c ∷ t
  unfolding trim_start
  trim_start_kept c t h = rw h refl

  pub trim_end-append_kept :
      (s t : List ℕ) (c : ℕ) → p c ≡ false → trim_end p (s ++ (c ∷ t)) ≡ s ++ (c ∷ trim_end p t)
  unfolding trim_end
  trim_end-append_kept [] t c h = kept (trim_end p t)
    where
      kept : (u : List ℕ) → keep_unless (p c) c u ≡ c ∷ u
      kept [] = rw h refl
      kept (x ∷ u) = refl
  trim_end-append_kept (x ∷ s) t c h = rw (trim_end-append_kept s t c h) (kept s)
    where
      kept :
          (s : List ℕ)
          → keep_unless (p x) x (s ++ (c ∷ trim_end p t)) ≡ x ∷ (s ++ (c ∷ trim_end p t))
      kept [] = refl
      kept (y ∷ s) = refl

  pub trim_end-append_dropped :
      (s : List ℕ) (c : ℕ) → p c ≡ true → trim_end p (s ++ (c ∷ [])) ≡ trim_end p s
  unfolding trim_end
  trim_end-append_dropped [] c h = rw h refl
  trim_end-append_dropped (x ∷ s) c h = ap (keep_unless (p x) x) (trim_end-append_dropped s c h)

  pub trim_end-All : (t : List ℕ) → All (λ c. p c ≡ false) t → trim_end p t ≡ t
  unfolding trim_end
  trim_end-All [] h = refl
  trim_end-All (c ∷ cs) (h, k) = rw (trim_end-All cs k) (kept cs)
    where
      kept : (u : List ℕ) → keep_unless (p c) c u ≡ c ∷ u
      kept [] = rw h refl
      kept (x ∷ u) = refl

  pub All-trim_end : (P : ℕ → Type 0) (t : List ℕ) → All P t → All P (trim_end p t)
  unfolding trim_end
  All-trim_end P [] h = tt
  All-trim_end P (c ∷ cs) (h, k) = kept (p c) (trim_end p cs) (All-trim_end P cs k)
    where
      kept : (b : Bool) (u : List ℕ) → All P u → All P (keep_unless b c u)
      kept true [] all = tt
      kept false [] all = (h, tt)
      kept b (x ∷ u) all = (h, all)

-- Splitting at a character that stands where it is looked for.
pub split_first_here :
    (c : ℕ) (s t : List ℕ) → All (λ x. x ≢ c) s → split_first c (s ++ (c ∷ t)) ≡ some (s, t)
unfolding split_first
split_first_here c [] t h = ground arith
split_first_here c (x ∷ s) t (h, k) =
    let other : (x == c) ≡ false = ground (arith, h) in rw (split_first_here c s t k, other) refl

pub split_last-none_iff : (c : ℕ) (t : List ℕ) → (split_last c t ≡ none) ↔ All (λ x. x ≢ c) t
unfolding split_last
split_last-none_iff c [] = (λ h. tt, λ h. refl)
split_last-none_iff c (x ∷ t) = (
  λ h. (no_here h, (split_last-none_iff c t).0 (no_later h)),
  λ h. none_there h.0 ((split_last-none_iff c t).1 h.1),
)
  where
    no_later : or_here (x == c) t (behind x (split_last c t)) ≡ none → split_last c t ≡ none
    no_later h = ground arith

    no_here : or_here (x == c) t (behind x (split_last c t)) ≡ none → x ≢ c
    no_here h = ground arith

    none_there :
        x ≢ c → split_last c t ≡ none → or_here (x == c) t (behind x (split_last c t)) ≡ none
    none_there ne h = ground arith

pub split_last_here :
    (c : ℕ) (s t : List ℕ) → All (λ x. x ≢ c) t → split_last c (s ++ (c ∷ t)) ≡ some (s, t)
unfolding split_last
split_last_here c [] t h = rw ((split_last-none_iff c t).1 h) (ground arith)
split_last_here c (x ∷ s) t h = rw (split_last_here c s t h) refl
