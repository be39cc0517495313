-- ===== src/Prelude/Lists.antt =====
-- Lists measured and indexed by native numbers, under the library's names.
use Prim.Native.Nat.{ℕ, zero, suc, ◌+◌, ◌-◌, ◌≤◌, min}
use mathlib.Core.Path.{◌≡◌, refl, sym, ap, ◌∙◌}
use mathlib.Core.List.{List, [], ◌∷◌, ◌++◌, append-nil}
use mathlib.Core.Option.{Option, none, some}
use native.Mathlib.Omega.{arith}

module _ {ℓ} {A : Type ℓ} where
  abbrev pub length : List A → ℕ
  length [] = 0
  length (x ∷ xs) = suc (length xs)

  abbrev pub get_elem? : List A → ℕ → Option A
  get_elem? [] i = none
  get_elem? (x ∷ xs) zero = some x
  get_elem? (x ∷ xs) (suc i) = get_elem? xs i

  abbrev pub get_or : List A → ℕ → A → A
  get_or [] i d = d
  get_or (x ∷ xs) zero d = x
  get_or (x ∷ xs) (suc i) d = get_or xs i d

  abbrev pub take : ℕ → List A → List A
  take zero xs = []
  take (suc n) [] = []
  take (suc n) (x ∷ xs) = x ∷ take n xs

  abbrev pub drop : ℕ → List A → List A
  drop zero xs = xs
  drop (suc n) [] = []
  drop (suc n) (x ∷ xs) = drop n xs

  abbrev pub replicate : ℕ → A → List A
  replicate zero a = []
  replicate (suc n) a = a ∷ replicate n a

  -- `data[from..to]`, for `from ≤ to ≤ data.len()`.
  abbrev pub slice : List A → ℕ → ℕ → List A
  slice xs from to = take (to - from) (drop from xs)

  abbrev pub All {κ} : (A → Type κ) → List A → Type κ
  All P [] = Unit {κ}
  All P (x ∷ xs) = P x × All P xs

module _ {ℓ} {A : Type ℓ} where
  pub length-append : (xs ys : List A) → length (xs ++ ys) ≡ length xs + length ys
  length-append [] ys = omega arith
  length-append (x ∷ xs) ys = omega (arith, length-append xs ys)

  pub length-take : (n : ℕ) (xs : List A) → length (take n xs) ≡ min n (length xs)
  length-take zero xs = omega arith
  length-take (suc n) [] = omega arith
  length-take (suc n) (x ∷ xs) = omega (arith, length-take n xs)

  pub length-drop : (n : ℕ) (xs : List A) → length (drop n xs) ≡ length xs - n
  length-drop zero xs = omega arith
  length-drop (suc n) [] = omega arith
  length-drop (suc n) (x ∷ xs) = omega (arith, length-drop n xs)

  pub length-replicate : (n : ℕ) (a : A) → length (replicate n a) ≡ n
  length-replicate zero a = refl
  length-replicate (suc n) a = ap suc (length-replicate n a)

  pub take-append-drop : (n : ℕ) (xs : List A) → take n xs ++ drop n xs ≡ xs
  take-append-drop zero xs = refl
  take-append-drop (suc n) [] = refl
  take-append-drop (suc n) (x ∷ xs) = rw (take-append-drop n xs)

  -- The first `length xs` entries of `xs ++ ys`, and what follows them.
  pub take_left : (n : ℕ) (xs ys : List A) → length xs ≡ n → take n (xs ++ ys) ≡ xs
  take_left zero [] ys h = refl
  take_left zero (x ∷ xs) ys h = absurd (omega arith)
  take_left (suc n) [] ys h = absurd (omega arith)
  take_left (suc n) (x ∷ xs) ys h = ap (◌∷◌ x) (take_left n xs ys (omega arith))

  pub drop_left : (n : ℕ) (xs ys : List A) → length xs ≡ n → drop n (xs ++ ys) ≡ ys
  drop_left zero [] ys h = refl
  drop_left zero (x ∷ xs) ys h = absurd (omega arith)
  drop_left (suc n) [] ys h = absurd (omega arith)
  drop_left (suc n) (x ∷ xs) ys h = drop_left n xs ys (omega arith)

  pub drop-drop : (m n : ℕ) (xs : List A) → drop n (drop m xs) ≡ drop (m + n) xs
  drop-drop zero n xs = rw (let e : 0 + n ≡ n = omega arith in e)
  drop-drop (suc m) zero [] = rw (let e : suc m + 0 ≡ suc m = omega arith in e)
  drop-drop (suc m) (suc n) [] = rw (let e : suc m + suc n ≡ suc (m + suc n) = omega arith in e)
  drop-drop (suc m) n (x ∷ xs) =
      drop-drop m n xs ∙ rw (let e : suc m + n ≡ suc (m + n) = omega arith in e)

  -- Past a first part of length `n`.
  pub drop_past : (n k : ℕ) (xs ys : List A) → length xs ≡ n → drop (n + k) (xs ++ ys) ≡ drop k ys
  drop_past n k xs ys h = sym (drop-drop n k (xs ++ ys)) ∙ ap (drop k) (drop_left n xs ys h)

  pub get_or-drop : (n i : ℕ) (xs : List A) (d : A) → get_or (drop n xs) i d ≡ get_or xs (n + i) d
  get_or-drop zero i xs d = rw (let e : 0 + i ≡ i = omega arith in e)
  get_or-drop (suc n) i [] d = refl
  get_or-drop (suc n) i (x ∷ xs) d =
      get_or-drop n i xs d ∙ rw (let e : suc n + i ≡ suc (n + i) = omega arith in e)

  pub get_or_middle :
      (front rest : List A) (x d : A) → get_or (front ++ (x ∷ rest)) (length front) d ≡ x
  get_or_middle [] rest x d = refl
  get_or_middle (y ∷ front) rest x d = get_or_middle front rest x d

  pub slice_middle :
      (front mid rest : List A) (n : ℕ)
      → length mid ≡ n
      → slice (front ++ (mid ++ rest)) (length front) (length front + n) ≡ mid
  slice_middle front mid rest n h =
      rw
        (
          drop_left (length front) front (mid ++ rest) refl,
          let e : length front + n - length front ≡ n = omega arith in e,
        )
        (take_left n mid rest h)

  pub length-slice :
      (xs : List A) (from to : ℕ)
      → from ≤ to
      → to ≤ length xs
      → length (slice xs from to) ≡ to - from
  length-slice xs from to h k =
      omega (arith, length-take (to - from) (drop from xs), length-drop from xs)

  pub take_all : (n : ℕ) (xs : List A) → length xs ≡ n → take n xs ≡ xs
  take_all n xs h = rw append-nil at (take_left n xs [] h)

  pub All-imp {κ μ} :
      {P : A → Type κ} {Q : A → Type μ}
      → ((x : A) → P x → Q x)
      → (xs : List A) → All P xs
      → All Q xs
  All-imp f [] h = tt
  All-imp f (x ∷ xs) h = (f x h.0, All-imp f xs h.1)

  pub All-take {κ} : (P : A → Type κ) (n : ℕ) (xs : List A) → All P xs → All P (take n xs)
  All-take P zero xs h = tt
  All-take P (suc n) [] h = tt
  All-take P (suc n) (x ∷ xs) h = (h.0, All-take P n xs h.1)

  pub All-drop {κ} : (P : A → Type κ) (n : ℕ) (xs : List A) → All P xs → All P (drop n xs)
  All-drop P zero xs h = h
  All-drop P (suc n) [] h = tt
  All-drop P (suc n) (x ∷ xs) h = All-drop P n xs h.1

  pub All-get_or {κ} :
      (P : A → Type κ) (i : ℕ) (xs : List A) (d : A) → All P xs → P d → P (get_or xs i d)
  All-get_or P i [] d h k = k
  All-get_or P zero (x ∷ xs) d h k = h.0
  All-get_or P (suc i) (x ∷ xs) d h k = All-get_or P i xs d h.1 k

  pub All-append {κ} : (P : A → Type κ) (xs ys : List A) → All P xs → All P ys → All P (xs ++ ys)
  All-append P [] ys hx hy = hy
  All-append P (x ∷ xs) ys hx hy = (hx.0, All-append P xs ys hx.1 hy)
