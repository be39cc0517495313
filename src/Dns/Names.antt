-- ===== src/Dns/Names.antt =====
-- Names are read back as they were written; a reference to itself is followed without end.
use satoxcoin_seeder.Prelude.{
  ℕ, All-get_or, ◌≢◌, zero, suc, ◌+◌, ◌/◌, ◌^◌, ◌*◌, ◌%◌, ◌≤◌, ◌<◌, ◌≡◌, refl, ap, subst, ◌∙◌, sym,
  Bool, true, false, some, List, [], ◌∷◌, ◌++◌, length, length-append, append_assoc, append-nil,
  get_or, get_or_middle, slice, slice_middle, All, ◌==◌, if◌then◌else◌, arith, Bool-cases, inl, inr,
  le→ltb, lt→leb,
}
use satoxcoin_seeder.Serialize.Utf8.{IsAscii}
use satoxcoin_seeder.Dns.{
  Parsed, parsed, failed, too_deep, Label, stop, label, reference, push_chars, next_label,
  after_reference, parse_labels, parse_name, split_dots, write_parts, write_name,
}

module _ (bytes : List ℕ) (at : ℕ) (inside : at + 1 < length bytes) (low : at < 2 ^ 14)
    (high_byte : get_or bytes at 0 ≡ 0xc0 + at / 256)
    (low_byte : get_or bytes (at + 1) 0 ≡ at % 256) where
  to_itself : next_label bytes at [] true ≡ reference [] at (at + 1 + 1)
  unfolding next_label
  to_itself =
      let target : (0xc0 + at / 256) % 64 * 256 + at % 256 ≡ at = omega arith in
      rw
        (
          high_byte,
          low_byte,
          target,
          lt→leb (length bytes) at (omega arith),
          lt→leb (length bytes) (at + 1) inside,
        )
        (ground arith)

  labels_loop : (fuel : ℕ) → parse_labels fuel bytes at [] true ≡ too_deep
  unfolding parse_labels after_reference
  labels_loop zero = refl
  labels_loop (suc fuel) = rw (to_itself, parse_labels) (rw (labels_loop fuel) refl)

  -- A name whose reference points at itself is never read to its end: no amount of fuel is
  -- enough, and the program recurses until its stack is full.
  pub parse_name-loops : (fuel : ℕ) → parse_name fuel bytes at ≡ too_deep
  unfolding parse_name
  parse_name-loops fuel = labels_loop fuel

-- The labels of a name, put together again.
unfoldable pub join_more : List (List ℕ) → List ℕ
join_more [] = []
join_more (l ∷ ls) = b'.' ∷ (l ++ join_more ls)

unfoldable pub join_dots : List (List ℕ) → List ℕ
join_dots [] = []
join_dots (l ∷ ls) = l ++ join_more ls

split_dots_cons : (s : List ℕ) → (l : List ℕ) × (ls : List (List ℕ)) × (split_dots s ≡ l ∷ ls)
unfolding split_dots
split_dots_cons [] = ([], [], refl)
split_dots_cons (c ∷ s) =
    let (l, ls, e) = split_dots_cons s in
    elim (Bool-cases (c == b'.')) [
      | inl f ↦ ([], l ∷ ls, rw (f, e) refl)
      | inr f ↦ (c ∷ l, ls, rw (f, e) refl)
    ]

join_dots-split_dots : (s : List ℕ) → join_dots (split_dots s) ≡ s
unfolding join_dots join_more split_dots
join_dots-split_dots [] = refl
join_dots-split_dots (c ∷ s) =
    let (l, ls, e) = split_dots_cons s in
    let ih : l ++ join_more ls ≡ s = ap join_dots (sym e) ∙ join_dots-split_dots s in
    elim (Bool-cases (c == b'.')) [
      | inl f ↦ rw (e, f, ih) (ground arith)
      | inr f ↦ rw (e, f, ih) refl
    ]

-- The bytes of labels, each behind its length.
unfoldable pub encode : List (List ℕ) → List ℕ
encode [] = 0 ∷ []
encode (l ∷ ls) = length l ∷ (l ++ encode ls)

-- What a label can be on the wire, if it is to be read back.
abbrev pub IsLabel : List ℕ → Type 0
IsLabel l = (0 < length l) × (length l ≤ 63) × All IsAscii l

push_chars_of_ascii : (l : List ℕ) → All IsAscii l → push_chars l ≡ l
unfolding push_chars
push_chars_of_ascii [] h = refl
push_chars_of_ascii (c ∷ l) h = ground (arith, push_chars_of_ascii l h.1)

pub write_parts_lem :
    (buf : List ℕ) (ls : List (List ℕ))
    → All IsLabel ls
    → write_parts buf ls ≡ some (buf ++ encode ls)
unfolding write_parts encode
write_parts_lem buf [] h = refl
write_parts_lem buf (l ∷ ls) h =
    rw (le→ltb 63 (length l) h.0.1, write_parts_lem (buf ++ (length l ∷ l)) ls h.1)
      (ap some (simp append_assoc))

pub slice_after :
    (bytes front rest l : List ℕ) (x at : ℕ)
    → bytes ≡ front ++ (x ∷ (l ++ rest))
    → length front ≡ at
    → slice bytes (at + 1) (at + 1 + length l) ≡ l
slice_after bytes front rest l x at w k =
    let front' = front ++ (x ∷ []) in
    let longer : length front' ≡ at + 1 = omega (arith, length-append front (x ∷ [])) in
    let split : bytes ≡ front' ++ (l ++ rest) = w ∙ simp append_assoc in
    rw (← longer, split) (slice_middle front' l rest (length l) refl)

module _ (bytes front rest : List ℕ) (at : ℕ) (name : List ℕ) (first : Bool)
    (k : length front ≡ at) where
  label_at :
      (l : List ℕ)
      → IsLabel l
      → bytes ≡ front ++ (length l ∷ (l ++ rest))
      → next_label bytes at name first
        ≡ label ((if first then name else name ++ (b'.' ∷ [])) ++ l) (at + 1 + length l)
  unfolding next_label
  label_at l h w =
      let octet : get_or bytes at 0 ≡ length l =
        rw (w, ← k) (get_or_middle front (l ++ rest) (length l) 0) in
      let size : length bytes ≡ at + 1 + length l + length rest =
        omega (
          arith,
          ap length w,
          length-append front (length l ∷ (l ++ rest)),
          length-append l rest,
        ) in
      let part = slice_after bytes front rest l (length l) at w k in
      rw (octet, part, push_chars_of_ascii l h.2) (ground arith)

  pub end_at :
      bytes ≡ front ++ (0 ∷ rest) → next_label bytes at name first ≡ stop (parsed name (at + 1))
  unfolding next_label
  end_at w =
      let octet : get_or bytes at 0 ≡ 0 = rw (w, ← k) (get_or_middle front rest 0 0) in
      let size : length bytes ≡ at + 1 + length rest =
        omega (arith, ap length w, length-append front (0 ∷ rest)) in
      rw octet (ground arith)

-- The labels behind the first one, with enough fuel for each of them.
more_at :
    (bytes front rest : List ℕ) (ls : List (List ℕ)) (fuel at : ℕ) (name : List ℕ)
    → length ls < fuel
    → All IsLabel ls
    → bytes ≡ front ++ (encode ls ++ rest)
    → length front ≡ at
    → parse_labels fuel bytes at name false
      ≡ parsed (name ++ join_more ls) (at + length (encode ls))
unfolding parse_labels encode join_more
more_at bytes front rest ls zero at name f h w k = absurd (omega arith)
more_at bytes front rest [] (suc fuel) at name f h w k =
    rw (end_at bytes front rest at name false k w, parse_labels, append-nil name) refl
more_at bytes front rest (l ∷ ls) (suc fuel) at name f h w k =
    let front' = front ++ (length l ∷ l) in
    let longer : length front' ≡ at + 1 + length l =
      omega (arith, length-append front (length l ∷ l)) in
    let split : bytes ≡ front' ++ (encode ls ++ rest) = w ∙ simp append_assoc in
    let here : bytes ≡ front ++ (length l ∷ (l ++ (encode ls ++ rest))) = w ∙ simp append_assoc in
    let rest_read =
      more_at bytes front' rest ls fuel (at + 1 + length l) ((name ++ (b'.' ∷ [])) ++ l)
        (omega arith) h.1 split longer in
    let behind : at + 1 + length l + length (encode ls) ≡ at + suc (length (l ++ encode ls)) =
      omega (arith, length-append l (encode ls)) in
    rw (label_at bytes front (encode ls ++ rest) at name false k l h.0 here, parse_labels)
      (rest_read
        ∙ rw behind (ap (λ t. parsed t (at + suc (length (l ++ encode ls)))) (simp append_assoc)))

labels_at :
    (bytes front rest l : List ℕ) (ls : List (List ℕ)) (fuel at : ℕ)
    → suc (length ls) < fuel
    → All IsLabel (l ∷ ls)
    → bytes ≡ front ++ (encode (l ∷ ls) ++ rest)
    → length front ≡ at
    → parse_labels fuel bytes at [] true
      ≡ parsed (join_dots (l ∷ ls)) (at + length (encode (l ∷ ls)))
unfolding parse_labels encode join_dots
labels_at bytes front rest l ls zero at f h w k = absurd (omega arith)
labels_at bytes front rest l ls (suc fuel) at f h w k =
    let front' = front ++ (length l ∷ l) in
    let longer : length front' ≡ at + 1 + length l =
      omega (arith, length-append front (length l ∷ l)) in
    let split : bytes ≡ front' ++ (encode ls ++ rest) = w ∙ simp append_assoc in
    let here : bytes ≡ front ++ (length l ∷ (l ++ (encode ls ++ rest))) = w ∙ simp append_assoc in
    let rest_read =
      more_at bytes front' rest ls fuel (at + 1 + length l) l (omega arith) h.1 split longer in
    let behind : at + 1 + length l + length (encode ls) ≡ at + suc (length (l ++ encode ls)) =
      omega (arith, length-append l (encode ls)) in
    rw (label_at bytes front (encode ls ++ rest) at [] true k l h.0 here, parse_labels)
      (rest_read ∙ ap (parsed (l ++ join_more ls)) behind)

-- A name whose labels have 1 to 63 ASCII characters is written, and read back from the place where it was
-- written, whatever follows it, with more fuel than it has labels.
pub parse_name-write_name :
    (buf rest s : List ℕ) (fuel : ℕ)
    → All IsLabel (split_dots s)
    → length (split_dots s) < fuel
    → (out : List ℕ) × (write_name buf s ≡ some out)
      × (parse_name fuel (out ++ rest) (length buf) ≡ parsed s (length out))
unfolding write_name parse_name
parse_name-write_name buf rest s fuel h f =
    let (l, ls, e) = split_dots_cons s in
    let out = buf ++ encode (split_dots s) in
    let split : out ++ rest ≡ buf ++ (encode (l ∷ ls) ++ rest) =
      append_assoc buf (encode (split_dots s)) rest ∙ ap (λ t. buf ++ (encode t ++ rest)) e in
    let read =
      labels_at (out ++ rest) buf rest l ls fuel (length buf) (subst (λ t. length t < fuel) e f)
        (subst (All IsLabel) e h) split refl in
    let name : join_dots (l ∷ ls) ≡ s = ap join_dots (sym e) ∙ join_dots-split_dots s in
    let behind : length buf + length (encode (l ∷ ls)) ≡ length out =
      ap (λ t. length buf + length (encode t)) (sym e)
      ∙ sym (length-append buf (encode (split_dots s))) in
    (out, write_parts_lem buf (split_dots s) h, read ∙ ground (arith, name, behind))

-- A pass over a buffer without references: it stops, or goes on further behind inside the buffer.
abbrev GoesOn : List ℕ → ℕ → Label → Type 0
GoesOn bytes at (stop (parsed name p)) = Unit
GoesOn bytes at (stop (failed e)) = Unit
GoesOn bytes at (stop too_deep) = ⊥
GoesOn bytes at (label name p) = (at < p) × (p ≤ length bytes)
GoesOn bytes at (reference name target p) = ⊥

abbrev IsDone : Parsed → Type 0
IsDone (parsed name p) = Unit
IsDone (failed e) = Unit
IsDone too_deep = ⊥

next_label-GoesOn :
    (bytes : List ℕ) (at : ℕ) (name : List ℕ) (first : Bool)
    → get_or bytes at 0 < 0xc0
    → GoesOn bytes at (next_label bytes at name first)
unfolding next_label
next_label-GoesOn bytes at name first h = ground arith

module _ (bytes : List ℕ) (plain : All (λ b. b < 0xc0) bytes) where
  next_IsDone :
      (fuel at : ℕ) (l : Label)
      → GoesOn bytes at l
      → ((p : ℕ) (name : List ℕ)
          → at < p
          → p ≤ length bytes
          → IsDone (parse_labels fuel bytes p name false))
      → IsDone (elim l [
        | stop p ↦ p
        | label name' at' ↦ parse_labels fuel bytes at' name' false
        | reference name' target at' ↦
            after_reference name' at' (parse_labels fuel bytes target [] true)
      ])
  next_IsDone fuel at (stop (parsed name p)) g k = tt
  next_IsDone fuel at (stop (failed e)) g k = tt
  next_IsDone fuel at (stop too_deep) g k = g
  next_IsDone fuel at (label name p) g k = k p name g.0 g.1
  next_IsDone fuel at (reference name target p) g k = absurd g

  labels-IsDone :
      (fuel at : ℕ) (name : List ℕ) (first : Bool)
      → at ≤ length bytes
      → length bytes < at + fuel
      → IsDone (parse_labels fuel bytes at name first)
  unfolding parse_labels
  labels-IsDone zero at name first h k = absurd (omega arith)
  labels-IsDone (suc fuel) at name first h k =
      next_IsDone fuel at (next_label bytes at name first)
        (next_label-GoesOn bytes at name first
          (All-get_or (λ b. b < 0xc0) at bytes 0 plain (omega arith)))
        (λ p name' a b. labels-IsDone fuel p name' false b (omega arith))

  -- A name in a buffer without references is read to its end or to an error, with as much fuel as
  -- there are bytes from the name on, and one more.
  pub parse_name-ends :
      (fuel at : ℕ)
      → at ≤ length bytes
      → length bytes < at + fuel
      → parse_name fuel bytes at ≢ too_deep
  unfolding parse_name
  parse_name-ends fuel at h k e = subst IsDone e (labels-IsDone fuel at [] true h k)
