-- ===== src/Serialize/Bounds.antt =====
-- What the readers do on any input: positions, values and failures.
use satoxcoin_seeder.Prelude.{
  ℕ, ◌+◌, ◌-◌, ◌%◌, ◌^◌, ◌≤◌, ◌<◌, ◌≡◌, refl, ◌↔◌, true, List, length, slice, length-slice, get_or,
  All, All-take, All-drop, All-get_or, IsByte, from_le_bytes, from_le_bytes_bound, arith,
  Bool-cases, inl, inr, ltb, leb, if◌then◌else◌, ◌==◌, drop,
}
use satoxcoin_seeder.Serialize.Utf8.{is_utf8}
use satoxcoin_seeder.Serialize.{
  Error, Read, ok, varstr_end, varstr_utf8, err, panic, read_exact, read_le, read_varint,
  read_varstr, varint_end_u64, varint_end_u32, varint_end_u16,
}

-- The answer of a reader of compact sizes: a `u64` and a position behind the 1 to 9 bytes read,
-- inside the slice; on an error at most the prefix byte is consumed; never an abort.
abbrev pub IsVarintAnswer : List ℕ → ℕ → Read ℕ → Type 0
IsVarintAnswer bytes pos (ok v p) = (v < 2 ^ 64) × (pos < p) × (p ≤ length bytes) × (p ≤ pos + 9)
IsVarintAnswer bytes pos (err e p) = (pos ≤ p) × (p ≤ pos + 1)
IsVarintAnswer bytes pos panic = ⊥

slice_value :
    (n : ℕ) (bytes : List ℕ) (pos : ℕ)
    → All IsByte bytes
    → pos + n ≤ length bytes
    → from_le_bytes (slice bytes pos (pos + n)) < 256 ^ n
slice_value n bytes pos h k =
    let size : length (slice bytes pos (pos + n)) ≡ n =
      omega (arith, length-slice bytes pos (pos + n) (omega arith) k) in
    rw size at (
      from_le_bytes_bound (slice bytes pos (pos + n))
        (All-take IsByte (pos + n - pos) (drop pos bytes) (All-drop IsByte pos bytes h)))

le-IsVarintAnswer :
    (n : ℕ) (e : Error) (bytes : List ℕ) (pos : ℕ)
    → All IsByte bytes
    → n ≤ 8
    → 256 ^ n ≤ 2 ^ 64
    → IsVarintAnswer bytes pos (read_le n e bytes (pos + 1))
unfolding read_le read_exact
le-IsVarintAnswer n e bytes pos h k w = elim (Bool-cases (ltb (length bytes) (pos + 1 + n))) [
  | inl a ↦ rw a (omega arith)
  | inr a ↦ rw a (
    omega (arith, slice_value n bytes (pos + 1) h (ground arith)),
    omega arith,
    ground arith,
    omega arith,
  )
]

-- On any bytes and from any position the reader of compact sizes answers a number below 2 ^ 64 with
-- a position behind the 1 to 9 bytes that it read, inside the slice; or an error, with at most
-- one byte consumed. It never aborts.
pub read_varint-IsVarintAnswer :
    (bytes : List ℕ) (pos : ℕ) → All IsByte bytes → IsVarintAnswer bytes pos (read_varint bytes pos)
unfolding read_varint
read_varint-IsVarintAnswer bytes pos h = elim (Bool-cases (leb (length bytes) pos)) [
  | inl a ↦ rw a (omega arith)
  | inr a ↦
      let b = get_or bytes pos 0 in
      let byte : b < 256 = All-get_or IsByte pos bytes 0 h (omega arith) in
      rw a (elim (Bool-cases (b == 0xff)) [
        | inl c ↦ rw c (le-IsVarintAnswer 8 varint_end_u64 bytes pos h (omega arith) (omega arith))
        | inr c ↦ rw c (elim (Bool-cases (b == 0xfe)) [
          | inl d ↦
              rw d (le-IsVarintAnswer 4 varint_end_u32 bytes pos h (omega arith) (omega arith))
          | inr d ↦ rw d (elim (Bool-cases (b == 0xfd)) [
            | inl f ↦
                rw f (le-IsVarintAnswer 2 varint_end_u16 bytes pos h (omega arith) (omega arith))
            | inr f ↦ rw f (omega arith, omega arith, ground arith, omega arith)
          ])
        ])
      ])
]

-- Reading a string aborts exactly when the announced length, added to the position behind it,
-- passes 2 ^ 64; a slice is shorter than 2 ^ 63.
pub read_varstr-eq-panic_iff :
    (bytes : List ℕ) (pos : ℕ)
    → All IsByte bytes
    → length bytes < 2 ^ 63
    → (read_varstr bytes pos ≡ panic)
      ↔ ((len : ℕ) × (start : ℕ) × (read_varint bytes pos ≡ ok len start) × (2 ^ 64 ≤ start + len))
unfolding read_varstr
read_varstr-eq-panic_iff bytes pos h k =
    go (read_varint bytes pos) refl (read_varint-IsVarintAnswer bytes pos h)
  where
    go :
        (r : Read ℕ)
        → read_varint bytes pos ≡ r
        → IsVarintAnswer bytes pos r
        → (read_varstr bytes pos ≡ panic) ↔ (
            (len : ℕ) × (start : ℕ) × (read_varint bytes pos ≡ ok len start)
            × (2 ^ 64 ≤ start + len))
    go (ok len start) e v = (λ p. (len, start, e, ground arith), λ q. ground arith)
    go (err x p) e v = (λ p. ground arith, λ q. ground arith)
    go panic e v = elim v [ ]

-- The checks between a length and the string.
accepted :
    (bytes : List ℕ) (start end : ℕ) {s : List ℕ} {p : ℕ}
    → (if ltb (length bytes) end
        then err varstr_end start
        else if ltb end start
        then panic
        else if is_utf8 (slice bytes start end)
        then ok (slice bytes start end) end
        else err varstr_utf8 start)
      ≡ ok s p
    → (end ≤ length bytes)
      × (start ≤ end)
      × (is_utf8 s ≡ true)
      × (s ≡ slice bytes start end)
      × (p ≡ end)
accepted bytes start end q = ground arith

-- A string that is read is UTF-8, lies inside the slice, and the position moves past it.
pub read_varstr_ok :
    (bytes : List ℕ) (pos : ℕ) {s : List ℕ} {p : ℕ}
    → All IsByte bytes
    → length bytes < 2 ^ 63
    → read_varstr bytes pos ≡ ok s p
    → (is_utf8 s ≡ true)
      × (pos + length s < p)
      × (p ≤ length bytes)
      × (s ≡ slice bytes (p - length s) p)
unfolding read_varstr
read_varstr_ok bytes pos {s} {p} h k =
    go (read_varint bytes pos) refl (read_varint-IsVarintAnswer bytes pos h)
  where
    go :
        (r : Read ℕ)
        → read_varint bytes pos ≡ r
        → IsVarintAnswer bytes pos r
        → read_varstr bytes pos ≡ ok s p
        → (is_utf8 s ≡ true)
          × (pos + length s < p)
          × (p ≤ length bytes)
          × (s ≡ slice bytes (p - length s) p)
    go (ok len start) e v q =
        let end = (start + len) % 2 ^ 64 in
        let (inside, ordered, utf8, value, stop) = accepted bytes start end (rw e at q) in
        let size : length s ≡ end - start =
          rw value (length-slice bytes start end ordered inside) in
        let from : p - length s ≡ start = omega arith in
        (utf8, omega arith, omega arith, rw (from, stop) value)
    go (err x y) e v q = absurd (ground arith)
    go panic e v q = elim v [ ]
