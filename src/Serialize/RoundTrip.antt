-- ===== src/Serialize/RoundTrip.antt =====
-- The readers give back what the writers wrote, wherever in a buffer it stands.
use satoxcoin_seeder.Prelude.{
  ℕ, ◌+◌, ◌%◌, ◌^◌, ◌≤◌, ◌<◌, ◌≡◌, refl, ap, true, List, [], ◌∷◌, ◌++◌, length, length-append,
  append_assoc, slice_middle, get_or_middle, to_le_bytes, from_le_bytes-to_le_bytes,
  length-to_le_bytes, arith, Bool-cases, inl, inr, ltb, leb, ltb→lt, le→ltb, lt→leb, sym,
  if◌then◌else◌, ◌==◌,
}
use satoxcoin_seeder.Serialize.Utf8.{is_utf8}
use satoxcoin_seeder.Serialize.{
  Error, ok, varint_end_u64, varint_end_u32, varint_end_u16, read_exact, read_le, write_varint,
  read_varint, write_varstr, read_varstr,
}

pub read_exact_middle :
    (n : ℕ) (e : Error) (front mid rest : List ℕ)
    → length mid ≡ n
    → read_exact n e (front ++ (mid ++ rest)) (length front) ≡ ok mid (length front + n)
unfolding read_exact
read_exact_middle n e front mid rest h = rw (
  le→ltb (length (front ++ (mid ++ rest))) (length front + n)
      (omega (arith, length-append front (mid ++ rest), length-append mid rest)),
  slice_middle front mid rest n h,
)

pub read_le_middle :
    (n : ℕ) (e : Error) (front rest : List ℕ) (v : ℕ)
    → v < 256 ^ n
    → read_le n e (front ++ (to_le_bytes n v ++ rest)) (length front) ≡ ok v (length front + n)
unfolding read_le
read_le_middle n e front rest v h = rw (
  read_exact_middle n e front (to_le_bytes n v) rest (length-to_le_bytes n v),
  from_le_bytes-to_le_bytes n v h,
)

-- The same, for a slice and a position that are known by equations.
module _ {bytes : List ℕ} {pos : ℕ} (n : ℕ) (e : Error) (front rest : List ℕ) where
  pub read_exact_at :
      (mid : List ℕ)
      → length mid ≡ n
      → length front ≡ pos
      → bytes ≡ front ++ (mid ++ rest)
      → read_exact n e bytes pos ≡ ok mid (pos + n)
  read_exact_at mid h k w = rw (w, ← k) (read_exact_middle n e front mid rest h)

  pub read_le_at :
      (v : ℕ)
      → v < 256 ^ n
      → length front ≡ pos
      → bytes ≡ front ++ (to_le_bytes n v ++ rest)
      → read_le n e bytes pos ≡ ok v (pos + n)
  read_le_at v h k w = rw (w, ← k) (read_le_middle n e front rest v h)

-- What `write_varint` appends.
pub varint_bytes : ℕ → List ℕ
varint_bytes v = write_varint [] v

pub write_varint-append : (buf : List ℕ) (v : ℕ) → write_varint buf v ≡ buf ++ varint_bytes v
unfolding write_varint varint_bytes
write_varint-append buf v = ground arith

pub length-varint_bytes-le : (v : ℕ) → length (varint_bytes v) ≤ 9
unfolding write_varint varint_bytes
length-varint_bytes-le v = ground (
  arith,
  length-to_le_bytes 2 (v % 2 ^ 16),
  length-to_le_bytes 4 (v % 2 ^ 32),
  length-to_le_bytes 8 v,
)

-- A reader one byte further on, past a prefix byte.
past_prefix :
    (n prefix v : ℕ) (e : Error) (front rest : List ℕ)
    → v < 256 ^ n
    → read_le n e (front ++ (prefix ∷ (to_le_bytes n v ++ rest))) (length front + 1)
      ≡ ok v (length front + (n + 1))
past_prefix n prefix v e front rest h =
    let start = front ++ (prefix ∷ []) in
    let at_start : length start ≡ length front + 1 = length-append front (prefix ∷ []) in
    let stop : length front + 1 + n ≡ length front + (n + 1) = omega arith in
    rw (append_assoc, at_start, stop) at (read_le_middle n e start rest v h)

-- The branch that the byte at the position selects.
read_varint_at :
    (front rest : List ℕ) (b : ℕ)
    → let bytes = front ++ (b ∷ rest) in
      let pos = length front in
      read_varint bytes pos ≡ (
        if b == 0xff
        then read_le 8 varint_end_u64 bytes (pos + 1)
        else if b == 0xfe
        then read_le 4 varint_end_u32 bytes (pos + 1)
        else if b == 0xfd
        then read_le 2 varint_end_u16 bytes (pos + 1)
        else ok b (pos + 1))
unfolding read_varint
read_varint_at front rest b = rw (
  lt→leb (length (front ++ (b ∷ rest))) (length front)
      (omega (arith, length-append front (b ∷ rest))),
  get_or_middle front rest b 0,
)

-- The three wide forms, once the branch is known.
wide_form :
    (n prefix v : ℕ) (e : Error) (buf rest : List ℕ)
    → v < 256 ^ n
    → (read_varint (buf ++ (prefix ∷ (to_le_bytes n v ++ rest))) (length buf)
        ≡ read_le n e (buf ++ (prefix ∷ (to_le_bytes n v ++ rest))) (length buf + 1))
    → read_varint ((buf ++ (prefix ∷ to_le_bytes n v)) ++ rest) (length buf)
      ≡ ok v (length (buf ++ (prefix ∷ to_le_bytes n v)))
wide_form n prefix v e buf rest h branch =
    let size : length buf + (n + 1) ≡ length (buf ++ (prefix ∷ to_le_bytes n v)) =
      omega (arith, length-append buf (prefix ∷ to_le_bytes n v), length-to_le_bytes n v) in
    rw (append_assoc, branch, past_prefix n prefix v e buf rest h) (ap (ok v) size)

short_form :
    (v : ℕ) (buf rest : List ℕ)
    → v < 0xfd
    → read_varint ((buf ++ (v ∷ [])) ++ rest) (length buf) ≡ ok v (length (buf ++ (v ∷ [])))
short_form v buf rest h =
    rw (append_assoc, read_varint_at buf rest v, length-append buf (v ∷ [])) (ground arith)

-- A compact size is read back from the place where it was written, whatever follows it.
pub read_varint-write_varint :
    (buf rest : List ℕ) (v : ℕ)
    → v < 2 ^ 64
    → read_varint (write_varint buf v ++ rest) (length buf) ≡ ok v (length (write_varint buf v))
unfolding write_varint
read_varint-write_varint buf rest v h = elim (Bool-cases (ltb v 0xfd)) [
  | inl a ↦
      let low : v % 256 ≡ v = ground arith in rw (a, low) (short_form v buf rest (ltb→lt v 0xfd a))
  | inr a ↦ rw a (elim (Bool-cases (leb v 0xffff)) [
    | inl b ↦
        let low : v % 2 ^ 16 ≡ v = ground arith in
        rw (b, low)
          (wide_form 2 0xfd v varint_end_u16 buf rest (ground arith) (read_varint_at buf _ 0xfd))
    | inr b ↦ rw b (elim (Bool-cases (leb v 0xffff_ffff)) [
      | inl c ↦
          let low : v % 2 ^ 32 ≡ v = ground arith in
          rw (c, low)
            (wide_form 4 0xfe v varint_end_u32 buf rest (ground arith) (read_varint_at buf _ 0xfe))
      | inr c ↦
          rw c
            (wide_form 8 0xff v varint_end_u64 buf rest (omega arith) (read_varint_at buf _ 0xff))
    ])
  ])
]

-- A string is read back from the place where it was written, whatever follows it, provided that
-- the whole buffer is shorter than 2 ^ 64.
pub read_varstr-write_varstr :
    (buf rest s : List ℕ)
    → is_utf8 s ≡ true
    → length (write_varstr buf s ++ rest) < 2 ^ 64
    → read_varstr (write_varstr buf s ++ rest) (length buf) ≡ ok s (length (write_varstr buf s))
unfolding write_varstr read_varstr
read_varstr-write_varstr buf rest s u h =
    let start = write_varint buf (length s) in
    let size : length ((start ++ s) ++ rest) ≡ length start + length s + length rest =
      omega (arith, length-append (start ++ s) rest, length-append start s) in
    let stop : (length start + length s) % 2 ^ 64 ≡ length start + length s = omega arith in
    rw
      (
        append_assoc start s rest,
        read_varint-write_varint buf (s ++ rest) (length s) (omega arith),
        stop,
        slice_middle start s rest (length s) refl,
        u,
        ← append_assoc start s rest,
        le→ltb (length ((start ++ s) ++ rest)) (length start + length s) (omega arith),
        le→ltb (length start + length s) (length start) (omega arith),
      )
      (ap (ok s) (sym (length-append start s)))
