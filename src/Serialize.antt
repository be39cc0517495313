-- ===== src/Serialize.antt =====
-- crates/seeder-core/src/serialize.rs: compact sizes and length-prefixed strings. A byte slice
-- is a list of numbers, and a reader returns the position that the caller is left with, on
-- errors too.
pub mod Utf8
pub mod Bounds
pub mod RoundTrip
mod Examples
use Utf8.{is_utf8}
use satoxcoin_seeder.Prelude.{
  ℕ, zero, suc, ◌+◌, ◌-◌, ◌%◌, ◌^◌, ◌<◌, ◌≡◌, Bool, true, false, List, [], ◌∷◌, ◌++◌, length, take,
  drop, slice, get_or, ltb, leb, ◌==◌, if◌then◌else◌, to_le_bytes, from_le_bytes,
}

-- The messages of the readers, those of `p2p::message` included.
pub data Error : Type 0 where
  varint_end varint_end_u64 varint_end_u32 varint_end_u16 : Error
  varstr_end varstr_utf8 : Error
  addr_time_end addr_services_end addr_ip_end addr_port_end : Error

-- A value or an error, with the position after it. `panic` is the abort of the thread.
pub data Read {ℓ} (A : Type ℓ) : Type ℓ where
  ok : A → ℕ → Read A
  err : Error → ℕ → Read A
  panic : Read A

-- `?`: the next reader starts where this one stopped.
abbrev pub and_then {ℓ κ} : {A : Type ℓ} {B : Type κ} → Read A → (A → ℕ → Read B) → Read B
and_then (ok a pos) f = f a pos
and_then (err e pos) f = err e pos
and_then panic f = panic

-- The `n` bytes at `pos`, or the error `e`.
unfoldable pub read_exact : ℕ → Error → List ℕ → ℕ → Read (List ℕ)
read_exact n e bytes pos =
    if ltb (length bytes) (pos + n) then err e pos else ok (slice bytes pos (pos + n)) (pos + n)

unfoldable pub read_le : ℕ → Error → List ℕ → ℕ → Read ℕ
read_le n e bytes pos =
    and_then (read_exact n e bytes pos) (λ buf pos'. ok (from_le_bytes buf) pos')

-- `Sha256` is a dependency: the digest is a parameter.
unfoldable pub sha256d : (List ℕ → List ℕ) → List ℕ → List ℕ
sha256d digest bytes = let h1 = digest bytes in digest h1

unfoldable pub write_varint : List ℕ → ℕ → List ℕ
write_varint buf val =
    if ltb val 0xfd
    then buf ++ ((val % 256) ∷ [])
    else if leb val 0xffff
    then buf ++ (0xfd ∷ to_le_bytes 2 (val % 2 ^ 16))
    else if leb val 0xffff_ffff
    then buf ++ (0xfe ∷ to_le_bytes 4 (val % 2 ^ 32))
    else buf ++ (0xff ∷ to_le_bytes 8 val)

unfoldable pub read_varint : List ℕ → ℕ → Read ℕ
read_varint bytes pos =
    if leb (length bytes) pos
    then err varint_end pos
    else let prefix = get_or bytes pos 0 in
      if prefix == 0xff
      then read_le 8 varint_end_u64 bytes (pos + 1)
      else if prefix == 0xfe
      then read_le 4 varint_end_u32 bytes (pos + 1)
      else if prefix == 0xfd
      then read_le 2 varint_end_u16 bytes (pos + 1)
      else ok prefix (pos + 1)

unfoldable pub write_varstr : List ℕ → List ℕ → List ℕ
write_varstr buf s = write_varint buf (length s) ++ s

-- `*pos + len` is a `usize` sum of a position and an untrusted length: it wraps, and a range
-- whose end lies before its start aborts. (With overflow checks the sum itself aborts.)
unfoldable pub read_varstr : List ℕ → ℕ → Read (List ℕ)
read_varstr bytes pos = and_then (read_varint bytes pos) λ len start.
    let end = (start + len) % 2 ^ 64 in
    let s = slice bytes start end in
    if ltb (length bytes) end
    then err varstr_end start
    else if ltb end start
    then panic
    else if is_utf8 s
    then ok s end
    else err varstr_utf8 start
