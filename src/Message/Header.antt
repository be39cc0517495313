-- ===== src/Message/Header.antt =====
-- Message headers: the wire format, validity and the command.
use satoxcoin_seeder.Prelude.{
  ℕ, zero, suc, ◌-◌, ◌^◌, ◌≤◌, ◌<◌, ◌≡◌, refl, ◌↔◌, ◌≢◌, ◌⊎◌, true, false, some, List, [], ◌∷◌,
  ◌++◌, length, length-append, append_assoc, take_left, drop_left, drop_past, ◌*◌, replicate, slice,
  All, All-imp, take_all, min, le→ltb, eq_bytes_iff, to_le_bytes, length-to_le_bytes,
  from_le_bytes-to_le_bytes, arith,
}
use satoxcoin_seeder.Serialize.Utf8.{IsAscii, from_utf8_lossy_of_ascii}
use satoxcoin_seeder.App.{AppState}
use satoxcoin_seeder.Message.{
  MessageHeader, IsHeader, new_header, up_to_zero, command_str, bad_command_byte, any_bad,
  header_is_valid, serialize_header, deserialize_header, command_size,
}

pub length-serialize_header : (h : MessageHeader) → IsHeader h → length (serialize_header h) ≡ 24
unfolding serialize_header
length-serialize_header h w = omega (
  arith,
  length-append h.magic (h.command ++ (to_le_bytes 4 h.payload_size ++ h.checksum)),
  length-append h.command (to_le_bytes 4 h.payload_size ++ h.checksum),
  length-append (to_le_bytes 4 h.payload_size) h.checksum,
  length-to_le_bytes 4 h.payload_size,
)

fields_at :
    (m c s k : List ℕ)
    → length m ≡ 4
    → length c ≡ 12
    → length s ≡ 4
    → (rest : List ℕ)
    → let bytes = m ++ (c ++ (s ++ (k ++ rest))) in
      (slice bytes 0 4 ≡ m)
      × (slice bytes 4 16 ≡ c)
      × (slice bytes 16 20 ≡ s)
      × (length k ≡ 4 → slice bytes 20 24 ≡ k)
fields_at m c s k hm hc hs rest = (
  take_left 4 m _ hm,
  rw (drop_left 4 m (c ++ (s ++ (k ++ rest))) hm) (take_left 12 c _ hc),
  rw (drop_past 4 12 m (c ++ (s ++ (k ++ rest))) hm, drop_left 12 c (s ++ (k ++ rest)) hc)
      (take_left 4 s _ hs),
  λ hk.
      rw
        (
          drop_past 4 16 m (c ++ (s ++ (k ++ rest))) hm,
          drop_past 12 4 c (s ++ (k ++ rest)) hc,
          drop_left 4 s (k ++ rest) hs,
        )
        (take_left 4 k rest hk),
)

-- A header is read back from the first 24 bytes, whatever follows them.
pub deserialize_header-serialize_header :
    (h : MessageHeader) (rest : List ℕ)
    → IsHeader h
    → deserialize_header (serialize_header h ++ rest) ≡ some (h, 24)
unfolding deserialize_header
deserialize_header-serialize_header h rest w =
    let long : 24 ≤ length (serialize_header h ++ rest) =
      omega (arith, length-append (serialize_header h) rest, length-serialize_header h w) in
    let size = to_le_bytes 4 h.payload_size in
    let whole : serialize_header h ++ rest
        ≡ h.magic ++ (h.command ++ (size ++ (h.checksum ++ rest))) =
      unfold serialize_header in simp append_assoc in
    let (m, c, s, k) =
      fields_at h.magic h.command size h.checksum w.magic4 w.command12
        (length-to_le_bytes 4 h.payload_size) rest in
    rw (
      le→ltb (length (serialize_header h ++ rest)) 24 long,
      whole,
      m,
      c,
      s,
      k w.checksum4,
      from_le_bytes-to_le_bytes 4 h.payload_size w.size32,
    )

any_bad→All : (l : List ℕ) → any_bad l ≡ false → All (λ b. (b ≡ 0) ⊎ ((0x20 ≤ b) × (b < 0x7f))) l
unfolding any_bad bad_command_byte
any_bad→All [] h = tt
any_bad→All (b ∷ l) h = (ground arith, any_bad→All l (ground arith))

All→any_bad : (l : List ℕ) → All (λ b. (b ≡ 0) ⊎ ((0x20 ≤ b) × (b < 0x7f))) l → any_bad l ≡ false
unfolding any_bad bad_command_byte
All→any_bad [] h = refl
All→any_bad (b ∷ l) h = ground (arith, All→any_bad l h.1)

-- A header is valid exactly if its magic is the network's, every byte of its command is zero or
-- printable ASCII, and its payload is at most 32 MiB.
pub header_is_valid_iff :
    (state : AppState) (h : MessageHeader)
    → (header_is_valid state h ≡ true) ↔ (
        (h.magic ≡ state.message_start)
        × All (λ b. (b ≡ 0) ⊎ ((0x20 ≤ b) × (b < 0x7f))) h.command
        × (h.payload_size ≤ 2 * 2 ^ 24))
unfolding header_is_valid
header_is_valid_iff state h = (
  λ e. (
    ground (arith, eq_bytes_iff h.magic state.message_start),
    any_bad→All h.command (ground arith),
    ground arith,
  ),
  λ p. ground (arith, eq_bytes_iff h.magic state.message_start, All→any_bad h.command p.1),
)

up_to_zero_pad :
    (l : List ℕ) (n : ℕ) → All (λ b. (b ≢ 0) × IsAscii b) l → up_to_zero (l ++ replicate n 0) ≡ l
unfolding up_to_zero
up_to_zero_pad [] zero h = refl
up_to_zero_pad [] (suc n) h = refl
up_to_zero_pad (b ∷ l) n h = ground (arith, up_to_zero_pad l n h.1)

-- A command of at most twelve non-zero ASCII bytes is what a header made from it names.
pub command_str-new_header :
    (state : AppState) (command : List ℕ) (size : ℕ)
    → length command ≤ command_size
    → All (λ b. (b ≢ 0) × IsAscii b) command
    → command_str (new_header state command size) ≡ command
unfolding command_str new_header
command_str-new_header state command size h k =
    let len : min (length command) command_size ≡ length command = omega arith in
    rw
      (
        len,
        take_all (length command) command refl,
        up_to_zero_pad command (command_size - length command) k,
      )
      (from_utf8_lossy_of_ascii command (All-imp (λ b p. p.1) command k))
