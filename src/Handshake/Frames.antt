-- ===== src/Handshake/Frames.antt =====
-- Whole frames at the front of the read buffer.
use satoxcoin_seeder.Prelude.{
  ℕ, ◌+◌, ◌≤◌, ◌≡◌, ◌∙◌, Bool, true, some, List, [], ◌∷◌, ◌++◌, length, length-append, append_assoc,
  append-nil, take, drop, take_left, drop_left, le→ltb, eq_bytes, eq_bytes_iff, if◌then◌else◌,
  arith, to_le_bytes,
}
use satoxcoin_seeder.Serialize.{sha256d}
use satoxcoin_seeder.App.{AppState}
use satoxcoin_seeder.Message.{
  MessageHeader, IsHeader, command_str, header_is_valid, serialize_header, deserialize_header,
}
use satoxcoin_seeder.Message.Header.{
  length-serialize_header, header_is_valid_iff, deserialize_header-serialize_header,
}
use satoxcoin_seeder.Handshake.{Session, again, find_magic, on_message, on_frame, pass}

find_magic_here :
    (magic buf : List ℕ) → 24 ≤ length buf → take 4 buf ≡ magic → find_magic magic buf ≡ some 0
unfolding find_magic
find_magic_here magic [] h e = absurd (omega arith)
find_magic_here magic (b ∷ bs) h e = ground (arith, eq_bytes_iff (take 4 (b ∷ bs)) magic)

-- A buffer that begins with a whole frame.
record Framed (buf : List ℕ) (h : MessageHeader) (payload rest : List ℕ) : Type 0 where
  long : 24 + h.payload_size ≤ length buf
  magic_first : take 4 buf ≡ h.magic
  header_first : take 24 buf ≡ serialize_header h
  payload_next : take h.payload_size (drop 24 buf) ≡ payload
  rest_last : drop h.payload_size (drop 24 buf) ≡ rest

frame-Framed :
    (buf : List ℕ) (h : MessageHeader) (payload rest : List ℕ)
    → buf ≡ serialize_header h ++ (payload ++ rest)
    → IsHeader h
    → length payload ≡ h.payload_size
    → Framed buf h payload rest
frame-Framed buf h payload rest e w size =
    let front = length-serialize_header h w in
    let behind : drop 24 buf ≡ payload ++ rest = rw e (drop_left 24 _ (payload ++ rest) front) in
    let tail = h.command ++ (to_le_bytes 4 h.payload_size ++ h.checksum) in
    record {
      long = rw e (
          omega (
            arith,
            length-append (serialize_header h) (payload ++ rest),
            length-append payload rest,
          ));
      magic_first = rw e (
          unfold serialize_header in
          rw (append_assoc h.magic tail (payload ++ rest)) (take_left 4 h.magic _ w.magic4));
      header_first = rw e (take_left 24 _ (payload ++ rest) front);
      payload_next = rw behind (take_left h.payload_size payload rest size);
      rest_last = rw behind (drop_left h.payload_size payload rest size);
    }

module _ (digest : List ℕ → List ℕ) (state : AppState) (get_addr : Bool) where
  -- A frame with a valid header at the front of the buffer is taken off as a whole. Its message
  -- is handled if the checksum fits the payload, and dropped if not.
  pub pass_frame :
      (s : Session) (h : MessageHeader) (payload rest : List ℕ)
      → s.read_buf ≡ serialize_header h ++ (payload ++ rest)
      → IsHeader h
      → header_is_valid state h ≡ true
      → length payload ≡ h.payload_size
      → pass digest state get_addr s ≡ (
          if eq_bytes (take 4 (sha256d digest payload)) h.checksum
          then on_message state get_addr (command_str h) payload (record s { read_buf = rest })
          else again (record s { read_buf = rest }))
  unfolding pass on_frame
  pass_frame s h payload rest e w v size =
      let f = frame-Framed s.read_buf h payload rest e w size in
      let same : h.magic ≡ state.message_start = ((header_is_valid_iff state h).0 v).0 in
      let header : deserialize_header (serialize_header h) ≡ some (h, 24) =
        rw append-nil at (deserialize_header-serialize_header h [] w) in
      rw
        (
          find_magic_here state.message_start s.read_buf (omega (arith, f.long))
              (f.magic_first ∙ same),
          le→ltb (length s.read_buf) 24 (omega (arith, f.long)),
          f.header_first,
          header,
          v,
          le→ltb (length s.read_buf) (24 + h.payload_size) f.long,
          f.payload_next,
          f.rest_last,
          pass,
          on_frame,
        )
        (ground arith)
