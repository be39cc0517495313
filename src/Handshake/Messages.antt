-- ===== src/Handshake/Messages.antt =====
-- The messages that the program itself builds, as the program at the other end reads them.
use satoxcoin_seeder.Prelude.{
  ℕ, zero, suc, ◌+◌, ◌-◌, ◌^◌, ◌≤◌, ◌<◌, ◌≡◌, refl, ap, ◌∙◌, ◌≢◌, ◌⊎◌, inl, inr, Bool, true, false,
  List, [], ◌∷◌, ◌++◌, length, length-append, append_assoc, take, replicate, length-take,
  length-replicate, All, All-imp, All-take, eq_bytes_ne, All-append, slice, slice_middle, take_left,
  le→leb, le→ltb, eq_bytes, arith, min, ℤ, IsI32, as_u32, as_u32_bound, as_u64, u32_as_i32,
  u32_as_i32-as_u32, to_le_bytes, from_le_bytes, from_le_bytes-to_le_bytes, length-to_le_bytes,
  drop_left,
}
use satoxcoin_seeder.Serialize.Utf8.{is_utf8}
use satoxcoin_seeder.Serialize.{sha256d, read_varstr, write_varint, write_varstr, ok}
use satoxcoin_seeder.Serialize.RoundTrip.{
  varint_bytes, length-varint_bytes-le, read_varstr-write_varstr, write_varint-append,
}
use satoxcoin_seeder.App.{AppState}
use satoxcoin_seeder.Message.{
  IsHeader, Address, IsAddress, new_header, command_str, header_is_valid, serialize_header,
  serialize_version_payload, address_tail, writes_time, max_size, command_size,
}
use satoxcoin_seeder.Message.Header.{header_is_valid_iff, command_str-new_header}
use satoxcoin_seeder.Message.Version.{
  version_fixed, length-version_fixed, serialize_version_payload_lem,
}
use satoxcoin_seeder.Handshake.{
  Session, again, on_version, services_of, agent_and_height, height_of, with_replies, replies, pass,
}
use satoxcoin_seeder.Handshake.Frames.{pass_frame}

-- The commands that the program sends: at most twelve printable letters.
abbrev pub IsCommand : List ℕ → Type 0
IsCommand cmd = (length cmd ≤ command_size) × All (λ b. (0x20 ≤ b) × (b < 0x7f)) cmd

zeros_valid : (n : ℕ) → All (λ b. (b ≡ 0) ⊎ ((0x20 ≤ b) × (b < 0x7f))) (replicate n 0)
zeros_valid zero = tt
zeros_valid (suc n) = (inl refl, zeros_valid n)

module _ (state : AppState) (magic : length state.message_start ≡ 4) where
  pub new_header-IsHeader :
      (cmd : List ℕ) (n : ℕ)
      → length cmd ≤ command_size
      → n < 2 ^ 32
      → IsHeader (new_header state cmd n)
  unfolding new_header
  new_header-IsHeader cmd n h k =
      let len = min (length cmd) command_size in
      record {
        magic4 = magic;
        command12 = omega (
          arith,
          length-append (take len cmd) (replicate (command_size - len) 0),
          length-take len cmd,
          length-replicate {A = ℕ} (command_size - len) 0,
        );
        size32 = k;
        checksum4 = refl;
      }

  pub new_header_valid :
      (cmd : List ℕ) (n : ℕ)
      → IsCommand cmd
      → n ≤ max_size
      → header_is_valid state (new_header state cmd n) ≡ true
  unfolding new_header
  new_header_valid cmd n h k =
      let len = min (length cmd) command_size in
      (header_is_valid_iff state (new_header state cmd n)).1 (
        refl,
        All-append (λ b. (b ≡ 0) ⊎ ((0x20 ≤ b) × (b < 0x7f))) (take len cmd)
            (replicate (command_size - len) 0)
            (All-take (λ b. (b ≡ 0) ⊎ ((0x20 ≤ b) × (b < 0x7f))) len cmd
              (All-imp (λ b p. inr p) cmd h.1))
            (zeros_valid (command_size - len)),
        k,
      )

  pub named : (cmd : List ℕ) (n : ℕ) → IsCommand cmd → command_str (new_header state cmd n) ≡ cmd
  named cmd n h =
      command_str-new_header state cmd n h.0 (All-imp (λ b p. (omega arith, omega arith)) cmd h.1)

  -- A header with no payload whose checksum was never set is dropped by the program at the other
  -- end, whatever its command: the checksum field is zero, and the digest of the empty payload does not
  -- begin with four zeros (SHA-256 twice over the empty string begins with 5d f6 e0 e2). The
  -- buffer advances past it, and nothing else changes.
  pub pass-unset_checksum :
      (digest : List ℕ → List ℕ) (get_addr : Bool) (s : Session) (cmd rest : List ℕ)
      → IsCommand cmd
      → take 4 (sha256d digest []) ≢ replicate 4 0
      → s.read_buf ≡ serialize_header (new_header state cmd 0) ++ rest
      → pass digest state get_addr s ≡ again (record s { read_buf = rest })
  pass-unset_checksum digest get_addr s cmd rest h nonzero e =
      let frame =
        pass_frame digest state get_addr s (new_header state cmd 0) [] rest e
          (new_header-IsHeader cmd 0 h.0 (omega arith)) (new_header_valid cmd 0 h (omega arith))
          (unfold new_header in refl) in
      let zero : (new_header state cmd 0).checksum ≡ replicate 4 0 = unfold new_header in refl in
      let differ : eq_bytes (take 4 (sha256d digest [])) (new_header state cmd 0).checksum ≡ false =
        rw zero (eq_bytes_ne (take 4 (sha256d digest [])) (replicate 4 0) nonzero) in
      frame ∙ rw differ

-- A payload in its parts.
module _ (proto services : ℕ) (timestamp : ℤ) (recv from : Address) (nonce : ℕ) (agent : List ℕ)
    (height : ℤ) (relay : ℕ) (wr : IsAddress recv) (wf : IsAddress from) where
  parts : List ℕ
  parts =
      write_varstr (version_fixed proto services timestamp recv from nonce) agent
      ++ (to_le_bytes 4 (as_u32 height) ++ (relay ∷ []))

  -- The first two numbers.
  parts_begin : (more : List ℕ) × (parts ≡ to_le_bytes 4 proto ++ (to_le_bytes 8 services ++ more))
  unfolding parts version_fixed write_varstr
  parts_begin =
      let ends = address_tail recv ++ (address_tail from ++ to_le_bytes 8 nonce) in
      let behind = agent ++ (to_le_bytes 4 (as_u32 height) ++ (relay ∷ [])) in
      (
        to_le_bytes 8 (as_u64 timestamp) ++ (ends ++ (varint_bytes (length agent) ++ behind)),
        rw write_varint-append (simp append_assoc),
      )

  proto_at : proto < 2 ^ 32 → from_le_bytes (slice parts 0 4) ≡ proto
  proto_at h =
      let (more, e) = parts_begin in
      rw
        (
          e,
          take_left 4 (to_le_bytes 4 proto) (to_le_bytes 8 services ++ more)
              (length-to_le_bytes 4 proto),
        )
        (from_le_bytes-to_le_bytes 4 proto h)

  services_at : services < 2 ^ 64 → from_le_bytes (slice parts 4 12) ≡ services
  services_at h =
      let (more, e) = parts_begin in
      rw
        (
          e,
          drop_left 4 (to_le_bytes 4 proto) (to_le_bytes 8 services ++ more)
              (length-to_le_bytes 4 proto),
          take_left 8 (to_le_bytes 8 services) more (length-to_le_bytes 8 services),
        )
        (from_le_bytes-to_le_bytes 8 services h)

  front : List ℕ
  front = write_varstr (version_fixed proto services timestamp recv from nonce) agent

  length-parts : length parts ≡ length front + 5
  unfolding parts front
  length-parts = omega (
    arith,
    length-append (write_varstr (version_fixed proto services timestamp recv from nonce) agent)
        (to_le_bytes 4 (as_u32 height) ++ (relay ∷ [])),
    length-append (to_le_bytes 4 (as_u32 height)) (relay ∷ []),
    length-to_le_bytes 4 (as_u32 height),
  )

  length-front : length front ≡ 80 + length (varint_bytes (length agent)) + length agent
  unfolding front write_varstr
  length-front =
      let fixed = version_fixed proto services timestamp recv from nonce in
      omega (
        arith,
        length-append (write_varint fixed (length agent)) agent,
        length-append fixed (varint_bytes (length agent)),
        ap length (write_varint-append fixed (length agent)),
        length-version_fixed proto services timestamp recv from nonce wr wf,
      )

  front_long : 80 ≤ length front
  front_long = omega (arith, length-front)

  agent_at :
      is_utf8 agent ≡ true → length parts < 2 ^ 64 → read_varstr parts 80 ≡ ok agent (length front)
  unfolding parts front
  agent_at u h = rw (length-version_fixed proto services timestamp recv from nonce wr wf) at (
      read_varstr-write_varstr (version_fixed proto services timestamp recv from nonce)
        (to_le_bytes 4 (as_u32 height) ++ (relay ∷ [])) agent u h)

  height_at : (old : ℤ) → IsI32 height → height_of parts (length front) old ≡ height
  unfolding height_of
  height_at old h =
      let whole : parts ≡ front ++ (to_le_bytes 4 (as_u32 height) ++ (relay ∷ [])) =
        unfold parts front in refl in
      rw
        (
          le→leb (length front + 4) (length parts) (omega (arith, length-parts)),
          whole,
          slice_middle front (to_le_bytes 4 (as_u32 height)) (relay ∷ []) 4
              (length-to_le_bytes 4 (as_u32 height)),
          from_le_bytes-to_le_bytes 4 (as_u32 height) (as_u32_bound height),
        )
        (u32_as_i32-as_u32 height h)

  services_of-parts : (old : ℕ) → services < 2 ^ 64 → services_of parts old ≡ services
  unfolding services_of
  services_of-parts old h =
      rw (le→leb 12 (length parts) (omega (arith, length-parts, front_long))) (services_at h)

  parts_short : length agent < 2 ^ 32 → length parts < 2 ^ 64
  parts_short h = omega (arith, length-parts, length-front, length-varint_bytes-le (length agent))

  -- The payload that the program builds, handled as a received version message.
  on_version-parts :
      (state : AppState) (get_addr : Bool) (s : Session)
      → proto < 2 ^ 32
      → services < 2 ^ 64
      → is_utf8 agent ≡ true
      → IsI32 height
      → length agent < 2 ^ 32
      → on_version state get_addr parts s
        ≡ again (record s {
          remote_version = u32_as_i32 proto;
          remote_services = services;
          remote_subver = agent;
          remote_height = height;
          sent = s.sent ++ replies state get_addr;
        })
  unfolding on_version agent_and_height with_replies
  on_version-parts state get_addr s hp hs hu hh hl = rw (
    le→ltb (length parts) 4 (omega (arith, length-parts, front_long)),
    agent_at hu (parts_short hl),
    proto_at hp,
    services_of-parts s.remote_services hs,
    height_at s.remote_height hh,
    agent_and_height,
    with_replies,
  )

-- A version message that the program builds without timestamps in its addresses is read back by
-- the program at the other end: it learns the protocol version, the services, the user agent and
-- the height that were sent, and answers.
pub on_version-serialize_version_payload :
    (state : AppState) (get_addr : Bool) (s : Session) (proto services : ℕ) (timestamp : ℤ)
    (recv from : Address) (nonce : ℕ) (agent : List ℕ) (height : ℤ) (relay : ℕ)
    → writes_time state state.init_proto_version ≡ false
    → IsAddress recv
    → IsAddress from
    → proto < 2 ^ 32
    → services < 2 ^ 64
    → is_utf8 agent ≡ true
    → length agent < 2 ^ 32
    → IsI32 height
    → on_version state get_addr
        (serialize_version_payload state proto services timestamp recv from nonce agent height
          relay)
        s
      ≡ again (record s {
        remote_version = u32_as_i32 proto;
        remote_services = services;
        remote_subver = agent;
        remote_height = height;
        sent = s.sent ++ replies state get_addr;
      })
on_version-serialize_version_payload state get_addr s proto services timestamp recv from nonce agent
      height relay out wr wf hp hs hu hl hh =
    rw
      (serialize_version_payload_lem state proto services timestamp recv from nonce agent height
        relay out)
      (unfold parts in
        on_version-parts proto services timestamp recv from nonce agent height relay wr wf state
          get_addr s hp hs hu hh hl)
