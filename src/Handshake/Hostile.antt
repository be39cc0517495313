-- ===== src/Handshake/Hostile.antt =====
-- A peer that makes `test_node` panic: its version message announces a user agent of 2 ^ 64 - 1
-- bytes.
use satoxcoin_seeder.Prelude.{
  ℕ, ◌≡◌, refl, sym, ap, ◌∙◌, Bool, true, false, some, List, [], ◌∷◌, ◌++◌, length, replicate, take,
  ◌==◌, eq_bytes, eq_bytes_iff, arith, append-nil, length-append, length-take, from_le_bytes, ℤ,
}
use satoxcoin_seeder.App.{AppState}
use satoxcoin_seeder.Net.{Service, SocketAddr, socket_addr}
use satoxcoin_seeder.Serialize.{sha256d, read_varint, read_le, read_exact, read_varstr, panic}
use satoxcoin_seeder.Message.{
  MessageHeader, IsHeader, new_header, set_checksum, command_str, header_is_valid, serialize_header,
}
use satoxcoin_seeder.Handshake.{
  Session, abort, version_cmd, on_version, agent_and_height, with_replies, on_message, pass,
  inner_loop, outer_loop, Peer, aborted, outcome_of, new_session, test_node,
}
use satoxcoin_seeder.Handshake.Frames.{pass_frame}
use satoxcoin_seeder.Handshake.Messages.{IsCommand, new_header-IsHeader, new_header_valid, named}

-- A version message up to the user agent, and nine bytes 255.
abbrev pub hostile_payload : List ℕ
hostile_payload = replicate 80 0 ++ replicate 9 255

abbrev pub hostile_header : (List ℕ → List ℕ) → AppState → MessageHeader
hostile_header digest state = set_checksum digest hostile_payload (new_header state version_cmd 89)

-- A node that accepts the connection, takes what it is sent, and answers with one such frame.
unfoldable pub hostile : (List ℕ → List ℕ) → AppState → Peer
hostile digest state = record {
  accepts = λ target timeout. true;
  takes = λ bytes. true;
  chunks = (serialize_header (hostile_header digest state) ++ hostile_payload) ∷ [];
}

read_varstr-hostile_payload : read_varstr hostile_payload 80 ≡ panic
unfolding read_varstr read_varint read_le read_exact from_le_bytes
read_varstr-hostile_payload = refl

module _ (digest : List ℕ → List ℕ) (digest32 : (bs : List ℕ) → length (digest bs) ≡ 32)
    (state : AppState) (magic : length state.message_start ≡ 4) where
  checksum : List ℕ
  checksum = take 4 (sha256d digest hostile_payload)

  length-checksum : length checksum ≡ 4
  unfolding checksum sha256d
  length-checksum =
      omega
        (arith, length-take 4 (digest (digest hostile_payload)), digest32 (digest hostile_payload))

  version_cmd-IsCommand : IsCommand version_cmd
  version_cmd-IsCommand = ground arith

  hostile_header-IsHeader : IsHeader (hostile_header digest state)
  unfolding set_checksum checksum
  hostile_header-IsHeader =
      let h =
        new_header-IsHeader state magic version_cmd 89 version_cmd-IsCommand.0 (omega arith) in
      record {
        magic4 = h.magic4;
        command12 = h.command12;
        size32 = h.size32;
        checksum4 = length-checksum;
      }

  hostile_header_valid : header_is_valid state (hostile_header digest state) ≡ true
  unfolding set_checksum header_is_valid
  hostile_header_valid =
      new_header_valid state magic version_cmd 89 version_cmd-IsCommand (omega arith)

  hostile_header-named : command_str (hostile_header digest state) ≡ version_cmd
  unfolding set_checksum command_str
  hostile_header-named = named state magic version_cmd 89 version_cmd-IsCommand

  on_hostile :
      (get_addr : Bool) (s : Session)
      → on_message state get_addr version_cmd hostile_payload s ≡ abort
  unfolding on_message on_version with_replies
  on_hostile get_addr s = rw (aborts _) refl
    where
      aborts : (t : Session) → agent_and_height hostile_payload t ≡ abort
      aborts t = unfold agent_and_height in rw (read_varstr-hostile_payload, agent_and_height) refl

  pass_hostile :
      (get_addr : Bool) (s : Session)
      → s.read_buf ≡ serialize_header (hostile_header digest state) ++ hostile_payload
      → pass digest state get_addr s ≡ abort
  pass_hostile get_addr s e =
      let frame =
        pass_frame digest state get_addr s (hostile_header digest state) hostile_payload []
          (e
            ∙ ap (λ t. serialize_header (hostile_header digest state) ++ t)
                (sym (append-nil hostile_payload)))
          hostile_header-IsHeader hostile_header_valid (unfold set_checksum new_header in refl) in
      let fits : eq_bytes checksum checksum ≡ true = (eq_bytes_iff checksum checksum).1 refl in
      frame
      ∙ unfold set_checksum checksum in
        rw (fits, hostile_header-named, on_hostile get_addr (record s { read_buf = [] })) refl

  outer_hostile :
      (get_addr : Bool)
      → outer_loop digest state get_addr (hostile digest state).chunks new_session ≡ abort
  unfolding outer_loop hostile inner_loop
  outer_hostile get_addr =
      let frame = serialize_header (hostile_header digest state) ++ hostile_payload in
      rw
        (
          some_bytes,
          outer_loop,
          pass_hostile get_addr (record new_session { read_buf = frame }) refl,
          inner_loop,
        )
        refl
    where
      some_bytes :
          (length (serialize_header (hostile_header digest state) ++ hostile_payload) == 0) ≡ false
      some_bytes =
          ground
            (arith, length-append (serialize_header (hostile_header digest state)) hostile_payload)

  -- A node with a socket address can make the handshake with it panic, with a single message that is
  -- valid up to the length of its user agent.
  pub test_node-hostile :
      (service : Service) (now tip : ℤ) (get_addr : Bool) (target : SocketAddr)
      → socket_addr service ≡ some target
      → test_node digest state (hostile digest state) service now tip get_addr ≡ aborted
  unfolding test_node hostile outcome_of
  test_node-hostile service now tip get_addr target e =
      rw (e, test_node, outer_hostile get_addr, outcome_of) refl
