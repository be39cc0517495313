-- ===== src/Handshake/Examples.antt =====
-- A node that sends one verack.
use satoxcoin_seeder.Prelude.{
  ℕ, ◌≡◌, refl, true, List, [], ◌∷◌, ◌++◌, take, replicate, pos, arith, if◌then◌else◌, eq_bytes,
  u32_as_i32,
}
use satoxcoin_seeder.Net.{Service}
use satoxcoin_seeder.Serialize.{sha256d}
use satoxcoin_seeder.Serialize.Utf8.{is_utf8}
use satoxcoin_seeder.Message.{
  new_header, command_str, serialize_header, serialize_version_payload, writes_time,
}
use satoxcoin_seeder.Message.Examples.{
  net_state, verack, verack_header, verack_header-IsHeader, verack_valid, peer_address,
  peer_address-IsAddress,
}
use satoxcoin_seeder.Handshake.{
  Session, again, new_session, pass, on_message, on_version, replies, Peer, test_node,
}
use satoxcoin_seeder.Handshake.Frames.{pass_frame}
use satoxcoin_seeder.Handshake.Messages.{pass-unset_checksum, on_version-serialize_version_payload}
use satoxcoin_seeder.Handshake.Loop.{IsAnswer, test_node-IsAnswer}

-- A digest that is not zero.
abbrev digest : List ℕ → List ℕ
digest bytes = replicate 32 1

abbrev got : Session
got = record new_session { read_buf = serialize_header verack_header ++ ([] ++ (3 ∷ [])) }

abbrev left_over : Session
left_over = record new_session { read_buf = 3 ∷ [] }

pass_frame_example : pass digest net_state true got ≡ (
    if eq_bytes (take 4 (sha256d digest [])) verack_header.checksum
    then on_message net_state true (command_str verack_header) [] left_over
    else again left_over)
pass_frame_example =
    pass_frame digest net_state true got verack_header [] (3 ∷ []) refl verack_header-IsHeader
      verack_valid refl

abbrev unset : Session
unset = record new_session {
  read_buf = serialize_header (new_header net_state verack 0) ++ (3 ∷ []);
}

pass-unset_checksum_example : pass digest net_state true unset ≡ again left_over
pass-unset_checksum_example =
    pass-unset_checksum net_state refl digest true unset verack (3 ∷ []) (omega arith, ground arith)
      (unfold sha256d in ground arith) refl

abbrev agent : List ℕ
agent = b'/' ∷ b'a' ∷ b'/' ∷ []

on_version-serialize_version_payload_example :
    on_version net_state true
      (serialize_version_payload net_state 70016 1
        (pos 1700000000)
        peer_address
        peer_address
        5
        agent
        (pos 900)
        0)
      new_session
    ≡ again (record new_session {
      remote_version = pos 70016;
      remote_services = 1;
      remote_subver = agent;
      remote_height = pos 900;
      sent = replies net_state true;
    })
unfolding u32_as_i32
on_version-serialize_version_payload_example =
    on_version-serialize_version_payload net_state true new_session 70016 1 (pos 1700000000)
      peer_address peer_address 5 agent (pos 900) 0 (unfold writes_time in refl)
      peer_address-IsAddress peer_address-IsAddress (omega arith) (omega arith)
      (unfold is_utf8 in refl) (omega arith) (omega arith, omega arith)

abbrev peer : Peer
peer = record {
  accepts = λ target timeout. true;
  takes = λ bytes. true;
  chunks = serialize_header verack_header ∷ (3 ∷ []) ∷ [];
}

abbrev service : Service
service = record { addr = peer_address.addr; port = 60777 }

abbrev onion_service : Service
onion_service = record {
  addr = record { ip = 0xfd ∷ 0x87 ∷ 0xd8 ∷ 0x7e ∷ 0xeb ∷ 0x43 ∷ replicate 10 0 };
  port = 60777;
}

test_node-IsAnswer_example :
    IsAnswer (test_node digest net_state peer service (pos 1700000000) (pos 900) true)
test_node-IsAnswer_example =
    test_node-IsAnswer digest net_state peer service (pos 1700000000) (pos 900) true
