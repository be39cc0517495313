-- ===== src/Message/Examples.antt =====
-- A network without `caddr_time_version`, and messages on it.
use satoxcoin_seeder.Prelude.{
  ℕ, ◌≡◌, refl, ◌↔◌, true, some, List, [], ◌∷◌, ◌++◌, replicate, pos, arith,
}
use satoxcoin_seeder.App.{AppState, app_name}
use satoxcoin_seeder.Net.{from_ipv4}
use satoxcoin_seeder.Serialize.{ok}
use satoxcoin_seeder.Message.{
  MessageHeader, IsHeader, header_is_valid, serialize_header, deserialize_header, Address,
  IsAddress, writes_time, reads_time, serialize_address, deserialize_address,
}
use satoxcoin_seeder.Message.Header.{deserialize_header-serialize_header, header_is_valid_iff}
use satoxcoin_seeder.Message.Addresses.{deserialize_address-serialize_address, times_agree_iff}

abbrev pub net_state : AppState
net_state = record {
  protocol_version = 70016;
  init_proto_version = 209;
  min_peer_proto_version = pos 70000;
  caddr_time_version = 0;
  message_start = 0xf9 ∷ 0xbe ∷ 0xb4 ∷ 0xd9 ∷ [];
  wallet_port = 60777;
  app_name = app_name;
}

abbrev pub verack : List ℕ
verack = b'v' ∷ b'e' ∷ b'r' ∷ b'a' ∷ b'c' ∷ b'k' ∷ []

abbrev pub verack_header : MessageHeader
verack_header = record {
  magic = net_state.message_start;
  command = verack ++ replicate 6 0;
  payload_size = 0;
  checksum = 0x5d ∷ 0xf6 ∷ 0xe0 ∷ 0xe2 ∷ [];
}

pub verack_header-IsHeader : IsHeader verack_header
verack_header-IsHeader = record {
  magic4 = refl;
  command12 = refl;
  size32 = omega arith;
  checksum4 = refl;
}

deserialize_header-serialize_header_example :
    deserialize_header (serialize_header verack_header ++ (1 ∷ 2 ∷ [])) ≡ some (verack_header, 24)
deserialize_header-serialize_header_example =
    deserialize_header-serialize_header verack_header (1 ∷ 2 ∷ []) verack_header-IsHeader

pub verack_valid : header_is_valid net_state verack_header ≡ true
verack_valid = (header_is_valid_iff net_state verack_header).1 (refl, ground arith, omega arith)

abbrev pub peer_address : Address
peer_address = record {
  time = 1700000000;
  services = 1;
  addr = from_ipv4 (record { o0 = 8; o1 = 8; o2 = 4; o3 = 4 });
  port = 60777;
}

pub peer_address-IsAddress : IsAddress peer_address
unfolding from_ipv4
peer_address-IsAddress = record {
  time32 = omega arith;
  services64 = omega arith;
  sixteen = record { sixteen = refl; bytes = ground arith };
  port16 = omega arith;
}

deserialize_address-serialize_address_example :
    deserialize_address net_state
      ((7 ∷ []) ++ (serialize_address net_state peer_address 70016 ++ []))
      1
      70016
      0
    ≡ ok peer_address 31
unfolding writes_time
deserialize_address-serialize_address_example =
    deserialize_address-serialize_address net_state (7 ∷ []) [] peer_address 70016 0
      peer_address-IsAddress (unfold reads_time in refl)

times_agree_iff_example :
    (writes_time net_state 209 ≡ reads_time net_state 209 0)
    ↔ (¬ ((net_state.caddr_time_version ≡ 0) × (209 ≡ net_state.init_proto_version)))
times_agree_iff_example = times_agree_iff net_state 209
