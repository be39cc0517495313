-- ===== src/Message.antt =====
-- crates/seeder-core/src/p2p/message.rs: message headers, addresses and the version payload.
-- `app_state()` is the argument `state`.
pub mod Header
pub mod Addresses
pub mod Version
pub mod Examples
use satoxcoin_seeder.Prelude.{
  ℕ, zero, suc, ◌+◌, ◌-◌, ◌%◌, ◌^◌, ◌≤◌, ◌<◌, ◌≡◌, Bool, true, false, not, ◌&&◌, ◌||◌, Option, none,
  some, List, [], ◌∷◌, ◌++◌, length, take, drop, replicate, slice, get_or, All, IsByte, min, ltb,
  leb, ◌==◌, if◌then◌else◌, eq_bytes, to_le_bytes, from_le_bytes, to_be_bytes, from_be_bytes, ℤ,
  as_u32, as_u64,
}
use satoxcoin_seeder.Serialize.{
  Read, ok, err, and_then, read_exact, read_le, sha256d, write_varstr, addr_time_end,
  addr_services_end, addr_ip_end, addr_port_end,
}
use satoxcoin_seeder.Serialize.Utf8.{from_utf8_lossy}
use satoxcoin_seeder.Net.{NetAddr, IsNetAddr, from_bytes}
use satoxcoin_seeder.App.{AppState}

abbrev pub command_size : ℕ
command_size = 12

abbrev pub max_size : ℕ
max_size = 0x0200_0000

pub record MessageHeader : Type 0 where
  pub magic : List ℕ
  pub command : List ℕ
  pub payload_size : ℕ
  pub checksum : List ℕ

-- `[u8; 4]`, `[u8; 12]`, `u32` and `[u8; 4]`.
pub record IsHeader (h : MessageHeader) : Type 0 where
  pub magic4 : length h.magic ≡ 4
  pub command12 : length h.command ≡ 12
  pub size32 : h.payload_size < 2 ^ 32
  pub checksum4 : length h.checksum ≡ 4

unfoldable pub new_header : AppState → List ℕ → ℕ → MessageHeader
new_header state command payload_size =
    let len = min (length command) command_size in
    record {
      magic = state.message_start;
      command = take len command ++ replicate (command_size - len) 0;
      payload_size = payload_size;
      checksum = replicate 4 0;
    }

unfoldable pub set_checksum : (List ℕ → List ℕ) → List ℕ → MessageHeader → MessageHeader
set_checksum digest payload h = record h { checksum = take 4 (sha256d digest payload) }

-- The bytes before the first zero.
unfoldable pub up_to_zero : List ℕ → List ℕ
up_to_zero [] = []
up_to_zero (b ∷ bs) = let rest = up_to_zero bs in if b == 0 then [] else b ∷ rest

unfoldable pub command_str : MessageHeader → List ℕ
command_str h = from_utf8_lossy (up_to_zero h.command)

-- `b != 0 && !(b.is_ascii_graphic() || b == b' ')`
unfoldable pub bad_command_byte : ℕ → Bool
bad_command_byte b = not (b == 0) && not ((leb 0x21 b && leb b 0x7e) || b == 0x20)

unfoldable pub any_bad : List ℕ → Bool
any_bad [] = false
any_bad (b ∷ bs) = bad_command_byte b || any_bad bs

unfoldable pub header_is_valid : AppState → MessageHeader → Bool
header_is_valid state h =
    if not (eq_bytes h.magic state.message_start)
    then false
    else if any_bad h.command
    then false
    else leb h.payload_size max_size

unfoldable pub serialize_header : MessageHeader → List ℕ
serialize_header h = h.magic ++ (h.command ++ (to_le_bytes 4 h.payload_size ++ h.checksum))

-- `none` is the error "header too short".
unfoldable pub deserialize_header : List ℕ → Option (MessageHeader × ℕ)
deserialize_header bytes =
    if ltb (length bytes) 24
    then none
    else some (
      record {
        magic = slice bytes 0 4;
        command = slice bytes 4 16;
        payload_size = from_le_bytes (slice bytes 16 20);
        checksum = slice bytes 20 24;
      },
      24,
    )

pub record Address : Type 0 where
  pub time : ℕ
  pub services : ℕ
  pub addr : NetAddr
  pub port : ℕ

pub record IsAddress (a : Address) : Type 0 where
  pub time32 : a.time < 2 ^ 32
  pub services64 : a.services < 2 ^ 64
  pub sixteen : IsNetAddr a.addr
  pub port16 : a.port < 2 ^ 16

-- The timestamp tests of the writer and of the reader.
unfoldable pub writes_time : AppState → ℕ → Bool
writes_time state stream_version =
    if state.caddr_time_version == 0
    then not (stream_version == state.init_proto_version)
    else leb state.caddr_time_version stream_version

unfoldable pub reads_time : AppState → ℕ → ℕ → Bool
reads_time state version caddr_time_version =
    (caddr_time_version == 0 && not (state.init_proto_version == version))
    || leb caddr_time_version version

-- Services, address and port, which are always there.
unfoldable pub address_tail : Address → List ℕ
address_tail a = to_le_bytes 8 a.services ++ (a.addr.ip ++ to_be_bytes 2 a.port)

unfoldable pub serialize_address : AppState → Address → ℕ → List ℕ
serialize_address state a stream_version =
    if writes_time state stream_version
    then to_le_bytes 4 a.time ++ address_tail a
    else address_tail a

unfoldable pub deserialize_tail : ℕ → List ℕ → ℕ → Read Address
deserialize_tail time bytes pos = and_then (read_le 8 addr_services_end bytes pos) λ services pos1.
    and_then (read_exact 16 addr_ip_end bytes pos1) λ ip pos2.
      and_then (read_exact 2 addr_port_end bytes pos2) λ buf pos3.
        ok
          (record {
            time = time;
            services = services;
            addr = from_bytes ip;
            port = from_be_bytes buf;
          })
          pos3

unfoldable pub deserialize_address : AppState → List ℕ → ℕ → ℕ → ℕ → Read Address
deserialize_address state bytes pos version caddr_time_version =
    if reads_time state version caddr_time_version
    then and_then (read_le 4 addr_time_end bytes pos)
        (λ time pos1. deserialize_tail time bytes pos1)
    else deserialize_tail 100000000 bytes pos

unfoldable pub serialize_version_payload :
    AppState → ℕ → ℕ → ℤ → Address → Address → ℕ → List ℕ → ℤ → ℕ → List ℕ
serialize_version_payload state proto services timestamp recv from nonce sub_version height relay =
    let addr_version = state.init_proto_version in
    let fixed =
      to_le_bytes 4 proto
      ++ (to_le_bytes 8 services
          ++ (to_le_bytes 8 (as_u64 timestamp)
              ++ (serialize_address state recv addr_version
                  ++ (serialize_address state from addr_version ++ to_le_bytes 8 nonce)))) in
    write_varstr fixed sub_version ++ (to_le_bytes 4 (as_u32 height) ++ (relay ∷ []))
