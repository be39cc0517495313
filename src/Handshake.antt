-- ===== src/Handshake.antt =====
-- crates/seeder-core/src/p2p/handshake.rs: the conversation with one node. The network is a list
-- of the chunks that the reads return; its end is a closed or failed connection, or the deadline.
-- What is sent is collected. `digest` is SHA-256.
pub mod Frames
pub mod Messages
pub mod Loop
pub mod Hostile
mod Examples
use satoxcoin_seeder.Prelude.{
  ℕ, zero, suc, ◌+◌, ◌-◌, ◌<◌, ◌≡◌, Bool, true, false, not, ◌&&◌, ◌||◌, Option, none, some, List,
  [], ◌∷◌, ◌++◌, length, take, drop, min, ◌%◌, ◌^◌, slice, ltb, leb, ◌==◌, if◌then◌else◌, eq_bytes,
  from_le_bytes, ℤ, pos, ltb_ℤ, as_u32, u32_as_i32,
}
use satoxcoin_seeder.Serialize.{Read, ok, err, panic, sha256d, read_varint, read_varstr}
use satoxcoin_seeder.Net.{Network, Service, SocketAddr, socket_addr, service_network, from_ipv4}
use satoxcoin_seeder.App.{AppState}
use satoxcoin_seeder.Message.{
  MessageHeader, Address, new_header, set_checksum, command_str, header_is_valid, serialize_header,
  deserialize_header, deserialize_address, serialize_version_payload,
}

pub record HandshakeResult : Type 0 where
  pub client_version : ℤ
  pub client_sub_version : List ℕ
  pub starting_height : ℤ
  pub services : ℕ
  pub addresses : List Address
  pub ban : ℤ

-- The local variables of `test_node`, and what it has sent.
pub record Session : Type 0 where
  pub read_buf : List ℕ
  pub remote_version : ℤ
  pub remote_services : ℕ
  pub remote_subver : List ℕ
  pub remote_height : ℤ
  pub verack_received : Bool
  pub addresses : List Address
  pub ban : ℤ
  pub sent : List (List ℕ)

-- How a pass through the inner loop ends. `abort` is a panic; `stuck` is no outcome of the
-- program: the fuel ran out.
pub data Step : Type 0 where
  again : Session → Step
  leave : Session → Step
  abort : Step
  stuck : Step

abbrev pub version_cmd : List ℕ
version_cmd = b'v' ∷ b'e' ∷ b'r' ∷ b's' ∷ b'i' ∷ b'o' ∷ b'n' ∷ []

abbrev pub verack_cmd : List ℕ
verack_cmd = b'v' ∷ b'e' ∷ b'r' ∷ b'a' ∷ b'c' ∷ b'k' ∷ []

abbrev pub getaddr_cmd : List ℕ
getaddr_cmd = b'g' ∷ b'e' ∷ b't' ∷ b'a' ∷ b'd' ∷ b'd' ∷ b'r' ∷ []

abbrev pub addr_cmd : List ℕ
addr_cmd = b'a' ∷ b'd' ∷ b'd' ∷ b'r' ∷ []

-- The first index with 24 bytes from there on, of which the first four are the magic.
unfoldable pub find_magic : List ℕ → List ℕ → Option ℕ
find_magic magic [] = none
find_magic magic (b ∷ bs) =
    let later = find_magic magic bs in
    if ltb (length (b ∷ bs)) 24
    then none
    else if eq_bytes (take 4 (b ∷ bs)) magic
    then some 0
    else elim later [ none ↦ none | some i ↦ some (suc i) ]

-- The services behind the version number, if they are there.
unfoldable pub services_of : List ℕ → ℕ → ℕ
services_of payload old =
    if leb (4 + 8) (length payload) then from_le_bytes (slice payload 4 12) else old

-- The four bytes of the height at `at`, if they are there.
unfoldable pub height_of : List ℕ → ℕ → ℤ → ℤ
height_of payload at old =
    if leb (at + 4) (length payload)
    then u32_as_i32 (from_le_bytes (slice payload at (at + 4)))
    else old

-- The user agent at position 4 + 8 + 8 + 26 + 26 + 8, and the height behind it. A user agent that
-- cannot be read is skipped, and the height is looked for where the reader stopped.
unfoldable pub agent_and_height : List ℕ → Session → Step
agent_and_height payload s = elim (read_varstr payload 80) [
  | ok sv at ↦
      again (record s { remote_subver = sv; remote_height = height_of payload at s.remote_height })
  | err e at ↦ again (record s { remote_height = height_of payload at s.remote_height })
  | panic ↦ abort
]

-- The answers to a version message: the headers carry the checksum of `MessageHeader::new`.
unfoldable pub replies : AppState → Bool → List (List ℕ)
replies state get_addr =
    let vack = serialize_header (new_header state verack_cmd 0) in
    let ga = serialize_header (new_header state getaddr_cmd 0) in
    vack ∷ (if get_addr then ga ∷ [] else [])

unfoldable pub with_replies : AppState → Bool → Step → Step
with_replies state get_addr (again s) = again (record s { sent = s.sent ++ replies state get_addr })
with_replies state get_addr r = r

unfoldable pub on_version : AppState → Bool → List ℕ → Session → Step
on_version state get_addr payload s =
    if ltb (length payload) 4
    then leave s
    else with_replies state get_addr (
        agent_and_height payload (record s {
          remote_version = u32_as_i32 (from_le_bytes (slice payload 0 4));
          remote_services = services_of payload s.remote_services;
        }))

-- At most `n` addresses, up to the first that cannot be read.
unfoldable pub read_addresses : AppState → ℤ → List ℕ → ℕ → ℕ → List Address → List Address
read_addresses state version payload zero at out = out
read_addresses state version payload (suc n) at out =
    elim (deserialize_address state payload at (as_u32 version) state.caddr_time_version) [
      | ok a at' ↦ read_addresses state version payload n at' (out ++ (a ∷ []))
      | err e at' ↦ out
      | panic ↦ out
    ]

unfoldable pub on_addr : AppState → List ℕ → Session → Step
on_addr state payload s = elim (read_varint payload 0) [
  | ok count at ↦ leave (record s {
    addresses = read_addresses state s.remote_version payload (min count 1000) at s.addresses;
  })
  | err e at ↦ leave s
  | panic ↦ abort
]

-- The `match` on the command.
unfoldable pub on_message : AppState → Bool → List ℕ → List ℕ → Session → Step
on_message state get_addr cmd payload s =
    if eq_bytes cmd version_cmd
    then on_version state get_addr payload s
    else if eq_bytes cmd verack_cmd
    then again (record s { verack_received = true })
    else if eq_bytes cmd addr_cmd
    then on_addr state payload s
    else again s

-- A frame whose header stands at the front of the buffer.
unfoldable pub on_frame : (List ℕ → List ℕ) → AppState → Bool → MessageHeader → Session → Step
on_frame digest state get_addr header s =
    let total_len = 24 + header.payload_size in
    let payload = take header.payload_size (drop 24 s.read_buf) in
    let s' = record s { read_buf = drop header.payload_size (drop 24 s.read_buf) } in
    if not (header_is_valid state header)
    then leave (record s { ban = pos 100000 })
    else if ltb (length s.read_buf) total_len
    then leave s
    else if not (eq_bytes (take 4 (sha256d digest payload)) header.checksum)
    then again s'
    else on_message state get_addr (command_str header) payload s'

-- One pass through the inner loop.
unfoldable pub pass : (List ℕ → List ℕ) → AppState → Bool → Session → Step
pass digest state get_addr s = elim (find_magic state.message_start s.read_buf) [
  | none ↦ leave (record s {
    read_buf =
        if ltb 23 (length s.read_buf) then drop (length s.read_buf - 23) s.read_buf else s.read_buf;
  })
  | some start ↦
      let s1 = record s { read_buf = drop start s.read_buf } in
      if ltb (length s1.read_buf) 24
      then leave s1
      else elim (deserialize_header (take 24 s1.read_buf)) [
        | none ↦ again (record s1 { read_buf = drop 1 s1.read_buf })
        | some (header, n) ↦ on_frame digest state get_addr header s1
      ]
]

-- The inner loop: it answers `leave`, `abort`, or `stuck` without enough fuel.
unfoldable pub inner_loop : ℕ → (List ℕ → List ℕ) → AppState → Bool → Session → Step
inner_loop zero digest state get_addr s = stuck
inner_loop (suc fuel) digest state get_addr s = elim (pass digest state get_addr s) [
  | again s' ↦ inner_loop fuel digest state get_addr s'
  | leave s' ↦ leave s'
  | abort ↦ abort
  | stuck ↦ stuck
]

-- The tests after the inner loop.
unfoldable pub is_finished : Bool → Session → Bool
is_finished get_addr s =
    ltb_ℤ (pos 0) s.ban
    || (s.verack_received && not (elim s.addresses [ [] ↦ true | _ ↦ false ]))
    || (s.verack_received && not get_addr)

-- The outer loop over the chunks that the reads return. An empty chunk is the end of the stream.
unfoldable pub outer_loop : (List ℕ → List ℕ) → AppState → Bool → List (List ℕ) → Session → Step
outer_loop digest state get_addr [] s = leave s
outer_loop digest state get_addr (chunk ∷ chunks) s =
    let s1 = record s { read_buf = s.read_buf ++ chunk } in
    let after = λ (s' : Session).
      (let more = outer_loop digest state get_addr chunks s' in
        if is_finished get_addr s' then leave s' else more) in
    if length chunk == 0
    then leave s
    else elim (inner_loop (suc (length s1.read_buf)) digest state get_addr s1) [
      | again s' ↦ stuck
      | leave s' ↦ after s'
      | abort ↦ abort
      | stuck ↦ stuck
    ]

-- What the network does for one conversation: whether the node accepts the connection within so
-- many seconds, whether the first write succeeds, and what the reads return.
pub record Peer : Type 0 where
  pub accepts : SocketAddr → ℕ → Bool
  pub takes : List ℕ → Bool
  pub chunks : List (List ℕ)

-- `ran_out` is no outcome of the program.
pub data NodeOutcome : Type 0 where
  finished : HandshakeResult → NodeOutcome
  aborted : NodeOutcome
  ran_out : NodeOutcome

abbrev pub no_result : HandshakeResult
no_result = record {
  client_version = pos 0;
  client_sub_version = [];
  starting_height = pos 0;
  services = 0;
  addresses = [];
  ban = pos 0;
}

abbrev pub new_session : Session
new_session = record {
  read_buf = [];
  remote_version = pos 0;
  remote_services = 0;
  remote_subver = [];
  remote_height = pos 0;
  verack_received = false;
  addresses = [];
  ban = pos 0;
  sent = [];
}

unfoldable pub outcome_of : Step → NodeOutcome
outcome_of (again s) = ran_out
outcome_of (leave s) = finished (record {
  client_version = s.remote_version;
  client_sub_version = s.remote_subver;
  starting_height = s.remote_height;
  services = s.remote_services;
  addresses = s.addresses;
  ban = s.ban;
})
outcome_of abort = aborted
outcome_of stuck = ran_out

abbrev pub bitcoin_seed_nonce : ℕ
bitcoin_seed_nonce = 0x0539a019ca550825

abbrev is_tor_network : Network → Bool
is_tor_network Network.tor = true
is_tor_network _ = false

-- The first message, framed.
unfoldable pub version_message : (List ℕ → List ℕ) → AppState → Service → ℤ → ℤ → List ℕ
version_message digest state service now current_block =
    let addr_recv : Address = record {
      time = 0;
      services = 0;
      addr = service.addr;
      port = service.port;
    } in
    let addr_from : Address = record {
      time = 0;
      services = 0;
      addr = from_ipv4 (record { o0 = 0; o1 = 0; o2 = 0; o3 = 0 });
      port = 0;
    } in
    let payload =
      serialize_version_payload state state.protocol_version 0 now addr_recv addr_from
        bitcoin_seed_nonce (b'/' ∷ (state.app_name ++ (b'/' ∷ []))) current_block 0 in
    let header =
      set_checksum digest payload (new_header state version_cmd (length payload % 2 ^ 32)) in
    serialize_header header ++ payload

unfoldable pub test_node :
    (List ℕ → List ℕ) → AppState → Peer → Service → ℤ → ℤ → Bool → NodeOutcome
test_node digest state peer service now current_block get_addr = elim (socket_addr service) [
  | none ↦ finished no_result
  | some target ↦
      let timeout_secs = if is_tor_network (service_network service) then 120 else 30 in
      if not (peer.accepts target timeout_secs)
      then finished no_result
      else if not (peer.takes (version_message digest state service now current_block))
      then finished no_result
      else outcome_of (outer_loop digest state get_addr peer.chunks new_session)
]
