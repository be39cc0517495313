-- ===== src/Message/Addresses.antt =====
-- Addresses on the wire, with and without their timestamp.
use satoxcoin_seeder.Prelude.{
  ℕ, ◌+◌, ◌≡◌, refl, ap, ◌∙◌, true, false, List, ◌++◌, length, length-append, append_assoc,
  if◌then◌else◌, to_le_bytes, length-to_le_bytes, to_be_bytes, length-to_be_bytes,
  from_be_bytes-to_be_bytes, arith, Bool-cases, inl, inr, ◌↔◌,
}
use satoxcoin_seeder.Serialize.{
  ok, err, and_then, read_exact, read_le, addr_ip_end, addr_port_end, addr_services_end,
  addr_time_end,
}
use satoxcoin_seeder.Serialize.RoundTrip.{read_exact_at, read_le_at}
use satoxcoin_seeder.Net.{from_bytes}
use satoxcoin_seeder.App.{AppState}
use satoxcoin_seeder.Message.{
  Address, IsAddress, writes_time, reads_time, address_tail, serialize_address, deserialize_tail,
  deserialize_address,
}

pub length-address_tail : (a : Address) → IsAddress a → length (address_tail a) ≡ 26
unfolding address_tail
length-address_tail a w = omega (
  arith,
  length-append (to_le_bytes 8 a.services) (a.addr.ip ++ to_be_bytes 2 a.port),
  length-append a.addr.ip (to_be_bytes 2 a.port),
  length-to_le_bytes 8 a.services,
  length-to_be_bytes 2 a.port,
  w.sixteen.sixteen,
)

-- The part that is always there, read from the place where it stands.
pub tail_at :
    {bytes : List ℕ} {pos : ℕ} (front rest : List ℕ) (a : Address) (time : ℕ)
    → IsAddress a
    → length front ≡ pos
    → bytes ≡ front ++ (address_tail a ++ rest)
    → deserialize_tail time bytes pos ≡ ok (record a { time = time }) (pos + 26)
unfolding deserialize_tail address_tail from_bytes
tail_at {bytes} {pos} front rest a time w k e =
    let s = to_le_bytes 8 a.services in
    let i = a.addr.ip in
    let p = to_be_bytes 2 a.port in
    let hs : length s ≡ 8 = length-to_le_bytes 8 a.services in
    let stop : pos + 8 + 16 + 2 ≡ pos + 26 = omega arith in
    rw
      (
        read_le_at {pos = pos} 8 addr_services_end front (i ++ (p ++ rest)) a.services w.services64
            k (e ∙ ap (λ t. front ++ t) (simp append_assoc)),
        read_exact_at {pos = pos + 8} 16 addr_ip_end (front ++ s) (p ++ rest) i w.sixteen.sixteen
            (omega (arith, length-append front s)) (e ∙ simp append_assoc),
        read_exact_at {pos = pos + 8 + 16} 2 addr_port_end ((front ++ s) ++ i) rest p
            (length-to_be_bytes 2 a.port)
            (omega (arith, length-append (front ++ s) i, length-append front s, w.sixteen.sixteen))
            (e ∙ simp append_assoc),
        from_be_bytes-to_be_bytes 2 a.port w.port16,
      )
      (ap (ok (record a { time = time })) stop)

-- An address is read back from the place where it was written, whatever follows it, if writer and
-- reader agree on the timestamp. Without the timestamp the reader answers its default, 100000000.
pub deserialize_address-serialize_address :
    (state : AppState) (front rest : List ℕ) (a : Address) (version caddr : ℕ)
    → IsAddress a
    → writes_time state version ≡ reads_time state version caddr
    → deserialize_address state
        (front ++ (serialize_address state a version ++ rest))
        (length front)
        version
        caddr
      ≡ (if writes_time state version
          then ok a (length front + 30)
          else ok (record a { time = 100000000 }) (length front + 26))
unfolding serialize_address deserialize_address
deserialize_address-serialize_address state front rest a version caddr w agree =
    elim (Bool-cases (writes_time state version)) [
      | inr out ↦ rw (← agree, out) (tail_at front rest a 100000000 w refl refl)
      | inl out ↦
          let t = to_le_bytes 4 a.time in
          let stop : length front + 4 + 26 ≡ length front + 30 = omega arith in
          rw
            (
              ← agree,
              out,
              read_le_at {pos = length front} 4 addr_time_end front (address_tail a ++ rest) a.time
                  w.time32 refl (ap (λ t. front ++ t) (append_assoc t (address_tail a) rest)),
            )
            (tail_at (front ++ t) rest a a.time w
                (omega (arith, length-append front t, length-to_le_bytes 4 a.time))
                (simp append_assoc)
              ∙ ap (ok a) stop)
    ]

-- Writer and reader agree on the timestamp at every version but one: with no
-- `caddr_time_version` set, at the init version, the reader expects a timestamp that the writer
-- leaves out.
pub times_agree_iff :
    (state : AppState) (version : ℕ)
    → (writes_time state version ≡ reads_time state version state.caddr_time_version)
      ↔ (¬ ((state.caddr_time_version ≡ 0) × (version ≡ state.init_proto_version)))
unfolding writes_time reads_time
times_agree_iff state version = (λ e p. ground arith, λ n. ground arith)

too_short :
    (bytes : List ℕ)
    → length bytes ≡ 26
    → and_then (read_le 4 addr_time_end bytes 0) (λ time pos1. deserialize_tail time bytes pos1)
      ≡ err addr_ip_end 12
unfolding read_le read_exact deserialize_tail
too_short bytes h = rw h

init_times :
    (state : AppState)
    → state.caddr_time_version ≡ 0
    → (writes_time state state.init_proto_version ≡ false)
      × (reads_time state state.init_proto_version 0 ≡ true)
unfolding writes_time reads_time
init_times state z = (ground arith, ground arith)

-- With no `caddr_time_version` set, at the init version, an address that the program wrote, alone in
-- its buffer, is refused when read back: four of its bytes are taken for the timestamp, and the rest is too short for the address.
pub deserialize_address_init :
    (state : AppState) (a : Address)
    → IsAddress a
    → state.caddr_time_version ≡ 0
    → deserialize_address state
        (serialize_address state a state.init_proto_version)
        0
        state.init_proto_version
        0
      ≡ err addr_ip_end 12
unfolding deserialize_address serialize_address
deserialize_address_init state a w z =
    let (out, in_) = init_times state z in
    rw (out, in_) (too_short (address_tail a) (length-address_tail a w))
