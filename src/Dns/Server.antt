-- ===== src/Dns/Server.antt =====
-- crates/dns-server/src/server.rs, `run`: the answer to one datagram. The output buffer is the list
-- of its bytes up to `outpos`; bytes of the header are written out where they are assembled.
use satoxcoin_seeder.Prelude.{
  ℕ, ◌+◌, ◌-◌, ◌/◌, ◌%◌, Bool, false, not, ◌&&◌, ◌||◌, Option, none, some, List, [], ◌∷◌, ◌++◌,
  length, drop, slice, replicate, get_or, ltb, leb, ◌==◌, if◌then◌else◌, to_be_bytes, from_be_bytes,
  eq_bytes,
}
use satoxcoin_seeder.Dns.{
  parsed, failed, too_deep, parse_name, write_name, Addr, write_record_header, set_length, write_a,
  write_aaaa, write_ns,
}

pub record DnsOpt : Type 0 where
  pub host : List ℕ
  pub ns : List ℕ
  pub mbox : List ℕ
  pub datattl : ℕ
  pub nsttl : ℕ
  pub cb : List ℕ → List Addr

unfoldable pub write_soa :
    List ℕ → List ℕ → ℕ → ℕ → List ℕ → List ℕ → ℕ → ℕ → ℕ → ℕ → ℕ → Option (List ℕ)
write_soa buf name cls ttl mname rname serial refresh retry expire minimum =
    elim (write_record_header buf name 6 cls ttl) [
      | none ↦ none
      | some head ↦ elim (write_name (head ++ (0 ∷ 0 ∷ [])) mname) [
        | none ↦ none
        | some b ↦ elim (write_name b rname) [
          | none ↦ none
          | some b' ↦
              let out =
                b'
                ++ (to_be_bytes 4 serial
                    ++ (to_be_bytes 4 refresh
                        ++ (to_be_bytes 4 retry
                            ++ (to_be_bytes 4 expire ++ to_be_bytes 4 minimum)))) in
              some (set_length (length head) (length out - length head - 2) out)
        ]
      ]
    ]

-- The output so far, with the number of records in the section.
pub record Section : Type 0 where
  pub out : List ℕ
  pub count : ℕ

-- A record that was written and fits is appended; otherwise nothing changes.
unfoldable pub fits : Option (List ℕ) → Section → Bool
fits none s = false
fits (some tmp) s = ltb (length s.out + length tmp) 512

unfoldable pub emit : Option (List ℕ) → Section → Section
unfolding fits
emit none s = s
emit (some tmp) s =
    if fits (some tmp) s then record { out = s.out ++ tmp; count = s.count + 1 } else s

unfoldable pub in_class : ℕ → Bool
in_class cls = cls == 1 || cls == 255

unfoldable pub soa_record : DnsOpt → ℕ → ℕ → Option (List ℕ)
soa_record opt cls serial =
    write_soa [] [] cls opt.nsttl opt.ns opt.mbox serial 604800 86400 2592000 604800

-- The record for an address, if its kind is asked for.
unfoldable pub address_record : DnsOpt → ℕ → ℕ → Addr → Option (Option (List ℕ))
address_record opt typ cls addr =
    if addr.v == 4 && (typ == 1 || typ == 255)
    then some (write_a [] [] cls opt.datattl addr)
    else if addr.v == 6 && (typ == 28 || typ == 255)
    then some (write_aaaa [] [] cls opt.datattl addr)
    else none

-- The loop over the addresses: one of another kind is skipped, and the first that does not fit
-- ends it.
unfoldable pub emit_addresses : DnsOpt → ℕ → ℕ → List Addr → Section → Section
emit_addresses opt typ cls [] s = s
emit_addresses opt typ cls (addr ∷ addrs) s = elim (address_record opt typ cls addr) [
  | none ↦ emit_addresses opt typ cls addrs s
  | some tmp ↦
      let more = emit_addresses opt typ cls addrs (emit tmp s) in if fits tmp s then more else s
]

unfoldable pub answer_section : DnsOpt → List ℕ → ℕ → ℕ → ℕ → List ℕ → Section
answer_section opt name typ cls serial question =
    let s0 : Section = record { out = replicate 12 0 ++ question; count = 0 } in
    let s1 =
      if (typ == 2 || typ == 255) && in_class cls
      then emit (write_ns [] [] cls opt.nsttl opt.ns) s0
      else s0 in
    let s2 =
      if (typ == 6 || typ == 255) && in_class cls && ltb 0 (length opt.mbox)
      then emit (soa_record opt cls serial) s1
      else s1 in
    if (typ == 1 || typ == 28 || typ == 255) && in_class cls
    then emit_addresses opt typ cls (opt.cb name) s2
    else s2

unfoldable pub authority_section : DnsOpt → ℕ → ℕ → Section → Section
authority_section opt cls serial answers =
    let s0 : Section = record { out = answers.out; count = 0 } in
    if ltb 0 answers.count
    then emit (write_ns [] [] cls opt.nsttl opt.ns) s0
    else if ltb 0 (length opt.mbox)
    then emit (soa_record opt cls serial) s0
    else s0

-- What is sent back; `overflow` is the end of the process, when names refer to each other too
-- deeply.
pub data Reply : Type 0 where
  silence : Reply
  send : List ℕ → Reply
  overflow : Reply

-- `set_error_header`, and the twelve bytes that are sent.
unfoldable pub error_reply : List ℕ → ℕ → ℕ → Reply
error_reply msg flags rcode =
    let low = get_or msg 3 0 in
    send (get_or msg 0 0 ∷ get_or msg 1 0 ∷ flags ∷ (low - low % 16 + rcode % 16) ∷ replicate 8 0)

-- `name == host || name.ends_with(".host")`
unfoldable pub host_match : List ℕ → List ℕ → Bool
host_match host name =
    let suffix = b'.' ∷ host in
    eq_bytes name host
    || (leb (length suffix) (length name)
        && eq_bytes (drop (length name - length suffix) name) suffix)

-- `| 0x04`
unfoldable pub set_aa : ℕ → ℕ
set_aa flags = if flags / 4 % 2 == 1 then flags else flags + 4

-- The reply to a question for a name of the zone.
unfoldable pub answer_reply : DnsOpt → List ℕ → List ℕ → ℕ → ℕ → ℕ → List ℕ → Reply
answer_reply opt msg name typ cls serial question =
    let low = get_or msg 3 0 in
    let answers = answer_section opt name typ cls serial question in
    let authority = authority_section opt cls serial answers in
    send (
      get_or msg 0 0
      ∷ get_or msg 1 0
      ∷ set_aa (get_or msg 2 0 + 128)
      ∷ (low - low % 16)
      ∷ 0
      ∷ 1
      ∷ (to_be_bytes 2 answers.count
          ++ (to_be_bytes 2 authority.count ++ (0 ∷ 0 ∷ drop 12 authority.out))))

-- A name that was parsed up to `at`.
unfoldable pub question_reply : DnsOpt → List ℕ → ℕ → List ℕ → ℕ → Reply
question_reply opt msg serial name at =
    let flags = get_or msg 2 0 in
    let typ = from_be_bytes (slice msg at (at + 2)) in
    let cls = from_be_bytes (slice msg (at + 2) (at + 4)) in
    if ltb (length msg) (at + 4)
    then error_reply msg flags 1
    else if not (host_match opt.host name)
    then error_reply msg (flags + 128) 5
    else answer_reply opt msg name typ cls serial (slice msg 12 (at + 4))

-- One pass through the loop of `run`, for a datagram of at most 512 bytes.
unfoldable pub respond : ℕ → DnsOpt → ℕ → List ℕ → Reply
respond fuel opt serial msg =
    let flags = get_or msg 2 0 in
    let nquestion = from_be_bytes (slice msg 4 6) in
    if ltb (length msg) 12
    then silence
    else if leb 128 flags
    then error_reply msg flags 1
    else if not (flags / 8 % 16 == 0)
    then error_reply msg flags 1
    else if nquestion == 0
    then error_reply msg flags 0
    else if ltb 1 nquestion
    then error_reply msg flags 4
    else elim (parse_name fuel msg 12) [
      | failed e ↦ error_reply msg flags 1
      | too_deep ↦ overflow
      | parsed name at ↦ question_reply opt msg serial name at
    ]
