-- ===== src/Dns/Replies.antt =====
-- What `run` sends back: replies that fit a datagram and carry the identifier of the query.
use satoxcoin_seeder.Prelude.{
  ℕ, ◌+◌, ◌-◌, ◌/◌, ◌%◌, ◌≤◌, ◌<◌, ◌≡◌, refl, Bool, true, false, ◌&&◌, ◌||◌, Option, none, some,
  List, [], ◌∷◌, ◌++◌, length, length-append, take, drop, length-drop, length-take, slice,
  replicate, get_or, ltb, leb, ◌==◌, if◌then◌else◌, to_be_bytes, length-to_be_bytes, from_be_bytes,
  arith, Bool-cases, ltb→lt, Option-cases, inl, inr,
}
use satoxcoin_seeder.Dns.{Parsed, parsed, failed, too_deep, parse_name, Addr, write_ns}
use satoxcoin_seeder.Dns.Names.{parse_name-loops}
use satoxcoin_seeder.Dns.Server.{
  DnsOpt, Section, fits, emit, in_class, soa_record, address_record, emit_addresses, answer_section,
  authority_section, Reply, silence, send, overflow, error_reply, host_match, answer_reply,
  question_reply, respond,
}

-- The output holds the header and fits the buffer.
abbrev IsOutput : List ℕ → Type 0
IsOutput out = (12 ≤ length out) × (length out ≤ 512)

emit-IsOutput : (t : Option (List ℕ)) (s : Section) → IsOutput s.out → IsOutput (emit t s).out
unfolding emit fits
emit-IsOutput none s h = h
emit-IsOutput (some tmp) s h = ground (arith, length-append s.out tmp)

emit_addresses-IsOutput :
    (opt : DnsOpt) (typ cls : ℕ) (addrs : List Addr) (s : Section)
    → IsOutput s.out
    → IsOutput (emit_addresses opt typ cls addrs s).out
unfolding emit_addresses
emit_addresses-IsOutput opt typ cls [] s h = h
emit_addresses-IsOutput opt typ cls (addr ∷ addrs) s h =
    elim (Option-cases (address_record opt typ cls addr)) [
      | inl e ↦ rw (e, emit_addresses) (emit_addresses-IsOutput opt typ cls addrs s h)
      | inr (tmp, e) ↦ elim (Bool-cases (fits tmp s)) [
        | inl f ↦
            rw (e, emit_addresses, f)
              (emit_addresses-IsOutput opt typ cls addrs (emit tmp s) (emit-IsOutput tmp s h))
        | inr f ↦ rw (e, emit_addresses, f) h
      ]
    ]

-- A section that is emitted under a condition.
when-IsOutput :
    (b : Bool) (t : Option (List ℕ)) (s : Section)
    → IsOutput s.out
    → IsOutput (if b then emit t s else s).out
when-IsOutput true t s h = emit-IsOutput t s h
when-IsOutput false t s h = h

when_addresses-IsOutput :
    (b : Bool) (opt : DnsOpt) (typ cls : ℕ) (addrs : List Addr) (s : Section)
    → IsOutput s.out
    → IsOutput (if b then emit_addresses opt typ cls addrs s else s).out
when_addresses-IsOutput true opt typ cls addrs s h = emit_addresses-IsOutput opt typ cls addrs s h
when_addresses-IsOutput false opt typ cls addrs s h = h

module _ (opt : DnsOpt) (cls serial : ℕ) where
  answer_section-IsOutput :
      (name : List ℕ) (typ : ℕ) (question : List ℕ)
      → length question ≤ 500
      → IsOutput (answer_section opt name typ cls serial question).out
  unfolding answer_section
  answer_section-IsOutput name typ question h =
      let ns = write_ns [] [] cls opt.nsttl opt.ns in
      let s0 : Section = record { out = replicate 12 0 ++ question; count = 0 } in
      let ns_wanted = (typ == 2 || typ == 255) && in_class cls in
      let soa_wanted = (typ == 6 || typ == 255) && in_class cls && ltb 0 (length opt.mbox) in
      let s1 = if ns_wanted then emit ns s0 else s0 in
      let s2 = if soa_wanted then emit (soa_record opt cls serial) s1 else s1 in
      let start : IsOutput s0.out = (
        omega (arith, length-append (replicate 12 0) question),
        omega (arith, length-append (replicate 12 0) question),
      ) in
      when_addresses-IsOutput ((typ == 1 || typ == 28 || typ == 255) && in_class cls) opt typ cls
        (opt.cb name) s2
        (when-IsOutput soa_wanted (soa_record opt cls serial) s1
          (when-IsOutput ns_wanted ns s0 start))

  authority_section-IsOutput :
      (s : Section) → IsOutput s.out → IsOutput (authority_section opt cls serial s).out
  unfolding authority_section
  authority_section-IsOutput s h = elim (Bool-cases (ltb 0 s.count)) [
    | inl e ↦
        rw e (
          emit-IsOutput (write_ns [] [] cls opt.nsttl opt.ns) (record { out = s.out; count = 0 }) h)
    | inr e ↦ rw e (
        when-IsOutput (ltb 0 (length opt.mbox)) (soa_record opt cls serial)
          (record { out = s.out; count = 0 }) h)
  ]

-- A reply fits a datagram, holds a header, and begins with the identifier of the query; only a
-- datagram without a header gets none, and only one whose name is not read to an end on the fuel
-- ends the process.
abbrev pub IsReply : ℕ → List ℕ → Reply → Type 0
IsReply fuel msg silence = length msg < 12
IsReply fuel msg (send r) =
    (12 ≤ length r) × (length r ≤ 512) × (take 2 r ≡ get_or msg 0 0 ∷ get_or msg 1 0 ∷ [])
IsReply fuel msg overflow = parse_name fuel msg 12 ≡ too_deep

error_reply-IsReply :
    (fuel : ℕ) (msg : List ℕ) (flags rcode : ℕ) → IsReply fuel msg (error_reply msg flags rcode)
unfolding error_reply
error_reply-IsReply fuel msg flags rcode = (omega arith, omega arith, refl)

module _ (opt : DnsOpt) (msg : List ℕ) (serial : ℕ) (short : length msg ≤ 512) (fuel : ℕ) where
  answer_reply-IsReply :
      (name : List ℕ) (typ cls : ℕ) (question : List ℕ)
      → length question ≤ 500
      → IsReply fuel msg (answer_reply opt msg name typ cls serial question)
  unfolding answer_reply
  answer_reply-IsReply name typ cls question h =
      let answers = answer_section opt name typ cls serial question in
      let authority = authority_section opt cls serial answers in
      let (low, high) =
        authority_section-IsOutput opt cls serial answers
          (answer_section-IsOutput opt cls serial name typ question h) in
      let body = drop 12 authority.out in
      let counts = to_be_bytes 2 authority.count ++ (0 ∷ 0 ∷ body) in
      let size : length (to_be_bytes 2 answers.count ++ counts) + 6 ≡ length authority.out = omega (
        arith,
        length-append (to_be_bytes 2 answers.count) counts,
        length-append (to_be_bytes 2 authority.count) (0 ∷ 0 ∷ body),
        length-to_be_bytes 2 answers.count,
        length-to_be_bytes 2 authority.count,
        length-drop 12 authority.out,
        low,
      ) in
      (omega (arith, size, low), omega (arith, size, high), refl)

  question_reply-IsReply :
      (name : List ℕ) (at : ℕ) → IsReply fuel msg (question_reply opt msg serial name at)
  unfolding question_reply
  question_reply-IsReply name at = elim (Bool-cases (ltb (length msg) (at + 4))) [
    | inl e ↦ rw e (error_reply-IsReply fuel msg (get_or msg 2 0) 1)
    | inr e ↦ rw e (elim (Bool-cases (host_match opt.host name)) [
      | inr f ↦ rw f (error_reply-IsReply fuel msg (get_or msg 2 0 + 128) 5)
      | inl f ↦ rw f (
          answer_reply-IsReply name _ _ (slice msg 12 (at + 4))
            (omega (arith, length-take (at + 4 - 12) (drop 12 msg), length-drop 12 msg)))
    ])
  ]

  parsed-IsReply :
      (p : Parsed)
      → parse_name fuel msg 12 ≡ p
      → IsReply fuel msg (elim p [
        | failed e ↦ error_reply msg (get_or msg 2 0) 1
        | too_deep ↦ overflow
        | parsed name at ↦ question_reply opt msg serial name at
      ])
  parsed-IsReply (failed e) h = error_reply-IsReply fuel msg (get_or msg 2 0) 1
  parsed-IsReply too_deep h = h
  parsed-IsReply (parsed name at) h = question_reply-IsReply name at

  -- What is sent back for a datagram of at most 512 bytes has 12 to 512 bytes and begins with the
  -- identifier of the query, and nothing is sent back only if the datagram is too short for a
  -- header, or if its name is not read to an end on the fuel, in which case the process ends.
  pub respond-IsReply : IsReply fuel msg (respond fuel opt serial msg)
  unfolding respond
  respond-IsReply =
      let flags = get_or msg 2 0 in
      let nquestion = from_be_bytes (slice msg 4 6) in
      elim (Bool-cases (ltb (length msg) 12)) [
        | inl a ↦ rw a (ltb→lt (length msg) 12 a)
        | inr a ↦ rw a (elim (Bool-cases (leb 128 flags)) [
          | inl b ↦ rw b (error_reply-IsReply fuel msg flags 1)
          | inr b ↦ rw b (elim (Bool-cases (flags / 8 % 16 == 0)) [
            | inr c ↦ rw c (error_reply-IsReply fuel msg flags 1)
            | inl c ↦ rw c (elim (Bool-cases (nquestion == 0)) [
              | inl d ↦ rw d (error_reply-IsReply fuel msg flags 0)
              | inr d ↦ rw d (elim (Bool-cases (ltb 1 nquestion)) [
                | inl e ↦ rw e (error_reply-IsReply fuel msg flags 4)
                | inr e ↦ rw e (parsed-IsReply (parse_name fuel msg 12) refl)
              ])
            ])
          ])
        ])
      ]

module _ (opt : DnsOpt) (msg : List ℕ) (serial : ℕ) (short : length msg ≤ 512) where
  -- A query whose name begins with a reference to itself, in a datagram whose first twelve bytes
  -- are those of a query with one question, ends the process.
  pub respond-overflow :
      (fuel : ℕ)
      → 13 < length msg
      → get_or msg 2 0 < 8
      → from_be_bytes (slice msg 4 6) ≡ 1
      → get_or msg 12 0 ≡ 0xc0
      → get_or msg 13 0 ≡ 12
      → respond fuel opt serial msg ≡ overflow
  unfolding respond
  respond-overflow fuel long query one high_byte low_byte =
      let loops : parse_name fuel msg 12 ≡ too_deep =
        parse_name-loops msg 12 long (omega arith) high_byte low_byte fuel in
      rw (one, loops) (ground arith)
