-- ===== src/Dns/Examples.antt =====
-- Names and queries of a few bytes.
use satoxcoin_seeder.Prelude.{
  ℕ, ◌≡◌, ◌≢◌, refl, some, List, [], ◌∷◌, ◌++◌, length, replicate, slice, arith, from_be_bytes,
  to_be_bytes,
}
use satoxcoin_seeder.Dns.{
  parsed, too_deep, parse_name, parse_labels, next_label, push_chars, write_parts,
  write_record_header, with_length, set_length, write_ns, write_name, split_dots, Addr, write_a,
}
use satoxcoin_seeder.Dns.Names.{parse_name-write_name, parse_name-ends}
use satoxcoin_seeder.Dns.Records.{write_a-type}
use satoxcoin_seeder.Dns.Server.{
  DnsOpt, respond, send, overflow, question_reply, answer_reply, answer_section, authority_section,
  emit, fits, emit_addresses, address_record, in_class, host_match, set_aa,
}
use satoxcoin_seeder.Dns.Replies.{IsReply, respond-IsReply, respond-overflow}

-- "s.io"
abbrev zone : List ℕ
zone = b's' ∷ b'.' ∷ b'i' ∷ b'o' ∷ []

abbrev host : Addr
host = record { v = 4; bytes = 8 ∷ 8 ∷ 4 ∷ 4 ∷ replicate 12 0 }

-- A query with one question, whose name refers to itself.
abbrev query : List ℕ
query = 7 ∷ 9 ∷ 1 ∷ 0 ∷ 0 ∷ 1 ∷ 0 ∷ 0 ∷ 0 ∷ 0 ∷ 0 ∷ 0 ∷ 0xc0 ∷ 12 ∷ 0 ∷ 1 ∷ 0 ∷ 1 ∷ []

abbrev opt : DnsOpt
opt = record {
  host = zone;
  ns = zone;
  mbox = [];
  datattl = 60;
  nsttl = 40000;
  cb = λ name. host ∷ [];
}

parse_name-write_name_example :
    (out : List ℕ) × (write_name (7 ∷ []) zone ≡ some out)
    × (parse_name 5 (out ++ (9 ∷ [])) 1 ≡ parsed zone (length out))
parse_name-write_name_example =
    parse_name-write_name (7 ∷ []) (9 ∷ []) zone 5 (unfold split_dots in ground arith)
      (unfold split_dots in omega arith)

parse_name-ends_example : parse_name 9 (3 ∷ zone) 0 ≢ too_deep
parse_name-ends_example = parse_name-ends (3 ∷ zone) (ground arith) 9 0 (omega arith) (omega arith)

write_a-type_example :
    (out : List ℕ) × (write_a [] [] 1 60 host ≡ some out)
    × (parse_name 2 (out ++ []) 0 ≡ parsed [] 1)
    × (slice (out ++ []) 1 3 ≡ 0 ∷ 0 ∷ [])
write_a-type_example = write_a-type [] [] 1 60 1 host refl refl

-- A query for the IPv4 address of the zone.
abbrev asked : List ℕ
asked =
    7 ∷ 9 ∷ 1 ∷ 0 ∷ 0 ∷ 1 ∷ 0 ∷ 0 ∷ 0 ∷ 0 ∷ 0 ∷ 0 ∷ 1 ∷ b's' ∷ 2 ∷ b'i' ∷ b'o' ∷ 0 ∷ 0 ∷ 1 ∷ 0 ∷ 1
    ∷ []

-- The question, one answer and one name server.
abbrev answered : List ℕ
answered =
    7 ∷ 9 ∷ 133 ∷ 0 ∷ 0 ∷ 1 ∷ 0 ∷ 1 ∷ 0 ∷ 1 ∷ 0 ∷ 0 ∷ 1 ∷ 115 ∷ 2 ∷ 105 ∷ 111 ∷ 0 ∷ 0 ∷ 1 ∷ 0 ∷ 1
    ∷ 0 ∷ 0 ∷ 0 ∷ 1 ∷ 0 ∷ 1 ∷ 0 ∷ 0 ∷ 0 ∷ 60 ∷ 0 ∷ 4 ∷ 8 ∷ 8 ∷ 4 ∷ 4 ∷ 0 ∷ 0 ∷ 0 ∷ 2 ∷ 0 ∷ 1 ∷ 0 ∷ 0
    ∷ 156 ∷ 64 ∷ 0 ∷ 6 ∷ 1 ∷ 115 ∷ 2 ∷ 105 ∷ 111 ∷ 0 ∷ []

respond-IsReply_example : IsReply 100 asked (send answered)
unfolding respond question_reply answer_reply answer_section authority_section emit fits
    emit_addresses address_record in_class host_match set_aa parse_name parse_labels next_label
    push_chars write_parts write_record_header with_length set_length write_ns write_name split_dots
    write_a from_be_bytes to_be_bytes
respond-IsReply_example = respond-IsReply opt asked 1700000000 (omega arith) 100

respond-overflow_example : respond 100 opt 1700000000 query ≡ overflow
respond-overflow_example =
    respond-overflow opt query 1700000000 (omega arith) 100 (omega arith) (omega arith)
      (unfold from_be_bytes in refl) refl refl
