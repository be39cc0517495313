-- ===== src/Dns.antt =====
-- crates/dns-server/src/server.rs: names and resource records on the wire. A string is the list of
-- its bytes.
pub mod Names
pub mod Records
pub mod Server
pub mod Replies
mod Examples
use satoxcoin_seeder.Prelude.{
  ℕ, zero, suc, ◌+◌, ◌*◌, ◌-◌, ◌/◌, ◌%◌, ◌^◌, Bool, true, false, not, Option, none, some, List, [],
  ◌∷◌, ◌++◌, length, take, drop, slice, get_or, ltb, leb, ◌==◌, if◌then◌else◌, to_be_bytes,
}

-- The messages of `parse_name`.
pub data NameError : Type 0 where
  premature_end premature_end_in_ref label_too_long premature_end_in_label : NameError

-- A name with the position behind it, or an error. `too_deep` is no result of the program: the
-- fuel ran out.
pub data Parsed : Type 0 where
  parsed : List ℕ → ℕ → Parsed
  failed : NameError → Parsed
  too_deep : Parsed

-- One pass through the loop: the result, another label, or a reference to another place with the
-- position behind it.
pub data Label : Type 0 where
  stop : Parsed → Label
  label : List ℕ → ℕ → Label
  reference : List ℕ → ℕ → ℕ → Label

-- `name.push(c as char)` for each byte of a label: the character with that code, which takes two
-- bytes from 128 on.
unfoldable pub push_chars : List ℕ → List ℕ
push_chars [] = []
push_chars (c ∷ cs) =
    let rest = push_chars cs in
    if ltb c 128 then c ∷ rest else (192 + c / 64) ∷ (128 + c % 64) ∷ rest

-- A byte with both top bits set is one from 0xc0 on.
unfoldable pub next_label : List ℕ → ℕ → List ℕ → Bool → Label
next_label bytes at name first =
    let octet = get_or bytes at 0 in
    let name' = if first then name else name ++ (b'.' ∷ []) in
    let from = at + 1 in
    if leb (length bytes) at
    then stop (failed premature_end)
    else if octet == 0
    then stop (parsed name from)
    else if leb 0xc0 octet
    then if leb (length bytes) from
      then stop (failed premature_end_in_ref)
      else reference name' (octet % 64 * 256 + get_or bytes from 0) (from + 1)
    else if ltb 63 octet
    then stop (failed label_too_long)
    else if ltb (length bytes) (from + octet)
    then stop (failed premature_end_in_label)
    else label (name' ++ push_chars (slice bytes from (from + octet))) (from + octet)

-- What a reference makes of the name it refers to.
unfoldable pub after_reference : List ℕ → ℕ → Parsed → Parsed
after_reference name at (parsed rest p) = parsed (name ++ rest) at
after_reference name at (failed e) = failed e
after_reference name at too_deep = too_deep

-- The loop, on fuel, which a reference uses up too.
unfoldable pub parse_labels : ℕ → List ℕ → ℕ → List ℕ → Bool → Parsed
parse_labels zero bytes at name first = too_deep
parse_labels (suc fuel) bytes at name first = elim (next_label bytes at name first) [
  | stop p ↦ p
  | label name' at' ↦ parse_labels fuel bytes at' name' false
  | reference name' target at' ↦ after_reference name' at' (parse_labels fuel bytes target [] true)
]

unfoldable pub parse_name : ℕ → List ℕ → ℕ → Parsed
parse_name fuel bytes at = parse_labels fuel bytes at [] true

-- `name.split('.')`
unfoldable pub split_dots : List ℕ → List (List ℕ)
split_dots [] = [] ∷ []
split_dots (c ∷ s) =
    let rest = split_dots s in
    if c == b'.'
    then [] ∷ rest
    else elim rest [ [] ↦ (c ∷ []) ∷ [] | part ∷ parts ↦ (c ∷ part) ∷ parts ]

unfoldable pub write_parts : List ℕ → List (List ℕ) → Option (List ℕ)
write_parts buf [] = some (buf ++ (0 ∷ []))
write_parts buf (part ∷ parts) =
    let rest = write_parts (buf ++ (length part ∷ part)) parts in
    if ltb 63 (length part) then none else rest

-- The buffer after `write_name`; `none` is its error, on which every caller drops the buffer.
unfoldable pub write_name : List ℕ → List ℕ → Option (List ℕ)
write_name buf name = write_parts buf (split_dots name)

pub record Addr : Type 0 where
  pub v : ℕ
  pub bytes : List ℕ

unfoldable pub addr_v4 : List ℕ → Addr
addr_v4 a = record { v = 4; bytes = a ++ (0 ∷ 0 ∷ 0 ∷ 0 ∷ 0 ∷ 0 ∷ 0 ∷ 0 ∷ 0 ∷ 0 ∷ 0 ∷ 0 ∷ []) }

unfoldable pub addr_v6 : List ℕ → Addr
addr_v6 a = record { v = 6; bytes = a }

unfoldable pub write_record_header : List ℕ → List ℕ → ℕ → ℕ → ℕ → Option (List ℕ)
write_record_header buf name typ cls ttl = elim (write_name buf name) [
  | none ↦ none
  | some b ↦ some (b ++ (to_be_bytes 2 typ ++ (to_be_bytes 2 cls ++ to_be_bytes 4 ttl)))
]

-- The two bytes at `at` are overwritten with a length.
unfoldable pub set_length : ℕ → ℕ → List ℕ → List ℕ
set_length at n buf = take at buf ++ (to_be_bytes 2 (n % 2 ^ 16) ++ drop (at + 2) buf)

-- A record of the given type with its data behind the length.
unfoldable pub with_length : List ℕ → List ℕ → List ℕ
with_length head rdata =
    let buf = (head ++ (0 ∷ 0 ∷ [])) ++ rdata in
    set_length (length head) (length buf - length head - 2) buf

unfoldable pub write_a : List ℕ → List ℕ → ℕ → ℕ → Addr → Option (List ℕ)
write_a buf name cls ttl addr =
    if not (addr.v == 4) then none else elim (write_record_header buf name 1 cls ttl) [
      | none ↦ none
      | some head ↦ some (with_length head (take 4 addr.bytes))
    ]

unfoldable pub write_aaaa : List ℕ → List ℕ → ℕ → ℕ → Addr → Option (List ℕ)
write_aaaa buf name cls ttl addr =
    if not (addr.v == 6) then none else elim (write_record_header buf name 28 cls ttl) [
      | none ↦ none
      | some head ↦ some (with_length head (take 16 addr.bytes))
    ]

-- The length goes to `before + 10`, wherever the name ended.
unfoldable pub write_ns : List ℕ → List ℕ → ℕ → ℕ → List ℕ → Option (List ℕ)
write_ns buf name cls ttl ns = elim (write_record_header buf name 2 cls ttl) [
  | none ↦ none
  | some head ↦ elim (write_name (head ++ (0 ∷ 0 ∷ [])) ns) [
    | none ↦ none
    | some b ↦ some (set_length (length buf + 10) (length b - (length head + 2)) b)
  ]
]
