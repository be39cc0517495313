-- ===== src/Dns/Records.antt =====
-- The layout of resource records, and what a reader finds in one that is written for the root.
use satoxcoin_seeder.Prelude.{
  ℕ, suc, ◌+◌, ◌-◌, ◌%◌, ◌^◌, ◌<◌, ◌≡◌, refl, ap, true, none, some, List, [], ◌∷◌, ◌++◌, length,
  length-append, append_assoc, Bool-cases, inl, inr, take_all, take, slice, take_left, drop_past,
  length-take, ◌==◌, if◌then◌else◌, arith, to_be_bytes, length-to_be_bytes, All,
}
use satoxcoin_seeder.Dns.{
  parsed, parse_name, parse_labels, split_dots, write_parts, write_name, Addr, write_record_header,
  set_length, with_length, write_a, write_aaaa, write_ns,
}
use satoxcoin_seeder.Dns.Names.{encode, IsLabel, write_parts_lem, end_at, slice_after}

set_length_middle :
    (n : ℕ) (head rdata : List ℕ)
    → n < 2 ^ 16
    → set_length (length head) n ((head ++ (0 ∷ 0 ∷ [])) ++ rdata)
      ≡ head ++ (to_be_bytes 2 n ++ rdata)
unfolding set_length
set_length_middle n head rdata h =
    let fits : n % 2 ^ 16 ≡ n = omega arith in
    rw
      (
        append_assoc head (0 ∷ 0 ∷ []) rdata,
        take_left (length head) head (0 ∷ 0 ∷ rdata) refl,
        fits,
        drop_past (length head) 2 head (0 ∷ 0 ∷ rdata) refl,
      )
      refl

with_length_lem :
    (head rdata : List ℕ)
    → length rdata < 2 ^ 16
    → with_length head rdata ≡ head ++ (to_be_bytes 2 (length rdata) ++ rdata)
unfolding with_length
with_length_lem head rdata h =
    let size : length ((head ++ (0 ∷ 0 ∷ [])) ++ rdata) - length head - 2 ≡ length rdata =
      omega (arith, length-append (head ++ (0 ∷ 0 ∷ [])) rdata, length-append head (0 ∷ 0 ∷ [])) in
    rw size (set_length_middle (length rdata) head rdata h)

-- The header of a record for the empty name: two bytes for the name, type, class and time to live.
abbrev pub root_header : ℕ → ℕ → ℕ → List ℕ
root_header typ cls ttl = 0 ∷ 0 ∷ (to_be_bytes 2 typ ++ (to_be_bytes 2 cls ++ to_be_bytes 4 ttl))

length-root_header : (typ cls ttl : ℕ) → length (root_header typ cls ttl) ≡ 10
length-root_header typ cls ttl = omega (
  arith,
  length-append (to_be_bytes 2 typ) (to_be_bytes 2 cls ++ to_be_bytes 4 ttl),
  length-append (to_be_bytes 2 cls) (to_be_bytes 4 ttl),
  length-to_be_bytes 2 typ,
  length-to_be_bytes 2 cls,
  length-to_be_bytes 4 ttl,
)

write_name_lem :
    (buf name : List ℕ)
    → All IsLabel (split_dots name)
    → write_name buf name ≡ some (buf ++ encode (split_dots name))
unfolding write_name
write_name_lem buf name h = write_parts_lem buf (split_dots name) h

write_record_header-root :
    (buf : List ℕ) (typ cls ttl : ℕ)
    → write_record_header buf [] typ cls ttl ≡ some (buf ++ root_header typ cls ttl)
unfolding write_record_header write_name split_dots write_parts
write_record_header-root buf typ cls ttl = ap some (simp append_assoc)

-- An address record for the empty name, as the server writes all of its records, has the header, the
-- length of the address and the address, whose first 4 or 16 bytes are taken; an address of the
-- other kind is refused.
pub write_a_lem :
    (buf : List ℕ) (cls ttl : ℕ) (addr : Addr)
    → length addr.bytes ≡ 16
    → (write_a buf [] cls ttl addr ≡ (
        if addr.v == 4
        then some (buf ++ (root_header 1 cls ttl ++ (0 ∷ 4 ∷ take 4 addr.bytes)))
        else none))
      × (write_aaaa buf [] cls ttl addr ≡ (
          if addr.v == 6
          then some (buf ++ (root_header 28 cls ttl ++ (0 ∷ 16 ∷ addr.bytes)))
          else none))
unfolding write_a write_aaaa to_be_bytes
write_a_lem buf cls ttl addr h = (
  elim (Bool-cases (addr.v == 4)) [
    | inl e ↦
        let four : length (take 4 addr.bytes) ≡ 4 = omega (arith, length-take 4 addr.bytes) in
        rw
          (
            e,
            write_record_header-root buf 1 cls ttl,
            with_length_lem (buf ++ root_header 1 cls ttl) (take 4 addr.bytes) (omega arith),
            four,
          )
          (ap some (simp append_assoc))
    | inr e ↦ rw e refl
  ],
  elim (Bool-cases (addr.v == 6)) [
    | inl e ↦
        let all : take 16 addr.bytes ≡ addr.bytes = take_all 16 addr.bytes h in
        rw
          (
            e,
            write_record_header-root buf 28 cls ttl,
            all,
            with_length_lem (buf ++ root_header 28 cls ttl) addr.bytes (omega arith),
            h,
          )
          (ap some (simp append_assoc))
    | inr e ↦ rw e refl
  ],
)

-- A name server record for the empty name has the header, the length of the server's name on the
-- wire and that name, if its labels have 1 to 63 bytes and it is shorter than 2 ^ 16 bytes.
pub write_ns_lem :
    (buf ns : List ℕ) (cls ttl : ℕ)
    → All IsLabel (split_dots ns)
    → length (encode (split_dots ns)) < 2 ^ 16
    → let rdata = encode (split_dots ns) in
      write_ns buf [] cls ttl ns
      ≡ some (buf ++ (root_header 2 cls ttl ++ (to_be_bytes 2 (length rdata) ++ rdata)))
unfolding write_ns
write_ns_lem buf ns cls ttl h k =
    let head = buf ++ root_header 2 cls ttl in
    let rdata = encode (split_dots ns) in
    let place : length buf + 10 ≡ length head =
      omega (arith, length-append buf (root_header 2 cls ttl), length-root_header 2 cls ttl) in
    let size : length ((head ++ (0 ∷ 0 ∷ [])) ++ rdata) - (length head + 2) ≡ length rdata =
      omega (arith, length-append (head ++ (0 ∷ 0 ∷ [])) rdata, length-append head (0 ∷ 0 ∷ [])) in
    rw
      (
        write_record_header-root buf 2 cls ttl,
        write_ns,
        write_name_lem (head ++ (0 ∷ 0 ∷ [])) ns h,
        size,
        place,
        set_length_middle (length rdata) head rdata k,
      )
      (ap some (simp append_assoc))

-- A reader of such a record finds the empty name in its first byte, and in place of the type
-- the second zero byte and the first of the type: for an address record it reads type 0.
pub write_a-type :
    (buf rest : List ℕ) (cls ttl fuel : ℕ) (addr : Addr)
    → addr.v ≡ 4
    → length addr.bytes ≡ 16
    → (out : List ℕ) × (write_a buf [] cls ttl addr ≡ some out)
      × (parse_name (suc fuel) (out ++ rest) (length buf) ≡ parsed [] (length buf + 1))
      × (slice (out ++ rest) (length buf + 1) (length buf + 1 + 2) ≡ 0 ∷ 0 ∷ [])
unfolding parse_name parse_labels to_be_bytes
write_a-type buf rest cls ttl fuel addr e h =
    let data_ = 0 ∷ 4 ∷ take 4 addr.bytes in
    let out = buf ++ (root_header 1 cls ttl ++ data_) in
    let four : (addr.v == 4) ≡ true = ground arith in
    let tail = 1 ∷ (to_be_bytes 2 cls ++ (to_be_bytes 4 ttl ++ (data_ ++ rest))) in
    let split : out ++ rest ≡ buf ++ (0 ∷ (0 ∷ 0 ∷ tail)) = simp append_assoc in
    (
      out,
      rw ((write_a_lem buf cls ttl addr h).0, four) refl,
      rw (end_at (out ++ rest) buf (0 ∷ 0 ∷ tail) (length buf) [] true refl split, parse_labels)
          refl,
      slice_after (out ++ rest) buf tail (0 ∷ 0 ∷ []) 0 (length buf) split refl,
    )
