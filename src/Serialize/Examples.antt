-- ===== src/Serialize/Examples.antt =====
-- Concrete buffers.
use satoxcoin_seeder.Prelude.{
  ℕ, ◌+◌, ◌-◌, ◌^◌, ◌≤◌, ◌≡◌, refl, ◌↔◌, true, List, [], ◌∷◌, ◌++◌, length, replicate, All, IsByte,
  from_le_bytes, arith,
}
use satoxcoin_seeder.Serialize.Utf8.{is_utf8}
use satoxcoin_seeder.Serialize.{
  ok, panic, read_le, read_exact, write_varint, read_varint, write_varstr, read_varstr,
}
use satoxcoin_seeder.Serialize.RoundTrip.{read_varint-write_varint, read_varstr-write_varstr}
use satoxcoin_seeder.Serialize.Bounds.{read_varstr-eq-panic_iff}

read_varint-write_varint_example :
    read_varint (write_varint (7 ∷ []) 70000 ++ (9 ∷ [])) 1
    ≡ ok 70000 (length (write_varint (7 ∷ []) 70000))
read_varint-write_varint_example = read_varint-write_varint (7 ∷ []) (9 ∷ []) 70000 (omega arith)

abbrev agent : List ℕ
agent = b'/' ∷ b'a' ∷ b'/' ∷ []

agent_utf8 : is_utf8 agent ≡ true
unfolding is_utf8
agent_utf8 = refl

read_varstr-write_varstr_example :
    read_varstr (write_varstr (7 ∷ []) agent ++ (9 ∷ [])) 1
    ≡ ok agent (length (write_varstr (7 ∷ []) agent))
read_varstr-write_varstr_example =
    read_varstr-write_varstr (7 ∷ []) (9 ∷ []) agent agent_utf8
      (unfold write_varstr write_varint in omega arith)

-- A length of 2^64 - 1.
abbrev huge : List ℕ
huge = 0xff ∷ replicate 8 0xff

huge_bytes : All IsByte huge
huge_bytes = ground arith

read_varstr-eq-panic_iff_example :
    (read_varstr huge 0 ≡ panic)
    ↔ ((len : ℕ) × (start : ℕ) × (read_varint huge 0 ≡ ok len start) × (2 ^ 64 ≤ start + len))
read_varstr-eq-panic_iff_example = read_varstr-eq-panic_iff huge 0 huge_bytes (omega arith)

-- The right side holds there, so that the read aborts.
huge_aborts : read_varstr huge 0 ≡ panic
unfolding read_varint read_le read_exact from_le_bytes
huge_aborts =
    (read_varstr-eq-panic_iff huge 0 huge_bytes (omega arith)).1 (2 ^ 64 - 1, 9, refl, omega arith)

abbrev stored : List ℕ
stored = 3 ∷ (agent ++ (0 ∷ []))

stored_bytes : All IsByte stored
stored_bytes = ground arith

stored_read : read_varstr stored 0 ≡ ok agent 4
unfolding read_varstr read_varint is_utf8
stored_read = refl
