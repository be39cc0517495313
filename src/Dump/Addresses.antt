-- ===== src/Dump/Addresses.antt =====
-- `parse_ip` reads back an address with its port.
use satoxcoin_seeder.Prelude.{
  ℕ, ◌≤◌, ◌≡◌, ◌≢◌, refl, false, none, List, [], ◌∷◌, ◌++◌, ◌==◌, All, All-append, arith,
}
use satoxcoin_seeder.Text.{strip_prefix, split_first, contains_text, show_nat}
use satoxcoin_seeder.Text.Numbers.{parse_unsigned-show_nat}
use satoxcoin_seeder.Text.Pieces.{split_first_here, split_last_here}
use satoxcoin_seeder.Net.{Service}
use satoxcoin_seeder.Net.Display.{show_addr, to_string_ip_port}
use satoxcoin_seeder.Net.Display.Splits.{
  IsAddrChar, HostPort, dotted_form, bracket_form, to_string_ip_port-HostPort,
}
use satoxcoin_seeder.Net.Display.Ports.{digits_ne, dotted_ne, addr_no_bracket}
use satoxcoin_seeder.Dump.{ok, u16_max, with_port, after_bracket, bracketed, parse_ip}

-- A text without a character has no first one.
split_first-none : (c : ℕ) (t : List ℕ) → All (λ x. x ≢ c) t → split_first c t ≡ none
unfolding split_first
split_first-none c [] h = refl
split_first-none c (x ∷ t) (h, k) =
    let other : (x == c) ≡ false = ground (arith, h) in rw (split_first-none c t k, other) refl

-- Two colons in a row are not found behind a text without colons that ends in one.
abbrev colons : List ℕ
colons = b':' ∷ b':' ∷ []

single_colon :
    (ip digits : List ℕ)
    → All (λ x. x ≢ b':') ip
    → All (λ x. x ≢ b':') digits
    → contains_text colons (ip ++ (b':' ∷ digits)) ≡ false
unfolding contains_text strip_prefix
single_colon [] [] h k = refl
single_colon [] (d ∷ ds) h k = ground (arith, k.0, no_colons (d ∷ ds) k)
  where
    no_colons : (t : List ℕ) → All (λ x. x ≢ b':') t → contains_text (b':' ∷ b':' ∷ []) t ≡ false
    no_colons [] k = refl
    no_colons (x ∷ t) k = ground (arith, k.0, no_colons t k.1)
single_colon (x ∷ ip) digits h k = ground (arith, h.0, single_colon ip digits h.1 k)

with_port_number :
    (ip : List ℕ) (port : ℕ) → port ≤ u16_max → with_port ip (show_nat port) ≡ ok (ip, port)
unfolding with_port
with_port_number ip port h = rw ((parse_unsigned-show_nat u16_max port h).0, with_port) refl

parse_ip_lem :
    {text ip : List ℕ} {port : ℕ}
    → HostPort text ip port
    → port ≤ u16_max
    → parse_ip text ≡ ok (ip, port)
unfolding parse_ip bracketed after_bracket strip_prefix
parse_ip_lem (dotted_form c ip port h) k =
    let no_colon = digits_ne b':' port (omega arith) (omega arith) in
    let no_bracket =
      All-append (λ x. x ≢ b']') (c ∷ ip) (b':' ∷ show_nat port)
        (dotted_ne b']' (c ∷ ip) (omega arith) (omega arith) h)
        (omega arith, digits_ne b']' port (omega arith) (omega arith)) in
    rw
      (
        split_first-none b']' ((c ∷ ip) ++ (b':' ∷ show_nat port)) no_bracket,
        parse_ip,
        single_colon (c ∷ ip) (show_nat port)
            (dotted_ne b':' (c ∷ ip) (omega arith) (omega arith) h) no_colon,
        split_last_here b':' (c ∷ ip) (show_nat port) no_colon,
      )
      (with_port_number (c ∷ ip) port k)
parse_ip_lem (bracket_form ip port h) k =
    rw
      (
        split_first_here b']' (b'[' ∷ ip) (b':' ∷ show_nat port)
            ((λ e. omega (arith, e)), addr_no_bracket ip h),
        parse_ip,
      )
      (with_port_number ip port k)

-- The text of a service, as the dump has it, is read as the text of its address and its port,
-- whatever its network is, if the base32 encoder uses letters and digits.
pub parse_ip-to_string_ip_port :
    (encode : List ℕ → List ℕ) (s : Service)
    → ((bs : List ℕ) → All IsAddrChar (encode bs))
    → s.port ≤ u16_max
    → parse_ip (to_string_ip_port encode s) ≡ ok (show_addr encode s.addr, s.port)
parse_ip-to_string_ip_port encode s plain h =
    parse_ip_lem (to_string_ip_port-HostPort encode s plain) h
