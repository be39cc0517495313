-- ===== src/Net/Display/Ports.antt =====
-- `split_host_port` takes apart what `to_string_ip_port` puts together.
use satoxcoin_seeder.Prelude.{
  ℕ, ◌≤◌, ◌≡◌, ◌≢◌, refl, ap, ◌∙◌, false, some, List, [], ◌∷◌, ◌++◌, ◌==◌, All, All-imp, All-append,
  arith,
}
use satoxcoin_seeder.Text.{is_whitespace, trim, trim_matches, trim_end, show_nat}
use satoxcoin_seeder.Text.Numbers.{show_nat-IsDigit, parse_unsigned-show_nat}
use satoxcoin_seeder.Text.Pieces.{split_first_here, split_last_here, trim_start_kept, trim_end-All}
use satoxcoin_seeder.Net.{Service}
use satoxcoin_seeder.Net.Display.{
  show_addr, to_string_ip_port, u16_max, split_at_colon, port_behind, split_host_port,
}
use satoxcoin_seeder.Net.Display.Splits.{
  IsAddrChar, IsDotted, HostPort, dotted_form, bracket_form, to_string_ip_port-HostPort,
}

abbrev pub IsVisible : ℕ → Type 0
IsVisible c = is_whitespace c ≡ false

pub digits-IsVisible : (n : ℕ) → All IsVisible (show_nat n)
digits-IsVisible n = All-imp (λ c d. ground (arith, d)) (show_nat n) (show_nat-IsDigit n)

pub addr-IsVisible : (t : List ℕ) → All IsAddrChar t → All IsVisible t
addr-IsVisible t h = All-imp (λ c d. ground (arith, d)) t h

pub dotted-IsVisible : (t : List ℕ) → All IsDotted t → All IsVisible t
dotted-IsVisible t h = All-imp (λ c d. ground (arith, d)) t h

pub digits_ne : (x n : ℕ) → b'9' ≤ x → x ≢ b'9' → All (λ c. c ≢ x) (show_nat n)
digits_ne x n h ne =
    All-imp (λ c d e. omega (arith, d.1, e, h, ne)) (show_nat n) (show_nat-IsDigit n)

pub dotted_ne : (x : ℕ) (t : List ℕ) → b'9' ≤ x → x ≢ b'9' → All IsDotted t → All (λ c. c ≢ x) t
dotted_ne x t h ne d = All-imp (λ c k e. omega (arith, k.1, e, h, ne)) t d

pub addr_no_bracket : (t : List ℕ) → All IsAddrChar t → All (λ c. c ≢ b']') t
addr_no_bracket t h = All-imp (λ c d. d.2) t h

-- A text without white space is trimmed already.
trim_visible : (c : ℕ) (t : List ℕ) → All IsVisible (c ∷ t) → trim (c ∷ t) ≡ c ∷ t
unfolding trim trim_matches
trim_visible c t h =
    ap (trim_end is_whitespace) (trim_start_kept is_whitespace c t h.0)
    ∙ trim_end-All is_whitespace (c ∷ t) h

split_host_port_lem :
    {text ip : List ℕ} {port : ℕ}
    → HostPort text ip port
    → port ≤ u16_max
    → split_host_port text ≡ (ip, some port)
unfolding split_host_port split_at_colon port_behind
split_host_port_lem (dotted_form c ip port h) k =
    let (number, _) = parse_unsigned-show_nat u16_max port k in
    let all : All IsVisible ((c ∷ ip) ++ (b':' ∷ show_nat port)) =
      All-append IsVisible (c ∷ ip) (b':' ∷ show_nat port) (dotted-IsVisible (c ∷ ip) h)
        (refl, digits-IsVisible port) in
    let plain : (c == b'[') ≡ false = ground (arith, h.0) in
    rw
      (
        trim_visible c (ip ++ (b':' ∷ show_nat port)) all,
        plain,
        split_last_here b':' (c ∷ ip) (show_nat port)
            (digits_ne b':' port (omega arith) (omega arith)),
        split_at_colon,
        number,
      )
      refl
split_host_port_lem (bracket_form ip port h) k =
    let (number, _) = parse_unsigned-show_nat u16_max port k in
    let behind = b']' ∷ b':' ∷ show_nat port in
    let all : All IsVisible (b'[' ∷ (ip ++ behind)) = (
      refl,
      All-append IsVisible ip behind (addr-IsVisible ip h) (refl, (refl, digits-IsVisible port)),
    ) in
    rw
      (
        trim_visible b'[' (ip ++ behind) all,
        split_first_here b']' (b'[' ∷ ip) (b':' ∷ show_nat port)
            ((λ e. omega (arith, e)), addr_no_bracket ip h),
        split_first_here b':' [] (show_nat port) tt,
        port_behind,
        number,
      )
      refl

-- The text of a service is split into the text of its address and its port, whatever its network
-- is, if the base32 encoder uses letters and digits.
pub split_host_port-to_string_ip_port :
    (encode : List ℕ → List ℕ) (s : Service)
    → ((bs : List ℕ) → All IsAddrChar (encode bs))
    → s.port ≤ u16_max
    → split_host_port (to_string_ip_port encode s) ≡ (show_addr encode s.addr, some s.port)
split_host_port-to_string_ip_port encode s plain h =
    split_host_port_lem (to_string_ip_port-HostPort encode s plain) h
