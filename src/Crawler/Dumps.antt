-- ===== src/Crawler/Dumps.antt =====
-- Dumps with reports of nodes with an ordinary client version, and of one with a forged line in it.
use satoxcoin_seeder.Prelude.{ℕ, ◌≡◌, refl, true, some, List, [], ◌∷◌, ◌++◌, All, arith, pos}
use satoxcoin_seeder.Text.{show_nat, digits}
use satoxcoin_seeder.Net.{is_ipv4, to_ip_addr, to_ipv4_addr}
use satoxcoin_seeder.Net.Display.{show_addr, show_ip, show_ipv4, to_string_ip_port, split_host_port}
use satoxcoin_seeder.Net.Display.Splits.{IsAddrChar}
use satoxcoin_seeder.Net.Display.Ports.{split_host_port-to_string_ip_port}
use satoxcoin_seeder.Dump.{ok, unless_none, read_seed_dump}
use satoxcoin_seeder.Db.Serve.{AddrReport}
use satoxcoin_seeder.Db.Examples.{service}
use satoxcoin_seeder.Crawler.Dumper.{chars, chars_from, dump_text}
use satoxcoin_seeder.Crawler.Lines.{NoBreak}
use satoxcoin_seeder.Crawler.Published.{IsClean, published, read_seed_dump-dump_text}
use satoxcoin_seeder.Crawler.Forged.{read_seed_dump-injected}

abbrev encode : List ℕ → List ℕ
encode bs = []

encode_plain : (bs : List ℕ) → All IsAddrChar (encode bs)
encode_plain bs = tt

abbrev percent : ℕ → List ℕ
percent n = b'0' ∷ []

percent_flat : (n : ℕ) → NoBreak (percent n)
percent_flat n = ground arith

abbrev report : AddrReport ℕ
report = record {
  service = service;
  client_version = pos 70016;
  client_sub_version = b'/' ∷ b'x' ∷ b'/' ∷ [];
  blocks = pos 5;
  uptime = 0 ∷ 0 ∷ 0 ∷ 0 ∷ 0 ∷ [];
  last_success = pos 1700000000;
  good = true;
  services = 1;
}

split_host_port-to_string_ip_port_example :
    split_host_port (to_string_ip_port encode service) ≡ (show_addr encode service.addr, some 60777)
split_host_port-to_string_ip_port_example =
    split_host_port-to_string_ip_port encode service encode_plain (omega arith)

report-IsClean : IsClean report
unfolding chars chars_from
report-IsClean = (omega arith, ground arith)

read_seed_dump-dump_text_example :
    read_seed_dump 60777 (dump_text encode percent (report ∷ []))
    ≡ unless_none (ok (published encode 60777 (report ∷ [])))
read_seed_dump-dump_text_example =
    read_seed_dump-dump_text encode encode_plain percent percent_flat 60777 (report ∷ [])
      (report-IsClean, tt)

-- x, a line break, and `8.8.4.4:60777 1 `
abbrev forging : AddrReport ℕ
forging = record report {
  client_sub_version =
      b'x' ∷ b'\n' ∷ b'8' ∷ b'.' ∷ b'8' ∷ b'.' ∷ b'4' ∷ b'.' ∷ b'4' ∷ b':' ∷ b'6' ∷ b'0' ∷ b'7'
      ∷ b'7' ∷ b'7' ∷ b' ' ∷ b'1' ∷ b' ' ∷ [];
}

forged_version :
    chars forging.client_sub_version
    ≡ b'x' ∷ b'\n' ∷ (to_string_ip_port encode service ++ (b' ' ∷ b'1' ∷ b' ' ∷ []))
unfolding chars chars_from to_string_ip_port show_addr to_ip_addr to_ipv4_addr is_ipv4 show_ip
    show_ipv4 show_nat digits
forged_version = refl

read_seed_dump-injected_example :
    read_seed_dump 60777 (dump_text encode percent ((report ∷ []) ++ (forging ∷ report ∷ [])))
    ≡ ok (
        published encode 60777 ((report ∷ []) ++ (forging ∷ []))
        ++ (show_addr encode service.addr ∷ published encode 60777 (report ∷ [])))
read_seed_dump-injected_example =
    read_seed_dump-injected encode encode_plain percent percent_flat 60777 b'x' (report ∷ [])
      (report ∷ []) forging [] [] service (report-IsClean, tt) (report-IsClean, tt) (omega arith)
      (omega arith) refl tt tt (λ e. omega (arith, e)) (λ e. omega (arith, e)) forged_version
