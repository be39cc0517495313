-- ===== src/Crawler/Published.antt =====
-- What the publisher reads in the dump that the seeder writes.
use satoxcoin_seeder.Prelude.{
  ℕ, ◌≤◌, ◌≡◌, ◌≢◌, refl, ap, ◌∙◌, inl, inr, ◌&&◌, List, [], ◌∷◌, ◌++◌, ◌==◌, if◌then◌else◌, All,
  All-append, append_assoc, arith, Bool-cases,
}
use satoxcoin_seeder.Text.{lines}
use satoxcoin_seeder.Net.Display.{show_addr}
use satoxcoin_seeder.Net.Display.Splits.{IsAddrChar}
use satoxcoin_seeder.Dump.{
  Result, ok, u16_max, read_seed_line, push_some, then_lines, read_seed_lines, unless_none,
  read_seed_dump,
}
use satoxcoin_seeder.Dump.Words.{lines-line}
use satoxcoin_seeder.Db.Serve.{AddrReport}
use satoxcoin_seeder.Crawler.Dumper.{
  chars, is_published, dump_header, dump_columns, dump_lines, dump_text,
}
use satoxcoin_seeder.Crawler.Lines.{NoBreak, published_one, read_dump_columns, dump_columns-NoBreak}

-- Reports that fit their types, from nodes whose client version has no line break.
abbrev pub IsClean : {F : Type 0} → AddrReport F → Type 0
IsClean rep = (rep.service.port ≤ u16_max) × NoBreak (chars rep.client_sub_version)

module _ {F : Type 0} (encode : List ℕ → List ℕ) where
  -- The addresses of the good reports with the port, in order.
  unfoldable pub published : ℕ → List (AddrReport F) → List (List ℕ)
  published port [] = []
  published port (rep ∷ reps) =
      let rest = published port reps in
      if is_published rep && rep.service.port == port
      then show_addr encode rep.service.addr ∷ rest
      else rest

module _ {F : Type 0} (encode : List ℕ → List ℕ)
    (plain : (bs : List ℕ) → All IsAddrChar (encode bs)) (percent : F → List ℕ)
    (flat : (f : F) → NoBreak (percent f)) where
  -- One report in front of a text.
  pub read_one :
      (port : ℕ) (rep : AddrReport F) (rest : List ℕ)
      → IsClean rep
      → read_seed_lines port (
          lines (
            (dump_columns encode percent rep ++ chars rep.client_sub_version)
            ++ (b'"' ∷ b'\n' ∷ rest)))
        ≡ push_some (published_one encode port rep) (read_seed_lines port (lines rest))
  unfolding read_seed_lines
  read_one port rep rest h =
      let cols = dump_columns encode percent rep in
      let sub = chars rep.client_sub_version in
      let whole =
        All-append (λ c. c ≢ b'\n') cols sub (dump_columns-NoBreak encode plain percent flat rep)
          h.1 in
      let line =
        lines-line (cols ++ sub) rest b'"' whole (λ e. omega (arith, e)) (λ e. omega (arith, e)) in
      let read = read_dump_columns encode plain percent port rep (sub ++ (b'"' ∷ [])) h.0 in
      rw (line, append_assoc cols sub (b'"' ∷ []), read) refl

  pub pushed :
      (port : ℕ) (rep : AddrReport F) (ips : List (List ℕ))
      → push_some (published_one encode port rep) (ok ips)
        ≡ ok (
            if is_published rep && rep.service.port == port
            then show_addr encode rep.service.addr ∷ ips
            else ips)
  unfolding published_one
  pushed port rep ips = elim (Bool-cases (is_published rep && rep.service.port == port)) [
    | inl e ↦ rw e refl
    | inr e ↦ rw e refl
  ]

  pub read_reports :
      (port : ℕ) (reps : List (AddrReport F))
      → All IsClean reps
      → read_seed_lines port (lines (dump_lines encode percent reps))
        ≡ ok (published encode port reps)
  unfolding dump_lines published read_seed_lines lines
  read_reports port [] h = refl
  read_reports port (rep ∷ reps) (h, k) =
      read_one port rep (dump_lines encode percent reps) h
      ∙ ap (push_some (published_one encode port rep)) (read_reports port reps k)
      ∙ pushed port rep (published encode port reps)

  -- The header line is skipped.
  pub read_header :
      (port : ℕ) (t : List ℕ)
      → read_seed_lines port (lines (dump_header ++ (b'\n' ∷ t))) ≡ read_seed_lines port (lines t)
  unfolding read_seed_lines read_seed_line lines
  read_header port t = skipped (read_seed_lines port (lines t))
    where
      skipped : (r : Result (List (List ℕ))) → then_lines (read_seed_line port dump_header) r ≡ r
      skipped r = refl

  -- The publisher reads in the dump that the seeder writes the addresses of the good nodes with
  -- the port of the network, in the order of the reports, and the error for none if there are none.
  -- (The client versions of the nodes hold no line break, the ports have 16 bits, the numbers are printed
  -- without line breaks, and base32 has letters and digits.)
  pub read_seed_dump-dump_text :
      (port : ℕ) (reps : List (AddrReport F))
      → All IsClean reps
      → read_seed_dump port (dump_text encode percent reps)
        ≡ unless_none (ok (published encode port reps))
  unfolding read_seed_dump dump_text
  read_seed_dump-dump_text port reps h =
      ap unless_none (read_header port (dump_lines encode percent reps) ∙ read_reports port reps h)
