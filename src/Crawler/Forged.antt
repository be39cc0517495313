-- ===== src/Crawler/Forged.antt =====
-- A client version with a line break, in the dump that the seeder writes.
use satoxcoin_seeder.Prelude.{
  ℕ, ◌≤◌, ◌≡◌, ◌≢◌, refl, sym, ap, ◌∙◌, inl, inr, true, ◌&&◌, some, List, [], ◌∷◌, ◌++◌, ◌==◌, All,
  All-append, append_assoc, arith, Bool-cases,
}
use satoxcoin_seeder.Text.{lines}
use satoxcoin_seeder.Net.{Service}
use satoxcoin_seeder.Net.Display.{show_addr, to_string_ip_port}
use satoxcoin_seeder.Net.Display.Splits.{IsAddrChar, to_string_ip_port-HostPort}
use satoxcoin_seeder.Dump.{
  ok, u16_max, read_seed_line, push_some, read_seed_lines, unless_none, read_seed_dump,
}
use satoxcoin_seeder.Dump.Words.{lines-line}
use satoxcoin_seeder.Db.Serve.{AddrReport}
use satoxcoin_seeder.Crawler.Dumper.{
  chars, is_published, dump_header, dump_columns, dump_lines, dump_text,
}
use satoxcoin_seeder.Crawler.Columns.{HostPort-IsWord, read_seed_line-word}
use satoxcoin_seeder.Crawler.Lines.{
  NoBreak, visible_NoBreak, good_word, published_one, read_dump_columns, dump_columns-NoBreak,
}
use satoxcoin_seeder.Crawler.Published.{
  IsClean, published, read_one, pushed, read_reports, read_header,
}

unless_none-ok :
    (xs ys : List (List ℕ)) (x : List ℕ) → unless_none (ok (xs ++ (x ∷ ys))) ≡ ok (xs ++ (x ∷ ys))
unless_none-ok [] ys x = refl
unless_none-ok (y ∷ xs) ys x = refl

module _ {F : Type 0} (encode : List ℕ → List ℕ)
    (plain : (bs : List ℕ) → All IsAddrChar (encode bs)) (percent : F → List ℕ)
    (flat : (f : F) → NoBreak (percent f)) where
  dump_lines-append :
      (before after : List (AddrReport F))
      → dump_lines encode percent (before ++ after)
        ≡ dump_lines encode percent before ++ dump_lines encode percent after
  unfolding dump_lines
  dump_lines-append [] after = refl
  dump_lines-append (rep ∷ before) after = rw (dump_lines-append before after) (
      sym (
        append_assoc (dump_columns encode percent rep ++ chars rep.client_sub_version)
          (b'"' ∷ b'\n' ∷ dump_lines encode percent before) (dump_lines encode percent after)))

  -- One report in front of others that are read.
  published-cons :
      (port : ℕ) (rep : AddrReport F) (reps : List (AddrReport F)) (ips : List (List ℕ))
      → push_some (published_one encode port rep) (ok (published encode port reps ++ ips))
        ≡ ok (published encode port (rep ∷ reps) ++ ips)
  unfolding published
  published-cons port rep reps ips =
      pushed encode plain percent flat port rep (published encode port reps ++ ips)
      ∙ elim (Bool-cases (is_published rep && rep.service.port == port)) [
        | inl e ↦ rw e refl
        | inr e ↦ rw e refl
      ]

  -- Ordinary reports in front of a text that is read.
  read_before :
      (port : ℕ) (before : List (AddrReport F)) (t : List ℕ) (last : AddrReport F)
      (ips : List (List ℕ))
      → All IsClean before
      → read_seed_lines port (lines t) ≡ push_some (published_one encode port last) (ok ips)
      → read_seed_lines port (lines (dump_lines encode percent before ++ t))
        ≡ ok (published encode port (before ++ (last ∷ [])) ++ ips)
  unfolding dump_lines
  read_before port [] t last ips h e = e ∙ unfold published in published-cons port last [] ips
  read_before port (rep ∷ before) t last ips (h, k) e =
      let cols = dump_columns encode percent rep ++ chars rep.client_sub_version in
      let rest = dump_lines encode percent before ++ t in
      rw (append_assoc cols (b'"' ∷ b'\n' ∷ dump_lines encode percent before) t) (
        read_one encode plain percent flat port rep rest h
        ∙ ap (push_some (published_one encode port rep)) (read_before port before t last ips k e)
        ∙ published-cons port rep (before ++ (last ∷ [])) ips)

  -- A line that a client version may put into the dump.
  forged : Service → List ℕ → List ℕ
  forged chosen after = to_string_ip_port encode chosen ++ (b' ' ∷ b'1' ∷ b' ' ∷ after)

  read_forged :
      (port : ℕ) (chosen : Service) (after rest : List ℕ) (ips : List (List ℕ))
      → chosen.port ≤ u16_max
      → chosen.port ≡ port
      → NoBreak after
      → read_seed_lines port (lines rest) ≡ ok ips
      → read_seed_lines port (lines (forged chosen after ++ (b'"' ∷ b'\n' ∷ rest)))
        ≡ ok (show_addr encode chosen.addr ∷ ips)
  unfolding read_seed_lines forged
  read_forged port chosen after rest ips k same na q =
      let w = to_string_ip_port encode chosen in
      let word = HostPort-IsWord (to_string_ip_port-HostPort encode chosen plain) in
      let behind = b' ' ∷ b'1' ∷ b' ' ∷ after in
      let whole : NoBreak (w ++ behind) =
        All-append (λ c. c ≢ b'\n') w behind
          (rw word.parts (visible_NoBreak (word.first ∷ word.rest) word.visible))
          ((λ e. omega (arith, e)), ((λ e. omega (arith, e)), ((λ e. omega (arith, e)), na))) in
      let line =
        lines-line (w ++ behind) rest b'"' whole (λ e. omega (arith, e)) (λ e. omega (arith, e)) in
      let here : (chosen.port == port) ≡ true = ground (arith, same) in
      let read : read_seed_line port (w ++ (behind ++ (b'"' ∷ [])))
          ≡ ok (some (show_addr encode chosen.addr)) =
        read_seed_line-word port w (b'1' ∷ b' ' ∷ (after ++ (b'"' ∷ []))) word
        ∙ good_word encode plain percent port true chosen (after ++ (b'"' ∷ [])) k
        ∙ rw here refl in
      rw (line, append_assoc w behind (b'"' ∷ []), read, q) refl

  -- The report with the forged version, and what follows it.
  read_forging :
      (port c : ℕ) (rep : AddrReport F) (before after rest : List ℕ) (chosen : Service)
      (ips : List (List ℕ))
      → rep.service.port ≤ u16_max
      → NoBreak before
      → c ≢ b'\n'
      → c ≢ b'\r'
      → chars rep.client_sub_version ≡ before ++ (c ∷ b'\n' ∷ forged chosen after)
      → read_seed_lines port (lines (forged chosen after ++ (b'"' ∷ b'\n' ∷ rest))) ≡ ok ips
      → read_seed_lines port (
          lines (
            (dump_columns encode percent rep ++ chars rep.client_sub_version)
            ++ (b'"' ∷ b'\n' ∷ rest)))
        ≡ push_some (published_one encode port rep) (ok ips)
  unfolding read_seed_lines
  read_forging port c rep before after rest chosen ips h nb nn nr e q =
      let cols = dump_columns encode percent rep in
      let evil = forged chosen after in
      let end = b'"' ∷ b'\n' ∷ rest in
      let apart : (cols ++ (before ++ (c ∷ b'\n' ∷ evil))) ++ end
          ≡ (cols ++ before) ++ (c ∷ b'\n' ∷ (evil ++ end)) =
        append_assoc cols (before ++ (c ∷ b'\n' ∷ evil)) end
        ∙ ap (λ u. cols ++ u) (append_assoc before (c ∷ b'\n' ∷ evil) end)
        ∙ sym (append_assoc cols before (c ∷ b'\n' ∷ (evil ++ end))) in
      let whole =
        All-append (λ x. x ≢ b'\n') cols before (dump_columns-NoBreak encode plain percent flat rep)
          nb in
      let line = lines-line (cols ++ before) (evil ++ end) c whole nn nr in
      let read = read_dump_columns encode plain percent port rep (before ++ (c ∷ [])) h in
      rw (e, apart, line, append_assoc cols before (c ∷ []), read, q) refl

  -- The client version of a node is whatever the node sends, and the dump does not escape it: if it
  -- holds a line break and behind that an address with the network's port, followed by ` 1 `, the
  -- publisher reads that address as one of a good node, whatever the report itself says, right
  -- behind the good nodes up to this report and before those of the later ones. (The version has no
  -- other line break and, before this one, a character that is no carriage return. The other
  -- reports are ordinary ones, with 16-bit ports and no line break in the version; numbers are printed
  -- without line breaks, and base32 has letters and digits.)
  pub read_seed_dump-injected :
      (port c : ℕ) (earlier later : List (AddrReport F)) (rep : AddrReport F)
      (before after : List ℕ) (chosen : Service)
      → All IsClean earlier
      → All IsClean later
      → rep.service.port ≤ u16_max
      → chosen.port ≤ u16_max
      → chosen.port ≡ port
      → NoBreak before
      → NoBreak after
      → c ≢ b'\n'
      → c ≢ b'\r'
      → chars rep.client_sub_version
        ≡ before ++ (c ∷ b'\n' ∷ (to_string_ip_port encode chosen ++ (b' ' ∷ b'1' ∷ b' ' ∷ after)))
      → read_seed_dump port (dump_text encode percent (earlier ++ (rep ∷ later)))
        ≡ ok (
            published encode port (earlier ++ (rep ∷ []))
            ++ (show_addr encode chosen.addr ∷ published encode port later))
  unfolding read_seed_dump dump_text forged
  read_seed_dump-injected port c earlier later rep before after chosen he hl h k same nb na nn nr
        e =
      let text = dump_lines encode percent (rep ∷ later) in
      let ips = show_addr encode chosen.addr ∷ published encode port later in
      let rest = dump_lines encode percent later in
      let behind = read_reports encode plain percent flat port later hl in
      let evil =
        read_forged port chosen after rest (published encode port later) k same na behind in
      let here : read_seed_lines port (lines text)
          ≡ push_some (published_one encode port rep) (ok ips) =
        unfold dump_lines in
        read_forging port c rep before after rest chosen ips h nb nn nr e evil in
      let all =
        ap (λ (u : List ℕ). read_seed_lines port (lines (dump_header ++ (b'\n' ∷ u))))
          (dump_lines-append earlier (rep ∷ later))
        ∙ read_header encode plain percent flat port (dump_lines encode percent earlier ++ text)
        ∙ read_before port earlier text rep ips he here in
      ap unless_none all
      ∙ unless_none-ok (published encode port (earlier ++ (rep ∷ []))) (published encode port later)
          (show_addr encode chosen.addr)
