-- ===== src/Crawler/Lines.antt =====
-- The lines of the dump: how one is read, and that it is one.
use satoxcoin_seeder.Prelude.{
  ℕ, zero, suc, ◌-◌, ◌≤◌, ◌≡◌, ◌≢◌, refl, ap, ◌∙◌, Bool, true, false, ◌&&◌, Option, none, some,
  List, [], ◌∷◌, ◌++◌, length, replicate, ◌==◌, if◌then◌else◌, All, All-imp, All-append, arith, ℤ,
  pos, negsuc,
}
use satoxcoin_seeder.Text.{split_whitespace, show_nat, show_int}
use satoxcoin_seeder.Net.{Service}
use satoxcoin_seeder.Net.Display.{show_addr, to_string_ip_port, show_hex}
use satoxcoin_seeder.Net.Display.Splits.{
  IsAddrChar, to_string_ip_port-HostPort, show_hex-IsAddrChar,
}
use satoxcoin_seeder.Net.Display.Ports.{IsVisible, digits-IsVisible, addr-IsVisible}
use satoxcoin_seeder.Dump.{ok, u16_max, read_words, read_seed_line}
use satoxcoin_seeder.Dump.Words.{split_whitespace-word}
use satoxcoin_seeder.Dump.Addresses.{parse_ip-to_string_ip_port}
use satoxcoin_seeder.Db.Serve.{AddrReport}
use satoxcoin_seeder.Crawler.Dumper.{
  spaces, pad_left, pad_right, is_published, good_text, columns_of, later_columns, dump_columns,
}
use satoxcoin_seeder.Crawler.Columns.{HostPort-IsWord, read_seed_line-word, pulled, two_columns}

module _ {F : Type 0} (encode : List ℕ → List ℕ) where
  -- What a report comes to: its address, if it is good and has the port.
  unfoldable pub published_one : ℕ → AddrReport F → Option (List ℕ)
  published_one port rep =
      if is_published rep && rep.service.port == port
      then some (show_addr encode rep.service.addr)
      else none

module _ {F : Type 0} (encode : List ℕ → List ℕ)
    (plain : (bs : List ℕ) → All IsAddrChar (encode bs)) (percent : F → List ℕ) where
  pub good_word :
      (port : ℕ) (b : Bool) (s : Service) (t : List ℕ)
      → s.port ≤ u16_max
      → read_words port (to_string_ip_port encode s ∷ split_whitespace (good_text b ++ (b' ' ∷ t)))
        ≡ ok (if b && s.port == port then some (show_addr encode s.addr) else none)
  unfolding read_words
  good_word port true s t h =
      rw
        (
          split_whitespace-word b'1' [] t (refl, tt),
          read_words,
          parse_ip-to_string_ip_port encode s plain h,
        )
        refl
  good_word port false s t h = rw (split_whitespace-word b'0' [] t (refl, tt), read_words) refl

  -- A line of the dump, whatever stands behind its columns.
  pub read_dump_columns :
      (port : ℕ) (rep : AddrReport F) (t : List ℕ)
      → rep.service.port ≤ u16_max
      → read_seed_line port (dump_columns encode percent rep ++ t)
        ≡ ok (published_one encode port rep)
  unfolding dump_columns pad_right pad_left published_one
  read_dump_columns port rep t h =
      let w = to_string_ip_port encode rep.service in
      let n = 47 - length w in
      let g = good_text (is_published rep) in
      let r = later_columns percent rep in
      let m = 4 - length g in
      let behind = pulled n w (spaces m) g r t in
      let word = HostPort-IsWord (to_string_ip_port-HostPort encode rep.service plain) in
      ap (read_seed_line port) behind
      ∙ read_seed_line-word port w (spaces n ++ (b' ' ∷ (spaces m ++ (g ++ (b' ' ∷ (r ++ t))))))
          word
      ∙ ap (λ u. read_words port (w ∷ u)) (two_columns n m (g ++ (b' ' ∷ (r ++ t))))
      ∙ good_word port (is_published rep) rep.service (r ++ t) h

abbrev pub NoBreak : List ℕ → Type 0
NoBreak t = All (λ c. c ≢ b'\n') t

pub visible_NoBreak : (t : List ℕ) → All IsVisible t → NoBreak t
visible_NoBreak t h = All-imp (λ c v e. ground (arith, v, e)) t h

replicate-NoBreak : (n c : ℕ) → c ≢ b'\n' → NoBreak (replicate n c)
replicate-NoBreak zero c h = tt
replicate-NoBreak (suc n) c h = (h, replicate-NoBreak n c h)

show_int-NoBreak : (a : ℤ) → NoBreak (show_int a)
unfolding show_int
show_int-NoBreak (pos n) = visible_NoBreak (show_nat n) (digits-IsVisible n)
show_int-NoBreak (negsuc n) =
    ((λ e. omega (arith, e)), visible_NoBreak (show_nat (suc n)) (digits-IsVisible (suc n)))

joined : (s t : List ℕ) → NoBreak s → NoBreak t → NoBreak (s ++ t)
joined s t h k = All-append (λ c. c ≢ b'\n') s t h k

two_spaces : (t : List ℕ) → NoBreak t → NoBreak (b' ' ∷ b' ' ∷ t)
two_spaces t h = ((λ e. omega (arith, e)), ((λ e. omega (arith, e)), h))

padded : (c n : ℕ) (t : List ℕ) → c ≢ b'\n' → NoBreak t → NoBreak (pad_left c n t)
unfolding pad_left
padded c n t h k = joined (replicate (n - length t) c) t (replicate-NoBreak (n - length t) c h) k

module _ {F : Type 0} (percent : F → List ℕ) (flat : (f : F) → NoBreak (percent f)) where
  columns_of-NoBreak : (fs : List F) → NoBreak (columns_of percent fs)
  unfolding columns_of
  columns_of-NoBreak [] = tt
  columns_of-NoBreak (f ∷ []) = flat f
  columns_of-NoBreak (f ∷ g ∷ fs) =
      joined (percent f) (b' ' ∷ columns_of percent (g ∷ fs)) (flat f)
        ((λ e. omega (arith, e)), columns_of-NoBreak (g ∷ fs))

  later_columns-NoBreak : (rep : AddrReport F) → NoBreak (later_columns percent rep)
  unfolding later_columns
  later_columns-NoBreak rep =
      let space : b' ' ≢ b'\n' = λ e. omega (arith, e) in
      let zero_char : b'0' ≢ b'\n' = λ e. omega (arith, e) in
      (
        space,
        joined (pad_left b' ' 11 (show_int rep.last_success)) _
            (padded b' ' 11 (show_int rep.last_success) space (show_int-NoBreak rep.last_success))
            (two_spaces _ (
              joined (columns_of percent rep.uptime) _ (columns_of-NoBreak rep.uptime) (
                two_spaces _ (
                  joined (pad_left b' ' 6 (show_int rep.blocks)) _
                    (padded b' ' 6 (show_int rep.blocks) space (show_int-NoBreak rep.blocks))
                    (two_spaces _ (
                      joined (pad_left b'0' 8 (show_hex 16 rep.services)) _
                        (padded b'0' 8 (show_hex 16 rep.services) zero_char (
                          visible_NoBreak (show_hex 16 rep.services) (
                            addr-IsVisible (show_hex 16 rep.services)
                              (show_hex-IsAddrChar 16 rep.services))))
                        (two_spaces _ (
                          joined (pad_left b' ' 5 (show_int rep.client_version)) (b' ' ∷ b'"' ∷ [])
                            (padded b' ' 5 (show_int rep.client_version) space
                              (show_int-NoBreak rep.client_version))
                            (space, ((λ e. omega (arith, e)), tt)))))))))),
      )

module _ {F : Type 0} (encode : List ℕ → List ℕ)
    (plain : (bs : List ℕ) → All IsAddrChar (encode bs)) (percent : F → List ℕ)
    (flat : (f : F) → NoBreak (percent f)) where
  pub dump_columns-NoBreak : (rep : AddrReport F) → NoBreak (dump_columns encode percent rep)
  unfolding dump_columns pad_right pad_left
  dump_columns-NoBreak rep =
      let w = to_string_ip_port encode rep.service in
      let word = HostPort-IsWord (to_string_ip_port-HostPort encode rep.service plain) in
      let space : b' ' ≢ b'\n' = λ e. omega (arith, e) in
      let g = good_text (is_published rep) in
      joined (w ++ spaces (47 - length w)) _
        (joined w (spaces (47 - length w))
          (rw word.parts (visible_NoBreak (word.first ∷ word.rest) word.visible))
          (replicate-NoBreak (47 - length w) b' ' space))
        (two_spaces _ (
          joined (spaces (4 - length g) ++ g) (b' ' ∷ later_columns percent rep)
            (joined (spaces (4 - length g)) g (replicate-NoBreak (4 - length g) b' ' space)
              (flag (is_published rep)))
            (space, later_columns-NoBreak percent flat rep)))
    where
      flag : (b : Bool) → NoBreak (good_text b)
      flag true = ((λ e. omega (arith, e)), tt)
      flag false = ((λ e. omega (arith, e)), tt)
