-- ===== src/Crawler/Dumper.antt =====
-- bin/seeder/src/main.rs, the dumper: the reports in their order, and the text of dnsseed.dump.
-- `percent` prints a hundred times a number, in six columns with two decimals; `encode` is the
-- base32 encoder.
use satoxcoin_seeder.Prelude.{
  ℕ, zero, suc, ◌+◌, ◌-◌, ◌*◌, Bool, true, false, not, ◌&&◌, ◌||◌, Option, none, some, List, [],
  ◌∷◌, ◌++◌, length, replicate, get_elem?, ltb, ◌==◌, if◌then◌else◌, pos, ltb_ℤ,
}
use satoxcoin_seeder.Text.{is_empty, show_int}
use satoxcoin_seeder.Net.Display.{to_string_ip_port, show_hex}
use satoxcoin_seeder.Db.Stat.{Float}
use satoxcoin_seeder.Db.Serve.{AddrReport}

-- The characters of a `String`, which is kept as its bytes: `acc` holds the bits of the character
-- of which `k` bytes are still to come.
unfoldable pub chars_from : ℕ → ℕ → List ℕ → List ℕ
chars_from acc k [] = []
chars_from acc zero (b ∷ bs) =
    if ltb b 0x80
    then b ∷ chars_from 0 0 bs
    else if ltb b 0xe0
    then chars_from (b - 0xc0) 1 bs
    else if ltb b 0xf0
    then chars_from (b - 0xe0) 2 bs
    else chars_from (b - 0xf0) 3 bs
chars_from acc (suc k) (b ∷ bs) =
    let n = acc * 64 + (b - 0x80) in if k == 0 then n ∷ chars_from 0 0 bs else chars_from n k bs

unfoldable pub chars : List ℕ → List ℕ
chars bs = chars_from 0 0 bs

abbrev pub spaces : ℕ → List ℕ
spaces n = replicate n b' '

unfoldable pub pad_left : ℕ → ℕ → List ℕ → List ℕ
pad_left c width t = replicate (width - length t) c ++ t

unfoldable pub pad_right : ℕ → List ℕ → List ℕ
pad_right width t = t ++ spaces (width - length t)

-- `if rep.good && .. { 1 } else { 0 }`
unfoldable pub is_published : {F : Type 0} → AddrReport F → Bool
is_published rep =
    rep.good
    && ltb_ℤ (pos 0) rep.blocks
    && ltb_ℤ (pos 0) rep.client_version
    && not (is_empty rep.client_sub_version)

abbrev pub good_text : Bool → List ℕ
good_text true = b'1' ∷ []
good_text false = b'0' ∷ []

abbrev pub dump_header : List ℕ
dump_header =
    b'#' ∷ b' ' ∷ b'a' ∷ b'd' ∷ b'd' ∷ b'r' ∷ b'e' ∷ b's' ∷ b's' ∷ b' ' ∷ b' ' ∷ b' ' ∷ b' ' ∷ b' '
    ∷ b' ' ∷ b' ' ∷ b' ' ∷ b' ' ∷ b' ' ∷ b' ' ∷ b' ' ∷ b' ' ∷ b' ' ∷ b' ' ∷ b' ' ∷ b' ' ∷ b' '
    ∷ b' ' ∷ b' ' ∷ b' ' ∷ b' ' ∷ b' ' ∷ b' ' ∷ b' ' ∷ b' ' ∷ b' ' ∷ b' ' ∷ b' ' ∷ b' ' ∷ b' '
    ∷ b' ' ∷ b' ' ∷ b' ' ∷ b' ' ∷ b' ' ∷ b' ' ∷ b' ' ∷ b' ' ∷ b' ' ∷ b'g' ∷ b'o' ∷ b'o' ∷ b'd'
    ∷ b' ' ∷ b' ' ∷ b'l' ∷ b'a' ∷ b's' ∷ b't' ∷ b'S' ∷ b'u' ∷ b'c' ∷ b'c' ∷ b'e' ∷ b's' ∷ b's'
    ∷ b' ' ∷ b' ' ∷ b' ' ∷ b' ' ∷ b'%' ∷ b'(' ∷ b'2' ∷ b'h' ∷ b')' ∷ b' ' ∷ b' ' ∷ b' ' ∷ b'%'
    ∷ b'(' ∷ b'8' ∷ b'h' ∷ b')' ∷ b' ' ∷ b' ' ∷ b' ' ∷ b'%' ∷ b'(' ∷ b'1' ∷ b'd' ∷ b')' ∷ b' '
    ∷ b' ' ∷ b' ' ∷ b'%' ∷ b'(' ∷ b'7' ∷ b'd' ∷ b')' ∷ b' ' ∷ b' ' ∷ b'%' ∷ b'(' ∷ b'3' ∷ b'0'
    ∷ b'd' ∷ b')' ∷ b' ' ∷ b' ' ∷ b'b' ∷ b'l' ∷ b'o' ∷ b'c' ∷ b'k' ∷ b's' ∷ b' ' ∷ b' ' ∷ b' '
    ∷ b' ' ∷ b' ' ∷ b' ' ∷ b's' ∷ b'v' ∷ b'c' ∷ b's' ∷ b' ' ∷ b' ' ∷ b'v' ∷ b'e' ∷ b'r' ∷ b's'
    ∷ b'i' ∷ b'o' ∷ b'n' ∷ []

module _ {F : Type 0} where
  unfoldable pub columns_of : (F → List ℕ) → List F → List ℕ
  columns_of percent [] = []
  columns_of percent (f ∷ []) = percent f
  columns_of percent (f ∷ g ∷ fs) = percent f ++ (b' ' ∷ columns_of percent (g ∷ fs))

  -- What stands behind the second column and a space, up to the quote.
  unfoldable pub later_columns : (F → List ℕ) → AddrReport F → List ℕ
  later_columns percent rep =
      b' '
      ∷ (pad_left b' ' 11 (show_int rep.last_success)
          ++ (b' '
              ∷ b' '
              ∷ (columns_of percent rep.uptime
                  ++ (b' '
                      ∷ b' '
                      ∷ (pad_left b' ' 6 (show_int rep.blocks)
                          ++ (b' '
                              ∷ b' '
                              ∷ (pad_left b'0' 8 (show_hex 16 rep.services)
                                  ++ (b' '
                                      ∷ b' '
                                      ∷ (pad_left b' ' 5 (show_int rep.client_version)
                                          ++ (b' ' ∷ b'"' ∷ []))))))))))

  unfoldable pub dump_columns : (List ℕ → List ℕ) → (F → List ℕ) → AddrReport F → List ℕ
  dump_columns encode percent rep =
      pad_right 47 (to_string_ip_port encode rep.service)
      ++ (b' '
          ∷ b' '
          ∷ (pad_left b' ' 4 (good_text (is_published rep)) ++ (b' ' ∷ later_columns percent rep)))

  unfoldable pub dump_lines : (List ℕ → List ℕ) → (F → List ℕ) → List (AddrReport F) → List ℕ
  dump_lines encode percent [] = []
  dump_lines encode percent (rep ∷ reps) =
      (dump_columns encode percent rep ++ chars rep.client_sub_version)
      ++ (b'"' ∷ b'\n' ∷ dump_lines encode percent reps)

  unfoldable pub dump_text : (List ℕ → List ℕ) → (F → List ℕ) → List (AddrReport F) → List ℕ
  dump_text encode percent reps = dump_header ++ (b'\n' ∷ dump_lines encode percent reps)

module _ {F : Type 0} ⦃fl : Float F⦄ where
  -- The uptimes are compared as numbers; `partial_cmp` of a NaN panics.
  abbrev pub more : Option F → Option F → Bool
  more none g = false
  more (some f) none = false
  more (some f) (some g) = fl.less g f

  unfoldable pub comes_before : AddrReport F → AddrReport F → Bool
  comes_before a b =
      let month = λ (r : AddrReport F). get_elem? r.uptime 4 in
      let week = λ (r : AddrReport F). get_elem? r.uptime 3 in
      more (month a) (month b)
      || (not (more (month b) (month a))
          && (more (week a) (week b)
              || (not (more (week b) (week a)) && ltb_ℤ b.client_version a.client_version)))

  -- A stable sort.
  unfoldable pub insert_report : AddrReport F → List (AddrReport F) → List (AddrReport F)
  insert_report r [] = r ∷ []
  insert_report r (x ∷ xs) =
      let later = insert_report r xs in if comes_before x r then x ∷ later else r ∷ x ∷ xs

  unfoldable pub sort_reports : List (AddrReport F) → List (AddrReport F)
  sort_reports [] = []
  sort_reports (r ∷ rs) = insert_report r (sort_reports rs)
