-- ===== src/Config/Written.antt =====
-- A settings file that is written line by line from a configuration is read back.
use satoxcoin_seeder.Prelude.{
  ℕ, zero, suc, ◌≤◌, ◌≡◌, ◌≢◌, refl, sym, ap, ◌∙◌, Bool, true, not, ◌&&◌, Option, none, some, List,
  [], ◌∷◌, ◌++◌, length, get_or, leb, ◌==◌, All, All-imp, All-append, append_assoc, arith,
}
use satoxcoin_seeder.Prelude.Dict.{insert}
use satoxcoin_seeder.Text.{
  lines, trim, trim_quotes, trim_matches, trim_end, trim_start, show_nat, show_int,
}
use satoxcoin_seeder.Text.Numbers.{show_nat-IsDigit}
use satoxcoin_seeder.Dump.Words.{lines-line}
use satoxcoin_seeder.Toml.{ok, ◌>>=◌, string, Table, text_eq, read_line, read_lines}
use satoxcoin_seeder.Toml.Quoted.{IsKeyChar, quoted, read_line-quoted}
use satoxcoin_seeder.Config.{Config, unless_empty, filled, onto}
use satoxcoin_seeder.Config.Key
use satoxcoin_seeder.Config.Settings.{digits_stay}

-- Keys with their values.
unfoldable pub text_of : List (List ℕ × List ℕ) → List ℕ
text_of [] = []
text_of ((key, value) ∷ rest) = quoted key value [] ++ (b'\n' ∷ text_of rest)

-- The table with the values under their keys.
unfoldable pub table_of : List (List ℕ × List ℕ) → Table → Table
table_of [] entries = entries
table_of ((key, value) ∷ rest) entries = table_of rest (insert key (string value) entries)

abbrev pub is_key : List ℕ → Bool
is_key [] = true
is_key (c ∷ cs) = leb b'0' c && leb c b'z' && not (c == b'=') && is_key cs

is_key-All : (t : List ℕ) → is_key t ≡ true → All IsKeyChar t
is_key-All [] h = tt
is_key-All (c ∷ cs) h = (ground arith, is_key-All cs (ground arith))

-- A text that reads as it stands, in one line.
abbrev pub IsValue : List ℕ → Type 0
IsValue t = (trim t ≡ t) × All (λ c. c ≢ b'\n') t

abbrev pub IsSetting : List ℕ × List ℕ → Type 0
IsSetting (key, value) = (is_key key ≡ true) × (key ≢ []) × IsValue value

key_visible : (t : List ℕ) → All IsKeyChar t → All (λ c. c ≢ b'\n') t
key_visible t h = All-imp (λ c k e. ground (arith, k, e)) t h

pub read_settings :
    (settings : List (List ℕ × List ℕ)) (entries : Table)
    → All IsSetting settings
    → read_lines (lines (text_of settings)) entries ≡ ok (table_of settings entries)
unfolding read_lines text_of table_of
read_settings [] entries h = unfold lines in refl
read_settings (([], value) ∷ rest) entries h = absurd (h.0.1 refl)
read_settings ((c ∷ cs, value) ∷ rest) entries ((k, _, (trimmed, whole)), more) =
    let key = is_key-All (c ∷ cs) k in
    let front = (c ∷ cs) ++ (b' ' ∷ b'=' ∷ b' ' ∷ b'"' ∷ value) in
    let flat : All (λ x. x ≢ b'\n') front =
      All-append (λ x. x ≢ b'\n') (c ∷ cs) (b' ' ∷ b'=' ∷ b' ' ∷ b'"' ∷ value)
        (key_visible (c ∷ cs) key)
        (
          (λ e. omega (arith, e)),
          ((λ e. omega (arith, e)), ((λ e. omega (arith, e)), ((λ e. omega (arith, e)), whole))),
        ) in
    let line =
      lines-line front (text_of rest) b'"' flat (λ e. omega (arith, e)) (λ e. omega (arith, e)) in
    let split : (t : List ℕ) → quoted (c ∷ cs) value [] ++ t ≡ front ++ (b'"' ∷ t) =
      λ t. simp append_assoc in
    let here : quoted (c ∷ cs) value [] ≡ front ++ (b'"' ∷ []) = simp append_assoc in
    let read = read_line-quoted c cs value [] key entries tt in
    ap (λ u. read_lines (lines u) entries) (split (b'\n' ∷ text_of rest))
    ∙ ap (λ (u : List (List ℕ)). read_lines u entries) line
    ∙ ap (λ u. read_line u entries >>= λ t. read_lines (lines (text_of rest)) t) (sym here)
    ∙ ap (λ o. o >>= λ t. read_lines (lines (text_of rest)) t) read
    ∙ ap (λ v. read_lines (lines (text_of rest)) (insert (c ∷ cs) (string v) entries)) trimmed
    ∙ read_settings rest (insert (c ∷ cs) (string value) entries) more

-- The value of a setting that may be missing, and of the seed with number `k`.
unfoldable pub or_empty : Option (List ℕ) → List ℕ
or_empty none = []
or_empty (some t) = t

unfoldable pub seed_at : ℕ → List (List ℕ) → List ℕ
seed_at k [] = []
seed_at zero (s ∷ seeds) = s
seed_at (suc k) (s ∷ seeds) = seed_at k seeds

-- The settings of a configuration, each under its key.
unfoldable pub settings_of : Config → List (List ℕ × List ℕ)
settings_of c =
    let magic : ℕ → ℕ → List ℕ × List ℕ =
      λ d k. (Key.message_start_prefix ++ (d ∷ []), show_nat (get_or c.pch_message_start k 0)) in
    let seed : List ℕ → ℕ → List ℕ × List ℕ = λ ds k. (Key.seed_prefix ++ ds, seed_at k c.seeds) in
    (Key.protocol_version, show_nat c.protocol_version)
    ∷ (Key.init_proto_version, show_nat c.init_proto_version)
    ∷ (Key.min_peer_proto_version, show_nat c.min_peer_proto_version)
    ∷ (Key.caddr_time_version, show_nat c.caddr_time_version)
    ∷ magic b'0' 0
    ∷ magic b'1' 1
    ∷ magic b'2' 2
    ∷ magic b'3' 3
    ∷ (Key.wallet_port, show_nat c.wallet_port)
    ∷ (Key.explorer_url, or_empty c.explorer_url)
    ∷ (Key.second_explorer_url, or_empty c.second_explorer_url)
    ∷ (Key.explorer_requery_seconds, show_nat c.explorer_requery_seconds)
    ∷ (Key.block_count, show_int c.block_count)
    ∷ seed (b'1' ∷ []) 0
    ∷ seed (b'2' ∷ []) 1
    ∷ seed (b'3' ∷ []) 2
    ∷ seed (b'4' ∷ []) 3
    ∷ seed (b'5' ∷ []) 4
    ∷ seed (b'6' ∷ []) 5
    ∷ seed (b'7' ∷ []) 6
    ∷ seed (b'8' ∷ []) 7
    ∷ seed (b'9' ∷ []) 8
    ∷ seed (b'1' ∷ b'0' ∷ []) 9
    ∷ (Key.cf_domain, or_empty c.cf_domain)
    ∷ (Key.cf_domain_prefix, or_empty c.cf_domain_prefix)
    ∷ (Key.cf_api_token, or_empty c.cf_api_token)
    ∷ (Key.cf_seed_dump, or_empty c.cf_seed_dump)
    ∷ (Key.cf_own_ip, or_empty c.cf_own_ip)
    ∷ []

-- A text that is read back: one line, not empty, with no white space or quote at its ends.
abbrev pub IsText : List ℕ → Type 0
IsText t = (t ≢ []) × (trim t ≡ t) × (trim_quotes t ≡ t) × All (λ c. c ≢ b'\n') t

abbrev pub IsTextIf : Option (List ℕ) → Type 0
IsTextIf none = Unit
IsTextIf (some t) = IsText t

pub show_nat-IsValue : (n : ℕ) → IsValue (show_nat n)
show_nat-IsValue n =
    ((digits_stay n).0, All-imp (λ c d e. ground (arith, d, e)) (show_nat n) (show_nat-IsDigit n))

nothing : (trim [] ≡ []) × (trim_quotes [] ≡ [])
unfolding trim trim_quotes trim_matches trim_end trim_start
nothing = (refl, refl)

pub or_empty-IsValue : (o : Option (List ℕ)) → IsTextIf o → IsValue (or_empty o)
unfolding or_empty
or_empty-IsValue none h = (nothing.0, tt)
or_empty-IsValue (some t) h = (h.1, h.3)

pub seed_at-IsValue : (k : ℕ) (seeds : List (List ℕ)) → All IsText seeds → IsValue (seed_at k seeds)
unfolding seed_at
seed_at-IsValue k [] h = (nothing.0, tt)
seed_at-IsValue zero (s ∷ seeds) h = (h.0.1, h.0.3)
seed_at-IsValue (suc k) (s ∷ seeds) h = seed_at-IsValue k seeds h.1

filled-text : (t : List ℕ) → IsText t → filled (some t) ≡ some t
unfolding filled
filled-text [] h = absurd (h.0 refl)
filled-text (c ∷ cs) h = ap unless_empty h.2

pub filled-or_empty : (o : Option (List ℕ)) → IsTextIf o → filled (some (or_empty o)) ≡ o
unfolding or_empty filled
filled-or_empty none h = ap unless_empty nothing.1
filled-or_empty (some t) h = filled-text t h

-- The seeds from number `k` on.
unfoldable pub gather : ℕ → ℕ → List (List ℕ) → List (List ℕ)
gather zero k seeds = []
gather (suc n) k seeds = onto (filled (some (seed_at k seeds))) (gather n (suc k) seeds)

gather_none : (n k : ℕ) → gather n k [] ≡ []
unfolding gather seed_at onto filled
gather_none zero k = refl
gather_none (suc n) k =
    ap (λ t. onto (unless_empty t) (gather n (suc k) [])) nothing.1 ∙ gather_none n (suc k)

gather_later :
    (n k : ℕ) (s : List ℕ) (seeds : List (List ℕ)) → gather n (suc k) (s ∷ seeds) ≡ gather n k seeds
unfolding gather seed_at
gather_later zero k s seeds = refl
gather_later (suc n) k s seeds =
    ap (onto (filled (some (seed_at k seeds)))) (gather_later n (suc k) s seeds)

pub gather_whole :
    (n : ℕ) (seeds : List (List ℕ)) → length seeds ≤ n → All IsText seeds → gather n 0 seeds ≡ seeds
unfolding gather seed_at onto
gather_whole n [] h k = gather_none n 0
gather_whole zero (s ∷ seeds) h k = absurd (omega arith)
gather_whole (suc n) (s ∷ seeds) h (k, ks) =
    let rest = gather_later n 0 s seeds ∙ gather_whole n seeds (omega arith) ks in
    rw (filled-text s k, rest) refl
