-- ===== src/Toml/Examples.antt =====
-- Lines of a settings file.
use satoxcoin_seeder.Prelude.{ℕ, ◌≡◌, ◌≢◌, ◌↔◌, List, [], ◌∷◌, arith}
use satoxcoin_seeder.Prelude.Dict.{insert}
use satoxcoin_seeder.Text.{lines, trim}
use satoxcoin_seeder.Toml.{ConfigError, ok, err, panic, string, read_line, from_str, text_eq}
use satoxcoin_seeder.Toml.Reader.{HasUnclosed, from_str-eq-panic_iff}
use satoxcoin_seeder.Toml.Quoted.{quoted, read_line-quoted}

-- seed_1="a
abbrev unclosed_seed : List ℕ
unclosed_seed = b's' ∷ b'e' ∷ b'e' ∷ b'd' ∷ b'_' ∷ b'1' ∷ b'=' ∷ b'"' ∷ b'a' ∷ []

from_str-eq-panic_iff_example :
    ((from_str unclosed_seed ≡ panic) ↔ HasUnclosed (lines unclosed_seed))
    × ((e : ConfigError) → from_str unclosed_seed ≢ err e)
from_str-eq-panic_iff_example = from_str-eq-panic_iff unclosed_seed

abbrev url_key : List ℕ
url_key = b'u' ∷ b'r' ∷ b'l' ∷ []

-- http://a#b
abbrev url : List ℕ
url = b'h' ∷ b't' ∷ b't' ∷ b'p' ∷ b':' ∷ b'/' ∷ b'/' ∷ b'a' ∷ b'#' ∷ b'b' ∷ []

read_line-quoted_example :
    read_line (quoted url_key url (b' ' ∷ b'#' ∷ [])) []
    ≡ ok (insert url_key (string (trim url)) [])
read_line-quoted_example =
    read_line-quoted b'u' (b'r' ∷ b'l' ∷ []) url (b' ' ∷ b'#' ∷ []) (ground arith) [] (ground arith)
