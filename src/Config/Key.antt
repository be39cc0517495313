-- ===== src/Config/Key.antt =====
-- The keys of the settings file.
use satoxcoin_seeder.Prelude.{ℕ, List, [], ◌∷◌}

abbrev pub protocol_version : List ℕ
protocol_version =
    b'p' ∷ b'r' ∷ b'o' ∷ b't' ∷ b'o' ∷ b'c' ∷ b'o' ∷ b'l' ∷ b'_' ∷ b'v' ∷ b'e' ∷ b'r' ∷ b's' ∷ b'i'
    ∷ b'o' ∷ b'n' ∷ []

abbrev pub init_proto_version : List ℕ
init_proto_version =
    b'i' ∷ b'n' ∷ b'i' ∷ b't' ∷ b'_' ∷ b'p' ∷ b'r' ∷ b'o' ∷ b't' ∷ b'o' ∷ b'_' ∷ b'v' ∷ b'e' ∷ b'r'
    ∷ b's' ∷ b'i' ∷ b'o' ∷ b'n' ∷ []

abbrev pub min_peer_proto_version : List ℕ
min_peer_proto_version =
    b'm' ∷ b'i' ∷ b'n' ∷ b'_' ∷ b'p' ∷ b'e' ∷ b'e' ∷ b'r' ∷ b'_' ∷ b'p' ∷ b'r' ∷ b'o' ∷ b't' ∷ b'o'
    ∷ b'_' ∷ b'v' ∷ b'e' ∷ b'r' ∷ b's' ∷ b'i' ∷ b'o' ∷ b'n' ∷ []

abbrev pub caddr_time_version : List ℕ
caddr_time_version =
    b'c' ∷ b'a' ∷ b'd' ∷ b'd' ∷ b'r' ∷ b'_' ∷ b't' ∷ b'i' ∷ b'm' ∷ b'e' ∷ b'_' ∷ b'v' ∷ b'e' ∷ b'r'
    ∷ b's' ∷ b'i' ∷ b'o' ∷ b'n' ∷ []

abbrev pub wallet_port : List ℕ
wallet_port = b'w' ∷ b'a' ∷ b'l' ∷ b'l' ∷ b'e' ∷ b't' ∷ b'_' ∷ b'p' ∷ b'o' ∷ b'r' ∷ b't' ∷ []

abbrev pub explorer_url : List ℕ
explorer_url =
    b'e' ∷ b'x' ∷ b'p' ∷ b'l' ∷ b'o' ∷ b'r' ∷ b'e' ∷ b'r' ∷ b'_' ∷ b'u' ∷ b'r' ∷ b'l' ∷ []

abbrev pub second_explorer_url : List ℕ
second_explorer_url =
    b's' ∷ b'e' ∷ b'c' ∷ b'o' ∷ b'n' ∷ b'd' ∷ b'_' ∷ b'e' ∷ b'x' ∷ b'p' ∷ b'l' ∷ b'o' ∷ b'r' ∷ b'e'
    ∷ b'r' ∷ b'_' ∷ b'u' ∷ b'r' ∷ b'l' ∷ []

abbrev pub explorer_requery_seconds : List ℕ
explorer_requery_seconds =
    b'e' ∷ b'x' ∷ b'p' ∷ b'l' ∷ b'o' ∷ b'r' ∷ b'e' ∷ b'r' ∷ b'_' ∷ b'r' ∷ b'e' ∷ b'q' ∷ b'u' ∷ b'e'
    ∷ b'r' ∷ b'y' ∷ b'_' ∷ b's' ∷ b'e' ∷ b'c' ∷ b'o' ∷ b'n' ∷ b'd' ∷ b's' ∷ []

abbrev pub block_count : List ℕ
block_count = b'b' ∷ b'l' ∷ b'o' ∷ b'c' ∷ b'k' ∷ b'_' ∷ b'c' ∷ b'o' ∷ b'u' ∷ b'n' ∷ b't' ∷ []

abbrev pub cf_domain : List ℕ
cf_domain = b'c' ∷ b'f' ∷ b'_' ∷ b'd' ∷ b'o' ∷ b'm' ∷ b'a' ∷ b'i' ∷ b'n' ∷ []

abbrev pub cf_domain_prefix : List ℕ
cf_domain_prefix =
    b'c' ∷ b'f' ∷ b'_' ∷ b'd' ∷ b'o' ∷ b'm' ∷ b'a' ∷ b'i' ∷ b'n' ∷ b'_' ∷ b'p' ∷ b'r' ∷ b'e' ∷ b'f'
    ∷ b'i' ∷ b'x' ∷ []

abbrev pub cf_api_key : List ℕ
cf_api_key = b'c' ∷ b'f' ∷ b'_' ∷ b'a' ∷ b'p' ∷ b'i' ∷ b'_' ∷ b'k' ∷ b'e' ∷ b'y' ∷ []

abbrev pub cf_api_token : List ℕ
cf_api_token =
    b'c' ∷ b'f' ∷ b'_' ∷ b'a' ∷ b'p' ∷ b'i' ∷ b'_' ∷ b't' ∷ b'o' ∷ b'k' ∷ b'e' ∷ b'n' ∷ []

abbrev pub cf_seed_dump : List ℕ
cf_seed_dump =
    b'c' ∷ b'f' ∷ b'_' ∷ b's' ∷ b'e' ∷ b'e' ∷ b'd' ∷ b'_' ∷ b'd' ∷ b'u' ∷ b'm' ∷ b'p' ∷ []

abbrev pub cf_own_ip : List ℕ
cf_own_ip = b'c' ∷ b'f' ∷ b'_' ∷ b'o' ∷ b'w' ∷ b'n' ∷ b'_' ∷ b'i' ∷ b'p' ∷ []

abbrev pub message_start_prefix : List ℕ
message_start_prefix =
    b'p' ∷ b'c' ∷ b'h' ∷ b'M' ∷ b'e' ∷ b's' ∷ b's' ∷ b'a' ∷ b'g' ∷ b'e' ∷ b'S' ∷ b't' ∷ b'a' ∷ b'r'
    ∷ b't' ∷ b'_' ∷ []

abbrev pub seed_prefix : List ℕ
seed_prefix = b's' ∷ b'e' ∷ b'e' ∷ b'd' ∷ b'_' ∷ []
