-- ===== src/App.antt =====
-- crates/seeder-core/src/lib.rs: service flags and the process-wide state.
use satoxcoin_seeder.Config.{Config}
use satoxcoin_seeder.Prelude.{ℕ, List, [], ◌∷◌, Bool, false, Option, none, some, ℤ, u32_as_i32}

-- NODE_NETWORK and the other service flags, of which only this one is tested.
abbrev pub node_network : ℕ
node_network = 1

pub record AppState : Type 0 where
  pub protocol_version : ℕ
  pub init_proto_version : ℕ
  pub min_peer_proto_version : ℤ
  pub caddr_time_version : ℕ
  pub message_start : List ℕ
  pub wallet_port : ℕ
  pub app_name : List ℕ

-- "satoxcoin-seeder"
abbrev pub app_name : List ℕ
app_name =
    b's' ∷ b'a' ∷ b't' ∷ b'o' ∷ b'x' ∷ b'c' ∷ b'o' ∷ b'i' ∷ b'n' ∷ b'-' ∷ b's' ∷ b'e' ∷ b'e' ∷ b'd'
    ∷ b'e' ∷ b'r' ∷ []

unfoldable pub new_app_state : Config → AppState
new_app_state cfg = record {
  protocol_version = cfg.protocol_version;
  init_proto_version = cfg.init_proto_version;
  min_peer_proto_version = u32_as_i32 cfg.min_peer_proto_version;
  caddr_time_version = cfg.caddr_time_version;
  message_start = cfg.pch_message_start;
  wallet_port = cfg.wallet_port;
  app_name = app_name;
}

-- The statics APP_STATE, CURRENT_BLOCK and BLOCK_FROM_EXPLORER.
pub record Globals : Type 0 where
  pub app_state : Option AppState
  pub current_block : ℤ
  pub block_from_explorer : Bool

unfoldable pub set_current_block : ℤ → Bool → Globals → Globals
set_current_block height from_explorer g = record g {
  current_block = height;
  block_from_explorer = from_explorer;
}

-- `OnceLock::set` keeps a value that is already there.
unfoldable pub init_app_state : Config → Globals → Globals
unfolding set_current_block new_app_state
init_app_state cfg g =
    let g' = set_current_block cfg.block_count false g in
    elim g.app_state [ none ↦ record g' { app_state = some (new_app_state cfg) } | some s ↦ g' ]
