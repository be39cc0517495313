-- ===== src/Crawler.antt =====
-- bin/seeder/src/main.rs: what the tasks of the seeder do with the database, the handshake and the
-- process-wide state. The clock is an argument, one reading per call.
pub mod System
pub mod Places
pub mod Sound
pub mod Tasks
pub mod Reachable
pub mod Safety
pub mod Deaths
pub mod Stays
pub mod Lost
pub mod Dumper
pub mod Columns
pub mod Lines
pub mod Published
pub mod Forged
mod Examples
mod Dumps
use satoxcoin_seeder.Prelude.{
  ℕ, zero, suc, ◌+◌, ◌-◌, ◌%◌, ◌^◌, Bool, true, false, not, ◌&&◌, Option, none, some, List, [], ◌∷◌,
  ◌++◌, length, ltb, ◌==◌, if◌then◌else◌, ℤ, pos, ltb_ℤ, leb_ℤ, eq_ℤ, add_i32, sub_i32, add_i64,
}
use satoxcoin_seeder.Net.{NetAddr, Service, octets, to_ipv4_addr, to_ipv6_addr}
use satoxcoin_seeder.App.{Globals, set_current_block}
use satoxcoin_seeder.Message.{Address}
use satoxcoin_seeder.Handshake.{HandshakeResult}
use satoxcoin_seeder.Dns.{Addr, addr_v4, addr_v6}
use satoxcoin_seeder.Db.{
  AddrDb, ServiceResult, new_db, restore_from, reset_ignores, add_address, add_service,
  record_result,
}
use satoxcoin_seeder.Db.Stat.{Float}
use satoxcoin_seeder.Db.Serve.{AddrDbStats}

-- `block_reader_task`, one round: what the two explorers answered.
unfoldable pub read_round : Option ℤ → Option ℤ → Globals → Globals
unfolding set_current_block
read_round h1 (some block) g = set_current_block block true g
read_round (some block) none g = set_current_block block true g
read_round none none g = g

-- `get_addr`: the node was last reached more than a day ago.
unfoldable pub wants_addresses : ServiceResult → ℤ → Bool
wants_addresses res now = ltb_ℤ (add_i64 res.our_last_success (pos 86400)) now

unfoldable pub is_in_sync : Bool → ℤ → ℤ → Bool
is_in_sync from_explorer tip height =
    if from_explorer
    then leb_ℤ (sub_i32 tip (pos 5)) height && leb_ℤ height (add_i32 tip (pos 5))
    else leb_ℤ tip height

-- The result of a handshake. The height and the origin of the tip are read one after the other.
unfoldable pub judge : ServiceResult → Bool → ℤ → HandshakeResult → ServiceResult
judge res from_explorer tip handshake = record {
  service = res.service;
  services = handshake.services;
  good = eq_ℤ handshake.ban (pos 0) && ltb_ℤ (pos 0) handshake.client_version;
  ban_time = handshake.ban;
  height = handshake.starting_height;
  client_v = handshake.client_version;
  client_sv = handshake.client_sub_version;
  our_last_success = pos 0;
  in_sync = is_in_sync from_explorer tip handshake.starting_height;
}

-- The results of a batch, with the times at which they are recorded.
unfoldable pub timed : (ℕ → ℤ) → ℕ → List ServiceResult → List (ServiceResult × ℤ)
timed clock k [] = []
timed clock k (r ∷ rs) = (r, clock k) ∷ timed clock (k + 1) rs

module _ {F : Type 0} ⦃fl : Float F⦄ where
  -- The addresses that a node sent, announced without force.
  unfoldable pub announce : (ℕ → ℤ) → ℕ → List Address → AddrDb F → AddrDb F
  announce clock k [] db = db
  announce clock k (a ∷ rest) db = announce clock (k + 1) rest (add_address a false (clock k) db)

  -- The addresses that a seed's name stands for, on the wallet's port.
  unfoldable pub seed : ℕ → List NetAddr → AddrDb F → AddrDb F
  seed wallet_port [] db = db
  seed wallet_port (ip ∷ ips) db =
      seed wallet_port ips (add_service (record { addr = ip; port = wallet_port }) true db)

  -- The start of `main`: what seeder.dat holds, without the bans or the times of being ignored
  -- if the command line says so.
  unfoldable pub load : ℕ → ℤ → Option (AddrDb F) → AddrDb F
  load wallet_port min_version none = new_db wallet_port min_version
  load wallet_port min_version (some saved) = restore_from saved (new_db wallet_port min_version)

  unfoldable pub start : Bool → Bool → ℕ → ℤ → Option (AddrDb F) → AddrDb F
  start wipe_ban wipe_ignore wallet_port min_version saved =
      let db = load wallet_port min_version saved in
      let unbanned = if wipe_ban then record db { banned = [] } else db in
      if wipe_ignore then reset_ignores unbanned else unbanned

-- The answers of the DNS server: IPv4 addresses as such, others as IPv6 addresses.
unfoldable pub answer_of : NetAddr → Option Addr
answer_of ip = elim (to_ipv4_addr ip) [
  | some four ↦ some (addr_v4 (octets four))
  | none ↦ elim (to_ipv6_addr ip) [ some six ↦ some (addr_v6 six) | none ↦ none ]
]

unfoldable pub answers : List NetAddr → List Addr
answers [] = []
answers (ip ∷ ips) =
    let rest = answers ips in elim (answer_of ip) [ none ↦ rest | some a ↦ a ∷ rest ]

-- The number of active nodes that the statistics show, `usize` as it wraps.
unfoldable pub n_active : AddrDbStats → ℕ
n_active stats =
    (stats.n_avail + (2 ^ 64 - stats.n_tracked % 2 ^ 64) + (2 ^ 64 - stats.n_new % 2 ^ 64)) % 2 ^ 64
