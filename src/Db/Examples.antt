-- ===== src/Db/Examples.antt =====
-- A database with one node, over statistics that are counted in whole numbers.
use satoxcoin_seeder.Prelude.{
  ℕ, ◌+◌, ◌*◌, ◌-◌, ◌/◌, ◌≤◌, ◌≡◌, refl, Bool, true, false, none, some, List, [], ◌∷◌, ◌++◌, length,
  replicate, All, ltb, max, ℤ, pos, arith, int_eq, ◌≤ℤ◌, add_i32, add_i64,
}
use satoxcoin_seeder.Prelude.Dict.{get, insert, add, contains, discard}
use satoxcoin_seeder.Net.{Service, service_network, is_routable}
use satoxcoin_seeder.Db.{
  AddrDb, dirty, ServiceResult, new_db, enter, service_eq, lookup_id, add_raw, bad, ban_for,
  record_result,
}
use satoxcoin_seeder.Db.Stat.{AddrInfo, AddrStat, Float, update_info, new_info}
use satoxcoin_seeder.Db.Crawl.{Draw, get_one, turns, turn, take_unknown, hand_out}
use satoxcoin_seeder.Db.Serve.{
  offering, get_ips, id_offers, offers, draw_ids, collect_ips, is_wanted,
}
use satoxcoin_seeder.Db.Consistent.{IsConsistent, HasRoom, new_db-IsConsistent, enter-IsConsistent}
use satoxcoin_seeder.Db.Results.{record_result-IsConsistent}
use satoxcoin_seeder.Db.Judge.{attempts}
use satoxcoin_seeder.Db.Bans.{bad-bans}
use satoxcoin_seeder.Db.Picks.{IsOffer, get_one-IsOffer}
use satoxcoin_seeder.Db.Answers.{IsWanted, get_ips-IsWanted, get_ips-one_good}

instance abbrev pub whole : Float ℕ
whole = record {
  of_ratio = λ n d. n;
  of_ℤ = λ n. 1;
  plus = λ a b. a + b;
  minus = λ a b. a - b;
  times = λ a b. a * b;
  over = λ a b. a;
  negate = λ a. a;
  exp = λ a. a;
  less = ltb;
}

-- 8.8.4.4:60777
abbrev pub service : Service
service = record {
  addr = record { ip = replicate 10 0 ++ (255 ∷ 255 ∷ 8 ∷ 8 ∷ 4 ∷ 4 ∷ []) };
  port = 60777;
}

abbrev pub zero_stat : AddrStat ℕ
zero_stat = record { weight = 0; count = 0; reliability = 0 }

abbrev pub info : AddrInfo ℕ
info = record {
  service = service;
  services = 1;
  last_try = pos 0;
  our_last_try = pos 0;
  our_last_success = pos 0;
  ignore_till = pos 0;
  stat_2h = zero_stat;
  stat_8h = zero_stat;
  stat_1d = zero_stat;
  stat_1w = zero_stat;
  stat_1m = zero_stat;
  client_version = pos 0;
  blocks = pos 0;
  total = pos 0;
  success = pos 0;
  client_sub_version = [];
  in_sync = false;
}

abbrev pub empty : AddrDb ℕ
empty = record {
  n_id = pos 0;
  id_to_info = [];
  ip_to_id = [];
  our_id = [];
  unk_id = [];
  good_id = [];
  banned = [];
  n_dirty = pos 0;
  wallet_port = 60777;
  min_peer_proto_version = pos 70000;
  force_ip = b'a' ∷ [];
}

abbrev pub one_node : AddrDb ℕ
one_node = record empty {
  n_id = pos 1;
  id_to_info = (pos 0, info) ∷ [];
  ip_to_id = (service, pos 0) ∷ [];
  unk_id = pos 0 ∷ [];
  n_dirty = pos 1;
}

empty-IsConsistent : IsConsistent empty
unfolding new_db
empty-IsConsistent = new_db-IsConsistent 60777 (pos 70000)

empty-HasRoom : HasRoom empty
empty-HasRoom = omega arith

one_node-IsConsistent : IsConsistent one_node
unfolding enter insert add add_i32 get contains
one_node-IsConsistent = enter-IsConsistent info empty empty-IsConsistent empty-HasRoom refl

abbrev pub failed : ServiceResult
failed = record {
  service = service;
  services = 1;
  good = false;
  ban_time = pos 100000;
  height = pos 0;
  client_v = pos 0;
  client_sv = [];
  our_last_success = pos 0;
  in_sync = false;
}

record_result-IsConsistent_example : IsConsistent (record_result failed (pos 1700000000) one_node)
record_result-IsConsistent_example =
    record_result-IsConsistent failed (pos 1700000000) one_node one_node-IsConsistent
      (unfold lookup_id get contains in refl)

-- Two attempts of which the first was successful.
abbrev tries : List (Bool × ℤ)
tries = (false, pos 1700001000) ∷ (true, pos 1700000000) ∷ []

abbrev tried : AddrInfo ℕ
tried = record (attempts tries (new_info service)) {
  services = 1;
  client_version = pos 70016;
  in_sync = true;
}

abbrev barring : AddrDb ℕ
barring = record empty { banned = (service, pos 1700100000) ∷ [] }

bad-bans_example :
    let after = bad failed (pos 1700000000) one_node in
    let ban = ban_for failed (pos 70000) (update_info false (pos 1700000000) info) in
    (get service after.ip_to_id ≡ none)
    × (get (lookup_id service one_node) after.id_to_info ≡ none)
    × (contains (lookup_id service one_node) after.good_id ≡ false)
    × ((services time : ℕ) (later : ℤ)
        → later ≤ℤ add_i64 ban (pos 1700000000)
        → add_raw service services time false later after ≡ after)
bad-bans_example =
    bad-bans failed (pos 1700000000) info one_node one_node-IsConsistent
      (unfold lookup_id get in refl) (unfold lookup_id get in refl) (omega arith)

abbrev draws : ℕ → Draw
draws k = record { rnd = 0; last_of = λ x s. x }

abbrev pub given : ServiceResult
given = record failed { ban_time = pos 0 }

handed_out :
    get_one draws (pos 1700000000) one_node
    ≡ (record one_node { unk_id = []; n_dirty = pos 2 }, some given)
unfolding get_one turns turn take_unknown hand_out get dirty discard add_i32
handed_out = refl

get_one-IsOffer_example : IsOffer (pos 1700000000) one_node given
get_one-IsOffer_example =
    get_one-IsOffer draws (pos 1700000000) one_node
      (record one_node { unk_id = []; n_dirty = pos 2 }) given handed_out

-- Two entries that count as good, and one.
abbrev other : Service
other = record service { port = 60778 }

abbrev two_good : AddrDb ℕ
two_good = record one_node {
  n_id = pos 2;
  id_to_info = (pos 0, info) ∷ (pos 1, record info { service = other }) ∷ [];
  ip_to_id = (service, pos 0) ∷ (other, pos 1) ∷ [];
  good_id = pos 0 ∷ pos 1 ∷ [];
}

abbrev one_good : AddrDb ℕ
one_good = record one_node { good_id = pos 0 ∷ [] }

abbrev every_net : List Bool
every_net = true ∷ true ∷ true ∷ true ∷ []

answered : get_ips (λ x s. x) (0 ∷ []) 1 5 every_net two_good ≡ some (service.addr ∷ [])
unfolding get_ips offering id_offers get offers draw_ids add collect_ips is_wanted service_network
    is_routable
answered = refl

get_ips-IsWanted_example :
    All (IsWanted 1 every_net two_good) (service.addr ∷ [])
    × (1 ≤ max 5 1)
    × (1 ≤ length (offering 1 two_good two_good.good_id) / 2)
get_ips-IsWanted_example =
    get_ips-IsWanted 1 every_net two_good (λ x s. x) (0 ∷ []) 5 (service.addr ∷ []) refl answered

get_ips-one_good_example : get_ips (λ x s. x) (0 ∷ []) 1 5 every_net one_good ≡ some []
get_ips-one_good_example =
    get_ips-one_good 1 every_net one_good (λ x s. x) (0 ∷ []) 5 refl
      (unfold offering id_offers offers get in refl)
