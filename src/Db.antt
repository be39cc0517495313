-- ===== src/Db.antt =====
-- crates/seeder-core/src/db.rs: the address database. A hash map is an association list, a hash
-- set a list, the clock an argument.
pub mod Stat
pub mod Crawl
pub mod Serve
pub mod Judge
pub mod Bans
pub mod Turns
pub mod Picks
pub mod Answers
pub mod Consistent
pub mod Keeps
pub mod Queues
pub mod Expel
pub mod Results
pub mod Held
pub mod Hands
pub mod Returns
pub mod Enters
pub mod Examples
use Stat.{AddrStat, AddrInfo, Float, new_info, update_info, is_good, get_ban_time}
use satoxcoin_seeder.Prelude.{
  ℕ, ◌+◌, ◌<◌, ◌≡◌, refl, ◌↔◌, Bool, true, false, not, ◌&&◌, ◌||◌, Option, none, some, List, [],
  ◌∷◌, ◌++◌, length, ltb, ◌==◌, if◌then◌else◌, ℤ, pos, negsuc, ltb_ℤ, add_i32, add_i64, as_u32, Eq,
  int_eq, eq_bytes, eq_bytes_iff, arith,
}
use satoxcoin_seeder.Prelude.Dict.{get, insert, remove, alter, contains, add, discard}
use satoxcoin_seeder.Net.{NetAddr, Service, service_is_routable}
use satoxcoin_seeder.Message.{Address}
use satoxcoin_seeder.App.{AppState}

abbrev pub service_beq : Service → Service → Bool
service_beq s t = eq_bytes s.addr.ip t.addr.ip && s.port == t.port

pub service_beq_iff : (s t : Service) → (service_beq s t ≡ true) ↔ (s ≡ t)
service_beq_iff s t = ground (arith, eq_bytes_iff s.addr.ip t.addr.ip)

instance abbrev pub service_eq : Eq Service
service_eq = record { beq = service_beq; beq_iff = service_beq_iff }

pub record ServiceResult : Type 0 where
  pub service : Service
  pub services : ℕ
  pub good : Bool
  pub ban_time : ℤ
  pub height : ℤ
  pub client_v : ℤ
  pub client_sv : List ℕ
  pub our_last_success : ℤ
  pub in_sync : Bool

pub record AddrDb (F : Type 0) : Type 0 where
  pub n_id : ℤ
  pub id_to_info : List (ℤ × AddrInfo F)
  pub ip_to_id : List (Service × ℤ)
  pub our_id : List ℤ
  pub unk_id : List ℤ
  pub good_id : List ℤ
  pub banned : List (Service × ℤ)
  pub n_dirty : ℤ
  pub wallet_port : ℕ
  pub min_peer_proto_version : ℤ
  pub force_ip : List ℕ

unfoldable pub new_db : {F : Type 0} → ℕ → ℤ → AddrDb F
new_db wallet_port min_version = record {
  n_id = pos 0;
  id_to_info = [];
  ip_to_id = [];
  our_id = [];
  unk_id = [];
  good_id = [];
  banned = [];
  n_dirty = pos 0;
  wallet_port = wallet_port;
  min_peer_proto_version = min_version;
  force_ip = b'a' ∷ [];
}

module _ {F : Type 0} where
  unfoldable pub dirty : AddrDb F → AddrDb F
  dirty db = record db { n_dirty = add_i32 db.n_dirty (pos 1) }

  unfoldable pub restore_from : AddrDb F → AddrDb F → AddrDb F
  restore_from saved db = record db {
    n_id = saved.n_id;
    id_to_info = saved.id_to_info;
    ip_to_id = saved.ip_to_id;
    our_id = saved.our_id;
    unk_id = saved.unk_id;
    good_id = saved.good_id;
    banned = saved.banned;
    n_dirty = saved.n_dirty;
  }

  -- `ip_to_id.get(..).copied().unwrap_or(-1)`
  unfoldable pub lookup_id : Service → AddrDb F → ℤ
  lookup_id service db = elim (get service db.ip_to_id) [ some id ↦ id | none ↦ negsuc 0 ]

  unfoldable pub reset_infos : List (ℤ × AddrInfo F) → List (ℤ × AddrInfo F)
  reset_infos [] = []
  reset_infos ((id, info) ∷ m) = (id, record info { ignore_till = pos 0 }) ∷ reset_infos m

  unfoldable pub reset_ignores : AddrDb F → AddrDb F
  reset_ignores db = record db { id_to_info = reset_infos db.id_to_info }

  -- What a repeated announcement changes.
  unfoldable pub touch_info : ℕ → Bool → AddrInfo F → AddrInfo F
  touch_info time force info =
      let i =
        if ltb (as_u32 info.last_try) time then record info { last_try = pos time } else info in
      if force then record i { ignore_till = pos 0 } else i

  -- A new entry under the next id.
  unfoldable pub enter : AddrInfo F → AddrDb F → AddrDb F
  enter info db = record db {
    n_id = add_i32 db.n_id (pos 1);
    id_to_info = insert db.n_id info db.id_to_info;
    ip_to_id = insert info.service db.n_id db.ip_to_id;
    unk_id = add db.n_id db.unk_id;
    n_dirty = add_i32 db.n_dirty (pos 1);
  }

module _ {F : Type 0} ⦃fl : Float F⦄ where
  -- The second half of `add_raw`, past the ban list.
  unfoldable pub admit : Service → ℕ → ℕ → Bool → AddrDb F → AddrDb F
  admit service services time force db = elim (get service db.ip_to_id) [
    | some id ↦ record db { id_to_info = alter id (touch_info time force) db.id_to_info }
    | none ↦ enter (record (new_info service) { services = services; last_try = pos time }) db
  ]

  unfoldable pub add_raw : Service → ℕ → ℕ → Bool → ℤ → AddrDb F → AddrDb F
  add_raw service services time force now db =
      if not force && not (service_is_routable service) then db else elim (get service db.banned) [
        | some bantime ↦
            if force || (ltb_ℤ bantime now && ltb_ℤ bantime (pos time))
            then admit service services time force (record db { banned = remove service db.banned })
            else db
        | none ↦ admit service services time force db
      ]

  unfoldable pub add_address : Address → Bool → ℤ → AddrDb F → AddrDb F
  add_address a force now db =
      add_raw (record { addr = a.addr; port = a.port }) a.services a.time force now db

  unfoldable pub add_service : Service → Bool → AddrDb F → AddrDb F
  add_service service force db =
      if not force && not (service_is_routable service)
      then db
      else elim (get service db.ip_to_id) [ some id ↦ db | none ↦ enter (new_info service) db ]

  -- What a successful handshake writes into the entry.
  unfoldable pub good_info : ServiceResult → ℤ → AddrInfo F → AddrInfo F
  good_info res now info = update_info true now (record info {
    client_version = res.client_v;
    client_sub_version = res.client_sv;
    blocks = res.height;
    in_sync = res.in_sync;
    services = res.services;
  })

  -- The block under `if let Some(info)`.
  unfoldable pub good_entry : ServiceResult → ℤ → ℤ → AddrDb F → AddrDb F
  good_entry res now id db = elim (get id db.id_to_info) [
    | none ↦ db
    | some info ↦
        let info' = good_info res now info in
        record db {
          id_to_info = insert id info' db.id_to_info;
          good_id =
              if is_good info' db.wallet_port db.min_peer_proto_version
              then add id db.good_id
              else db.good_id;
        }
  ]

  unfoldable pub good : ServiceResult → ℤ → AddrDb F → AddrDb F
  good res now db =
      let id = lookup_id res.service db in
      let db1 = record db {
        unk_id = discard id db.unk_id;
        banned = remove res.service db.banned;
      } in
      let db2 = good_entry res now id db1 in
      if ltb_ℤ id (pos 0)
      then db
      else record db2 { n_dirty = add_i32 db2.n_dirty (pos 1); our_id = db2.our_id ++ (id ∷ []) }

  -- The ban of a failed handshake: the one reported, or a longer one that the entry earns.
  unfoldable pub ban_for : ServiceResult → ℤ → AddrInfo F → ℤ
  ban_for res min_version info =
      let ter = get_ban_time info min_version in
      if ltb_ℤ (pos 0) ter && ltb_ℤ res.ban_time ter then ter else res.ban_time

  -- The two ends of the block under `if let Some(info)`: a ban, or another try later.
  unfoldable pub expel : Service → ℤ → ℤ → AddrDb F → AddrDb F
  expel service till id db = record db {
    banned = insert service till db.banned;
    ip_to_id = remove service db.ip_to_id;
    good_id = discard id db.good_id;
    id_to_info = remove id db.id_to_info;
  }

  unfoldable pub demote : AddrInfo F → ℤ → AddrDb F → AddrDb F
  demote info id db = record db {
    id_to_info = insert id info db.id_to_info;
    good_id = discard id db.good_id;
    our_id = db.our_id ++ (id ∷ []);
  }

  unfoldable pub bad_entry : ServiceResult → ℤ → ℤ → AddrDb F → AddrDb F
  bad_entry res now id db = elim (get id db.id_to_info) [
    | none ↦ db
    | some info ↦
        let info' = update_info false now info in
        let ban = ban_for res db.min_peer_proto_version info' in
        if ltb_ℤ (pos 0) ban
        then expel info'.service (add_i64 ban now) id db
        else demote info' id db
  ]

  unfoldable pub bad : ServiceResult → ℤ → AddrDb F → AddrDb F
  bad res now db =
      let id = lookup_id res.service db in
      let db1 = record db { unk_id = discard id db.unk_id } in
      let db2 = bad_entry res now id db1 in if ltb_ℤ id (pos 0) then db else dirty db2

  -- One result, with the time at which it is recorded.
  unfoldable pub record_result : ServiceResult → ℤ → AddrDb F → AddrDb F
  record_result res now db = if res.good then good res now db else bad res now db

  unfoldable pub result_many : List (ServiceResult × ℤ) → AddrDb F → AddrDb F
  result_many [] db = db
  result_many ((res, now) ∷ results) db = result_many results (record_result res now db)
