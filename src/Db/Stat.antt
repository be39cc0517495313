-- ===== src/Db/Stat.antt =====
-- crates/seeder-core/src/db.rs, `AddrStat` and `AddrInfo`: the statistics of one address and the
-- judgements on them. `f64` is a type `F` with its operations, an instance argument.
use satoxcoin_seeder.Prelude.{
  ℕ, ◌*◌, Bool, true, false, not, ◌&&◌, ◌||◌, List, [], ◌==◌, if◌then◌else◌, ℤ, pos, ltb_ℤ, leb_ℤ,
  eq_ℤ, add_i32, add_i64, sub_i64, ◌%◌,
}
use satoxcoin_seeder.Net.{Service, service_is_routable}
use satoxcoin_seeder.App.{node_network}

-- The operations of `f64` that the statistics use. `of_ratio n d` is the literal nearest to n / d,
-- and `of_ℤ` is `as f64`.
pub record Float (F : Type 0) : Type 0 where
  pub of_ratio : ℕ → ℕ → F
  pub of_ℤ : ℤ → F
  pub plus : F → F → F
  pub minus : F → F → F
  pub times : F → F → F
  pub over : F → F → F
  pub negate : F → F
  pub exp : F → F
  pub less : F → F → Bool

pub record AddrStat (F : Type 0) : Type 0 where
  pub weight : F
  pub count : F
  pub reliability : F

pub record AddrInfo (F : Type 0) : Type 0 where
  pub service : Service
  pub services : ℕ
  pub last_try : ℤ
  pub our_last_try : ℤ
  pub our_last_success : ℤ
  pub ignore_till : ℤ
  pub stat_2h : AddrStat F
  pub stat_8h : AddrStat F
  pub stat_1d : AddrStat F
  pub stat_1w : AddrStat F
  pub stat_1m : AddrStat F
  pub client_version : ℤ
  pub blocks : ℤ
  pub total : ℤ
  pub success : ℤ
  pub client_sub_version : List ℕ
  pub in_sync : Bool

-- `MIN_RETRY`
abbrev pub min_retry : ℤ
min_retry = pos 1000

-- The flag NODE_NETWORK is bit 0.
unfoldable pub has_node_network : ℕ → Bool
has_node_network services = not (services % 2 == 0)

module _ {F : Type 0} ⦃fl : Float F⦄ where
  -- `AddrStat::default`
  unfoldable pub new_stat : AddrStat F
  new_stat = record {
    weight = fl.of_ratio 0 1;
    count = fl.of_ratio 0 1;
    reliability = fl.of_ratio 0 1;
  }

  unfoldable pub update_stat : Bool → F → F → AddrStat F → AddrStat F
  update_stat good age tau s =
      let f = fl.exp (fl.over (fl.negate age) tau) in
      let one = fl.of_ratio 1 1 in
      record {
        reliability =
            fl.plus (fl.times s.reliability f) (if good then fl.minus one f else fl.of_ratio 0 1);
        count = fl.plus (fl.times s.count f) one;
        weight = fl.plus (fl.times s.weight f) (fl.minus one f);
      }

  unfoldable pub new_info : Service → AddrInfo F
  new_info service = record {
    service = service;
    services = node_network;
    last_try = pos 0;
    our_last_try = pos 0;
    our_last_success = pos 0;
    ignore_till = pos 0;
    stat_2h = new_stat;
    stat_8h = new_stat;
    stat_1d = new_stat;
    stat_1w = new_stat;
    stat_1m = new_stat;
    client_version = pos 0;
    blocks = pos 0;
    total = pos 0;
    success = pos 0;
    client_sub_version = [];
    in_sync = false;
  }

  -- `reliability - weight + 1.0 < bound && count > least`
  unfoldable pub is_poor : AddrStat F → F → F → Bool
  is_poor s bound least =
      fl.less (fl.plus (fl.minus s.reliability s.weight) (fl.of_ratio 1 1)) bound
      && fl.less least s.count

  unfoldable pub get_ignore_time : AddrInfo F → ℤ
  get_ignore_time i =
      if is_poor i.stat_1m (fl.of_ratio 20 100) (fl.of_ratio 2 1)
      then pos (10 * 86400)
      else if is_poor i.stat_1w (fl.of_ratio 16 100) (fl.of_ratio 2 1)
      then pos (3 * 86400)
      else if is_poor i.stat_1d (fl.of_ratio 12 100) (fl.of_ratio 2 1)
      then pos (8 * 3600)
      else if is_poor i.stat_8h (fl.of_ratio 8 100) (fl.of_ratio 2 1)
      then pos (2 * 3600)
      else pos 0

  -- A version that is known and below the least one.
  unfoldable pub is_old : AddrInfo F → ℤ → Bool
  is_old i min_version = ltb_ℤ (pos 0) i.client_version && ltb_ℤ i.client_version min_version

  unfoldable pub get_ban_time : AddrInfo F → ℤ → ℤ
  get_ban_time i min_version =
      if is_old i min_version
      then pos 604800
      else if is_poor i.stat_1m (fl.of_ratio 15 100) (fl.of_ratio 32 1)
      then pos (30 * 86400)
      else if is_poor i.stat_1w (fl.of_ratio 10 100) (fl.of_ratio 16 1)
      then pos (7 * 86400)
      else if is_poor i.stat_1d (fl.of_ratio 5 100) (fl.of_ratio 8 1)
      then pos 86400
      else pos 0

  -- `reliability > bound && count > least`
  unfoldable pub is_reliable : AddrStat F → F → F → Bool
  is_reliable s bound least = fl.less bound s.reliability && fl.less least s.count

  -- The last six tests of `is_good`.
  unfoldable pub has_record : AddrInfo F → Bool
  has_record i =
      if leb_ℤ i.total (pos 3) && leb_ℤ i.total (add_i32 i.success i.success)
      then true
      else if is_reliable i.stat_2h (fl.of_ratio 85 100) (fl.of_ratio 2 1)
      then true
      else if is_reliable i.stat_8h (fl.of_ratio 70 100) (fl.of_ratio 4 1)
      then true
      else if is_reliable i.stat_1d (fl.of_ratio 55 100) (fl.of_ratio 8 1)
      then true
      else if is_reliable i.stat_1w (fl.of_ratio 45 100) (fl.of_ratio 16 1)
      then true
      else is_reliable i.stat_1m (fl.of_ratio 35 100) (fl.of_ratio 32 1)

  unfoldable pub is_good : AddrInfo F → ℕ → ℤ → Bool
  is_good i wallet_port min_version =
      if not (i.service.port == wallet_port)
      then false
      else if not (has_node_network i.services)
      then false
      else if not (service_is_routable i.service)
      then false
      else if is_old i min_version
      then false
      else if not i.in_sync
      then false
      else has_record i

  -- The fields that an attempt always changes, and those that a success changes.
  unfoldable pub count_attempt : Bool → ℤ → AddrInfo F → AddrInfo F
  count_attempt good now i =
      let j = record i { last_try = now; our_last_try = now; total = add_i32 i.total (pos 1) } in
      if good then record j { success = add_i32 i.success (pos 1); our_last_success = now } else j

  unfoldable pub update_stats : Bool → F → AddrInfo F → AddrInfo F
  update_stats good age i = record i {
    stat_2h = update_stat good age (fl.times (fl.of_ratio 3600 1) (fl.of_ratio 2 1)) i.stat_2h;
    stat_8h = update_stat good age (fl.times (fl.of_ratio 3600 1) (fl.of_ratio 8 1)) i.stat_8h;
    stat_1d = update_stat good age (fl.times (fl.of_ratio 3600 1) (fl.of_ratio 24 1)) i.stat_1d;
    stat_1w =
        update_stat good age
          (fl.times (fl.times (fl.of_ratio 3600 1) (fl.of_ratio 24 1)) (fl.of_ratio 7 1)) i.stat_1w;
    stat_1m =
        update_stat good age
          (fl.times (fl.times (fl.of_ratio 3600 1) (fl.of_ratio 24 1)) (fl.of_ratio 30 1))
          i.stat_1m;
  }

  unfoldable pub extend_ignore : ℤ → AddrInfo F → AddrInfo F
  extend_ignore now i =
      let ign = get_ignore_time i in
      if ltb_ℤ (pos 0) ign && (eq_ℤ i.ignore_till (pos 0) || ltb_ℤ i.ignore_till (add_i64 ign now))
      then record i { ignore_till = add_i64 ign now }
      else i

  unfoldable pub update_info : Bool → ℤ → AddrInfo F → AddrInfo F
  update_info good now i =
      let last = if eq_ℤ i.our_last_try (pos 0) then sub_i64 now min_retry else i.our_last_try in
      let age = fl.of_ℤ (sub_i64 now last) in
      extend_ignore now (update_stats good age (count_attempt good now i))
