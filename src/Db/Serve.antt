-- ===== src/Db/Serve.antt =====
-- The reading side: `get_stats`, `get_ips`, `snapshot_good_ips` and `get_all`.
use satoxcoin_seeder.Prelude.{
  ℕ, ◌/◌, ◌%◌, ◌≡◌, Bool, true, false, Option, none, some, List, [], ◌∷◌, length, get_elem?, min,
  max, ltb, ◌==◌, if◌then◌else◌, ℤ, pos, ltb_ℤ, sub_i64, int_eq, eq_bytes, Eq, eq_bytes_iff, arith,
  ◌↔◌,
}
use Prim.Native.Nat.{bit_and}
use satoxcoin_seeder.Prelude.Dict.{get, add}
use satoxcoin_seeder.Net.{NetAddr, Network, Service, service_network}
use satoxcoin_seeder.Db.{AddrDb}
use satoxcoin_seeder.Db.Stat.{AddrInfo, Float, is_good}

abbrev pub addr_beq : NetAddr → NetAddr → Bool
addr_beq a b = eq_bytes a.ip b.ip

pub addr_beq_iff : (a b : NetAddr) → (addr_beq a b ≡ true) ↔ (a ≡ b)
addr_beq_iff a b = ground (arith, eq_bytes_iff a.ip b.ip)

instance abbrev pub addr_eq : Eq NetAddr
addr_eq = record { beq = addr_beq; beq_iff = addr_beq_iff }

pub record AddrDbStats : Type 0 where
  pub n_banned : ℕ
  pub n_avail : ℕ
  pub n_tracked : ℕ
  pub n_new : ℕ
  pub n_good : ℕ
  pub n_age : ℤ

pub record AddrReport (F : Type 0) : Type 0 where
  pub service : Service
  pub client_version : ℤ
  pub client_sub_version : List ℕ
  pub blocks : ℤ
  pub uptime : List F
  pub last_success : ℤ
  pub good : Bool
  pub services : ℕ

-- The index of a network in the caller's array of wishes; `Unroutable` has none.
abbrev pub net_idx : Network → Option ℕ
net_idx Network.ipv4 = some 0
net_idx Network.ipv6 = some 1
net_idx Network.tor = some 2
net_idx Network.i2p = some 3
net_idx Network.unroutable = none

unfoldable pub is_wanted : List Bool → Network → Bool
is_wanted nets n = elim (net_idx n) [
  | none ↦ false
  | some i ↦ elim (get_elem? nets i) [ none ↦ false | some b ↦ b ]
]

-- `while ids.len() < count { ids.insert(filtered[random % filtered.len()]) }`, over the random
-- numbers that are drawn. `none` means that these did not suffice; the program draws on.
unfoldable pub draw_ids : ℕ → List ℤ → List ℕ → List ℤ → Option (List ℤ)
draw_ids count filtered [] ids = if ltb (length ids) count then none else some ids
draw_ids count filtered (rnd ∷ draws) ids =
    let next = draw_ids count filtered draws in
    if ltb (length ids) count
    then elim (get_elem? filtered (rnd % length filtered)) [
      | none ↦ none
      | some id ↦ next (add id ids)
    ]
    else some ids

module _ {F : Type 0} where
  -- `services & requested == requested`
  unfoldable pub offers : ℕ → AddrInfo F → Bool
  offers requested info = bit_and info.services requested == requested

  unfoldable pub id_offers : ℕ → AddrDb F → ℤ → Bool
  id_offers requested db id = elim (get id db.id_to_info) [
    | none ↦ false
    | some info ↦ offers requested info
  ]

  unfoldable pub offering : ℕ → AddrDb F → List ℤ → List ℤ
  offering requested db [] = []
  offering requested db (id ∷ ids) =
      let rest = offering requested db ids in if id_offers requested db id then id ∷ rest else rest

  -- The addresses of the drawn ids whose network is wanted, as a set.
  unfoldable pub collect_ips : List Bool → AddrDb F → List ℤ → List NetAddr
  collect_ips nets db [] = []
  collect_ips nets db (id ∷ ids) =
      let rest = collect_ips nets db ids in
      elim (get id db.id_to_info) [
        | none ↦ rest
        | some info ↦
            if is_wanted nets (service_network info.service)
            then add info.service.addr rest
            else rest
      ]

  -- Without good nodes: the oldest tracked one, or else the first of the new ones as `front_of` has it.
  unfoldable pub fallback_id : (ℤ → List ℤ → ℤ) → AddrDb F → Option ℤ
  fallback_id front_of db = elim db.our_id [
    | id ∷ _ ↦ some id
    | [] ↦ elim db.unk_id [ [] ↦ none | x ∷ s ↦ some (front_of x s) ]
  ]

  unfoldable pub fallback_ips : (ℤ → List ℤ → ℤ) → ℕ → AddrDb F → List NetAddr
  fallback_ips front_of requested db = elim (fallback_id front_of db) [
    | none ↦ []
    | some id ↦ elim (get id db.id_to_info) [
      | none ↦ []
      | some info ↦ if offers requested info then info.service.addr ∷ [] else []
    ]
  ]

  unfoldable pub get_ips :
      (ℤ → List ℤ → ℤ) → List ℕ → ℕ → ℕ → List Bool → AddrDb F → Option (List NetAddr)
  get_ips front_of draws requested n nets db =
      let filtered = offering requested db db.good_id in
      let count = min (max n 1) (length filtered / 2) in
      if length db.good_id == 0
      then some (fallback_ips front_of requested db)
      else if length filtered == 0
      then some []
      else elim (draw_ids count filtered draws []) [
        | none ↦ none
        | some ids ↦ some (collect_ips nets db ids)
      ]

  unfoldable pub snapshot_good_ips :
      (ℤ → List ℤ → ℤ) → List ℕ → ℕ → AddrDb F → Option (List NetAddr)
  snapshot_good_ips front_of draws n db =
      get_ips front_of draws 0 n (true ∷ true ∷ false ∷ false ∷ []) db

  unfoldable pub get_stats : ℤ → AddrDb F → AddrDbStats
  get_stats now db = record {
    n_banned = length db.banned;
    n_avail = length db.id_to_info;
    n_tracked = length db.our_id;
    n_new = length db.unk_id;
    n_good = length db.good_id;
    n_age = elim db.our_id [
      | [] ↦ pos 0
      | id ∷ _ ↦ elim (get id db.id_to_info) [
        | none ↦ pos 0
        | some info ↦ sub_i64 now info.our_last_try
      ]
    ];
  }

module _ {F : Type 0} ⦃fl : Float F⦄ where
  unfoldable pub report_of : AddrDb F → AddrInfo F → AddrReport F
  report_of db info = record {
    service = info.service;
    client_version = info.client_version;
    client_sub_version = info.client_sub_version;
    blocks = info.blocks;
    uptime =
        info.stat_2h.reliability ∷ info.stat_8h.reliability ∷ info.stat_1d.reliability
        ∷ info.stat_1w.reliability ∷ info.stat_1m.reliability ∷ [];
    last_success = info.our_last_success;
    good = is_good info db.wallet_port db.min_peer_proto_version;
    services = info.services;
  }

  unfoldable pub reports_for : AddrDb F → List ℤ → List (AddrReport F)
  reports_for db [] = []
  reports_for db (id ∷ ids) =
      let rest = reports_for db ids in
      elim (get id db.id_to_info) [
        | none ↦ rest
        | some info ↦ if ltb_ℤ (pos 0) info.success then report_of db info ∷ rest else rest
      ]

  unfoldable pub get_all : AddrDb F → List (AddrReport F)
  get_all db = reports_for db db.our_id
