-- ===== src/Db/Consistent.antt =====
-- The invariant of the database, and that every operation keeps it.
use satoxcoin_seeder.Prelude.{
  ℕ, ◌-◌, ◌^◌, ◌≡◌, subst, inl, inr, true, none, some, List, arith, Bool-cases, Option-cases, ℤ,
  pos, negsuc, eq_ℤ, eq_ℤ_iff, ◌≤ℤ◌, ◌<ℤ◌, add_i32, int_eq, Eq,
}
use satoxcoin_seeder.Prelude.Dict.{get, insert, contains, get-insert, contains-add, beq_self}
use satoxcoin_seeder.Net.{Service}
use satoxcoin_seeder.Db.Stat.{AddrInfo}
use satoxcoin_seeder.Db.{AddrDb, service_beq, service_beq_iff, service_eq, new_db, enter}

-- The id has an entry.
abbrev pub Known : {F : Type 0} → AddrDb F → ℤ → Type 0
Known {F} db id = (info : AddrInfo F) × (get id db.id_to_info ≡ some info)

-- The two maps are inverse to one another, ids in use are below the next one, and every id in a
-- queue or a set has an entry.
pub record IsConsistent {F : Type 0} (db : AddrDb F) : Type 0 where
  pub next : pos 0 ≤ℤ db.n_id
  pub by_service :
      (s : Service) (id : ℤ)
      → get s db.ip_to_id ≡ some id
      → (info : AddrInfo F) × (get id db.id_to_info ≡ some info) × (info.service ≡ s)
  pub by_id :
      (id : ℤ) (info : AddrInfo F)
      → get id db.id_to_info ≡ some info
      → get info.service db.ip_to_id ≡ some id
  pub in_use :
      (id : ℤ) (info : AddrInfo F)
      → get id db.id_to_info ≡ some info
      → (pos 0 ≤ℤ id) × (id <ℤ db.n_id)
  pub unk_known : (id : ℤ) → contains id db.unk_id ≡ true → Known db id
  pub our_known : (id : ℤ) → contains id db.our_id ≡ true → Known db id
  pub good_known : (id : ℤ) → contains id db.good_id ≡ true → Known db id

pub new_db-IsConsistent : {F : Type 0} (port : ℕ) (v : ℤ) → IsConsistent (new_db {F = F} port v)
unfolding new_db get contains
new_db-IsConsistent port v = record {
  next = omega arith;
  by_service = λ s id h. absurd (ground arith);
  by_id = λ id info h. absurd (ground arith);
  in_use = λ id info h. absurd (ground arith);
  unk_known = λ id h. absurd (ground arith);
  our_known = λ id h. absurd (ground arith);
  good_known = λ id h. absurd (ground arith);
}

-- There is room for one more id.
abbrev pub HasRoom : {F : Type 0} → AddrDb F → Type 0
HasRoom db = db.n_id <ℤ pos (2 ^ 31 - 1)

next_id :
    (a : ℤ)
    → pos 0 ≤ℤ a
    → a <ℤ pos (2 ^ 31 - 1)
    → (pos 0 ≤ℤ add_i32 a (pos 1)) × (a <ℤ add_i32 a (pos 1))
unfolding add_i32
next_id (pos n) h k = ground arith
next_id (negsuc n) h k = absurd (omega arith)

-- A map with one more entry.
module _ {K V : Type 0} ⦃e : Eq K⦄ where
  get-insert_new :
      (k j : K) (v w : V) (m : List (K × V))
      → get k m ≡ none
      → get j m ≡ some w
      → get j (insert k v m) ≡ some w
  get-insert_new k j v w m h p = ground (arith, get-insert k j v m, e.beq_iff k j)

  get-insert_at : (k : K) (v : V) (m : List (K × V)) → get k (insert k v m) ≡ some v
  get-insert_at k v m = rw (get-insert k k v m, beq_self k)

module _ {F : Type 0} where
  pub not_in_use : (db : AddrDb F) → IsConsistent db → get db.n_id db.id_to_info ≡ none
  not_in_use db c = elim (Option-cases (get db.n_id db.id_to_info)) [
    | inl e ↦ e
    | inr (info, e) ↦ absurd (omega (arith, c.in_use db.n_id info e))
  ]

module _ {F : Type 0} where
  module _ (info : AddrInfo F) (db : AddrDb F) (c : IsConsistent db) (room : HasRoom db)
      (new : get info.service db.ip_to_id ≡ none) where
    enter-Known : (id : ℤ) → Known db id → Known (enter info db) id
    unfolding enter
    enter-Known id (i, e) = (i, get-insert_new db.n_id id info i db.id_to_info (not_in_use db c) e)

    enter_by_service :
        (s : Service) (id : ℤ)
        → get s (enter info db).ip_to_id ≡ some id
        → (i : AddrInfo F) × (get id (enter info db).id_to_info ≡ some i) × (i.service ≡ s)
    unfolding enter
    enter_by_service s id h = elim (Bool-cases (service_beq info.service s)) [
      | inl e ↦
          let here : db.n_id ≡ id = ground (arith, get-insert info.service s db.n_id db.ip_to_id) in
          (
            info,
            rw (← here) (get-insert_at db.n_id info db.id_to_info),
            (service_beq_iff info.service s).0 e,
          )
      | inr e ↦
          let old : get s db.ip_to_id ≡ some id =
            ground (arith, get-insert info.service s db.n_id db.ip_to_id) in
          let (i, p, q) = c.by_service s id old in
          (i, get-insert_new db.n_id id info i db.id_to_info (not_in_use db c) p, q)
    ]

    enter_by_id :
        (id : ℤ) (i : AddrInfo F)
        → get id (enter info db).id_to_info ≡ some i
        → (get i.service (enter info db).ip_to_id ≡ some id)
          × (pos 0 ≤ℤ id)
          × (id <ℤ (enter info db).n_id)
    unfolding enter
    enter_by_id id i h = elim (Bool-cases (eq_ℤ db.n_id id)) [
      | inl e ↦
          let here : db.n_id ≡ id = (eq_ℤ_iff db.n_id id).0 e in
          let same : info ≡ i = ground (arith, get-insert db.n_id id info db.id_to_info) in
          let at : get i.service (insert info.service db.n_id db.ip_to_id) ≡ some db.n_id =
            subst (λ t. get t.service (insert info.service db.n_id db.ip_to_id) ≡ some db.n_id) same
              (get-insert_at info.service db.n_id db.ip_to_id) in
          let (low, high) = next_id db.n_id c.next room in rw (← here) (at, c.next, high)
      | inr e ↦
          let old : get id db.id_to_info ≡ some i =
            ground (arith, get-insert db.n_id id info db.id_to_info) in
          let (low, high) = next_id db.n_id c.next room in
          let (zero_le, below) = c.in_use id i old in
          (
            get-insert_new info.service i.service db.n_id id db.ip_to_id new (c.by_id id i old),
            zero_le,
            omega (arith, high, below),
          )
    ]

    enter_unk-Known :
        (id : ℤ) → contains id (enter info db).unk_id ≡ true → Known (enter info db) id
    unfolding enter
    enter_unk-Known id h = elim (Bool-cases (eq_ℤ db.n_id id)) [
      | inl e ↦
          let here : db.n_id ≡ id = (eq_ℤ_iff db.n_id id).0 e in
          (info, rw (← here) (get-insert_at db.n_id info db.id_to_info))
      | inr e ↦ enter-Known id (c.unk_known id (ground (arith, contains-add db.n_id id db.unk_id)))
    ]

    pub enter-IsConsistent : IsConsistent (enter info db)
    unfolding enter
    enter-IsConsistent = record {
      next = (next_id db.n_id c.next room).0;
      by_service = enter_by_service;
      by_id = λ id i h. (enter_by_id id i h).0;
      in_use = λ id i h. ((enter_by_id id i h).1, (enter_by_id id i h).2);
      unk_known = enter_unk-Known;
      our_known = λ id h. enter-Known id (c.our_known id h);
      good_known = λ id h. enter-Known id (c.good_known id h);
    }
