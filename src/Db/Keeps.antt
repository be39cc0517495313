-- ===== src/Db/Keeps.antt =====
-- The operations that change entries in place, queues and sets, or take an entry out.
use satoxcoin_seeder.Prelude.{
  ℕ, ◌≡◌, refl, ap, sym, ◌∙◌, inl, inr, Bool, true, false, not, ◌&&◌, ◌||◌, Option, none, some,
  List, [], ◌∷◌, if◌then◌else◌, arith, Bool-cases, Option-cases, ℤ, pos, ltb_ℤ, eq_ℤ, eq_ℤ_iff,
  int_eq,
}
use satoxcoin_seeder.Prelude.Dict.{get, insert, remove, alter, contains, get-insert, get-alter}
use mathlib.Core.Option
use satoxcoin_seeder.Net.{Service, service_is_routable}
use satoxcoin_seeder.Db.Stat.{AddrInfo, Float, new_info}
use satoxcoin_seeder.Db.{
  AddrDb, service_eq, admit, add_raw, add_service, touch_info, reset_ignores, reset_infos,
}
use satoxcoin_seeder.Db.Consistent.{IsConsistent, Known, HasRoom, enter-IsConsistent}

-- The service of the entry under an id.
abbrev pub entry_service : {F : Type 0} → Option (AddrInfo F) → Option Service
entry_service none = none
entry_service (some i) = some i.service

abbrev pub service_at : {F : Type 0} → ℤ → List (ℤ × AddrInfo F) → Option Service
service_at j m = entry_service (get j m)

-- A database with the same ids for the same services, and queues of known ids.
pub record SameIds {F : Type 0} (db db' : AddrDb F) : Type 0 where
  pub next_same : db'.n_id ≡ db.n_id
  pub ids_same : db'.ip_to_id ≡ db.ip_to_id
  pub services_same : (j : ℤ) → service_at j db'.id_to_info ≡ service_at j db.id_to_info
  pub unk_old : (id : ℤ) → contains id db'.unk_id ≡ true → Known db id
  pub our_old : (id : ℤ) → contains id db'.our_id ≡ true → Known db id
  pub good_old : (id : ℤ) → contains id db'.good_id ≡ true → Known db id

module _ {F : Type 0} where
  carry :
      (m m' : List (ℤ × AddrInfo F)) (j : ℤ) (i : AddrInfo F)
      → service_at j m' ≡ service_at j m
      → get j m ≡ some i
      → (i' : AddrInfo F) × (get j m' ≡ some i') × (i'.service ≡ i.service)
  carry m m' j i e h = elim (Option-cases (get j m')) [
    | inl f ↦ absurd (ground arith)
    | inr (i', f) ↦ (i', f, ground arith)
  ]

  module _ (db db' : AddrDb F) (c : IsConsistent db) (s : SameIds db db') where
    still-Known : (id : ℤ) → Known db id → Known db' id
    still-Known id (i, e) =
        let (i', e', _) = carry db.id_to_info db'.id_to_info id i (s.services_same id) e in (i', e')

    pub SameIds-IsConsistent : IsConsistent db'
    SameIds-IsConsistent = record {
      next = rw s.next_same c.next;
      by_service = λ t id h.
          let (i, e, same) = c.by_service t id (rw s.ids_same at h) in
          let (i', e', same') = carry db.id_to_info db'.id_to_info id i (s.services_same id) e in
          (i', e', same' ∙ same);
      by_id = λ id i' h.
          let (i, e, same) =
            carry db'.id_to_info db.id_to_info id i' (sym (s.services_same id)) h in
          rw (s.ids_same, ← same) (c.by_id id i e);
      in_use = λ id i' h.
          let (i, e, _) = carry db'.id_to_info db.id_to_info id i' (sym (s.services_same id)) h in
          rw s.next_same (c.in_use id i e);
      unk_known = λ id h. still-Known id (s.unk_old id h);
      our_known = λ id h. still-Known id (s.our_old id h);
      good_known = λ id h. still-Known id (s.good_old id h);
    }

  -- Writing or changing the entry of an id, with the service kept.
  pub service_at-insert :
      (id j : ℤ) (old new : AddrInfo F) (m : List (ℤ × AddrInfo F))
      → get id m ≡ some old
      → new.service ≡ old.service
      → service_at j (insert id new m) ≡ service_at j m
  service_at-insert id j old new m h e = elim (Bool-cases (eq_ℤ id j)) [
    | inl f ↦
        let here : id ≡ j = (eq_ℤ_iff id j).0 f in
        rw (get-insert id j new m, f, ← here, h) (ap some e)
    | inr f ↦ rw (get-insert id j new m, f)
  ]

  service_at-alter :
      (id j : ℤ) (f : AddrInfo F → AddrInfo F) (m : List (ℤ × AddrInfo F))
      → ((i : AddrInfo F) → (f i).service ≡ i.service)
      → service_at j (alter id f m) ≡ service_at j m
  service_at-alter id j f m keep = rw (get-alter id j f m) (go (eq_ℤ id j) (get j m))
    where
      go :
          (b : Bool) (o : Option (AddrInfo F))
          → entry_service (if b then Option.map f o else o) ≡ entry_service o
      go true none = refl
      go true (some i) = ap some (keep i)
      go false o = refl

  service_at-reset_infos :
      (j : ℤ) (m : List (ℤ × AddrInfo F)) → service_at j (reset_infos m) ≡ service_at j m
  unfolding reset_infos get
  service_at-reset_infos j [] = refl
  service_at-reset_infos j ((k, i) ∷ m) = elim (Bool-cases (eq_ℤ k j)) [
    | inl e ↦ rw e
    | inr e ↦ rw e (service_at-reset_infos j m)
  ]

  -- Resetting the times of being ignored keeps the database consistent.
  pub reset_ignores-IsConsistent :
      (db : AddrDb F) → IsConsistent db → IsConsistent (reset_ignores db)
  unfolding reset_ignores
  reset_ignores-IsConsistent db c = SameIds-IsConsistent db (reset_ignores db) c (record {
    next_same = refl;
    ids_same = refl;
    services_same = λ j. service_at-reset_infos j db.id_to_info;
    unk_old = c.unk_known;
    our_old = c.our_known;
    good_old = c.good_known;
  })

  touch_info-service :
      (time : ℕ) (force : Bool) (i : AddrInfo F) → (touch_info time force i).service ≡ i.service
  unfolding touch_info
  touch_info-service time force i = ground arith

  pub touched-IsConsistent :
      (id : ℤ) (f : AddrInfo F → AddrInfo F) (db : AddrDb F)
      → ((i : AddrInfo F) → (f i).service ≡ i.service)
      → IsConsistent db
      → IsConsistent (record db { id_to_info = alter id f db.id_to_info })
  touched-IsConsistent id f db keep c =
      SameIds-IsConsistent db (record db { id_to_info = alter id f db.id_to_info }) c
        (record {
          next_same = refl;
          ids_same = refl;
          services_same = λ j. service_at-alter id j f db.id_to_info keep;
          unk_old = c.unk_known;
          our_old = c.our_known;
          good_old = c.good_known;
        })

  -- Changes outside the maps, the queues and the sets.
  pub unbanned-IsConsistent :
      (db : AddrDb F) (banned : List (Service × ℤ))
      → IsConsistent db
      → IsConsistent (record db { banned = banned })
  unbanned-IsConsistent db banned c =
      SameIds-IsConsistent db (record db { banned = banned }) c
        (record {
          next_same = refl;
          ids_same = refl;
          services_same = λ j. refl;
          unk_old = c.unk_known;
          our_old = c.our_known;
          good_old = c.good_known;
        })

module _ {F : Type 0} ⦃fl : Float F⦄ where
  new_info-service : (s : Service) (i : AddrInfo F) → i ≡ new_info s → i.service ≡ s
  unfolding new_info
  new_info-service s i e = rw e

  admit-IsConsistent :
      (s : Service) (services time : ℕ) (force : Bool) (db : AddrDb F)
      → IsConsistent db
      → HasRoom db
      → IsConsistent (admit s services time force db)
  unfolding admit
  admit-IsConsistent s services time force db c room = elim (Option-cases (get s db.ip_to_id)) [
    | inl e ↦
        rw (e, admit)
          (enter-IsConsistent (record (new_info s) { services = services; last_try = pos time }) db
            c room (rw (new_info-service s (new_info s) refl) e))
    | inr (id, e) ↦
        rw (e, admit)
          (touched-IsConsistent id (touch_info time force) db (touch_info-service time force) c)
  ]

  -- Announcing a service, by force or not, keeps the database consistent, on every branch, if
  -- there is room for one more id.
  pub add_raw-IsConsistent :
      (s : Service) (services time : ℕ) (force : Bool) (now : ℤ) (db : AddrDb F)
      → IsConsistent db
      → HasRoom db
      → IsConsistent (add_raw s services time force now db)
  unfolding add_raw
  add_raw-IsConsistent s services time force now db c room =
      elim (Bool-cases (not force && not (service_is_routable s))) [
        | inl e ↦ rw e c
        | inr e ↦ rw e (elim (Option-cases (get s db.banned)) [
          | inl f ↦ rw (f, add_raw) (admit-IsConsistent s services time force db c room)
          | inr (ban, f) ↦
              rw (f, add_raw)
                (elim (Bool-cases (force || (ltb_ℤ ban now && ltb_ℤ ban (pos time)))) [
                  | inl g ↦ rw g (
                      admit-IsConsistent s services time force
                        (record db { banned = remove s db.banned })
                        (unbanned-IsConsistent db (remove s db.banned) c) room)
                  | inr g ↦ rw g c
                ])
        ])
      ]

  -- Adding a service without an announcement keeps the database consistent, on every branch, if
  -- there is room for one more id.
  pub add_service-IsConsistent :
      (s : Service) (force : Bool) (db : AddrDb F)
      → IsConsistent db
      → HasRoom db
      → IsConsistent (add_service s force db)
  unfolding add_service
  add_service-IsConsistent s force db c room =
      elim (Bool-cases (not force && not (service_is_routable s))) [
        | inl e ↦ rw e c
        | inr e ↦ rw e (elim (Option-cases (get s db.ip_to_id)) [
          | inl f ↦
              rw (f, add_service)
                (enter-IsConsistent (new_info s) db c room
                  (rw (new_info-service s (new_info s) refl) f))
          | inr (id, f) ↦ rw (f, add_service) c
        ])
      ]
