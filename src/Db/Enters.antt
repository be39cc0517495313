-- ===== src/Db/Enters.antt =====
-- `add` and `add_service` put a new id among the untested ones, and leave the others where they are.
use satoxcoin_seeder.Prelude.{
  ℕ, ◌+◌, ◌≤◌, ◌≤ℤ◌, pos_part, add_i32, ◌≡◌, refl, sym, ◌∙◌, inl, inr, Bool, not, ◌&&◌, ◌||◌, none,
  some, List, [], ◌∷◌, arith, Bool-cases, Option-cases, if_holds, ℤ, pos, ltb_ℤ, eq_ℤ, eq_ℤ_iff,
  int_eq,
}
use satoxcoin_seeder.Prelude.Dict.{get, remove, alter, get-insert}
use satoxcoin_seeder.Net.{Service, service_is_routable}
use satoxcoin_seeder.Db.{
  AddrDb, service_beq_iff, service_eq, enter, admit, add_raw, add_service, touch_info,
  reset_ignores, reset_infos,
}
use satoxcoin_seeder.Db.Stat.{AddrInfo, Float, new_info}
use satoxcoin_seeder.Db.Consistent.{IsConsistent, not_in_use}
use satoxcoin_seeder.Db.Keeps.{unbanned-IsConsistent}
use satoxcoin_seeder.Db.Held.{one_if, Placed, count-add, one_if-alter, one_if-insert}

one_more : (a : ℤ) → pos 0 ≤ℤ a → pos_part (add_i32 a (pos 1)) ≤ pos_part a + 1
unfolding add_i32
one_more a h = ground arith

module _ {F : Type 0} where
  -- What an operation may do to the places of the ids: new ones may come, at no place outside the
  -- queues, and a service that has an id keeps it.
  pub record Grows (db db' : AddrDb F) : Type 0 where
    pub places : (o : List ℤ) → Placed db o → Placed db' o
    pub next : pos_part db'.n_id ≤ pos_part db.n_id + 1
    pub stays : (s : Service) (id : ℤ) → get s db.ip_to_id ≡ some id → get s db'.ip_to_id ≡ some id

  pub Grows-same :
      (db : AddrDb F) (banned : List (Service × ℤ)) → Grows db (record db { banned = banned })
  Grows-same db banned = record { places = λ o p. p; next = omega arith; stays = λ s id h. h }

  unbanned :
      (banned : List (Service × ℤ)) (db db' : AddrDb F)
      → Grows (record db { banned = banned }) db'
      → Grows db db'
  unbanned banned db db' g = record { places = g.places; next = g.next; stays = g.stays }

  entered :
      (info : AddrInfo F) (db : AddrDb F) (o : List ℤ)
      → IsConsistent db
      → Placed db o
      → Placed (enter info db) o
  unfolding enter
  entered info db o c p j =
      let new = not_in_use db c in
      let free = p db.n_id in
      let more = count-add db.n_id j db.unk_id (ground (arith, free, new)) in
      let kept = one_if-insert db.n_id j info db.id_to_info in
      elim (Bool-cases (eq_ℤ db.n_id j)) [
        | inl f ↦
            let here : db.n_id ≡ j = (eq_ℤ_iff db.n_id j).0 f in
            rw (kept, more, f, ← here) (ground (arith, free, new))
        | inr f ↦ rw (kept, more, f) (ground (arith, p j))
      ]

  pub enter-Grows :
      (info : AddrInfo F) (db : AddrDb F)
      → IsConsistent db
      → get info.service db.ip_to_id ≡ none
      → Grows db (enter info db)
  unfolding enter
  enter-Grows info db c new = record {
    places = λ o p. entered info db o c p;
    next = one_more db.n_id c.next;
    stays = λ s id h.
        ground
          (arith, get-insert info.service s db.n_id db.ip_to_id, service_beq_iff info.service s);
  }

  pub altered-Grows :
      (id : ℤ) (f : AddrInfo F → AddrInfo F) (db : AddrDb F)
      → Grows db (record db { id_to_info = alter id f db.id_to_info })
  altered-Grows id f db = record {
    places = λ o p j. p j ∙ sym (one_if-alter id j f db.id_to_info);
    next = omega arith;
    stays = λ s i h. h;
  }

  one_if-reset_infos :
      (j : ℤ) (m : List (ℤ × AddrInfo F)) → one_if (get j (reset_infos m)) ≡ one_if (get j m)
  unfolding reset_infos get
  one_if-reset_infos j [] = refl
  one_if-reset_infos j ((k, i) ∷ m) = ground (arith, one_if-reset_infos j m)

  pub reset_ignores-Grows : (db : AddrDb F) → Grows db (reset_ignores db)
  unfolding reset_ignores
  reset_ignores-Grows db = record {
    places = λ o p j. p j ∙ sym (one_if-reset_infos j db.id_to_info);
    next = omega arith;
    stays = λ s i h. h;
  }

new_info-service : (F : Type 0) ⦃fl : Float F⦄ (s : Service) → (new_info {F = F} s).service ≡ s
unfolding new_info
new_info-service F s = refl

module _ {F : Type 0} ⦃fl : Float F⦄ where
  admit-Grows :
      (s : Service) (services time : ℕ) (force : Bool) (db : AddrDb F)
      → IsConsistent db
      → Grows db (admit s services time force db)
  unfolding admit
  admit-Grows s services time force db c = elim (Option-cases (get s db.ip_to_id)) [
    | inl e ↦
        rw (e, admit)
          (enter-Grows (record (new_info s) { services = services; last_try = pos time }) db c
            (rw (new_info-service F s) e))
    | inr (id, e) ↦ rw (e, admit) (altered-Grows id (touch_info time force) db)
  ]

  pub add_raw-Grows :
      (s : Service) (services time : ℕ) (force : Bool) (now : ℤ) (db : AddrDb F)
      → IsConsistent db
      → Grows db (add_raw s services time force now db)
  unfolding add_raw
  add_raw-Grows s services time force now db c =
      if_holds (Grows db) db _ (not force && not (service_is_routable s)) (Grows-same db db.banned)
        (elim (Option-cases (get s db.banned)) [
          | inl e ↦ rw (e, add_raw) (admit-Grows s services time force db c)
          | inr (ban, e) ↦
              rw (e, add_raw)
                (if_holds (Grows db)
                  (admit s services time force (record db { banned = remove s db.banned })) db
                  (force || (ltb_ℤ ban now && ltb_ℤ ban (pos time)))
                  (unbanned (remove s db.banned) db _ (
                    admit-Grows s services time force (record db { banned = remove s db.banned })
                      (unbanned-IsConsistent db (remove s db.banned) c)))
                  (Grows-same db db.banned))
        ])

  pub add_service-Grows :
      (s : Service) (force : Bool) (db : AddrDb F)
      → IsConsistent db
      → Grows db (add_service s force db)
  unfolding add_service
  add_service-Grows s force db c =
      if_holds (Grows db) db _ (not force && not (service_is_routable s)) (Grows-same db db.banned)
        (elim (Option-cases (get s db.ip_to_id)) [
          | inl e ↦
              rw (e, add_service) (enter-Grows (new_info s) db c (rw (new_info-service F s) e))
          | inr (id, e) ↦ rw (e, add_service) (Grows-same db db.banned)
        ])
