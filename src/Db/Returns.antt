-- ===== src/Db/Returns.antt =====
-- `result_many` puts the ids of tested nodes back into a queue, or forgets them with their entry.
use satoxcoin_seeder.Prelude.{
  ◌+◌, ◌≡◌, refl, ap, ◌∙◌, inl, inr, true, false, some, List, [], ◌∷◌, ◌++◌, if◌then◌else◌, arith,
  Bool-cases, Option-cases, if_holds, ℤ, pos, ltb_ℤ, eq_ℤ, eq_ℤ_iff, int_eq, add_i32, add_i64,
}
use satoxcoin_seeder.Prelude.Dict.{get, remove, discard, beq_self, get-remove}
use satoxcoin_seeder.Net.{Service}
use satoxcoin_seeder.Db.{
  AddrDb, ServiceResult, service_beq, service_eq, lookup_id, dirty, good, good_info, good_entry,
  bad, bad_entry, expel, demote, ban_for, record_result,
}
use satoxcoin_seeder.Db.Stat.{AddrInfo, Float, update_info}
use satoxcoin_seeder.Db.Consistent.{IsConsistent, Known}
use satoxcoin_seeder.Db.Queues.{lookup_known}
use satoxcoin_seeder.Db.Results.{update_info-service}
use satoxcoin_seeder.Db.Held.{
  count, one_if, Placed, count-push, count-discard, one_if-insert, one_if-remove,
}

module _ {F : Type 0} ⦃fl : Float F⦄ where
  -- An id in someone's hands is in no queue, and has an entry.
  pub held-Known :
      (id : ℤ) (o : List ℤ) (db : AddrDb F)
      → Placed db (id ∷ o)
      → (count id db.our_id ≡ 0) × (count id db.unk_id ≡ 0) × (count id o ≡ 0) × Known db id
  unfolding count
  held-Known id o db p = elim (Option-cases (get id db.id_to_info)) [
    | inl e ↦ absurd (ground (arith, p id, beq_self id))
    | inr (info, e) ↦
        let n = p id in let s = beq_self id in (ground arith, ground arith, ground arith, (info, e))
  ]

  good_entry-Placed :
      (res : ServiceResult) (now id : ℤ) (o : List ℤ) (db : AddrDb F)
      → Placed db o
      → Placed (good_entry res now id db) o
  unfolding good_entry
  good_entry-Placed res now id o db p = elim (Option-cases (get id db.id_to_info)) [
    | inl e ↦ rw (e, good_entry) p
    | inr (info, e) ↦
        rw (e, good_entry)
          (λ j. rw (one_if-insert id j (good_info res now info) db.id_to_info) (kept j info e))
  ]
    where
      kept :
          (j : ℤ) (info : AddrInfo F)
          → get id db.id_to_info ≡ some info
          → count j db.our_id + count j db.unk_id + count j o
            ≡ (if eq_ℤ id j then 1 else one_if (get j db.id_to_info))
      kept j info e = elim (Bool-cases (eq_ℤ id j)) [
        | inl f ↦ ground (arith, p j, eq_ℤ_iff id j)
        | inr f ↦ rw f (p j)
      ]

  pub not_negative :
      (id : ℤ) (o : List ℤ) (db : AddrDb F)
      → IsConsistent db
      → Placed db (id ∷ o)
      → ltb_ℤ id (pos 0) ≡ true
      → ⊥
  not_negative id o db c p e =
      let (_, _, _, (info, k)) = held-Known id o db p in ground (arith, c.in_use id info k)

  forgotten :
      (id : ℤ) (o : List ℤ) (db : AddrDb F)
      → Placed db (id ∷ o)
      → (j : ℤ)
      → count j db.our_id + count j (discard id db.unk_id) + count j (id ∷ o)
        ≡ one_if (get j db.id_to_info)
  forgotten id o db p j =
      let (_, no_unk, _, _) = held-Known id o db p in
      ground (arith, p j, no_unk, count-discard id j db.unk_id, eq_ℤ_iff id j)

  pushed :
      (id : ℤ) (o : List ℤ) (db : AddrDb F) (n : ℤ)
      → Placed db (id ∷ o)
      → Placed (record db { n_dirty = n; our_id = db.our_id ++ (id ∷ []) }) o
  unfolding count
  pushed id o db n p j = omega (arith, p j, count-push j id db.our_id)

  -- A node in hand that answered goes to the end of the queue of tracked nodes.
  good-Placed :
      (res : ServiceResult) (now : ℤ) (o : List ℤ) (db : AddrDb F)
      → IsConsistent db
      → Placed db (lookup_id res.service db ∷ o)
      → Placed (good res now db) o
  unfolding good
  good-Placed res now o db c p = elim (Bool-cases (ltb_ℤ (lookup_id res.service db) (pos 0))) [
    | inl e ↦ absurd (not_negative (lookup_id res.service db) o db c p e)
    | inr e ↦
        let id = lookup_id res.service db in
        let db1 = record db {
          unk_id = discard id db.unk_id;
          banned = remove res.service db.banned;
        } in
        rw e (
          pushed id o (good_entry res now id db1)
            (add_i32 (good_entry res now id db1).n_dirty (pos 1))
            (good_entry-Placed res now id (id ∷ o) db1 (forgotten id o db p)))
  ]

  expelled :
      (s : Service) (till id : ℤ) (o : List ℤ) (db : AddrDb F)
      → Placed db (id ∷ o)
      → Placed (expel s till id db) o
  unfolding expel count
  expelled s till id o db p j =
      let (no_our, no_unk, no_o, _) = held-Known id o db p in
      let at = p j in
      let left = one_if-remove id j db.id_to_info in
      elim (Bool-cases (eq_ℤ id j)) [
        | inl f ↦
            let here : id ≡ j = (eq_ℤ_iff id j).0 f in
            rw (left, f, ← here) (omega (arith, no_our, no_unk, no_o))
        | inr f ↦ rw (left, f) (ground (arith, at, f))
      ]

  demoted :
      (info : AddrInfo F) (id : ℤ) (o : List ℤ) (db : AddrDb F)
      → Placed db (id ∷ o)
      → Placed (demote info id db) o
  unfolding demote count
  demoted info id o db p j =
      let (no_our, no_unk, no_o, (i, k)) = held-Known id o db p in
      let at = p j in
      let more = count-push j id db.our_id in
      let kept = one_if-insert id j info db.id_to_info in
      elim (Bool-cases (eq_ℤ id j)) [
        | inl f ↦
            let here : id ≡ j = (eq_ℤ_iff id j).0 f in
            rw (kept, more, f, ← here) (omega (arith, no_our, no_unk, no_o))
        | inr f ↦ rw (kept, more, f) (ground (arith, at, f))
      ]

  -- One that failed is banned and loses its entry, or goes to the end of that queue.
  bad_entry-Placed :
      (res : ServiceResult) (now id : ℤ) (o : List ℤ) (db : AddrDb F)
      → Placed db (id ∷ o)
      → Placed (bad_entry res now id db) o
  unfolding bad_entry
  bad_entry-Placed res now id o db p = elim (Option-cases (get id db.id_to_info)) [
    | inl e ↦ absurd (ground (arith, (held-Known id o db p).3.1))
    | inr (info, e) ↦
        let info' = update_info false now info in
        let ban = ban_for res db.min_peer_proto_version info' in
        rw (e, bad_entry)
          (elim (Bool-cases (ltb_ℤ (pos 0) ban)) [
            | inl f ↦ rw f (expelled info'.service (add_i64 ban now) id o db p)
            | inr f ↦ rw f (demoted info' id o db p)
          ])
  ]

  bad-Placed :
      (res : ServiceResult) (now : ℤ) (o : List ℤ) (db : AddrDb F)
      → IsConsistent db
      → Placed db (lookup_id res.service db ∷ o)
      → Placed (bad res now db) o
  unfolding bad dirty
  bad-Placed res now o db c p = elim (Bool-cases (ltb_ℤ (lookup_id res.service db) (pos 0))) [
    | inl e ↦ absurd (not_negative (lookup_id res.service db) o db c p e)
    | inr e ↦
        let id = lookup_id res.service db in
        rw e (
          bad_entry-Placed res now id o (record db { unk_id = discard id db.unk_id })
            (forgotten id o db p))
  ]

  pub record_result-Placed :
      (res : ServiceResult) (now : ℤ) (o : List ℤ) (db : AddrDb F)
      → IsConsistent db
      → Placed db (lookup_id res.service db ∷ o)
      → Placed (record_result res now db) o
  unfolding record_result
  record_result-Placed res now o db c p =
      if_holds (λ x. Placed x o) (good res now db) (bad res now db) res.good
        (good-Placed res now o db c p) (bad-Placed res now o db c p)

  -- The id under which another service is known stays.
  good_entry-ip_to_id :
      (res : ServiceResult) (now id : ℤ) (db : AddrDb F)
      → (good_entry res now id db).ip_to_id ≡ db.ip_to_id
  unfolding good_entry
  good_entry-ip_to_id res now id db = elim (Option-cases (get id db.id_to_info)) [
    | inl e ↦ rw (e, good_entry) refl
    | inr (info, e) ↦ rw (e, good_entry) refl
  ]

  pub good-ip_to_id :
      (res : ServiceResult) (now : ℤ) (db : AddrDb F) → (good res now db).ip_to_id ≡ db.ip_to_id
  unfolding good
  good-ip_to_id res now db = elim (Bool-cases (ltb_ℤ (lookup_id res.service db) (pos 0))) [
    | inl e ↦ rw e refl
    | inr e ↦ rw e (good_entry-ip_to_id res now (lookup_id res.service db) _)
  ]

  bad_entry-get :
      (res : ServiceResult) (now id : ℤ) (s : Service) (db : AddrDb F)
      → ((info : AddrInfo F) → get id db.id_to_info ≡ some info → info.service ≡ res.service)
      → service_beq res.service s ≡ false
      → get s (bad_entry res now id db).ip_to_id ≡ get s db.ip_to_id
  unfolding bad_entry expel demote
  bad_entry-get res now id s db known ne = elim (Option-cases (get id db.id_to_info)) [
    | inl e ↦ rw (e, bad_entry) refl
    | inr (info, e) ↦
        let info' = update_info false now info in
        let ban = ban_for res db.min_peer_proto_version info' in
        let same : info'.service ≡ res.service =
          update_info-service false now info ∙ known info e in
        rw (e, bad_entry)
          (elim (Bool-cases (ltb_ℤ (pos 0) ban)) [
            | inl f ↦ rw (f, same, get-remove res.service s db.ip_to_id, ne) refl
            | inr f ↦ rw f refl
          ])
  ]

  pub record_result-get :
      (res : ServiceResult) (now : ℤ) (s : Service) (db : AddrDb F)
      → IsConsistent db
      → service_beq res.service s ≡ false
      → get s (record_result res now db).ip_to_id ≡ get s db.ip_to_id
  unfolding record_result bad dirty
  record_result-get res now s db c ne =
      if_holds (λ x. get s x.ip_to_id ≡ get s db.ip_to_id) (good res now db) (bad res now db)
        res.good (ap (λ m. get s m) (good-ip_to_id res now db))
        (elim (Bool-cases (ltb_ℤ (lookup_id res.service db) (pos 0))) [
          | inl e ↦ rw e refl
          | inr e ↦
              let (i, k, same) = lookup_known db c res.service e in
              rw e (
                bad_entry-get res now (lookup_id res.service db) s
                  (record db { unk_id = discard (lookup_id res.service db) db.unk_id })
                  (λ info h. ground (arith, k, h, same)) ne)
        ])
