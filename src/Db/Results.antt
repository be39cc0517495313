-- ===== src/Db/Results.antt =====
-- Recording the results of handshakes keeps the database consistent.
use satoxcoin_seeder.Prelude.{
  ◌≡◌, sym, subst, inl, inr, Bool, true, false, [], ◌∷◌, ◌++◌, if◌then◌else◌, arith, Bool-cases,
  Option-cases, ℤ, pos, ltb_ℤ, int_eq, add_i64,
}
use satoxcoin_seeder.Prelude.Dict.{get, remove, contains, discard}
use satoxcoin_seeder.Db.Stat.{
  AddrInfo, Float, update_info, extend_ignore, update_stats, count_attempt,
}
use satoxcoin_seeder.Db.{
  AddrDb, ServiceResult, service_eq, lookup_id, good_info, good_entry, good, ban_for, expel, demote,
  bad_entry, bad, record_result,
}
use satoxcoin_seeder.Db.Consistent.{IsConsistent, Known}
use satoxcoin_seeder.Db.Queues.{
  contains-push, contains-discard_imp, discarded, maybe_added, lookup_known, insert_known,
  forget-IsConsistent, push-IsConsistent, dirty-IsConsistent, rewritten-IsConsistent,
}
use satoxcoin_seeder.Db.Expel.{expel-IsConsistent}

module _ {F : Type 0} ⦃fl : Float F⦄ where
  pub update_info-service :
      (good : Bool) (now : ℤ) (i : AddrInfo F) → (update_info good now i).service ≡ i.service
  unfolding update_info extend_ignore update_stats count_attempt
  update_info-service good now i = ground arith

  good_info-service :
      (res : ServiceResult) (now : ℤ) (i : AddrInfo F) → (good_info res now i).service ≡ i.service
  unfolding good_info
  good_info-service res now i = update_info-service true now _

module _ {F : Type 0} ⦃fl : Float F⦄ where
  good_entry-IsConsistent :
      (res : ServiceResult) (now id : ℤ) (db : AddrDb F)
      → IsConsistent db
      → IsConsistent (good_entry res now id db)
  unfolding good_entry
  good_entry-IsConsistent res now id db c = elim (Option-cases (get id db.id_to_info)) [
    | inl e ↦ rw (e, good_entry) c
    | inr (info, e) ↦
        rw (e, good_entry)
          (rewritten-IsConsistent db c id info (good_info res now info) _ db.our_id e
            (good_info-service res now info) (λ j h. maybe_added _ id j db.good_id h)
            (λ j h. inl h))
  ]

  good_entry-Known :
      (res : ServiceResult) (now id j : ℤ) (db : AddrDb F)
      → Known db j
      → Known (good_entry res now id db) j
  unfolding good_entry
  good_entry-Known res now id j db (i, k) = elim (Option-cases (get id db.id_to_info)) [
    | inl e ↦ rw (e, good_entry) (i, k)
    | inr (info, e) ↦
        rw (e, good_entry) (insert_known id j (good_info res now info) i db.id_to_info k)
  ]

  good-IsConsistent :
      (res : ServiceResult) (now : ℤ) (db : AddrDb F)
      → IsConsistent db
      → IsConsistent (good res now db)
  unfolding good
  good-IsConsistent res now db c = elim (Bool-cases (ltb_ℤ (lookup_id res.service db) (pos 0))) [
    | inl e ↦ rw e c
    | inr e ↦
        let id = lookup_id res.service db in
        let db1 = record db {
          unk_id = discard id db.unk_id;
          banned = remove res.service db.banned;
        } in
        let (info, known, _) = lookup_known db c res.service e in
        rw e (
          push-IsConsistent (good_entry res now id db1)
            (good_entry-IsConsistent res now id db1
              (forget-IsConsistent db c id (remove res.service db.banned)))
            id _ (good_entry-Known res now id id db1 (info, known)))
  ]

  bad_entry-IsConsistent :
      (res : ServiceResult) (now id : ℤ) (db : AddrDb F)
      → IsConsistent db
      → contains id db.unk_id ≡ false
      → contains id db.our_id ≡ false
      → IsConsistent (bad_entry res now id db)
  unfolding bad_entry
  bad_entry-IsConsistent res now id db c uf of = elim (Option-cases (get id db.id_to_info)) [
    | inl e ↦ rw (e, bad_entry) c
    | inr (info, e) ↦
        let info' = update_info false now info in
        let ban = ban_for res db.min_peer_proto_version info' in
        let keep = update_info-service false now info in
        rw (e, bad_entry)
          (elim (Bool-cases (ltb_ℤ (pos 0) ban)) [
            | inl f ↦ rw f (
                subst (λ t. IsConsistent (expel t (add_i64 ban now) id db)) (sym keep)
                  (expel-IsConsistent db c id info e uf of (add_i64 ban now)))
            | inr f ↦ rw f (
                unfold demote in
                rewritten-IsConsistent db c id info info' (discard id db.good_id)
                  (db.our_id ++ (id ∷ [])) e keep
                  (λ j h. inl (contains-discard_imp id j db.good_id h))
                  (λ j h. contains-push id j db.our_id h))
          ])
  ]

  bad-IsConsistent :
      (res : ServiceResult) (now : ℤ) (db : AddrDb F)
      → IsConsistent db
      → contains (lookup_id res.service db) db.our_id ≡ false
      → IsConsistent (bad res now db)
  unfolding bad
  bad-IsConsistent res now db c of = elim (Bool-cases (ltb_ℤ (lookup_id res.service db) (pos 0))) [
    | inl e ↦ rw e c
    | inr e ↦
        let id = lookup_id res.service db in
        let db1 = record db { unk_id = discard id db.unk_id } in
        rw e (
          dirty-IsConsistent (bad_entry res now id db1) (
            bad_entry-IsConsistent res now id db1 (forget-IsConsistent db c id db.banned)
              (discarded id db.unk_id) of))
  ]

  either_way :
      {x y : AddrDb F} (b : Bool)
      → IsConsistent x
      → IsConsistent y
      → IsConsistent (if b then x else y)
  either_way true h k = h
  either_way false h k = k

  -- Recording a result keeps the database consistent, if the node is in no queue: `get_one` takes
  -- it out of its queue when it hands it out. (A failed node that is banned while its id is still
  -- queued would leave an id without an entry.)
  pub record_result-IsConsistent :
      (res : ServiceResult) (now : ℤ) (db : AddrDb F)
      → IsConsistent db
      → contains (lookup_id res.service db) db.our_id ≡ false
      → IsConsistent (record_result res now db)
  unfolding record_result
  record_result-IsConsistent res now db c free =
      either_way res.good (good-IsConsistent res now db c) (bad-IsConsistent res now db c free)
