-- ===== src/Db/Turns.antt =====
-- Handing out nodes keeps the database consistent.
use satoxcoin_seeder.Prelude.{
  ℕ, zero, suc, ◌+◌, ◌%◌, ◌≡◌, refl, true, ◌&&◌, Option, some, List, [], ◌∷◌, length, ltb, ◌==◌,
  arith, Bool-cases, Option-cases, inl, inr, ℤ, pos, ltb_ℤ, sub_i64, int_eq,
}
use satoxcoin_seeder.Prelude.Dict.{get, alter, contains, discard, get-alter, beq_self}
use satoxcoin_seeder.Db.{AddrDb, ServiceResult}
use satoxcoin_seeder.Db.Stat.{AddrInfo, min_retry}
use satoxcoin_seeder.Db.Crawl.{
  Draw, Turn, again, answer, hand_out, take_tracked, take_unknown, turn, turns, get_one,
}
use satoxcoin_seeder.Db.Consistent.{IsConsistent, Known}
use satoxcoin_seeder.Db.Keeps.{SameIds-IsConsistent, touched-IsConsistent}
use satoxcoin_seeder.Db.Queues.{push-IsConsistent, dirty-IsConsistent, contains-discard_imp}

behind_first : (x j : ℤ) (s : List ℤ) → contains j s ≡ true → contains j (x ∷ s) ≡ true
unfolding contains
behind_first x j s h = ground arith

module _ {F : Type 0} where
  abbrev IsSound : Turn F → Type 0
  IsSound (again db) = IsConsistent db
  IsSound (answer db r) = IsConsistent db

  altered-Known :
      (id : ℤ) (f : AddrInfo F → AddrInfo F) (info : AddrInfo F) (db : AddrDb F)
      → get id db.id_to_info ≡ some info
      → Known (record db { id_to_info = alter id f db.id_to_info }) id
  altered-Known id f info db e = (f info, rw (get-alter id id f db.id_to_info, beq_self id, e) refl)

  hand_out-IsSound : (now id : ℤ) (db : AddrDb F) → IsConsistent db → IsSound (hand_out now id db)
  unfolding hand_out
  hand_out-IsSound now id db c = elim (Option-cases (get id db.id_to_info)) [
    | inl e ↦ rw (e, IsSound) c
    | inr (info, e) ↦
        let stamp : AddrInfo F → AddrInfo F = λ i. record i { our_last_try = now } in
        let tried = record db { id_to_info = alter id stamp db.id_to_info } in
        elim (Bool-cases (ltb_ℤ (pos 0) info.ignore_till && ltb_ℤ info.ignore_till now)) [
          | inl f ↦
              rw (e, IsSound, f)
                (push-IsConsistent tried (touched-IsConsistent id stamp db (λ i. refl) c) id
                  db.n_dirty (altered-Known id stamp info db e))
          | inr f ↦ rw (e, IsSound, f) (dirty-IsConsistent db c)
        ]
  ]

  -- Smaller queues.
  smaller-IsConsistent :
      (db : AddrDb F) (ours unks : List ℤ)
      → IsConsistent db
      → ((j : ℤ) → contains j ours ≡ true → contains j db.our_id ≡ true)
      → ((j : ℤ) → contains j unks ≡ true → contains j db.unk_id ≡ true)
      → IsConsistent (record db { our_id = ours; unk_id = unks })
  smaller-IsConsistent db ours unks c ho hu =
      SameIds-IsConsistent db (record db { our_id = ours; unk_id = unks }) c
        (record {
          next_same = refl;
          ids_same = refl;
          services_same = λ j. refl;
          unk_old = λ j h. c.unk_known j (hu j h);
          our_old = λ j h. c.our_known j (ho j h);
          good_old = c.good_known;
        })

  take_tracked-IsSound :
      (now : ℤ) (q : List ℤ) (db : AddrDb F)
      → IsConsistent db
      → ((j : ℤ) → contains j q ≡ true → contains j db.our_id ≡ true)
      → IsSound (take_tracked now q db)
  unfolding take_tracked
  take_tracked-IsSound now [] db c h = c
  take_tracked-IsSound now (id ∷ rest) db c h = elim (Option-cases (get id db.id_to_info)) [
    | inl e ↦ rw (e, IsSound) c
    | inr (info, e) ↦ elim (Bool-cases (ltb_ℤ (sub_i64 now info.our_last_try) min_retry)) [
      | inl f ↦ rw (e, IsSound, f) c
      | inr f ↦
          rw (e, IsSound, f)
            (hand_out-IsSound now id (record db { our_id = rest })
              (smaller-IsConsistent db rest db.unk_id c (λ j k. h j (behind_first id j rest k))
                (λ j k. k)))
    ]
  ]

  take_unknown-IsSound :
      (d : Draw) (now : ℤ) (s : List ℤ) (db : AddrDb F)
      → IsConsistent db
      → ((j : ℤ) → contains j s ≡ true → contains j db.unk_id ≡ true)
      → IsSound (take_unknown d now s db)
  unfolding take_unknown
  take_unknown-IsSound d now [] db c h = c
  take_unknown-IsSound d now (x ∷ s) db c h =
      let id = d.last_of x s in
      hand_out-IsSound now id (record db { unk_id = discard id (x ∷ s) })
        (smaller-IsConsistent db db.our_id (discard id (x ∷ s)) c (λ j k. k)
          (λ j k. h j (contains-discard_imp id j (x ∷ s) k)))

  turn-IsSound :
      (d : Draw) (now : ℤ) (tot : ℕ) (db : AddrDb F) → IsConsistent db → IsSound (turn d now tot db)
  unfolding turn
  turn-IsSound d now tot db c = elim (Bool-cases (ltb (d.rnd % tot) (length db.unk_id))) [
    | inl e ↦ rw e (take_unknown-IsSound d now db.unk_id db c (λ j k. k))
    | inr e ↦ rw e (take_tracked-IsSound now db.our_id db c (λ j k. k))
  ]

  abbrev IsKept : AddrDb F × Option ServiceResult → Type 0
  IsKept p = IsConsistent p.0

  next-IsKept :
      (next : AddrDb F → AddrDb F × Option ServiceResult)
      → ((db : AddrDb F) → IsConsistent db → IsConsistent (next db).0)
      → (t : Turn F) → IsSound t
      → IsKept (elim t [ again db' ↦ next db' | answer db' res ↦ (db', res) ])
  next-IsKept next k (again db) c = k db c
  next-IsKept next k (answer db r) c = c

  turns-IsKept :
      (draws : ℕ → Draw) (now : ℤ) (tot k n : ℕ) (db : AddrDb F)
      → IsConsistent db
      → IsConsistent (turns draws now tot k n db).0
  unfolding turns
  turns-IsKept draws now tot k zero db c = c
  turns-IsKept draws now tot k (suc n) db c =
      next-IsKept (turns draws now tot (k + 1) n) (turns-IsKept draws now tot (k + 1) n)
        (turn (draws k) now tot db) (turn-IsSound (draws k) now tot db c)

  -- Handing out a node, or none, keeps the database consistent, whatever the chances of the draws are.
  pub get_one-IsConsistent :
      (draws : ℕ → Draw) (now : ℤ) (db : AddrDb F)
      → IsConsistent db
      → IsConsistent (get_one draws now db).0
  unfolding get_one
  get_one-IsConsistent draws now db c =
      elim (Bool-cases ((length db.unk_id + length db.our_id) == 0)) [
        | inl e ↦ rw e c
        | inr e ↦ rw e (turns-IsKept draws now _ 0 _ db c)
      ]
