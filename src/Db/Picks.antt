-- ===== src/Db/Picks.antt =====
-- Which nodes `get_one` hands out.
use satoxcoin_seeder.Prelude.{
  ℕ, zero, suc, ◌+◌, ◌%◌, ◌≡◌, refl, subst, ◌∙◌, ◌⊎◌, inl, inr, ◌&&◌, Option, none, some, List, [],
  ◌∷◌, ◌++◌, length, ltb, ◌==◌, if◌then◌else◌, arith, Bool-cases, Option-cases, ℤ, pos, ltb_ℤ, eq_ℤ,
  ◌≤ℤ◌, sub_i64, int_eq,
}
use satoxcoin_seeder.Prelude.Dict.{get, alter, discard, get-alter}
use mathlib.Core.Option
use satoxcoin_seeder.Db.{AddrDb, ServiceResult}
use satoxcoin_seeder.Db.Stat.{AddrInfo, min_retry}
use satoxcoin_seeder.Db.Crawl.{
  Draw, Turn, again, answer, result_of, hand_out, take_tracked, take_unknown, turn, turns, get_one,
}

module _ {F : Type 0} where
  -- An entry of the database that is not ignored, or whose time of being ignored has not come.
  abbrev pub IsOffer : ℤ → AddrDb F → ServiceResult → Type 0
  IsOffer now db r =
      (id : ℤ) × (info : AddrInfo F) × (get id db.id_to_info ≡ some info)
      × (r.service ≡ info.service)
      × (r.services ≡ info.services)
      × ((info.ignore_till ≤ℤ pos 0) ⊎ (now ≤ℤ info.ignore_till))

  abbrev IsAnswer : ℤ → AddrDb F → Option ServiceResult → Type 0
  IsAnswer now db none = Unit
  IsAnswer now db (some r) = IsOffer now db r

  abbrev IsResult : ℤ → AddrDb F → AddrDb F × Option ServiceResult → Type 0
  IsResult now db p = IsAnswer now db p.1

  -- Entries of a later database stem from the earlier one.
  abbrev Stems : AddrDb F → AddrDb F → Type 0
  Stems db db' =
      (id : ℤ) (i' : AddrInfo F)
      → get id db'.id_to_info ≡ some i'
      → (i : AddrInfo F) × (get id db.id_to_info ≡ some i)
        × (i'.service ≡ i.service)
        × (i'.services ≡ i.services)
        × (i'.ignore_till ≡ i.ignore_till)

  abbrev IsTurn : ℤ → AddrDb F → Turn F → Type 0
  IsTurn now db (again db') = Stems db db'
  IsTurn now db (answer db' r) = IsAnswer now db r

  abbrev stamp : ℤ → AddrInfo F → AddrInfo F
  stamp now i = record i { our_last_try = now }

  altered :
      (id j now : ℤ) (i i' : AddrInfo F) (m : List (ℤ × AddrInfo F))
      → get j m ≡ some i
      → get j (alter id (stamp now) m)
        ≡ (if eq_ℤ id j then Option.map (stamp now) (get j m) else get j m)
      → get j (alter id (stamp now) m) ≡ some i'
      → (i'.service ≡ i.service) × (i'.services ≡ i.services) × (i'.ignore_till ≡ i.ignore_till)
  altered id j now i i' m e same h = ground arith

  Stems-alter :
      (now id : ℤ) (db : AddrDb F) (q : List ℤ)
      → Stems db (record db { our_id = q; id_to_info = alter id (stamp now) db.id_to_info })
  Stems-alter now id db q j i' h = elim (Option-cases (get j db.id_to_info)) [
    | inl e ↦ absurd (ground (arith, get-alter id j (stamp now) db.id_to_info))
    | inr (i, e) ↦
        let same = get-alter id j (stamp now) db.id_to_info in
        let (s1, s2, s3) = altered id j now i i' db.id_to_info e same h in (i, e, s1, s2, s3)
  ]

  hand_out-IsTurn : (now id : ℤ) (db : AddrDb F) → IsTurn now db (hand_out now id db)
  unfolding hand_out
  hand_out-IsTurn now id db = elim (Option-cases (get id db.id_to_info)) [
    | inl e ↦ rw (e, IsTurn) tt
    | inr (info, e) ↦
        elim (Bool-cases (ltb_ℤ (pos 0) info.ignore_till && ltb_ℤ info.ignore_till now)) [
          | inl f ↦ rw (e, IsTurn, f) (Stems-alter now id db (db.our_id ++ (id ∷ [])))
          | inr f ↦ rw (e, IsTurn, f) (unfold result_of in (id, info, e, refl, refl, ground arith))
        ]
  ]

  take_tracked-IsTurn :
      (now : ℤ) (q : List ℤ) (db : AddrDb F) → IsTurn now db (take_tracked now q db)
  unfolding take_tracked
  take_tracked-IsTurn now [] db = tt
  take_tracked-IsTurn now (id ∷ rest) db = elim (Option-cases (get id db.id_to_info)) [
    | inl e ↦ rw (e, IsTurn) tt
    | inr (info, e) ↦ elim (Bool-cases (ltb_ℤ (sub_i64 now info.our_last_try) min_retry)) [
      | inl f ↦ rw (e, IsTurn, f) tt
      | inr f ↦ rw (e, IsTurn, f) (hand_out-IsTurn now id (record db { our_id = rest }))
    ]
  ]

  take_unknown-IsTurn :
      (d : Draw) (now : ℤ) (s : List ℤ) (db : AddrDb F) → IsTurn now db (take_unknown d now s db)
  unfolding take_unknown
  take_unknown-IsTurn d now [] db = tt
  take_unknown-IsTurn d now (x ∷ s) db =
      hand_out-IsTurn now _ (record db { unk_id = discard _ (x ∷ s) })

  turn-IsTurn : (d : Draw) (now : ℤ) (tot : ℕ) (db : AddrDb F) → IsTurn now db (turn d now tot db)
  unfolding turn
  turn-IsTurn d now tot db = elim (Bool-cases (ltb (d.rnd % tot) (length db.unk_id))) [
    | inl e ↦ rw e (take_unknown-IsTurn d now db.unk_id db)
    | inr e ↦ rw e (take_tracked-IsTurn now db.our_id db)
  ]

  Stems-IsAnswer :
      (now : ℤ) (db db' : AddrDb F) (r : Option ServiceResult)
      → Stems db db'
      → IsAnswer now db' r
      → IsAnswer now db r
  Stems-IsAnswer now db db' none st a = tt
  Stems-IsAnswer now db db' (some r) st (id, i', e, same, offers, free) =
      let (i, e', s1, s2, s3) = st id i' e in (id, i, e', same ∙ s1, offers ∙ s2, rw (← s3) free)

  after_turn :
      (now : ℤ) (db : AddrDb F) (next : AddrDb F → AddrDb F × Option ServiceResult)
      → ((db' : AddrDb F) → IsAnswer now db' (next db').1)
      → (t : Turn F) → IsTurn now db t
      → IsResult now db (elim t [ again db' ↦ next db' | answer db' res ↦ (db', res) ])
  after_turn now db next k (again db') st = Stems-IsAnswer now db db' _ st (k db')
  after_turn now db next k (answer db' r) a = a

  turns-IsAnswer :
      (draws : ℕ → Draw) (now : ℤ) (tot k n : ℕ) (db : AddrDb F)
      → IsAnswer now db (turns draws now tot k n db).1
  unfolding turns
  turns-IsAnswer draws now tot k zero db = tt
  turns-IsAnswer draws now tot k (suc n) db =
      after_turn now db (turns draws now tot (k + 1) n) (turns-IsAnswer draws now tot (k + 1) n) _
        (turn-IsTurn (draws k) now tot db)

  get_one-IsAnswer :
      (draws : ℕ → Draw) (now : ℤ) (db : AddrDb F) → IsAnswer now db (get_one draws now db).1
  unfolding get_one
  get_one-IsAnswer draws now db = elim (Bool-cases ((length db.unk_id + length db.our_id) == 0)) [
    | inl e ↦ rw e tt
    | inr e ↦ rw e (turns-IsAnswer draws now _ 0 _ db)
  ]

  -- A node that is handed out to be tested is an entry of the database that is not ignored, or
  -- one whose time of being ignored has not passed yet, whatever the chances of the draws are:
  -- an entry whose time has passed is never handed out.
  pub get_one-IsOffer :
      (draws : ℕ → Draw) (now : ℤ) (db db' : AddrDb F) (r : ServiceResult)
      → get_one draws now db ≡ (db', some r)
      → IsOffer now db r
  get_one-IsOffer draws now db db' r h =
      subst (λ t. IsAnswer now db t.1) h (get_one-IsAnswer draws now db)
