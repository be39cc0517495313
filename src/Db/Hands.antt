-- ===== src/Db/Hands.antt =====
-- `get_one` takes the node that it hands out, and no other, out of the queues.
use satoxcoin_seeder.Prelude.{
  ℕ, zero, suc, ◌+◌, ◌%◌, ◌≡◌, refl, inl, inr, true, ◌&&◌, Option, none, some, List, [], ◌∷◌, ◌++◌,
  length, ltb, ◌==◌, arith, Bool-cases, Option-cases, ℤ, pos, ltb_ℤ, eq_ℤ_iff, sub_i64, int_eq,
}
use satoxcoin_seeder.Prelude.Dict.{get, alter, contains, discard, beq_self}
use satoxcoin_seeder.Net.{Service}
use satoxcoin_seeder.Db.{AddrDb, ServiceResult, dirty}
use satoxcoin_seeder.Db.Stat.{AddrInfo, min_retry}
use satoxcoin_seeder.Db.Crawl.{
  Draw, IsDraw, Turn, again, answer, result_of, hand_out, take_tracked, take_unknown, turn, turns,
  get_one,
}
use satoxcoin_seeder.Db.Held.{
  count, one_if_bound, Placed, count-push, count-discard, present, one_if-alter,
}

module _ {F : Type 0} where
  -- Without a result nothing has left the queues; with one, just the id of its node.
  abbrev pub Holds : List (Service × ℤ) → List ℤ → AddrDb F → Option ServiceResult → Type 0
  Holds ids o db none = Placed db o × (db.ip_to_id ≡ ids)
  Holds ids o db (some r) =
      (id : ℤ) × (info : AddrInfo F) × (get id db.id_to_info ≡ some info)
      × (r.service ≡ info.service)
      × Placed db (id ∷ o)
      × (db.ip_to_id ≡ ids)

  abbrev Takes : List (Service × ℤ) → List ℤ → Turn F → Type 0
  Takes ids o (again db) = Placed db o × (db.ip_to_id ≡ ids)
  Takes ids o (answer db r) = Holds ids o db r

  module _ (ids : List (Service × ℤ)) (o : List ℤ) where
    put_back :
        (now id : ℤ) (db : AddrDb F)
        → Placed db (id ∷ o)
        → Placed
            (record db {
              our_id = db.our_id ++ (id ∷ []);
              id_to_info = alter id (λ i. record i { our_last_try = now }) db.id_to_info;
            })
            o
    unfolding count
    put_back now id db p j = omega (
      arith,
      p j,
      count-push j id db.our_id,
      one_if-alter id j (λ i. record i { our_last_try = now }) db.id_to_info,
    )

    unknown : (id : ℤ) (db : AddrDb F) → Placed db (id ∷ o) → get id db.id_to_info ≡ none → ⊥
    unfolding count
    unknown id db p e = ground (arith, p id, beq_self id)

    hand_out-Takes :
        (now id : ℤ) (db : AddrDb F)
        → Placed db (id ∷ o)
        → db.ip_to_id ≡ ids
        → Takes ids o (hand_out now id db)
    unfolding hand_out
    hand_out-Takes now id db p same = elim (Option-cases (get id db.id_to_info)) [
      | inl e ↦ absurd (unknown id db p e)
      | inr (info, e) ↦
          elim (Bool-cases (ltb_ℤ (pos 0) info.ignore_till && ltb_ℤ info.ignore_till now)) [
            | inl f ↦ rw (e, Takes, f) (put_back now id db p, same)
            | inr f ↦ rw (e, Takes, f) (unfold dirty result_of in (id, info, e, refl, p, same))
          ]
    ]

    popped :
        (id : ℤ) (rest : List ℤ) (db : AddrDb F)
        → Placed db o
        → db.our_id ≡ id ∷ rest
        → Placed (record db { our_id = rest }) (id ∷ o)
    unfolding count
    popped id rest db p h j = omega (arith, rw h at (p j))

    picked :
        (id : ℤ) (q : List ℤ) (db : AddrDb F)
        → Placed db o
        → db.unk_id ≡ q
        → contains id q ≡ true
        → Placed (record db { unk_id = discard id q }) (id ∷ o)
    unfolding count
    picked id q db p h here j = ground (
      arith,
      rw h at (p j),
      count-discard id j q,
      present id q here,
      one_if_bound (get j db.id_to_info),
      eq_ℤ_iff id j,
    )

    take_tracked-Takes :
        (now : ℤ) (q : List ℤ) (db : AddrDb F)
        → Placed db o
        → db.ip_to_id ≡ ids
        → db.our_id ≡ q
        → Takes ids o (take_tracked now q db)
    unfolding take_tracked
    take_tracked-Takes now [] db p same h = (p, same)
    take_tracked-Takes now (id ∷ rest) db p same h = elim (Option-cases (get id db.id_to_info)) [
      | inl e ↦ rw (e, Takes) (p, same)
      | inr (info, e) ↦ elim (Bool-cases (ltb_ℤ (sub_i64 now info.our_last_try) min_retry)) [
        | inl f ↦ rw (e, Takes, f) (p, same)
        | inr f ↦
            rw (e, Takes, f)
              (hand_out-Takes now id (record db { our_id = rest }) (popped id rest db p h) same)
      ]
    ]

    take_unknown-Takes :
        (d : Draw) (now : ℤ) (q : List ℤ) (db : AddrDb F)
        → IsDraw d
        → Placed db o
        → db.ip_to_id ≡ ids
        → db.unk_id ≡ q
        → Takes ids o (take_unknown d now q db)
    unfolding take_unknown
    take_unknown-Takes d now [] db fair p same h = (p, same)
    take_unknown-Takes d now (x ∷ s) db fair p same h =
        let id = d.last_of x s in
        hand_out-Takes now id (record db { unk_id = discard id (x ∷ s) })
          (picked id (x ∷ s) db p h (fair.member x s)) same

    turn-Takes :
        (d : Draw) (now : ℤ) (tot : ℕ) (db : AddrDb F)
        → IsDraw d
        → Placed db o
        → db.ip_to_id ≡ ids
        → Takes ids o (turn d now tot db)
    unfolding turn
    turn-Takes d now tot db fair p same = elim (Bool-cases (ltb (d.rnd % tot) (length db.unk_id))) [
      | inl e ↦ rw e (take_unknown-Takes d now db.unk_id db fair p same refl)
      | inr e ↦ rw e (take_tracked-Takes now db.our_id db p same refl)
    ]

    abbrev IsTaken : AddrDb F × Option ServiceResult → Type 0
    IsTaken t = Holds ids o t.0 t.1

    next-IsTaken :
        (next : AddrDb F → AddrDb F × Option ServiceResult)
        → ((db : AddrDb F) → Placed db o → db.ip_to_id ≡ ids → IsTaken (next db))
        → (t : Turn F) → Takes ids o t
        → IsTaken (elim t [ again db' ↦ next db' | answer db' res ↦ (db', res) ])
    next-IsTaken next k (again db) (p, same) = k db p same
    next-IsTaken next k (answer db r) h = h

    turns-IsTaken :
        (draws : ℕ → Draw) (now : ℤ) (tot k n : ℕ) (db : AddrDb F)
        → ((i : ℕ) → IsDraw (draws i))
        → Placed db o
        → db.ip_to_id ≡ ids
        → IsTaken (turns draws now tot k n db)
    unfolding turns
    turns-IsTaken draws now tot k zero db fair p same = (p, same)
    turns-IsTaken draws now tot k (suc n) db fair p same =
        next-IsTaken (turns draws now tot (k + 1) n)
          (λ db'. turns-IsTaken draws now tot (k + 1) n db' fair) (turn (draws k) now tot db)
          (turn-Takes (draws k) now tot db (fair k) p same)

  pub get_one-Holds :
      (draws : ℕ → Draw) (now : ℤ) (o : List ℤ) (db : AddrDb F)
      → ((i : ℕ) → IsDraw (draws i))
      → Placed db o
      → Holds db.ip_to_id o (get_one draws now db).0 (get_one draws now db).1
  unfolding get_one
  get_one-Holds draws now o db fair p =
      elim (Bool-cases ((length db.unk_id + length db.our_id) == 0)) [
        | inl e ↦ rw e (p, refl)
        | inr e ↦ rw e (turns-IsTaken db.ip_to_id o draws now _ 0 _ db fair p refl)
      ]
