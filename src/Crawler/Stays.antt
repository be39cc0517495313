-- ===== src/Crawler/Stays.antt =====
-- Ids outside the queues, and services that keep their ids while results of other nodes are recorded.
use satoxcoin_seeder.Prelude.{
  ℕ, ◌+◌, ◌<◌, ◌≡◌, ap, ◌∙◌, inl, inr, Bool, true, false, some, List, [], ◌∷◌, ◌++◌, arith,
  Bool-cases, Option-cases, ℤ, int_eq,
}
use satoxcoin_seeder.Prelude.Dict.{get, contains}
use satoxcoin_seeder.Net.{Service}
use satoxcoin_seeder.Db.{
  AddrDb, ServiceResult, service_beq, service_beq_iff, service_eq, lookup_id, record_result,
  result_many, restore_from, reset_ignores,
}
use satoxcoin_seeder.Db.Stat.{Float}
use satoxcoin_seeder.Db.Consistent.{IsConsistent, Known}
use satoxcoin_seeder.Db.Results.{record_result-IsConsistent}
use satoxcoin_seeder.Db.Returns.{held-Known, record_result-Placed, record_result-get}
use satoxcoin_seeder.Db.Held.{count, one_if_bound, Placed, count-append, absent}
use satoxcoin_seeder.Crawler.{timed, load, start}
use satoxcoin_seeder.Crawler.System.{ids, Saved}
use satoxcoin_seeder.Crawler.Places.{found, others-ids, looked_up}

module _ {F : Type 0} where
  -- An id at a place outside the queues.
  pub gone :
      (db : AddrDb F) (mine lost : List ℤ) (id : ℤ)
      → Placed db (mine ++ lost)
      → 0 < count id lost
      → (contains id db.our_id ≡ false)
        × (contains id db.unk_id ≡ false)
        × (contains id mine ≡ false)
        × Known db id
  gone db mine lost id p h =
      let at = p id in
      let both = count-append id mine lost in
      let most = one_if_bound (get id db.id_to_info) in
      (
        absent id db.our_id (omega (arith, at, both, most)),
        absent id db.unk_id (omega (arith, at, both, most)),
        absent id mine (omega (arith, at, both, most)),
        (elim (Option-cases (get id db.id_to_info)) [
          | inl e ↦ absurd (ground (arith, at, both, e))
          | inr known ↦ known
        ]),
      )

  -- A service whose id is outside the queues is known by that id.
  pub in_hand :
      (sv : Service) (db : AddrDb F) (o : List ℤ)
      → IsConsistent db
      → Placed db o
      → 0 < count (lookup_id sv db) o
      → get sv db.ip_to_id ≡ some (lookup_id sv db)
  in_hand sv db o c p h =
      let id = lookup_id sv db in
      let at = p id in
      elim (Option-cases (get id db.id_to_info)) [
        | inl e ↦ absurd (ground (arith, at, h, e))
        | inr (info, e) ↦ found sv db (ground (arith, c.in_use id info e))
      ]

module _ {F : Type 0} ⦃fl : Float F⦄ where
  -- Recording the results of other nodes.
  pub results-stay :
      (clock : ℕ → ℤ) (k : ℕ) (rs : List ServiceResult) (o : List ℤ) (db : AddrDb F) (sv : Service)
      (id : ℤ)
      → IsConsistent db
      → Placed db (ids db rs ++ o)
      → 0 < count id o
      → get sv db.ip_to_id ≡ some id
      → get sv (result_many (timed clock k rs) db).ip_to_id ≡ some id
  unfolding result_many timed ids
  results-stay clock k [] o db sv id c p h e = e
  results-stay clock k (r ∷ rs) o db sv id c p h e =
      let mine = lookup_id r.service db in
      let db' = record_result r (clock k) db in
      let (no_our, _, alone, _) = held-Known mine (ids db rs ++ o) db p in
      let c' = record_result-IsConsistent r (clock k) db c (absent mine db.our_id no_our) in
      let apart = count-append mine (ids db rs) o in
      let none_left : count mine (ids db rs) ≡ 0 = omega (arith, alone, apart) in
      let same = others-ids r (clock k) db rs c none_left in
      let other : service_beq r.service sv ≡ false = elim (Bool-cases (service_beq r.service sv)) [
        | inl q ↦
            let at : mine ≡ id =
              ap (λ t. lookup_id t db) ((service_beq_iff r.service sv).0 q)
              ∙ looked_up sv id db e in
            let some_left : 0 < count mine o = rw at h in
            absurd (omega (arith, some_left, alone, apart))
        | inr q ↦ q
      ] in
      results-stay clock (k + 1) rs o db' sv id c'
        (rw same (record_result-Placed r (clock k) (ids db rs ++ o) db c p)) h
        (record_result-get r (clock k) sv db c other ∙ e)

  -- The start of the process.
  pub start-stays :
      (wipe_ban wipe_ignore : Bool) (port : ℕ) (v : ℤ) (f : Saved F) (sv : Service) (id : ℤ)
      → get sv f.db.ip_to_id ≡ some id
      → get sv (start wipe_ban wipe_ignore port v (some f.db)).ip_to_id ≡ some id
  unfolding start load restore_from reset_ignores
  start-stays true true port v f sv id e = e
  start-stays true false port v f sv id e = e
  start-stays false true port v f sv id e = e
  start-stays false false port v f sv id e = e
