-- ===== src/Crawler/Places.antt =====
-- The ids of the nodes in the crawlers' hands, when batches are handed out and given back.
use satoxcoin_seeder.Prelude.{
  ℕ, zero, suc, ◌+◌, ◌≤◌, ◌≡◌, refl, sym, ap, subst, ◌∙◌, inl, inr, false, Option, none, some, List,
  [], ◌∷◌, ◌++◌, arith, Bool-cases, Option-cases, append_assoc, replicate, ℤ, pos, ltb_ℤ, int_eq,
}
use satoxcoin_seeder.Prelude.Dict.{get, beq_self}
use satoxcoin_seeder.Net.{Service}
use satoxcoin_seeder.Db.{
  AddrDb, ServiceResult, service_beq, service_beq_iff, service_eq, lookup_id, record_result,
  result_many,
}
use satoxcoin_seeder.Db.Stat.{Float}
use satoxcoin_seeder.Db.Crawl.{Draw, IsDraw, get_one, get_many_from}
use satoxcoin_seeder.Db.Consistent.{IsConsistent}
use satoxcoin_seeder.Db.Results.{record_result-IsConsistent}
use satoxcoin_seeder.Db.Turns.{get_one-IsConsistent}
use satoxcoin_seeder.Db.Held.{count, one_if, Placed, count-append, absent}
use satoxcoin_seeder.Db.Hands.{Holds, get_one-Holds}
use satoxcoin_seeder.Db.Returns.{held-Known, record_result-Placed, record_result-get}
use satoxcoin_seeder.Db.Enters.{Grows}
use satoxcoin_seeder.Crawler.{timed}
use satoxcoin_seeder.Crawler.System.{Crawler, idle, held_by, held, ids}

pub held-append : (cs ds : List Crawler) → held (cs ++ ds) ≡ held cs ++ held ds
unfolding held
held-append [] ds = refl
held-append (c ∷ cs) ds =
    rw (held-append cs ds) (sym (append_assoc (held_by c) (held cs) (held ds)))

module _ {F : Type 0} where
  pub ids-append :
      (db : AddrDb F) (rs qs : List ServiceResult) → ids db (rs ++ qs) ≡ ids db rs ++ ids db qs
  unfolding ids
  ids-append db [] qs = refl
  ids-append db (r ∷ rs) qs = ap (λ t. lookup_id r.service db ∷ t) (ids-append db rs qs)

  pub count-ids :
      (j : ℤ) (db : AddrDb F) (rs qs : List ServiceResult)
      → count j (ids db (rs ++ qs)) ≡ count j (ids db rs) + count j (ids db qs)
  count-ids j db rs qs = rw (ids-append db rs qs) (count-append j (ids db rs) (ids db qs))

  pub Placed-reorder :
      (db : AddrDb F) (o o' : List ℤ)
      → Placed db o
      → ((j : ℤ) → count j o' ≡ count j o)
      → Placed db o'
  Placed-reorder db o o' p same j = omega (arith, p j, same j)

  -- A looked-up service, with its id.
  pub looked_up :
      (s : Service) (id : ℤ) (db : AddrDb F) → get s db.ip_to_id ≡ some id → lookup_id s db ≡ id
  unfolding lookup_id
  looked_up s id db h = rw (h, lookup_id) refl

  pub found :
      (s : Service) (db : AddrDb F)
      → ltb_ℤ (lookup_id s db) (pos 0) ≡ false
      → get s db.ip_to_id ≡ some (lookup_id s db)
  unfolding lookup_id
  found s db h = elim (Option-cases (get s db.ip_to_id)) [
    | inl e ↦ absurd (ground arith)
    | inr (id, e) ↦ rw (e, lookup_id) refl
  ]

  same_lookup :
      (s : Service) (db db' : AddrDb F)
      → get s db'.ip_to_id ≡ get s db.ip_to_id
      → lookup_id s db' ≡ lookup_id s db
  unfolding lookup_id
  same_lookup s db db' e = elim (Option-cases (get s db.ip_to_id)) [
    | inl f ↦ rw (e ∙ f, f, lookup_id) refl
    | inr (id, f) ↦ rw (e ∙ f, f, lookup_id) refl
  ]

  -- Services in hand keep their ids when the database grows.
  pub Grows-ids :
      (db db' : AddrDb F) (rs : List ServiceResult)
      → IsConsistent db
      → Grows db db'
      → ((j : ℤ) → count j (ids db rs) ≤ one_if (get j db.id_to_info))
      → ids db' rs ≡ ids db rs
  unfolding ids count
  Grows-ids db db' [] c g h = refl
  Grows-ids db db' (r ∷ rs) c g h =
      let id = lookup_id r.service db in
      let tail = Grows-ids db db' rs c g (λ j. omega (arith, h j)) in
      elim (Option-cases (get id db.id_to_info)) [
        | inl e ↦ absurd (ground (arith, h id, beq_self id))
        | inr (info, e) ↦
            let at = found r.service db (ground (arith, c.in_use id info e)) in
            rw (looked_up r.service id db' (g.stays r.service id at), tail) refl
      ]

module _ {F : Type 0} ⦃fl : Float F⦄ where
  -- Recording a result leaves the ids of the others.
  pub others-ids :
      (res : ServiceResult) (now : ℤ) (db : AddrDb F) (rs : List ServiceResult)
      → IsConsistent db
      → count (lookup_id res.service db) (ids db rs) ≡ 0
      → ids (record_result res now db) rs ≡ ids db rs
  unfolding ids count
  others-ids res now db [] c h = refl
  others-ids res now db (r ∷ rs) c h =
      let tail = others-ids res now db rs c (omega arith) in
      elim (Bool-cases (service_beq res.service r.service)) [
        | inl e ↦
            let same : res.service ≡ r.service = (service_beq_iff res.service r.service).0 e in
            absurd (ground (arith, rw same at h, beq_self (lookup_id r.service db)))
        | inr e ↦
            rw
              (
                tail,
                same_lookup r.service db (record_result res now db)
                    (record_result-get res now r.service db c e),
              )
              refl
      ]

  -- What a batch of results leaves behind: the nodes `qs` still in hand, and the ids `o`.
  pub result_many-Placed :
      (clock : ℕ → ℤ) (k : ℕ) (rs qs : List ServiceResult) (o : List ℤ) (db : AddrDb F)
      → IsConsistent db
      → Placed db (ids db (rs ++ qs) ++ o)
      → let after = result_many (timed clock k rs) db in
        IsConsistent after × Placed after (ids after qs ++ o)
  unfolding result_many timed ids
  result_many-Placed clock k [] qs o db c p = (c, p)
  result_many-Placed clock k (r ∷ rs) qs o db c p =
      let id = lookup_id r.service db in
      let db' = record_result r (clock k) db in
      let (no_our, _, alone, _) = held-Known id (ids db (rs ++ qs) ++ o) db p in
      let c' = record_result-IsConsistent r (clock k) db c (absent id db.our_id no_our) in
      let none_left : count id (ids db (rs ++ qs)) ≡ 0 =
        omega (arith, alone, count-append id (ids db (rs ++ qs)) o) in
      let same = others-ids r (clock k) db (rs ++ qs) c none_left in
      result_many-Placed clock (k + 1) rs qs o db' c'
        (rw same (record_result-Placed r (clock k) (ids db (rs ++ qs) ++ o) db c p))

module _ {F : Type 0} where
  -- A batch: the nodes that are handed out have left the queues, and no others.
  abbrev pub IsBatch : List (Service × ℤ) → List ℤ → AddrDb F × List ServiceResult → Type 0
  IsBatch services o p =
      IsConsistent p.0 × Placed p.0 (ids p.0 p.1 ++ o) × (p.0.ip_to_id ≡ services)

  -- The rest of a batch, after the call of `get_one` that gave `res`.
  go_on :
      (services : List (Service × ℤ)) (o : List ℤ) (rest : AddrDb F → AddrDb F × List ServiceResult)
      (db : AddrDb F) (res : Option ServiceResult)
      → IsConsistent db
      → Holds services o db res
      → ((o' : List ℤ) → Placed db o' → db.ip_to_id ≡ services → IsBatch services o' (rest db))
      → IsBatch services o
          (elim res [ none ↦ (db, []) | some r ↦ let (db', rs) = rest db in (db', r ∷ rs) ])
  unfolding ids count
  go_on services o rest db none c (p, same) k = (c, p, same)
  go_on services o rest db (some r) c (id, info, e, node, p, same) k =
      let (c', p', same') = k (id ∷ o) p same in
      let db' = (rest db).0 in
      let rs = (rest db).1 in
      let at : get r.service db'.ip_to_id ≡ some id =
        rw (node, same', ← same) (c.by_id id info e) in
      (
        c',
        rw (looked_up r.service id db' at) (
            Placed-reorder db' (ids db' rs ++ (id ∷ o)) (id ∷ (ids db' rs ++ o)) p' (λ j.
              omega (arith, count-append j (ids db' rs) (id ∷ o), count-append j (ids db' rs) o))),
        same',
      )

  pub get_many_from-IsBatch :
      (draws : ℕ → ℕ → Draw) (clock : ℕ → ℤ) (j n : ℕ) (o : List ℤ) (db : AddrDb F)
      → ((i k : ℕ) → IsDraw (draws i k))
      → IsConsistent db
      → Placed db o
      → IsBatch db.ip_to_id o (get_many_from draws clock j n db)
  unfolding get_many_from ids
  get_many_from-IsBatch draws clock j zero o db fair c p = (c, p, refl)
  get_many_from-IsBatch draws clock j (suc n) o db fair c p =
      let got = get_one (draws j) (clock j) db in
      go_on db.ip_to_id o (get_many_from draws clock (j + 1) n) got.0 got.1
        (get_one-IsConsistent (draws j) (clock j) db c)
        (get_one-Holds (draws j) (clock j) o db (fair j) p)
        (λ o' p' same.
          subst (λ m. IsBatch m o' (get_many_from draws clock (j + 1) n got.0)) same
            (get_many_from-IsBatch draws clock (j + 1) n o' got.0 fair
              (get_one-IsConsistent (draws j) (clock j) db c) p'))

  pub same_ids :
      (db db' : AddrDb F) (rs : List ServiceResult)
      → db'.ip_to_id ≡ db.ip_to_id
      → ids db' rs ≡ ids db rs
  unfolding ids lookup_id
  same_ids db db' [] e = refl
  same_ids db db' (r ∷ rs) e = rw (same_ids db db' rs e, e) refl

-- Crawlers that have no batch hold nothing.
pub held-idle : (n : ℕ) → held (replicate n idle) ≡ []
unfolding held
held-idle zero = refl
held-idle (suc n) = held-idle n
