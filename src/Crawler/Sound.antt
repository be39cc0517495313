-- ===== src/Crawler/Sound.antt =====
-- The invariant of the system: the database is consistent, and every id is in exactly one place.
use satoxcoin_seeder.Prelude.{
  ℕ, suc, ◌+◌, ◌≡◌, true, false, Option, none, some, List, [], ◌∷◌, ◌++◌, length, arith, ℤ, int_eq,
}
use satoxcoin_seeder.Prelude.Dict.{get}
use satoxcoin_seeder.Net.{NetAddr, Service}
use satoxcoin_seeder.Message.{Address}
use satoxcoin_seeder.Db.{AddrDb, ServiceResult, add_address, add_service, service_eq}
use satoxcoin_seeder.Db.Stat.{Float}
use satoxcoin_seeder.Db.Consistent.{IsConsistent, HasRoom}
use satoxcoin_seeder.Db.Keeps.{add_raw-IsConsistent, add_service-IsConsistent}
use satoxcoin_seeder.Db.Held.{count, Placed, count-append}
use satoxcoin_seeder.Db.Enters.{Grows, add_raw-Grows, add_service-Grows}
use satoxcoin_seeder.Crawler.{announce, seed}
use satoxcoin_seeder.Crawler.Places.{held-append, count-ids, Placed-reorder, Grows-ids}
use satoxcoin_seeder.Crawler.System.{Crawler, held_by, held, ids, Saved, System, HasSpace}

module _ {F : Type 0} where
  abbrev pub IsSaved : Option (Saved F) → Type 0
  IsSaved none = Unit
  IsSaved (some f) = IsConsistent f.db × Placed f.db f.missing

  -- A database of which the ids of the nodes in hand and `lost` are outside the queues.
  pub record IsHeld (db : AddrDb F) (rs : List ServiceResult) (lost : List ℤ) : Type 0 where
    pub consistent : IsConsistent db
    pub placed : Placed db (ids db rs ++ lost)

  pub record IsSound (s : System F) : Type 0 where
    pub now : IsHeld s.db (held s.crawlers) s.lost
    pub saved : IsSaved s.file

  -- The nodes of one crawler beside those of the others.
  pub count-held :
      (j : ℤ) (db : AddrDb F) (before after : List Crawler) (c : Crawler)
      → count j (ids db (held (before ++ (c ∷ after))))
        ≡ count j (ids db (held_by c)) + count j (ids db (held (before ++ after)))
  unfolding held
  count-held j db before after c =
      rw (held-append before (c ∷ after), held-append before after)
        (omega (
          arith,
          count-ids j db (held before) (held_by c ++ held after),
          count-ids j db (held_by c) (held after),
          count-ids j db (held before) (held after),
        ))

  pub taken :
      (db : AddrDb F) (crawlers before after : List Crawler) (c : Crawler) (lost : List ℤ)
      → IsHeld db (held crawlers) lost
      → crawlers ≡ before ++ (c ∷ after)
      → IsHeld db (held_by c ++ held (before ++ after)) lost
  taken db crawlers before after c lost h e = record {
    consistent = h.consistent;
    placed =
        Placed-reorder db (ids db (held (before ++ (c ∷ after))) ++ lost)
          (ids db (held_by c ++ held (before ++ after)) ++ lost) (rw e at h.placed)
          (λ j. omega (
            arith,
            count-held j db before after c,
            count-ids j db (held_by c) (held (before ++ after)),
            count-append j (ids db (held (before ++ (c ∷ after)))) lost,
            count-append j (ids db (held_by c ++ held (before ++ after))) lost,
          ));
  }

  pub put :
      (db : AddrDb F) (before after : List Crawler) (c : Crawler) (rs : List ServiceResult)
      (lost : List ℤ)
      → IsHeld db (rs ++ held (before ++ after)) lost
      → ((j : ℤ) → count j (ids db (held_by c)) ≡ count j (ids db rs))
      → IsHeld db (held (before ++ (c ∷ after))) lost
  put db before after c rs lost h same = record {
    consistent = h.consistent;
    placed =
        Placed-reorder db (ids db (rs ++ held (before ++ after)) ++ lost)
          (ids db (held (before ++ (c ∷ after))) ++ lost) h.placed
          (λ j. omega (
            arith,
            same j,
            count-held j db before after c,
            count-ids j db rs (held (before ++ after)),
            count-append j (ids db (held (before ++ (c ∷ after)))) lost,
            count-append j (ids db (rs ++ held (before ++ after))) lost,
          ));
  }

  -- Growing keeps what is in hand.
  pub grown :
      (db db' : AddrDb F) (rs : List ServiceResult) (lost : List ℤ)
      → IsHeld db rs lost
      → Grows db db'
      → IsConsistent db'
      → IsHeld db' rs lost
  grown db db' rs lost h g c = record {
    consistent = c;
    placed =
        rw
          (Grows-ids db db' rs h.consistent g
            (λ j. omega (arith, h.placed j, count-append j (ids db rs) lost)))
          (g.places (ids db rs ++ lost) h.placed);
  }

  room : (n : ℕ) (db : AddrDb F) → IsConsistent db → HasSpace (suc n) db → HasRoom db
  room n db c h = ground (arith, c.next)

  space : (n : ℕ) (db db' : AddrDb F) → Grows db db' → HasSpace (suc n) db → HasSpace n db'
  space n db db' g h = omega (arith, g.next)

module _ {F : Type 0} ⦃fl : Float F⦄ where
  pub announce-IsHeld :
      (clock : ℕ → ℤ) (k : ℕ) (addrs : List Address) (rs : List ServiceResult) (lost : List ℤ)
      (db : AddrDb F)
      → HasSpace (length addrs) db
      → IsHeld db rs lost
      → IsHeld (announce clock k addrs db) rs lost
  unfolding announce
  announce-IsHeld clock k [] rs lost db sp h = h
  announce-IsHeld clock k (a ∷ addrs) rs lost db sp h =
      let db' = add_address a false (clock k) db in
      let g : Grows db db' =
        unfold add_address in add_raw-Grows _ a.services a.time false (clock k) db h.consistent in
      let c : IsConsistent db' =
        unfold add_address in
        add_raw-IsConsistent _ a.services a.time false (clock k) db h.consistent
          (room (length addrs) db h.consistent sp) in
      announce-IsHeld clock (k + 1) addrs rs lost db' (space (length addrs) db db' g sp)
        (grown db db' rs lost h g c)

  -- Services keep their ids while addresses are added.
  pub announce-stays :
      (clock : ℕ → ℤ) (k : ℕ) (addrs : List Address) (db : AddrDb F) (s : Service) (id : ℤ)
      → HasSpace (length addrs) db
      → IsConsistent db
      → get s db.ip_to_id ≡ some id
      → get s (announce clock k addrs db).ip_to_id ≡ some id
  unfolding announce
  announce-stays clock k [] db s id sp c e = e
  announce-stays clock k (a ∷ addrs) db s id sp c e =
      let db' = add_address a false (clock k) db in
      let g : Grows db db' =
        unfold add_address in add_raw-Grows _ a.services a.time false (clock k) db c in
      let c' : IsConsistent db' =
        unfold add_address in
        add_raw-IsConsistent _ a.services a.time false (clock k) db c
          (room (length addrs) db c sp) in
      announce-stays clock (k + 1) addrs db' s id (space (length addrs) db db' g sp) c'
        (g.stays s id e)

  pub seed-stays :
      (port : ℕ) (ips : List NetAddr) (db : AddrDb F) (s : Service) (id : ℤ)
      → HasSpace (length ips) db
      → IsConsistent db
      → get s db.ip_to_id ≡ some id
      → get s (seed port ips db).ip_to_id ≡ some id
  unfolding seed
  seed-stays port [] db s id sp c e = e
  seed-stays port (ip ∷ ips) db s id sp c e =
      let new : Service = record { addr = ip; port = port } in
      let db' = add_service new true db in
      let g = add_service-Grows new true db c in
      seed-stays port ips db' s id (space (length ips) db db' g sp)
        (add_service-IsConsistent new true db c (room (length ips) db c sp)) (g.stays s id e)

  pub seed-IsHeld :
      (port : ℕ) (ips : List NetAddr) (rs : List ServiceResult) (lost : List ℤ) (db : AddrDb F)
      → HasSpace (length ips) db
      → IsHeld db rs lost
      → IsHeld (seed port ips db) rs lost
  unfolding seed
  seed-IsHeld port [] rs lost db sp h = h
  seed-IsHeld port (ip ∷ ips) rs lost db sp h =
      let s : Service = record { addr = ip; port = port } in
      let db' = add_service s true db in
      let g = add_service-Grows s true db h.consistent in
      seed-IsHeld port ips rs lost db' (space (length ips) db db' g sp) (
        grown db db' rs lost h g
          (add_service-IsConsistent s true db h.consistent (room (length ips) db h.consistent sp)))
