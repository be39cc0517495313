-- ===== src/Db/Bans.antt =====
-- A banned node leaves the database, and an announcement does not bring it back.
use satoxcoin_seeder.Prelude.{
  ℕ, ◌≡◌, refl, ◌⊎◌, inl, sym, ap, ◌∙◌, true, false, none, some, arith, ℤ, pos, ltb_ℤ, ◌≤ℤ◌, ◌<ℤ◌,
  add_i64, int_eq,
}
use satoxcoin_seeder.Prelude.Dict.{get, discard, contains, get-insert, get-remove, beq_self}
use satoxcoin_seeder.Net.{Service}
use satoxcoin_seeder.Db.Stat.{AddrInfo, Float, update_info}
use satoxcoin_seeder.Db.{
  AddrDb, ServiceResult, service_eq, lookup_id, dirty, ban_for, expel, bad_entry, bad, add_raw,
}
use satoxcoin_seeder.Db.Consistent.{IsConsistent}
use satoxcoin_seeder.Db.Queues.{discarded, lookup_known}
use satoxcoin_seeder.Db.Results.{update_info-service}

module _ {F : Type 0} ⦃fl : Float F⦄ where
  -- An unforced announcement of a banned node changes nothing while the ban lasts, and
  -- neither afterwards if it was last seen before the end of the ban.
  pub add_raw-banned :
      (s : Service) (services time : ℕ) (now till : ℤ) (db : AddrDb F)
      → get s db.banned ≡ some till
      → (now ≤ℤ till) ⊎ (pos time ≤ℤ till)
      → add_raw s services time false now db ≡ db
  unfolding add_raw
  add_raw-banned s services time now till db h early = rw h (ground arith)

  -- The ban that a failed node gets is at least the one that was reported.
  ban_for-least : (res : ServiceResult) (v : ℤ) (i : AddrInfo F) → res.ban_time ≤ℤ ban_for res v i
  unfolding ban_for
  ban_for-least res v i = ground arith

  expelled :
      (s : Service) (till id : ℤ) (db : AddrDb F)
      → (get s (expel s till id db).ip_to_id ≡ none)
        × (get id (expel s till id db).id_to_info ≡ none)
        × (contains id (expel s till id db).good_id ≡ false)
        × (get s (expel s till id db).banned ≡ some till)
  unfolding expel
  expelled s till id db = (
    rw (get-remove s s db.ip_to_id, beq_self s) refl,
    rw (get-remove id id db.id_to_info, beq_self id) refl,
    discarded id db.good_id,
    rw (get-insert s s till db.banned, beq_self s) refl,
  )

  bad_entry-expels :
      (res : ServiceResult) (now id : ℤ) (info : AddrInfo F) (db : AddrDb F)
      → get id db.id_to_info ≡ some info
      → pos 0 <ℤ res.ban_time
      → bad_entry res now id db
        ≡ expel info.service
            (add_i64 (ban_for res db.min_peer_proto_version (update_info false now info)) now)
            id
            db
  unfolding bad_entry
  bad_entry-expels res now id info db h b =
      let i = update_info false now info in
      let ban = ban_for res db.min_peer_proto_version i in
      let least = ban_for-least res db.min_peer_proto_version i in
      let positive : ltb_ℤ (pos 0) ban ≡ true = ground (arith, least, b) in
      rw (h, bad_entry, positive, update_info-service false now info) refl

  bad-expels :
      (res : ServiceResult) (now : ℤ) (info : AddrInfo F) (db : AddrDb F)
      → ltb_ℤ (lookup_id res.service db) (pos 0) ≡ false
      → get (lookup_id res.service db) db.id_to_info ≡ some info
      → info.service ≡ res.service
      → pos 0 <ℤ res.ban_time
      → bad res now db
        ≡ dirty (
            expel res.service
              (add_i64 (ban_for res db.min_peer_proto_version (update_info false now info)) now)
              (lookup_id res.service db)
              (record db { unk_id = discard (lookup_id res.service db) db.unk_id }))
  unfolding bad
  bad-expels res now info db known e named b =
      let id = lookup_id res.service db in
      let db1 = record db { unk_id = discard id db.unk_id } in
      let till = add_i64 (ban_for res db.min_peer_proto_version (update_info false now info)) now in
      rw known (
        ap dirty (bad_entry-expels res now id info db1 e b)
        ∙ ap (λ s. dirty (expel s till id db1)) named)

  -- A failed handshake that reports a ban takes a known node out of both maps and out of the good
  -- ids, and while the ban lasts an unforced announcement of it changes nothing.
  pub bad-bans :
      (res : ServiceResult) (now : ℤ) (info : AddrInfo F) (db : AddrDb F)
      → IsConsistent db
      → ltb_ℤ (lookup_id res.service db) (pos 0) ≡ false
      → get (lookup_id res.service db) db.id_to_info ≡ some info
      → pos 0 <ℤ res.ban_time
      → let after = bad res now db in
        let ban = ban_for res db.min_peer_proto_version (update_info false now info) in
        (get res.service after.ip_to_id ≡ none)
        × (get (lookup_id res.service db) after.id_to_info ≡ none)
        × (contains (lookup_id res.service db) after.good_id ≡ false)
        × ((services time : ℕ) (later : ℤ)
            → later ≤ℤ add_i64 ban now
            → add_raw res.service services time false later after ≡ after)
  bad-bans res now info db c known e b =
      let id = lookup_id res.service db in
      let till = add_i64 (ban_for res db.min_peer_proto_version (update_info false now info)) now in
      let (i, e', same) = lookup_known db c res.service known in
      let one : some i ≡ some info = sym e' ∙ e in
      let named : info.service ≡ res.service = ground (arith, one, same) in
      let (no_id, no_info, not_good, barred) =
        expelled res.service till id (record db { unk_id = discard id db.unk_id }) in
      rw (bad-expels res now info db known e named b) (
        unfold dirty in
        (
          no_id,
          no_info,
          not_good,
          λ services time later early.
              add_raw-banned res.service services time later till _ barred (inl early),
        ))
