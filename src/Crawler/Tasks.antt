-- ===== src/Crawler/Tasks.antt =====
-- What the tasks do with the nodes in hand: batches, results, and the start of the process.
use satoxcoin_seeder.Prelude.{
  ℕ, ◌≡◌, refl, ap, Bool, Option, none, some, List, [], ◌∷◌, ◌++◌, arith, append-nil, append_assoc,
  if◌then◌else◌, if_holds, ℤ, int_eq,
}
use satoxcoin_seeder.Prelude.Dict.{get}
use satoxcoin_seeder.Handshake.{HandshakeResult}
use satoxcoin_seeder.Db.{AddrDb, ServiceResult, new_db, restore_from, reset_ignores, result_many}
use satoxcoin_seeder.Db.Stat.{Float}
use satoxcoin_seeder.Db.Crawl.{Draw, IsDraw, get_many}
use satoxcoin_seeder.Db.Consistent.{new_db-IsConsistent}
use satoxcoin_seeder.Db.Keeps.{reset_ignores-IsConsistent, unbanned-IsConsistent}
use satoxcoin_seeder.Db.Held.{count, count-append}
use satoxcoin_seeder.Db.Enters.{reset_ignores-Grows}
use satoxcoin_seeder.Crawler.{judge, load, start, timed}
use satoxcoin_seeder.Crawler.Places.{
  ids-append, count-ids, Placed-reorder, same_ids, result_many-Placed, get_many_from-IsBatch,
}
use satoxcoin_seeder.Crawler.System.{begin_batch, held_by, ids, Saved, saved_db, saved_missing}
use satoxcoin_seeder.Crawler.Sound.{IsSaved, IsHeld, grown}

module _ {F : Type 0} ⦃fl : Float F⦄ where
  -- A batch is handed out to a crawler that has none.
  pub batch_taken :
      (draws : ℕ → ℕ → Draw) (clock : ℕ → ℤ) (rs : List ServiceResult) (lost : List ℤ)
      (db : AddrDb F)
      → ((j k : ℕ) → IsDraw (draws j k))
      → IsHeld db rs lost
      → IsHeld (get_many draws clock 16 db).0 ((get_many draws clock 16 db).1 ++ rs) lost
  unfolding get_many
  batch_taken draws clock rs lost db fair h =
      let (c, p, same) =
        get_many_from-IsBatch draws clock 0 16 (ids db rs ++ lost) db fair h.consistent h.placed in
      let db' = (get_many draws clock 16 db).0 in
      let got = (get_many draws clock 16 db).1 in
      record {
        consistent = c;
        placed =
            Placed-reorder db' (ids db' got ++ (ids db rs ++ lost)) (ids db' (got ++ rs) ++ lost) p
              (λ j. rw (ids-append db' got rs) (
                omega (
                  arith,
                  ap (count j) (same_ids db db' rs same),
                  count-append j (ids db' got) (ids db rs ++ lost),
                  count-append j (ids db rs) lost,
                  count-append j (ids db' got ++ ids db' rs) lost,
                  count-append j (ids db' got) (ids db' rs),
                )));
      }

  pub begin_batch-ids :
      (j : ℤ) (db : AddrDb F) (rs : List ServiceResult)
      → count j (ids db (held_by (begin_batch rs))) ≡ count j (ids db rs)
  unfolding begin_batch
  begin_batch-ids j db [] = refl
  begin_batch-ids j db (r ∷ rs) = refl

  -- A result stands for the node that was tested.
  pub judge-ids :
      (j : ℤ) (db : AddrDb F) (r : ServiceResult) (todo done : List ServiceResult)
      (from_explorer : Bool) (tip : ℤ) (h : HandshakeResult)
      → count j (ids db ((done ++ (judge r from_explorer tip h ∷ [])) ++ todo))
        ≡ count j (ids db (done ++ (r ∷ todo)))
  unfolding judge ids
  judge-ids j db r todo done from_explorer tip h =
      rw (append_assoc done (judge r from_explorer tip h ∷ []) todo) (
        omega (
          arith,
          count-ids j db done (judge r from_explorer tip h ∷ todo),
          count-ids j db done (r ∷ todo),
        ))

  pub given_back :
      (clock : ℕ → ℤ) (done rs : List ServiceResult) (lost : List ℤ) (db : AddrDb F)
      → IsHeld db ((done ++ []) ++ rs) lost
      → IsHeld (result_many (timed clock 0 done) db) rs lost
  given_back clock done rs lost db h =
      let (c, p) =
        result_many-Placed clock 0 done rs lost db h.consistent
          (rw (append-nil done) at h.placed) in
      record { consistent = c; placed = p }

  -- The database at the start of the process.
  load-IsHeld :
      (port : ℕ) (v : ℤ) (file : Option (Saved F))
      → IsSaved file
      → IsHeld (load port v (saved_db file)) [] (saved_missing file)
  unfolding load saved_db saved_missing restore_from ids new_db count get
  load-IsHeld port v none h = record {
    consistent = unfold new_db in new_db-IsConsistent port v;
    placed = λ j. refl;
  }
  load-IsHeld port v (some f) (c, p) = record {
    consistent = record {
      next = c.next;
      by_service = c.by_service;
      by_id = c.by_id;
      in_use = c.in_use;
      unk_known = c.unk_known;
      our_known = c.our_known;
      good_known = c.good_known;
    };
    placed = p;
  }

  pub start-IsHeld :
      (wipe_ban wipe_ignore : Bool) (port : ℕ) (v : ℤ) (file : Option (Saved F))
      → IsSaved file
      → IsHeld (start wipe_ban wipe_ignore port v (saved_db file)) [] (saved_missing file)
  unfolding start ids
  start-IsHeld wipe_ban wipe_ignore port v file h =
      let db = load port v (saved_db file) in
      let loaded = load-IsHeld port v file h in
      let good : AddrDb F → Type 0 = λ x. IsHeld x [] (saved_missing file) in
      let unbanned = if wipe_ban then record db { banned = [] } else db in
      let wiped : IsHeld unbanned [] (saved_missing file) =
        if_holds good (record db { banned = [] }) db wipe_ban
          (record {
            consistent = unbanned-IsConsistent db [] loaded.consistent;
            placed = loaded.placed;
          })
          loaded in
      if_holds good (reset_ignores unbanned) unbanned wipe_ignore
        (grown unbanned (reset_ignores unbanned) [] (saved_missing file) wiped
          (reset_ignores-Grows unbanned) (reset_ignores-IsConsistent unbanned wiped.consistent))
        wiped
