-- ===== src/Crawler/Reachable.antt =====
-- What holds in every state that the seeder can reach, whatever the order of its tasks' steps, the
-- random numbers, and the peers are.
use satoxcoin_seeder.Prelude.{ℕ, refl, List, [], ◌∷◌, ◌++◌, arith, ℤ, int_eq}
use satoxcoin_seeder.Prelude.Dict.{get}
use satoxcoin_seeder.App.{AppState}
use satoxcoin_seeder.Db.{new_db, result_many}
use satoxcoin_seeder.Db.Stat.{Float}
use satoxcoin_seeder.Db.Crawl.{get_many}
use satoxcoin_seeder.Db.Consistent.{new_db-IsConsistent}
use satoxcoin_seeder.Db.Held.{count, count-append}
use satoxcoin_seeder.Crawler.{judge, announce, timed}
use satoxcoin_seeder.Crawler.Places.{held-idle, ids-append, Placed-reorder}
use satoxcoin_seeder.Crawler.System.{
  idle, testing, begin_batch, held, ids, System, absent_ids, restart, Step, take_batch, test_next,
  die, give_back, add_seeds, save, reboot, initial, Reach, first, later,
}
use satoxcoin_seeder.Crawler.Sound.{IsSound, taken, put, announce-IsHeld, seed-IsHeld}
use satoxcoin_seeder.Crawler.Tasks.{
  batch_taken, begin_batch-ids, judge-ids, given_back, start-IsHeld,
}

module _ {F : Type 0} ⦃fl : Float F⦄ (digest : List ℕ → List ℕ) (state : AppState) where
  initial-IsSound : (port : ℕ) (v : ℤ) → IsSound {F = F} (initial port v)
  unfolding initial held ids new_db count get
  initial-IsSound port v = record {
    now = record { consistent = unfold new_db in new_db-IsConsistent port v; placed = λ j. refl };
    saved = tt;
  }

  Step-IsSound : {s t : System F} → IsSound s → Step digest state s t → IsSound t
  unfolding restart absent_ids
  Step-IsSound {s} h (take_batch before after draws clock fair e) =
      let hand = taken s.db s.crawlers before after idle s.lost h.now e in
      let got = get_many draws clock 16 s.db in
      record {
        now =
            put got.0 before after (begin_batch got.1) got.1 s.lost
              (batch_taken draws clock (held (before ++ after)) s.lost s.db fair hand)
              (λ j. begin_batch-ids j got.0 got.1);
        saved = h.saved;
      }
  Step-IsSound {s} h
        (test_next before after r todo done peer sent_at batch_at tip explorer clock hs e run sp) =
      let db = announce clock 0 hs.addresses s.db in
      let hand =
        taken db s.crawlers before after (testing (r ∷ todo) done) s.lost
          (announce-IsHeld clock 0 hs.addresses (held s.crawlers) s.lost s.db sp h.now) e in
      record {
        now =
            put db before after (testing todo (done ++ (judge r explorer tip hs ∷ [])))
              (done ++ (r ∷ todo)) s.lost hand (λ j. judge-ids j db r todo done explorer tip hs);
        saved = h.saved;
      }
  Step-IsSound {s} h (die before after r todo done peer sent_at batch_at tip e run) =
      let hand = taken s.db s.crawlers before after (testing (r ∷ todo) done) s.lost h.now e in
      let mine = ids s.db (done ++ (r ∷ todo)) in
      let others = ids s.db (held (before ++ after)) in
      record {
        now = record {
          consistent = hand.consistent;
          placed =
              Placed-reorder s.db
                (ids s.db ((done ++ (r ∷ todo)) ++ held (before ++ after)) ++ s.lost)
                (others ++ (mine ++ s.lost)) hand.placed
                (λ j. rw (ids-append s.db (done ++ (r ∷ todo)) (held (before ++ after))) (
                  omega (
                    arith,
                    count-append j others (mine ++ s.lost),
                    count-append j mine s.lost,
                    count-append j (mine ++ others) s.lost,
                    count-append j mine others,
                  )));
        };
        saved = h.saved;
      }
  Step-IsSound {s} h (give_back before after done clock e) =
      let hand = taken s.db s.crawlers before after (testing [] done) s.lost h.now e in
      let db = result_many (timed clock 0 done) s.db in
      record {
        now =
            put db before after idle [] s.lost
              (given_back clock done (held (before ++ after)) s.lost s.db hand) (λ j. refl);
        saved = h.saved;
      }
  Step-IsSound {s} h (add_seeds port ips sp) = record {
    now = seed-IsHeld port ips (held s.crawlers) s.lost s.db sp h.now;
    saved = h.saved;
  }
  Step-IsSound {s} h save = record { now = h.now; saved = (h.now.consistent, h.now.placed) }
  Step-IsSound {s} h (reboot wipe_ban wipe_ignore port v threads) = record {
    now = rw (held-idle threads) (start-IsHeld wipe_ban wipe_ignore port v s.file h.saved);
    saved = h.saved;
  }

  -- In every state that the seeder can reach, the database is consistent, and each of its ids is in
  -- exactly one place: among the tracked nodes, among the untested ones, in the hands of one
  -- crawler, or lost with a crawler or a process that ended while it held the node. The same holds
  -- of the file, with the ids that were in hand or lost when it was written. (Steps that add addresses
  -- are taken while there is room for their ids.)
  pub Reach-IsSound : (s : System F) → Reach digest state s → IsSound s
  Reach-IsSound s (first port v) = initial-IsSound port v
  Reach-IsSound s (later r step) = Step-IsSound (Reach-IsSound _ r) step
