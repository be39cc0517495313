-- ===== src/Crawler/Lost.antt =====
-- What becomes of the nodes that are in hand when seeder.dat is written: they are in no queue after
-- a restart with that file, nor ever again.
use satoxcoin_seeder.Prelude.{
  subst, sym, ℕ, ◌<◌, ◌≡◌, ap, ◌∙◌, Bool, false, Option, none, some, List, [], ◌∷◌, ◌++◌, get_elem?,
  replicate, arith, ℤ, int_eq, append-nil,
}
use satoxcoin_seeder.Prelude.Dict.{get, contains}
use satoxcoin_seeder.App.{AppState}
use satoxcoin_seeder.Net.{Service}
use satoxcoin_seeder.Db.{ServiceResult, service_eq, lookup_id}
use satoxcoin_seeder.Db.Stat.{Float}
use satoxcoin_seeder.Db.Crawl.{get_many}
use satoxcoin_seeder.Db.Consistent.{Known}
use satoxcoin_seeder.Db.Held.{count, Placed, count-append}
use satoxcoin_seeder.Crawler.{start}
use satoxcoin_seeder.Crawler.System.{
  idle, testing, System, held, ids, absent_ids, restart, saved_db, saved_missing, Step, Reach,
  later, save, reboot, take_batch, test_next, die, give_back, add_seeds, Saved,
}
use satoxcoin_seeder.Crawler.Places.{count-ids, Placed-reorder, get_many_from-IsBatch}
use satoxcoin_seeder.Crawler.Sound.{IsSound, taken, announce-stays, seed-stays}
use satoxcoin_seeder.Crawler.Safety.{occurs}
use satoxcoin_seeder.Crawler.Reachable.{Reach-IsSound}
use satoxcoin_seeder.Crawler.Stays.{gone, in_hand, results-stay, start-stays}

-- Several steps.
pub data Steps {F : Type 0} ⦃fl : Float F⦄ (digest : List ℕ → List ℕ) (state : AppState)
    (s : System F) : System F → Type 0 where
  stay : Steps digest state s s
  and_step :
      {t u : System F} → Steps digest state s t → Step digest state t u → Steps digest state s u

module _ {F : Type 0} where
  -- A file in which an id with its service is in no queue.
  abbrev FileLost : Service → ℤ → Option (Saved F) → Type 0
  FileLost sv id none = ⊥
  FileLost sv id (some f) = (0 < count id f.missing) × (get sv f.db.ip_to_id ≡ some id)

  -- An id that is lost, now and in the file, with the service that it stands for in both.
  record IsLost (sv : Service) (id : ℤ) (s : System F) : Type 0 where
    present : 0 < count id s.lost
    stands : get sv s.db.ip_to_id ≡ some id
    file : FileLost sv id s.file

module _ {F : Type 0} ⦃fl : Float F⦄ where
  reboot-IsLost :
      (wipe_ban wipe_ignore : Bool) (port : ℕ) (v : ℤ) (threads : ℕ) (sv : Service) (id : ℤ)
      (s : System F)
      → FileLost sv id s.file
      → IsLost sv id (restart wipe_ban wipe_ignore port v threads s)
  unfolding restart
  reboot-IsLost wipe_ban wipe_ignore port v threads sv id s h = from_file s.file h
    where
      from_file :
          (file : Option (Saved F))
          → FileLost sv id file
          → IsLost sv id (record {
            db = start wipe_ban wipe_ignore port v (saved_db file);
            crawlers = replicate threads idle;
            file = file;
            lost = saved_missing file;
          })
      from_file none h = absurd h
      from_file (some f) h =
          unfold saved_db saved_missing in
          record {
            present = h.0;
            stands = start-stays wipe_ban wipe_ignore port v f sv id h.1;
            file = h;
          }

module _ {F : Type 0} ⦃fl : Float F⦄ (digest : List ℕ → List ℕ) (state : AppState) where
  Step-IsLost :
      (sv : Service) (id : ℤ) {s t : System F}
      → IsSound s
      → IsLost sv id s
      → Step digest state s t
      → IsLost sv id t
  unfolding get_many absent_ids
  Step-IsLost sv id {s} w h (take_batch before after draws clock fair e) =
      let (_, _, same) =
        get_many_from-IsBatch draws clock 0 16 (absent_ids s) s.db fair w.now.consistent
          w.now.placed in
      record { present = h.present; stands = ap (λ m. get sv m) same ∙ h.stands; file = h.file }
  Step-IsLost sv id {s} w h
        (test_next before after r todo done peer sent_at batch_at tip explorer clock hs e run sp) =
      record {
        present = h.present;
        stands = announce-stays clock 0 hs.addresses s.db sv id sp w.now.consistent h.stands;
        file = h.file;
      }
  Step-IsLost sv id {s} w h (die before after r todo done peer sent_at batch_at tip e run) =
      record {
        present = omega (arith, count-append id (ids s.db (done ++ (r ∷ todo))) s.lost, h.present);
        stands = h.stands;
        file = h.file;
      }
  Step-IsLost sv id {s} w h (give_back before after done clock e) =
      let hand = taken s.db s.crawlers before after (testing [] done) s.lost w.now e in
      let others = held (before ++ after) in
      let placed : Placed s.db (ids s.db done ++ (ids s.db others ++ s.lost)) =
        Placed-reorder s.db (ids s.db ((done ++ []) ++ others) ++ s.lost)
          (ids s.db done ++ (ids s.db others ++ s.lost)) hand.placed
          (λ j. rw (append-nil done) (
            omega (
              arith,
              count-append j (ids s.db (done ++ others)) s.lost,
              count-ids j s.db done others,
              count-append j (ids s.db done) (ids s.db others ++ s.lost),
              count-append j (ids s.db others) s.lost,
            ))) in
      record {
        present = h.present;
        stands =
            results-stay clock 0 done (ids s.db others ++ s.lost) s.db sv id w.now.consistent placed
              (omega (arith, count-append id (ids s.db others) s.lost, h.present)) h.stands;
        file = h.file;
      }
  Step-IsLost sv id {s} w h (add_seeds port ips sp) = record {
    present = h.present;
    stands = seed-stays port ips s.db sv id sp w.now.consistent h.stands;
    file = h.file;
  }
  Step-IsLost sv id {s} w h save = record {
    present = h.present;
    stands = h.stands;
    file =
        (omega (arith, count-append id (ids s.db (held s.crawlers)) s.lost, h.present), h.stands);
  }
  Step-IsLost sv id {s} w h (reboot wipe_ban wipe_ignore port v threads) =
      reboot-IsLost wipe_ban wipe_ignore port v threads sv id s h.file

  Steps-IsLost :
      (sv : Service) (id : ℤ) {s u : System F}
      → Reach digest state s
      → IsLost sv id s
      → Steps digest state s u
      → IsLost sv id u × Reach digest state u
  Steps-IsLost sv id r h stay = (h, r)
  Steps-IsLost sv id r h (and_step steps step) =
      let (k, q) = Steps-IsLost sv id r h steps in
      (Step-IsLost sv id (Reach-IsSound digest state _ q) k step, later q step)

  -- A node that a crawler holds in the state `s` in which seeder.dat is written is never tested again
  -- after a restart with that file, whenever the process ends, whatever steps and further restarts
  -- follow: its service keeps its id and its entry, but the id is in no queue and in the hands of no
  -- crawler.
  pub Reach-restart :
      (s p u : System F) (i : ℕ) (r : ServiceResult) (wipe_ban wipe_ignore : Bool) (port : ℕ)
      (v : ℤ) (threads : ℕ)
      → Reach digest state s
      → get_elem? (held s.crawlers) i ≡ some r
      → Reach digest state p
      → p.file ≡ some (record { db = s.db; missing = absent_ids s })
      → Steps digest state (restart wipe_ban wipe_ignore port v threads p) u
      → let id = lookup_id r.service s.db in
        Reach digest state u
        × (get r.service u.db.ip_to_id ≡ some id)
        × Known u.db id
        × (contains id u.db.our_id ≡ false)
        × (contains id u.db.unk_id ≡ false)
        × (contains id (ids u.db (held u.crawlers)) ≡ false)
  unfolding absent_ids
  Reach-restart s p u i r wipe_ban wipe_ignore port v threads reach hi before e steps =
      let id = lookup_id r.service s.db in
      let w = (Reach-IsSound digest state s reach).now in
      let hand = occurs s.db (held s.crawlers) i r hi in
      let present : 0 < count id (absent_ids s) =
        omega (arith, hand, count-append id (ids s.db (held s.crawlers)) s.lost) in
      let stands : get r.service s.db.ip_to_id ≡ some id =
        in_hand r.service s.db (absent_ids s) w.consistent w.placed present in
      let file : FileLost r.service id p.file =
        subst (FileLost r.service id) (sym e) (present, stands) in
      let (h, q) =
        Steps-IsLost r.service id (later before (reboot wipe_ban wipe_ignore port v threads))
          (reboot-IsLost wipe_ban wipe_ignore port v threads r.service id p file) steps in
      let (no_our, no_unk, no_hand, known) =
        gone u.db (ids u.db (held u.crawlers)) u.lost id (Reach-IsSound digest state u q).now.placed
          h.present in
      (q, h.stands, known, no_our, no_unk, no_hand)
