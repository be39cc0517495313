-- ===== src/Crawler/System.antt =====
-- The tasks of the seeder over one database: the crawlers, the seeder task, the dumper, and the
-- process that ends and starts again. A step is what a task does under one write lock; the tasks
-- that only read change nothing. Each crawler is an entry of a list.
use satoxcoin_seeder.Prelude.{
  ℕ, ◌+◌, ◌^◌, ◌<◌, ◌≡◌, Bool, Option, none, some, List, [], ◌∷◌, ◌++◌, length, replicate, ℤ,
  pos_part,
}
use satoxcoin_seeder.Net.{NetAddr}
use satoxcoin_seeder.App.{AppState}
use satoxcoin_seeder.Handshake.{Peer, HandshakeResult, test_node, finished, aborted}
use satoxcoin_seeder.Db.{AddrDb, ServiceResult, new_db, lookup_id, result_many}
use satoxcoin_seeder.Db.Stat.{Float}
use satoxcoin_seeder.Db.Crawl.{Draw, IsDraw, get_many}
use satoxcoin_seeder.Crawler.{wants_addresses, judge, timed, announce, seed, start}

-- A crawler sleeps, or has a batch: the nodes still to be tested, and the results so far.
pub data Crawler : Type 0 where
  idle : Crawler
  testing : List ServiceResult → List ServiceResult → Crawler

-- After `get_many`: an empty batch is no batch.
unfoldable pub begin_batch : List ServiceResult → Crawler
begin_batch [] = idle
begin_batch (r ∷ rs) = testing (r ∷ rs) []

-- The nodes that a crawler has taken out of the queues, and those of all crawlers.
abbrev pub held_by : Crawler → List ServiceResult
held_by idle = []
held_by (testing todo done) = done ++ todo

unfoldable pub held : List Crawler → List ServiceResult
held [] = []
held (c ∷ cs) = held_by c ++ held cs

module _ {F : Type 0} where
  unfoldable pub ids : AddrDb F → List ServiceResult → List ℤ
  ids db [] = []
  ids db (r ∷ rs) = lookup_id r.service db ∷ ids db rs

-- What seeder.dat holds. The file is just the database; `missing` is told for the proofs: the ids
-- that stood in no queue when it was written.
pub record Saved (F : Type 0) : Type 0 where
  pub db : AddrDb F
  pub missing : List ℤ

-- `lost` is told for the proofs, too: the ids that a crawler held when it or the process ended.
pub record System (F : Type 0) : Type 0 where
  pub db : AddrDb F
  pub crawlers : List Crawler
  pub file : Option (Saved F)
  pub lost : List ℤ

module _ {F : Type 0} where
  -- The ids outside the queues.
  unfoldable pub absent_ids : System F → List ℤ
  absent_ids s = ids s.db (held s.crawlers) ++ s.lost

  -- There is room for `n` more ids.
  abbrev pub HasSpace : ℕ → AddrDb F → Type 0
  HasSpace n db = pos_part db.n_id + n < 2 ^ 31

  unfoldable pub saved_db : Option (Saved F) → Option (AddrDb F)
  saved_db none = none
  saved_db (some f) = some f.db

  unfoldable pub saved_missing : Option (Saved F) → List ℤ
  saved_missing none = []
  saved_missing (some f) = f.missing

module _ {F : Type 0} ⦃fl : Float F⦄ where
  unfoldable pub restart : Bool → Bool → ℕ → ℤ → ℕ → System F → System F
  restart wipe_ban wipe_ignore wallet_port min_version threads s = record {
    db = start wipe_ban wipe_ignore wallet_port min_version (saved_db s.file);
    crawlers = replicate threads idle;
    file = s.file;
    lost = saved_missing s.file;
  }

  pub data Step (digest : List ℕ → List ℕ) (state : AppState) (s : System F)
      : System F → Type 0 where
    -- A crawler that has no batch asks for one.
    take_batch :
        (before after : List Crawler) (draws : ℕ → ℕ → Draw) (clock : ℕ → ℤ)
        → ((j k : ℕ) → IsDraw (draws j k))
        → s.crawlers ≡ before ++ (idle ∷ after)
        → Step digest state s (record s {
          db = (get_many draws clock 16 s.db).0;
          crawlers = before ++ (begin_batch (get_many draws clock 16 s.db).1 ∷ after);
        })
    -- A crawler tests its next node, and announces the addresses that it got.
    test_next :
        (before after : List Crawler) (r : ServiceResult) (todo done : List ServiceResult)
        (peer : Peer) (sent_at batch_at tip : ℤ) (from_explorer : Bool) (clock : ℕ → ℤ)
        (handshake : HandshakeResult)
        → s.crawlers ≡ before ++ (testing (r ∷ todo) done ∷ after)
        → test_node digest state peer r.service sent_at tip (wants_addresses r batch_at)
          ≡ finished handshake
        → HasSpace (length handshake.addresses) s.db
        → Step digest state s (record s {
          db = announce clock 0 handshake.addresses s.db;
          crawlers =
              before ++ (testing todo (done ++ (judge r from_explorer tip handshake ∷ [])) ∷ after);
        })
    -- A handshake that panics ends the crawler's task.
    die :
        (before after : List Crawler) (r : ServiceResult) (todo done : List ServiceResult)
        (peer : Peer) (sent_at batch_at tip : ℤ)
        → s.crawlers ≡ before ++ (testing (r ∷ todo) done ∷ after)
        → test_node digest state peer r.service sent_at tip (wants_addresses r batch_at) ≡ aborted
        → Step digest state s (record s {
          crawlers = before ++ after;
          lost = ids s.db (done ++ (r ∷ todo)) ++ s.lost;
        })
    -- A crawler that has tested its batch records the results.
    give_back :
        (before after : List Crawler) (done : List ServiceResult) (clock : ℕ → ℤ)
        → s.crawlers ≡ before ++ (testing [] done ∷ after)
        → Step digest state s (record s {
          db = result_many (timed clock 0 done) s.db;
          crawlers = before ++ (idle ∷ after);
        })
    -- The seeder task has looked up a name.
    add_seeds :
        (wallet_port : ℕ) (ips : List NetAddr)
        → HasSpace (length ips) s.db
        → Step digest state s (record s { db = seed wallet_port ips s.db })
    -- The dumper writes seeder.dat, or the process ends and starts again with it.
    save :
        Step digest state s
          (record s { file = some (record { db = s.db; missing = absent_ids s }) })
    reboot :
        (wipe_ban wipe_ignore : Bool) (wallet_port : ℕ) (min_version : ℤ) (threads : ℕ)
        → Step digest state s (restart wipe_ban wipe_ignore wallet_port min_version threads s)

  -- Before the first start there is neither a file nor a task.
  unfoldable pub initial : ℕ → ℤ → System F
  initial wallet_port min_version = record {
    db = new_db wallet_port min_version;
    crawlers = [];
    file = none;
    lost = [];
  }

  pub data Reach (digest : List ℕ → List ℕ) (state : AppState) : System F → Type 0 where
    first :
        (wallet_port : ℕ) (min_version : ℤ) → Reach digest state (initial wallet_port min_version)
    later : {s t : System F} → Reach digest state s → Step digest state s t → Reach digest state t
