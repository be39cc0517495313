-- ===== src/Crawler/Examples.antt =====
-- One crawler, with a batch of one node.
use satoxcoin_seeder.Prelude.{
  ℕ, ◌+◌, ◌-◌, ◌≤◌, ◌≡◌, refl, false, none, some, List, [], ◌∷◌, ◌++◌, replicate, pos, arith,
  add_i32, int_eq,
}
use satoxcoin_seeder.Prelude.Dict.{get, insert, add, contains, discard, beq_self}
use satoxcoin_seeder.Message.{serialize_header}
use satoxcoin_seeder.Message.Examples.{net_state}
use satoxcoin_seeder.Handshake.{Peer, test_node, aborted}
use satoxcoin_seeder.Handshake.Hostile.{hostile, hostile_header, hostile_payload}
use satoxcoin_seeder.Db.{new_db, restore_from, service_eq, add_service, enter, dirty, lookup_id}
use satoxcoin_seeder.Db.Stat.{new_info, new_stat}
use satoxcoin_seeder.Db.Crawl.{
  Draw, IsDraw, get_many, get_many_from, get_one, turns, turn, take_unknown, take_tracked, hand_out,
}
use satoxcoin_seeder.Db.Examples.{whole, service, empty, one_node, given}
use satoxcoin_seeder.Crawler.{seed, start, load, n_active, wants_addresses}
use satoxcoin_seeder.Db.Serve.{get_stats}
use satoxcoin_seeder.Db.Consistent.{Known}
use satoxcoin_seeder.Net.{IpAddr, socket_addr, to_ip_addr, to_ipv4_addr, is_ipv4}
use satoxcoin_seeder.Crawler.System.{
  idle, testing, begin_batch, held, ids, System, take_batch, add_seeds, reboot, initial, Step,
  Reach, first, later, save, absent_ids, restart, saved_db, saved_missing,
}
use satoxcoin_seeder.Crawler.Sound.{IsSound}
use satoxcoin_seeder.Crawler.Reachable.{Reach-IsSound}
use satoxcoin_seeder.Crawler.Safety.{Reach-alone, Reach-n_active}
use satoxcoin_seeder.Crawler.Lost.{stay, and_step, Reach-restart}
use satoxcoin_seeder.Crawler.Deaths.{Reach-die}

abbrev digest : List ℕ → List ℕ
digest bs = replicate 32 0

abbrev draw : Draw
draw = record { rnd = 0; last_of = λ x s. x }

draw-IsDraw : IsDraw draw
unfolding contains
draw-IsDraw = record { member = λ x s. ground (arith, beq_self x) }

abbrev fresh : System ℕ
fresh = record { db = empty; crawlers = idle ∷ []; file = none; lost = [] }

fresh-Reach : Reach digest net_state fresh
unfolding initial new_db restart start load saved_db saved_missing
fresh-Reach = later (first 60777 (pos 70000)) (reboot false false 60777 (pos 70000) 1)

abbrev ready : System ℕ
ready = record fresh { db = one_node }

ready-Reach : Reach digest net_state ready
unfolding seed add_service enter new_info new_stat get insert add contains add_i32
ready-Reach = later fresh-Reach (add_seeds 60777 (service.addr ∷ []) (omega arith))

abbrev busy : System ℕ
busy = record fresh {
  db = record one_node { unk_id = []; n_dirty = pos 2 };
  crawlers = testing (given ∷ []) [] ∷ [];
}

busy-Reach : Reach digest net_state busy
unfolding get_many get_many_from get_one turns turn take_unknown take_tracked hand_out get discard
    dirty add_i32 begin_batch
busy-Reach =
    later ready-Reach
      (take_batch [] [] (λ j k. draw) (λ j. pos 1700000000) (λ j k. draw-IsDraw) refl)

Reach-IsSound_example : IsSound busy
Reach-IsSound_example = Reach-IsSound digest net_state busy busy-Reach

Reach-alone_example : ◌≡◌ {A = ℕ} 0 0
unfolding held
Reach-alone_example = Reach-alone digest net_state busy 0 0 given given busy-Reach refl refl refl

Reach-n_active_example :
    let stats = get_stats (pos 1700000100) busy.db in
    (stats.n_tracked + stats.n_new ≤ stats.n_avail)
    × (n_active stats ≡ stats.n_avail - (stats.n_tracked + stats.n_new))
Reach-n_active_example =
    Reach-n_active digest net_state busy (pos 1700000100) busy-Reach (omega arith)

-- A restart with the file that is written while the node is in hand, and an announcement of it
-- that does not queue it again.
abbrev written : System ℕ
written = record busy { file = some (record { db = busy.db; missing = absent_ids busy }) }

abbrev lonely : System ℕ
lonely =
    let t = restart false false 60777 (pos 70000) 1 written in
    record t { db = seed 60777 (service.addr ∷ []) t.db }

Reach-restart_example :
    let id = lookup_id given.service busy.db in
    Reach digest net_state lonely
    × (get given.service lonely.db.ip_to_id ≡ some id)
    × Known lonely.db id
    × (contains id lonely.db.our_id ≡ false)
    × (contains id lonely.db.unk_id ≡ false)
    × (contains id (ids lonely.db (held lonely.crawlers)) ≡ false)
unfolding held restart start load saved_db restore_from
Reach-restart_example =
    Reach-restart digest net_state busy written lonely 0 given false false 60777 (pos 70000) 1
      busy-Reach refl (later busy-Reach save) refl
      (and_step stay (add_seeds 60777 (service.addr ∷ []) (omega arith)))

abbrev node : Peer
node = hostile digest net_state

abbrev fallen : System ℕ
fallen = record busy { crawlers = []; lost = ids busy.db (given ∷ []) ++ [] }

Reach-die_example :
    (node.chunks ≡ (serialize_header (hostile_header digest net_state) ++ hostile_payload) ∷ [])
    × (test_node digest net_state node given.service
          (pos 1700000000)
          (pos 1)
          (wants_addresses given (pos 1700000000))
        ≡ aborted)
    × Step digest net_state busy fallen
    × Reach digest net_state fallen
unfolding socket_addr to_ip_addr to_ipv4_addr is_ipv4
Reach-die_example =
    Reach-die digest net_state busy [] [] given [] []
      (record { host = IpAddr.v4 (record { o0 = 8; o1 = 8; o2 = 4; o3 = 4 }); port = 60777 })
      (pos 1700000000) (pos 1700000000) (pos 1) (λ bs. refl) refl busy-Reach refl refl
