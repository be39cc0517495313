-- ===== src/Crawler/Deaths.antt =====
-- A handshake that panics takes its crawler with it.
use satoxcoin_seeder.Prelude.{◌≡◌, refl, some, List, [], ◌∷◌, ◌++◌, ℕ, length, ℤ}
use satoxcoin_seeder.Net.{SocketAddr, socket_addr}
use satoxcoin_seeder.App.{AppState}
use satoxcoin_seeder.Message.{serialize_header}
use satoxcoin_seeder.Handshake.{test_node, aborted}
use satoxcoin_seeder.Handshake.Hostile.{hostile, hostile_header, hostile_payload, test_node-hostile}
use satoxcoin_seeder.Db.{ServiceResult}
use satoxcoin_seeder.Db.Stat.{Float}
use satoxcoin_seeder.Crawler.{wants_addresses}
use satoxcoin_seeder.Crawler.System.{Crawler, testing, ids, System, Step, Reach, later, die}

-- In every state that the seeder can reach, a crawler whose next node can be dialled may end there,
-- with a single message of that node: the handshake with a node that sends just this one frame
-- panics, whatever the times and the tip are, and the step that follows takes the crawler away, so
-- that the nodes of its batch are lost to the queues. (The digest has 32 bytes, the magic four.)
pub Reach-die :
    {F : Type 0} ⦃fl : Float F⦄ (digest : List ℕ → List ℕ) (state : AppState) (s : System F)
    (before after : List Crawler) (r : ServiceResult) (todo done : List ServiceResult)
    (target : SocketAddr) (sent_at batch_at tip : ℤ)
    → ((bs : List ℕ) → length (digest bs) ≡ 32)
    → length state.message_start ≡ 4
    → Reach digest state s
    → s.crawlers ≡ before ++ (testing (r ∷ todo) done ∷ after)
    → socket_addr r.service ≡ some target
    → let node = hostile digest state in
      let t = record s {
        crawlers = before ++ after;
        lost = ids s.db (done ++ (r ∷ todo)) ++ s.lost;
      } in
      (node.chunks ≡ (serialize_header (hostile_header digest state) ++ hostile_payload) ∷ [])
      × (test_node digest state node r.service sent_at tip (wants_addresses r batch_at) ≡ aborted)
      × Step digest state s t
      × Reach digest state t
unfolding hostile
Reach-die digest state s before after r todo done target sent_at batch_at tip digest32 magic reach e
      at =
    let panics =
      test_node-hostile digest digest32 state magic r.service sent_at tip
        (wants_addresses r batch_at) target at in
    let step = die before after r todo done (hostile digest state) sent_at batch_at tip e panics in
    (refl, panics, step, later reach step)
