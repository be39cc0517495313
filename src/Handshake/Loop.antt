-- ===== src/Handshake/Loop.antt =====
-- The loops of `test_node`: they end, and what they can make of a session.
use satoxcoin_seeder.Prelude.{
  ℕ, zero, suc, ◌+◌, ◌<◌, ◌≤◌, ◌≡◌, refl, ◌⊎◌, inl, inr, Bool, ◌||◌, not, ◌==◌, true, false, List,
  [], ◌∷◌, ◌++◌, length, length-drop, take, drop, ltb, ltb-ge, ◌∙◌, if◌then◌else◌, arith,
  Bool-cases, Option-cases, eq_bytes, ℤ, pos,
}
use satoxcoin_seeder.App.{AppState}
use satoxcoin_seeder.Net.{Service, socket_addr, is_tor, is_i2p}
use satoxcoin_seeder.Net.Classes.{socket_addr-overlay}
use satoxcoin_seeder.Message.{MessageHeader, header_is_valid, command_str, deserialize_header}
use satoxcoin_seeder.Serialize.{sha256d}
use satoxcoin_seeder.Handshake.{
  Session, Step, again, leave, abort, stuck, find_magic, on_version, agent_and_height, with_replies,
  on_addr, on_message, on_frame, pass, inner_loop, outer_loop, Peer, NodeOutcome, finished, ran_out,
  aborted, is_finished, outcome_of, no_result, test_node, new_session,
}

-- A pass of the inner loop goes on only with a shorter buffer, and its ban is the old one or
-- 100000, with which it stops.
abbrev Progress : Session → Step → Type 0
Progress s (again t) = (length t.read_buf < length s.read_buf) × (t.ban ≡ s.ban)
Progress s (leave t) = (t.ban ≡ s.ban) ⊎ (t.ban ≡ pos 100000)
Progress s abort = Unit
Progress s stuck = ⊥

-- What a message handler leaves alone.
abbrev Keeps : Session → Step → Type 0
Keeps s (again t) = (t.read_buf ≡ s.read_buf) × (t.ban ≡ s.ban)
Keeps s (leave t) = t.ban ≡ s.ban
Keeps s abort = Unit
Keeps s stuck = ⊥

-- How the inner loop ends: with the ban that it began with, or with 100000, or in a panic.
abbrev Ends : Session → Step → Type 0
Ends s (again t) = ⊥
Ends s (leave t) = (t.ban ≡ s.ban) ⊎ (t.ban ≡ pos 100000)
Ends s abort = Unit
Ends s stuck = ⊥

-- The bans that `test_node` hands out.
abbrev pub IsBan : ℤ → Type 0
IsBan b = (b ≡ pos 0) ⊎ (b ≡ pos 100000)

abbrev IsClosed : Step → Type 0
IsClosed (again t) = ⊥
IsClosed (leave t) = IsBan t.ban
IsClosed abort = Unit
IsClosed stuck = ⊥

Ends-same : (s t : Session) (r : Step) → t.ban ≡ s.ban → Ends t r → Ends s r
Ends-same s t (again u) b e = e
Ends-same s t (leave u) b e = ground arith
Ends-same s t abort b e = tt
Ends-same s t stuck b e = e

Ends-IsClosed : (s : Session) (r : Step) → IsBan s.ban → Ends s r → IsClosed r
Ends-IsClosed s (again u) b e = e
Ends-IsClosed s (leave u) b e = ground arith
Ends-IsClosed s abort b e = tt
Ends-IsClosed s stuck b e = e

module _ (digest : List ℕ → List ℕ) (state : AppState) (get_addr : Bool) where
  on_version-Keeps :
      (payload : List ℕ) (s : Session) → Keeps s (on_version state get_addr payload s)
  unfolding on_version agent_and_height with_replies
  on_version-Keeps payload s = ground arith

  on_addr-Keeps : (payload : List ℕ) (s : Session) → Keeps s (on_addr state payload s)
  unfolding on_addr
  on_addr-Keeps payload s = ground arith

  on_message-Keeps :
      (cmd payload : List ℕ) (s : Session) → Keeps s (on_message state get_addr cmd payload s)
  unfolding on_message
  on_message-Keeps cmd payload s =
      ground (arith, on_version-Keeps payload s, on_addr-Keeps payload s)

  Keeps→Progress :
      (s t : Session) (r : Step)
      → length t.read_buf < length s.read_buf
      → t.ban ≡ s.ban
      → Keeps t r
      → Progress s r
  Keeps→Progress s t (again u) h b k = ground arith
  Keeps→Progress s t (leave u) h b k = inl (k ∙ b)
  Keeps→Progress s t abort h b k = tt
  Keeps→Progress s t stuck h b k = k

  on_frame-Progress :
      (h : MessageHeader) (s : Session)
      → 24 ≤ length s.read_buf
      → Progress s (on_frame digest state get_addr h s)
  unfolding on_frame
  on_frame-Progress h s k =
      let payload = take h.payload_size (drop 24 s.read_buf) in
      let t = record s { read_buf = drop h.payload_size (drop 24 s.read_buf) } in
      let shorter : length t.read_buf < length s.read_buf =
        omega (arith, length-drop h.payload_size (drop 24 s.read_buf), length-drop 24 s.read_buf) in
      let handled =
        Keeps→Progress s t (on_message state get_addr (command_str h) payload t) shorter refl
          (on_message-Keeps (command_str h) payload t) in
      elim (Bool-cases (header_is_valid state h)) [
        | inr e ↦ rw e (inr refl)
        | inl e ↦ rw e (elim (Bool-cases (ltb (length s.read_buf) (24 + h.payload_size))) [
          | inl f ↦ rw f (inl refl)
          | inr f ↦
              rw f (elim (Bool-cases (eq_bytes (take 4 (sha256d digest payload)) h.checksum)) [
                | inl g ↦ rw g handled
                | inr g ↦ rw g (shorter, refl)
              ])
        ])
      ]

  -- The buffer from where the magic was found.
  Progress-drop :
      (n : ℕ) (s : Session) (r : Step)
      → Progress (record s { read_buf = drop n s.read_buf }) r
      → Progress s r
  Progress-drop n s (again t) p = (omega (arith, p.0, length-drop n s.read_buf), p.1)
  Progress-drop n s (leave t) p = p
  Progress-drop n s abort p = p
  Progress-drop n s stuck p = p

  pass-Progress : (s : Session) → Progress s (pass digest state get_addr s)
  unfolding pass
  pass-Progress s = elim (Option-cases (find_magic state.message_start s.read_buf)) [
    | inl e ↦ rw (e, pass) (inl refl)
    | inr (start, e) ↦
        let t = record s { read_buf = drop start s.read_buf } in
        rw (e, pass)
          (elim (Bool-cases (ltb (length t.read_buf) 24)) [
            | inl f ↦ rw f (inl refl)
            | inr f ↦ rw f (elim (Option-cases (deserialize_header (take 24 t.read_buf))) [
              | inl g ↦ rw g (
                omega (
                  arith,
                  length-drop 1 t.read_buf,
                  length-drop start s.read_buf,
                  ltb-ge (length t.read_buf) 24 f,
                ),
                refl,
              )
              | inr ((h, n), g) ↦ rw g (
                  Progress-drop start s _ (on_frame-Progress h t (ltb-ge (length t.read_buf) 24 f)))
            ])
          ])
  ]

  -- What a pass makes of a session, given what the rest of the loop makes of the next one.
  next_Ends :
      (fuel : ℕ) (s : Session) (r : Step)
      → Progress s r
      → ((t : Session)
          → length t.read_buf < length s.read_buf
          → Ends t (inner_loop fuel digest state get_addr t))
      → Ends s (elim r [
        | again t ↦ inner_loop fuel digest state get_addr t
        | leave t ↦ leave t
        | abort ↦ abort
        | stuck ↦ stuck
      ])
  next_Ends fuel s (again t) p ih =
      Ends-same s t (inner_loop fuel digest state get_addr t) p.1 (ih t p.0)
  next_Ends fuel s (leave t) p ih = p
  next_Ends fuel s abort p ih = tt
  next_Ends fuel s stuck p ih = p

  -- The inner loop ends within as many passes as the buffer has bytes, and one more.
  inner_loop-Ends :
      (fuel : ℕ) (s : Session)
      → length s.read_buf < fuel
      → Ends s (inner_loop fuel digest state get_addr s)
  unfolding inner_loop
  inner_loop-Ends zero s h = absurd (omega arith)
  inner_loop-Ends (suc fuel) s h =
      next_Ends fuel s (pass digest state get_addr s) (pass-Progress s)
        (λ t k. inner_loop-Ends fuel t (omega arith))

  -- The tests after the inner loop, and the chunks that are left.
  after-IsClosed :
      (chunks : List (List ℕ)) (r : Step)
      → IsClosed r
      → ((t : Session) → IsBan t.ban → IsClosed (outer_loop digest state get_addr chunks t))
      → IsClosed (elim r [
        | again t ↦ stuck
        | leave t ↦
            (let more = outer_loop digest state get_addr chunks t in
              if is_finished get_addr t then leave t else more)
        | abort ↦ abort
        | stuck ↦ stuck
      ])
  after-IsClosed chunks (again t) c ih = c
  after-IsClosed chunks (leave t) c ih = elim (Bool-cases (is_finished get_addr t)) [
    | inl f ↦ rw f c
    | inr f ↦ rw f (ih t c)
  ]
  after-IsClosed chunks abort c ih = tt
  after-IsClosed chunks stuck c ih = c

  outer_loop-IsClosed :
      (chunks : List (List ℕ)) (s : Session)
      → IsBan s.ban
      → IsClosed (outer_loop digest state get_addr chunks s)
  unfolding outer_loop
  outer_loop-IsClosed [] s b = b
  outer_loop-IsClosed (chunk ∷ chunks) s b =
      let s1 = record s { read_buf = s.read_buf ++ chunk } in
      elim (Bool-cases (length chunk == 0)) [
        | inl e ↦ rw e b
        | inr e ↦ rw e (
            after-IsClosed chunks (inner_loop (suc (length s1.read_buf)) digest state get_addr s1)
              (Ends-IsClosed s1 _ b (inner_loop-Ends (suc (length s1.read_buf)) s1 (omega arith)))
              (outer_loop-IsClosed chunks))
      ]

-- The outcomes of the program: a result that bans for nothing or for 100000 seconds, or a panic.
abbrev pub IsAnswer : NodeOutcome → Type 0
IsAnswer (finished r) = IsBan r.ban
IsAnswer aborted = Unit
IsAnswer ran_out = ⊥

outcome-IsAnswer : (r : Step) → IsClosed r → IsAnswer (outcome_of r)
unfolding outcome_of
outcome-IsAnswer (again t) c = c
outcome-IsAnswer (leave t) c = c
outcome-IsAnswer abort c = tt
outcome-IsAnswer stuck c = c

guarded :
    (a b : Bool) (r : NodeOutcome)
    → IsAnswer r
    → IsAnswer (if not a then finished no_result else if not b then finished no_result else r)
guarded true true r h = h
guarded true false r h = inl refl
guarded false b r h = inl refl

-- Talking to a node comes to an end, whatever it sends: the model never runs out of fuel, and a
-- result bans the node for 100000 seconds or not at all.
pub test_node-IsAnswer :
    (digest : List ℕ → List ℕ) (state : AppState) (peer : Peer) (service : Service) (now block : ℤ)
    (get_addr : Bool)
    → IsAnswer (test_node digest state peer service now block get_addr)
unfolding test_node
test_node-IsAnswer digest state peer service now block get_addr =
    elim (Option-cases (socket_addr service)) [
      | inl e ↦ rw (e, test_node) (inl refl)
      | inr (target, e) ↦
          rw (e, test_node)
            (guarded _ _ _ (
              outcome-IsAnswer _
                (outer_loop-IsClosed digest state get_addr peer.chunks new_session (inl refl))))
    ]

-- A Tor or I2P node is never connected to: whatever the network does, the result is the empty one.
pub test_node-overlay :
    (digest : List ℕ → List ℕ) (state : AppState) (peer : Peer) (service : Service) (now block : ℤ)
    (get_addr : Bool)
    → (is_tor service.addr || is_i2p service.addr) ≡ true
    → test_node digest state peer service now block get_addr ≡ finished no_result
unfolding test_node
test_node-overlay digest state peer service now block get_addr h =
    rw (socket_addr-overlay service h, test_node)
