-- ===== src/Db/Answers.antt =====
-- What `get_ips` answers with.
use satoxcoin_seeder.Prelude.{
  ℕ, zero, suc, ◌/◌, ◌%◌, ◌≤◌, ◌≡◌, refl, subst, inl, inr, Bool, true, false, some, List, [], ◌∷◌,
  length, get_elem?, All, min, max, ltb, ◌==◌, if◌then◌else◌, arith, Bool-cases, Option-cases, ℤ,
  eq_ℤ_iff, int_eq, Eq,
}
use satoxcoin_seeder.Prelude.Dict.{get, contains, add}
use satoxcoin_seeder.Net.{NetAddr, service_network}
use satoxcoin_seeder.Db.{AddrDb}
use satoxcoin_seeder.Db.Stat.{AddrInfo}
use satoxcoin_seeder.Db.Serve.{
  addr_eq, is_wanted, draw_ids, offers, id_offers, offering, collect_ips, get_ips,
}

length-add : {K : Type 0} ⦃e : Eq K⦄ (k : K) (s : List K) → length (add k s) ≤ suc (length s)
unfolding add contains
length-add k s = ground arith

drawn_length :
    (count : ℕ) (filtered : List ℤ) (draws : List ℕ) (ids out : List ℤ)
    → draw_ids count filtered draws ids ≡ some out
    → length ids ≤ count
    → length out ≡ count
unfolding draw_ids
drawn_length count filtered [] ids out h b = ground arith
drawn_length count filtered (rnd ∷ draws) ids out h b = elim (Bool-cases (ltb (length ids) count)) [
  | inr e ↦ ground arith
  | inl e ↦ elim (Option-cases (get_elem? filtered (rnd % length filtered))) [
    | inl f ↦ absurd (ground arith)
    | inr (id, f) ↦
        drawn_length count filtered draws (add id ids) out (ground arith)
          (ground (arith, length-add id ids))
  ]
]

All-member : (P : ℤ → Type 0) (l : List ℤ) (n : ℕ) (x : ℤ) → All P l → get_elem? l n ≡ some x → P x
All-member P [] n x a h = absurd (ground arith)
All-member P (y ∷ l) zero x a h = subst P (ground arith) a.0
All-member P (y ∷ l) (suc n) x a h = All-member P l n x a.1 h

All-add : (P : ℤ → Type 0) (k : ℤ) (s : List ℤ) → P k → All P s → All P (add k s)
unfolding add
All-add P k s p a = elim (Bool-cases (contains k s)) [ inl e ↦ rw e a | inr e ↦ rw e (p, a) ]

drawn_All :
    (P : ℤ → Type 0) (count : ℕ) (filtered : List ℤ) (draws : List ℕ) (ids out : List ℤ)
    → All P filtered
    → All P ids
    → draw_ids count filtered draws ids ≡ some out
    → All P out
unfolding draw_ids
drawn_All P count filtered [] ids out a b h = subst (All P) (ground arith) b
drawn_All P count filtered (rnd ∷ draws) ids out a b h =
    elim (Bool-cases (ltb (length ids) count)) [
      | inr e ↦ subst (All P) (ground arith) b
      | inl e ↦ elim (Option-cases (get_elem? filtered (rnd % length filtered))) [
        | inl f ↦ absurd (ground arith)
        | inr (id, f) ↦
            drawn_All P count filtered draws (add id ids) out a
              (All-add P id ids (All-member P filtered (rnd % length filtered) id a f) b)
              (ground arith)
      ]
    ]

module _ {F : Type 0} (requested : ℕ) (nets : List Bool) (db : AddrDb F) where
  -- A good id whose entry offers the services.
  abbrev IsCandidate : ℤ → Type 0
  IsCandidate id =
      (contains id db.good_id ≡ true)
      × ((info : AddrInfo F) × (get id db.id_to_info ≡ some info) × (offers requested info ≡ true))

  -- The address of such an entry, on a wanted network.
  abbrev pub IsWanted : NetAddr → Type 0
  IsWanted a =
      (id : ℤ) × (info : AddrInfo F) × (contains id db.good_id ≡ true)
      × (get id db.id_to_info ≡ some info)
      × (offers requested info ≡ true)
      × (is_wanted nets (service_network info.service) ≡ true)
      × (info.service.addr ≡ a)

  candidate :
      (id : ℤ) → contains id db.good_id ≡ true → id_offers requested db id ≡ true → IsCandidate id
  unfolding id_offers
  candidate id g h = elim (Option-cases (get id db.id_to_info)) [
    | inl e ↦ absurd (ground arith)
    | inr (info, e) ↦ (g, (info, e, ground arith))
  ]

  offering-All :
      (ids : List ℤ)
      → ((id : ℤ) → contains id ids ≡ true → contains id db.good_id ≡ true)
      → All IsCandidate (offering requested db ids)
  unfolding offering contains
  offering-All [] g = tt
  offering-All (id ∷ ids) g =
      let rest = offering-All ids (λ j h. g j (ground arith)) in
      elim (Bool-cases (id_offers requested db id)) [
        | inl e ↦ rw e (candidate id (g id (ground (arith, eq_ℤ_iff id id))) e, rest)
        | inr e ↦ rw e rest
      ]

  All-add_addr :
      (k : NetAddr) (s : List NetAddr) → IsWanted k → All IsWanted s → All IsWanted (add k s)
  unfolding add
  All-add_addr k s p a = elim (Bool-cases (contains k s)) [ inl e ↦ rw e a | inr e ↦ rw e (p, a) ]

  collect_step :
      (id : ℤ) (ids : List ℤ) (info : AddrInfo F)
      → get id db.id_to_info ≡ some info
      → collect_ips nets db (id ∷ ids) ≡ (
          if is_wanted nets (service_network info.service)
          then add info.service.addr (collect_ips nets db ids)
          else collect_ips nets db ids)
  unfolding collect_ips
  collect_step id ids info e = rw (e, collect_ips) refl

  collected :
      (ids : List ℤ)
      → All IsCandidate ids
      → All IsWanted (collect_ips nets db ids) × (length (collect_ips nets db ids) ≤ length ids)
  collected [] a = unfold collect_ips in (tt, omega arith)
  collected (id ∷ ids) ((g, (info, e, o)), a) =
      let (rest, short) = collected ids a in
      elim (Bool-cases (is_wanted nets (service_network info.service))) [
        | inr f ↦ rw (collect_step id ids info e, f) (rest, omega (arith, short))
        | inl f ↦
            rw (collect_step id ids info e, f)
              (
                All-add_addr info.service.addr _ (id, info, g, e, o, f, refl) rest,
                omega (arith, short, length-add info.service.addr (collect_ips nets db ids)),
              )
      ]

  -- An answer from the good nodes holds at most the number of addresses asked for (or one, when
  -- none is asked for), at most half as many as there are good nodes with the requested services,
  -- and each is the address of such a node on a network that is wanted.
  pub get_ips-IsWanted :
      (front_of : ℤ → List ℤ → ℤ) (draws : List ℕ) (n : ℕ) (ips : List NetAddr)
      → (length db.good_id == 0) ≡ false
      → get_ips front_of draws requested n nets db ≡ some ips
      → All IsWanted ips
        × (length ips ≤ max n 1)
        × (length ips ≤ length (offering requested db db.good_id) / 2)
  unfolding get_ips
  get_ips-IsWanted front_of draws n ips some_good h =
      let filtered = offering requested db db.good_id in
      let count = min (max n 1) (length filtered / 2) in
      elim (Bool-cases (length filtered == 0)) [
        | inl e ↦
            let empty : some [] ≡ some ips = ground arith in
            subst (λ l. All IsWanted l × (length l ≤ max n 1) × (length l ≤ length filtered / 2))
              {x = []} (ground (arith, empty)) (tt, omega arith, omega arith)
        | inr e ↦ elim (Option-cases (draw_ids count filtered draws [])) [
          | inl f ↦ absurd (ground arith)
          | inr (ids, f) ↦
              let result : some (collect_ips nets db ids) ≡ some ips = ground arith in
              let all = offering-All db.good_id (λ j k. k) in
              let (wanted, short) =
                collected ids (drawn_All IsCandidate count filtered draws [] ids all tt f) in
              let drawn = drawn_length count filtered draws [] ids f (omega arith) in
              subst (λ l. All IsWanted l × (length l ≤ max n 1) × (length l ≤ length filtered / 2))
                {x = collect_ips nets db ids} (ground (arith, result))
                (wanted, ground (arith, short, drawn), ground (arith, short, drawn))
        ]
      ]

  -- With one good node that offers the requested services, the answer is empty, whatever its
  -- network is and however many addresses are asked for.
  pub get_ips-one_good :
      (front_of : ℤ → List ℤ → ℤ) (draws : List ℕ) (n : ℕ)
      → (length db.good_id == 0) ≡ false
      → length (offering requested db db.good_id) ≡ 1
      → get_ips front_of draws requested n nets db ≡ some []
  unfolding get_ips draw_ids collect_ips
  get_ips-one_good front_of [] n h one = ground arith
  get_ips-one_good front_of (rnd ∷ draws) n h one = ground arith
