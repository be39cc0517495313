-- ===== src/Crawler/Safety.antt =====
-- What the invariant of the system means for its tasks.
use satoxcoin_seeder.Prelude.{
  ℕ, zero, suc, ◌+◌, ◌-◌, ◌^◌, ◌≤◌, ◌<◌, ◌≡◌, refl, sym, ap, subst, ◌∙◌, some, List, [], ◌∷◌, ◌++◌,
  length, get_elem?, arith, length-append, ℤ, int_eq,
}
use satoxcoin_seeder.Prelude.Dict.{get, discard, beq_self}
use satoxcoin_seeder.App.{AppState}
use satoxcoin_seeder.Db.{AddrDb, ServiceResult, lookup_id}
use satoxcoin_seeder.Db.Stat.{Float}
use satoxcoin_seeder.Db.Serve.{get_stats}
use satoxcoin_seeder.Db.Held.{count, one_if, one_if_bound, count-append, count-discard}
use satoxcoin_seeder.Crawler.{n_active}
use satoxcoin_seeder.Crawler.System.{System, held, ids, Reach}
use satoxcoin_seeder.Crawler.Reachable.{Reach-IsSound}

-- Ids that occur once, and only if they are keys, are not more than the keys.
length-discard : (id : ℤ) (q : List ℤ) → length q ≡ length (discard id q) + count id q
unfolding discard count
length-discard id [] = refl
length-discard id (x ∷ q) = ground (arith, length-discard id q)

fewer :
    {V : Type 0} (m : List (ℤ × V)) (q : List ℤ)
    → ((j : ℤ) → count j q ≤ one_if (get j m))
    → length q ≤ length m
unfolding get count
fewer [] [] h = omega arith
fewer [] (x ∷ q) h = absurd (ground (arith, h x, beq_self x))
fewer ((k, v) ∷ m) q h =
    let rest = fewer m (discard k q) (λ j. ground (arith, h j, count-discard k j q)) in
    omega (arith, rest, length-discard k q, h k, one_if_bound (get k ((k, v) ∷ m)))

repeated : (id : ℤ) (q : List ℤ) → count id (id ∷ q) ≤ 1 → 0 < count id q → ⊥
unfolding count
repeated id q h k = ground (arith, beq_self id)

module _ {F : Type 0} where
  pub occurs :
      (db : AddrDb F) (rs : List ServiceResult) (i : ℕ) (r : ServiceResult)
      → get_elem? rs i ≡ some r
      → 0 < count (lookup_id r.service db) (ids db rs)
  unfolding ids count
  occurs db [] i r h = absurd (ground arith)
  occurs db (q ∷ rs) zero r h =
      let same : q ≡ r = ground arith in rw same (ground (arith, beq_self (lookup_id r.service db)))
  occurs db (q ∷ rs) (suc i) r h = omega (arith, occurs db rs i r h)

  twice :
      (db : AddrDb F) (x q : ServiceResult) (rs : List ServiceResult) (k : ℕ)
      → ((j : ℤ) → count j (ids db (x ∷ rs)) ≤ 1)
      → get_elem? rs k ≡ some q
      → x.service ≡ q.service
      → ⊥
  unfolding ids count
  twice db x q rs k h hk same =
      let id = lookup_id q.service db in
      repeated id (ids db rs) (subst (λ t. count id (lookup_id t db ∷ ids db rs) ≤ 1) same (h id))
        (occurs db rs k q hk)

  -- Where every id occurs once at most, so does every service.
  once :
      (db : AddrDb F) (rs : List ServiceResult) (i k : ℕ) (r q : ServiceResult)
      → ((j : ℤ) → count j (ids db rs) ≤ 1)
      → get_elem? rs i ≡ some r
      → get_elem? rs k ≡ some q
      → r.service ≡ q.service
      → i ≡ k
  unfolding ids count
  once db [] i k r q h hi hk same = absurd (ground arith)
  once db (x ∷ rs) zero zero r q h hi hk same = refl
  once db (x ∷ rs) zero (suc k) r q h hi hk same =
      let first : x ≡ r = ground arith in
      absurd (twice db x q rs k h hk (ap (λ t. t.service) first ∙ same))
  once db (x ∷ rs) (suc i) zero r q h hi hk same =
      let first : x ≡ q = ground arith in
      absurd (twice db x r rs i h hi (ap (λ t. t.service) first ∙ sym same))
  once db (x ∷ rs) (suc i) (suc k) r q h hi hk same =
      ap suc (once db rs i k r q (λ j. omega (arith, h j)) hi hk same)

module _ {F : Type 0} ⦃fl : Float F⦄ (digest : List ℕ → List ℕ) (state : AppState) where
  -- In every state that the seeder can reach, the statistics do not count more tracked and untested
  -- nodes than there are, so that the number of active nodes, a difference of `usize`, does not
  -- wrap around. (The numbers of entries are lengths that fit 64 bits.)
  pub Reach-n_active :
      (s : System F) (now : ℤ)
      → Reach digest state s
      → length s.db.id_to_info < 2 ^ 64
      → let stats = get_stats now s.db in
        (stats.n_tracked + stats.n_new ≤ stats.n_avail)
        × (n_active stats ≡ stats.n_avail - (stats.n_tracked + stats.n_new))
  unfolding get_stats n_active
  Reach-n_active s now r bound =
      let h = (Reach-IsSound digest state s r).now in
      let few =
        fewer s.db.id_to_info (s.db.our_id ++ s.db.unk_id)
          (λ j. omega (arith, h.placed j, count-append j s.db.our_id s.db.unk_id)) in
      let le : length s.db.our_id + length s.db.unk_id ≤ length s.db.id_to_info =
        omega (arith, few, length-append s.db.our_id s.db.unk_id) in
      (le, omega (arith, le, bound))

  -- No node is tested twice at a time: two entries in the hands of crawlers with the same service
  -- are the same entry of the same batch.
  pub Reach-alone :
      (s : System F) (i k : ℕ) (r q : ServiceResult)
      → Reach digest state s
      → get_elem? (held s.crawlers) i ≡ some r
      → get_elem? (held s.crawlers) k ≡ some q
      → r.service ≡ q.service
      → i ≡ k
  Reach-alone s i k r q reach hi hk same =
      let h = (Reach-IsSound digest state s reach).now in
      once s.db (held s.crawlers) i k r q
        (λ j. omega (
          arith,
          h.placed j,
          one_if_bound (get j s.db.id_to_info),
          count-append j (ids s.db (held s.crawlers)) s.lost,
        ))
        hi hk same
