-- ===== src/Db/Judge.antt =====
-- What a series of attempts makes of the entry of a node, and when it is good then.
use satoxcoin_seeder.Prelude.{
  ℕ, ◌+◌, ◌≡◌, ◌⊎◌, Bool, ◌&&◌, ◌||◌, List, [], ◌∷◌, if◌then◌else◌, arith, ℤ, pos, ◌≤ℤ◌, ◌<ℤ◌,
  add_i32, add_i64,
}
use satoxcoin_seeder.Db.Stat.{
  AddrInfo, Float, update_info, extend_ignore, update_stats, count_attempt, get_ignore_time,
}

-- The number of successes among attempts with their times.
unfoldable pub successes : List (Bool × ℤ) → ℕ
successes [] = 0
successes ((good, now) ∷ tries) = (if good then 1 else 0) + successes tries

module _ {F : Type 0} ⦃fl : Float F⦄ where
  -- The time until which a node is ignored, after an attempt.
  extend_ignore_lem :
      (now : ℤ) (i : AddrInfo F)
      → ((extend_ignore now i).ignore_till ≡ i.ignore_till)
        ⊎ (((extend_ignore now i).ignore_till ≡ add_i64 (get_ignore_time i) now)
            × ((i.ignore_till ≡ pos 0) ⊎ (i.ignore_till <ℤ (extend_ignore now i).ignore_till)))
  unfolding extend_ignore
  extend_ignore_lem now i = ground arith

  -- An attempt, good or bad, sets both times of the last try and counts it; only a success counts
  -- as one and sets the time of the last one; and a set time of being ignored is never moved
  -- back.
  pub update_info_lem :
      (good : Bool) (now : ℤ) (i : AddrInfo F)
      → ((update_info good now i).last_try ≡ now)
        × ((update_info good now i).our_last_try ≡ now)
        × ((update_info good now i).total ≡ add_i32 i.total (pos 1))
        × ((update_info good now i).success
            ≡ (if good then add_i32 i.success (pos 1) else i.success))
        × ((update_info good now i).our_last_success ≡ (if good then now else i.our_last_success))
        × ((i.ignore_till ≡ pos 0) ⊎ (i.ignore_till ≤ℤ (update_info good now i).ignore_till))
  unfolding update_info extend_ignore update_stats count_attempt
  update_info_lem good now i = ground arith

  -- The entry of a node after attempts, the last one first.
  unfoldable pub attempts : List (Bool × ℤ) → AddrInfo F → AddrInfo F
  attempts [] i = i
  attempts ((good, now) ∷ tries) i = update_info good now (attempts tries i)

  -- One of the five windows shows a share of answers above the bound, over enough attempts.
  unfoldable pub is_proven : AddrInfo F → Bool
  is_proven i =
      (fl.less (fl.of_ratio 85 100) i.stat_2h.reliability
        && fl.less (fl.of_ratio 2 1) i.stat_2h.count)
      || (fl.less (fl.of_ratio 70 100) i.stat_8h.reliability
          && fl.less (fl.of_ratio 4 1) i.stat_8h.count)
      || (fl.less (fl.of_ratio 55 100) i.stat_1d.reliability
          && fl.less (fl.of_ratio 8 1) i.stat_1d.count)
      || (fl.less (fl.of_ratio 45 100) i.stat_1w.reliability
          && fl.less (fl.of_ratio 16 1) i.stat_1w.count)
      || (fl.less (fl.of_ratio 35 100) i.stat_1m.reliability
          && fl.less (fl.of_ratio 32 1) i.stat_1m.count)
