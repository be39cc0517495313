-- ===== src/Db/Crawl.antt =====
-- `get_one` and `get_many`: which nodes are handed out to be tested. The random numbers and the
-- iteration order of the hash set come from outside.
use satoxcoin_seeder.Prelude.{
  ℕ, zero, suc, ◌+◌, ◌%◌, ◌≡◌, true, false, ◌&&◌, Option, none, some, List, [], ◌∷◌, ◌++◌, length,
  ltb, ◌==◌, if◌then◌else◌, ℤ, pos, ltb_ℤ, sub_i64, int_eq,
}
use satoxcoin_seeder.Prelude.Dict.{get, alter, contains, discard}
use satoxcoin_seeder.Db.{AddrDb, ServiceResult, dirty}
use satoxcoin_seeder.Db.Stat.{AddrInfo, min_retry}

-- One round's chances: `rand::random::<u64>()`, and the entry that comes last when a set with
-- these entries is iterated.
pub record Draw : Type 0 where
  pub rnd : ℕ
  pub last_of : ℤ → List ℤ → ℤ

-- The last entry of a set is one of its entries.
pub record IsDraw (d : Draw) : Type 0 where
  pub member : (x : ℤ) (s : List ℤ) → contains (d.last_of x s) (x ∷ s) ≡ true

-- How a round ends: with another round, or with a result.
pub data Turn (F : Type 0) : Type 0 where
  again : AddrDb F → Turn F
  answer : AddrDb F → Option ServiceResult → Turn F

module _ {F : Type 0} where
  unfoldable pub result_of : AddrInfo F → ServiceResult
  result_of info = record {
    service = info.service;
    services = info.services;
    good = false;
    ban_time = pos 0;
    height = pos 0;
    client_v = pos 0;
    client_sv = [];
    our_last_success = info.our_last_success;
    in_sync = false;
  }

  -- The tail of a round, for the id that was taken out of its queue.
  unfoldable pub hand_out : ℤ → ℤ → AddrDb F → Turn F
  unfolding result_of
  hand_out now id db = elim (get id db.id_to_info) [
    | none ↦ answer db none
    | some info ↦
        if ltb_ℤ (pos 0) info.ignore_till && ltb_ℤ info.ignore_till now
        then again (record db {
          our_id = db.our_id ++ (id ∷ []);
          id_to_info = alter id (λ i. record i { our_last_try = now }) db.id_to_info;
        })
        else answer (dirty db) (some (result_of info))
  ]

  -- The oldest tracked node, if it was not tried too recently.
  unfoldable pub take_tracked : ℤ → List ℤ → AddrDb F → Turn F
  take_tracked now [] db = answer db none
  take_tracked now (id ∷ rest) db = elim (get id db.id_to_info) [
    | none ↦ answer db none
    | some info ↦
        if ltb_ℤ (sub_i64 now info.our_last_try) min_retry
        then answer db none
        else hand_out now id (record db { our_id = rest })
  ]

  unfoldable pub take_unknown : Draw → ℤ → List ℤ → AddrDb F → Turn F
  take_unknown d now [] db = answer db none
  take_unknown d now (x ∷ s) db =
      let id = d.last_of x s in hand_out now id (record db { unk_id = discard id (x ∷ s) })

  unfoldable pub turn : Draw → ℤ → ℕ → AddrDb F → Turn F
  turn d now tot db =
      if ltb (d.rnd % tot) (length db.unk_id)
      then take_unknown d now db.unk_id db
      else take_tracked now db.our_id db

  -- `for _ in 0..tot`, with the draws of the rounds from the `k`-th on.
  unfoldable pub turns : (ℕ → Draw) → ℤ → ℕ → ℕ → ℕ → AddrDb F → AddrDb F × Option ServiceResult
  turns draws now tot k zero db = (db, none)
  turns draws now tot k (suc n) db = elim (turn (draws k) now tot db) [
    | again db' ↦ turns draws now tot (k + 1) n db'
    | answer db' res ↦ (db', res)
  ]

  unfoldable pub get_one : (ℕ → Draw) → ℤ → AddrDb F → AddrDb F × Option ServiceResult
  get_one draws now db =
      let tot = length db.unk_id + length db.our_id in
      let result = turns draws now tot 0 tot db in if tot == 0 then (db, none) else result

  -- At most `n` results, up to the first call that has none. Call `j` reads the clock anew.
  unfoldable pub get_many_from :
      (ℕ → ℕ → Draw) → (ℕ → ℤ) → ℕ → ℕ → AddrDb F → AddrDb F × List ServiceResult
  get_many_from draws clock j zero db = (db, [])
  get_many_from draws clock j (suc n) db =
      let (db1, res) = get_one (draws j) (clock j) db in
      elim res [
        | none ↦ (db1, [])
        | some r ↦ let (db2, rs) = get_many_from draws clock (j + 1) n db1 in (db2, r ∷ rs)
      ]

  unfoldable pub get_many : (ℕ → ℕ → Draw) → (ℕ → ℤ) → ℕ → AddrDb F → AddrDb F × List ServiceResult
  get_many draws clock n db = get_many_from draws clock 0 n db
