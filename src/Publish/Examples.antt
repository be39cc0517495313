-- ===== src/Publish/Examples.antt =====
-- A cap of one, with one record that is still a candidate.
use satoxcoin_seeder.Prelude.{
  ℕ, ◌≡◌, refl, true, ◌||◌, some, List, [], ◌∷◌, length, ltb, bytes_eq, arith,
}
use satoxcoin_seeder.Prelude.Dict.{contains}
use satoxcoin_seeder.Publish.{ReconcilePlan, with_own, reconcile}
use satoxcoin_seeder.Publish.Plan.{reconcile_partition, reconcile_own}

abbrev host : List ℕ
host = b'h' ∷ []

abbrev own : List ℕ
own = b'o' ∷ []

abbrev plan : ReconcilePlan
plan = reconcile (host ∷ []) (host ∷ []) (some own) 1

reconcile_partition_example :
    ((contains host plan.keep || contains host plan.to_delete) ≡ contains host (host ∷ []))
    × (contains host plan.keep ≡ true → contains host (with_own (some own) (host ∷ [])) ≡ true)
reconcile_partition_example = reconcile_partition (host ∷ []) (host ∷ []) (some own) 1 host

reconcile_own_example :
    (contains own plan.keep || contains own plan.to_add)
    ≡ (contains own plan.keep || ltb (length plan.keep) 1)
reconcile_own_example =
    reconcile_own (host ∷ []) (host ∷ []) own 1 (omega arith) (unfold contains in refl)
