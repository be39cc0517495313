-- ===== src/Publish/Plan.antt =====
-- The plan stays within the cap, and every record is kept or deleted.
use satoxcoin_seeder.Prelude.{
  ℕ, ◌+◌, ◌≤◌, ◌<◌, ◌≡◌, refl, inl, inr, true, false, ◌||◌, Option, some, List, [], ◌∷◌, ◌++◌,
  length, length-append, length-take, take, drop, take-append-drop, ltb, leb, if◌then◌else◌, arith,
  Bool-cases, bytes_eq, eq_bytes_iff,
}
use satoxcoin_seeder.Prelude.Dict.{contains, contains-append, beq_self}
use satoxcoin_seeder.Publish.{with_own, stale, keep_in, grow, reconcile}

length-grow-le :
    (max_seeds : ℕ) (keep candidates to_add : List (List ℕ))
    → length to_add + length keep ≤ max_seeds
    → length (grow max_seeds keep candidates to_add) + length keep ≤ max_seeds
unfolding grow
length-grow-le max_seeds keep [] to_add h = h
length-grow-le max_seeds keep (seed ∷ candidates) to_add h =
    elim (Bool-cases (leb max_seeds (length to_add + length keep))) [
      | inl e ↦ rw e h
      | inr e ↦ rw e (elim (Bool-cases (contains seed keep)) [
        | inl f ↦ rw f (length-grow-le max_seeds keep candidates to_add h)
        | inr f ↦ rw f (
            length-grow-le max_seeds keep candidates (to_add ++ (seed ∷ []))
              (ground (arith, length-append to_add (seed ∷ []))))
      ])
    ]

-- The plan never publishes more records than the cap: those that are kept and those that are
-- added together are at most `max_seeds`.
pub reconcile_bound :
    (current candidates : List (List ℕ)) (own_ip : Option (List ℕ)) (max_seeds : ℕ)
    → let plan = reconcile current candidates own_ip max_seeds in
      length plan.to_add + length plan.keep ≤ max_seeds
unfolding reconcile
reconcile_bound current candidates own_ip max_seeds =
    let all = with_own own_ip candidates in
    let kept = keep_in (stale all current) current in
    length-grow-le max_seeds (take max_seeds kept) all []
      (omega (arith, length-take max_seeds kept))

-- Membership in the two filters.
contains-stale :
    (s : List ℕ) (candidates current : List (List ℕ))
    → contains s (stale candidates current)
      ≡ (if contains s candidates then false else contains s current)
unfolding stale contains
contains-stale s candidates [] = ground arith
contains-stale s candidates (t ∷ current) =
    ground (arith, contains-stale s candidates current, eq_bytes_iff t s)

contains-keep_in :
    (s : List ℕ) (to_delete current : List (List ℕ))
    → contains s (keep_in to_delete current)
      ≡ (if contains s to_delete then false else contains s current)
unfolding keep_in contains
contains-keep_in s to_delete [] = ground arith
contains-keep_in s to_delete (t ∷ current) =
    ground (arith, contains-keep_in s to_delete current, eq_bytes_iff t s)

split_at :
    (s : List ℕ) (n : ℕ) (l : List (List ℕ))
    → contains s l ≡ (contains s (take n l) || contains s (drop n l))
split_at s n l = rw (← contains-append s (take n l) (drop n l), take-append-drop n l)

-- The records that are kept or deleted are those that are published now, and what is kept is a
-- candidate or the seeder's own address.
pub reconcile_partition :
    (current candidates : List (List ℕ)) (own_ip : Option (List ℕ)) (max_seeds : ℕ) (s : List ℕ)
    → let plan = reconcile current candidates own_ip max_seeds in
      ((contains s plan.keep || contains s plan.to_delete) ≡ contains s current)
      × (contains s plan.keep ≡ true → contains s (with_own own_ip candidates) ≡ true)
unfolding reconcile
reconcile_partition current candidates own_ip max_seeds s =
    let all = with_own own_ip candidates in
    let old = stale all current in
    let kept = keep_in old current in
    (
      ground (
        arith,
        contains-append s old (drop max_seeds kept),
        split_at s max_seeds kept,
        contains-keep_in s old current,
        contains-stale s all current,
      ),
      λ h. ground (
        arith,
        split_at s max_seeds kept,
        contains-keep_in s old current,
        contains-stale s all current,
      ),
    )

-- What is to be added stays in the list.
grow_keeps :
    (s : List ℕ) (max_seeds : ℕ) (keep candidates to_add : List (List ℕ))
    → contains s to_add ≡ true
    → contains s (grow max_seeds keep candidates to_add) ≡ true
unfolding grow
grow_keeps s max_seeds keep [] to_add h = h
grow_keeps s max_seeds keep (seed ∷ candidates) to_add h =
    elim (Bool-cases (leb max_seeds (length to_add + length keep))) [
      | inl e ↦ rw e h
      | inr e ↦ rw e (elim (Bool-cases (contains seed keep)) [
        | inl f ↦ rw f (grow_keeps s max_seeds keep candidates to_add h)
        | inr f ↦ rw f (
            grow_keeps s max_seeds keep candidates (to_add ++ (seed ∷ []))
              (ground (arith, contains-append s to_add (seed ∷ []))))
      ])
    ]

grow_first :
    (s : List ℕ) (max_seeds : ℕ) (keep candidates : List (List ℕ))
    → (contains s keep || contains s (grow max_seeds keep (s ∷ candidates) []))
      ≡ (contains s keep || ltb (length keep) max_seeds)
unfolding grow
grow_first s max_seeds keep candidates =
    let there : contains s (s ∷ []) ≡ true = unfold contains in rw (beq_self s) refl in
    let kept = grow_keeps s max_seeds keep candidates (s ∷ []) there in
    unfold contains in ground (arith, kept)

-- The seeder's own address, if it is not empty and not among the candidates, ends up published
-- exactly if it is kept or the kept records leave room under the cap.
pub reconcile_own :
    (current candidates : List (List ℕ)) (ip : List ℕ) (max_seeds : ℕ)
    → 0 < length ip
    → contains ip candidates ≡ false
    → let plan = reconcile current candidates (some ip) max_seeds in
      (contains ip plan.keep || contains ip plan.to_add)
      ≡ (contains ip plan.keep || ltb (length plan.keep) max_seeds)
unfolding reconcile with_own
reconcile_own current candidates ip max_seeds h new =
    let front : ltb 0 (length ip) ≡ true = ground arith in
    rw (front, new) (grow_first ip max_seeds _ candidates)
