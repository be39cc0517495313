-- ===== src/Publish.antt =====
-- crates/seeder-publish/src/reconcile.rs: which DNS records are deleted, kept and added. A record
-- is the text of an address, a list of bytes.
pub mod Plan
mod Examples
use satoxcoin_seeder.Prelude.{
  ℕ, ◌+◌, Bool, not, Option, none, some, List, [], ◌∷◌, ◌++◌, length, take, drop, ltb, leb,
  if◌then◌else◌, bytes_eq,
}
use satoxcoin_seeder.Prelude.Dict.{contains}

pub record ReconcilePlan : Type 0 where
  pub to_delete : List (List ℕ)
  pub to_add : List (List ℕ)
  pub keep : List (List ℕ)

-- The candidates, with the seeder's own address in front if it is not among them.
unfoldable pub with_own : Option (List ℕ) → List (List ℕ) → List (List ℕ)
with_own own candidates = elim own [
  | none ↦ candidates
  | some ip ↦
      if ltb 0 (length ip)
      then (if contains ip candidates then candidates else ip ∷ candidates)
      else candidates
]

-- `current.iter().filter(|s| !candidates.contains(s))`
unfoldable pub stale : List (List ℕ) → List (List ℕ) → List (List ℕ)
stale candidates [] = []
stale candidates (s ∷ current) =
    let rest = stale candidates current in if contains s candidates then rest else s ∷ rest

-- `current.iter().filter(|s| !to_delete.contains(s))`
unfoldable pub keep_in : List (List ℕ) → List (List ℕ) → List (List ℕ)
keep_in to_delete [] = []
keep_in to_delete (s ∷ current) =
    let rest = keep_in to_delete current in if contains s to_delete then rest else s ∷ rest

-- The loop over the candidates, with what is to be added so far.
unfoldable pub grow : ℕ → List (List ℕ) → List (List ℕ) → List (List ℕ) → List (List ℕ)
grow max_seeds keep [] to_add = to_add
grow max_seeds keep (seed ∷ candidates) to_add =
    let skip = grow max_seeds keep candidates to_add in
    let push = grow max_seeds keep candidates (to_add ++ (seed ∷ [])) in
    if leb max_seeds (length to_add + length keep)
    then to_add
    else if contains seed keep
    then skip
    else push

unfoldable pub reconcile : List (List ℕ) → List (List ℕ) → Option (List ℕ) → ℕ → ReconcilePlan
reconcile current candidates own_ip max_seeds =
    let all = with_own own_ip candidates in
    let old = stale all current in
    let kept = keep_in old current in
    let keep = take max_seeds kept in
    record {
      to_delete = old ++ drop max_seeds kept;
      to_add = grow max_seeds keep all [];
      keep = keep;
    }
