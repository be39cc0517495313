-- ===== src/Prelude/Dict.antt =====
-- `HashMap` as an association list and `HashSet` as a list without repetitions, with their laws
-- in `if` form.
use mathlib.Core.Path.{◌≡◌, refl}
use mathlib.Core.Logic.{inl, inr}
use mathlib.Core.Bool.{Bool, true, false, ◌||◌}
use mathlib.Core.List.{List, [], ◌∷◌, ◌++◌}
use mathlib.Core.Option
use mathlib.Core.Option.{Option, none, some}
use Prim.Native.Nat.{◌≤◌}
use native.Mathlib.Omega.{arith}
use satoxcoin_seeder.Prelude.Tests.{if◌then◌else◌, Bool-cases}
use satoxcoin_seeder.Prelude.Lists.{length}
use satoxcoin_seeder.Prelude.Keys.{Eq}

module _ {ℓ κ} {K : Type ℓ} ⦃e : Eq K⦄ {V : Type κ} where
  unfoldable pub get : K → List (K × V) → Option V
  get k [] = none
  get k ((j, v) ∷ m) = if e.beq j k then some v else get k m

  unfoldable pub insert : K → V → List (K × V) → List (K × V)
  insert k v [] = (k, v) ∷ []
  insert k v ((j, w) ∷ m) = if e.beq j k then (k, v) ∷ m else (j, w) ∷ insert k v m

  unfoldable pub remove : K → List (K × V) → List (K × V)
  remove k [] = []
  remove k ((j, w) ∷ m) = let rest = remove k m in if e.beq j k then rest else (j, w) ∷ rest

  -- `if let Some(v) = map.get_mut(&k) { *v = f(*v) }`
  unfoldable pub alter : K → (V → V) → List (K × V) → List (K × V)
  alter k f [] = []
  alter k f ((j, w) ∷ m) = if e.beq j k then (j, f w) ∷ m else (j, w) ∷ alter k f m

  pub get-insert :
      (k j : K) (v : V) (m : List (K × V))
      → get j (insert k v m) ≡ (if e.beq k j then some v else get j m)
  unfolding get insert
  get-insert k j v [] = refl
  get-insert k j v ((i, w) ∷ m) =
      ground (arith, e.beq_iff k j, e.beq_iff i k, e.beq_iff i j, get-insert k j v m)

  pub get-remove :
      (k j : K) (m : List (K × V)) → get j (remove k m) ≡ (if e.beq k j then none else get j m)
  unfolding get remove
  get-remove k j [] = ground arith
  get-remove k j ((i, w) ∷ m) =
      ground (arith, e.beq_iff k j, e.beq_iff i k, e.beq_iff i j, get-remove k j m)

  pub get-alter :
      (k j : K) (f : V → V) (m : List (K × V))
      → get j (alter k f m) ≡ (if e.beq k j then Option.map f (get j m) else get j m)
  unfolding get alter
  get-alter k j f [] = ground arith
  get-alter k j f ((i, w) ∷ m) =
      ground (arith, e.beq_iff k j, e.beq_iff i k, e.beq_iff i j, get-alter k j f m)

module _ {ℓ} {K : Type ℓ} ⦃e : Eq K⦄ where
  unfoldable pub contains : K → List K → Bool
  contains k [] = false
  contains k (j ∷ s) = e.beq j k || contains k s

  -- `HashSet::insert`.
  unfoldable pub add : K → List K → List K
  unfolding contains
  add k s = if contains k s then s else k ∷ s

  -- `HashSet::remove`.
  unfoldable pub discard : K → List K → List K
  discard k [] = []
  discard k (j ∷ s) = let rest = discard k s in if e.beq j k then rest else j ∷ rest

  pub beq_self : (k : K) → e.beq k k ≡ true
  beq_self k = (e.beq_iff k k).1 refl

  pub contains-add : (k j : K) (s : List K) → contains j (add k s) ≡ (e.beq k j || contains j s)
  unfolding contains add
  contains-add k j s = elim (Bool-cases (contains k s)) [
    | inl old ↦ ground (arith, e.beq_iff k j)
    | inr new ↦ rw new
  ]

  pub contains-discard :
      (k j : K) (s : List K)
      → contains j (discard k s) ≡ (if e.beq k j then false else contains j s)
  unfolding contains discard
  contains-discard k j [] = ground arith
  contains-discard k j (i ∷ s) =
      ground (arith, e.beq_iff k j, e.beq_iff i k, e.beq_iff i j, contains-discard k j s)

  pub contains-append :
      (k : K) (s t : List K) → contains k (s ++ t) ≡ (contains k s || contains k t)
  unfolding contains
  contains-append k [] t = refl
  contains-append k (i ∷ s) t = ground (arith, contains-append k s t)

  pub length-discard-le : (k : K) (s : List K) → length (discard k s) ≤ length s
  unfolding discard
  length-discard-le k [] = omega arith
  length-discard-le k (i ∷ s) = ground (arith, length-discard-le k s)
