-- ===== src/Db/Held.antt =====
-- Where the ids are: every known id is in exactly one of the queues, or in the hands of a crawler.
use satoxcoin_seeder.Prelude.{
  ℕ, ◌+◌, ◌<◌, ◌≤◌, ◌≡◌, refl, true, false, Option, none, some, List, [], ◌∷◌, ◌++◌, if◌then◌else◌,
  arith, ℤ, eq_ℤ, eq_ℤ_iff, int_eq,
}
use satoxcoin_seeder.Prelude.Dict.{
  get, insert, remove, alter, contains, add, discard, get-insert, get-remove, get-alter,
}
use satoxcoin_seeder.Db.Stat.{AddrInfo}
use satoxcoin_seeder.Db.{AddrDb}

-- How often an id occurs.
unfoldable pub count : ℤ → List ℤ → ℕ
count j [] = 0
count j (x ∷ q) = (if eq_ℤ x j then 1 else 0) + count j q

abbrev pub one_if : {A : Type 0} → Option A → ℕ
one_if none = 0
one_if (some a) = 1

-- The queues and the ids `o` outside them hold every known id once, and no other.
abbrev pub Placed : {F : Type 0} → AddrDb F → List ℤ → Type 0
Placed db o =
    (j : ℤ) → count j db.our_id + count j db.unk_id + count j o ≡ one_if (get j db.id_to_info)

pub count-append : (j : ℤ) (p q : List ℤ) → count j (p ++ q) ≡ count j p + count j q
unfolding count
count-append j [] q = omega arith
count-append j (x ∷ p) q = omega (arith, count-append j p q)

pub count-push :
    (j id : ℤ) (q : List ℤ) → count j (q ++ (id ∷ [])) ≡ count j q + (if eq_ℤ id j then 1 else 0)
unfolding count
count-push j id q = omega (arith, count-append j q (id ∷ []))

pub count-discard :
    (id j : ℤ) (q : List ℤ) → count j (discard id q) ≡ (if eq_ℤ id j then 0 else count j q)
unfolding count discard
count-discard id j [] = ground arith
count-discard id j (x ∷ q) =
    ground (arith, eq_ℤ_iff id j, eq_ℤ_iff x id, eq_ℤ_iff x j, count-discard id j q)

pub absent : (j : ℤ) (q : List ℤ) → count j q ≡ 0 → contains j q ≡ false
unfolding count contains
absent j [] h = refl
absent j (x ∷ q) h = ground (arith, absent j q)

pub present : (j : ℤ) (q : List ℤ) → contains j q ≡ true → 0 < count j q
unfolding count contains
present j [] h = absurd (ground arith)
present j (x ∷ q) h = ground (arith, present j q)

pub count-add :
    (id j : ℤ) (q : List ℤ)
    → count id q ≡ 0
    → count j (add id q) ≡ (if eq_ℤ id j then 1 else 0) + count j q
unfolding add count
count-add id j q h = rw (absent id q h) refl

pub one_if_bound : {A : Type 0} (o : Option A) → one_if o ≤ 1
one_if_bound none = omega arith
one_if_bound (some a) = omega arith

module _ {F : Type 0} where
  pub one_if-alter :
      (id j : ℤ) (f : AddrInfo F → AddrInfo F) (m : List (ℤ × AddrInfo F))
      → one_if (get j (alter id f m)) ≡ one_if (get j m)
  one_if-alter id j f m = ground (arith, get-alter id j f m)

  pub one_if-insert :
      (id j : ℤ) (i : AddrInfo F) (m : List (ℤ × AddrInfo F))
      → one_if (get j (insert id i m)) ≡ (if eq_ℤ id j then 1 else one_if (get j m))
  one_if-insert id j i m = ground (arith, get-insert id j i m)

  pub one_if-remove :
      (id j : ℤ) (m : List (ℤ × AddrInfo F))
      → one_if (get j (remove id m)) ≡ (if eq_ℤ id j then 0 else one_if (get j m))
  one_if-remove id j m = ground (arith, get-remove id j m)
