-- ===== src/Db/Queues.antt =====
-- Ids in queues and sets, entries looked up, and changes that keep every id where it is.
use satoxcoin_seeder.Prelude.{
  ◌≡◌, refl, ap, sym, subst, ◌∙◌, ◌⊎◌, inl, inr, Bool, true, false, some, List, [], ◌∷◌, ◌++◌,
  if◌then◌else◌, arith, Bool-cases, Option-cases, ℤ, pos, ltb_ℤ, eq_ℤ, eq_ℤ_iff, int_eq, Eq,
}
use satoxcoin_seeder.Prelude.Dict.{
  get, insert, remove, contains, add, discard, get-insert, get-remove, contains-add,
  contains-discard, contains-append, beq_self,
}
use satoxcoin_seeder.Net.{Service}
use satoxcoin_seeder.Db.Stat.{AddrInfo}
use satoxcoin_seeder.Db.{AddrDb, service_beq, service_beq_iff, service_eq, lookup_id, dirty}
use satoxcoin_seeder.Db.Consistent.{IsConsistent, Known}
use satoxcoin_seeder.Db.Keeps.{SameIds-IsConsistent, service_at-insert}

-- An id at the end of a queue.
pub contains-push :
    (id j : ℤ) (q : List ℤ) → contains j (q ++ (id ∷ [])) ≡ true → (contains j q ≡ true) ⊎ (id ≡ j)
unfolding contains
contains-push id j q h = ground (arith, contains-append j q (id ∷ []), eq_ℤ_iff id j)

pub contains-discard_imp :
    (id j : ℤ) (s : List ℤ) → contains j (discard id s) ≡ true → contains j s ≡ true
contains-discard_imp id j s h = ground (arith, contains-discard id j s)

pub discarded : (id : ℤ) (s : List ℤ) → contains id (discard id s) ≡ false
discarded id s = rw (contains-discard id id s, beq_self id)

pub discarded_ne : (id j : ℤ) (s : List ℤ) → contains j (discard id s) ≡ true → eq_ℤ id j ≡ false
discarded_ne id j s h = ground (arith, contains-discard id j s)

pub contains-add_imp :
    (id j : ℤ) (s : List ℤ) → contains j (add id s) ≡ true → (contains j s ≡ true) ⊎ (id ≡ j)
contains-add_imp id j s h = ground (arith, contains-add id j s, eq_ℤ_iff id j)

pub maybe_added :
    (b : Bool) (id j : ℤ) (s : List ℤ)
    → contains j (if b then add id s else s) ≡ true
    → (contains j s ≡ true) ⊎ (id ≡ j)
maybe_added true id j s h = contains-add_imp id j s h
maybe_added false id j s h = inl h

module _ {F : Type 0} (db : AddrDb F) (c : IsConsistent db) where
  -- A looked-up id that is not negative has an entry with the service.
  pub lookup_known :
      (s : Service)
      → ltb_ℤ (lookup_id s db) (pos 0) ≡ false
      → (info : AddrInfo F) × (get (lookup_id s db) db.id_to_info ≡ some info) × (info.service ≡ s)
  unfolding lookup_id
  lookup_known s h = elim (Option-cases (get s db.ip_to_id)) [
    | inl e ↦ absurd (ground arith)
    | inr (id, e) ↦ rw (e, lookup_id) (c.by_service s id e)
  ]

  pub pushed-Known :
      (id : ℤ) → Known db id → (j : ℤ) → (contains j db.our_id ≡ true) ⊎ (id ≡ j) → Known db j
  pushed-Known id k j (inl h) = c.our_known j h
  pushed-Known id k j (inr e) = subst (Known db) e k

  pub added-Known :
      (id : ℤ) → Known db id → (j : ℤ) → (contains j db.good_id ≡ true) ⊎ (id ≡ j) → Known db j
  added-Known id k j (inl h) = c.good_known j h
  added-Known id k j (inr e) = subst (Known db) e k

pub remove_ne :
    {K V : Type 0} ⦃e : Eq K⦄ (k j : K) (v : V) (m : List (K × V))
    → e.beq k j ≡ false
    → get j m ≡ some v
    → get j (remove k m) ≡ some v
remove_ne k j v m f h = ground (arith, get-remove k j m)

pub remove_old :
    {K V : Type 0} ⦃e : Eq K⦄ (k j : K) (v : V) (m : List (K × V))
    → get j (remove k m) ≡ some v
    → (e.beq k j ≡ false) × (get j m ≡ some v)
remove_old k j v m h = ground (arith, get-remove k j m)

pub different_id :
    {F : Type 0} (id j : ℤ) (info i : AddrInfo F) (s : Service) (m : List (ℤ × AddrInfo F))
    → get id m ≡ some info
    → get j m ≡ some i
    → i.service ≡ s
    → service_beq info.service s ≡ false
    → eq_ℤ id j ≡ false
different_id id j info i s m h k e d = elim (Bool-cases (eq_ℤ id j)) [
  | inr f ↦ f
  | inl f ↦
      let here : id ≡ j = (eq_ℤ_iff id j).0 f in
      let same : some info ≡ some i = sym h ∙ ap (λ t. get t m) here ∙ k in
      let match : info.service ≡ s = ground (arith, same, e) in
      cc (sym d ∙ (service_beq_iff info.service s).1 match)
]

pub insert_known :
    {F : Type 0} (id j : ℤ) (new i : AddrInfo F) (m : List (ℤ × AddrInfo F))
    → get j m ≡ some i
    → (i' : AddrInfo F) × (get j (insert id new m) ≡ some i')
insert_known id j new i m h = elim (Bool-cases (eq_ℤ id j)) [
  | inl f ↦ (new, rw (get-insert id j new m, f))
  | inr f ↦ (i, rw (get-insert id j new m, f) h)
]

-- Fields that the invariant does not read, and smaller sets.
module _ {F : Type 0} (db : AddrDb F) (c : IsConsistent db) where
  pub forget-IsConsistent :
      (id : ℤ) (banned : List (Service × ℤ))
      → IsConsistent (record db { unk_id = discard id db.unk_id; banned = banned })
  forget-IsConsistent id banned =
      SameIds-IsConsistent db (record db { unk_id = discard id db.unk_id; banned = banned }) c
        (record {
          next_same = refl;
          ids_same = refl;
          services_same = λ j. refl;
          unk_old = λ j h. c.unk_known j (contains-discard_imp id j db.unk_id h);
          our_old = c.our_known;
          good_old = c.good_known;
        })

  pub push-IsConsistent :
      (id n : ℤ)
      → Known db id
      → IsConsistent (record db { n_dirty = n; our_id = db.our_id ++ (id ∷ []) })
  push-IsConsistent id n k =
      SameIds-IsConsistent db (record db { n_dirty = n; our_id = db.our_id ++ (id ∷ []) }) c
        (record {
          next_same = refl;
          ids_same = refl;
          services_same = λ j. refl;
          unk_old = c.unk_known;
          our_old = λ j h. pushed-Known db c id k j (contains-push id j db.our_id h);
          good_old = c.good_known;
        })

  pub dirty-IsConsistent : IsConsistent (dirty db)
  unfolding dirty
  dirty-IsConsistent = SameIds-IsConsistent db (dirty db) c (record {
    next_same = refl;
    ids_same = refl;
    services_same = λ j. refl;
    unk_old = c.unk_known;
    our_old = c.our_known;
    good_old = c.good_known;
  })

  -- An entry rewritten with its service kept, and the good set with or without its id.
  pub rewritten-IsConsistent :
      (id : ℤ) (old new : AddrInfo F) (goods ours : List ℤ)
      → get id db.id_to_info ≡ some old
      → new.service ≡ old.service
      → ((j : ℤ) → contains j goods ≡ true → (contains j db.good_id ≡ true) ⊎ (id ≡ j))
      → ((j : ℤ) → contains j ours ≡ true → (contains j db.our_id ≡ true) ⊎ (id ≡ j))
      → IsConsistent
          (record db { id_to_info = insert id new db.id_to_info; good_id = goods; our_id = ours })
  rewritten-IsConsistent id old new goods ours e keep hg ho =
      SameIds-IsConsistent db
        (record db { id_to_info = insert id new db.id_to_info; good_id = goods; our_id = ours }) c
        (record {
          next_same = refl;
          ids_same = refl;
          services_same = λ j. service_at-insert id j old new db.id_to_info e keep;
          unk_old = c.unk_known;
          our_old = λ j h. pushed-Known db c id (old, e) j (ho j h);
          good_old = λ j h. added-Known db c id (old, e) j (hg j h);
        })
