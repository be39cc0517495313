-- ===== src/Db/Expel.antt =====
-- A ban takes the entry of a node out of the database.
use satoxcoin_seeder.Prelude.{
  ◌≡◌, ap, sym, ◌∙◌, inl, inr, true, false, some, List, arith, Bool-cases, ℤ, eq_ℤ, eq_ℤ_iff,
  int_eq,
}
use satoxcoin_seeder.Prelude.Dict.{get, contains}
use satoxcoin_seeder.Net.{Service}
use satoxcoin_seeder.Db.Stat.{AddrInfo, Float}
use satoxcoin_seeder.Db.{AddrDb, service_beq, service_beq_iff, service_eq, expel}
use satoxcoin_seeder.Db.Consistent.{IsConsistent, Known}
use satoxcoin_seeder.Db.Queues.{
  contains-discard_imp, discarded_ne, remove_ne, remove_old, different_id,
}

module _ {F : Type 0} ⦃fl : Float F⦄ where
  -- Taking out an entry that no queue holds.
  module _ (db : AddrDb F) (c : IsConsistent db) (id : ℤ) (info : AddrInfo F)
      (here : get id db.id_to_info ≡ some info) (unk_free : contains id db.unk_id ≡ false)
      (our_free : contains id db.our_id ≡ false) (till : ℤ) where
    kept : (j : ℤ) → eq_ℤ id j ≡ false → Known db j → Known (expel info.service till id db) j
    unfolding expel
    kept j ne (i, e) = (i, remove_ne id j i db.id_to_info ne e)

    expel_by_service :
        (s : Service) (j : ℤ)
        → get s (expel info.service till id db).ip_to_id ≡ some j
        → (i : AddrInfo F) × (get j (expel info.service till id db).id_to_info ≡ some i)
          × (i.service ≡ s)
    unfolding expel
    expel_by_service s j h =
        let (differs, old) = remove_old info.service s j db.ip_to_id h in
        let (i, e, same) = c.by_service s j old in
        (
          i,
          remove_ne id j i db.id_to_info
              (different_id id j info i s db.id_to_info here e same differs) e,
          same,
        )

    expel_by_id :
        (j : ℤ) (i : AddrInfo F)
        → get j (expel info.service till id db).id_to_info ≡ some i
        → (get i.service (expel info.service till id db).ip_to_id ≡ some j)
          × (get j db.id_to_info ≡ some i)
    unfolding expel
    expel_by_id j i h =
        let (ne, old) = remove_old id j i db.id_to_info h in
        let at = c.by_id j i old in
        (remove_ne info.service i.service j db.ip_to_id (different_service j i ne at) at, old)
      where
        different_service :
            (j : ℤ) (i : AddrInfo F)
            → eq_ℤ id j ≡ false
            → get i.service db.ip_to_id ≡ some j
            → service_beq info.service i.service ≡ false
        different_service j i ne at = elim (Bool-cases (service_beq info.service i.service)) [
          | inr f ↦ f
          | inl f ↦
              let same : info.service ≡ i.service = (service_beq_iff info.service i.service).0 f in
              let ids : some id ≡ some j =
                sym (c.by_id id info here) ∙ ap (λ t. get t db.ip_to_id) same ∙ at in
              let eq : id ≡ j = ground (arith, ids) in cc (sym ne ∙ (eq_ℤ_iff id j).1 eq)
        ]

    free_of : (j : ℤ) (q : List ℤ) → contains id q ≡ false → contains j q ≡ true → eq_ℤ id j ≡ false
    free_of j q f h = elim (Bool-cases (eq_ℤ id j)) [
      | inr e ↦ e
      | inl e ↦ cc (sym f ∙ ap (λ t. contains t q) ((eq_ℤ_iff id j).0 e) ∙ h)
    ]

    pub expel-IsConsistent : IsConsistent (expel info.service till id db)
    unfolding expel
    expel-IsConsistent = record {
      next = c.next;
      by_service = expel_by_service;
      by_id = λ j i h. (expel_by_id j i h).0;
      in_use = λ j i h. c.in_use j i (expel_by_id j i h).1;
      unk_known = λ j h. kept j (free_of j db.unk_id unk_free h) (c.unk_known j h);
      our_known = λ j h. kept j (free_of j db.our_id our_free h) (c.our_known j h);
      good_known = λ j h.
          kept j (discarded_ne id j db.good_id h)
            (c.good_known j (contains-discard_imp id j db.good_id h));
    }
