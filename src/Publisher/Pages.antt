-- ===== src/Publisher/Pages.antt =====
-- The pages of the records are read to the end.
use satoxcoin_seeder.Prelude.{
  ℕ, zero, suc, ◌+◌, ◌-◌, ◌≤◌, ◌<◌, ◌≡◌, refl, sym, ap, ◌⊎◌, inl, inr, Bool, true, false, some,
  List, [], ◌++◌, max, leb, le→leb, lt→leb, append_assoc, append-nil, arith,
}
use satoxcoin_seeder.Publisher.{
  DnsRecord, Provider, replied, CloudflareSeeder, ok, record_name, zone_id, get_pages, get_seeds,
  contents,
}

-- The records of `n` pages from the one behind `page` on.
pub pages_from : (ℕ → List DnsRecord) → ℕ → ℕ → List DnsRecord
pages_from f zero page = []
pages_from f (suc n) page = f (suc page) ++ pages_from f n (suc page)

module _ {Z : Type 0} (pr : Provider Z) where
  -- A provider with the records `f` of each page that names `total` pages every time.
  abbrev pub HasPages : Z → List ℕ → List ℕ → (ℕ → List DnsRecord) → ℕ → Type 0
  HasPages z zone name f total =
      (page : ℕ)
      → pr.page z zone name page ≡ replied (record { records = f page; total_pages = some total })

  get_pages_rest :
      (n fuel page : ℕ) (z : Z) (zone name : List ℕ) (f : ℕ → List DnsRecord) (total : ℕ)
      (all : List DnsRecord)
      → HasPages z zone name f total
      → total ≤ page + suc n
      → (n ≡ 0) ⊎ (total ≡ page + suc n)
      → n < fuel
      → get_pages pr fuel z zone name page all ≡ ok (all ++ pages_from f (suc n) page)
  unfolding get_pages pages_from
  get_pages_rest n zero page z zone name f total all h last more enough = absurd (omega arith)
  get_pages_rest zero (suc fuel) page z zone name f total all h last more enough =
      let done : leb total (suc page) ≡ true = le→leb total (suc page) (omega arith) in
      rw (h (suc page), get_pages, done, append-nil (f (suc page))) refl
  get_pages_rest (suc n) (suc fuel) page z zone name f total all h last (inl e) enough =
      absurd (omega arith)
  get_pages_rest (suc n) (suc fuel) page z zone name f total all h last (inr e) enough =
      let on : leb total (suc page) ≡ false = lt→leb total (suc page) (omega arith) in
      let rest =
        get_pages_rest n fuel (suc page) z zone name f total (all ++ f (suc page)) h (omega arith)
          (inr (omega arith)) (omega arith) in
      rw
        (
          h (suc page),
          get_pages,
          on,
          rest,
          append_assoc all (f (suc page)) (f (suc (suc page)) ++ pages_from f n (suc (suc page))),
        )
        refl

  -- With the zone known and a provider that names the same number of pages each time, `get_seeds`
  -- ends with the contents of all pages in order; it asks for one page even if there is none.
  pub get_seeds-all :
      (fuel : ℕ) (cf : CloudflareSeeder) (flags : Bool) (z : Z) (zone : List ℕ)
      (f : ℕ → List DnsRecord) (total : ℕ)
      → zone_id pr cf z ≡ ok zone
      → HasPages z zone (record_name cf flags) f total
      → total < fuel
      → get_seeds pr fuel cf flags z ≡ ok (contents (pages_from f (max 1 total) 0))
  unfolding get_seeds
  get_seeds-all fuel cf flags z zone f total known h enough =
      let n = max 1 total - 1 in
      let same : max 1 total ≡ suc n = omega arith in
      let read =
        get_pages_rest n fuel 0 z zone (record_name cf flags) f total [] h (omega arith)
          (ground arith) (ground arith) in
      rw (known, read) (ap (λ k. ok (contents (pages_from f k 0))) (sym same))
