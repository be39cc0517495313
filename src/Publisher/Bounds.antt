-- ===== src/Publisher/Bounds.antt =====
-- How many records a run of dnsseed-publish adds at most.
use satoxcoin_seeder.Prelude.{
  ℕ, zero, suc, ◌+◌, ◌*◌, ◌-◌, ◌≤◌, Bool, true, false, Option, none, some, List, [], ◌∷◌, length,
  min, leb, if◌then◌else◌, if_holds, arith,
}
use satoxcoin_seeder.Prelude.Dict.{contains}
use satoxcoin_seeder.Toml.{text_eq}
use satoxcoin_seeder.Config.{Config}
use satoxcoin_seeder.Publish.Plan.{reconcile_bound}
use satoxcoin_seeder.Publisher.{
  DnsRecord, NewDnsRecord, Page, Posted, unanswered, no_success, made, Provider, Result, ok, err,
  ran_out, http, CloudflareSeeder, record_name, new_record, posted, set_seed, set_seeds, and_then,
  delete_records, decoded, pages_of, next_page, delete_pages, both, delete_seeds, Cli, own_ip_of,
  plan_of, max_seeds, zone_id, is_empty_list, carry_out,
}

-- What is kept and added are at most 25 together, and at most as many as the command line allows.
plan_of_bound :
    (cli : Cli) (cfg : Config) (current candidates : List (List ℕ))
    → let plan = plan_of cli cfg current candidates in
      length plan.to_add + length plan.keep ≤ min cli.max_seeds 25
unfolding plan_of
plan_of_bound cli cfg current candidates =
    let bound =
      reconcile_bound current candidates (own_ip_of cli cfg) (min cli.max_seeds max_seeds) in
    omega (arith, bound)

module _ {Z : Type 0} (pr : Provider Z) (records : Z → ℕ)
    (post_one : (z : Z) (zone : List ℕ) (r : NewDnsRecord)
      → records (pr.post z zone r).0 ≤ records z + 1)
    (delete_none : (z : Z) (zone id : List ℕ) → records (pr.delete z zone id).0 ≤ records z) where
  -- A call that does not add more than `n` records.
  abbrev Adds : {A : Type 0} → ℕ → Z → Z × A → Type 0
  Adds n z p = records p.0 ≤ records z + n

  sent :
      (cf : CloudflareSeeder) (r : NewDnsRecord) (z : Z) (zone : Result (List ℕ))
      → Adds {A = Result Bool} 1 z (elim zone [
        | err e ↦ (z, err e)
        | ran_out ↦ (z, ran_out)
        | ok zone ↦ posted pr (pr.post z zone r)
      ])
  sent cf r z (err e) = omega arith
  sent cf r z ran_out = omega arith
  sent cf r z (ok zone) = answered (pr.post z zone r) (post_one z zone r)
    where
      answered : (p : Z × Posted) → Adds 1 z p → Adds 1 z (posted pr p)
      answered (z', unanswered) h = h
      answered (z', no_success) h = h
      answered (z', made) h = h

  set_seeds_bound :
      (cf : CloudflareSeeder) (ips : List (List ℕ)) (z : Z)
      → records (set_seeds pr cf ips z) ≤ records z + 2 * length ips
  unfolding set_seeds set_seed
  set_seeds_bound cf [] z = omega arith
  set_seeds_bound cf (ip ∷ ips) z =
      let plain = (set_seed pr cf ip false (some 120) z).0 in
      let flagged = (set_seed pr cf ip true (some 120) plain).0 in
      omega (
        arith,
        sent cf (new_record cf ip false (some 120)) z (zone_id pr cf z),
        sent cf (new_record cf ip true (some 120)) plain (zone_id pr cf plain),
        set_seeds_bound cf ips flagged,
      )

  and_then_bound :
      (z : Z) (p : Z × Bool) (k : Z → Z × Bool)
      → Adds 0 z p
      → ((z' : Z) → Adds 0 z' (k z'))
      → Adds 0 z (and_then pr p k)
  and_then_bound z (z', true) k h more = omega (arith, h, more z')
  and_then_bound z (z', false) k h more = h

  delete_records_bound :
      (zone : List ℕ) (ips : List (List ℕ)) (rs : List DnsRecord) (z : Z)
      → Adds 0 z (delete_records pr zone ips rs z)
  unfolding delete_records
  delete_records_bound zone ips [] z = omega arith
  delete_records_bound zone ips (r ∷ rs) z =
      and_then_bound z (if contains r.content ips then pr.delete z zone r.id else (z, true))
        (delete_records pr zone ips rs)
        (if_holds (λ p. Adds 0 z p) (pr.delete z zone r.id) (z, true) (contains r.content ips)
          (omega (arith, delete_none z zone r.id)) (omega arith))
        (delete_records_bound zone ips rs)

  next_page_bound :
      (z : Z) (p : Z × Bool) (last : Bool) (more : Z → Z × Result Bool)
      → Adds 0 z p
      → ((z' : Z) → Adds 0 z' (more z'))
      → Adds 0 z (next_page pr p last more)
  next_page_bound z (z', false) last more h k = h
  next_page_bound z (z', true) true more h k = h
  next_page_bound z (z', true) false more h k = omega (arith, h, k z')

  page_bound :
      (zone : List ℕ) (ips : List (List ℕ)) (z : Z) (last : Page → Bool) (p : Option Page)
      (more : Z → Z × Result Bool)
      → ((z' : Z) → Adds 0 z' (more z'))
      → Adds {A = Result Bool} 0 z (elim p [
        | none ↦ (z, err http)
        | some p ↦ next_page pr (delete_records pr zone ips p.records z) (last p) more
      ])
  page_bound zone ips z last none more k = omega arith
  page_bound zone ips z last (some p) more k =
      next_page_bound z (delete_records pr zone ips p.records z) (last p) more
        (delete_records_bound zone ips p.records z) k

  delete_pages_bound :
      (fuel : ℕ) (zone name : List ℕ) (ips : List (List ℕ)) (page : ℕ) (z : Z)
      → Adds 0 z (delete_pages pr fuel zone name ips page z)
  unfolding delete_pages
  delete_pages_bound zero zone name ips page z = omega arith
  delete_pages_bound (suc fuel) zone name ips page z =
      page_bound zone ips z (λ p. leb (pages_of p) (suc page))
        (decoded pr (pr.page z zone name (suc page)))
        (delete_pages pr fuel zone name ips (suc page))
        (delete_pages_bound fuel zone name ips (suc page))

  both_bound :
      (z : Z) (p : Z × Result Bool) (k : Z → Z × Result Bool)
      → Adds 0 z p
      → ((z' : Z) → Adds 0 z' (k z'))
      → Adds 0 z (both pr p k)
  both_bound z (z', ok b) k h more = omega (arith, h, more z')
  both_bound z (z', err e) k h more = h
  both_bound z (z', ran_out) k h more = h

  delete_seeds_bound :
      (fuel : ℕ) (cf : CloudflareSeeder) (ips : List (List ℕ)) (z : Z)
      → Adds 0 z (delete_seeds pr fuel cf ips z)
  unfolding delete_seeds
  delete_seeds_bound fuel cf ips z = known (zone_id pr cf z)
    where
      known :
          (zone : Result (List ℕ))
          → Adds {A = Result Bool} 0 z (elim zone [
            | err e ↦ (z, err e)
            | ran_out ↦ (z, ran_out)
            | ok zone ↦
                both pr
                  (delete_pages pr fuel zone (record_name cf false) ips 0 z)
                  (delete_pages pr fuel zone (record_name cf true) ips 0)
          ])
      known (err e) = omega arith
      known ran_out = omega arith
      known (ok zone) =
          both_bound z (delete_pages pr fuel zone (record_name cf false) ips 0 z)
            (delete_pages pr fuel zone (record_name cf true) ips 0)
            (delete_pages_bound fuel zone (record_name cf false) ips 0 z)
            (delete_pages_bound fuel zone (record_name cf true) ips 0)

  -- However the provider answers, a run leaves at most two records more than it found for each
  -- address that it may still add: with the addresses that it keeps, at most 25 of them, and at most as
  -- many as the command line allows, so 50 records more at most. (A request to make a record makes
  -- one at most, and one to delete a record makes none. Records whose deletion fails stay in the zone,
  -- beside the new ones.)
  pub carry_out_bound :
      (fuel : ℕ) (cf : CloudflareSeeder) (cli : Cli) (cfg : Config)
      (current candidates : List (List ℕ)) (z : Z)
      → let plan = plan_of cli cfg current candidates in
        (length plan.keep ≤ min cli.max_seeds 25)
        × (records (carry_out pr fuel cf plan z)
            ≤ records z + 2 * (min cli.max_seeds 25 - length plan.keep))
  unfolding carry_out
  carry_out_bound fuel cf cli cfg current candidates z =
      let plan = plan_of cli cfg current candidates in
      let deleted = (delete_seeds pr fuel cf plan.to_delete z).0 in
      let cleared = if is_empty_list plan.to_delete then z else deleted in
      let no_more : records cleared ≤ records z =
        if_holds (λ (y : Z). records y ≤ records z) z deleted (is_empty_list plan.to_delete)
          (omega arith) (omega (arith, delete_seeds_bound fuel cf plan.to_delete z)) in
      let bound = plan_of_bound cli cfg current candidates in
      (omega (arith, bound), omega (arith, bound, no_more, set_seeds_bound cf plan.to_add cleared))
