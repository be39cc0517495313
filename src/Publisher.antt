-- ===== src/Publisher.antt =====
-- crates/seeder-publish/src/api.rs and bin/dnsseed-publish/src/main.rs: the records of the seeder at
-- the provider of its DNS zone. The provider is a parameter: a state with the answers to the requests.
pub mod Pages
pub mod Bounds
mod Examples
use satoxcoin_seeder.Prelude.{
  ℕ, zero, suc, ◌+◌, Bool, true, false, Option, none, some, List, [], ◌∷◌, ◌++◌, length, min, leb,
  if◌then◌else◌,
}
use satoxcoin_seeder.Prelude.Dict.{contains}
use satoxcoin_seeder.Text.{contains_text, is_empty}
use satoxcoin_seeder.Toml.{text_eq}
use satoxcoin_seeder.Config.{Config, or_else, first_of_two}
use satoxcoin_seeder.Publish.{ReconcilePlan, reconcile}

pub record DnsRecord : Type 0 where
  pub id : List ℕ
  pub content : List ℕ

pub record NewDnsRecord : Type 0 where
  pub name : List ℕ
  pub record_type : List ℕ
  pub content : List ℕ
  pub ttl : Option ℕ

-- An answer that is one page of records, and how many pages there are, if it says so.
pub record Page : Type 0 where
  pub records : List DnsRecord
  pub total_pages : Option ℕ

-- How a request ends: without an answer that can be decoded, or with one, whose `success` is false
-- or true.
pub data Reply (A : Type 0) : Type 0 where
  failed : Reply A
  refused : A → Reply A
  replied : A → Reply A

-- How a request that makes a record ends: without an answer, with a status that is no success, or
-- with one that is.
pub data Posted : Type 0 where
  unanswered : Posted
  no_success : Posted
  made : Posted

-- The provider. A request to delete reports only whether it was answered.
pub record Provider (Z : Type 0) : Type 0 where
  pub zones : Z → List ℕ → Reply (List (Option (List ℕ)))
  pub page : Z → List ℕ → List ℕ → ℕ → Reply Page
  pub delete : Z → List ℕ → List ℕ → Z × Bool
  pub post : Z → List ℕ → NewDnsRecord → Z × Posted

pub record CloudflareSeeder : Type 0 where
  pub domain : List ℕ
  pub prefix : List ℕ
  pub zone_id : Option (List ℕ)

pub data ApiError : Type 0 where
  http : ApiError
  api : ApiError
  zone_not_found : List ℕ → ApiError
  too_many_zones : List ℕ → ApiError

-- `ran_out` is no outcome of the program: the fuel ran out.
pub data Result (A : Type 0) : Type 0 where
  ok : A → Result A
  err : ApiError → Result A
  ran_out : Result A

-- `x9.prefix.domain` or `prefix.domain`
unfoldable pub record_name : CloudflareSeeder → Bool → List ℕ
record_name cf flags =
    let plain = cf.prefix ++ (b'.' ∷ cf.domain) in
    if flags then b'x' ∷ b'9' ∷ b'.' ∷ plain else plain

-- The zone in an answer about the domain.
unfoldable pub zone_of : List ℕ → Reply (List (Option (List ℕ))) → Result (List ℕ)
zone_of domain failed = err http
zone_of domain (refused ids) = err api
zone_of domain (replied []) = err (zone_not_found domain)
zone_of domain (replied (none ∷ [])) = err api
zone_of domain (replied (some id ∷ [])) = ok id
zone_of domain (replied (a ∷ b ∷ rest)) = err (too_many_zones domain)

abbrev pub pages_of : Page → ℕ
pages_of p = or_else p.total_pages 0

unfoldable pub contents : List DnsRecord → List (List ℕ)
contents [] = []
contents (r ∷ rs) = r.content ∷ contents rs

abbrev pub aaaa_type : List ℕ
aaaa_type = b'A' ∷ b'A' ∷ b'A' ∷ b'A' ∷ []

abbrev pub a_type : List ℕ
a_type = b'A' ∷ []

unfoldable pub new_record : CloudflareSeeder → List ℕ → Bool → Option ℕ → NewDnsRecord
new_record cf ip flags ttl = record {
  name = record_name cf flags;
  record_type = if contains_text (b':' ∷ []) ip then aaaa_type else a_type;
  content = ip;
  ttl = ttl;
}

module _ {Z : Type 0} (pr : Provider Z) where
  -- The id of the zone, from the first call on a cached one.
  unfoldable pub zone_id : CloudflareSeeder → Z → Result (List ℕ)
  zone_id cf z = elim cf.zone_id [
    | some id ↦ ok id
    | none ↦ zone_of cf.domain (pr.zones z cf.domain)
  ]

  -- The loop of `get_seeds`, after `page` pages.
  unfoldable pub get_pages : ℕ → Z → List ℕ → List ℕ → ℕ → List DnsRecord → Result (List DnsRecord)
  get_pages zero z zone name page all = ran_out
  get_pages (suc fuel) z zone name page all = elim (pr.page z zone name (suc page)) [
    | failed ↦ err http
    | refused p ↦ err api
    | replied p ↦
        let more = get_pages fuel z zone name (suc page) (all ++ p.records) in
        if leb (pages_of p) (suc page) then ok (all ++ p.records) else more
  ]

  abbrev pub map_contents : Result (List DnsRecord) → Result (List (List ℕ))
  map_contents (ok rs) = ok (contents rs)
  map_contents (err e) = err e
  map_contents ran_out = ran_out

  abbrev pub with_zone : {A : Type 0} → Result (List ℕ) → (List ℕ → Result A) → Result A
  with_zone (ok zone) k = k zone
  with_zone (err e) k = err e
  with_zone ran_out k = ran_out

  unfoldable pub get_seeds : ℕ → CloudflareSeeder → Bool → Z → Result (List (List ℕ))
  get_seeds fuel cf flags z =
      with_zone (zone_id cf z)
        λ zone. map_contents (get_pages fuel z zone (record_name cf flags) 0 [])

  abbrev pub posted : Z × Posted → Z × Result Bool
  posted (z, unanswered) = (z, err http)
  posted (z, no_success) = (z, err api)
  posted (z, made) = (z, ok true)

  unfoldable pub set_seed : CloudflareSeeder → List ℕ → Bool → Option ℕ → Z → Z × Result Bool
  set_seed cf ip flags ttl z = elim (zone_id cf z) [
    | err e ↦ (z, err e)
    | ran_out ↦ (z, ran_out)
    | ok zone ↦ posted (pr.post z zone (new_record cf ip flags ttl))
  ]

  -- The records of one page whose content is to go, up to a request that is not answered.
  abbrev pub and_then : Z × Bool → (Z → Z × Bool) → Z × Bool
  and_then (z, true) k = k z
  and_then (z, false) k = (z, false)

  unfoldable pub delete_records : List ℕ → List (List ℕ) → List DnsRecord → Z → Z × Bool
  delete_records zone ips [] z = (z, true)
  delete_records zone ips (r ∷ rs) z =
      and_then (if contains r.content ips then pr.delete z zone r.id else (z, true))
        (delete_records zone ips rs)

  -- What the body of the loop decodes, with `success` or without.
  abbrev pub decoded : Reply Page → Option Page
  decoded failed = none
  decoded (refused p) = some p
  decoded (replied p) = some p

  -- After a page: its records are dealt with, and the loop ends or goes on with `more`.
  abbrev pub next_page : Z × Bool → Bool → (Z → Z × Result Bool) → Z × Result Bool
  next_page (z, false) last more = (z, err http)
  next_page (z, true) true more = (z, ok true)
  next_page (z, true) false more = more z

  -- The loop over the pages of one name, in `delete_seeds`, after `page` pages.
  unfoldable pub delete_pages : ℕ → List ℕ → List ℕ → List (List ℕ) → ℕ → Z → Z × Result Bool
  delete_pages zero zone name ips page z = (z, ran_out)
  delete_pages (suc fuel) zone name ips page z = elim (decoded (pr.page z zone name (suc page))) [
    | none ↦ (z, err http)
    | some p ↦
        next_page (delete_records zone ips p.records z) (leb (pages_of p) (suc page))
          (delete_pages fuel zone name ips (suc page))
  ]

  abbrev pub both : Z × Result Bool → (Z → Z × Result Bool) → Z × Result Bool
  both (z, ok b) k = k z
  both (z, err e) k = (z, err e)
  both (z, ran_out) k = (z, ran_out)

  unfoldable pub delete_seeds : ℕ → CloudflareSeeder → List (List ℕ) → Z → Z × Result Bool
  delete_seeds fuel cf ips z = elim (zone_id cf z) [
    | err e ↦ (z, err e)
    | ran_out ↦ (z, ran_out)
    | ok zone ↦
        both (delete_pages fuel zone (record_name cf false) ips 0 z)
          (delete_pages fuel zone (record_name cf true) ips 0)
  ]

  -- `main` of dnsseed-publish: what is added. Errors are only logged.
  unfoldable pub set_seeds : CloudflareSeeder → List (List ℕ) → Z → Z
  set_seeds cf [] z = z
  set_seeds cf (ip ∷ ips) z =
      let plain = (set_seed cf ip false (some 120) z).0 in
      set_seeds cf ips (set_seed cf ip true (some 120) plain).0

abbrev pub is_empty_list : List (List ℕ) → Bool
is_empty_list [] = true
is_empty_list (x ∷ xs) = false

-- MAX_SEEDS
abbrev pub max_seeds : ℕ
max_seeds = 25

-- The options of the command line that the plan depends on.
pub record Cli : Type 0 where
  pub own_ip : Option (List ℕ)
  pub port : Option ℕ
  pub max_seeds : ℕ

abbrev pub unless_empty_ip : List ℕ → Option (List ℕ)
unless_empty_ip [] = none
unless_empty_ip (c ∷ cs) = some (c ∷ cs)

unfoldable pub own_ip_of : Cli → Config → Option (List ℕ)
own_ip_of cli cfg = unless_empty_ip (or_else (first_of_two cli.own_ip cfg.cf_own_ip) [])

unfoldable pub plan_of : Cli → Config → List (List ℕ) → List (List ℕ) → ReconcilePlan
plan_of cli cfg current candidates =
    reconcile current candidates (own_ip_of cli cfg) (min cli.max_seeds max_seeds)

module _ {Z : Type 0} (pr : Provider Z) where
  -- The end of `main`, once the current records and the candidates are known.
  unfoldable pub carry_out : ℕ → CloudflareSeeder → ReconcilePlan → Z → Z
  carry_out fuel cf plan z =
      let cleared =
        if is_empty_list plan.to_delete then z else (delete_seeds pr fuel cf plan.to_delete z).0 in
      set_seeds pr cf plan.to_add cleared
