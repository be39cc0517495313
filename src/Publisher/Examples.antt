-- ===== src/Publisher/Examples.antt =====
-- A provider with two pages of one record each.
use satoxcoin_seeder.Prelude.{
  ℕ, ◌+◌, ◌-◌, ◌*◌, ◌≤◌, ◌≡◌, refl, true, false, none, some, List, [], ◌∷◌, length, max, arith, pos,
}
use satoxcoin_seeder.Config.{Config}
use satoxcoin_seeder.Publisher.{
  DnsRecord, Provider, replied, made, CloudflareSeeder, ok, zone_id, zone_of, get_seeds, contents,
  Cli, plan_of, carry_out,
}
use satoxcoin_seeder.Publisher.Pages.{pages_from, get_seeds-all}
use satoxcoin_seeder.Publisher.Bounds.{carry_out_bound}

abbrev zone : List ℕ
zone = b'z' ∷ []

abbrev record_on : ℕ → List DnsRecord
record_on page = record { id = page ∷ []; content = page ∷ [] } ∷ []

abbrev two_pages : Provider ℕ
two_pages = record {
  zones = λ z domain. replied (some zone ∷ []);
  page = λ z zone name page. replied (record { records = record_on page; total_pages = some 2 });
  delete = λ z zone id. (z + 1, true);
  post = λ z zone r. (z + 1, made);
}

abbrev seeder : CloudflareSeeder
seeder = record { domain = b'd' ∷ []; prefix = b'p' ∷ []; zone_id = none }

get_seeds-all_example :
    get_seeds two_pages 3 seeder false 0 ≡ ok (contents (pages_from record_on (max 1 2) 0))
unfolding zone_id zone_of
get_seeds-all_example =
    get_seeds-all two_pages 3 seeder false 0 zone record_on 2 refl (λ page. refl) (omega arith)

abbrev config : Config
config = record {
  protocol_version = 70016;
  init_proto_version = 209;
  min_peer_proto_version = 70000;
  caddr_time_version = 0;
  pch_message_start = 1 ∷ 2 ∷ 3 ∷ 4 ∷ [];
  wallet_port = 60777;
  explorer_url = none;
  second_explorer_url = none;
  explorer_requery_seconds = 60;
  block_count = pos 1;
  seeds = [];
  cf_domain = none;
  cf_domain_prefix = none;
  cf_api_token = none;
  cf_seed_dump = none;
  cf_own_ip = none;
  cf_max_seeds = some 25;
}

abbrev cli : Cli
cli = record { own_ip = none; port = none; max_seeds = 30 }

-- A provider whose state is the number of its records.
abbrev counted : ℕ → ℕ
counted z = z

abbrev one_a_page : Provider ℕ
one_a_page = record two_pages { delete = λ z zone id. (z - 1, true) }

carry_out_bound_example :
    let plan = plan_of cli config ((1 ∷ []) ∷ []) ((2 ∷ []) ∷ []) in
    (length plan.keep ≤ 25)
    × (counted (carry_out one_a_page 3 seeder plan 2) ≤ 2 + 2 * (25 - length plan.keep))
carry_out_bound_example =
    carry_out_bound one_a_page counted (λ z zone r. omega arith) (λ z zone id. omega arith) 3 seeder
      cli config ((1 ∷ []) ∷ []) ((2 ∷ []) ∷ []) 2
