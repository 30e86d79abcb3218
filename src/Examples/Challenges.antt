-- ===== src/Examples/Challenges.antt =====
-- Tests of the records of ACME challenges.
use certhub_server.Common.{
  String, true, false, none, some, [], ◌∷◌, ◌≡◌, ◌≢◌, refl, inl, inr, eq_iff, eq_refl,
}
use mathlib.Core.Path.{subst}
use certhub_server.Common.Dict.{lookup, insert, delete, lookup-insert}
use certhub_server.Store.{Result, ok}
use certhub_server.Acme.{require_acme_active}
use certhub_server.Delegation.{
  Records, State, DnsEnv, Provider, present, clean_up, tracked, DnsError, check_context,
  require_active, zone_id_from, get_zone_id, create_record, wrap, create_txt, track, current_id,
  delete_previous, replace_delegation_txt, remember, lookup_target, answer, ◌>>=◌, ◌>>◌,
  new_delegation_dns_provider,
}
use certhub_server.Delegation.Tracked.{LeavesAlone}
use certhub_server.Delegation.Single.{presents, Reach, here, next, Reach-single}
use certhub_server.Delegation.Successor.{clean_up-spares_successor}
use certhub_server.Examples.ToyDns.{toy_dns, Has, toy_view, toy-IsZone}

abbrev dns_env : DnsEnv toy_dns
dns_env = record {
  auth_zone = "auth.example";
  ended = λ k. false;
  scope = λ k. some true;
  others = λ k r. r;
  delegation_target = λ k domain. inr "1.cname.yourservice.com";
  challenge_value = λ domain key. key;
  to_fqdn = λ s. s;
  un_fqdn = λ s. s;
  quote = λ s. s;
}

alone : LeavesAlone toy_dns toy_view "z" "1.cname.yourservice.com" dns_env
alone = record { records = λ k r i h. h; entries = λ k r. refl; unsure = λ k r h. h }

abbrev no_records : Records toy_dns
no_records = record { remote = ([], true); targets = []; warned = false }

abbrev fresh : State toy_dns
fresh = record { shared = no_records; provider = new_delegation_dns_provider; event = 0 }

abbrev one_record : Records toy_dns
one_record = record {
  remote = ("1.cname.yourservice.com" ∷ [], true);
  targets = insert "1.cname.yourservice.com" "r" [];
  warned = false;
}

abbrev end_state : State toy_dns
end_state = record {
  shared = one_record;
  provider = record {
    zone = some (inr "z");
    record_ids = insert "t" "r" [];
    target_names = insert "t" "1.cname.yourservice.com" [];
  };
  event = 8;
}

present_run : present toy_dns dns_env "example.com" "t" "key" fresh ≡ (ok tt, end_state)
unfolding present check_context require_active zone_id_from get_zone_id create_record wrap
    create_txt track current_id delete_previous replace_delegation_txt remember lookup_target answer
    ◌>>=◌ ◌>>◌ insert delete lookup tracked require_acme_active
present_run = refl

reached_one :
    Reach toy_dns toy_view "auth.example" "z" "1.cname.yourservice.com" no_records one_record
reached_one =
    subst
      (λ (r : Result DnsError (Unit {0}) × State toy_dns).
        Reach toy_dns toy_view "auth.example" "z" "1.cname.yourservice.com" no_records r.1.shared)
      present_run
      (next here (
        presents dns_env new_delegation_dns_provider 0 "example.com" "t" "key" refl alone
          (λ z e. absurd (cc))))

nothing : (i : String) → Has [] i "1.cname.yourservice.com" → ⊥
unfolding Has
nothing i h = h

there : Has ("1.cname.yourservice.com" ∷ []) "r" "1.cname.yourservice.com"
unfolding Has
there = inl (refl, refl)

abbrev r_id : String
r_id = "r"

Reach-single_example :
    (r_id ≡ r_id) × (r_id ≡ (tracked "1.cname.yourservice.com" one_record.targets))
Reach-single_example =
    Reach-single toy_dns toy_view "auth.example" "z" "1.cname.yourservice.com" toy-IsZone no_records
      one_record (λ i h. absurd (nothing i h)) reached_one refl refl "r" "r" there there

abbrev old_provider : Provider
old_provider = record {
  zone = none;
  record_ids = insert "o" "x" [];
  target_names = insert "o" "1.cname.yourservice.com" [];
}

abbrev after_present : State toy_dns
after_present = (present toy_dns dns_env "example.com" "t" "key" fresh).1

differs : "x" ≢ r_id
differs e = let equal : false ≡ true = (eq_iff "x" r_id).1 e in cc

abbrev before : State toy_dns
before = record { shared = after_present.shared; provider = old_provider; event = 3 }

found_new : (k v : String) → lookup k (insert k v []) ≡ some v
found_new k v = rw (lookup-insert k k v []) (rw (eq_refl k) refl)

clean_up-spares_successor_example :
    ((clean_up toy_dns dns_env "o" before).0 ≡ ok tt)
    × ((clean_up toy_dns dns_env "o" before).1.shared ≡ after_present.shared)
    × ((clean_up toy_dns dns_env "o" before).1.provider.record_ids
        ≡ delete "o" old_provider.record_ids)
clean_up-spares_successor_example =
    clean_up-spares_successor toy_dns dns_env dns_env "example.com" "t" "key" fresh
      "1.cname.yourservice.com" "r" old_provider 3 "o" "x" (rw present_run refl)
      (rw present_run (found_new "t" "1.cname.yourservice.com"))
      (rw present_run (found_new "t" "r")) (found_new "o" "1.cname.yourservice.com")
      (found_new "o" "x") differs
