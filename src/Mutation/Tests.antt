-- ===== src/Mutation/Tests.antt =====
-- Changes of record sets in the store in memory.
use api_to_dns.Prelude.{◌≡◌, refl, true, false, none, some, [], ◌∷◌, every, if◌then◌else◌}
use api_to_dns.Address.{address_runs}
use api_to_dns.Text.{Text, nonnegative, str, ◌===◌, lower, strip, upper, text_runs}
use api_to_dns.Fault.{ok}
use api_to_dns.Plugins.Names.{dns_relative_name}
use api_to_dns.Provider.{
  Settings, normalize_zone_name, provider_dns_zone, make_request, request_fault,
}
use api_to_dns.Provider.Store.{RecordSet, View, memory}
use api_to_dns.Mutation.{
  prepare_mutation, Outcome, create, created, success, apply_rrset_mutation, record_exists_at_type,
  act_on_rrset, send,
}
use api_to_dns.RecordTypes.{
  normalize_mutable_record_type, guard_mutation_allowed, is_apex_name, is_reverse_zone,
  validate_ttl, normalize_record_values, each, normalize_record_value, clean_type, value_by_type,
  mx_value, parse_mx, parse_uint, normalize_hostname, hostname_re, are_labels, is_label,
  before_last_newline,
}
use api_to_dns.Mutation.Prepared.{Prepared, prepare_mutation-Prepared}
use api_to_dns.Mutation.Branches.{Outcomes, apply_rrset_mutation-Outcomes}

abbrev zone : Text
zone = str "example.com"

-- `{"dns_zone": "Example.com."}`
abbrev settings : Settings
settings name =
    if name === str "dns_server" then some (str "192.0.2.53") else some (str "Example.com.")

abbrev no_records : View
no_records owner rt = none

abbrev www_set : RecordSet
www_set = record { ttl = nonnegative 60; values = str "192.0.2.1" ∷ [] }

-- one record set for www, whatever the type
abbrev with_www : View
with_www owner rt = some www_set

abbrev outcome : Outcome
outcome = record {
  status = success;
  action = created;
  http_status = 200;
  record_name = str "www";
  record_type = str "A";
  values = str "192.0.2.1" ∷ [];
  dns_zone = zone;
}

abbrev new_zone : View
new_zone =
    (apply_rrset_mutation memory settings zone (str "www") (str " a") (some (nonnegative 60))
      (str "192.0.2.1" ∷ []) create no_records).1

create_run :
    apply_rrset_mutation memory settings zone
      (str "www")
      (str " a")
      (some (nonnegative 60))
      (str "192.0.2.1" ∷ [])
      create
      no_records
    ≡ (ok outcome, new_zone)
unfolding apply_rrset_mutation provider_dns_zone normalize_zone_name record_exists_at_type
    act_on_rrset send make_request request_fault dns_relative_name text_runs lower
    normalize_record_values clean_type each normalize_record_value value_by_type address_runs every
create_run = refl

apply_rrset_mutation-Outcomes_example :
    Outcomes memory settings zone
      (str "www")
      (upper (strip (str " a")))
      (some (nonnegative 60))
      (str "192.0.2.1" ∷ [])
      create
      outcome
      no_records
      new_zone
apply_rrset_mutation-Outcomes_example =
    apply_rrset_mutation-Outcomes memory settings zone (str "www") (str " a")
      (some (nonnegative 60)) (str "192.0.2.1" ∷ []) create outcome no_records new_zone create_run

mx_prepared :
    prepare_mutation
      (str " www ")
      (str "mx")
      none
      (some (str "010 mail.example.com." ∷ []))
      (some zone)
      true
      false
    ≡ ok (record {
      record_name = str "www";
      record_type = str "MX";
      ttl = 300;
      values = str "10 mail.example.com" ∷ [];
    })
unfolding prepare_mutation normalize_mutable_record_type guard_mutation_allowed is_apex_name
    is_reverse_zone validate_ttl normalize_record_values each normalize_record_value clean_type
    value_by_type mx_value parse_mx parse_uint normalize_hostname hostname_re are_labels is_label
    before_last_newline every text_runs
mx_prepared = refl

prepare_mutation-Prepared_example :
    Prepared
      (str " www ")
      (str "mx")
      none
      (some (str "010 mail.example.com." ∷ []))
      (some zone)
      true
      false
      (record {
        record_name = str "www";
        record_type = str "MX";
        ttl = 300;
        values = str "10 mail.example.com" ∷ [];
      })
prepare_mutation-Prepared_example =
    prepare_mutation-Prepared (str " www ") (str "mx") none
      (some (str "010 mail.example.com." ∷ [])) (some zone) true false _ mx_prepared
