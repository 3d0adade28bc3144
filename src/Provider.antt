-- ===== src/Provider.antt =====
-- src/schemas/dns.py and src/plugins/base.py: the records that pass between the service and the
-- client of a DNS provider, and the contract of such a client. src/zone_service.py: the names of
-- zones and the provider domain of a zone configuration.
pub mod Store
use api_to_dns.Prelude.{
  ℕ, Bool, true, false, ◌||◌, Option, none, some, List, [], ◌∷◌, if◌then◌else◌,
}
use api_to_dns.Text.{Text, ℤ, str, is_empty, ◌===◌, contains, strip, rstrip_dot, lower, upper}
use api_to_dns.Fault.{
  Fault, Result, ok, err, delete_target_required, delete_target_type, values_required,
  dns_zone_required,
}
use api_to_dns.Exec.{Exec}
use api_to_dns.RecordTypes.{mutable_record_types}

-- DnsRecordInfo
pub record RecordInfo : Type 0 where
  pub record_name : Text
  pub record_type : Text
  pub ttl : Option ℤ
  pub values : Option (List Text)

-- DnsRecordRequest
pub record RecordRequest : Type 0 where
  pub zone_name : Option Text
  pub record_type : Text
  pub record_name : Text
  pub ttl : Option ℤ
  pub values : List Text

abbrev pub delete_type : Text
delete_type = str "DELETE"

abbrev check_delete : List Text → Option Fault
check_delete [] = some delete_target_required
check_delete (t ∷ ts) =
    if contains mutable_record_types (upper (strip t))
    then none
    else some (delete_target_type (upper (strip t)))

abbrev check_values : List Text → Option Fault
check_values [] = some values_required
check_values (t ∷ ts) = none

-- `validate_values_for_operation`, which building a request runs
unfoldable pub request_fault : RecordRequest → Option Fault
request_fault r =
    if upper (strip r.record_type) === delete_type
    then check_delete r.values
    else check_values r.values

abbrev pub checked : RecordRequest → Option Fault → Result RecordRequest
checked r none = ok r
checked r (some f) = err f

unfoldable pub make_request : RecordRequest → Result RecordRequest
make_request r = checked r (request_fault r)

-- DnsProviderClient
pub record Client : Type 1 where
  pub State : Type 0
  -- record_name, record_type, dns_server, dns_zone
  pub get_record : Text → Option Text → Option Text → Option Text → Exec State (List RecordInfo)
  -- payload, dns_server, dns_zone
  pub create_or_update_record : RecordRequest → Option Text → Option Text → Exec State Bool

-- settings.get(name), for a decoded zone configuration
abbrev pub Settings : Type 0
Settings = Text → Option Text

abbrev pub text_or_empty : Option Text → Text
text_or_empty none = []
text_or_empty (some s) = s

unfoldable pub normalize_zone_name : Text → Text
normalize_zone_name zone = lower (rstrip_dot (strip zone))

unfoldable pub provider_dns_zone : Settings → Result Text
provider_dns_zone settings =
    let zone = normalize_zone_name (text_or_empty (settings (str "dns_zone"))) in
    if is_empty zone then err dns_zone_required else ok zone
