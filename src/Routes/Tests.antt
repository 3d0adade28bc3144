-- ===== src/Routes/Tests.antt =====
-- Calls of the API at concrete bodies.
use api_to_dns.Prelude.{◌≡◌, ◌⊎◌, refl, none, some, [], ◌∷◌, ◌++◌, true, if◌then◌else◌}
use api_to_dns.Text.{Text, str, ◌===◌, text_runs, nonnegative}
use api_to_dns.Fault.{Result, ok, err, values_required}
use api_to_dns.RecordTypes.{normalize_public_record_type, clean_type}
use api_to_dns.Provider.{Settings}
use api_to_dns.Provider.Store.{View, memory}
use api_to_dns.RateLimit.{api_key_from_headers}
use api_to_dns.Api.{Tables, World, read_write}
use api_to_dns.Api.Authority.{Authorised}
use api_to_dns.Routes.{PatchRequest, Headers, Call, post, validate_patch, handle}
use api_to_dns.Routes.Public.{type_of, arguments, IsPublic, handle-IsPublic}

abbrev connect : Text → Settings → Result (Unit {0})
connect provider settings = ok tt

abbrev digest : Text → Text
digest key = str "#" ++ key

abbrev settings : Settings
settings name =
    if name === str "dns_provider_type" then some (str "bind") else some (str "example.com")

abbrev db : Tables
db = record {
  keys =
      record {
        id = 7;
        label = str "deploy";
        key = str "#k1";
        access_mode = read_write;
        active = true;
      }
      ∷ [];
  zones = record { id = 1; zone_name = str "example.com"; settings = settings } ∷ [];
  allowed = record { api_key_id = 7; dns_zone_config_id = 1 } ∷ [];
  disabled = [];
}

abbrev no_records : View
no_records owner rt = none

abbrev world : World memory
world = record { events = []; provider = no_records }

abbrev headers : Headers
headers = record { x_api_key = none; authorization = some (str "Bearer k1 ") }

abbrev call : Call
call = post (record {
  zone_name = some (str "example.com");
  record_type = str "a";
  record_name = str "www";
  ttl = some (nonnegative 60);
  values = str "192.0.2.1" ∷ [];
})

bearer_read : api_key_from_headers none (some (str "Bearer k1 ")) ≡ str "k1"
unfolding api_key_from_headers text_runs
bearer_read = refl

handle-IsPublic_example :
    ((handle memory connect digest headers call db world).1.provider ≡ no_records)
    ⊎ (Authorised db
          (digest (api_key_from_headers none (some (str "Bearer k1 "))))
          (arguments headers call)
        × IsPublic (type_of call))
handle-IsPublic_example = handle-IsPublic memory connect digest headers call db world

abbrev empty_patch : PatchRequest
empty_patch = record {
  zone_name = some (str "example.com");
  record_type = str "txt";
  record_name = str "www";
  ttl = none;
  values = some [];
}

patch_refused : validate_patch empty_patch ≡ err values_required
unfolding validate_patch normalize_public_record_type clean_type text_runs
patch_refused = refl
