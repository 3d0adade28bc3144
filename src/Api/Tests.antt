-- ===== src/Api/Tests.antt =====
-- Requests with API keys, over the store in memory.
use api_to_dns.Prelude.{◌≡◌, ◌⊎◌, refl, true, none, some, [], ◌∷◌, ◌++◌, find_first, if◌then◌else◌}
use api_to_dns.Text.{Text, nonnegative, str, ◌===◌, text_runs}
use api_to_dns.Fault.{Result, ok}
use api_to_dns.Provider.{Settings, text_or_empty}
use api_to_dns.Provider.Store.{View, memory}
use api_to_dns.Mutation.{PreparedMutation, create}
use api_to_dns.Api.{
  ApiKey, ZoneConfig, Tables, http_exception, write, Request, World, read_write, get_api_key,
  resolve_dns_api_zone, require_write_access, apply_dns_mutation,
}
use api_to_dns.Api.Authority.{Authorised, apply_dns_mutation-Authorised}
use api_to_dns.Api.Served.{Served}

-- a provider that can always be reached
abbrev connect : Text → Settings → Result (Unit {0})
connect provider settings = ok tt

abbrev digest : Text → Text
digest key = str "#" ++ key

abbrev settings : Settings
settings name =
    if name === str "dns_provider_type" then some (str "bind") else some (str "example.com")

abbrev zone : ZoneConfig
zone = record { id = 1; zone_name = str "example.com"; settings = settings }

abbrev writer : ApiKey
writer = record {
  id = 7;
  label = str "deploy";
  key = str "#k1";
  access_mode = read_write;
  active = true;
}

abbrev db : Tables
db = record {
  keys = writer ∷ [];
  zones = zone ∷ [];
  allowed = record { api_key_id = 7; dns_zone_config_id = 1 } ∷ [];
  disabled = str "azure" ∷ [];
}

abbrev post : Request
post = record {
  api_key = some (str "k1");
  zone_name = some (str "Example.com.");
  record_name = str "www";
  record_type = str "a";
  ttl = some (nonnegative 60);
  values = str "192.0.2.1" ∷ [];
  mode = write create;
  patch_ttl = none;
  patch_values = none;
}

abbrev no_records : View
no_records owner rt = none

abbrev world : World memory
world = record { events = []; provider = no_records }

abbrev prepared : PreparedMutation
prepared = record {
  record_name = str "www";
  record_type = str "A";
  ttl = 60;
  values = str "192.0.2.1" ∷ [];
}

apply_dns_mutation-Authorised_example :
    ((apply_dns_mutation memory connect digest db post world).1.provider ≡ no_records)
    ⊎ Authorised db (digest (text_or_empty post.api_key)) post
apply_dns_mutation-Authorised_example =
    apply_dns_mutation-Authorised memory connect digest db post world

-- a key that is not known
abbrev bad_key : Request
bad_key = record {
  api_key = some (str "k2");
  zone_name = some (str "Example.com.");
  record_name = str "www";
  record_type = str "a";
  ttl = none;
  values = [];
  mode = write create;
  patch_ttl = none;
  patch_values = none;
}

bad_key_answer :
    (apply_dns_mutation memory connect digest db bad_key world).0
    ≡ http_exception 401 (str "Invalid API key")
unfolding apply_dns_mutation require_write_access resolve_dns_api_zone get_api_key find_first
    text_runs
bad_key_answer = refl
