-- ===== src/Api/Resolve.antt =====
-- src/dns_api_service.py: the checks on an API key and its zone, with the tables of src/models.py, and
-- get_api_key and get_disabled_dns_plugins of src/zone_service.py.
use api_to_dns.Prelude.{
  ℕ, Bool, ◌&&◌, ◌||◌, Option, none, some, List, [], ◌∷◌, find_first, keep, map, if◌then◌else◌,
  ◌==◌,
}
use api_to_dns.Text.{Text, str, is_empty, ◌===◌, contains, strip, lower}
use api_to_dns.Provider.{Settings, normalize_zone_name, text_or_empty}
use api_to_dns.Mutation.{Outcome}

-- ApiKey: `key` is the digest of the key
pub record ApiKey : Type 0 where
  pub id : ℕ
  pub label : Text
  pub key : Text
  pub access_mode : Text
  pub active : Bool

-- DnsZoneConfig, with its configuration decoded
pub record ZoneConfig : Type 0 where
  pub id : ℕ
  pub zone_name : Text
  pub settings : Settings

-- ApiKeyAllowedZone
pub record AllowedZone : Type 0 where
  pub api_key_id : ℕ
  pub dns_zone_config_id : ℕ

-- The tables, and the value of the setting `disabled_dns_plugins`.
pub record Tables : Type 0 where
  pub keys : List ApiKey
  pub zones : List ZoneConfig
  pub allowed : List AllowedZone
  pub disabled : List Text

pub data Level : Type 0 where
  informational warning failure : Level

pub record Event : Type 0 where
  pub event_type : Text
  pub level : Level
  pub actor : Text
  pub zone : Text

abbrev pub event : Text → Level → Text → Text → Event
event event_type level actor zone = record {
  event_type = event_type;
  level = level;
  actor = actor;
  zone = zone;
}

abbrev pub read_write : Text
read_write = str "read_write"

-- the keys of the plugins that `discover_plugins` finds
abbrev pub known_providers : List Text
known_providers = str "azure" ∷ str "bind" ∷ str "cloudflare" ∷ str "microsoft" ∷ []

unfoldable pub get_disabled_dns_plugins : Tables → List Text
get_disabled_dns_plugins db =
    keep (contains known_providers) (map (λ key. lower (strip key)) db.disabled)

-- `(settings.get("dns_provider_type") or "azure").strip().lower()`
abbrev pub or_azure : Text → Text
or_azure [] = str "azure"
or_azure (c ∷ s) = c ∷ s

unfoldable pub provider_of : Settings → Text
provider_of settings = lower (strip (or_azure (text_or_empty (settings (str "dns_provider_type")))))

-- What a request is answered with: a body with its status code, or an HTTPException with its
-- status code and the word in its `error`.
pub data Answer : Type 0 where
  body : ℕ → Outcome → Answer
  http_exception : ℕ → Text → Answer

-- A key, a zone and a provider; or the event that is written, and what is raised.
pub data Access : Type 0 where
  granted : ApiKey → ZoneConfig → Text → Access
  denied : Event → Answer → Access

unfoldable pub get_api_key : List ApiKey → Text → Option ApiKey
get_api_key keys digest = find_first (λ k. k.key === digest && k.active) keys

abbrev pub find_zone : List ZoneConfig → Text → Option ZoneConfig
find_zone zones canonical = find_first (λ z. z.zone_name === canonical) zones

abbrev pub find_allowed : List AllowedZone → ℕ → ℕ → Option AllowedZone
find_allowed allowed key_id zone_id =
    find_first (λ a. a.api_key_id == key_id && a.dns_zone_config_id == zone_id) allowed

abbrev access_denied : Text → Text → Access
access_denied actor zone =
    denied (event (str "dns.access_denied") warning actor zone)
      (http_exception 403 (str "access_denied"))

abbrev invalid_request : Text → Text → Access
invalid_request actor zone =
    denied (event (str "dns.invalid_request") warning actor zone)
      (http_exception 400 (str "invalid_request"))

-- `not settings.get(name)`
abbrev pub is_unset : Settings → Text → Bool
is_unset settings name = is_empty (text_or_empty (settings name))

-- The checks on the settings of an Azure zone.
unfoldable pub lacks_azure_settings : Text → Settings → Bool
lacks_azure_settings provider settings =
    provider === str "azure"
    && (is_unset settings (str "azure_subscription_id")
        || is_unset settings (str "azure_resource_group"))

abbrev pub checked_settings : ApiKey → Text → ZoneConfig → Text → Access
checked_settings key canonical zone provider =
    if lacks_azure_settings provider zone.settings
    then invalid_request key.label canonical
    else granted key zone provider

abbrev pub permitted : ApiKey → Text → ZoneConfig → Option AllowedZone → Access
permitted key canonical zone none = access_denied key.label canonical
permitted key canonical zone (some link) =
    checked_settings key canonical zone (provider_of zone.settings)

abbrev pub in_zone : Tables → ApiKey → Text → Option ZoneConfig → Access
in_zone db key canonical none = access_denied key.label canonical
in_zone db key canonical (some zone) =
    permitted key canonical zone (find_allowed db.allowed key.id zone.id)

abbrev pub with_key : Tables → Text → Option ApiKey → Access
with_key db zone_name none =
    denied (event (str "dns.access_denied") warning (str "invalid") [])
      (http_exception 401 (str "Invalid API key"))
with_key db zone_name (some key) =
    if is_empty (strip zone_name)
    then invalid_request key.label []
    else in_zone db key (normalize_zone_name zone_name)
        (find_zone db.zones (normalize_zone_name zone_name))

-- `_resolve_dns_api_zone`, on the digest of the key
unfoldable pub resolve_dns_api_zone : Tables → Text → Text → Access
resolve_dns_api_zone db digest zone_name = with_key db zone_name (get_api_key db.keys digest)

-- `_require_dns_api_key_write_access`, after it
unfoldable pub require_write_access : Access → Access
require_write_access (denied e a) = denied e a
require_write_access (granted key zone provider) =
    if key.access_mode === read_write
    then granted key zone provider
    else access_denied key.label zone.zone_name
