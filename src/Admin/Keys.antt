-- ===== src/Admin/Keys.antt =====
-- src/routes/api_keys.py: the handlers that change the API keys and their links, and what they share
-- with those of src/routes/zones.py. The prefix of a key and its date are only shown, and are left out.
use api_to_dns.Prelude.{
  ℕ, Bool, true, false, not, ◌&&◌, Option, none, some, List, [], ◌∷◌, ◌++◌, map, keep, find_first,
  some_of, if◌then◌else◌, ◌==◌,
}
use api_to_dns.Text.{Text, str, ◌===◌, contains, strip, lower}
use api_to_dns.Fault.{Fault}
use api_to_dns.Provider.{Settings}
use api_to_dns.Api.{
  ApiKey, ZoneConfig, AllowedZone, Tables, informational, warning, Event, event, read_write,
}

pub data Problem : Type 0 where
  unknown_access_mode no_zone_selected zone_name_required : Problem
  zone_exists : Text → Problem
  invalid_form : Fault → Problem

-- `failed` is an exception: a constraint of the database does not hold
pub data Page : Type 0 where
  saved redirected failed : Page
  shown : Problem → Page

pub record Db : Type 0 where
  pub tables : Tables
  pub events : List Event

abbrev pub Answer : Type 0
Answer = Page × Db

-- The commit, and the activity event.
abbrev pub commit : Tables → Event → Db → Answer
commit tables e db = (saved, record { tables = tables; events = db.events ++ e ∷ [] })

abbrev pub read_only : Text
read_only = str "read_only"

unfoldable pub api_key_access_mode : Option Text → Text → Option Text
api_key_access_mode none default =
    if contains (read_only ∷ read_write ∷ []) default then some default else none
api_key_access_mode (some mode) default =
    let selected = lower (strip mode) in
    if contains (read_only ∷ read_write ∷ []) selected then some selected else none

-- `db.get(ApiKey, key_id)`
abbrev pub find_key : ℕ → List ApiKey → Option ApiKey
find_key key_id keys = find_first (λ k. k.id == key_id) keys

-- `db.get(DnsZoneConfig, zone_id)`
abbrev pub zone_at : ℕ → List ZoneConfig → Option ZoneConfig
zone_at zone_id zones = find_first (λ z. z.id == zone_id) zones

abbrev pub has_zone : ℕ → List ZoneConfig → Bool
has_zone zone_id zones = some_of (λ z. z.id == zone_id) zones

abbrev pub is_linked : ℕ → ℕ → List AllowedZone → Bool
is_linked key_id zone_id allowed =
    some_of (λ l. l.api_key_id == key_id && l.dns_zone_config_id == zone_id) allowed

-- An assignment to the row with this key.
unfoldable pub set_key : ℕ → (ApiKey → ApiKey) → List ApiKey → List ApiKey
set_key key_id f keys = map (λ k. if k.id == key_id then f k else k) keys

abbrev pub deactivated : ApiKey → ApiKey
deactivated k = record k { active = false }

abbrev pub edited : Text → Text → ApiKey → ApiKey
edited label access_mode k = record k { label = label; access_mode = access_mode }

unfoldable pub set_settings : ℕ → Settings → List ZoneConfig → List ZoneConfig
set_settings zone_id settings zones =
    map (λ z. if z.id == zone_id then record z { settings = settings } else z) zones

abbrev pub link : ℕ → ℕ → AllowedZone
link key_id zone_id = record { api_key_id = key_id; dns_zone_config_id = zone_id }

-- The loop that links a key to the zones that exist, and its commit: none where the constraint
-- `uq_api_key_zone` does not hold.
unfoldable pub insert_links :
    ℕ → List ℕ → List ZoneConfig → List AllowedZone → Option (List AllowedZone)
insert_links key_id [] zones allowed = some allowed
insert_links key_id (zone_id ∷ zone_ids) zones allowed =
    let exists = has_zone zone_id zones in
    let rest =
      insert_links key_id zone_ids zones
        (if exists then allowed ++ link key_id zone_id ∷ [] else allowed) in
    if exists && is_linked key_id zone_id allowed then none else rest

-- the second commit of a change, after the first one
abbrev pub linked : Tables → Event → Db → Option (List AllowedZone) → Answer
linked first e db none = (failed, record db { tables = first })
linked first e db (some allowed) = commit (record first { allowed = allowed }) e db

abbrev pub deactivate : Text → ℕ → Db → Option ApiKey → Answer
deactivate user key_id db none = (saved, db)
deactivate user key_id db (some key) =
    commit (record db.tables { keys = set_key key_id deactivated db.tables.keys })
      (event (str "api_key.revoked") warning user []) db

unfoldable pub revoke_api_key : Text → ℕ → Db → Answer
revoke_api_key user key_id db = deactivate user key_id db (find_key key_id db.tables.keys)

-- a zone is to be selected
abbrev pub with_zones : List ℕ → Db → Answer → Answer
with_zones [] db rest = (shown no_zone_selected, db)
with_zones (z ∷ zs) db rest = rest

abbrev pub with_mode : Option Text → Db → (Text → Answer) → Answer
with_mode none db rest = (shown unknown_access_mode, db)
with_mode (some mode) db rest = rest mode

-- the label, the mode and the links of a key: the old links go with the first commit
abbrev pub unlinked : ℕ → List AllowedZone → List AllowedZone
unlinked key_id allowed = keep (λ l. not (l.api_key_id == key_id)) allowed

unfoldable pub save_key : Text → ℕ → Text → List ℕ → Text → Db → Answer
save_key user key_id label zone_ids access_mode db =
    let kept = unlinked key_id db.tables.allowed in
    linked
      (record db.tables {
        keys = set_key key_id (edited label access_mode) db.tables.keys;
        allowed = kept;
      })
      (event (str "api_key.updated") informational user []) db
      (insert_links key_id zone_ids db.tables.zones kept)

abbrev pub edit : Text → ℕ → Text → List ℕ → Option Text → Db → Option ApiKey → Answer
edit user key_id label zone_ids access_mode db none = (redirected, db)
edit user key_id label zone_ids access_mode db (some row) =
    with_mode (api_key_access_mode access_mode row.access_mode) db
      (λ mode. with_zones zone_ids db (save_key user key_id label zone_ids mode db))

unfoldable pub api_key_update : Text → ℕ → Text → List ℕ → Option Text → Db → Answer
api_key_update user key_id label zone_ids access_mode db =
    edit user key_id label zone_ids access_mode db (find_key key_id db.tables.keys)

abbrev pub new_key : ℕ → Text → Text → Text → ApiKey
new_key key_id label key_digest access_mode = record {
  id = key_id;
  label = label;
  key = key_digest;
  access_mode = access_mode;
  active = true;
}

-- on the key that the database gives to the row, and on the digest of the generated key
unfoldable pub add_key : Text → ℕ → Text → Text → List ℕ → Text → Db → Answer
add_key user new_id key_digest label zone_ids access_mode db =
    if some_of (λ k. k.key === key_digest) db.tables.keys
    then (failed, db)
    else linked
        (record db.tables {
          keys = db.tables.keys ++ new_key new_id label key_digest access_mode ∷ [];
        })
        (event (str "api_key.created") informational user []) db
        (insert_links new_id zone_ids db.tables.zones db.tables.allowed)

unfoldable pub create_api_key_route :
    Text → ℕ → Text → Text → List ℕ → Option ℕ → Option Text → Db → Answer
create_api_key_route user new_id key_digest label zone_ids (some key_id) access_mode db =
    edit user key_id label zone_ids access_mode db (find_key key_id db.tables.keys)
create_api_key_route user new_id key_digest label zone_ids none access_mode db =
    with_mode (api_key_access_mode access_mode read_only) db
      (λ mode. with_zones zone_ids db (add_key user new_id key_digest label zone_ids mode db))
