-- ===== src/Admin.antt =====
-- src/routes/api_keys.py and src/routes/zones.py: the administration of API keys and zones. The roles
-- that the routes demand are checked in front, and pages are left out: an answer says whether the
-- change was made, or which message is shown. Zone deletion also detaches the zone from the settings of
-- Let's Encrypt, which are not in these tables.
pub mod Forms
pub mod Rows
pub mod Kept
pub mod Revoked
pub mod Backed
pub mod Links
pub mod Allowed
pub mod Configured
mod Keys
mod Tests
unfoldable pub use Keys.*
use api_to_dns.Prelude.{
  ℕ, Bool, true, false, not, ◌&&◌, Option, none, some, List, [], ◌∷◌, ◌++◌, map, keep, find_first,
  some_of, if◌then◌else◌, ◌==◌,
}
use api_to_dns.Text.{Text, str, is_empty, ◌===◌, contains, strip, lower}
use api_to_dns.Fault.{Fault, Result, ok, err}
use api_to_dns.Provider.{Settings, normalize_zone_name}
use api_to_dns.Api.{
  ApiKey, ZoneConfig, AllowedZone, Tables, Level, informational, warning, Event, event, read_write,
  get_disabled_dns_plugins,
}
use api_to_dns.Admin.Forms.{
  Form, Plugin, enabled_dns_provider_options, no_settings, build_zone_config_from_form,
}

abbrev pub options : Tables → List Plugin
options tables = enabled_dns_provider_options (get_disabled_dns_plugins tables)

abbrev pub new_zone : ℕ → Text → Settings → ZoneConfig
new_zone zone_id zone_name settings = record {
  id = zone_id;
  zone_name = zone_name;
  settings = settings;
}

abbrev pub add_zone : Text → ℕ → Text → Db → Result Settings → Answer
add_zone user new_id canonical db (err e) = (shown (invalid_form e), db)
add_zone user new_id canonical db (ok cfg) =
    commit (record db.tables { zones = db.tables.zones ++ new_zone new_id canonical cfg ∷ [] })
      (event (str "dns_zone.created") informational user canonical) db

-- on the key that the database gives to the row
unfoldable pub zone_create : Text → ℕ → Text → Form → Db → Answer
zone_create user new_id zone_name form db =
    let canonical = normalize_zone_name zone_name in
    if is_empty canonical
    then (shown zone_name_required, db)
    else if some_of (λ z. z.zone_name === canonical) db.tables.zones
    then (shown (zone_exists canonical), db)
    else add_zone user new_id canonical db
        (build_zone_config_from_form form no_settings (options db.tables))

abbrev pub save_zone : Text → ZoneConfig → Db → Result Settings → Answer
save_zone user row db (err e) = (shown (invalid_form e), db)
save_zone user row db (ok cfg) =
    commit (record db.tables { zones = set_settings row.id cfg db.tables.zones })
      (event (str "dns_zone.updated") informational user row.zone_name) db

abbrev pub update_zone : Text → Form → Db → Option ZoneConfig → Answer
update_zone user form db none = (redirected, db)
update_zone user form db (some row) =
    save_zone user row db (build_zone_config_from_form form row.settings (options db.tables))

unfoldable pub zone_update : Text → ℕ → Form → Db → Answer
zone_update user zone_id form db = update_zone user form db (zone_at zone_id db.tables.zones)

abbrev pub remove_zone : Text → ℕ → Db → Option ZoneConfig → Answer
remove_zone user zone_id db none = (saved, db)
remove_zone user zone_id db (some row) =
    let deleted = event (str "dns_zone.deleted") warning user row.zone_name in
    (
      saved,
      record {
        tables = record db.tables {
          zones = keep (λ z. not (z.id == zone_id)) db.tables.zones;
          allowed = keep (λ l. not (l.dns_zone_config_id == zone_id)) db.tables.allowed;
        };
        events = if is_empty row.zone_name then db.events else db.events ++ deleted ∷ [];
      },
    )

unfoldable pub zone_delete : Text → ℕ → Db → Answer
zone_delete user zone_id db = remove_zone user zone_id db (zone_at zone_id db.tables.zones)

-- The requests of the two pages that change the tables, with what the database and the generator of
-- keys choose.
pub data Request : Type 0 where
  revoke : ℕ → Request
  save : ℕ → Text → Text → List ℕ → Option ℕ → Option Text → Request
  update : ℕ → Text → List ℕ → Option Text → Request
  create_zone : ℕ → Text → Form → Request
  update_zone_form : ℕ → Form → Request
  delete_zone : ℕ → Request

unfoldable pub handle : Text → Request → Db → Answer
handle user (revoke key_id) db = revoke_api_key user key_id db
handle user (save new_id key_digest label zone_ids key_id access_mode) db =
    create_api_key_route user new_id key_digest label zone_ids key_id access_mode db
handle user (update key_id label zone_ids access_mode) db =
    api_key_update user key_id label zone_ids access_mode db
handle user (create_zone new_id zone_name form) db = zone_create user new_id zone_name form db
handle user (update_zone_form zone_id form) db = zone_update user zone_id form db
handle user (delete_zone zone_id) db = zone_delete user zone_id db

-- Requests of users, one after the other.
unfoldable pub run : List (Text × Request) → Db → Db
run [] db = db
run ((user, r) ∷ rs) db = run rs (handle user r db).1
