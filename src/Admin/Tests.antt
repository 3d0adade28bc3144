-- ===== src/Admin/Tests.antt =====
-- The pages of API keys and zones on small tables.
use api_to_dns.Prelude.{
  ◌≡◌, refl, true, false, ℕ, none, some, List, [], ◌∷◌, ◌++◌, keep, find_first, some_of,
  if◌then◌else◌,
}
use api_to_dns.Text.{Text, str, ◌===◌, text_runs}
use api_to_dns.Fault.{Result, ok}
use api_to_dns.Provider.{Settings}
use api_to_dns.Provider.Store.{View, memory}
use api_to_dns.Mutation.{create}
use api_to_dns.Api.{
  get_disabled_dns_plugins, ApiKey, ZoneConfig, Request, World, write, read_write, find_allowed,
  apply_dns_mutation,
}
use api_to_dns.Admin
use api_to_dns.Admin.Forms.{
  Form, bind, no_settings, with_entry, enabled_dns_provider_options, build_zone_config_from_form,
  with_fields, field_value, selected_provider, blank_preserve_secret,
}
use api_to_dns.Admin.{
  Db, options, failed, link, has_zone, is_linked, find_key, unlinked, save_key, insert_links,
  set_key, api_key_access_mode, api_key_update, revoke_api_key, add_key, create_api_key_route,
  zone_create, zone_delete, handle, run, delete_zone, save, revoke,
}
use api_to_dns.Admin.Revoked.{status_of, apply_dns_mutation-revoke_api_key}
use api_to_dns.Admin.Backed.{IsLinked}
use api_to_dns.Admin.Links.{zone_create-run}
use api_to_dns.Admin.Configured.{IsConfigured, build_zone_config_from_form-IsConfigured}
use api_to_dns.Admin.Allowed.{IsUpdated, api_key_update-IsUpdated}

abbrev connect : Text → Settings → Result (Unit {0})
connect provider settings = ok tt

abbrev digest : Text → Text
digest key = str "#" ++ key

abbrev settings : Settings
settings name =
    if name === str "dns_provider_type"
    then some (str "bind")
    else if name === str "dns_password"
    then some (str "s3")
    else none

abbrev zone : ℕ → Text → ZoneConfig
zone id zone_name = record { id = id; zone_name = zone_name; settings = settings }

abbrev key : ApiKey
key = record {
  id = 7;
  label = str "deploy";
  key = str "#k1";
  access_mode = read_write;
  active = true;
}

abbrev db : Db
db = record {
  tables = record {
    keys = key ∷ [];
    zones = zone 1 (str "a.example") ∷ zone 2 (str "b.example") ∷ [];
    allowed = link 7 1 ∷ link 7 2 ∷ [];
    disabled = str "azure" ∷ [];
  };
  events = [];
}

db-IsLinked : IsLinked db.tables
unfolding some_of
db-IsLinked =
    (record { by_key = refl; by_zone = refl }, (record { by_key = refl; by_zone = refl }, tt))

abbrev form : Form
form name = if name === str "dns_zone" then some (str " b.example ") else none

abbrev post : Request
post = record {
  api_key = some (str "k1");
  zone_name = some (str "a.example");
  record_name = str "www";
  record_type = str "a";
  ttl = none;
  values = str "192.0.2.1" ∷ [];
  mode = write create;
  patch_ttl = none;
  patch_values = none;
}

abbrev no_records : View
no_records owner rt = none

abbrev world : World memory
world = record { events = []; provider = no_records }

abbrev rename : List (Text × Admin.Request)
rename = (str "ops", Admin.update 7 (str "new") (2 ∷ []) none) ∷ []

abbrev recreate : List (Text × Admin.Request)
recreate =
    (str "ops", save 8 (str "#k2") (str "next") (1 ∷ []) none (some (str "read_write")))
    ∷ (str "ops", Admin.update 7 (str "back") (1 ∷ []) (some (str "read_write")))
    ∷ []

renamed : find_key 7 (run rename db).tables.keys ≡ some (record key { label = str "new" })
unfolding run handle api_key_update save_key set_key api_key_access_mode insert_links find_first
    keep some_of text_runs
renamed = refl

apply_dns_mutation-revoke_api_key_example :
    let revoked = (revoke_api_key (str "ops") 7 (run rename db)).1 in
    let (answer, after) =
      apply_dns_mutation memory connect digest (run recreate revoked).tables post world in
    (status_of answer ≡ 401) × (after.provider ≡ no_records)
apply_dns_mutation-revoke_api_key_example =
    apply_dns_mutation-revoke_api_key memory connect digest rename recreate (str "ops") 7 db post
      world (tt, tt) renamed refl

abbrev cleared : List (Text × Admin.Request)
cleared = (str "ops", delete_zone 2) ∷ []

freed : has_zone 2 (run cleared db).tables.zones ≡ false
unfolding run handle zone_delete find_first keep some_of
freed = refl

zone_create-run_example :
    let after = (zone_create (str "ops") 2 (str "c.example") form (run cleared db)).1.tables in
    IsLinked after × ((key_id : ℕ) → find_allowed after.allowed key_id 2 ≡ none)
zone_create-run_example =
    zone_create-run cleared (str "ops") 2 (str "c.example") form db db-IsLinked freed

api_key_update-IsUpdated_example :
    let (page, after) = api_key_update (str "ops") 7 (str "deploy") (2 ∷ 3 ∷ []) none db in
    IsUpdated 7 (2 ∷ 3 ∷ []) db.tables after.tables page
api_key_update-IsUpdated_example =
    api_key_update-IsUpdated (str "ops") 7 (str "deploy") db (2 ∷ 3 ∷ []) none

-- a zone that is selected twice
twice_selected :
    let (page, after) = api_key_update (str "ops") 7 (str "deploy") (2 ∷ 2 ∷ []) none db in
    (page ≡ failed) × (after.tables.allowed ≡ [])
unfolding api_key_update save_key set_key api_key_access_mode insert_links find_first keep some_of
    text_runs
twice_selected = (refl, refl)

abbrev cfg : Settings
cfg =
    with_fields form settings bind.fields
      (with_entry (str "dns_provider_type") (str "bind") no_settings)

form_accepted : build_zone_config_from_form form settings (options db.tables) ≡ ok cfg
unfolding build_zone_config_from_form enabled_dns_provider_options selected_provider
    get_disabled_dns_plugins find_first keep text_runs
form_accepted = refl

build_zone_config_from_form-IsConfigured_example : IsConfigured form settings db.tables cfg
build_zone_config_from_form-IsConfigured_example =
    build_zone_config_from_form-IsConfigured form settings db.tables cfg form_accepted

-- The secret is kept where its field is blank.
blank_secret : cfg (str "dns_password") ≡ some (str "s3")
unfolding with_fields field_value blank_preserve_secret text_runs
blank_secret = refl
