-- ===== src/Roles/Tests.antt =====
-- Role selections and assignments at concrete roles.
use api_to_dns.Prelude.{
  ◌&&◌, ◌||◌, ◌≡◌, ◌↔◌, refl, true, false, none, List, [], ◌∷◌, keep, some_of, find_first,
  if◌then◌else◌, map,
}
use api_to_dns.Text.{Text, str, contains, text_runs}
use api_to_dns.Sets.{less, insert, sorted}
use api_to_dns.Roles.{
  mandatory_roles, User, all_roles, global_admin, api_keys_read, api_keys_update, account_update,
  dns_zones_update, parse_roles, serialize_roles, add_dependencies, effective_roles, find_user,
  get_user_roles, user_is_global_admin, normalize_selected_roles, validate_role_assignment,
  accessible_settings_areas, SettingsArea, sensitive_roles,
}
use api_to_dns.Roles.Stored.{parse_roles-serialize_roles}
use api_to_dns.Roles.Normal.{selected_role, contains-normalize_selected_roles}
use api_to_dns.Roles.Assignment.{AddsAddable, KeepsSensitive, validate_role_assignment-none_iff}

-- an unknown role, and one that needs another
abbrev selection : List Text
selection = str "root" ∷ api_keys_update ∷ []

parse_roles-serialize_roles_example :
    contains (parse_roles (serialize_roles selection)) api_keys_update ≡ (
      contains mandatory_roles api_keys_update
      || (contains all_roles api_keys_update
          && (contains selection global_admin || contains selection api_keys_update)))
parse_roles-serialize_roles_example = parse_roles-serialize_roles selection api_keys_update

contains-normalize_selected_roles_example :
    contains (normalize_selected_roles selection) api_keys_read ≡ (
      if contains selection global_admin
      then contains all_roles api_keys_read
      else selected_role selection api_keys_read)
contains-normalize_selected_roles_example =
    contains-normalize_selected_roles selection api_keys_read

abbrev users : List User
users =
    record {
      id = 1;
      username = str "ann";
      password_hash = str "h1";
      roles = str "account.update,dns_zones.read";
      disabled = false;
      session_version = 0;
    }
    ∷ []

ann_plain : user_is_global_admin users (str "ann") ≡ false
unfolding user_is_global_admin get_user_roles find_user find_first effective_roles parse_roles keep
    text_runs
ann_plain = refl

validate_role_assignment-none_iff_example :
    (validate_role_assignment users (str "ann") selection (account_update ∷ []) ≡ none) ↔ (
      AddsAddable (normalize_selected_roles selection) (account_update ∷ [])
      × KeepsSensitive (normalize_selected_roles selection) (account_update ∷ []))
validate_role_assignment-none_iff_example =
    validate_role_assignment-none_iff users (str "ann") selection (account_update ∷ []) ann_plain

abbrev harmless : List Text
harmless = account_update ∷ dns_zones_update ∷ []

harmless_passes : validate_role_assignment users (str "ann") harmless (account_update ∷ []) ≡ none
unfolding validate_role_assignment normalize_selected_roles add_dependencies user_is_global_admin
    get_user_roles find_user find_first effective_roles parse_roles sorted insert less keep
    text_runs
harmless_passes = refl

update_sensitive : contains sensitive_roles account_update ≡ true
unfolding text_runs
update_sensitive = refl

admin_areas :
    map (λ (a : SettingsArea). a.key) (accessible_settings_areas []) ≡ str "authentication" ∷ []
unfolding accessible_settings_areas some_of keep text_runs
admin_areas = refl
