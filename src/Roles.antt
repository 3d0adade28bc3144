-- ===== src/Roles.antt =====
-- src/rbac.py: the roles of the admin users, and who may grant them.
pub mod Stored
pub mod Normal
pub mod Assignment
mod Tests
use api_to_dns.Prelude.{
  ℕ, Bool, true, false, not, ◌&&◌, ◌||◌, Option, none, some, List, [], ◌∷◌, ◌++◌, map, keep,
  some_of, find_first, if◌then◌else◌,
}
use api_to_dns.Text.{Text, str, is_empty, ◌===◌, contains, strip, split, join}
use api_to_dns.Sets.{sorted}

abbrev pub global_admin : Text
global_admin = str "global.admin"

abbrev pub global_read : Text
global_read = str "global.read"

abbrev pub account_update : Text
account_update = str "account.update"

abbrev pub account_reset_password : Text
account_reset_password = str "account.reset_password"

abbrev pub api_keys_read : Text
api_keys_read = str "api_keys.read"

abbrev pub api_keys_update : Text
api_keys_update = str "api_keys.update"

abbrev pub dns_zones_read : Text
dns_zones_read = str "dns_zones.read"

abbrev pub dns_zones_update : Text
dns_zones_update = str "dns_zones.update"

abbrev pub plugin_update : Text
plugin_update = str "plugin.update"

abbrev pub system_update : Text
system_update = str "system.update"

abbrev pub mandatory_roles : List Text
mandatory_roles = dns_zones_read ∷ []

abbrev pub all_roles : List Text
all_roles =
    global_admin ∷ global_read ∷ account_update ∷ account_reset_password ∷ api_keys_read
    ∷ api_keys_update ∷ dns_zones_read ∷ dns_zones_update ∷ plugin_update ∷ system_update ∷ []

abbrev pub account_admin_grantable_roles : List Text
account_admin_grantable_roles = global_read ∷ api_keys_read ∷ dns_zones_read ∷ dns_zones_update ∷ []

abbrev pub sensitive_roles : List Text
sensitive_roles =
    global_admin ∷ account_update ∷ account_reset_password ∷ api_keys_update ∷ plugin_update
    ∷ system_update ∷ []

abbrev pub role_dependencies : List (Text × Text)
role_dependencies = (api_keys_update, api_keys_read) ∷ (dns_zones_update, dns_zones_read) ∷ []

-- The set is a list that is read by membership; None and "" give the empty set.
unfoldable pub parse_roles : Text → List Text
parse_roles raw =
    if is_empty raw then [] else keep (λ p. not (is_empty p)) (map strip (split b',' raw))

abbrev pub known : List Text → List Text
known roles = keep (contains all_roles) roles

-- the set that `serialize_roles` writes
unfoldable pub stored_set : List Text → List Text
stored_set roles =
    (if contains (known roles) global_admin then all_roles else known roles) ++ mandatory_roles

unfoldable pub serialize_roles : List Text → Text
serialize_roles roles = join (str ",") (sorted (stored_set roles))

-- the loop over `ROLE_DEPENDENCIES`
unfoldable pub add_dependencies : List (Text × Text) → List Text → List Text
add_dependencies [] selected = selected
add_dependencies ((role, required) ∷ rest) selected =
    add_dependencies rest (if contains selected role then required ∷ selected else selected)

unfoldable pub normalize_selected_roles : List Text → List Text
normalize_selected_roles roles =
    if contains (known roles) global_admin
    then sorted all_roles
    else sorted (add_dependencies role_dependencies (known roles ++ mandatory_roles))

unfoldable pub effective_roles : List Text → List Text
effective_roles stored =
    if contains stored global_admin then all_roles else stored ++ mandatory_roles

unfoldable pub roles_satisfy : List Text → Text → Bool
roles_satisfy roles role =
    contains roles global_admin
    || contains roles role
    || (contains roles global_read && contains (api_keys_read ∷ dns_zones_read ∷ []) role)

pub record User : Type 0 where
  pub id : ℕ
  pub username : Text
  pub password_hash : Text
  pub roles : Text
  pub disabled : Bool
  pub session_version : ℕ

abbrev pub roles_of : Option User → List Text
roles_of none = []
roles_of (some u) = effective_roles (parse_roles u.roles)

-- `select(User).where(User.username == username)`
unfoldable pub find_user : List User → Text → Option User
find_user users username = find_first (λ u. u.username === username) users

unfoldable pub get_user_roles : List User → Text → List Text
get_user_roles users username = roles_of (find_user users username)

unfoldable pub user_has_role : List User → Text → Text → Bool
user_has_role users username role = roles_satisfy (get_user_roles users username) role

unfoldable pub user_has_any_role : List User → Text → List Text → Bool
user_has_any_role users username roles = some_of (user_has_role users username) roles

unfoldable pub user_is_global_admin : List User → Text → Bool
user_is_global_admin users username = contains (get_user_roles users username) global_admin

unfoldable pub target_is_global_admin : User → Bool
target_is_global_admin target = contains (effective_roles (parse_roles target.roles)) global_admin

-- true where a message is returned
unfoldable pub global_admin_guard : List User → Text → User → Bool
global_admin_guard users actor target =
    target_is_global_admin target && not (user_is_global_admin users actor)

unfoldable pub role_is_grantable_by : Bool → Text → Bool
role_is_grantable_by actor_is_global_admin role =
    contains all_roles role
    && (actor_is_global_admin || contains account_admin_grantable_roles role)

-- The two messages of `validate_role_assignment`, with the roles that they name.
pub data AssignmentError : Type 0 where
  cannot_grant cannot_remove : List Text → AssignmentError

-- newly selected roles that the actor may not grant
abbrev pub disallowed : List Text → List Text → List Text
disallowed selected previous =
    keep
      (λ role.
        not (contains previous role)
        && (not (contains account_admin_grantable_roles role)
            && not (contains mandatory_roles role)))
      selected

abbrev pub removed_sensitive : List Text → List Text → List Text
removed_sensitive selected previous =
    keep (λ role. not (contains selected role) && contains sensitive_roles role) previous

abbrev pub removal_error : List Text → Option AssignmentError
removal_error [] = none
removal_error (role ∷ roles) = some (cannot_remove (role ∷ roles))

abbrev pub assignment_error : List Text → List Text → Option AssignmentError
assignment_error [] removed = removal_error removed
assignment_error (role ∷ roles) removed = some (cannot_grant (role ∷ roles))

unfoldable pub validate_role_assignment :
    List User → Text → List Text → List Text → Option AssignmentError
validate_role_assignment users actor selected_roles previous =
    let selected = normalize_selected_roles selected_roles in
    if user_is_global_admin users actor
    then none
    else assignment_error (sorted (disallowed selected previous))
        (sorted (removed_sensitive selected previous))

-- The areas of the settings page, with the roles of which one opens them.
pub record SettingsArea : Type 0 where
  pub key : Text
  pub required_roles : List Text

abbrev pub settings_areas : List SettingsArea
settings_areas =
    record {
      key = str "authentication";
      required_roles = global_read ∷ account_update ∷ account_reset_password ∷ [];
    }
    ∷ record { key = str "plugins"; required_roles = global_read ∷ plugin_update ∷ [] }
    ∷ record { key = str "email_alerting"; required_roles = global_read ∷ system_update ∷ [] }
    ∷ record { key = str "log_viewing"; required_roles = global_read ∷ system_update ∷ [] }
    ∷ record { key = str "backup"; required_roles = global_admin ∷ [] }
    ∷ record { key = str "system_settings"; required_roles = global_read ∷ system_update ∷ [] }
    ∷ []

unfoldable pub accessible_settings_areas : List Text → List SettingsArea
accessible_settings_areas user_roles =
    keep
      (λ area.
        area.key === str "authentication" || some_of (contains user_roles) area.required_roles)
      settings_areas
