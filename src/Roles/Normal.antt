-- ===== src/Roles/Normal.antt =====
-- `normalize_selected_roles` of src/rbac.py: which roles a normalised selection holds.
use api_to_dns.Prelude.{
  ◌≡◌, refl, ◌∙◌, Bool, true, false, ◌&&◌, ◌||◌, List, ◌∷◌, ◌++◌, arith, if◌then◌else◌,
}
use api_to_dns.Text.{Text, ◌===◌, contains, text_runs}
use api_to_dns.Text.Equal.{===_iff}
use api_to_dns.Sets.{contains-sorted, contains-append, contains-keep}
use api_to_dns.Roles.{
  all_roles, mandatory_roles, global_admin, api_keys_read, api_keys_update, dns_zones_read,
  dns_zones_update, role_dependencies, known, add_dependencies, normalize_selected_roles,
}

-- What a selection without `global.admin` comes to: its known roles, the mandatory role, and
-- `api_keys.read` with `api_keys.update`.
abbrev pub selected_role : List Text → Text → Bool
selected_role roles role =
    (contains all_roles role && contains roles role)
    || contains mandatory_roles role
    || (contains roles api_keys_update && (role === api_keys_read))

all_admin : contains all_roles global_admin ≡ true
unfolding text_runs
all_admin = refl

all_update : contains all_roles api_keys_update ≡ true
unfolding text_runs
all_update = refl

update_not_mandatory : contains mandatory_roles api_keys_update ≡ false
unfolding text_runs
update_not_mandatory = refl

contains-known :
    (roles : List Text) (role : Text)
    → contains (known roles) role ≡ (contains all_roles role && contains roles role)
contains-known roles role = ground (arith, contains-keep (contains all_roles) roles role)

contains-added :
    (base : List Text) (b : Bool) (required role : Text)
    → contains (if b then required ∷ base else base) role
      ≡ ((b && (role === required)) || contains base role)
unfolding contains
contains-added base true required role = refl
contains-added base false required role = refl

-- the set after the first turn of the loop
abbrev with_api_keys : List Text → List Text
with_api_keys base = if contains base api_keys_update then api_keys_read ∷ base else base

-- `dns_zones.read` is there already, so that its dependency adds nothing.
contains-dependencies :
    (base : List Text) (role : Text)
    → contains base dns_zones_read ≡ true
    → contains (add_dependencies role_dependencies base) role
      ≡ (contains base role || (contains base api_keys_update && (role === api_keys_read)))
unfolding add_dependencies
contains-dependencies base role m =
    contains-added (with_api_keys base) (contains (with_api_keys base) dns_zones_update)
      dns_zones_read role
    ∙ ground (
      arith,
      contains-added base (contains base api_keys_update) api_keys_read role,
      ===_iff role dns_zones_read,
    )

mandatory_zones : contains mandatory_roles dns_zones_read ≡ true
unfolding text_runs
mandatory_zones = refl

base_zones : (roles : List Text) → contains (known roles ++ mandatory_roles) dns_zones_read ≡ true
base_zones roles =
    ground (arith, contains-append (known roles) mandatory_roles dns_zones_read, mandatory_zones)

-- A normalised selection holds all roles when `global.admin` is selected; otherwise it holds the
-- known selected roles, `dns_zones.read`, and `api_keys.read` if `api_keys.update` is selected.
pub contains-normalize_selected_roles :
    (roles : List Text) (role : Text)
    → contains (normalize_selected_roles roles) role
      ≡ (if contains roles global_admin then contains all_roles role else selected_role roles role)
unfolding normalize_selected_roles
contains-normalize_selected_roles roles role = ground (
  arith,
  contains-sorted all_roles role,
  contains-sorted (add_dependencies role_dependencies (known roles ++ mandatory_roles)) role,
  contains-dependencies (known roles ++ mandatory_roles) role (base_zones roles),
  contains-append (known roles) mandatory_roles role,
  contains-append (known roles) mandatory_roles api_keys_update,
  contains-known roles role,
  contains-known roles api_keys_update,
  contains-known roles global_admin,
  all_admin,
  all_update,
  update_not_mandatory,
)
