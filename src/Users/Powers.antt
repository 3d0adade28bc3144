-- ===== src/Users/Powers.antt =====
-- The sensitive roles of src/rbac.py that an account has after a selection has been stored.
use api_to_dns.Prelude.{
  ◌≡◌, refl, sym, ap, ◌∙◌, Bool, true, false, not, ◌&&◌, ◌||◌, none, List, [], arith, every,
  if◌then◌else◌,
}
use api_to_dns.Text.{Text, ◌===◌, contains, text_runs}
use api_to_dns.Text.Equal.{every-contains}
use api_to_dns.Sets.{contains-append, contains-keep}
use api_to_dns.Roles.{
  User, all_roles, mandatory_roles, sensitive_roles, global_admin, api_keys_read, known,
  parse_roles, stored_set, serialize_roles, effective_roles, normalize_selected_roles,
  user_is_global_admin, validate_role_assignment,
}
use api_to_dns.Roles.Stored.{parse_roles-serialize_roles}
use api_to_dns.Roles.Normal.{contains-normalize_selected_roles}
use api_to_dns.Roles.Assignment.{validate_role_assignment-sensitive}

abbrev pub IsSensitive : Text → Type 0
IsSensitive role = contains sensitive_roles role ≡ true

-- a role that the account has, by what is stored
abbrev pub has : User → Text → Bool
has u role = contains (effective_roles (parse_roles u.roles)) role

abbrev only_sensitive : Text → Bool
only_sensitive role =
    contains all_roles role && not (contains mandatory_roles role) && not (role === api_keys_read)

sensitive_only : every only_sensitive sensitive_roles ≡ true
unfolding every text_runs
sensitive_only = refl

pub admin-IsSensitive : IsSensitive global_admin
unfolding text_runs
admin-IsSensitive = refl

facts : (role : Text) → IsSensitive role → only_sensitive role ≡ true
facts role h = every-contains only_sensitive sensitive_roles role sensitive_only h

-- What the effective roles add is not sensitive, except to a global admin.
pub contains-effective_roles :
    (stored : List Text) (role : Text)
    → IsSensitive role
    → contains (effective_roles stored) role
      ≡ (contains stored global_admin || contains stored role)
unfolding effective_roles
contains-effective_roles stored role h =
    ground (arith, facts role h, contains-append stored mandatory_roles role)

-- A selection that is normalised, written, and read back.
pub contains-stored_selection :
    (selected : List Text) (role : Text)
    → IsSensitive role
    → contains (parse_roles (serialize_roles selected)) role
      ≡ contains (normalize_selected_roles selected) role
unfolding stored_set
contains-stored_selection selected role h =
    parse_roles-serialize_roles selected role
    ∙ ground (
      arith,
      facts role h,
      facts global_admin admin-IsSensitive,
      contains-append (if contains (known selected) global_admin then all_roles else known selected)
          mandatory_roles role,
      contains-keep (contains all_roles) selected role,
      contains-keep (contains all_roles) selected global_admin,
      contains-normalize_selected_roles selected role,
    )

-- An assignment that passes, written and read back, leaves the sensitive roles of a row that is not
-- a global admin as they were.
pub validated_selection :
    (users : List User) (actor : Text) (selected previous : List Text) (role : Text)
    → user_is_global_admin users actor ≡ false
    → validate_role_assignment users actor selected previous ≡ none
    → IsSensitive role
    → contains (effective_roles (parse_roles (serialize_roles selected))) role
      ≡ contains (effective_roles previous) role
validated_selection users actor selected previous role g e h =
    let keeps : (r : Text)
        → IsSensitive r
        → contains (parse_roles (serialize_roles selected)) r ≡ contains previous r =
      λ r k.
        contains-stored_selection selected r k
        ∙ validate_role_assignment-sensitive users actor selected previous r g e k in
    contains-effective_roles (parse_roles (serialize_roles selected)) role h
    ∙ ap (λ (b : Bool). b || contains (parse_roles (serialize_roles selected)) role)
        (keeps global_admin admin-IsSensitive)
    ∙ ap (λ (b : Bool). contains previous global_admin || b) (keeps role h)
    ∙ sym (contains-effective_roles previous role h)

-- An account with no roles stored has no sensitive role.
pub nothing_stored : (role : Text) → IsSensitive role → contains (effective_roles []) role ≡ false
unfolding contains
nothing_stored role h = contains-effective_roles [] role h
