-- ===== src/Roles/Stored.antt =====
-- The `roles` column of src/models.py: `serialize_roles` of src/rbac.py against `parse_roles`.
use api_to_dns.Prelude.{
  ◌||◌, ℕ, ◌≡◌, refl, sym, ap, ◌∙◌, Bool, true, false, not, ◌&&◌, List, [], ◌∷◌, map, keep, every,
  All, arith, if◌then◌else◌,
}
use api_to_dns.Text.{Text, str, is_empty, ◌===◌, contains, strip, join, text_runs, has_char}
use api_to_dns.Text.Equal.{===_iff, every-contains, ===_refl}
use api_to_dns.Text.Split.{Unsplit, split-join}
use api_to_dns.Sets.{sorted, contains-sorted, contains-append, contains-keep}
use api_to_dns.Roles.{
  all_roles, mandatory_roles, global_admin, known, parse_roles, stored_set, serialize_roles,
}

-- A known role holds no comma and no white space at its ends, and is not empty.
abbrev is_plain : Text → Bool
is_plain role = (strip role === role) && (not (is_empty role) && not (has_char b',' role))

all_plain : every is_plain all_roles ≡ true
unfolding every text_runs
all_plain = refl

abbrev IsKnown : List Text → Type 0
IsKnown roles = All (λ role. contains all_roles role ≡ true) roles

IsKnown-of :
    (roles : List Text)
    → ((role : Text) → contains roles role ≡ true → contains all_roles role ≡ true)
    → IsKnown roles
unfolding contains
IsKnown-of [] h = tt
IsKnown-of (role ∷ roles) h =
    (h role (ground (arith, ===_refl role)), IsKnown-of roles (λ r k. h r (ground arith)))

has_char-Unsplit : (c : ℕ) (s : Text) → has_char c s ≡ false → Unsplit c s
unfolding has_char
has_char-Unsplit c [] h = tt
has_char-Unsplit c (d ∷ s) h = (ground arith, has_char-Unsplit c s (ground arith))

plain : (role : Text) → contains all_roles role ≡ true → is_plain role ≡ true
plain role h = every-contains is_plain all_roles role all_plain h

IsKnown-Unsplit : (roles : List Text) → IsKnown roles → All (Unsplit b',') roles
IsKnown-Unsplit [] h = tt
IsKnown-Unsplit (role ∷ roles) h =
    (has_char-Unsplit b',' role (ground (arith, plain role h.0)), IsKnown-Unsplit roles h.1)

-- Cleaning the parts changes nothing.
IsKnown-parts :
    (roles : List Text) → IsKnown roles → keep (λ p. not (is_empty p)) (map strip roles) ≡ roles
unfolding keep
IsKnown-parts [] h = refl
IsKnown-parts (role ∷ roles) h =
    ground (arith, plain role h.0, ===_iff (strip role) role, IsKnown-parts roles h.1)

join-filled :
    (role : Text) (roles : List Text)
    → is_empty role ≡ false
    → is_empty (join (str ",") (role ∷ roles)) ≡ false
unfolding join
join-filled [] roles h = cc
join-filled (c ∷ role) [] h = refl
join-filled (c ∷ role) (r ∷ roles) h = refl

parse-join : (roles : List Text) → IsKnown roles → parse_roles (join (str ",") roles) ≡ roles
unfolding parse_roles join
parse-join [] h = refl
parse-join (role ∷ roles) h = rw (join-filled role roles (ground (arith, plain role h.0))) (
    rw (split-join b',' role roles (IsKnown-Unsplit (role ∷ roles) h))
      (IsKnown-parts (role ∷ roles) h))

mandatory_known : every (contains all_roles) mandatory_roles ≡ true
unfolding every text_runs
mandatory_known = refl

stored_set-known :
    (roles : List Text) (role : Text)
    → contains (stored_set roles) role ≡ true
    → contains all_roles role ≡ true
unfolding stored_set
stored_set-known roles role h = ground (
  arith,
  contains-append (if contains (known roles) global_admin then all_roles else known roles)
      mandatory_roles role,
  contains-keep (contains all_roles) roles role,
  every-contains (contains all_roles) mandatory_roles role mandatory_known,
)

admin_known : contains all_roles global_admin ≡ true
unfolding text_runs
admin_known = refl

contains-stored_set :
    (roles : List Text) (role : Text)
    → contains (stored_set roles) role ≡ (
        contains mandatory_roles role
        || (contains all_roles role && (contains roles global_admin || contains roles role)))
unfolding stored_set
contains-stored_set roles role = ground (
  arith,
  contains-append (if contains (known roles) global_admin then all_roles else known roles)
      mandatory_roles role,
  contains-keep (contains all_roles) roles role,
  contains-keep (contains all_roles) roles global_admin,
  admin_known,
)

-- Writing a selection and reading it back gives the mandatory role, and the known roles that were
-- selected, or all of them if global.admin was.
pub parse_roles-serialize_roles :
    (roles : List Text) (role : Text)
    → contains (parse_roles (serialize_roles roles)) role ≡ (
        contains mandatory_roles role
        || (contains all_roles role && (contains roles global_admin || contains roles role)))
unfolding serialize_roles
parse_roles-serialize_roles roles role =
    ap (λ (rs : List Text). contains rs role)
      (parse-join (sorted (stored_set roles)) (
        IsKnown-of (sorted (stored_set roles))
          (λ r h. stored_set-known roles r (sym (contains-sorted (stored_set roles) r) ∙ h))))
    ∙ (contains-sorted (stored_set roles) role ∙ contains-stored_set roles role)
