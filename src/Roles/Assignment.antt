-- ===== src/Roles/Assignment.antt =====
-- `validate_role_assignment` of src/rbac.py for an account admin, who is not a global admin.
use api_to_dns.Prelude.{
  ◌≡◌, refl, Bool, true, false, not, ◌||◌, ◌↔◌, none, List, [], ◌∷◌, every, arith,
}
use api_to_dns.Text.{Text, contains, text_runs}
use api_to_dns.Text.Equal.{every-contains}
use api_to_dns.Sets.{sorted, keep-nil, keep-nil_of, sorted-nil}
use api_to_dns.Roles.{
  User, mandatory_roles, sensitive_roles, account_admin_grantable_roles, normalize_selected_roles,
  disallowed, removed_sensitive, assignment_error, user_is_global_admin, validate_role_assignment,
}

-- The roles that an account admin may add to an account.
abbrev pub addable : Text → Bool
addable role = contains account_admin_grantable_roles role || contains mandatory_roles role

abbrev pub AddsAddable : List Text → List Text → Type 0
AddsAddable selected previous =
    (role : Text)
    → contains selected role ≡ true
    → contains previous role ≡ false
    → addable role ≡ true

abbrev pub KeepsSensitive : List Text → List Text → Type 0
KeepsSensitive selected previous =
    (role : Text)
    → contains previous role ≡ true
    → contains sensitive_roles role ≡ true
    → contains selected role ≡ true

assignment_error-none :
    (granted removed : List Text)
    → (assignment_error granted removed ≡ none) ↔ ((granted ≡ []) × (removed ≡ []))
assignment_error-none [] [] = (λ e. (refl, refl), λ e. refl)
assignment_error-none [] (r ∷ rs) = (λ e. ground arith, λ e. ground arith)
assignment_error-none (r ∷ rs) removed = (λ e. ground arith, λ e. ground arith)

nil-sorted : (ts : List Text) → ts ≡ [] → sorted ts ≡ []
unfolding sorted
nil-sorted ts e = rw e refl

adds :
    (selected previous : List Text)
    → (sorted (disallowed selected previous) ≡ []) ↔ AddsAddable selected previous
adds selected previous = (
  λ e role s p. ground (arith, keep-nil _ selected role (sorted-nil _ e) s),
  λ h. nil-sorted _ (keep-nil_of _ selected (λ role s. ground (arith, h role s))),
)

keeps :
    (selected previous : List Text)
    → (sorted (removed_sensitive selected previous) ≡ []) ↔ KeepsSensitive selected previous
keeps selected previous = (
  λ e role p s. ground (arith, keep-nil _ previous role (sorted-nil _ e) p),
  λ h. nil-sorted _ (keep-nil_of _ previous (λ role p. ground (arith, h role p))),
)

-- For an actor who is not a global admin, an assignment passes exactly if every role that it adds
-- is grantable by account admins or mandatory, and it drops no sensitive role.
pub validate_role_assignment-none_iff :
    (users : List User) (actor : Text) (roles previous : List Text)
    → user_is_global_admin users actor ≡ false
    → (validate_role_assignment users actor roles previous ≡ none) ↔ (
        AddsAddable (normalize_selected_roles roles) previous
        × KeepsSensitive (normalize_selected_roles roles) previous)
unfolding validate_role_assignment
validate_role_assignment-none_iff users actor roles previous h = rw h (
  λ e.
      let both = (assignment_error-none _ _).0 e in
      ((adds _ previous).0 both.0, (keeps _ previous).0 both.1),
  λ k. (assignment_error-none _ _).1 ((adds _ previous).1 k.0, (keeps _ previous).1 k.1),
)

addable-not_sensitive : every (λ r. not (addable r)) sensitive_roles ≡ true
unfolding every text_runs
addable-not_sensitive = refl

-- For an actor who is not a global admin, an assignment that passes leaves each sensitive role as it was.
pub validate_role_assignment-sensitive :
    (users : List User) (actor : Text) (roles previous : List Text) (role : Text)
    → user_is_global_admin users actor ≡ false
    → validate_role_assignment users actor roles previous ≡ none
    → contains sensitive_roles role ≡ true
    → contains (normalize_selected_roles roles) role ≡ contains previous role
validate_role_assignment-sensitive users actor roles previous role g e s =
    let k = (validate_role_assignment-none_iff users actor roles previous g).0 e in
    ground (
      arith,
      k.0 role,
      k.1 role,
      every-contains (λ r. not (addable r)) sensitive_roles role addable-not_sensitive s,
    )
