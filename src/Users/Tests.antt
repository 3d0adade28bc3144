-- ===== src/Users/Tests.antt =====
-- Requests to the page of accounts at concrete accounts.
use api_to_dns.Prelude.{
  ◌+◌, ◌<◌, suc, arith, List, ℕ, ◌≡◌, refl, Bool, false, none, some, [], ◌∷◌, keep, find_first,
}
use api_to_dns.Text.{Text, str, ◌===◌, text_runs}
use api_to_dns.Sets.{less, insert, sorted}
use api_to_dns.Roles.{
  User, user_is_global_admin, get_user_roles, find_user, effective_roles, parse_roles,
  serialize_roles, stored_set, normalize_selected_roles, add_dependencies, validate_role_assignment,
  global_admin_guard, target_is_global_admin, roles_satisfy,
}
use api_to_dns.Users.{
  Db, Request, update_roles, disable, handle, load_current_user, get_user, set_row, stop_if,
  settings_user_update_roles, settings_user_disable, guarded,
}
use api_to_dns.Users.Rows.{IsKeyed}
use api_to_dns.Users.Harmless.{Harmless}
use api_to_dns.Users.Reach.{Reaches, start, after, Contained, Reaches-Contained}
use api_to_dns.Users.Escalation.{Answered, handle-Harmless, handle-Answered}

abbrev account : ℕ → Text → Text → User
account id username roles = record {
  id = id;
  username = username;
  password_hash = str "h";
  roles = roles;
  disabled = false;
  session_version = 3;
}

abbrev db : Db
db = record {
  users =
      account 1 (str "root") (str "global.admin")
      ∷ account 2 (str "ann") (str "account.update,dns_zones.read")
      ∷ account 3 (str "bob") (str "dns_zones.read")
      ∷ [];
  events = [];
}

abbrev verify : Text → Text → Bool
verify password hash = password === hash

ann_plain : user_is_global_admin db.users (str "ann") ≡ false
unfolding user_is_global_admin get_user_roles find_user find_first effective_roles parse_roles keep
    text_runs
ann_plain = refl

keyed : IsKeyed db.users
unfolding get_user find_first
keyed = (refl, (refl, (refl, tt)))

-- ann gives bob the role `dns_zones.update`
abbrev grant : Request
grant = update_roles 3 (str "dns_zones.update" ∷ [])

handle-Harmless_example :
    Harmless db.users (handle (λ p. p) verify (λ us. 4) grant (str "ann") 3 db).1.users
handle-Harmless_example =
    handle-Harmless (λ p. p) verify (λ us. 4) grant (str "ann") 3 db ann_plain keyed

handle-Answered_example :
    Answered
      (λ p. p)
      verify
      (λ us. 4)
      grant
      (str "ann")
      3
      db
      (handle (λ p. p) verify (λ us. 4) grant (str "ann") 3 db)
handle-Answered_example = handle-Answered (λ p. p) verify (λ us. 4) grant (str "ann") 3 db keyed

grant_accepted : (handle (λ p. p) verify (λ us. 4) grant (str "ann") 3 db).0 ≡ none
unfolding handle load_current_user settings_user_update_roles stop_if get_user set_row
    global_admin_guard target_is_global_admin roles_satisfy validate_role_assignment
    normalize_selected_roles serialize_roles stored_set add_dependencies user_is_global_admin
    get_user_roles find_user find_first effective_roles parse_roles sorted insert less keep
    text_runs
grant_accepted = refl

admin_guarded : (handle (λ p. p) verify (λ us. 4) (disable 1) (str "ann") 3 db).0 ≡ some guarded
unfolding handle load_current_user settings_user_disable stop_if get_user global_admin_guard
    target_is_global_admin roles_satisfy user_is_global_admin get_user_roles find_user find_first
    effective_roles parse_roles keep text_runs
admin_guarded = refl

-- a key beyond all that are there
abbrev total : List User → ℕ
total [] = 0
total (u ∷ us) = u.id + total us

abbrev free_id : List User → ℕ
free_id us = suc (total us)

beyond-total : (us : List User) (i : ℕ) → total us < i → get_user i us ≡ none
unfolding get_user find_first
beyond-total [] i h = refl
beyond-total (u ∷ us) i h = ground (arith, beyond-total us i)

free_id_lem : (us : List User) → get_user (free_id us) us ≡ none
free_id_lem us = beyond-total us (free_id us) (omega arith)

granted_once :
    Reaches (λ p. p) verify free_id db (handle (λ p. p) verify free_id grant (str "ann") 3 db).1
granted_once = after db start grant (str "ann") 3 ann_plain

Reaches-Contained_example :
    Contained (λ p. p) verify free_id db (handle (λ p. p) verify free_id grant (str "ann") 3 db).1
Reaches-Contained_example =
    Reaches-Contained (λ p. p) verify free_id db
      (handle (λ p. p) verify free_id grant (str "ann") 3 db).1 free_id_lem keyed granted_once
