-- ===== src/Users.antt =====
-- src/routes/settings_users.py, with the session check of src/auth.py and `require_role` of
-- src/rbac.py: the accounts of the admin users, and the handlers that change them. The handlers'
-- rendering is left out: an answer says whether the change was made, or which message is shown.
pub mod Rows
pub mod Keys
pub mod Powers
pub mod Harmless
pub mod Sound
pub mod Escalation
pub mod Reach
mod Tests
use api_to_dns.Prelude.{
  ℕ, suc, Bool, true, false, not, ◌&&◌, ◌||◌, Option, none, some, List, [], ◌∷◌, ◌++◌, keep, length,
  find_first, if◌then◌else◌, ◌==◌, leb,
}
use api_to_dns.Text.{Text, str, is_empty, ◌===◌, strip}
use api_to_dns.Roles.{
  User, AssignmentError, account_update, account_reset_password, parse_roles, serialize_roles,
  normalize_selected_roles, effective_roles, roles_satisfy, find_user, global_admin_guard,
  validate_role_assignment,
}

pub data Problem : Type 0 where
  invalid_session forbidden : Problem
  password_required confirmation_differs wrong_password : Problem
  username_required : Problem
  user_exists : Text → Problem
  assignment : AssignmentError → Problem
  user_not_found guarded own_account : Problem
  already_disabled already_enabled last_enabled last_account still_enabled is_disabled : Problem

-- The `user` table, and the calls of `emit_activity_event` so far: event type, actor and account.
pub record Db : Type 0 where
  pub users : List User
  pub events : List (Text × (Text × Text))

abbrev pub Answer : Type 0
Answer = Option Problem × Db

abbrev pub reject : Problem → Db → Answer
reject p db = (some p, db)

-- if test: return the page with the message
unfoldable pub stop_if : Bool → Problem → Db → Answer → Answer
stop_if true p db rest = reject p db
stop_if false p db rest = rest

-- `db.get(User, user_id)`
unfoldable pub get_user : ℕ → List User → Option User
get_user user_id users = find_first (λ u. u.id == user_id) users

abbrev pub put : Option User → List User → List User
put none us = us
put (some v) us = v ∷ us

-- The row with this key is changed (some) or deleted (none).
unfoldable pub set_row : ℕ → Option User → List User → List User
set_row user_id new [] = []
set_row user_id new (u ∷ us) =
    let rest = set_row user_id new us in if u.id == user_id then put new us else u ∷ rest

-- The commit, and the activity event.
abbrev pub commit : Text → Text → User → Option User → Db → Answer
commit event actor target new db = (
  none,
  record {
    users = set_row target.id new db.users;
    events = db.events ++ (event, (actor, target.username)) ∷ [];
  },
)

-- `bump_session_version`, before its commit
abbrev pub bump_session_version : User → User
bump_session_version u = record {
  id = u.id;
  username = u.username;
  password_hash = u.password_hash;
  roles = u.roles;
  disabled = u.disabled;
  session_version = suc u.session_version;
}

abbrev pub with_disabled : Bool → User → User
with_disabled b u = record {
  id = u.id;
  username = u.username;
  password_hash = u.password_hash;
  roles = u.roles;
  disabled = b;
  session_version = u.session_version;
}

abbrev pub with_roles : Text → User → User
with_roles roles u = record {
  id = u.id;
  username = u.username;
  password_hash = u.password_hash;
  roles = roles;
  disabled = u.disabled;
  session_version = u.session_version;
}

abbrev pub with_password : Text → User → User
with_password hash u = record {
  id = u.id;
  username = u.username;
  password_hash = hash;
  roles = u.roles;
  disabled = u.disabled;
  session_version = u.session_version;
}

-- the checks on the row, with the version of the cookie
abbrev pub session_of : ℕ → Option User → Option User
session_of cookie_version none = none
session_of cookie_version (some u) =
    if u.disabled || not (cookie_version == u.session_version) then none else some u

-- `load_current_user`, on the name and the version of a cookie whose signature has been verified
unfoldable pub load_current_user : List User → Text → ℕ → Option User
load_current_user users username cookie_version =
    session_of cookie_version (find_user users username)

-- The two dependencies in front of a handler: the session, and for `require_role` the role.
abbrev pub with_session : Option User → Option Text → Db → (User → Answer) → Answer
with_session none role db handler = reject invalid_session db
with_session (some u) none db handler = handler u
with_session (some u) (some role) db handler =
    if roles_satisfy (effective_roles (parse_roles u.roles)) role
    then handler u
    else reject forbidden db

-- The two first checks on the account that a request names.
abbrev pub with_target : Text → Option User → Db → (User → Answer) → Answer
with_target actor none db handler = reject user_not_found db
with_target actor (some target) db handler =
    if global_admin_guard db.users actor target then reject guarded db else handler target

abbrev pub enabled_users : List User → List User
enabled_users users = keep (λ u. not u.disabled) users

unfoldable pub settings_user_disable : Text → ℕ → Db → Answer
settings_user_disable actor user_id db = with_target actor (get_user user_id db.users) db (λ target.
    stop_if target.disabled already_disabled db (
      stop_if (leb (length (enabled_users db.users)) 1) last_enabled db (
        stop_if (target.username === actor) own_account db (
          commit (str "user.disabled") actor target
            (some (bump_session_version (with_disabled true target))) db))))

unfoldable pub settings_user_enable : Text → ℕ → Db → Answer
settings_user_enable actor user_id db = with_target actor (get_user user_id db.users) db (λ target.
    stop_if (not target.disabled) already_enabled db
      (commit (str "user.enabled") actor target (some (with_disabled false target)) db))

unfoldable pub settings_user_delete : Text → ℕ → Db → Answer
settings_user_delete actor user_id db = with_target actor (get_user user_id db.users) db (λ target.
    stop_if (leb (length db.users) 1) last_account db (
      stop_if (target.username === actor) own_account db (
        stop_if (not target.disabled) still_enabled db
          (commit (str "user.deleted") actor target none db))))

abbrev pub assigned : Option AssignmentError → Db → Answer → Answer
assigned (some e) db rest = reject (assignment e) db
assigned none db rest = rest

unfoldable pub settings_user_update_roles : Text → ℕ → List Text → Db → Answer
settings_user_update_roles actor user_id roles db =
    let selected = normalize_selected_roles roles in
    with_target actor (get_user user_id db.users) db (λ target.
      stop_if (target.username === actor) own_account db (
        assigned (validate_role_assignment db.users actor selected (parse_roles target.roles)) db (
          stop_if target.disabled is_disabled db (
            commit (str "user.roles_updated") actor target
              (some (bump_session_version (with_roles (serialize_roles selected) target))) db))))

-- The requests of the page.
pub data Request : Type 0 where
  change_own_password : Text → Text → Text → Request
  create : Text → Text → List Text → Request
  disable enable delete : ℕ → Request
  reset_password : ℕ → Text → Text → Request
  update_roles : ℕ → List Text → Request

abbrev pub required_role : Request → Option Text
required_role (change_own_password current new confirm) = none
required_role (reset_password user_id password confirm) = some account_reset_password
required_role _ = some account_update

-- passlib's `CryptContext`, and the key that the database gives to a new row.
module _ (hash : Text → Text) (verify : Text → Text → Bool) (next_id : List User → ℕ) where
  abbrev pub new_user : Text → Text → List Text → List User → User
  new_user username password roles users = record {
    id = next_id users;
    username = username;
    password_hash = hash password;
    roles = serialize_roles roles;
    disabled = false;
    session_version = 0;
  }

  abbrev pub added : Option User → Text → User → Db → Answer
  added (some other) actor new db = reject (user_exists new.username) db
  added none actor new db = (
    none,
    record {
      users = db.users ++ new ∷ [];
      events = db.events ++ (str "user.created", (actor, new.username)) ∷ [];
    },
  )

  unfoldable pub settings_user_create : Text → Text → Text → List Text → Db → Answer
  settings_user_create actor username password roles db =
      let normalized = strip username in
      let selected = normalize_selected_roles roles in
      stop_if (is_empty normalized) username_required db (
        stop_if (is_empty password) password_required db (
          assigned (validate_role_assignment db.users actor selected []) db (
            added (find_user db.users normalized) actor
              (new_user normalized password selected db.users) db)))

  unfoldable pub settings_user_reset_password : Text → ℕ → Text → Text → Db → Answer
  settings_user_reset_password actor user_id password confirm_password db =
      stop_if (is_empty password || is_empty confirm_password) password_required db (
        stop_if (not (password === confirm_password)) confirmation_differs db (
          with_target actor (get_user user_id db.users) db (λ target.
            stop_if target.disabled is_disabled db (
              commit (str "user.password_reset") actor target
                (some (bump_session_version (with_password (hash password) target))) db))))

  abbrev pub changed_by : Text → Text → Option User → Text → Db → Answer
  changed_by actor current none new_password db = reject wrong_password db
  changed_by actor current (some target) new_password db =
      stop_if (not (verify current target.password_hash)) wrong_password db (
        commit (str "user.password_changed") actor target
          (some (bump_session_version (with_password (hash new_password) target))) db)

  unfoldable pub settings_self_password_change : Text → Text → Text → Text → Db → Answer
  settings_self_password_change actor current new_password confirm_password db =
      stop_if (is_empty new_password) password_required db (
        stop_if (not (new_password === confirm_password)) confirmation_differs db
          (changed_by actor current (find_user db.users actor) new_password db))

  abbrev pub run : Request → Text → Db → Answer
  run (change_own_password current new confirm) actor db =
      settings_self_password_change actor current new confirm db
  run (create username password roles) actor db =
      settings_user_create actor username password roles db
  run (disable user_id) actor db = settings_user_disable actor user_id db
  run (enable user_id) actor db = settings_user_enable actor user_id db
  run (delete user_id) actor db = settings_user_delete actor user_id db
  run (reset_password user_id password confirm) actor db =
      settings_user_reset_password actor user_id password confirm db
  run (update_roles user_id roles) actor db = settings_user_update_roles actor user_id roles db

  -- A request that comes with a cookie.
  unfoldable pub handle : Request → Text → ℕ → Db → Answer
  handle request username cookie_version db =
      with_session (load_current_user db.users username cookie_version) (required_role request) db
        (λ u. run request u.username db)
