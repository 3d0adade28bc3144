-- ===== src/Users/Escalation.antt =====
-- A request to src/routes/settings_users.py with its session cookie.
use api_to_dns.Prelude.{
  ℕ, suc, ◌≤◌, ◌≡◌, refl, sym, ap, ◌∙◌, inl, inr, Bool, true, false, not, ◌||◌, Option, none, some,
  List, arith, Bool-cases, Option-cases, length, ◌==◌, ==_iff,
}
use api_to_dns.Text.{Text}
use api_to_dns.Roles.{
  User, parse_roles, effective_roles, roles_satisfy, find_user, user_is_global_admin,
}
use api_to_dns.Users.{
  Db, Answer, Problem, invalid_session, forbidden, get_user, reject, session_of, load_current_user,
  with_session, Request, required_role, run, handle,
}
use api_to_dns.Users.Rows.{IsKeyed, find_user-username}
use api_to_dns.Users.Harmless.{Harmless, Harmless_refl, run-Safe}
use api_to_dns.Users.Sound.{run-Sound, enabled_count}

-- The account has the role that the request wants.
abbrev pub Permits : Option Text → User → Type 0
Permits none u = Unit
Permits (some role) u = roles_satisfy (effective_roles (parse_roles u.roles)) role ≡ true

-- An account that is enabled, with the version of the cookie, and with the role.
pub record Session (users : List User) (username : Text) (version : ℕ) (request : Request)
    : Type 0 where
  pub user : User
  pub row : find_user users username ≡ some user
  pub enabled : user.disabled ≡ false
  pub current : user.session_version ≡ version
  pub permits : Permits (required_role request) user

some-inj : {x y : User} → some x ≡ some y → x ≡ y
some-inj h = cc

session_of-some :
    (version : ℕ) (o : Option User) (u : User)
    → session_of version o ≡ some u
    → (o ≡ some u) × (u.disabled ≡ false) × (u.session_version ≡ version)
session_of-some version none u h = cc
session_of-some version (some v) u h =
    elim (Bool-cases (v.disabled || not (version == v.session_version))) [
      | inl e ↦ let clash : none ≡ some u = rw e at h in cc
      | inr e ↦
          let same : v ≡ u = some-inj (rw e at h) in
          (
            ap some same,
            ap (λ (w : User). w.disabled) (sym same) ∙ ground (arith, e),
            ap (λ (w : User). w.session_version) (sym same)
                ∙ ground (arith, e, ==_iff version v.session_version),
          )
    ]

loaded :
    (users : List User) (username : Text) (version : ℕ) (u : User)
    → load_current_user users username version ≡ some u
    → (find_user users username ≡ some u) × (u.disabled ≡ false) × (u.session_version ≡ version)
unfolding load_current_user
loaded users username version u h = session_of-some version (find_user users username) u h

module _ (hash : Text → Text) (verify : Text → Text → Bool) (next_id : List User → ℕ) where
  -- The two ways that a request can go: it is turned away, or its handler runs for the account.
  data Handled (request : Request) (username : Text) (version : ℕ) (db : Db) (a : Answer)
      : Type 0 where
    turned_away : (p : Problem) → a ≡ reject p db → Handled request username version db a
    ran :
        Session db.users username version request
        → a ≡ run hash verify next_id request username db
        → Handled request username version db a

  permitted :
      (request : Request) (username : Text) (version : ℕ) (db : Db) (u : User) (role : Option Text)
      → required_role request ≡ role
      → load_current_user db.users username version ≡ some u
      → Handled request username version db
          (with_session (some u) role db (λ v. run hash verify next_id request v.username db))
  permitted request username version db u none r h =
      let (row, enabled, current) = loaded db.users username version u h in
      ran (record { user = u; row = row; enabled = enabled; current = current; permits = rw r tt })
        (ap (λ (name : Text). run hash verify next_id request name db)
          (find_user-username db.users username row))
  permitted request username version db u (some role) r h =
      let (row, enabled, current) = loaded db.users username version u h in
      elim (Bool-cases (roles_satisfy (effective_roles (parse_roles u.roles)) role)) [
        | inl e ↦ rw e (
            ran
              (record {
                user = u;
                row = row;
                enabled = enabled;
                current = current;
                permits = rw r e;
              })
              (ap (λ (name : Text). run hash verify next_id request name db)
                (find_user-username db.users username row)))
        | inr e ↦ rw e (turned_away forbidden refl)
      ]

  handle-Handled :
      (request : Request) (username : Text) (version : ℕ) (db : Db)
      → Handled request username version db (handle hash verify next_id request username version db)
  unfolding handle
  handle-Handled request username version db =
      elim (Option-cases (load_current_user db.users username version)) [
        | inl e ↦ rw e (turned_away invalid_session refl)
        | inr (u, e) ↦ rw e (permitted request username version db u (required_role request) refl e)
      ]

  harmless-Handled :
      (request : Request) (username : Text) (version : ℕ) (db : Db) (a : Answer)
      → user_is_global_admin db.users username ≡ false
      → IsKeyed db.users
      → Handled request username version db a
      → Harmless db.users a.1.users
  harmless-Handled request username version db a plain k (turned_away p e) =
      rw e (Harmless_refl db.users)
  harmless-Handled request username version db a plain k (ran s e) =
      let safe = run-Safe username db plain hash verify next_id request k in rw e safe.harmless

  -- Whatever a request does for an actor who is not a global admin: each account afterwards is one
  -- from before with the same sensitive roles, or it has no sensitive role; and the accounts of
  -- global admins are unchanged. The primary key is unique.
  pub handle-Harmless :
      (request : Request) (username : Text) (version : ℕ) (db : Db)
      → user_is_global_admin db.users username ≡ false
      → IsKeyed db.users
      → Harmless db.users (handle hash verify next_id request username version db).1.users
  handle-Harmless request username version db plain k =
      harmless-Handled request username version db _ plain k
        (handle-Handled request username version db)

  -- What an answer says of a request.
  pub record Answered (request : Request) (username : Text) (version : ℕ) (db : Db) (a : Answer)
      : Type 0 where
    pub rejected : (p : Problem) → a.0 ≡ some p → a.1 ≡ db
    pub accepted : a.0 ≡ none → Session db.users username version request
    pub logged : a.0 ≡ none → length a.1.events ≡ suc (length db.events)
    pub enabled : 1 ≤ enabled_count db.users → 1 ≤ enabled_count a.1.users
    pub keyed : get_user (next_id db.users) db.users ≡ none → IsKeyed a.1.users

  Answered-Handled :
      (request : Request) (username : Text) (version : ℕ) (db : Db) (a : Answer)
      → IsKeyed db.users
      → Handled request username version db a
      → Answered request username version db a
  Answered-Handled request username version db a k (turned_away p e) = rw e (record {
    rejected = λ q h. refl;
    accepted = λ h. cc;
    logged = λ h. cc;
    enabled = λ h. h;
    keyed = λ f. k;
  })
  Answered-Handled request username version db a k (ran s e) =
      let sound = run-Sound username db (next_id db.users) hash verify next_id refl request k in
      rw e (record {
        rejected = sound.rejected;
        accepted = λ h. s;
        logged = sound.logged;
        enabled = sound.enabled;
        keyed = λ f. sound.keyed f k;
      })

  -- A request that is rejected changes nothing. One that is accepted came with the cookie of an
  -- enabled account, with its current session version and the role that the request wants, and
  -- writes one activity event. An enabled account remains where there was one. The primary key, which is
  -- unique before, stays unique if a new row gets a free one.
  pub handle-Answered :
      (request : Request) (username : Text) (version : ℕ) (db : Db)
      → IsKeyed db.users
      → Answered request username version db
          (handle hash verify next_id request username version db)
  handle-Answered request username version db k =
      Answered-Handled request username version db _ k (handle-Handled request username version db)
