-- ===== src/Users/Harmless.antt =====
-- The handlers of src/routes/settings_users.py, for an actor who is not a global admin.
use api_to_dns.Prelude.{
  ℕ, ◌≡◌, refl, sym, ap, ◌∙◌, ◌⊎◌, inl, inr, Bool, true, false, Option, none, some, List, [], ◌∷◌,
  ◌++◌, arith, Bool-cases, Option-cases,
}
use api_to_dns.Text.{Text}
use api_to_dns.Roles.{
  User, AssignmentError, parse_roles, normalize_selected_roles, find_user, target_is_global_admin,
  user_is_global_admin, global_admin_guard, get_user_roles,
}
use api_to_dns.Users.{
  Db, Answer, Problem, user_not_found, guarded, wrong_password, user_exists, assignment, reject,
  stop_if, commit, get_user, set_row, with_target, assigned, added, settings_user_disable,
  settings_user_enable, settings_user_delete, settings_user_update_roles, settings_user_create,
  settings_user_reset_password, settings_self_password_change, Request, change_own_password, create,
  disable, enable, delete, reset_password, update_roles, run,
}
use api_to_dns.Users.Rows.{
  In, IsKeyed, get_user-In_row, get_user-id, find_user-In, get_user-In, set_row-In, In-set_row,
  In-append, append-In,
}
use api_to_dns.Users.Powers.{IsSensitive, has, validated_selection, nothing_stored}

-- Two rows of one account, with the same sensitive roles.
abbrev pub SamePowers : User → User → Type 0
SamePowers u v =
    (v.id ≡ u.id)
    × (v.username ≡ u.username)
    × ((role : Text) → IsSensitive role → has v role ≡ has u role)

abbrev pub Unprivileged : User → Type 0
Unprivileged v = (role : Text) → IsSensitive role → has v role ≡ false

-- Each row afterwards is a row from before with the same sensitive roles, or has none; and the rows
-- of global admins are all still there, unchanged.
pub record Harmless (before after : List User) : Type 0 where
  pub rows : (v : User) → In v after → ((u : User) × In u before × SamePowers u v) ⊎ Unprivileged v
  pub admins : (u : User) → In u before → target_is_global_admin u ≡ true → In u after

SamePowers-refl : (u : User) → SamePowers u u
SamePowers-refl u = (refl, refl, λ role h. refl)

pub Harmless_refl : (us : List User) → Harmless us us
Harmless_refl us = record { rows = λ v h. inl (v, h, SamePowers-refl v); admins = λ u h k. h }

-- The new row of an account that is changed or deleted.
abbrev Keeps : User → Option User → Type 0
Keeps t none = Unit
Keeps t (some v) = SamePowers t v

Keeps-some : (t v : User) (new : Option User) → Keeps t new → some v ≡ new → SamePowers t v
Keeps-some t v new k e = rw (← e) at k

Harmless-set_row :
    (i : ℕ) (t : User) (new : Option User) (us : List User)
    → get_user i us ≡ some t
    → target_is_global_admin t ≡ false
    → Keeps t new
    → Harmless us (set_row i new us)
Harmless-set_row i t new us found not_admin keeps = record {
  rows = λ v h. elim (set_row-In i new v us h) [
    | inl e ↦ inl (t, get_user-In_row i us t found, Keeps-some t v new keeps e)
    | inr m ↦ inl (v, m, SamePowers-refl v)
  ];
  admins = λ u h k. elim (In-set_row i t u new us found h) [
    | inl e ↦ let clash : false ≡ true = sym not_admin ∙ ap target_is_global_admin (sym e) ∙ k in cc
    | inr m ↦ m
  ];
}

module _ (actor : Text) (db : Db) (plain : user_is_global_admin db.users actor ≡ false) where
  pub record Safe (a : Answer) : Type 0 where
    pub harmless : Harmless db.users a.1.users

  unchanged : (p : Problem) → Safe (reject p db)
  unchanged p = record { harmless = Harmless_refl db.users }

  Safe-stop_if : (b : Bool) (p : Problem) (rest : Answer) → Safe rest → Safe (stop_if b p db rest)
  unfolding stop_if
  Safe-stop_if true p rest h = unchanged p
  Safe-stop_if false p rest h = h

  guard_passed :
      (t : User) → global_admin_guard db.users actor t ≡ false → target_is_global_admin t ≡ false
  unfolding global_admin_guard
  guard_passed t h = ground (arith, plain)

  -- the row that the actor's name finds
  own_row : (t : User) → find_user db.users actor ≡ some t → target_is_global_admin t ≡ false
  unfolding user_is_global_admin target_is_global_admin get_user_roles
  own_row t e = rw e at plain

  Safe-commit :
      (event : Text) (i : ℕ) (t : User) (new : Option User)
      → get_user i db.users ≡ some t
      → target_is_global_admin t ≡ false
      → Keeps t new
      → Safe (commit event actor t new db)
  Safe-commit event i t new found not_admin keeps = record {
    harmless =
        Harmless-set_row t.id t new db.users
          (ap (λ (j : ℕ). get_user j db.users) (get_user-id i db.users found) ∙ found) not_admin
          keeps;
  }

  Safe-target :
      (i : ℕ) (handler : User → Answer)
      → ((t : User)
          → get_user i db.users ≡ some t
          → target_is_global_admin t ≡ false
          → Safe (handler t))
      → Safe (with_target actor (get_user i db.users) db handler)
  Safe-target i handler h = elim (Option-cases (get_user i db.users)) [
    | inl e ↦ rw e (unchanged user_not_found)
    | inr (t, e) ↦ rw e (elim (Bool-cases (global_admin_guard db.users actor t)) [
      | inl g ↦ rw g (unchanged guarded)
      | inr g ↦ rw g (h t e (guard_passed t g))
    ])
  ]

  Safe-assigned :
      (e : Option AssignmentError) (rest : Answer)
      → (e ≡ none → Safe rest)
      → Safe (assigned e db rest)
  Safe-assigned none rest h = h refl
  Safe-assigned (some e) rest h = unchanged (assignment e)

  disable-Safe : (i : ℕ) → Safe (settings_user_disable actor i db)
  unfolding settings_user_disable
  disable-Safe i = Safe-target i _ (λ t found n. Safe-stop_if _ _ _ (
      Safe-stop_if _ _ _
        (Safe-stop_if _ _ _ (Safe-commit _ i t (some _) found n (refl, refl, λ role h. refl)))))

  enable-Safe : (i : ℕ) → Safe (settings_user_enable actor i db)
  unfolding settings_user_enable
  enable-Safe i = Safe-target i _ (λ t found n.
      Safe-stop_if _ _ _ (Safe-commit _ i t (some _) found n (refl, refl, λ role h. refl)))

  delete-Safe : (i : ℕ) → Safe (settings_user_delete actor i db)
  unfolding settings_user_delete
  delete-Safe i = Safe-target i _ (λ t found n.
      Safe-stop_if _ _ _
        (Safe-stop_if _ _ _ (Safe-stop_if _ _ _ (Safe-commit _ i t none found n tt))))

  update_roles-Safe :
      (i : ℕ) (roles : List Text) → Safe (settings_user_update_roles actor i roles db)
  unfolding settings_user_update_roles
  update_roles-Safe i roles = Safe-target i _ (λ t found n. Safe-stop_if _ _ _ (
      Safe-assigned _ _ (λ e. Safe-stop_if _ _ _ (
        Safe-commit _ i t (some _) found n (
          refl,
          refl,
          λ role h.
              validated_selection db.users actor (normalize_selected_roles roles)
                (parse_roles t.roles) role plain e h,
        )))))

  Harmless-append :
      (new : User) (event : List (Text × (Text × Text)))
      → Unprivileged new
      → Safe (none, record { users = db.users ++ new ∷ []; events = event })
  Harmless-append new event plain_new = record {
    harmless = record {
      rows = λ v h. elim (append-In v db.users (new ∷ []) h) [
        | inl k ↦ inl (v, k, SamePowers-refl v)
        | inr (inl e) ↦ inr (rw e plain_new)
        | inr (inr k) ↦ elim k [ ]
      ];
      admins = λ u h k. In-append u db.users (new ∷ []) h;
    };
  }

  module _ (hash : Text → Text) (verify : Text → Text → Bool) (next_id : List User → ℕ) where
    added-Safe :
        (other : Option User) (new : User)
        → Unprivileged new
        → Safe (added hash verify next_id other actor new db)
    added-Safe (some u) new h = unchanged (user_exists new.username)
    added-Safe none new h = Harmless-append new _ h

    create-Safe :
        (username password : Text) (roles : List Text)
        → Safe (settings_user_create hash verify next_id actor username password roles db)
    unfolding settings_user_create
    create-Safe username password roles = Safe-stop_if _ _ _ (
        Safe-stop_if _ _ _ (
          Safe-assigned _ _ (λ e. added-Safe _ _ (λ role h.
            validated_selection db.users actor (normalize_selected_roles roles) [] role plain e h
            ∙ nothing_stored role h))))

    reset_password-Safe :
        (i : ℕ) (password confirm : Text)
        → Safe (settings_user_reset_password hash verify next_id actor i password confirm db)
    unfolding settings_user_reset_password
    reset_password-Safe i password confirm = Safe-stop_if _ _ _ (
        Safe-stop_if _ _ _ (
          Safe-target i _ (λ t found n.
            Safe-stop_if _ _ _ (Safe-commit _ i t (some _) found n (refl, refl, λ role h. refl)))))

    self_change-Safe :
        (current new confirm : Text)
        → IsKeyed db.users
        → Safe (settings_self_password_change hash verify next_id actor current new confirm db)
    unfolding settings_self_password_change
    self_change-Safe current new confirm keyed = Safe-stop_if _ _ _ (
        Safe-stop_if _ _ _ (elim (Option-cases (find_user db.users actor)) [
          | inl e ↦ rw e (unchanged wrong_password)
          | inr (t, e) ↦ rw e (
              Safe-stop_if _ _ _ (
                Safe-commit _ t.id t (some _)
                  (get_user-In db.users t keyed (find_user-In db.users actor e)) (own_row t e)
                  (refl, refl, λ role h. refl)))
        ]))

    pub run-Safe :
        (request : Request) → IsKeyed db.users → Safe (run hash verify next_id request actor db)
    run-Safe (change_own_password current new confirm) k = self_change-Safe current new confirm k
    run-Safe (create username password roles) k = create-Safe username password roles
    run-Safe (disable i) k = disable-Safe i
    run-Safe (enable i) k = enable-Safe i
    run-Safe (delete i) k = delete-Safe i
    run-Safe (reset_password i password confirm) k = reset_password-Safe i password confirm
    run-Safe (update_roles i roles) k = update_roles-Safe i roles
