-- ===== src/Users/Sound.antt =====
-- The handlers of src/routes/settings_users.py, for any actor.
use api_to_dns.Prelude.{
  ℕ, suc, ◌≤◌, ◌≡◌, refl, ap, ◌∙◌, inl, inr, Bool, true, false, Option, none, some, List, [], ◌∷◌,
  ◌++◌, arith, Bool-cases, Option-cases, length, length-append, leb, keep,
}
use api_to_dns.Text.{Text}
use api_to_dns.Roles.{User, AssignmentError, find_user, global_admin_guard}
use api_to_dns.Users.{
  Db, Answer, Problem, user_not_found, guarded, assignment, wrong_password, user_exists, reject,
  stop_if, commit, get_user, set_row, with_target, assigned, added, enabled_users,
  settings_user_disable, settings_user_enable, settings_user_delete, settings_user_update_roles,
  settings_user_create, settings_user_reset_password, settings_self_password_change, Request,
  change_own_password, create, disable, enable, delete, reset_password, update_roles, run,
}
use api_to_dns.Users.Keys.{KeepsId, IsKeyed-set_row, IsKeyed-append}
use api_to_dns.Users.Rows.{
  IsKeyed, Enables, get_user-id, find_user-In, get_user-In, enabled-set_row, enabled-set_row_one,
}

abbrev pub enabled_count : List User → ℕ
enabled_count users = length (enabled_users users)

enabled-append : (us vs : List User) → enabled_count us ≤ enabled_count (us ++ vs)
unfolding keep
enabled-append [] vs = omega arith
enabled-append (u ∷ us) vs = ground (arith, enabled-append us vs)

-- `n` is the key that a new row would get.
module _ (actor : Text) (db : Db) (n : ℕ) where
  pub record Sound (a : Answer) : Type 0 where
    pub rejected : (p : Problem) → a.0 ≡ some p → a.1 ≡ db
    pub logged : a.0 ≡ none → length a.1.events ≡ suc (length db.events)
    pub enabled : 1 ≤ enabled_count db.users → 1 ≤ enabled_count a.1.users
    pub keyed : get_user n db.users ≡ none → IsKeyed db.users → IsKeyed a.1.users

  unchanged : (p : Problem) → Sound (reject p db)
  unchanged p = record {
    rejected = λ q e. refl;
    logged = λ e. cc;
    enabled = λ h. h;
    keyed = λ f k. k;
  }

  Sound-stop_if :
      (b : Bool) (p : Problem) (rest : Answer)
      → (b ≡ false → Sound rest)
      → Sound (stop_if b p db rest)
  unfolding stop_if
  Sound-stop_if true p rest h = unchanged p
  Sound-stop_if false p rest h = h refl

  Sound-assigned :
      (e : Option AssignmentError) (rest : Answer) → Sound rest → Sound (assigned e db rest)
  Sound-assigned none rest h = h
  Sound-assigned (some e) rest h = unchanged (assignment e)

  Sound-target :
      (i : ℕ) (handler : User → Answer)
      → ((t : User) → get_user i db.users ≡ some t → Sound (handler t))
      → Sound (with_target actor (get_user i db.users) db handler)
  Sound-target i handler h = elim (Option-cases (get_user i db.users)) [
    | inl e ↦ rw e (unchanged user_not_found)
    | inr (t, e) ↦ rw e (elim (Bool-cases (global_admin_guard db.users actor t)) [
      | inl g ↦ rw g (unchanged guarded)
      | inr g ↦ rw g (h t e)
    ])
  ]

  Sound-write :
      (users : List User) (event : Text × (Text × Text))
      → (1 ≤ enabled_count db.users → 1 ≤ enabled_count users)
      → (get_user n db.users ≡ none → IsKeyed db.users → IsKeyed users)
      → Sound (none, record { users = users; events = db.events ++ event ∷ [] })
  Sound-write users event h g = record {
    rejected = λ q e. cc;
    logged = λ e. omega (arith, length-append db.events (event ∷ []));
    enabled = h;
    keyed = g;
  }

  key : (i : ℕ) (t : User) → get_user i db.users ≡ some t → get_user t.id db.users ≡ some t
  key i t found = ap (λ (j : ℕ). get_user j db.users) (get_user-id i db.users found) ∙ found

  -- A change that disables nobody.
  Sound-commit :
      (event : Text) (i : ℕ) (t : User) (new : Option User)
      → get_user i db.users ≡ some t
      → Enables t new
      → KeepsId t.id new
      → Sound (commit event actor t new db)
  Sound-commit event i t new found h same =
      Sound-write _ _ (λ k. omega (arith, enabled-set_row t.id t new db.users (key i t found) h))
        (λ f k. IsKeyed-set_row t.id new db.users same k)

  one_left :
      (t : User) (new : Option User)
      → leb (enabled_count db.users) 1 ≡ false
      → 1 ≤ enabled_count (set_row t.id new db.users)
  one_left t new several = ground (arith, several, enabled-set_row_one t.id new db.users)

  disable-Sound : (i : ℕ) → Sound (settings_user_disable actor i db)
  unfolding settings_user_disable
  disable-Sound i = Sound-target i _ (λ t found. Sound-stop_if _ _ _ (λ e.
      Sound-stop_if _ _ _ (λ several. Sound-stop_if _ _ _ (λ other.
        Sound-write _ _ (λ k. one_left t (some _) several)
          (λ f k. IsKeyed-set_row t.id (some _) db.users refl k)))))

  enable-Sound : (i : ℕ) → Sound (settings_user_enable actor i db)
  unfolding settings_user_enable
  enable-Sound i =
      Sound-target i _
        (λ t found. Sound-stop_if _ _ _ (λ e. Sound-commit _ i t (some _) found (inr refl) refl))

  delete-Sound : (i : ℕ) → Sound (settings_user_delete actor i db)
  unfolding settings_user_delete
  delete-Sound i = Sound-target i _ (λ t found. Sound-stop_if _ _ _ (λ e.
      Sound-stop_if _ _ _
        (λ f. Sound-stop_if _ _ _ (λ g. Sound-commit _ i t none found (ground (arith, g)) tt))))

  update_roles-Sound :
      (i : ℕ) (roles : List Text) → Sound (settings_user_update_roles actor i roles db)
  unfolding settings_user_update_roles
  update_roles-Sound i roles = Sound-target i _ (λ t found. Sound-stop_if _ _ _ (λ e.
      Sound-assigned _ _
        (Sound-stop_if _ _ _ (λ f. Sound-commit _ i t (some _) found (inl refl) refl))))

  module _ (hash : Text → Text) (verify : Text → Text → Bool) (next_id : List User → ℕ)
      (same : next_id db.users ≡ n) where
    added-Sound :
        (other : Option User) (new : User)
        → new.id ≡ next_id db.users
        → Sound (added hash verify next_id other actor new db)
    added-Sound (some u) new e = unchanged (user_exists new.username)
    added-Sound none new e =
        Sound-write (db.users ++ new ∷ []) _
          (λ k. omega (arith, enabled-append db.users (new ∷ [])))
          (λ f k.
            IsKeyed-append db.users new (ap (λ (i : ℕ). get_user i db.users) (e ∙ same) ∙ f) k)

    create-Sound :
        (username password : Text) (roles : List Text)
        → Sound (settings_user_create hash verify next_id actor username password roles db)
    unfolding settings_user_create
    create-Sound username password roles =
        Sound-stop_if _ _ _
          (λ e. Sound-stop_if _ _ _ (λ f. Sound-assigned _ _ (added-Sound _ _ refl)))

    reset_password-Sound :
        (i : ℕ) (password confirm : Text)
        → Sound (settings_user_reset_password hash verify next_id actor i password confirm db)
    unfolding settings_user_reset_password
    reset_password-Sound i password confirm = Sound-stop_if _ _ _ (λ e. Sound-stop_if _ _ _ (λ f.
        Sound-target i _ (λ t found.
          Sound-stop_if _ _ _ (λ g. Sound-commit _ i t (some _) found (inl refl) refl))))

    self_change-Sound :
        (current new confirm : Text)
        → IsKeyed db.users
        → Sound (settings_self_password_change hash verify next_id actor current new confirm db)
    unfolding settings_self_password_change
    self_change-Sound current new confirm keyed = Sound-stop_if _ _ _ (λ a.
        Sound-stop_if _ _ _ (λ b. elim (Option-cases (find_user db.users actor)) [
          | inl e ↦ rw e (unchanged wrong_password)
          | inr (t, e) ↦ rw e (
              Sound-stop_if _ _ _ (λ c.
                Sound-commit _ t.id t (some _)
                  (get_user-In db.users t keyed (find_user-In db.users actor e)) (inl refl) refl))
        ]))

    pub run-Sound :
        (request : Request) → IsKeyed db.users → Sound (run hash verify next_id request actor db)
    run-Sound (change_own_password current new confirm) k = self_change-Sound current new confirm k
    run-Sound (create username password roles) k = create-Sound username password roles
    run-Sound (disable i) k = disable-Sound i
    run-Sound (enable i) k = enable-Sound i
    run-Sound (delete i) k = delete-Sound i
    run-Sound (reset_password i password confirm) k = reset_password-Sound i password confirm
    run-Sound (update_roles i roles) k = update_roles-Sound i roles
