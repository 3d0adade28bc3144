-- ===== src/Users/Reach.antt =====
-- Any number of requests to src/routes/settings_users.py by actors who are not global admins.
use api_to_dns.Prelude.{ℕ, ◌≡◌, refl, sym, ◌∙◌, inl, inr, Bool, true, false, none, List}
use api_to_dns.Text.{Text}
use api_to_dns.Roles.{User, global_admin, user_is_global_admin, target_is_global_admin}
use api_to_dns.Users.{Db, get_user, Request, handle}
use api_to_dns.Users.Rows.{In, IsKeyed}
use api_to_dns.Users.Powers.{has, admin-IsSensitive}
use api_to_dns.Users.Harmless.{Harmless}
use api_to_dns.Users.Escalation.{handle-Harmless, handle-Answered}

has-admin : (u : User) → has u global_admin ≡ target_is_global_admin u
unfolding target_is_global_admin
has-admin u = refl

-- The account, by its key and name, was a global admin before.
abbrev pub WasAdmin : List User → User → Type 0
WasAdmin before v =
    (u : User) × In u before
    × (u.id ≡ v.id)
    × (u.username ≡ v.username)
    × (target_is_global_admin u ≡ true)

Harmless-WasAdmin :
    (before after : List User) (v : User)
    → Harmless before after
    → In v after
    → target_is_global_admin v ≡ true
    → WasAdmin before v
Harmless-WasAdmin before after v h there admin = elim (h.rows v there) [
  | inl (u, was, (id, name, same)) ↦ (
    u,
    was,
    sym id,
    sym name,
    sym (has-admin u) ∙ (sym (same global_admin admin-IsSensitive) ∙ (has-admin v ∙ admin)),
  )
  | inr plain ↦
      let clash : false ≡ true =
        sym (plain global_admin admin-IsSensitive) ∙ (has-admin v ∙ admin) in
      absurd (false_not_true clash)
]
  where
    false_not_true : false ≡ true → ⊥
    false_not_true e = cc

module _ (hash : Text → Text) (verify : Text → Text → Bool) (next_id : List User → ℕ) where
  -- The databases that such requests lead to.
  pub data Reaches (db : Db) : Db → Type 0 where
    start : Reaches db db
    after :
        (middle : Db)
        → Reaches db middle
        → (request : Request) (username : Text) (version : ℕ)
        → user_is_global_admin middle.users username ≡ false
        → Reaches db (handle hash verify next_id request username version middle).1

  -- What holds of a database that is reached.
  pub record Contained (db final : Db) : Type 0 where
    pub keyed : IsKeyed final.users
    pub no_new_admin :
        (v : User) → In v final.users → target_is_global_admin v ≡ true → WasAdmin db.users v
    pub admins_kept :
        (u : User) → In u db.users → target_is_global_admin u ≡ true → In u final.users

  through :
      (db : Db) (v : User) (middle : Db)
      → Contained db middle
      → WasAdmin middle.users v
      → WasAdmin db.users v
  through db v middle c (u, there, id, name, admin) =
      let (w, was, id', name', admin') = c.no_new_admin u there admin in
      (w, was, id' ∙ id, name' ∙ name, admin')

  -- However many requests actors who are not global admins make, where new rows get free keys: the
  -- primary key stays unique, each global admin was one before, and the rows of the global admins are
  -- all still there, unchanged.
  pub Reaches-Contained :
      (db final : Db)
      → ((us : List User) → get_user (next_id us) us ≡ none)
      → IsKeyed db.users
      → Reaches db final
      → Contained db final
  Reaches-Contained db final fresh k start = record {
    keyed = k;
    no_new_admin = λ v there admin. (v, there, refl, refl, admin);
    admins_kept = λ u there admin. there;
  }
  Reaches-Contained db final fresh k (after middle way request username version plain) =
      let c = Reaches-Contained db middle fresh k way in
      let step =
        handle-Harmless hash verify next_id request username version middle plain c.keyed in
      let answered = handle-Answered hash verify next_id request username version middle c.keyed in
      record {
        keyed = answered.keyed (fresh middle.users);
        no_new_admin = λ v there admin.
            through db v middle c (Harmless-WasAdmin middle.users _ v step there admin);
        admins_kept = λ u there admin. step.admins u (c.admins_kept u there admin) admin;
      }
