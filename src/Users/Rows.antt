-- ===== src/Users/Rows.antt =====
-- Finding, changing and deleting a row of the `user` table.
use api_to_dns.Prelude.{
  ℕ, suc, ◌≤◌, ◌≡◌, refl, sym, ap, ◌∙◌, ◌⊎◌, inl, inr, true, false, Option, none, some, List, [],
  ◌∷◌, ◌++◌, arith, length, keep, find_first, ◌==◌, ==_iff, Bool-cases, find_first-cons,
  find_first-holds,
}
use api_to_dns.Text.{Text, ◌===◌}
use api_to_dns.Text.Equal.{eq_of_===}
use api_to_dns.Roles.{User, find_user}
use api_to_dns.Users.{get_user, put, set_row, enabled_users}

abbrev pub In : User → List User → Type 0
In u [] = ⊥
In u (v ∷ vs) = (u ≡ v) ⊎ In u vs

-- The primary key is unique.
abbrev pub IsKeyed : List User → Type 0
IsKeyed [] = Unit
IsKeyed (u ∷ us) = (get_user u.id us ≡ none) × IsKeyed us

pub get_user-id : (i : ℕ) (us : List User) {t : User} → get_user i us ≡ some t → t.id ≡ i
unfolding get_user
get_user-id i us {t} h = (==_iff t.id i).0 (find_first-holds (λ u. u.id == i) us h)

pub find_user-username :
    (us : List User) (name : Text) {t : User} → find_user us name ≡ some t → t.username ≡ name
unfolding find_user
find_user-username us name {t} h =
    eq_of_=== t.username name (find_first-holds (λ u. u.username === name) us h)

pub find_user-In : (us : List User) (name : Text) {t : User} → find_user us name ≡ some t → In t us
unfolding find_user find_first
find_user-In [] name h = cc
find_user-In (u ∷ us) name h = elim (find_first-cons (λ v. v.username === name) u us h) [
  | inl k ↦ inl (sym (k.1))
  | inr k ↦ inr (find_user-In us name (k.1))
]

get_user-here : (i : ℕ) (u : User) (us : List User) → u.id ≡ i → get_user i (u ∷ us) ≡ some u
unfolding get_user find_first
get_user-here i u us e = rw ((==_iff u.id i).1 e) refl

get_user-there :
    (i : ℕ) (u : User) (us : List User) → (u.id == i) ≡ false → get_user i (u ∷ us) ≡ get_user i us
unfolding get_user find_first
get_user-there i u us e = rw e refl

-- A row is the one that its key finds.
pub get_user-In : (us : List User) (t : User) → IsKeyed us → In t us → get_user t.id us ≡ some t
get_user-In [] t k h = elim h [ ]
get_user-In (u ∷ us) t k (inl e) =
    get_user-here t.id u us (ap (λ (v : User). v.id) (sym e)) ∙ ap some (sym e)
get_user-In (u ∷ us) t k (inr h) =
    let found = get_user-In us t k.1 h in
    elim (Bool-cases (u.id == t.id)) [
      | inl e ↦ let clash : none ≡ some t = sym (rw ((==_iff u.id t.id).0 e) at (k.0)) ∙ found in cc
      | inr e ↦ get_user-there t.id u us e ∙ found
    ]

pub set_row-here :
    (i : ℕ) (new : Option User) (u : User) (us : List User)
    → (u.id == i) ≡ true
    → set_row i new (u ∷ us) ≡ put new us
unfolding set_row
set_row-here i new u us e = rw e refl

pub set_row-there :
    (i : ℕ) (new : Option User) (u : User) (us : List User)
    → (u.id == i) ≡ false
    → set_row i new (u ∷ us) ≡ u ∷ set_row i new us
unfolding set_row
set_row-there i new u us e = rw e refl

put-In :
    (v : User) (new : Option User) (us : List User) → In v (put new us) → (some v ≡ new) ⊎ In v us
put-In v none us h = inr h
put-In v (some w) us (inl e) = inl (ap some e)
put-In v (some w) us (inr h) = inr h

In-put : (v : User) (new : Option User) (us : List User) → In v us → In v (put new us)
In-put v none us h = h
In-put v (some w) us h = inr h

-- A row of the changed table is the new one or an old one.
pub set_row-In :
    (i : ℕ) (new : Option User) (v : User) (us : List User)
    → In v (set_row i new us)
    → (some v ≡ new) ⊎ In v us
unfolding set_row
set_row-In i new v [] h = inr h
set_row-In i new v (u ∷ us) h = elim (Bool-cases (u.id == i)) [
  | inl e ↦ elim (put-In v new us (rw (set_row-here i new u us e) at h)) [
    | inl k ↦ inl k
    | inr k ↦ inr (inr k)
  ]
  | inr e ↦
      let both : In v (u ∷ set_row i new us) = rw (set_row-there i new u us e) at h in
      elim both [
        | inl k ↦ inr (inl k)
        | inr k ↦ elim (set_row-In i new v us k) [ inl m ↦ inl m | inr m ↦ inr (inr m) ]
      ]
]

-- The other rows stay.
pub In-set_row :
    (i : ℕ) (t u : User) (new : Option User) (us : List User)
    → get_user i us ≡ some t
    → In u us
    → (u ≡ t) ⊎ In u (set_row i new us)
unfolding get_user find_first
In-set_row i t u new [] h k = elim k [ ]
In-set_row i t u new (v ∷ us) h k = elim (find_first-cons (λ w. w.id == i) v us h) [
  | inl m ↦ elim k [
    | inl e ↦ inl (e ∙ m.1)
    | inr r ↦ inr (rw (set_row-here i new v us m.0) (In-put u new us r))
  ]
  | inr m ↦ rw (set_row-there i new v us m.0) (elim k [
    | inl e ↦ inr (inl e)
    | inr r ↦ elim (In-set_row i t u new us m.1 r) [ inl s ↦ inl s | inr s ↦ inr (inr s) ]
  ])
]

-- A change that disables nobody, and a deletion of a disabled account, keep the enabled ones.
abbrev pub Enables : User → Option User → Type 0
Enables t none = t.disabled ≡ true
Enables t (some v) = (v.disabled ≡ t.disabled) ⊎ (v.disabled ≡ false)

enabled-put :
    (t : User) (new : Option User) (us : List User)
    → Enables t new
    → length (enabled_users (t ∷ us)) ≤ length (enabled_users (put new us))
unfolding keep
enabled-put t none us h = ground (arith)
enabled-put t (some v) us h = ground (arith)

enabled-put_one :
    (t : User) (new : Option User) (us : List User)
    → length (enabled_users (t ∷ us)) ≤ suc (length (enabled_users (put new us)))
unfolding keep
enabled-put_one t none us = ground (arith)
enabled-put_one t (some v) us = ground (arith)

enabled-cons :
    (u : User) (us vs : List User)
    → length (enabled_users us) ≤ length (enabled_users vs)
    → length (enabled_users (u ∷ us)) ≤ length (enabled_users (u ∷ vs))
unfolding keep
enabled-cons u us vs h = ground (arith)

enabled-cons_one :
    (u : User) (us vs : List User)
    → length (enabled_users us) ≤ suc (length (enabled_users vs))
    → length (enabled_users (u ∷ us)) ≤ suc (length (enabled_users (u ∷ vs)))
unfolding keep
enabled-cons_one u us vs h = ground (arith)

pub enabled-set_row :
    (i : ℕ) (t : User) (new : Option User) (us : List User)
    → get_user i us ≡ some t
    → Enables t new
    → length (enabled_users us) ≤ length (enabled_users (set_row i new us))
unfolding get_user find_first
enabled-set_row i t new [] h k = cc
enabled-set_row i t new (v ∷ us) h k = elim (find_first-cons (λ w. w.id == i) v us h) [
  | inl m ↦ rw (set_row-here i new v us m.0) (rw (m.1) (enabled-put t new us k))
  | inr m ↦
      rw (set_row-there i new v us m.0)
        (enabled-cons v us (set_row i new us) (enabled-set_row i t new us m.1 k))
]

-- Any change of one row takes one enabled account away at most.
pub enabled-set_row_one :
    (i : ℕ) (new : Option User) (us : List User)
    → length (enabled_users us) ≤ suc (length (enabled_users (set_row i new us)))
unfolding set_row keep
enabled-set_row_one i new [] = omega arith
enabled-set_row_one i new (v ∷ us) = elim (Bool-cases (v.id == i)) [
  | inl e ↦ rw (set_row-here i new v us e) (enabled-put_one v new us)
  | inr e ↦
      rw (set_row-there i new v us e)
        (enabled-cons_one v us (set_row i new us) (enabled-set_row_one i new us))
]

pub get_user-In_row : (i : ℕ) (us : List User) (t : User) → get_user i us ≡ some t → In t us
unfolding get_user find_first
get_user-In_row i [] t h = cc
get_user-In_row i (u ∷ us) t h = elim (find_first-cons (λ w. w.id == i) u us h) [
  | inl m ↦ inl (sym m.1)
  | inr m ↦ inr (get_user-In_row i us t m.1)
]

pub In-append : (u : User) (us vs : List User) → In u us → In u (us ++ vs)
In-append u [] vs h = elim h [ ]
In-append u (w ∷ us) vs (inl e) = inl e
In-append u (w ∷ us) vs (inr h) = inr (In-append u us vs h)

pub append-In : (u : User) (us vs : List User) → In u (us ++ vs) → In u us ⊎ In u vs
append-In u [] vs h = inr h
append-In u (w ∷ us) vs (inl e) = inl (inl e)
append-In u (w ∷ us) vs (inr h) = elim (append-In u us vs h) [ inl k ↦ inl (inr k) | inr k ↦ inr k ]
